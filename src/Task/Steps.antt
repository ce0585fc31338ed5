-- ===== src/Task/Steps.antt =====
-- How a task goes on after its first part.
use dike_monolith.Prelude.{◌≡◌, ap, String}
use dike_monolith.Task.{Ended, returned, threw, Services, Task, lift, continue, ◌>>=◌}

module _ {A B : Type 0} where
  pub then_on :
      (m : Task A) (f : A → Task B) (s after : Services) (a : A)
      → m s ≡ (returned a, after)
      → (m >>= f) s ≡ f a after
  unfolding ◌>>=◌ continue
  then_on m f s after a h = ap (λ r. continue r.0 f r.1) h

  pub then_off :
      (m : Task A) (f : A → Task B) (s after : Services) (e : String)
      → m s ≡ (threw e, after)
      → (m >>= f) s ≡ (threw e, after)
  unfolding ◌>>=◌ continue
  then_off m f s after e h = ap (λ r. continue r.0 f r.1) h

  -- A read that returns, and one that throws.
  pub read_on :
      (r : Ended A) (f : A → Task B) (s : Services) (a : A)
      → r ≡ returned a
      → (lift r >>= f) s ≡ f a s
  unfolding lift
  read_on r f s a h = then_on (lift r) f s s a (ap (λ x. (x, s)) h)

  pub read_off :
      (r : Ended A) (f : A → Task B) (s : Services) (e : String)
      → r ≡ threw e
      → (lift r >>= f) s ≡ (threw e, s)
  unfolding lift
  read_off r f s e h = then_off (lift r) f s s e (ap (λ x. (x, s)) h)
