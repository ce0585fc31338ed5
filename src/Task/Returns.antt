-- ===== src/Task/Returns.antt =====
-- Tasks that never throw, and what a task brings about.
use dike_monolith.Prelude.{◌≡◌, refl, ap, sym, subst, ◌∙◌, Option, none, some, List, [], ◌∷◌, ◌++◌}
use dike_monolith.Store.Database.{Database}
use dike_monolith.Task.{
  Ended, returned, threw, Services, Task, pure, gets, continue, ◌>>=◌, safely, for_each, if_some,
}
use dike_monolith.Task.Keeps.{Keeps, Keeps-for_each}
use dike_monolith.Task.Steps.{then_on}

pub record Returns {A : Type 0} (m : Task A) : Type 0 where
  pub at : (s : Services) → (a : A) × ((m s).0 ≡ returned a)

module _ {A : Type 0} where
  pub Returns-pure : (a : A) → Returns (pure a)
  unfolding pure
  Returns-pure a = record { at = λ s. (a, refl) }

  pub Returns-gets : (f : Database → A) → Returns (gets f)
  unfolding gets
  Returns-gets f = record { at = λ s. (f s.db, refl) }

  pub Returns-safely : (m : Task A) → Returns (safely m)
  unfolding safely
  Returns-safely m = record { at = λ s. (tt, refl) }

module _ {A : Type 0} where
  pub Returns-if_some :
      (o : Option A) (body : A → Task Unit)
      → ((a : A) → Returns (body a))
      → Returns (if_some o body)
  unfolding if_some
  Returns-if_some none body k = Returns-pure tt
  Returns-if_some (some a) body k = k a

module _ {A B : Type 0} where
  pub Returns-bind :
      (m : Task A) (f : A → Task B) → Returns m → ((a : A) → Returns (f a)) → Returns (m >>= f)
  Returns-bind m f h k = record {
    at = λ s.
        let (a, e) = h.at s in
        let (b, d) = (k a).at (m s).1 in
        (b, ap (λ r. r.0) (then_on m f s (m s).1 a (ap (λ r. (r, (m s).1)) e)) ∙ d);
  }

pub Returns-for_each :
    {A : Type 0} (as' : List A) (body : A → Task Unit)
    → ((a : A) → Returns (body a))
    → Returns (for_each as' body)
unfolding for_each
Returns-for_each [] body k = Returns-pure tt
Returns-for_each (a ∷ as') body k = Returns-bind (body a) _ (k a) (λ u. Returns-for_each as' body k)

pub ruleset returns_rules =
    (Returns-pure, Returns-gets, Returns-safely, Returns-if_some, Returns-bind, Returns-for_each)

-- The database has the property after the task, whatever it was before and however the task ends.
pub record Ensures {A : Type 0} (P : Database → Type 0) (m : Task A) : Type 0 where
  pub at : (s : Services) → P (m s).1.db

module _ {P : Database → Type 0} {A : Type 0} where
  pub Ensures-safely : (m : Task A) → Ensures P m → Ensures P (safely m)
  unfolding safely
  Ensures-safely m h = record { at = h.at }

  pub Ensures-Keeps : (m : Task A) → Ensures P m → Keeps P m
  Ensures-Keeps m h = record { at = λ s k. h.at s }

module _ {P : Database → Type 0} {A B : Type 0} where
  continue_keeps :
      (r : Ended A) (f : A → Task B) (s : Services)
      → ((a : A) → Keeps P (f a))
      → P s.db
      → P (continue r f s).1.db
  unfolding continue
  continue_keeps (returned a) f s k h = (k a).at s h
  continue_keeps (threw e) f s k h = h

  -- The first part brings it about, and the rest keeps it.
  pub Ensures-first :
      (m : Task A) (f : A → Task B) → Ensures P m → ((a : A) → Keeps P (f a)) → Ensures P (m >>= f)
  unfolding ◌>>=◌
  Ensures-first m f h k = record { at = λ s. continue_keeps (m s).0 f (m s).1 k (h.at s) }

  -- The first part returns, and the rest brings it about.
  pub Ensures-rest :
      (m : Task A) (f : A → Task B) → Returns m → ((a : A) → Ensures P (f a)) → Ensures P (m >>= f)
  Ensures-rest m f h k = record {
    at = λ s.
        let (a, e) = h.at s in
        subst (λ r. P r.1.db) (sym (then_on m f s (m s).1 a (ap (λ r. (r, (m s).1)) e)))
          ((k a).at (m s).1);
  }

-- The body of one element of a loop whose bodies all return and keep it.
pub Ensures-for_each :
    {A : Type 0} {P : Database → Type 0} (before : List A) (a : A) (after : List A)
    (body : A → Task Unit)
    → ((b : A) → Returns (body b))
    → ((b : A) → Keeps P (body b))
    → Ensures P (body a)
    → Ensures P (for_each (before ++ (a ∷ after)) body)
unfolding for_each
Ensures-for_each [] a after body r k h =
    Ensures-first (body a) _ h (λ u. Keeps-for_each after body k)
Ensures-for_each (b ∷ before) a after body r k h =
    Ensures-rest (body b) _ (r b) (λ u. Ensures-for_each before a after body r k h)
