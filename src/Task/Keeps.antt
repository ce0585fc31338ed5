-- ===== src/Task/Keeps.antt =====
-- Properties of the database that tasks keep: a rule for each way to make a task.
use dike_monolith.Prelude.{Option, none, some, List, [], ◌∷◌, Bool, true, false, if◌then◌else◌}
use dike_monolith.Store.Database.{Database}
use dike_monolith.Observability.Metrics.{MetricsStore}
use dike_monolith.Observability.Bus.{StateUpdate}
use dike_monolith.Task.{
  Ended, returned, threw, Services, Task, pure, lift, gets, update, publish, count, continue, ◌>>=◌,
  safely, for_each, if_some,
}

-- Whether the task returns or throws, the database has the property after it if it had it before.
pub record Keeps {A : Type 0} (P : Database → Type 0) (m : Task A) : Type 0 where
  pub at : (s : Services) → P s.db → P (m s).1.db

module _ {A : Type 0} {P : Database → Type 0} where
  pub Keeps-pure : (a : A) → Keeps P (pure a)
  unfolding pure
  Keeps-pure a = record { at = λ s h. h }

  pub Keeps-lift : (r : Ended A) → Keeps P (lift r)
  unfolding lift
  Keeps-lift r = record { at = λ s h. h }

  pub Keeps-gets : (f : Database → A) → Keeps P (gets f)
  unfolding gets
  Keeps-gets f = record { at = λ s h. h }

  pub Keeps-if : (b : Bool) (m n : Task A) → Keeps P m → Keeps P n → Keeps P (if b then m else n)
  Keeps-if true m n km kn = km
  Keeps-if false m n km kn = kn

  pub Keeps-safely : (m : Task A) → Keeps P m → Keeps P (safely m)
  unfolding safely
  Keeps-safely m km = record { at = km.at }

  pub Keeps-if_some :
      (o : Option A) (body : A → Task Unit)
      → ((a : A) → Keeps P (body a))
      → Keeps P (if_some o body)
  unfolding if_some pure
  Keeps-if_some none body k = record { at = λ s h. h }
  Keeps-if_some (some a) body k = k a

module _ {P : Database → Type 0} where
  pub Keeps-update :
      (f : Database → Database) → ((db : Database) → P db → P (f db)) → Keeps P (update f)
  unfolding update
  Keeps-update f k = record { at = λ s h. k s.db h }

  pub Keeps-publish : (u : StateUpdate) → Keeps P (publish u)
  unfolding publish
  Keeps-publish u = record { at = λ s h. h }

  pub Keeps-count : (f : MetricsStore → MetricsStore) → Keeps P (count f)
  unfolding count
  Keeps-count f = record { at = λ s h. h }

module _ {A B : Type 0} {P : Database → Type 0} where
  Keeps-continue :
      (r : Ended A) (f : A → Task B) → ((a : A) → Keeps P (f a)) → Keeps P (continue r f)
  unfolding continue
  Keeps-continue (returned a) f k = record { at = λ s h. (k a).at s h }
  Keeps-continue (threw e) f k = record { at = λ s h. h }

  pub Keeps-bind :
      (m : Task A) (f : A → Task B) → Keeps P m → ((a : A) → Keeps P (f a)) → Keeps P (m >>= f)
  unfolding ◌>>=◌
  Keeps-bind m f km k = record { at = λ s h. (Keeps-continue (m s).0 f k).at (m s).1 (km.at s h) }

pub Keeps-for_each :
    {A : Type 0} {P : Database → Type 0} (as' : List A) (body : A → Task Unit)
    → ((a : A) → Keeps P (body a))
    → Keeps P (for_each as' body)
unfolding for_each
Keeps-for_each [] body k = Keeps-pure tt
Keeps-for_each (a ∷ as') body k = Keeps-bind (body a) _ (k a) (λ _. Keeps-for_each as' body k)

pub ruleset keeps_rules = (
  Keeps-pure, Keeps-lift, Keeps-gets, Keeps-if, Keeps-safely, Keeps-if_some, Keeps-update,
  Keeps-publish, Keeps-count, Keeps-bind, Keeps-for_each,
)
