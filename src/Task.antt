-- ===== src/Task.antt =====
-- What an asynchronous method of dike-services does: it returns or throws, and what it wrote before a
-- throw stays written, so the state comes back beside the error too.
pub mod Keeps
pub mod Returns
pub mod Steps
use dike_monolith.Prelude.{Option, none, some, List, [], ◌∷◌, String, Bool, if◌then◌else◌}
use dike_monolith.Store.Database.{Database}
use dike_monolith.Observability.Metrics.{MetricsStore}
use dike_monolith.Observability.Bus.{StateUpdate}

pub data Ended {ℓ} (A : Type ℓ) : Type ℓ where
  returned : A → Ended A
  threw : String → Ended A

-- The database, the metrics and what was published, newest first.
pub record Services : Type 0 where
  pub db : Database
  pub metrics : MetricsStore
  pub updates : List StateUpdate

abbrev pub Task : Type 0 → Type 0
Task A = Services → Ended A × Services

module _ {A : Type 0} where
  unfoldable pub pure : A → Task A
  pure a s = (returned a, s)

  -- A call that reads something outside.
  unfoldable pub lift : Ended A → Task A
  lift r s = (r, s)

  unfoldable pub gets : (Database → A) → Task A
  gets f s = (returned (f s.db), s)

  -- `.catch(() => a)` of such a call.
  unfoldable pub or_default : Ended A → A → A
  or_default (returned a) other = a
  or_default (threw e) other = other

unfoldable pub update : (Database → Database) → Task Unit
update f s = (returned tt, record s { db = f s.db })

unfoldable pub publish : StateUpdate → Task Unit
publish u s = (returned tt, record s { updates = u ∷ s.updates })

unfoldable pub count : (MetricsStore → MetricsStore) → Task Unit
count f s = (returned tt, record s { metrics = f s.metrics })

module _ {A B : Type 0} where
  unfoldable pub continue : Ended A → (A → Task B) → Task B
  continue (returned a) f s = f a s
  continue (threw e) f s = (threw e, s)

  infixl 5 ◌>>=◌ ◌>>◌
  unfoldable pub ◌>>=◌ : Task A → (A → Task B) → Task B
  ◌>>=◌ m f s = continue (m s).0 f (m s).1

  abbrev pub ◌>>◌ : Task A → Task B → Task B
  m >> n = m >>= λ _. n

-- `try { … } catch { }`: what was written stays, and the error goes.
unfoldable pub safely : {A : Type 0} → Task A → Task Unit
safely m s = (returned tt, (m s).1)

-- `for … of …` with a body that may throw.
unfoldable pub for_each : {A : Type 0} → List A → (A → Task Unit) → Task Unit
for_each [] body = pure tt
for_each (a ∷ as') body = body a >> for_each as' body

-- `if (value !== undefined) …`.
unfoldable pub if_some : {A : Type 0} → Option A → (A → Task Unit) → Task Unit
if_some none body = pure tt
if_some (some a) body = body a
