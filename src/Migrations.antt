-- ===== src/Migrations.antt =====
-- dike-services/src/db/migrations.ts. The directory, the files' texts and what a text does to the schema are
-- parameters; what a text does is one transaction with the record of its name, so one that fails leaves the schema as it was.
-- That the lock, `BEGIN`, `ROLLBACK` or the unlock fails is not modelled.
use Prim.Native.Nat.{Ordering}
use Prim.Native.String.{compare}
use dike_monolith.Prelude.{
  ℕ, Bool, true, false, ◌||◌, Option, none, some, List, [], ◌∷◌, String, ◌==◌, string_eq,
  if◌then◌else◌, keep,
}
use dike_monolith.Store.Upserts.{includes}
use dike_monolith.Task.{Ended, returned, threw}
pub mod Order
pub mod Runs
mod Tests

-- The database: its schema, the names in `schema_migrations`, the lock and the client that is taken of the pool.
pub record Migrated (Schema : Type 0) : Type 0 where
  pub schema : Schema
  pub applied : List String
  pub locked : Bool
  pub connected : Bool

abbrev pub Ran : Type 0 → Type 0
Ran Schema = Ended {0} Unit × Migrated Schema

unfoldable pub ends_with : String → String → Bool
ends_with suffix String.[] = suffix == ""
ends_with suffix (String.◌∷◌ c s) = (String.◌∷◌ c s) == suffix || ends_with suffix s

unfoldable pub is_before : Ordering → Bool
is_before Ordering.gt = false
is_before _ = true

unfoldable pub insert_sorted : String → List String → List String
insert_sorted f [] = f ∷ []
insert_sorted f (g ∷ gs) =
    let rest = insert_sorted f gs in if is_before (compare f g) then f ∷ (g ∷ gs) else g ∷ rest

unfoldable pub sort : List String → List String
sort [] = []
sort (f ∷ fs) = insert_sorted f (sort fs)

-- The `finally` blocks, whose statements are taken to succeed.
unfoldable pub release : {Schema : Type 0} → Migrated Schema → Migrated Schema
release m = record m { locked = false; connected = false }

unfoldable pub migration_files : List String → List String
migration_files names = sort (keep (ends_with ".sql") names)

module _ {Schema : Type 0} (read_file : String → Ended String)
    (execute : String → Schema → Ended Schema) where
  -- `COMMIT`, with the name recorded, or `ROLLBACK`.
  unfoldable pub commit : String → Ended Schema → Migrated Schema → Ran Schema
  commit file (threw e) m = (threw e, m)
  commit file (returned schema) m =
      (returned tt, record m { schema = schema; applied = file ∷ m.applied })

  unfoldable pub migrate : String → Ended String → Migrated Schema → Ran Schema
  migrate file (threw e) m = (threw e, m)
  migrate file (returned sql) m = commit file (execute sql m.schema) m

  -- The body of the loop.
  unfoldable pub apply_file : String → Migrated Schema → Ran Schema
  apply_file file m =
      if includes m.applied file then (returned tt, m) else migrate file (read_file file) m

  unfoldable pub next :
      Ended {0} Unit → (Migrated Schema → Ran Schema) → Migrated Schema → Ran Schema
  next (threw e) rest m = (threw e, m)
  next (returned u) rest m = rest m

  unfoldable pub apply_files : List String → Migrated Schema → Ran Schema
  apply_files [] m = (returned tt, m)
  apply_files (f ∷ fs) m = next (apply_file f m).0 (apply_files fs) (apply_file f m).1

  unfoldable pub locked_run : Ended (List String) → Migrated Schema → Ran Schema
  locked_run (threw e) m = (threw e, m)
  locked_run (returned names) m = apply_files (migration_files names) m

  unfoldable pub run_migrations : Ended (List String) → Migrated Schema → Ran Schema
  run_migrations directory m =
      let ran = locked_run directory (record m { locked = true; connected = true }) in
      (ran.0, release ran.1)
