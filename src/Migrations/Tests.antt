-- ===== src/Migrations/Tests.antt =====
-- The migrations of a directory of two, of which the second fails once.
use mathlib.Core.List.{Perm}
use dike_monolith.Prelude.{
  keep, ◌≡◌, refl, true, false, List, [], ◌∷◌, String, ◌==◌, string_eq, if◌then◌else◌,
}
use dike_monolith.Store.Upserts.{includes}
use dike_monolith.Task.{Ended, returned, threw}
use dike_monolith.Migrations.{
  Migrated, ends_with, is_before, insert_sorted, sort, migration_files, commit, migrate, apply_file,
  next, apply_files, release, locked_run, run_migrations,
}
use dike_monolith.Migrations.Order.{IsAscending}
use dike_monolith.Migrations.Runs.{Ends, run_migrations-Ends, run_migrations-again}

abbrev read_file : String → Ended String
read_file f = returned f

-- The schema is the list of the texts that ran; the second needs the first.
abbrev execute : String → List String → Ended (List String)
execute sql [] = if sql == "002.sql" then threw "no table" else returned (sql ∷ [])
execute sql (s ∷ ss) = returned (sql ∷ (s ∷ ss))

abbrev fresh : Migrated (List String)
fresh = record { schema = []; applied = []; locked = false; connected = false }

abbrev names : List String
names = "002.sql" ∷ "README.md" ∷ "001.sql" ∷ []

two_files_example :
    (files : List String) × IsAscending files
    × Perm files (keep (ends_with ".sql") names)
    × (after : Migrated (List String)) × ((run_migrations read_file execute
          (returned names)
          fresh).1
        ≡ release after)
    × Ends read_file execute files
        (record fresh { locked = true; connected = true })
        ((run_migrations read_file execute (returned names) fresh).0, after)
two_files_example = run_migrations-Ends read_file execute names fresh

ran_well : (run_migrations read_file execute (returned names) fresh).0 ≡ returned tt
unfolding run_migrations locked_run migration_files sort insert_sorted is_before ends_with
    apply_files apply_file next migrate commit includes
ran_well = refl

again_example :
    run_migrations read_file execute
      (returned names)
      (run_migrations read_file execute (returned names) fresh).1
    ≡ (returned tt, (run_migrations read_file execute (returned names) fresh).1)
again_example = run_migrations-again read_file execute names fresh ran_well
