-- ===== src/Migrations/Runs.antt =====
-- What a run of the migrations of dike-services/src/db/migrations.ts leaves.
use mathlib.Core.List.{Perm}
use dike_monolith.Prelude.{
  keep, ◌≡◌, ◌⊎◌, inl, inr, refl, ap, sym, subst, ◌∙◌, arith, true, false, List, [], ◌∷◌, ◌++◌,
  String, string_eq, Bool-cases, ==_refl, All,
}
use dike_monolith.Store.Upserts.{includes}
use dike_monolith.Task.{Ended, returned, threw}
use dike_monolith.Migrations.{
  Migrated, Ran, ends_with, migration_files, commit, migrate, apply_file, next, apply_files,
  release, locked_run, run_migrations,
}
use dike_monolith.Migrations.Order.{IsAscending, IsAscending-migration_files}

module _ {Schema : Type 0} (read_file : String → Ended String)
    (execute : String → Schema → Ended Schema) where
  -- The runs: each file that is not applied is read and executed on the schema that those before it left, and its name
  -- is recorded with it.
  pub data Steps : List String → Migrated Schema → Migrated Schema → Type 0 where
    finished : (m : Migrated Schema) → Steps [] m m
    skipped :
        (f : String) (fs : List String) (m after : Migrated Schema)
        → includes m.applied f ≡ true
        → Steps fs m after
        → Steps (f ∷ fs) m after
    applied :
        (f : String) (fs : List String) (sql : String) (schema : Schema) (m after : Migrated Schema)
        → includes m.applied f ≡ false
        → read_file f ≡ returned sql
        → execute sql m.schema ≡ returned schema
        → Steps fs (record m { schema = schema; applied = f ∷ m.applied }) after
        → Steps (f ∷ fs) m after

  -- The file that stops a run cannot be read, or fails on the schema that it meets.
  pub data Stops (f : String) (m : Migrated Schema) (e : String) : Type 0 where
    unread : includes m.applied f ≡ false → read_file f ≡ threw e → Stops f m e
    failed :
        (sql : String)
        → includes m.applied f ≡ false
        → read_file f ≡ returned sql
        → execute sql m.schema ≡ threw e
        → Stops f m e

  Ended-cases :
      {A : Type 0} (r : Ended A) → ((a : A) × (r ≡ returned a)) ⊎ ((e : String) × (r ≡ threw e))
  Ended-cases (returned a) = inl (a, refl)
  Ended-cases (threw e) = inr (e, refl)

  file_skipped :
      (f : String) (m : Migrated Schema)
      → includes m.applied f ≡ true
      → apply_file read_file execute f m ≡ (returned tt, m)
  unfolding apply_file
  file_skipped f m h = ground (arith, h)

  file_tried :
      (f : String) (m : Migrated Schema)
      → includes m.applied f ≡ false
      → apply_file read_file execute f m ≡ migrate read_file execute f (read_file f) m
  unfolding apply_file
  file_tried f m h = ground (arith, h)

  files_next :
      (f : String) (fs : List String) (m after : Migrated Schema)
      → apply_file read_file execute f m ≡ (returned tt, after)
      → apply_files read_file execute (f ∷ fs) m ≡ apply_files read_file execute fs after
  unfolding apply_files next
  files_next f fs m after h =
      ap (λ r. next read_file execute r.0 (apply_files read_file execute fs) r.1) h

  files_stop :
      (f : String) (fs : List String) (m : Migrated Schema) (e : String)
      → apply_file read_file execute f m ≡ (threw e, m)
      → apply_files read_file execute (f ∷ fs) m ≡ (threw e, m)
  unfolding apply_files next
  files_stop f fs m e h =
      ap (λ r. next read_file execute r.0 (apply_files read_file execute fs) r.1) h

  -- What the loop comes to.
  abbrev pub Ends : List String → Migrated Schema → Ran Schema → Type 0
  Ends fs m r =
      ((r.0 ≡ returned tt) × Steps fs m r.1)
      ⊎ ((before : List String) × (f : String) × (rest : List String) × (e : String) × (fs
            ≡ before ++ (f ∷ rest))
          × (r.0 ≡ threw e)
          × Steps before m r.1
          × Stops f r.1 e)

  Stops-Ends :
      (f : String) (fs : List String) (m : Migrated Schema) (e : String)
      → Stops f m e
      → apply_file read_file execute f m ≡ (threw e, m)
      → Ends (f ∷ fs) m (apply_files read_file execute (f ∷ fs) m)
  Stops-Ends f fs m e stop h =
      subst (Ends (f ∷ fs) m) (sym (files_stop f fs m e h))
        (inr ([], f, fs, e, refl, refl, finished m, stop))

  goes_on :
      (f : String) (fs : List String) (m after : Migrated Schema)
      → ((r : Migrated Schema) (gs : List String) → Steps gs after r → Steps (f ∷ gs) m r)
      → apply_file read_file execute f m ≡ (returned tt, after)
      → Ends fs after (apply_files read_file execute fs after)
      → Ends (f ∷ fs) m (apply_files read_file execute (f ∷ fs) m)
  goes_on f fs m after step h ends =
      subst (Ends (f ∷ fs) m) (sym (files_next f fs m after h)) (elim ends [
        | inl (a, s) ↦ inl (a, step _ fs s)
        | inr (before, g, rest, e, p, a, s, stop) ↦
            inr (f ∷ before, g, rest, e, ap (λ l. f ∷ l) p, a, step _ before s, stop)
      ])

  apply_files-Ends :
      (fs : List String) (m : Migrated Schema) → Ends fs m (apply_files read_file execute fs m)
  unfolding apply_files migrate commit
  apply_files-Ends [] m = inl (refl, finished m)
  apply_files-Ends (f ∷ fs) m = elim (Bool-cases (includes m.applied f)) [
    | inl y ↦
        goes_on f fs m m (λ r gs s. skipped f gs m r y s) (file_skipped f m y)
          (apply_files-Ends fs m)
    | inr n ↦ elim (Ended-cases (read_file f)) [
      | inr (e, h) ↦
          Stops-Ends f fs m e (unread n h)
            (file_tried f m n ∙ ap (λ r. migrate read_file execute f r m) h)
      | inl (sql, h) ↦ elim (Ended-cases (execute sql m.schema)) [
        | inr (e, k) ↦ Stops-Ends f fs m e (failed sql n h k) (
            file_tried f m n
            ∙ ap (λ r. migrate read_file execute f r m) h
            ∙ ap (λ r. commit read_file execute f r m) k)
        | inl (schema, k) ↦
            let after : Migrated Schema = record m { schema = schema; applied = f ∷ m.applied } in
            goes_on f fs m after (λ r gs s. applied f gs sql schema m r n h k s)
              (file_tried f m n
                ∙ ap (λ r. migrate read_file execute f r m) h
                ∙ ap (λ r. commit read_file execute f r m) k)
              (apply_files-Ends fs after)
      ]
    ]
  ]

  -- A run that finds its directory runs the names that end in `.sql`, each as often as it is listed, in the order of the
  -- names: each file that was not applied before is executed on the schema that those before it left, and recorded, and
  -- the run ends well; or it stops with the error of the first file that cannot be read or fails, with those before it
  -- applied and nothing of that file.
  pub run_migrations-Ends :
      (names : List String) (m : Migrated Schema)
      → (files : List String) × IsAscending files
        × Perm files (keep (ends_with ".sql") names)
        × (after : Migrated Schema) × ((run_migrations read_file execute (returned names) m).1
            ≡ release after)
        × Ends files
            (record m { locked = true; connected = true })
            ((run_migrations read_file execute (returned names) m).0, after)
  unfolding run_migrations locked_run release
  run_migrations-Ends names m =
      let start : Migrated Schema = record m { locked = true; connected = true } in
      let (ascending, same) = IsAscending-migration_files names in
      (
        migration_files names,
        ascending,
        same,
        (apply_files read_file execute (migration_files names) start).1,
        refl,
        apply_files-Ends (migration_files names) start,
      )

  grows :
      (g : String) (fs : List String) (m after : Migrated Schema)
      → Steps fs m after
      → includes m.applied g ≡ true
      → includes after.applied g ≡ true
  unfolding includes
  grows g [] m after (finished n) h = h
  grows g (f ∷ fs) m after (skipped _ _ _ _ y s) h = grows g fs m after s h
  grows g (f ∷ fs) m after (applied _ _ sql schema _ _ n r x s) h =
      grows g fs (record m { schema = schema; applied = f ∷ m.applied }) after s (ground (arith, h))

  applied-All :
      (fs : List String) (m after : Migrated Schema)
      → Steps fs m after
      → All (λ f. includes after.applied f ≡ true) fs
  unfolding includes
  applied-All [] m after (finished n) = tt
  applied-All (f ∷ fs) m after (skipped _ _ _ _ y s) =
      (grows f fs m after s y, applied-All fs m after s)
  applied-All (f ∷ fs) m after (applied _ _ sql schema _ _ n r x s) =
      let one : Migrated Schema = record m { schema = schema; applied = f ∷ m.applied } in
      (grows f fs one after s (ground (arith, ==_refl f)), applied-All fs one after s)

  skip-All :
      (fs : List String) (m : Migrated Schema)
      → All (λ f. includes m.applied f ≡ true) fs
      → apply_files read_file execute fs m ≡ (returned tt, m)
  unfolding apply_files
  skip-All [] m h = refl
  skip-All (f ∷ fs) m (h, hs) = files_next f fs m m (file_skipped f m h) ∙ skip-All fs m hs

  good_end :
      (fs : List String) (m : Migrated Schema) (r : Ran Schema)
      → Ends fs m r
      → r.0 ≡ returned tt
      → Steps fs m r.1
  good_end fs m r (inl (a, s)) h = s
  good_end fs m r (inr (before, f, rest, e, p, a, s, stop)) h = absurd (ground (arith, sym h ∙ a))

  -- After a run that ends well, a run over the same directory ends well too, and changes nothing.
  pub run_migrations-again :
      (names : List String) (m : Migrated Schema)
      → (run_migrations read_file execute (returned names) m).0 ≡ returned tt
      → run_migrations read_file execute
          (returned names)
          (run_migrations read_file execute (returned names) m).1
        ≡ (returned tt, (run_migrations read_file execute (returned names) m).1)
  unfolding run_migrations locked_run release
  run_migrations-again names m h =
      let files = migration_files names in
      let start : Migrated Schema = record m { locked = true; connected = true } in
      let after : Migrated Schema = (apply_files read_file execute files start).1 in
      let steps =
        good_end files start (apply_files read_file execute files start)
          (apply_files-Ends files start) h in
      ap (λ r. (r.0, release r.1))
        (skip-All files (record after { locked = true; connected = true })
          (applied-All files start after steps))
