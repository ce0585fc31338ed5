-- ===== src/Reconciliation/Saves.antt =====
-- What an upsert of dike-services/src/db/repositories/state-repository.ts keeps, whether it is taken or refused.
use dike_monolith.Prelude.{◌≡◌, refl, subst, arith}
use dike_monolith.Store.Tables.{Table}
use dike_monolith.Store.Upserts.{Columns, Rows, Upserted, ok, err, upsert}
use dike_monolith.Store.Database.{Database}
use dike_monolith.Task.{Services}
use dike_monolith.Task.Keeps.{Keeps}
use dike_monolith.Reconciliation.Rows.{set_rows, save}

module _ (P : Database → Type 0) (t : Table) (columns : Columns)
    (step : (rows : Rows) (db : Database) → P db → P (set_rows t rows db)) where
  saved_keeps :
      (s : Services) (u : Upserted Rows)
      → upsert t columns (s.db.tables t) ≡ u
      → P s.db
      → P (save t columns s).1.db
  unfolding save
  saved_keeps s (err e) p h = subst P {x = s.db} {y = (save t columns s).1.db} (ground (arith, p)) h
  saved_keeps s (ok rows) p h =
      subst P {x = set_rows t rows s.db} {y = (save t columns s).1.db} (ground (arith, p))
        (step rows s.db h)

  pub save-Keeps : Keeps P (save t columns)
  save-Keeps = record { at = λ s h. saved_keeps s (upsert t columns (s.db.tables t)) refl h }
