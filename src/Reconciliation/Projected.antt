-- ===== src/Reconciliation/Projected.antt =====
-- What dike-services/src/jobs/reconciliation.ts makes of a table's rows.
use dike_monolith.Prelude.{
  ◌≡◌, ◌≢◌, ap, sym, subst, ◌∙◌, arith, Bool, List, [], ◌∷◌, String, false, string_eq, ◌==◌,
  ==_refl,
}
use dike_monolith.Store.Tables.{Table}
use dike_monolith.Store.Upserts.{
  Columns, RowKey, row_key_eq, Rows, key_of, write, null_columns, value_of, given, or_keep,
  value_of-write,
}
use dike_monolith.Store.Upserts.Laws.{upsert_taken, upsert_refused}
use dike_monolith.Store.Database.{Database}
use dike_monolith.Task.{returned, Services, Task, ◌>>◌}
use dike_monolith.Task.Steps.{then_on}
use dike_monolith.Task.Keeps.{Keeps}
use dike_monolith.Reconciliation.Saves.{save-Keeps}
use dike_monolith.Reconciliation.Rows.{table_name, put, set_rows, save}
use dike_monolith.Reconciliation.Accepted.{Accepted}

-- The row of a summary holds what the summary gives, and what it held before in the columns that the summary
-- does not give; the other rows are the same.
pub record Projected (t : Table) (columns : Columns) (before after : Rows) : Type 0 where
  pub own :
      (c : String)
      → value_of (key_of t columns) c after
        ≡ or_keep (given c columns) (value_of (key_of t columns) c before)
  pub rows :
      (key : RowKey) (c : String)
      → key_of t columns ≢ key
      → value_of key c after ≡ value_of key c before

-- A summary whose columns are all allowed, and that fills those of its table, is written.
pub save-Accepted :
    (t : Table) (columns : Columns) (s : Services)
    → Accepted t columns
    → null_columns t columns ≡ []
    → save t columns s ≡ (
      returned tt,
      record s { db = set_rows t (write (key_of t columns) columns (s.db.tables t)) s.db },
    )
unfolding save
save-Accepted t columns s h filled = ground (arith, upsert_taken t columns (s.db.tables t) h filled)

-- One that leaves a column null changes nothing.
pub save_refused :
    (t : Table) (columns : Columns) (s : Services) (n : String × Bool) (ns : List (String × Bool))
    → Accepted t columns
    → null_columns t columns ≡ n ∷ ns
    → (save t columns s).1 ≡ s
unfolding save
save_refused t columns s n ns h null =
    ground (arith, upsert_refused t columns (s.db.tables t) n ns h null)

put_same : (t : Table) (rows : Rows) (tables : Table → Rows) → put t rows tables t ≡ rows
unfolding put
put_same t rows tables = ground (arith, ==_refl (table_name t))

put_other :
    (t u : Table) (rows : Rows) (tables : Table → Rows)
    → (table_name t == table_name u) ≡ false
    → put t rows tables u ≡ tables u
unfolding put
put_other t u rows tables h = ground (arith, h)

pub write-Projected :
    (t : Table) (columns : Columns) (rows : Rows)
    → Projected t columns rows (write (key_of t columns) columns rows)
write-Projected t columns rows =
    let key = key_of t columns in
    record {
      own = λ c. value_of-write key key c columns rows ∙ ground (arith, ==_refl key);
      rows = λ j c h.
          value_of-write key j c columns rows ∙ ground (arith, h, row_key_eq.beq_iff key j);
    }

-- A table that a task does not write.
abbrev pub At : Table → Rows → Database → Type 0
At t rows db = db.tables t ≡ rows

module _ (t : Table) (rows : Rows) where
  set_rows-At :
      (u : Table) (own : Rows) (db : Database)
      → (table_name u == table_name t) ≡ false
      → At t rows db
      → At t rows (set_rows u own db)
  unfolding set_rows
  set_rows-At u own db other h = put_other u t own db.tables other ∙ h

  pub save-At :
      (u : Table) (columns : Columns)
      → (table_name u == table_name t) ≡ false
      → Keeps (At t rows) (save u columns)
  save-At u columns other =
      save-Keeps (At t rows) u columns (λ own db h. set_rows-At u own db other h)

pub set_rows-at : (t : Table) (own : Rows) (db : Database) → (set_rows t own db).tables t ≡ own
unfolding set_rows
set_rows-at t own db = put_same t own db.tables

-- What follows a write leaves the table as it was written.
pub written_then :
    {B : Type 0} (t : Table) (columns : Columns) (rest : Task B) (s : Services)
    → Accepted t columns
    → null_columns t columns ≡ []
    → ((rows : Rows) → Keeps (At t rows) rest)
    → Projected t columns (s.db.tables t) (((save t columns >> rest) s).1.db.tables t)
written_then t columns rest s a filled k =
    let own = write (key_of t columns) columns (s.db.tables t) in
    let after = record s { db = set_rows t own s.db } in
    let step =
      then_on (save t columns) (λ u. rest) s after tt (save-Accepted t columns s a filled) in
    let stays = (k own).at after (set_rows-at t own s.db) in
    subst (Projected t columns (s.db.tables t)) (sym (ap (λ r. r.1.db.tables t) step ∙ stays))
      (write-Projected t columns (s.db.tables t))
