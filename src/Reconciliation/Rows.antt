-- ===== src/Reconciliation/Rows.antt =====
-- The upserts of dike-services/src/db/repositories/state-repository.ts as tasks: one that is refused throws.
use Prim.Native.String.{◌++◌}
use dike_monolith.Prelude.{List, [], ◌∷◌, String, ◌==◌, string_eq, nat_eq, pair_eq, if◌then◌else◌}
use dike_monolith.Prelude.Int.{ℤ, pos}
use dike_monolith.Prelude.Dict.{insert_new}
use dike_monolith.Store.Values.{int_eq}
use dike_monolith.Store.Tables.{
  Table, markets, pools, resolution_requests, council_cases, council_votes, timelock_actions,
  vault_snapshots, user_positions, lp_positions, user_vault_state,
}
use dike_monolith.Store.Upserts.{
  Columns, Rows, ok, err, UpsertError, unexpected_columns, no_columns, null_column, upsert,
}
use dike_monolith.Store.Database.{Database}
use dike_monolith.Task.{returned, threw, Task, ◌>>◌, update}

unfoldable pub table_name : Table → String
table_name markets = "markets"
table_name pools = "pools"
table_name resolution_requests = "resolution_requests"
table_name council_cases = "council_cases"
table_name council_votes = "council_votes"
table_name timelock_actions = "timelock_actions"
table_name vault_snapshots = "vault_snapshots"
table_name user_positions = "user_positions"
table_name lp_positions = "lp_positions"
table_name user_vault_state = "user_vault_state"

unfoldable pub join : List String → String
join [] = ""
join (s ∷ []) = s
join (s ∷ (t ∷ ts)) = s ++ (", " ++ join (t ∷ ts))

unfoldable pub error_text : UpsertError → String
error_text (unexpected_columns t keys) =
    "Error: Unexpected columns for " ++ (table_name t ++ (": " ++ join keys))
error_text (no_columns t) = "Error: No allowed columns provided for " ++ table_name t
error_text (null_column t c) =
    "error: null value in column \""
    ++ (c ++ ("\" of relation \"" ++ (table_name t ++ "\" violates not-null constraint")))

-- The tables with one of them replaced.
unfoldable pub put : Table → Rows → (Table → Rows) → Table → Rows
put t rows tables u = if table_name t == table_name u then rows else tables u

unfoldable pub set_rows : Table → Rows → Database → Database
set_rows t rows db = record db { tables = put t rows db.tables }

unfoldable pub save : Table → Columns → Task Unit
save t columns s = elim (upsert t columns (s.db.tables t)) [
  | err e ↦ (threw (error_text e), s)
  | ok rows ↦ (returned tt, record s { db = set_rows t rows s.db })
]

-- A new row of a position has claimed no fees.
unfoldable pub add_position : String → ℤ → String → Database → Database
add_position network pool owner db = record db {
  fees_claimed = insert_new (network, (pool, owner)) (pos 0) db.fees_claimed;
}

-- `upsertLpPosition`.
unfoldable pub save_lp_position : String → ℤ → String → Columns → Task Unit
save_lp_position network pool owner columns = do
  save lp_positions columns
  update (add_position network pool owner)
