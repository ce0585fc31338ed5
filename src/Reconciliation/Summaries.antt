-- ===== src/Reconciliation/Summaries.antt =====
-- What the summaries of dike-services/src/jobs/reconciliation.ts share.
use dike_monolith.Prelude.{ℕ, false, Option, none, some, [], ◌∷◌, String, string_eq}
use dike_monolith.Prelude.Int.{ℤ, pos}
use dike_monolith.Store.Values.{JsValue, SqlValue}
use dike_monolith.Store.Upserts.{Columns}
use dike_monolith.Task.{Ended, returned, threw}
use dike_monolith.Reconciliation.Environment.{Environment}
use dike_monolith.Reconciliation.Values.{to_sql, column}

abbrev pub nil_value : JsValue
nil_value = JsValue.null

abbrev pub zero_text : JsValue
zero_text = JsValue.string "0"

abbrev pub no_value : JsValue
no_value = JsValue.boolean false

-- An id that a call of a contract takes; one that is no number makes the call throw.
unfoldable pub required : Option ℤ → Ended ℤ
required none = threw "RangeError"
required (some n) = returned n

module _ (env : Environment) (ledger : ℕ) where
  abbrev pub own : Columns
  own =
      ("last_reconciled_ledger", SqlValue.number (pos ledger))
      ∷ ("reconciled_at", SqlValue.text env.now)
      ∷ []

  abbrev pub col : String → JsValue → JsValue → SqlValue
  col key other n = column env.language key other n

  abbrev pub sql : JsValue → SqlValue
  sql v = to_sql env.language v
