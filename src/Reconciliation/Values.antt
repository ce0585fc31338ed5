-- ===== src/Reconciliation/Values.antt =====
-- How dike-services/src/jobs/reconciliation.ts reads the values that the contracts return.
use dike_monolith.Prelude.{
  ℕ, Bool, true, false, not, Option, none, some, [], map, String, ◌==◌, string_eq, if◌then◌else◌,
  or_else,
}
use dike_monolith.Prelude.Dict.{lookup}
use dike_monolith.Prelude.Int.{ℤ, pos}
use dike_monolith.Store.Values.{JsValue, SqlValue, fields}
use dike_monolith.Store.Upserts.{Columns}
use dike_monolith.Indexer.Codecs.{normalize_contract_value}
use dike_monolith.Indexer.Dispatcher.{present}
use dike_monolith.Task.{Ended, returned, threw}
use dike_monolith.Reconciliation.Environment.{Language}

-- `value.key`, of a value that is neither undefined nor null.
unfoldable pub prop : String → JsValue → JsValue
prop key (JsValue.object fs) = or_else (lookup key (fields fs)) JsValue.undefined
prop key v = JsValue.undefined

-- The same of any value. The text of the language's own error is shortened.
unfoldable pub read_prop : String → JsValue → Ended JsValue
read_prop key JsValue.undefined = threw "TypeError"
read_prop key JsValue.null = threw "TypeError"
read_prop key v = returned (prop key v)

-- `value.key.tag`, of a value that is neither undefined nor null.
unfoldable pub read_tag : String → JsValue → Ended JsValue
read_tag key v = read_prop "tag" (prop key v)

-- Whether a condition takes the value.
unfoldable pub is_truthy : JsValue → Bool
is_truthy JsValue.undefined = false
is_truthy JsValue.null = false
is_truthy (JsValue.boolean b) = b
is_truthy (JsValue.number (pos ℕ.zero)) = false
is_truthy (JsValue.bigint (pos ℕ.zero)) = false
is_truthy (JsValue.string s) = not (s == "")
is_truthy v = true

-- An id that is a number or a bigint.
unfoldable pub integer_of : JsValue → Option ℤ
integer_of (JsValue.number n) = some n
integer_of (JsValue.bigint n) = some n
integer_of v = none

module _ (language : Language) where
  -- `toAmount`.
  unfoldable pub to_amount : JsValue → String
  to_amount (JsValue.bigint n) = language.digits n
  to_amount (JsValue.number n) = language.to_text (JsValue.number n)
  to_amount (JsValue.string s) = if s == "" then "0" else s
  to_amount v = "0"

  -- What the driver makes of a parameter of a statement.
  unfoldable pub to_sql : JsValue → SqlValue
  to_sql JsValue.undefined = SqlValue.null
  to_sql JsValue.null = SqlValue.null
  to_sql (JsValue.boolean b) = SqlValue.boolean b
  to_sql (JsValue.number n) = SqlValue.number n
  to_sql (JsValue.bigint n) = SqlValue.text (language.digits n)
  to_sql (JsValue.string s) = SqlValue.text s
  to_sql (JsValue.array vs) = SqlValue.text (language.json (JsValue.array vs))
  to_sql (JsValue.object fs) = SqlValue.text (language.json (JsValue.object fs))

  -- `normalizeContractValue`.
  unfoldable pub normal : JsValue → JsValue
  normal v = normalize_contract_value language.digits v

  -- `normalized.key ?? other`, as a column.
  unfoldable pub column : String → JsValue → JsValue → SqlValue
  column key other normalized = to_sql (or_else (present (prop key normalized)) other)

  -- The columns of `...normalized`.
  unfoldable pub spread : JsValue → Columns
  spread (JsValue.object fs) = map (λ f. (f.0, to_sql f.1)) (fields fs)
  spread v = []

  -- `Number(normalized.key)` of a text or a number; a text that is no number counts as none.
  unfoldable pub normal_id : JsValue → Option ℤ
  normal_id (JsValue.string s) = language.to_number s
  normal_id (JsValue.number n) = some n
  normal_id v = none

  -- A column of `JSON.stringify(value)`, which gives no text for undefined.
  unfoldable pub json_column : JsValue → SqlValue
  json_column JsValue.undefined = SqlValue.null
  json_column v = SqlValue.text (language.json v)
