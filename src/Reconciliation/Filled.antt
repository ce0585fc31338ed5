-- ===== src/Reconciliation/Filled.antt =====
-- The summaries of dike-services/src/jobs/reconciliation.ts against the columns that
-- dike-services/migrations/001_init.sql declares NOT NULL.
use dike_monolith.Prelude.{
  ◌≡◌, ◌≢◌, refl, ℕ, Bool, false, String, string_eq, [], true, some, or_else,
}
use dike_monolith.Prelude.Int.{ℤ}
use dike_monolith.Store.Values.{JsValue, SqlValue}
use dike_monolith.Store.Tables.{not_null_columns, markets, pools}
use dike_monolith.Store.Upserts.{refuses, given, null_columns}
use dike_monolith.Indexer.Codecs.{normalize_contract_value}
use dike_monolith.Indexer.Dispatcher.{present}
use dike_monolith.Reconciliation.Environment.{Language, Environment}
use dike_monolith.Reconciliation.Values.{prop, normal, column, to_sql, json_column}
use dike_monolith.Reconciliation.Markets.{pool_columns, market_columns}

module _ (language : Language) where
  present_filled :
      (default : Bool) (v other : JsValue)
      → refuses default (some (to_sql language other)) ≡ false
      → refuses default (some (to_sql language (or_else (present v) other))) ≡ false
  unfolding present to_sql refuses
  present_filled default JsValue.undefined other h = h
  present_filled default JsValue.null other h = h
  present_filled default (JsValue.boolean b) other h = refl
  present_filled default (JsValue.number n) other h = refl
  present_filled default (JsValue.bigint n) other h = refl
  present_filled default (JsValue.string s) other h = refl
  present_filled default (JsValue.array vs) other h = refl
  present_filled default (JsValue.object fs) other h = refl

  -- A column with a default of its own is never null.
  column_filled :
      (default : Bool) (key : String) (other n : JsValue)
      → refuses default (some (to_sql language other)) ≡ false
      → refuses default (some (column language key other n)) ≡ false
  unfolding column
  column_filled default key other n h = present_filled default (prop key n) other h

  value_filled :
      (default : Bool) (v other : JsValue)
      → v ≢ JsValue.undefined
      → v ≢ JsValue.null
      → refuses default (some (to_sql language (or_else (present v) other))) ≡ false
  unfolding present to_sql refuses
  value_filled default JsValue.undefined other h k = absurd (h refl)
  value_filled default JsValue.null other h k = absurd (k refl)
  value_filled default (JsValue.boolean b) other h k = refl
  value_filled default (JsValue.number n) other h k = refl
  value_filled default (JsValue.bigint n) other h k = refl
  value_filled default (JsValue.string s) other h k = refl
  value_filled default (JsValue.array vs) other h k = refl
  value_filled default (JsValue.object fs) other h k = refl

  key_filled :
      (key : String) (other n : JsValue)
      → prop key n ≢ JsValue.undefined
      → prop key n ≢ JsValue.null
      → refuses false (some (column language key other n)) ≡ false
  unfolding column
  key_filled key other n h k = value_filled false (prop key n) other h k

  json_filled :
      (default : Bool) (v : JsValue)
      → v ≢ JsValue.undefined
      → refuses default (some (json_column language (normal language v))) ≡ false
  unfolding json_column normal normalize_contract_value refuses
  json_filled default JsValue.undefined h = absurd (h refl)
  json_filled default JsValue.null h = refl
  json_filled default (JsValue.boolean b) h = refl
  json_filled default (JsValue.number n) h = refl
  json_filled default (JsValue.bigint n) h = refl
  json_filled default (JsValue.string s) h = refl
  json_filled default (JsValue.array vs) h = refl
  json_filled default (JsValue.object fs) h = refl

module _ (env : Environment) (ledger : ℕ) where
  has_value :
      (key : String) (b : Bool) (n : JsValue)
      → refuses true (some (column env.language key (JsValue.boolean b) n)) ≡ false
  unfolding to_sql refuses
  has_value key b n = column_filled env.language true key (JsValue.boolean b) n refl

  has_text :
      (key s : String) (n : JsValue)
      → refuses true (some (column env.language key (JsValue.string s) n)) ≡ false
  unfolding to_sql refuses
  has_text key s n = column_filled env.language true key (JsValue.string s) n refl

  of_text : (s : String) → refuses false (some (SqlValue.text s)) ≡ false
  unfolding refuses
  of_text s = refl

  of_number : (n : ℤ) → refuses false (some (SqlValue.number n)) ≡ false
  unfolding refuses
  of_number n = refl

  -- A market that is reported with fees fills its row.
  pub market_filled :
      (id : ℤ) (n status final fees : JsValue)
      → fees ≢ JsValue.undefined
      → null_columns markets (market_columns env ledger id n status final fees) ≡ []
  unfolding null_columns not_null_columns given market_columns
  market_filled id n status final fees h =
      rw
        (
          of_text env.network,
          of_number id,
          has_value "has_final_outcome" false n,
          has_value "has_request" false n,
          json_filled env.language true fees h,
        )
        refl

  -- A pool that is reported with a market fills its row.
  pub pool_filled :
      (id : ℤ) (n : JsValue)
      → prop "market_id" n ≢ JsValue.undefined
      → prop "market_id" n ≢ JsValue.null
      → null_columns pools (pool_columns env ledger id n) ≡ []
  unfolding null_columns not_null_columns given pool_columns
  pool_filled id n h k =
      rw
        (
          of_text env.network,
          of_number id,
          key_filled env.language "market_id" JsValue.null n h k,
          has_text "yes_reserve" "0" n,
          has_text "no_reserve" "0" n,
          has_text "total_lp_shares" "0" n,
          has_text "accumulated_lp_fees" "0" n,
          has_text "accumulated_protocol_fees" "0" n,
          has_text "accumulated_cod_fees" "0" n,
          has_value "live" false n,
        )
        refl
