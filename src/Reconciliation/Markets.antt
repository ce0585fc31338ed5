-- ===== src/Reconciliation/Markets.antt =====
-- `reconcilePool`, `reconcileMarket` and `reconcileTimelockAction` of dike-services/src/jobs/reconciliation.ts.
use dike_monolith.Prelude.{
  ℕ, Bool, true, false, ◌&&◌, Option, ◌∷◌, String, ◌==◌, string_eq, if◌then◌else◌,
}
use dike_monolith.Prelude.Int.{ℤ}
use dike_monolith.Store.Values.{JsValue, SqlValue}
use dike_monolith.Store.Tables.{markets, pools, timelock_actions}
use dike_monolith.Store.Upserts.{Columns}
use dike_monolith.Store.Database.{note_mismatch}
use dike_monolith.Observability.Bus.{StateUpdate}
use dike_monolith.Task.{Task, pure, lift, update, publish, or_default, ◌>>=◌, ◌>>◌, if_some}
use dike_monolith.Reconciliation.Environment.{Environment}
use dike_monolith.Reconciliation.Values.{
  json_column, prop, read_prop, read_tag, is_truthy, integer_of, normal, normal_id,
}
use dike_monolith.Reconciliation.Rows.{save}
use dike_monolith.Reconciliation.Summaries.{nil_value, zero_text, no_value, required, own, col, sql}
use dike_monolith.Reconciliation.Requests.{reconcile_request}

-- `typeof tag === "string" && tag === name`.
unfoldable pub is_text : String → JsValue → Bool
is_text name (JsValue.string s) = s == name
is_text name v = false

unfoldable pub is_false : JsValue → Bool
is_false (JsValue.boolean true) = false
is_false (JsValue.boolean false) = true
is_false v = false

module _ (env : Environment) (ledger : ℕ) where
  unfoldable pub pool_columns : ℤ → JsValue → Columns
  pool_columns id n =
      ("network", SqlValue.text env.network)
      ∷ ("pool_id", SqlValue.number id)
      ∷ ("market_id", col env ledger "market_id" nil_value n)
      ∷ ("yes_reserve", col env ledger "yes_reserve" zero_text n)
      ∷ ("no_reserve", col env ledger "no_reserve" zero_text n)
      ∷ ("total_lp_shares", col env ledger "total_lp_shares" zero_text n)
      ∷ ("accumulated_lp_fees", col env ledger "accumulated_lp_fees" zero_text n)
      ∷ ("accumulated_protocol_fees", col env ledger "accumulated_protocol_fees" zero_text n)
      ∷ ("accumulated_cod_fees", col env ledger "accumulated_cod_fees" zero_text n)
      ∷ ("fee_per_share_scaled", col env ledger "fee_per_share_scaled" zero_text n)
      ∷ ("live", col env ledger "live" no_value n)
      ∷ own env ledger

  -- `reconcilePool`, with the market's id that it returns.
  unfoldable pub reconcile_pool : ℤ → Task (Option ℤ)
  reconcile_pool id = do
    found ← lift (env.contracts.get_pool id)
    lift (read_prop "market_id" found)
    save pools (pool_columns id (normal env.language found))
    if_some (normal_id env.language (prop "market_id" (normal env.language found)))
        (λ market. publish (StateUpdate.market env.network market))
    pure (normal_id env.language (prop "market_id" (normal env.language found)))

  unfoldable pub market_columns : ℤ → JsValue → JsValue → JsValue → JsValue → Columns
  market_columns id n status final fees =
      ("network", SqlValue.text env.network)
      ∷ ("market_id", SqlValue.number id)
      ∷ ("question", col env ledger "question" nil_value n)
      ∷ ("question_hash", col env ledger "question_hash" nil_value n)
      ∷ ("rules_uri", col env ledger "rules_uri" nil_value n)
      ∷ ("rules_hash", col env ledger "rules_hash" nil_value n)
      ∷ ("creator", col env ledger "creator" nil_value n)
      ∷ ("category", col env ledger "category" nil_value n)
      ∷ ("collateral", col env ledger "collateral" nil_value n)
      ∷ ("yes_token_id", col env ledger "yes_token_id" nil_value n)
      ∷ ("no_token_id", col env ledger "no_token_id" nil_value n)
      ∷ ("expiry", col env ledger "expiry" nil_value n)
      ∷ ("status", sql env ledger status)
      ∷ ("has_final_outcome", col env ledger "has_final_outcome" no_value n)
      ∷ ("final_outcome", sql env ledger final)
      ∷ ("pool_id", col env ledger "pool_id" nil_value n)
      ∷ ("bond_amount", col env ledger "bond_amount" zero_text n)
      ∷ ("dispute_window", col env ledger "dispute_window" nil_value n)
      ∷ ("has_request", col env ledger "has_request" no_value n)
      ∷ ("request_id", col env ledger "request_id" nil_value n)
      ∷ ("created_at_unix", col env ledger "created_at" nil_value n)
      ∷ ("fee_config_json", json_column env.language (normal env.language fees))
      ∷ own env ledger

  -- `reconcilePool` without its result.
  unfoldable pub reconcile_pool_of : ℤ → Task Unit
  reconcile_pool_of id = do reconciled ← reconcile_pool id; pure tt

  unfoldable pub not_tradeable : ℤ → Task Unit
  not_tradeable id = update (
      note_mismatch env.network "market_registry" (env.language.to_text (JsValue.number id))
        "Registry reports non-tradeable while projection is live")

  unfoldable pub reconcile_market : ℤ → Task Unit
  reconcile_market id = do
    found ← lift (env.contracts.get_market id)
    lift (read_prop "status" found)
    status ← lift (read_tag "status" found)
    final ← lift (read_tag "final_outcome" found)
    save markets
        (market_columns id (normal env.language found) status final (prop "fee_config" found))
    publish (StateUpdate.market env.network id)
    if_some (integer_of (prop "pool_id" found)) reconcile_pool_of
    if is_truthy (prop "has_request" found)
        then (do
          request ← lift (required (integer_of (prop "request_id" found)))
          reconcile_request env ledger request)
        else pure tt
    if is_false (or_default (env.contracts.is_tradeable id) JsValue.null) && is_text "Live" status
        then not_tradeable id
        else pure tt

  -- `action.kind.tag` and the summary of `reconcileTimelockAction`.
  unfoldable pub action_columns : ℤ → JsValue → JsValue → JsValue → Columns
  action_columns id n kind payload =
      ("network", SqlValue.text env.network)
      ∷ ("action_id", SqlValue.number id)
      ∷ ("kind", sql env ledger kind)
      ∷ ("target", col env ledger "target" nil_value n)
      ∷ ("payload_json", json_column env.language payload)
      ∷ ("execute_after", col env ledger "execute_after" nil_value n)
      ∷ ("expires_at", col env ledger "expires_at" nil_value n)
      ∷ ("executed", col env ledger "executed" no_value n)
      ∷ ("cancelled", col env ledger "cancelled" no_value n)
      ∷ ("payload_hash", col env ledger "payload_hash" nil_value n)
      ∷ own env ledger

  unfoldable pub reconcile_timelock_action : ℤ → Task Unit
  reconcile_timelock_action id = do
    found ← lift (env.contracts.get_timelock_action id)
    lift (read_prop "kind" found)
    kind ← lift (read_tag "kind" found)
    save timelock_actions
        (action_columns id (normal env.language found) kind (prop "payload" found))
    publish (StateUpdate.timelock_action env.network id)
