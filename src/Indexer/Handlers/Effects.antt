-- ===== src/Indexer/Handlers/Effects.antt =====
-- `recordAmmUserEffects` and `recordVaultUserEffects` of dike-services/src/indexer/dispatcher.ts.
use dike_monolith.Prelude.{
  ℕ, zero, suc, ◌||◌, Option, none, some, List, [], ◌∷◌, String, ◌==◌, string_eq, if◌then◌else◌,
  or_else,
}
use dike_monolith.Prelude.Int.{ℤ, pos}
use dike_monolith.Store.Values.{JsValue, SqlValue}
use dike_monolith.Store.Upserts.{Columns}
use dike_monolith.Store.Database.{EventRecord, insert_trade, insert_liquidity_event}
use dike_monolith.Domain.{Outcome, outcome_text}
use dike_monolith.Task.{Task, pure, update, ◌>>◌, if_some}
use dike_monolith.Indexer.Dispatcher.{record_value, amount_value, first_string, first_outcome}
use dike_monolith.Reconciliation.Environment.{Environment}
use dike_monolith.Reconciliation.Positions.{
  outcomes, reconcile_user_position, reconcile_user_vault_state, reconcile_lp_position,
}

-- `topicValues[i]`.
unfoldable pub topic_at : List JsValue → ℕ → JsValue
topic_at [] i = JsValue.undefined
topic_at (v ∷ vs) zero = v
topic_at (v ∷ vs) (suc i) = topic_at vs i

-- `outcome ? [outcome] : undefined`, where a list that is not given is all of them.
unfoldable pub outcome_list : Option Outcome → List Outcome
outcome_list none = outcomes
outcome_list (some o) = o ∷ []

unfoldable pub side : Option Outcome → String
side none = "Unknown"
side (some o) = outcome_text o

module _ (env : Environment) (e : EventRecord) where
  abbrev pub text_at : List ℕ → List String → List ℕ → Option String
  text_at topics keys indexes =
      first_string env.language.to_text e.topic_values e.payload topics keys indexes

  abbrev pub outcome_at : List ℕ → List String → List ℕ → Option Outcome
  outcome_at topics keys indexes =
      first_outcome env.language.to_text e.topic_values e.payload topics keys indexes

  -- `amountValue(recordValue(payload, keys, indexes))`.
  unfoldable pub amount_at : List String → List ℕ → String
  amount_at keys indexes =
      amount_value env.language.to_text
        (or_else (record_value e.payload keys indexes) JsValue.undefined)

  module _ (pool market : ℤ) where
    unfoldable pub trade_columns : String → Option Outcome → Columns
    trade_columns trader outcome =
        ("event_id", SqlValue.text e.event_id)
        ∷ ("network", SqlValue.text env.network)
        ∷ ("market_id", SqlValue.number market)
        ∷ ("pool_id", SqlValue.number pool)
        ∷ ("trader", SqlValue.text trader)
        ∷ ("side", SqlValue.text (side outcome))
        ∷ ("direction", SqlValue.text e.topic)
        ∷ (
          "amount_in",
          SqlValue.text (amount_at ("amount_in" ∷ "amountIn" ∷ "in" ∷ "tokens_sold" ∷ []) (1 ∷ [])),
        )
        ∷ (
          "amount_out",
          SqlValue.text (
              amount_at ("amount_out" ∷ "amountOut" ∷ "out" ∷ "tokens_bought" ∷ "payout" ∷ [])
                (2 ∷ [])),
        )
        ∷ ("fee", SqlValue.text (amount_at ("fee" ∷ "trade_fee" ∷ "trading_fee" ∷ []) []))
        ∷ ("ledger", SqlValue.number (pos e.ledger))
        ∷ ("tx_hash", SqlValue.text e.tx_hash)
        ∷ []

    -- With the outcome of the trade.
    unfoldable pub record_trade : Option Outcome → String → Task Unit
    record_trade outcome trader = do
      update (insert_trade env.network e.event_id (trade_columns trader outcome))
      reconcile_user_position env e.ledger market trader (outcome_list outcome)
      reconcile_user_vault_state env e.ledger market trader

    unfoldable pub liquidity_columns : String → Columns
    liquidity_columns lp =
        ("event_id", SqlValue.text e.event_id)
        ∷ ("network", SqlValue.text env.network)
        ∷ ("market_id", SqlValue.number market)
        ∷ ("pool_id", SqlValue.number pool)
        ∷ ("lp", SqlValue.text lp)
        ∷ ("kind", SqlValue.text e.topic)
        ∷ (
          "amount",
          SqlValue.text (
              if e.topic == "lp_rm"
              then "0"
              else amount_at ("amount" ∷ "amount_in" ∷ "collateral" ∷ "collateral_in" ∷ [])
                  (0 ∷ [])),
        )
        ∷ (
          "shares",
          SqlValue.text (
              amount_at ("shares" ∷ "lp_shares" ∷ "shares_out" ∷ "shares_burned" ∷ [])
                (if e.topic == "lp_rm" then 0 ∷ [] else 1 ∷ [])),
        )
        ∷ ("yes_out", SqlValue.text (amount_at ("yes_out" ∷ "yesOut" ∷ []) (1 ∷ [])))
        ∷ ("no_out", SqlValue.text (amount_at ("no_out" ∷ "noOut" ∷ []) (2 ∷ [])))
        ∷ ("ledger", SqlValue.number (pos e.ledger))
        ∷ ("tx_hash", SqlValue.text e.tx_hash)
        ∷ []

    unfoldable pub record_liquidity : String → Task Unit
    record_liquidity lp = do
      update (insert_liquidity_event env.network e.event_id (liquidity_columns lp))
      reconcile_lp_position env e.ledger pool lp
      reconcile_user_position env e.ledger market lp outcomes
      reconcile_user_vault_state env e.ledger market lp

    unfoldable pub record_amm_user_effects : Task Unit
    record_amm_user_effects =
        if e.topic == "buy" || e.topic == "sell"
        then if_some
            (text_at (2 ∷ 3 ∷ []) ("trader" ∷ "user" ∷ "buyer" ∷ "seller" ∷ "owner" ∷ []) [])
            (record_trade (outcome_at (2 ∷ 3 ∷ []) ("outcome" ∷ "side" ∷ "yes" ∷ []) (0 ∷ [])))
        else if e.topic == "seed" || (e.topic == "lp_add" || e.topic == "lp_rm")
        then if_some (text_at (2 ∷ 3 ∷ []) ("lp" ∷ "provider" ∷ "user" ∷ "owner" ∷ []) [])
            record_liquidity
        else pure tt

  unfoldable pub vault_effects : ℤ → Option Outcome → String → Task Unit
  vault_effects market outcome owner = do
    reconcile_user_vault_state env e.ledger market owner
    reconcile_user_position env e.ledger market owner (outcome_list outcome)

  unfoldable pub record_vault_user_effects : ℤ → Task Unit
  record_vault_user_effects market =
      if_some (text_at (2 ∷ 3 ∷ []) ("user" ∷ "owner" ∷ "recipient" ∷ "trader" ∷ []) []) (
        vault_effects market (
          outcome_at (2 ∷ 3 ∷ 4 ∷ []) ("outcome" ∷ "redeemed_outcome" ∷ "final_outcome" ∷ [])
            (0 ∷ [])))
