-- ===== src/Reconciliation/Positions.antt =====
-- `reconcileVault`, `reconcileUserPosition`, `reconcileLpPosition`, `recordLpFeesClaimed` and
-- `reconcileUserVaultState` of dike-services/src/jobs/reconciliation.ts.
use dike_monolith.Prelude.{ℕ, Option, none, some, List, [], ◌∷◌, String}
use dike_monolith.Prelude.Int.{ℤ, pos}
use dike_monolith.Store.Values.{JsValue, SqlValue}
use dike_monolith.Store.Tables.{vault_snapshots, user_positions, user_vault_state}
use dike_monolith.Store.Upserts.{Columns, assign}
use dike_monolith.Store.Database.{add_lp_fees_claimed}
use dike_monolith.Observability.Bus.{StateUpdate}
use dike_monolith.Domain.{Outcome, yes, no, invalid, outcome_text}
use dike_monolith.Task.{
  Ended, returned, threw, Task, pure, lift, update, publish, or_default, ◌>>=◌, ◌>>◌, for_each,
}
use dike_monolith.Reconciliation.Environment.{Environment}
use dike_monolith.Reconciliation.Values.{to_amount, normal, spread}
use dike_monolith.Reconciliation.Rows.{save, save_lp_position}
use dike_monolith.Reconciliation.Summaries.{own}

-- `OUTCOMES`.
abbrev pub outcomes : List Outcome
outcomes = yes ∷ (no ∷ (invalid ∷ []))

-- A read that fails counts as the bigint 0.
abbrev pub or_zero : Ended JsValue → JsValue
or_zero r = or_default r (JsValue.bigint (pos 0))

-- A read that fails counts as null, which is no balance.
unfoldable pub balance_of : Ended JsValue → Option JsValue
balance_of (returned JsValue.null) = none
balance_of (returned v) = some v
balance_of (threw e) = none

-- The text of an amount, as a parameter that Postgres casts to a number.
unfoldable pub cast_amount : Option ℤ → Ended ℤ
cast_amount none = threw "error: invalid input syntax for type numeric"
cast_amount (some n) = returned n

module _ (env : Environment) (ledger : ℕ) where
  abbrev pub amount : JsValue → SqlValue
  amount v = SqlValue.text (to_amount env.language v)

  -- Of two columns of one name the later counts, in the place of the first.
  unfoldable pub vault_columns : ℤ → JsValue → Columns
  vault_columns market vault = assign (own env ledger) (
      assign (spread env.language (normal env.language vault))
        (("network", SqlValue.text env.network) ∷ ("market_id", SqlValue.number market) ∷ []))

  unfoldable pub reconcile_vault : ℤ → Task Unit
  reconcile_vault market = do
    vault ← lift (env.contracts.get_vault_accounting market)
    save vault_snapshots (vault_columns market vault)
    publish (StateUpdate.market env.network market)

  unfoldable pub position_columns : ℤ → String → Outcome → JsValue → Columns
  position_columns market owner outcome balance =
      ("network", SqlValue.text env.network)
      ∷ ("market_id", SqlValue.number market)
      ∷ ("owner", SqlValue.text owner)
      ∷ ("outcome", SqlValue.text (outcome_text outcome))
      ∷ ("balance", amount balance)
      ∷ own env ledger

  unfoldable pub save_position : ℤ → String → Outcome → Option JsValue → Task Unit
  save_position market owner outcome none = pure tt
  save_position market owner outcome (some balance) = do
    save user_positions (position_columns market owner outcome balance)
    publish (StateUpdate.portfolio env.network owner)

  -- With its list of outcomes, which is `outcomes` where the source gives none.
  unfoldable pub reconcile_user_position : ℤ → String → List Outcome → Task Unit
  reconcile_user_position market owner os = for_each os (λ o.
      save_position market owner o (balance_of (env.contracts.get_position_balance owner market o)))

  unfoldable pub lp_columns : ℤ → String → JsValue → Columns
  lp_columns pool owner shares =
      ("network", SqlValue.text env.network)
      ∷ ("pool_id", SqlValue.number pool)
      ∷ ("owner", SqlValue.text owner)
      ∷ ("shares", amount shares)
      ∷ ("fee_checkpoint", amount (or_zero (env.contracts.get_lp_fee_checkpoint pool owner)))
      ∷ ("claimable_fees", amount (or_zero (env.contracts.get_claimable_lp_fees pool owner)))
      ∷ own env ledger

  unfoldable pub reconcile_lp_position : ℤ → String → Task Unit
  reconcile_lp_position pool owner = do
    shares ← lift (env.contracts.get_lp_balance pool owner)
    save_lp_position env.network pool owner (lp_columns pool owner shares)
    publish (StateUpdate.portfolio env.network owner)

  unfoldable pub record_lp_fees_claimed : ℤ → String → String → String → Task Unit
  record_lp_fees_claimed pool owner claimed event_id = do
    reconcile_lp_position pool owner
    sum ← lift (cast_amount (env.language.numeric claimed))
    update (add_lp_fees_claimed env.network pool owner sum event_id)

  unfoldable pub vault_state_columns : ℤ → String → Columns
  vault_state_columns market owner =
      ("network", SqlValue.text env.network)
      ∷ ("market_id", SqlValue.number market)
      ∷ ("owner", SqlValue.text owner)
      ∷ ("user_deposit", amount (or_zero (env.contracts.get_user_deposit market owner)))
      ∷ ("root_stake_yes", amount (or_zero (env.contracts.get_root_stake market owner yes)))
      ∷ ("root_stake_no", amount (or_zero (env.contracts.get_root_stake market owner no)))
      ∷ (
        "child_used_total",
        amount (or_zero (env.contracts.get_child_collateral_used market owner)),
      )
      ∷ (
        "child_used_yes",
        amount (or_zero (env.contracts.get_child_used_for_outcome market owner yes)),
      )
      ∷ (
        "child_used_no",
        amount (or_zero (env.contracts.get_child_used_for_outcome market owner no)),
      )
      ∷ ("child_debt", amount (or_zero (env.contracts.get_child_debt market owner)))
      ∷ ("parent_debt_yes", amount (or_zero (env.contracts.get_parent_debt market owner yes)))
      ∷ ("parent_debt_no", amount (or_zero (env.contracts.get_parent_debt market owner no)))
      ∷ ("redeemed_yes", amount (or_zero (env.contracts.get_redeemed market owner yes)))
      ∷ ("redeemed_no", amount (or_zero (env.contracts.get_redeemed market owner no)))
      ∷ ("redeemed_invalid", amount (or_zero (env.contracts.get_redeemed market owner invalid)))
      ∷ own env ledger

  unfoldable pub reconcile_user_vault_state : ℤ → String → Task Unit
  reconcile_user_vault_state market owner = do
    save user_vault_state (vault_state_columns market owner)
    publish (StateUpdate.portfolio env.network owner)
