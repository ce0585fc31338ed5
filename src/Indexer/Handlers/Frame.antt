-- ===== src/Indexer/Handlers/Frame.antt =====
-- What the handlers of dike-services/src/indexer/dispatcher.ts leave alone.
use dike_monolith.Prelude.{Option, String, string_eq, pair_eq}
use dike_monolith.Prelude.Int.{ℤ}
use dike_monolith.Store.Database.{Database, EventRecord}
use dike_monolith.Store.Framed.{
  Framed, Framed-refl, Framed-insert_trade, Framed-insert_liquidity_event,
}
use dike_monolith.Store.Upserts.{Columns}
use dike_monolith.Domain.{Outcome}
use dike_monolith.Task.{Task, Services}
use dike_monolith.Reconciliation.Environment.{Environment}
use dike_monolith.Reconciliation.Frame.{Same, jobs_rules, record_lp_fees_claimed-Same}
use dike_monolith.Indexer.Dispatcher.{Handler, route}
use dike_monolith.Indexer.Handlers.Effects.{
  record_trade, record_liquidity, record_amm_user_effects, vault_effects, record_vault_user_effects,
}
use dike_monolith.Indexer.Handlers.Events.{resolution_requested}
use dike_monolith.Indexer.Handlers.Markets.{
  dispatch_market_factory, dispatch_market_registry, pool_created, pool_changed, pool_fees_claimed,
  dispatch_amm, dispatch_cod_oracle,
}
use dike_monolith.Indexer.Handlers.Tokens.{
  vault_changed, child_funded, children_funded, dispatch_collateral_vault, position_changed,
  position_transferred, dispatch_conditional_tokens,
}
use dike_monolith.Indexer.Handlers.Council.{
  vote_changed, dispatch_council, save_action, action_changed, dispatch_timelock,
}
use dike_monolith.Indexer.Handlers.{handle, dispatch}

module _ (env : Environment) (e : EventRecord) (before : Database) where
  abbrev Kept : Task Unit → Type 0
  Kept m = Same (env.network, e.event_id) before m

  record_trade-Kept :
      (pool market : ℤ) (o : Option Outcome) (trader : String)
      → Kept (record_trade env e pool market o trader)
  unfolding record_trade
  record_trade-Kept pool market o trader = search (jobs_rules, Framed-insert_trade) depth 20

  record_liquidity-Kept :
      (pool market : ℤ) (lp : String) → Kept (record_liquidity env e pool market lp)
  unfolding record_liquidity
  record_liquidity-Kept pool market lp = search (jobs_rules, Framed-insert_liquidity_event) depth 20

  amm_effects-Kept : (pool market : ℤ) → Kept (record_amm_user_effects env e pool market)
  unfolding record_amm_user_effects
  amm_effects-Kept pool market =
      search (jobs_rules, record_trade-Kept, record_liquidity-Kept) depth 20

  vault_effects-Kept : (market : ℤ) → Kept (record_vault_user_effects env e market)
  unfolding record_vault_user_effects vault_effects
  vault_effects-Kept market = search jobs_rules depth 20

  market_factory-Kept : Kept (dispatch_market_factory env e)
  unfolding dispatch_market_factory
  market_factory-Kept = search jobs_rules depth 20

  market_registry-Kept : Kept (dispatch_market_registry env e)
  unfolding dispatch_market_registry resolution_requested
  market_registry-Kept = search jobs_rules depth 20

  fees-Kept : (pool : ℤ) → Kept (pool_fees_claimed env e pool)
  unfolding pool_fees_claimed
  fees-Kept pool = search (jobs_rules, record_lp_fees_claimed-Same) depth 20

  amm-Kept : Kept (dispatch_amm env e)
  unfolding dispatch_amm pool_created pool_changed
  amm-Kept = search (jobs_rules, amm_effects-Kept, fees-Kept) depth 20

  collateral_vault-Kept : Kept (dispatch_collateral_vault env e)
  unfolding dispatch_collateral_vault vault_changed children_funded child_funded
  collateral_vault-Kept = search (jobs_rules, vault_effects-Kept) depth 20

  conditional_tokens-Kept : Kept (dispatch_conditional_tokens env e)
  unfolding dispatch_conditional_tokens position_changed position_transferred
  conditional_tokens-Kept = search jobs_rules depth 20

  cod_oracle-Kept : Kept (dispatch_cod_oracle env e)
  unfolding dispatch_cod_oracle resolution_requested
  cod_oracle-Kept = search jobs_rules depth 20

  vote-Kept : (columns : Columns) → Kept (vote_changed env e columns)
  unfolding vote_changed
  vote-Kept columns = search jobs_rules depth 20

  council-Kept : Kept (dispatch_council env e)
  unfolding dispatch_council
  council-Kept = search (jobs_rules, vote-Kept) depth 20

  timelock-Kept : Kept (dispatch_timelock env e)
  unfolding dispatch_timelock action_changed save_action
  timelock-Kept = search jobs_rules depth 30

  handle-Kept : (h : Handler) → Kept (handle env e h)
  unfolding handle
  handle-Kept Handler.market_factory = market_factory-Kept
  handle-Kept Handler.market_registry = market_registry-Kept
  handle-Kept Handler.amm = amm-Kept
  handle-Kept Handler.collateral_vault = collateral_vault-Kept
  handle-Kept Handler.conditional_tokens = conditional_tokens-Kept
  handle-Kept Handler.cod_oracle = cod_oracle-Kept
  handle-Kept Handler.council_of_dike = council-Kept
  handle-Kept Handler.governance = search jobs_rules
  handle-Kept Handler.timelock = timelock-Kept
  handle-Kept Handler.unknown = search jobs_rules

-- Whatever the contracts and the node answer, and whether the handler returns or throws, the dispatch of an
-- event leaves the deployments, checkpoints, raw events and the lease as they were, keeps every trade,
-- liquidity event and fee claim and adds none but its own, and leaves each sum of claimed fees as it was
-- where the event's claim is recorded already.
pub dispatch-Framed :
    (env : Environment) (e : EventRecord) (s : Services)
    → Framed (env.network, e.event_id) s.db (dispatch env e s).1.db
unfolding dispatch
dispatch-Framed env e s =
    (handle-Kept env e s.db (route env.addresses e.contract_id)).at s (Framed-refl _ s.db)
