-- ===== src/Indexer/Handlers.antt =====
-- `dispatch` of dike-services/src/indexer/dispatcher.ts, with the handler of each contract. A handler is a task on
-- the services; the logs are left out, so an event that is not known does nothing.
pub mod Effects
pub mod Events
pub mod Markets
pub mod Tokens
pub mod Council
pub mod Frame
pub mod Whole
pub mod Trades
mod Tests
use dike_monolith.Prelude.{
  ℕ, zero, suc, Bool, true, false, ◌&&◌, ◌||◌, Option, none, some, List, [], ◌∷◌, String, ◌==◌,
  string_eq, if◌then◌else◌, or_else,
}
use dike_monolith.Prelude.Int.{ℤ, pos}
use dike_monolith.Store.Values.{JsValue, SqlValue}
use dike_monolith.Store.Tables.{Table, council_votes, timelock_actions}
use dike_monolith.Store.Upserts.{Columns, includes}
use dike_monolith.Store.Database.{Database, EventRecord}
use dike_monolith.Domain.{Outcome, yes, no, outcome_text}
use dike_monolith.Task.{Ended, returned, threw, Task, pure, lift, ◌>>=◌, ◌>>◌, safely, if_some}
use dike_monolith.Indexer.Dispatcher.{
  numeric_value, record_value, string_value, amount_value, outcome_value, first_string,
  first_outcome, Handler, route, read_of,
}
use dike_monolith.Indexer.Handlers.Effects.{
  topic_at, amount_at, record_amm_user_effects, record_vault_user_effects, outcome_list,
}
use dike_monolith.Reconciliation.Environment.{Environment}
use dike_monolith.Reconciliation.Values.{prop, read_prop, read_tag, integer_of, to_sql}
use dike_monolith.Reconciliation.Rows.{save}
use dike_monolith.Reconciliation.Summaries.{own, required}
use dike_monolith.Reconciliation.Requests.{reconcile_request, reconcile_case}
use dike_monolith.Reconciliation.Markets.{reconcile_market, reconcile_pool, reconcile_pool_of}
use dike_monolith.Reconciliation.Positions.{
  reconcile_vault, reconcile_user_position, reconcile_user_vault_state, record_lp_fees_claimed,
}
use dike_monolith.Reconciliation.Governance.{reconcile_governance}
use dike_monolith.Indexer.Handlers.Events.{governance_changed}
use dike_monolith.Indexer.Handlers.Markets.{
  dispatch_market_factory, dispatch_market_registry, dispatch_amm, dispatch_cod_oracle,
}
use dike_monolith.Indexer.Handlers.Tokens.{dispatch_collateral_vault, dispatch_conditional_tokens}
use dike_monolith.Indexer.Handlers.Council.{dispatch_council, dispatch_timelock}

module _ (env : Environment) (e : EventRecord) where
  unfoldable pub handle : Handler → Task Unit
  handle Handler.market_factory = dispatch_market_factory env e
  handle Handler.market_registry = dispatch_market_registry env e
  handle Handler.amm = dispatch_amm env e
  handle Handler.collateral_vault = dispatch_collateral_vault env e
  handle Handler.conditional_tokens = dispatch_conditional_tokens env e
  handle Handler.cod_oracle = dispatch_cod_oracle env e
  handle Handler.council_of_dike = dispatch_council env e
  handle Handler.governance = governance_changed env e
  handle Handler.timelock = dispatch_timelock env e
  handle Handler.unknown = pure tt

  unfoldable pub dispatch : Task Unit
  dispatch = handle (route env.addresses e.contract_id)
