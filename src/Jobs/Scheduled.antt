-- ===== src/Jobs/Scheduled.antt =====
-- `tick` of dike-services/src/jobs/scheduled.ts. Each step reads the contracts and the clock once; the timer and the
-- logs are left out.
use dike_monolith.Prelude.{ℕ, Bool, false, Option, List, [], ◌∷◌, String, nat_eq, if◌then◌else◌}
use dike_monolith.Prelude.Int.{pos}
use dike_monolith.Prelude.Dict.{lookup, insert}
use dike_monolith.Store.Listings.{
  list_known_market_ids, list_known_position_owners, list_known_lp_owners, list_known_market_pools,
  list_known_timelock_action_ids,
}
use dike_monolith.Task.{Ended, Services, Task, lift, gets, ◌>>=◌, ◌>>◌, safely, for_each, if_some}
use dike_monolith.Reconciliation.Environment.{Contracts, Environment}
use dike_monolith.Reconciliation.Markets.{reconcile_market, reconcile_timelock_action}
use dike_monolith.Reconciliation.Positions.{
  outcomes, reconcile_vault, reconcile_user_position, reconcile_lp_position,
  reconcile_user_vault_state,
}
use dike_monolith.Reconciliation.Governance.{reconcile_governance}
use dike_monolith.Jobs.{discover_market_ids}

-- The contexts of `safeStep`.
pub data Scope : Type 0 where
  governance : Scope
  market vault : ℕ → Scope
  user_position user_vault_state : ℕ → String → Scope
  lp_position : ℕ → ℕ → String → Scope
  timelock_action : ℕ → Scope

-- The client of the contracts during a tick: the latest ledger, the factory's counter where it is a natural
-- number, and what the contracts and the clock say in each step.
pub record Client : Type 0 where
  pub get_latest_ledger : Ended ℕ
  pub get_next_market_id : Option ℕ
  pub contracts : Scope → Contracts
  pub now : Scope → String

-- `new Map(marketPools.map(…))`: of two pools of a market the later counts.
unfoldable pub map_of : List (ℕ × ℕ) → List (ℕ × ℕ) → List (ℕ × ℕ)
map_of [] m = m
map_of ((k, v) ∷ ps) m = map_of ps (insert k v m)

module _ (fixed : Environment) (client : Client) where
  abbrev pub env : Scope → Environment
  env scope = record fixed { contracts = client.contracts scope; now = client.now scope }

  module _ (ledger : ℕ) where
    unfoldable pub positions_step : ℕ → Task Unit
    positions_step id = do
      position_owners ← gets (list_known_position_owners fixed.network id)
      for_each position_owners (λ owner. safely (
          reconcile_user_position (env (Scope.user_position id owner)) ledger (pos id) owner
            outcomes))
      for_each position_owners (λ owner. safely (
          reconcile_user_vault_state (env (Scope.user_vault_state id owner)) ledger (pos id) owner))

    unfoldable pub lp_step : ℕ → ℕ → Task Unit
    lp_step id pool = do
      lp_owners ← gets (list_known_lp_owners fixed.network pool)
      for_each lp_owners (λ owner.
          safely
            (reconcile_lp_position (env (Scope.lp_position id pool owner)) ledger (pos pool) owner))

    -- The body of the loop over the markets.
    unfoldable pub market_step : List (ℕ × ℕ) → ℕ → Task Unit
    market_step pool_by_market id = do
      safely (reconcile_market (env (Scope.market id)) ledger (pos id))
      safely (reconcile_vault (env (Scope.vault id)) ledger (pos id))
      positions_step id
      if_some (lookup id pool_by_market) (lp_step id)

    unfoldable pub actions_step : ℕ → Task Unit
    actions_step id =
        safely (reconcile_timelock_action (env (Scope.timelock_action id)) ledger (pos id))

    unfoldable pub reconcile_markets : Task Unit
    reconcile_markets = do
      known ← gets (list_known_market_ids fixed.language.to_number fixed.network)
      market_pools ← gets (list_known_market_pools fixed.language.to_number fixed.network)
      for_each (discover_market_ids client.get_next_market_id known)
          (market_step (map_of market_pools []))

    -- What follows the reading of the ledger.
    unfoldable pub reconcile_all : Task Unit
    reconcile_all = do
      safely (reconcile_governance (env Scope.governance) ledger)
      reconcile_markets
      actions ← gets (list_known_timelock_action_ids fixed.language.to_number fixed.network)
      for_each actions actions_step

  -- The `try` block.
  unfoldable pub run : Task Unit
  run = do latest_ledger ← lift client.get_latest_ledger; reconcile_all latest_ledger

pub record ScheduledJobs : Type 0 where
  pub running : Bool
  pub services : Services

unfoldable pub tick : Environment → Client → ScheduledJobs → ScheduledJobs
tick fixed client jobs =
    if jobs.running
    then jobs
    else (record { running = false; services = (safely (run fixed client) jobs.services).1 })
