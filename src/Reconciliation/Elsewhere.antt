-- ===== src/Reconciliation/Elsewhere.antt =====
-- The methods of dike-services/src/jobs/reconciliation.ts that do not write the table of the markets.
use dike_monolith.Prelude.{refl, ℕ, Option, none, some, List, String, Bool, string_eq}
use dike_monolith.Prelude.Int.{ℤ}
use dike_monolith.Store.Values.{JsValue}
use dike_monolith.Store.Tables.{
  markets, pools, resolution_requests, council_cases, timelock_actions, vault_snapshots,
  user_positions, lp_positions, user_vault_state,
}
use dike_monolith.Store.Upserts.{Columns, Rows}
use dike_monolith.Store.Database.{Database, note_mismatch}
use dike_monolith.Store.Governance.{
  upsert_governance_config, upsert_governance_module, upsert_governance_list,
}
use dike_monolith.Domain.{Outcome}
use dike_monolith.Task.{Task}
use dike_monolith.Task.Keeps.{Keeps, keeps_rules}
use dike_monolith.Reconciliation.Environment.{Environment}
use dike_monolith.Reconciliation.Rows.{table_name, save, add_position, save_lp_position}
use dike_monolith.Reconciliation.Projected.{At, save-At}
use dike_monolith.Reconciliation.Requests.{reconcile_case, reconcile_case_of, reconcile_request}
use dike_monolith.Reconciliation.Markets.{
  reconcile_pool, reconcile_pool_of, reconcile_timelock_action,
}
use dike_monolith.Reconciliation.Positions.{
  reconcile_vault, save_position, reconcile_user_position, reconcile_lp_position,
  reconcile_user_vault_state,
}
use dike_monolith.Reconciliation.Governance.{save_approvals, save_module, reconcile_governance}

module _ (rows : Rows) where
  abbrev pub Elsewhere : {A : Type 0} → Task A → Type 0
  Elsewhere m = Keeps (At markets rows) m

  pools-Elsewhere : (columns : Columns) → Elsewhere (save pools columns)
  unfolding table_name
  pools-Elsewhere columns = save-At markets rows pools columns refl

  requests-Elsewhere : (columns : Columns) → Elsewhere (save resolution_requests columns)
  unfolding table_name
  requests-Elsewhere columns = save-At markets rows resolution_requests columns refl

  cases-Elsewhere : (columns : Columns) → Elsewhere (save council_cases columns)
  unfolding table_name
  cases-Elsewhere columns = save-At markets rows council_cases columns refl

  actions-Elsewhere : (columns : Columns) → Elsewhere (save timelock_actions columns)
  unfolding table_name
  actions-Elsewhere columns = save-At markets rows timelock_actions columns refl

  vaults-Elsewhere : (columns : Columns) → Elsewhere (save vault_snapshots columns)
  unfolding table_name
  vaults-Elsewhere columns = save-At markets rows vault_snapshots columns refl

  positions-Elsewhere : (columns : Columns) → Elsewhere (save user_positions columns)
  unfolding table_name
  positions-Elsewhere columns = save-At markets rows user_positions columns refl

  lps-Elsewhere : (columns : Columns) → Elsewhere (save lp_positions columns)
  unfolding table_name
  lps-Elsewhere columns = save-At markets rows lp_positions columns refl

  states-Elsewhere : (columns : Columns) → Elsewhere (save user_vault_state columns)
  unfolding table_name
  states-Elsewhere columns = save-At markets rows user_vault_state columns refl

  sum_elsewhere :
      (network : String) (pool : ℤ) (owner : String) (db : Database)
      → At markets rows db
      → At markets rows (add_position network pool owner db)
  unfolding add_position
  sum_elsewhere network pool owner db h = h

  pub note_elsewhere :
      (network name entity message : String) (db : Database)
      → At markets rows db
      → At markets rows (note_mismatch network name entity message db)
  unfolding note_mismatch
  note_elsewhere network name entity message db h = h

  module _ (env : Environment) (ledger : ℕ) where
    case-Elsewhere : (id : ℤ) → Elsewhere (reconcile_case env ledger id)
    unfolding reconcile_case
    case-Elsewhere id = search (keeps_rules, cases-Elsewhere) depth 20

    pub request-Elsewhere : (id : ℤ) → Elsewhere (reconcile_request env ledger id)
    unfolding reconcile_request reconcile_case_of
    request-Elsewhere id = search (keeps_rules, requests-Elsewhere, case-Elsewhere) depth 20

    pub pool-Elsewhere : (id : ℤ) → Elsewhere (reconcile_pool_of env ledger id)
    unfolding reconcile_pool_of reconcile_pool
    pool-Elsewhere id = search (keeps_rules, pools-Elsewhere) depth 20

    pub action-Elsewhere : (id : ℤ) → Elsewhere (reconcile_timelock_action env ledger id)
    unfolding reconcile_timelock_action
    action-Elsewhere id = search (keeps_rules, actions-Elsewhere) depth 20

    pub vault-Elsewhere : (market : ℤ) → Elsewhere (reconcile_vault env ledger market)
    unfolding reconcile_vault
    vault-Elsewhere market = search (keeps_rules, vaults-Elsewhere) depth 20

    saved_position-Elsewhere :
        (market : ℤ) (owner : String) (o : Outcome) (balance : Option JsValue)
        → Elsewhere (save_position env ledger market owner o balance)
    unfolding save_position
    saved_position-Elsewhere market owner o none = search keeps_rules
    saved_position-Elsewhere market owner o (some balance) =
        search (keeps_rules, positions-Elsewhere)

    pub position-Elsewhere :
        (market : ℤ) (owner : String) (os : List Outcome)
        → Elsewhere (reconcile_user_position env ledger market owner os)
    unfolding reconcile_user_position
    position-Elsewhere market owner os = search (keeps_rules, saved_position-Elsewhere)

    pub lp-Elsewhere :
        (pool : ℤ) (owner : String) → Elsewhere (reconcile_lp_position env ledger pool owner)
    unfolding reconcile_lp_position save_lp_position
    lp-Elsewhere pool owner = search (keeps_rules, lps-Elsewhere, sum_elsewhere) depth 20

    pub state-Elsewhere :
        (market : ℤ) (owner : String)
        → Elsewhere (reconcile_user_vault_state env ledger market owner)
    unfolding reconcile_user_vault_state
    state-Elsewhere market owner = search (keeps_rules, states-Elsewhere)

    config_elsewhere :
        (network : String) (values : Columns) (db : Database)
        → At markets rows db
        → At markets rows (upsert_governance_config network values db)
    unfolding upsert_governance_config
    config_elsewhere network values db h = h

    module_elsewhere :
        (network role address : String) (db : Database)
        → At markets rows db
        → At markets rows (upsert_governance_module network role address db)
    unfolding upsert_governance_module
    module_elsewhere network role address db h = h

    list_elsewhere :
        (network kind address : String) (approved : Bool) (db : Database)
        → At markets rows db
        → At markets rows (upsert_governance_list network kind address approved db)
    unfolding upsert_governance_list
    list_elsewhere network kind address approved db h = h

    pub governance-Elsewhere : Elsewhere (reconcile_governance env ledger)
    unfolding reconcile_governance save_approvals save_module
    governance-Elsewhere =
        search (keeps_rules, config_elsewhere, module_elsewhere, list_elsewhere) depth 30

pub ruleset elsewhere_rules = (
  keeps_rules, pool-Elsewhere, request-Elsewhere, action-Elsewhere, vault-Elsewhere,
  position-Elsewhere, lp-Elsewhere, state-Elsewhere, governance-Elsewhere, note_elsewhere,
)
