-- ===== src/Reconciliation/Frame.antt =====
-- What the methods of dike-services/src/jobs/reconciliation.ts leave alone: the tables of the worker and the rows
-- of events.
use dike_monolith.Prelude.{ℕ, Option, none, some, List, String, Bool, string_eq, pair_eq, nat_eq}
use dike_monolith.Prelude.Int.{ℤ, pos}
use dike_monolith.Store.Values.{JsValue, int_eq}
use dike_monolith.Store.Tables.{Table}
use dike_monolith.Store.Upserts.{Columns, Rows}
use dike_monolith.Store.Database.{Database, note_mismatch}
use dike_monolith.Store.Framed.{
  Framed, Framed-others, Framed-insert_new_sum, Framed-add_lp_fees_claimed,
}
use dike_monolith.Store.Governance.{
  Approvals, upsert_governance_config, upsert_governance_module, upsert_governance_list,
}
use dike_monolith.Domain.{Outcome}
use dike_monolith.Task.{Task}
use dike_monolith.Task.Keeps.{
  Keeps, keeps_rules, Keeps-pure, Keeps-bind, Keeps-update, Keeps-for_each, Keeps-safely,
}
use dike_monolith.Reconciliation.Environment.{Environment}
use dike_monolith.Reconciliation.Saves.{save-Keeps}
use dike_monolith.Reconciliation.Rows.{save, set_rows, add_position, save_lp_position}
use dike_monolith.Reconciliation.Requests.{reconcile_case, reconcile_case_of, reconcile_request}
use dike_monolith.Reconciliation.Markets.{
  reconcile_pool, reconcile_pool_of, not_tradeable, reconcile_market, reconcile_timelock_action,
}
use dike_monolith.Reconciliation.Positions.{
  reconcile_vault, save_position, reconcile_user_position, reconcile_lp_position,
  record_lp_fees_claimed, reconcile_user_vault_state,
}
use dike_monolith.Reconciliation.Governance.{save_approvals, save_module, reconcile_governance}

module _ (event : String × String) (before : Database) where
  abbrev pub Same : {A : Type 0} → Task A → Type 0
  Same m = Keeps (Framed event before) m

  set_rows-Framed :
      (t : Table) (rows : Rows) (db : Database)
      → Framed event before db
      → Framed event before (set_rows t rows db)
  unfolding set_rows
  set_rows-Framed t rows db h = Framed-others event before db _ _ _ _ _ h

  pub save-Same : (t : Table) (columns : Columns) → Same (save t columns)
  save-Same t columns = save-Keeps (Framed event before) t columns (set_rows-Framed t)

  pub add_position-Framed :
      (network : String) (pool : ℤ) (owner : String) (db : Database)
      → Framed event before db
      → Framed event before (add_position network pool owner db)
  unfolding add_position
  add_position-Framed network pool owner db h =
      Framed-insert_new_sum event before db (network, (pool, owner)) (pos 0) h

  pub note_mismatch-Framed :
      (network name entity message : String) (db : Database)
      → Framed event before db
      → Framed event before (note_mismatch network name entity message db)
  unfolding note_mismatch
  note_mismatch-Framed network name entity message db h = Framed-others event before db _ _ _ _ _ h

  pub config-Framed :
      (network : String) (values : Columns) (db : Database)
      → Framed event before db
      → Framed event before (upsert_governance_config network values db)
  unfolding upsert_governance_config
  config-Framed network values db h = Framed-others event before db _ _ _ _ _ h

  pub module-Framed :
      (network role address : String) (db : Database)
      → Framed event before db
      → Framed event before (upsert_governance_module network role address db)
  unfolding upsert_governance_module
  module-Framed network role address db h = Framed-others event before db _ _ _ _ _ h

  pub list-Framed :
      (network kind address : String) (approved : Bool) (db : Database)
      → Framed event before db
      → Framed event before (upsert_governance_list network kind address approved db)
  unfolding upsert_governance_list
  list-Framed network kind address approved db h = Framed-others event before db _ _ _ _ _ h

  pub ruleset same_rules = (
    keeps_rules, save-Same, add_position-Framed, note_mismatch-Framed, config-Framed, module-Framed,
    list-Framed,
  )

  save_lp_position-Same :
      (network : String) (pool : ℤ) (owner : String) (columns : Columns)
      → Same (save_lp_position network pool owner columns)
  unfolding save_lp_position
  save_lp_position-Same network pool owner columns = search same_rules

  module _ (env : Environment) (ledger : ℕ) where
    pub reconcile_case-Same : (id : ℤ) → Same (reconcile_case env ledger id)
    unfolding reconcile_case
    reconcile_case-Same id = search same_rules depth 20

    pub reconcile_request-Same : (id : ℤ) → Same (reconcile_request env ledger id)
    unfolding reconcile_request reconcile_case_of
    reconcile_request-Same id = search (same_rules, reconcile_case-Same) depth 20

    pub reconcile_pool-Same : (id : ℤ) → Same (reconcile_pool env ledger id)
    unfolding reconcile_pool
    reconcile_pool-Same id = search same_rules depth 20

    pub reconcile_pool_of-Same : (id : ℤ) → Same (reconcile_pool_of env ledger id)
    unfolding reconcile_pool_of
    reconcile_pool_of-Same id = search (same_rules, reconcile_pool-Same) depth 20

    pub reconcile_market-Same : (id : ℤ) → Same (reconcile_market env ledger id)
    unfolding reconcile_market not_tradeable
    reconcile_market-Same id =
        search (same_rules, reconcile_pool_of-Same, reconcile_request-Same) depth 20

    pub reconcile_timelock_action-Same : (id : ℤ) → Same (reconcile_timelock_action env ledger id)
    unfolding reconcile_timelock_action
    reconcile_timelock_action-Same id = search same_rules depth 20

    pub reconcile_vault-Same : (market : ℤ) → Same (reconcile_vault env ledger market)
    unfolding reconcile_vault
    reconcile_vault-Same market = search same_rules depth 20

    save_position-Same :
        (market : ℤ) (owner : String) (o : Outcome) (balance : Option JsValue)
        → Same (save_position env ledger market owner o balance)
    unfolding save_position
    save_position-Same market owner o none = search same_rules depth 20
    save_position-Same market owner o (some balance) = search same_rules depth 20

    pub reconcile_user_position-Same :
        (market : ℤ) (owner : String) (os : List Outcome)
        → Same (reconcile_user_position env ledger market owner os)
    unfolding reconcile_user_position
    reconcile_user_position-Same market owner os = search (same_rules, save_position-Same) depth 20

    pub reconcile_lp_position-Same :
        (pool : ℤ) (owner : String) → Same (reconcile_lp_position env ledger pool owner)
    unfolding reconcile_lp_position
    reconcile_lp_position-Same pool owner = search (same_rules, save_lp_position-Same) depth 20

    pub reconcile_user_vault_state-Same :
        (market : ℤ) (owner : String) → Same (reconcile_user_vault_state env ledger market owner)
    unfolding reconcile_user_vault_state
    reconcile_user_vault_state-Same market owner = search same_rules depth 20

    save_approvals-Same : (kind : String) (as' : Approvals) → Same (save_approvals env kind as')
    unfolding save_approvals
    save_approvals-Same kind as' = search same_rules depth 20

    save_module-Same : (role : String) → Same (save_module env role)
    unfolding save_module
    save_module-Same role = search same_rules depth 20

    pub reconcile_governance-Same : Same (reconcile_governance env ledger)
    unfolding reconcile_governance
    reconcile_governance-Same = search (same_rules, save_approvals-Same, save_module-Same) depth 20

    pub ruleset jobs_rules = (
      same_rules, reconcile_case-Same, reconcile_request-Same, reconcile_pool-Same,
      reconcile_pool_of-Same, reconcile_market-Same, reconcile_timelock_action-Same,
      reconcile_vault-Same, reconcile_user_position-Same, reconcile_lp_position-Same,
      reconcile_user_vault_state-Same, reconcile_governance-Same,
    )

-- The event of a claim of fees.
module _ (env : Environment) (id : String) (before : Database) where
  pub record_lp_fees_claimed-Same :
      (ledger : ℕ) (pool : ℤ) (owner claimed : String)
      → Same (env.network, id) before (record_lp_fees_claimed env ledger pool owner claimed id)
  unfolding record_lp_fees_claimed
  record_lp_fees_claimed-Same ledger pool owner claimed =
      search (same_rules, reconcile_lp_position-Same, Framed-add_lp_fees_claimed) depth 20
