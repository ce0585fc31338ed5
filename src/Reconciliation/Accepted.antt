-- ===== src/Reconciliation/Accepted.antt =====
-- The summaries that dike-services/src/jobs/reconciliation.ts writes, against the columns that
-- dike-services/src/db/repositories/state-repository.ts allows.
use dike_monolith.Prelude.{◌≡◌, refl, ℕ, String, string_eq}
use dike_monolith.Prelude.Int.{ℤ}
use dike_monolith.Store.Values.{JsValue}
use dike_monolith.Store.Tables.{
  Table, allowed_columns, markets, pools, resolution_requests, council_cases, timelock_actions,
  user_positions, lp_positions, user_vault_state,
}
use dike_monolith.Store.Upserts.{Columns, ok, includes, invalid_keys, check_spec, build_upsert_spec}
use dike_monolith.Domain.{Outcome}
use dike_monolith.Reconciliation.Environment.{Environment}
use dike_monolith.Reconciliation.Requests.{case_columns, request_columns}
use dike_monolith.Reconciliation.Markets.{pool_columns, market_columns, action_columns}
use dike_monolith.Reconciliation.Positions.{position_columns, lp_columns, vault_state_columns}

-- The upsert takes every column.
abbrev pub Accepted : Table → Columns → Type 0
Accepted t columns = build_upsert_spec t columns ≡ ok columns

module _ (env : Environment) (ledger : ℕ) where
  pub pool-Accepted : (id : ℤ) (n : JsValue) → Accepted pools (pool_columns env ledger id n)
  unfolding build_upsert_spec invalid_keys includes check_spec allowed_columns pool_columns
  pool-Accepted id n = refl

  pub case-Accepted :
      (id : ℤ) (n status proposer disputer final pool : JsValue)
      → Accepted council_cases (case_columns env ledger id n status proposer disputer final pool)
  unfolding build_upsert_spec invalid_keys includes check_spec allowed_columns case_columns
  case-Accepted id n status proposer disputer final pool = refl

  pub request-Accepted :
      (id : ℤ) (n status proposed disputed final : JsValue)
      → Accepted resolution_requests
          (request_columns env ledger id n status proposed disputed final)
  unfolding build_upsert_spec invalid_keys includes check_spec allowed_columns request_columns
  request-Accepted id n status proposed disputed final = refl

  pub market-Accepted :
      (id : ℤ) (n status final fees : JsValue)
      → Accepted markets (market_columns env ledger id n status final fees)
  unfolding build_upsert_spec invalid_keys includes check_spec allowed_columns market_columns
  market-Accepted id n status final fees = refl

  pub action-Accepted :
      (id : ℤ) (n kind payload : JsValue)
      → Accepted timelock_actions (action_columns env ledger id n kind payload)
  unfolding build_upsert_spec invalid_keys includes check_spec allowed_columns action_columns
  action-Accepted id n kind payload = refl

  pub position-Accepted :
      (market : ℤ) (owner : String) (o : Outcome) (balance : JsValue)
      → Accepted user_positions (position_columns env ledger market owner o balance)
  unfolding build_upsert_spec invalid_keys includes check_spec allowed_columns position_columns
  position-Accepted market owner o balance = refl

  pub lp-Accepted :
      (pool : ℤ) (owner : String) (shares : JsValue)
      → Accepted lp_positions (lp_columns env ledger pool owner shares)
  unfolding build_upsert_spec invalid_keys includes check_spec allowed_columns lp_columns
  lp-Accepted pool owner shares = refl

  pub vault_state-Accepted :
      (market : ℤ) (owner : String)
      → Accepted user_vault_state (vault_state_columns env ledger market owner)
  unfolding build_upsert_spec invalid_keys includes check_spec allowed_columns vault_state_columns
  vault_state-Accepted market owner = refl

-- The summaries that the methods write, by their table.
pub data Summary (env : Environment) (ledger : ℕ) : Table → Columns → Type 0 where
  of_market :
      (id : ℤ) (n status final fees : JsValue)
      → Summary env ledger markets (market_columns env ledger id n status final fees)
  of_pool : (id : ℤ) (n : JsValue) → Summary env ledger pools (pool_columns env ledger id n)
  of_request :
      (id : ℤ) (n status proposed disputed final : JsValue)
      → Summary env ledger resolution_requests
          (request_columns env ledger id n status proposed disputed final)
  of_case :
      (id : ℤ) (n status proposer disputer final pool : JsValue)
      → Summary env ledger council_cases
          (case_columns env ledger id n status proposer disputer final pool)
  of_action :
      (id : ℤ) (n kind payload : JsValue)
      → Summary env ledger timelock_actions (action_columns env ledger id n kind payload)
  of_position :
      (market : ℤ) (owner : String) (o : Outcome) (balance : JsValue)
      → Summary env ledger user_positions (position_columns env ledger market owner o balance)
  of_lp_position :
      (pool : ℤ) (owner : String) (shares : JsValue)
      → Summary env ledger lp_positions (lp_columns env ledger pool owner shares)
  of_vault_state :
      (market : ℤ) (owner : String)
      → Summary env ledger user_vault_state (vault_state_columns env ledger market owner)

-- The builder of upserts takes every summary of a market, a pool, a request, a case, a timelock action, a
-- position or a vault state with all its columns, whatever the contracts report.
pub Summary-Accepted :
    (env : Environment) (ledger : ℕ) (t : Table) (columns : Columns)
    → Summary env ledger t columns
    → build_upsert_spec t columns ≡ ok columns
Summary-Accepted env ledger t columns (of_market id n status final fees) =
    market-Accepted env ledger id n status final fees
Summary-Accepted env ledger t columns (of_pool id n) = pool-Accepted env ledger id n
Summary-Accepted env ledger t columns (of_request id n status proposed disputed final) =
    request-Accepted env ledger id n status proposed disputed final
Summary-Accepted env ledger t columns (of_case id n status proposer disputer final pool) =
    case-Accepted env ledger id n status proposer disputer final pool
Summary-Accepted env ledger t columns (of_action id n kind payload) =
    action-Accepted env ledger id n kind payload
Summary-Accepted env ledger t columns (of_position market owner o balance) =
    position-Accepted env ledger market owner o balance
Summary-Accepted env ledger t columns (of_lp_position pool owner shares) =
    lp-Accepted env ledger pool owner shares
Summary-Accepted env ledger t columns (of_vault_state market owner) =
    vault_state-Accepted env ledger market owner
