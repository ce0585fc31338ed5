-- ===== src/Reconciliation/Requests.antt =====
-- `reconcileCase` and `reconcileRequest` of dike-services/src/jobs/reconciliation.ts.
use dike_monolith.Prelude.{ℕ, ◌∷◌, string_eq}
use dike_monolith.Prelude.Int.{ℤ, pos}
use dike_monolith.Store.Values.{JsValue, SqlValue}
use dike_monolith.Store.Tables.{resolution_requests, council_cases}
use dike_monolith.Store.Upserts.{Columns}
use dike_monolith.Observability.Bus.{StateUpdate}
use dike_monolith.Task.{Task, lift, publish, or_default, ◌>>=◌, ◌>>◌, safely, if_some}
use dike_monolith.Reconciliation.Environment.{Environment}
use dike_monolith.Reconciliation.Values.{
  prop, read_prop, read_tag, integer_of, to_amount, normal, normal_id,
}
use dike_monolith.Reconciliation.Rows.{save}
use dike_monolith.Reconciliation.Summaries.{nil_value, zero_text, no_value, required, own, col, sql}

module _ (env : Environment) (ledger : ℕ) where
  unfoldable pub case_columns :
      ℤ → JsValue → JsValue → JsValue → JsValue → JsValue → JsValue → Columns
  case_columns id n status proposer disputer final reward_pool =
      ("network", SqlValue.text env.network)
      ∷ ("case_id", SqlValue.number id)
      ∷ ("request_id", col env ledger "request_id" nil_value n)
      ∷ ("market_id", col env ledger "market_id" nil_value n)
      ∷ ("status", sql env ledger status)
      ∷ ("proposer", col env ledger "proposer" nil_value n)
      ∷ ("proposer_outcome", sql env ledger proposer)
      ∷ ("disputer", col env ledger "disputer" nil_value n)
      ∷ ("disputer_outcome", sql env ledger disputer)
      ∷ ("voting_start", col env ledger "voting_start" nil_value n)
      ∷ ("commit_end", col env ledger "commit_end" nil_value n)
      ∷ ("reveal_end", col env ledger "reveal_end" nil_value n)
      ∷ ("has_final_outcome", col env ledger "has_final_outcome" no_value n)
      ∷ ("final_outcome", sql env ledger final)
      ∷ ("yes_votes", col env ledger "yes_votes" (JsValue.number (pos 0)) n)
      ∷ ("no_votes", col env ledger "no_votes" (JsValue.number (pos 0)) n)
      ∷ ("invalid_votes", col env ledger "invalid_votes" (JsValue.number (pos 0)) n)
      ∷ ("total_valid_votes", col env ledger "total_valid_votes" (JsValue.number (pos 0)) n)
      ∷ ("reward_pool", SqlValue.text (to_amount env.language reward_pool))
      ∷ own env ledger

  unfoldable pub reconcile_case : ℤ → Task Unit
  reconcile_case id = do
    found ← lift (env.contracts.get_case id)
    lift (read_prop "status" found)
    status ← lift (read_tag "status" found)
    proposer ← lift (read_tag "proposer_outcome" found)
    disputer ← lift (read_tag "disputer_outcome" found)
    final ← lift (read_tag "final_outcome" found)
    save council_cases (
        case_columns id (normal env.language found) status proposer disputer final
          (or_default (env.contracts.get_case_reward_pool id) (JsValue.bigint (pos 0))))
    publish (StateUpdate.council_case env.network id)

  unfoldable pub request_columns : ℤ → JsValue → JsValue → JsValue → JsValue → JsValue → Columns
  request_columns id n status proposed disputed final =
      ("network", SqlValue.text env.network)
      ∷ ("request_id", SqlValue.number id)
      ∷ ("market_id", col env ledger "market_id" nil_value n)
      ∷ ("status", sql env ledger status)
      ∷ ("requested_at", col env ledger "requested_at" nil_value n)
      ∷ ("bond_amount", col env ledger "bond_amount" zero_text n)
      ∷ ("dispute_window", col env ledger "dispute_window" nil_value n)
      ∷ ("has_proposal", col env ledger "has_proposal" no_value n)
      ∷ ("proposer", col env ledger "proposer" nil_value n)
      ∷ ("proposed_outcome", sql env ledger proposed)
      ∷ ("proposal_evidence_uri", col env ledger "proposal_evidence_uri" nil_value n)
      ∷ ("proposed_at", col env ledger "proposed_at" nil_value n)
      ∷ ("has_dispute", col env ledger "has_dispute" no_value n)
      ∷ ("disputer", col env ledger "disputer" nil_value n)
      ∷ ("disputed_outcome", sql env ledger disputed)
      ∷ ("dispute_evidence_uri", col env ledger "dispute_evidence_uri" nil_value n)
      ∷ ("disputed_at", col env ledger "disputed_at" nil_value n)
      ∷ ("has_final_outcome", col env ledger "has_final_outcome" no_value n)
      ∷ ("final_outcome", sql env ledger final)
      ∷ own env ledger

  -- The `try` block at the end of `reconcileRequest`.
  unfoldable pub reconcile_case_of : ℤ → Task Unit
  reconcile_case_of request = do
    found ← lift (env.contracts.get_case_for_request request)
    case_id ← lift (required (integer_of found))
    reconcile_case case_id

  unfoldable pub reconcile_request : ℤ → Task Unit
  reconcile_request id = do
    found ← lift (env.contracts.get_request id)
    lift (read_prop "status" found)
    status ← lift (read_tag "status" found)
    proposed ← lift (read_tag "proposed_outcome" found)
    disputed ← lift (read_tag "disputed_outcome" found)
    final ← lift (read_tag "final_outcome" found)
    save resolution_requests
        (request_columns id (normal env.language found) status proposed disputed final)
    if_some (normal_id env.language (prop "market_id" (normal env.language found)))
        (λ market. publish (StateUpdate.market env.network market))
    safely (reconcile_case_of id)
