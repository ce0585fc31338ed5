-- ===== src/Store/Tables.antt =====
-- The tables of dike-services/src/db/repositories/state-repository.ts that are upserted by columns: the
-- columns that may be given, and those of the conflict clause; and the columns that must hold a value.
use dike_monolith.Prelude.{Bool, true, false, List, [], ◌∷◌, String}

pub data Table : Type 0 where
  markets pools resolution_requests council_cases council_votes timelock_actions : Table
  vault_snapshots user_positions lp_positions user_vault_state : Table

unfoldable pub allowed_columns : Table → List String
allowed_columns markets =
    "network" ∷ "market_id" ∷ "question" ∷ "question_hash" ∷ "rules_uri" ∷ "rules_hash" ∷ "creator"
    ∷ "category" ∷ "collateral" ∷ "yes_token_id" ∷ "no_token_id" ∷ "expiry" ∷ "status"
    ∷ "has_final_outcome" ∷ "final_outcome" ∷ "pool_id" ∷ "bond_amount" ∷ "dispute_window"
    ∷ "has_request" ∷ "request_id" ∷ "created_at_unix" ∷ "fee_config_json"
    ∷ "last_reconciled_ledger" ∷ "reconciled_at" ∷ []
allowed_columns pools =
    "network" ∷ "pool_id" ∷ "market_id" ∷ "yes_reserve" ∷ "no_reserve" ∷ "total_lp_shares"
    ∷ "accumulated_lp_fees" ∷ "accumulated_protocol_fees" ∷ "accumulated_cod_fees"
    ∷ "fee_per_share_scaled" ∷ "live" ∷ "last_reconciled_ledger" ∷ "reconciled_at" ∷ []
allowed_columns resolution_requests =
    "network" ∷ "request_id" ∷ "market_id" ∷ "status" ∷ "requested_at" ∷ "bond_amount"
    ∷ "dispute_window" ∷ "has_proposal" ∷ "proposer" ∷ "proposed_outcome" ∷ "proposal_evidence_uri"
    ∷ "proposed_at" ∷ "has_dispute" ∷ "disputer" ∷ "disputed_outcome" ∷ "dispute_evidence_uri"
    ∷ "disputed_at" ∷ "has_final_outcome" ∷ "final_outcome" ∷ "last_reconciled_ledger"
    ∷ "reconciled_at" ∷ []
allowed_columns council_cases =
    "network" ∷ "case_id" ∷ "request_id" ∷ "market_id" ∷ "status" ∷ "proposer" ∷ "proposer_outcome"
    ∷ "disputer" ∷ "disputer_outcome" ∷ "voting_start" ∷ "commit_end" ∷ "reveal_end"
    ∷ "has_final_outcome" ∷ "final_outcome" ∷ "yes_votes" ∷ "no_votes" ∷ "invalid_votes"
    ∷ "total_valid_votes" ∷ "reward_pool" ∷ "last_reconciled_ledger" ∷ "reconciled_at" ∷ []
allowed_columns council_votes =
    "network" ∷ "case_id" ∷ "voter" ∷ "has_commit" ∷ "has_reveal" ∷ "revealed_outcome"
    ∷ "claimed_reward" ∷ "correct" ∷ "reward_amount" ∷ []
allowed_columns timelock_actions =
    "network" ∷ "action_id" ∷ "kind" ∷ "target" ∷ "payload_json" ∷ "execute_after" ∷ "expires_at"
    ∷ "executed" ∷ "cancelled" ∷ "payload_hash" ∷ "last_reconciled_ledger" ∷ "reconciled_at" ∷ []
allowed_columns vault_snapshots =
    "network" ∷ "market_id" ∷ "total_deposited" ∷ "collateral_backing" ∷ "amm_collateral"
    ∷ "child_collateral_issued" ∷ "child_collateral_repaid" ∷ "child_collateral_defaulted"
    ∷ "redeemed" ∷ "protocol_fees" ∷ "lp_fees" ∷ "cod_fees" ∷ "proposal_bonds" ∷ "dispute_bonds"
    ∷ "refundable" ∷ "last_reconciled_ledger" ∷ "reconciled_at" ∷ []
allowed_columns user_positions =
    "network" ∷ "market_id" ∷ "owner" ∷ "outcome" ∷ "balance" ∷ "last_reconciled_ledger"
    ∷ "reconciled_at" ∷ []
allowed_columns lp_positions =
    "network" ∷ "pool_id" ∷ "owner" ∷ "shares" ∷ "fee_checkpoint" ∷ "claimable_fees"
    ∷ "last_reconciled_ledger" ∷ "reconciled_at" ∷ []
allowed_columns user_vault_state =
    "network" ∷ "market_id" ∷ "owner" ∷ "user_deposit" ∷ "root_stake_yes" ∷ "root_stake_no"
    ∷ "child_used_total" ∷ "child_used_yes" ∷ "child_used_no" ∷ "child_debt" ∷ "parent_debt_yes"
    ∷ "parent_debt_no" ∷ "redeemed_yes" ∷ "redeemed_no" ∷ "redeemed_invalid"
    ∷ "last_reconciled_ledger" ∷ "reconciled_at" ∷ []

-- The columns of `ON CONFLICT`.
unfoldable pub key_columns : Table → List String
key_columns markets = "network" ∷ "market_id" ∷ []
key_columns pools = "network" ∷ "pool_id" ∷ []
key_columns resolution_requests = "network" ∷ "request_id" ∷ []
key_columns council_cases = "network" ∷ "case_id" ∷ []
key_columns council_votes = "network" ∷ "case_id" ∷ "voter" ∷ []
key_columns timelock_actions = "network" ∷ "action_id" ∷ []
key_columns vault_snapshots = "network" ∷ "market_id" ∷ []
key_columns user_positions = "network" ∷ "market_id" ∷ "owner" ∷ "outcome" ∷ []
key_columns lp_positions = "network" ∷ "pool_id" ∷ "owner" ∷ []
key_columns user_vault_state = "network" ∷ "market_id" ∷ "owner" ∷ []

-- The `NOT NULL` columns of dike-services/migrations/001_init.sql that may be given, those of the primary key with
-- them, in the order of the table, and whether a `DEFAULT` fills in for one that is not given.
unfoldable pub not_null_columns : Table → List (String × Bool)
not_null_columns markets =
    ("network", false)
    ∷ ("market_id", false)
    ∷ ("has_final_outcome", true)
    ∷ ("has_request", true)
    ∷ ("fee_config_json", true)
    ∷ []
not_null_columns pools =
    ("network", false)
    ∷ ("pool_id", false)
    ∷ ("market_id", false)
    ∷ ("yes_reserve", true)
    ∷ ("no_reserve", true)
    ∷ ("total_lp_shares", true)
    ∷ ("accumulated_lp_fees", true)
    ∷ ("accumulated_protocol_fees", true)
    ∷ ("accumulated_cod_fees", true)
    ∷ ("live", true)
    ∷ []
not_null_columns resolution_requests =
    ("network", false)
    ∷ ("request_id", false)
    ∷ ("market_id", false)
    ∷ ("has_proposal", true)
    ∷ ("has_dispute", true)
    ∷ ("has_final_outcome", true)
    ∷ []
not_null_columns council_cases =
    ("network", false)
    ∷ ("case_id", false)
    ∷ ("request_id", false)
    ∷ ("market_id", false)
    ∷ ("has_final_outcome", true)
    ∷ ("yes_votes", true)
    ∷ ("no_votes", true)
    ∷ ("invalid_votes", true)
    ∷ ("total_valid_votes", true)
    ∷ []
not_null_columns council_votes =
    ("network", false)
    ∷ ("case_id", false)
    ∷ ("voter", false)
    ∷ ("has_commit", true)
    ∷ ("has_reveal", true)
    ∷ ("claimed_reward", true)
    ∷ []
not_null_columns timelock_actions =
    ("network", false) ∷ ("action_id", false) ∷ ("executed", true) ∷ ("cancelled", true) ∷ []
not_null_columns vault_snapshots =
    ("network", false)
    ∷ ("market_id", false)
    ∷ ("total_deposited", true)
    ∷ ("collateral_backing", true)
    ∷ ("amm_collateral", true)
    ∷ ("child_collateral_issued", true)
    ∷ ("child_collateral_repaid", true)
    ∷ ("child_collateral_defaulted", true)
    ∷ ("redeemed", true)
    ∷ ("protocol_fees", true)
    ∷ ("lp_fees", true)
    ∷ ("cod_fees", true)
    ∷ ("proposal_bonds", true)
    ∷ ("dispute_bonds", true)
    ∷ ("refundable", true)
    ∷ []
not_null_columns user_positions =
    ("network", false)
    ∷ ("market_id", false)
    ∷ ("owner", false)
    ∷ ("outcome", false)
    ∷ ("balance", true)
    ∷ []
not_null_columns lp_positions =
    ("network", false) ∷ ("pool_id", false) ∷ ("owner", false) ∷ ("shares", true) ∷ []
not_null_columns user_vault_state =
    ("network", false)
    ∷ ("market_id", false)
    ∷ ("owner", false)
    ∷ ("user_deposit", true)
    ∷ ("root_stake_yes", true)
    ∷ ("root_stake_no", true)
    ∷ ("child_used_total", true)
    ∷ ("child_used_yes", true)
    ∷ ("child_used_no", true)
    ∷ ("child_debt", true)
    ∷ ("parent_debt_yes", true)
    ∷ ("parent_debt_no", true)
    ∷ ("redeemed_yes", true)
    ∷ ("redeemed_no", true)
    ∷ ("redeemed_invalid", true)
    ∷ []
