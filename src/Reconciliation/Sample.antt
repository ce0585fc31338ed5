-- ===== src/Reconciliation/Sample.antt =====
-- A chain with one market and its pool, whose other contracts do not answer.
use dike_monolith.Prelude.{none, some, [], ◌∷◌, String}
use dike_monolith.Prelude.Int.{pos}
use dike_monolith.Store.Values.{JsValue, Fields}
use dike_monolith.Store.Database.{Database, EventRecord}
use dike_monolith.Observability.Metrics.{new_metrics}
use dike_monolith.Task.{returned, threw, Services}
use dike_monolith.Sponsorship.Allowlist.{ContractModule, DikeManifestContracts}
use dike_monolith.Reconciliation.Environment.{Contracts, Language, Environment}

abbrev pub tag : String → JsValue
tag name = JsValue.object (Fields.field "tag" (JsValue.string name) Fields.end)

abbrev pub market : JsValue
market = JsValue.object (
    Fields.field "status" (tag "Live") (
      Fields.field "final_outcome" (tag "Invalid") (
        Fields.field "question" (JsValue.string "Rain?") (
          Fields.field "fee_config"
            (JsValue.object (Fields.field "protocol_bps" (JsValue.number (pos 50)) Fields.end))
            Fields.end))))

abbrev pub pool : JsValue
pool = JsValue.object (
    Fields.field "market_id" (JsValue.number (pos 7))
      (Fields.field "yes_reserve" (JsValue.string "40") Fields.end))

abbrev pub contracts : Contracts
contracts = record {
  get_treasury = threw "offline";
  get_timelock = threw "offline";
  get_pause_authority = threw "offline";
  get_fee_config = threw "offline";
  get_module = λ a. threw "offline";
  get_events = λ a b. threw "offline";
  get_market = λ a. returned market;
  is_tradeable = λ a. threw "offline";
  get_pool = λ a. returned pool;
  get_request = λ a. threw "offline";
  get_case_for_request = λ a. threw "offline";
  get_case = λ a. threw "offline";
  get_case_reward_pool = λ a. threw "offline";
  get_vault_accounting = λ a. threw "offline";
  get_position_balance = λ a b c. threw "offline";
  get_lp_balance = λ a b. threw "offline";
  get_lp_fee_checkpoint = λ a b. threw "offline";
  get_claimable_lp_fees = λ a b. threw "offline";
  get_user_deposit = λ a b. threw "offline";
  get_root_stake = λ a b c. threw "offline";
  get_child_collateral_used = λ a b. threw "offline";
  get_child_used_for_outcome = λ a b c. threw "offline";
  get_child_debt = λ a b. threw "offline";
  get_parent_debt = λ a b c. threw "offline";
  get_redeemed = λ a b c. threw "offline";
  get_timelock_action = λ a. threw "offline";
}

abbrev pub language : Language
language = record {
  to_text = λ v. "text";
  to_number = λ s. none;
  digits = λ n. "digits";
  json = λ v. "{}";
  hex = λ v. returned "00";
  number_of = λ v. none;
  numeric = λ s. none;
}

-- The AMM at one address, and the other modules at another.
abbrev pub addresses : DikeManifestContracts
addresses ContractModule.amm = "CAMM"
addresses _ = "COTHER"

abbrev pub environment : Environment
environment = record {
  network = "testnet";
  addresses = addresses;
  contracts = contracts;
  language = language;
  codec = record { native = λ s. some (JsValue.string s); to_text = λ v. "text" };
  now = "2026-01-01T00:00:00.000Z";
}

abbrev pub database : Database
database = record {
  deployments = ("amm", "CAMM") ∷ [];
  checkpoints = [];
  raw_events = [];
  mismatches = [];
  trades = [];
  liquidity_events = [];
  lp_fee_claims = [];
  fees_claimed = [];
  governance_config = [];
  governance_modules = [];
  governance_lists = [];
  tables = λ t. [];
  lease = [];
}

abbrev pub services : Services
services = record { db = database; metrics = new_metrics; updates = [] }

-- A trade in pool 3.
abbrev pub event : EventRecord
event = record {
  network = "testnet";
  contract_id = "CAMM";
  ledger = 11;
  tx_hash = "t";
  event_id = "e";
  topic = "buy";
  topic_values = JsValue.string "buy" ∷ (JsValue.number (pos 3) ∷ (JsValue.string "GA" ∷ []));
  payload = JsValue.null;
  cursor = none;
}
