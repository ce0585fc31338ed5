-- ===== src/Store/Tests.antt =====
-- The theorems of the stored events at one claim of fees.
use dike_monolith.Prelude.{◌≤◌, ◌≡◌, none, [], ◌∷◌}
use dike_monolith.Prelude.Int.{pos}
use dike_monolith.Store.Values.{JsValue, SqlValue}
use dike_monolith.Store.Upserts.{Columns}
use dike_monolith.Store.Database.{
  Database, EventRecord, get_checkpoint, advance_checkpoint, reset_checkpoint,
}
use dike_monolith.Store.Events.{checkpoint_moves}
use dike_monolith.Prelude.{List, String, some, or_else, if◌then◌else◌, string_eq, pair_eq}
use dike_monolith.Prelude.Dict.{lookup}
use dike_monolith.Store.Bootstrap.{bootstrap_manifest, is_deployed, start, bootstrap_checkpoint}

abbrev event : EventRecord
event = record {
  network = "testnet";
  contract_id = "c";
  ledger = 11;
  tx_hash = "t";
  event_id = "e";
  topic = "fee_clm";
  topic_values = JsValue.string "fee_clm" ∷ [];
  payload = JsValue.null;
  cursor = none;
}

-- The same event, read again in another ledger.
abbrev later : EventRecord
later = record event { ledger = 12; tx_hash = "u" }

abbrev database : Database
database = record {
  deployments = ("amm", "c") ∷ [];
  checkpoints =
      (("testnet", "c"), record { last_processed_ledger = 9; last_processed_cursor = none }) ∷ [];
  raw_events = [];
  mismatches = [];
  trades = [];
  liquidity_events = [];
  lp_fee_claims = [];
  governance_config = [];
  governance_modules = [];
  governance_lists = [];
  fees_claimed = (("testnet", (pos 1, "GA")), pos 40) ∷ [];
  tables = λ t. [];
  lease = [];
}

abbrev row : Columns
row = ("pool_id", SqlValue.number (pos 1)) ∷ []

checkpoint_example :
    ((get_checkpoint "testnet" "c" database).last_processed_ledger
      ≤ (get_checkpoint "testnet" "c"
          (advance_checkpoint "testnet" "c" 14 none database)).last_processed_ledger)
    × (14
        ≤ (get_checkpoint "testnet" "c"
            (advance_checkpoint "testnet" "c" 14 none database)).last_processed_ledger)
    × (get_checkpoint "testnet" "c" (reset_checkpoint "testnet" "c" 14 database)
        ≡ record { last_processed_ledger = 14; last_processed_cursor = none })
checkpoint_example = checkpoint_moves "testnet" "c" 14 none database

abbrev contracts : List (String × String)
contracts = ("amm", "c") ∷ (("mock_usdc", "") ∷ (("cod_oracle", "d") ∷ []))

-- The contract that was indexed to ledger 9.
bootstrap_example :
    lookup ("testnet", "c") (bootstrap_manifest "testnet" contracts database).checkpoints ≡ (
      if is_deployed "c" contracts
      then some (or_else (lookup ("testnet", "c") database.checkpoints) start)
      else lookup ("testnet", "c") database.checkpoints)
bootstrap_example = bootstrap_checkpoint "testnet" "c" contracts database
