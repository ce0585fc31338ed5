-- ===== src/Store/Database.antt =====
-- The tables of dike-services/src/db/repositories/state-repository.ts that the indexer keeps by
-- statements of their own: checkpoints, raw events, mismatches, trades, liquidity events, fee claims and
-- the lease. Those of the column upserts are one list of rows for each table.
use dike_monolith.Prelude.{
  ◌==◌, [], ◌∷◌, ℕ, ◌+◌, Bool, true, false, Option, none, some, List, String, string_eq, pair_eq,
  if◌then◌else◌, max, or_else, nat_eq, is_some,
}
use dike_monolith.Prelude.Dict.{lookup, insert, insert_new}
use dike_monolith.Prelude.Int.{ℤ, ◌+ℤ◌}
use dike_monolith.Store.Values.{JsValue, int_eq}
use dike_monolith.Store.Tables.{Table}
use dike_monolith.Store.Upserts.{Rows, Columns}

-- `rawEvent`, the event as the node gave it, is not kept.
pub record EventRecord : Type 0 where
  pub network : String
  pub contract_id : String
  pub ledger : ℕ
  pub tx_hash : String
  pub event_id : String
  pub topic : String
  pub topic_values : List JsValue
  pub payload : JsValue
  pub cursor : Option String

pub record Checkpoint : Type 0 where
  pub last_processed_ledger : ℕ
  pub last_processed_cursor : Option String

pub record Database : Type 0 where
  pub deployments : List (String × String)
  pub checkpoints : List ((String × String) × Checkpoint)
  pub raw_events : List ((String × String) × EventRecord)
  pub mismatches : List ((String × (String × (String × String))) × ℕ)
  pub trades : List ((String × String) × Columns)
  pub liquidity_events : List ((String × String) × Columns)
  pub lp_fee_claims : List ((String × String) × ℤ)
  pub fees_claimed : List ((String × (ℤ × String)) × ℤ)
  pub governance_config : List (String × Columns)
  pub governance_modules : List ((String × String) × String)
  pub governance_lists : List ((String × (String × String)) × Bool)
  pub tables : Table → Rows
  -- Whether some session holds the indexer's lock.
  -- The holds of the advisory lock of the worker, by session.
  pub lease : List ℕ

-- `getCheckpoint`: a contract with no row is at ledger 0.
unfoldable pub get_checkpoint : String → String → Database → Checkpoint
get_checkpoint network id db =
    or_else (lookup (network, id) db.checkpoints)
      (record { last_processed_ledger = 0; last_processed_cursor = none })

-- `advanceCheckpoint`, with `GREATEST` of the two ledgers.
unfoldable pub advance_checkpoint : String → String → ℕ → Option String → Database → Database
advance_checkpoint network id ledger cursor db = record db {
  checkpoints =
      insert (network, id)
        (record {
          last_processed_ledger = elim (lookup (network, id) db.checkpoints) [
            | none ↦ ledger
            | some c ↦ max c.last_processed_ledger ledger
          ];
          last_processed_cursor = cursor;
        })
        db.checkpoints;
}

unfoldable pub reset_checkpoint : String → String → ℕ → Database → Database
reset_checkpoint network id ledger db = record db {
  checkpoints =
      insert (network, id) (record { last_processed_ledger = ledger; last_processed_cursor = none })
        db.checkpoints;
}

-- `recordRawEvent`: the first record of an event stays.
unfoldable pub record_raw_event : EventRecord → Database → Database
record_raw_event e db = record db {
  raw_events = insert_new (e.network, e.event_id) e db.raw_events;
}

-- `noteMismatch`: a new mismatch is seen once, an old one once more.
unfoldable pub note_mismatch : String → String → String → String → Database → Database
note_mismatch network name entity message db = record db {
  mismatches =
      insert (network, (name, (entity, message)))
        (or_else (lookup (network, (name, (entity, message))) db.mismatches) 0 + 1) db.mismatches;
}

-- `insertTrade` and `insertLiquidityEvent`, by the event.
unfoldable pub insert_trade : String → String → Columns → Database → Database
insert_trade network event_id row db = record db {
  trades = insert_new (network, event_id) row db.trades;
}

unfoldable pub insert_liquidity_event : String → String → Columns → Database → Database
insert_liquidity_event network event_id row db = record db {
  liquidity_events = insert_new (network, event_id) row db.liquidity_events;
}

-- `addLpFeesClaimed`: a claim that is not recorded yet is, and the position's sum, if there is one,
-- goes up by its amount.
unfoldable pub add_lp_fees_claimed : String → ℤ → String → ℤ → String → Database → Database
add_lp_fees_claimed network pool_id owner amount event_id db =
    if is_some (lookup (network, event_id) db.lp_fee_claims) then db else record db {
      lp_fee_claims = insert (network, event_id) amount db.lp_fee_claims;
      fees_claimed = elim (lookup (network, (pool_id, owner)) db.fees_claimed) [
        | none ↦ db.fees_claimed
        | some total ↦ insert (network, (pool_id, owner)) (total +ℤ amount) db.fees_claimed
      ];
    }

-- `pg_try_advisory_lock`, on the session that the pool gives to the query: a session may hold the lock more than once.
unfoldable pub try_acquire_indexer_lease : ℕ → Database → Bool × Database
try_acquire_indexer_lease session db = elim db.lease [
  | [] ↦ (true, record db { lease = session ∷ [] })
  | h ∷ hs ↦ if h == session then (true, record db { lease = session ∷ (h ∷ hs) }) else (false, db)
]

-- `pg_advisory_unlock`, which undoes one hold of its own session, and nothing on another one.
unfoldable pub unlock : ℕ → List ℕ → List ℕ
unlock session [] = []
unlock session (h ∷ hs) = if h == session then hs else h ∷ hs

-- The query runs on the session that the pool gives to it, or fails, which the worker catches.
unfoldable pub release_indexer_lease : Option ℕ → Database → Database
release_indexer_lease none db = db
release_indexer_lease (some session) db = record db { lease = unlock session db.lease }
