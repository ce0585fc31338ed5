-- ===== src/Indexer/Worker.antt =====
-- `tick` of dike-services/src/indexer/worker.ts. The dispatcher is a parameter: what it makes of an
-- event is an outcome and the database after it. Of the other calls
-- of the database only those of the lease may fail; the timer and the logs are left out.
use Prim.Native.String.{◌++◌}
use dike_monolith.Prelude.{
  ℕ, ◌+◌, Bool, true, false, not, ◌&&◌, Option, none, some, List, [], ◌∷◌, String, if◌then◌else◌,
  ltb, length, keep, map,
}
use dike_monolith.Store.Database.{
  Database, EventRecord, record_raw_event, note_mismatch, advance_checkpoint, reset_checkpoint,
  try_acquire_indexer_lease, release_indexer_lease,
}
use dike_monolith.Observability.Metrics.{
  MetricsStore, ContractMetric, note_processing_failure, set_lag_alert_count,
}
use dike_monolith.Indexer.Source.{Codec, Settings, Node, Batch, poll_contract}
pub mod Visits
pub mod Ticks
pub mod Induction
pub mod Lease

-- How the dispatch of an event ends.
pub data Outcome : Type 0 where
  done : Outcome
  threw : String → Outcome

pub record Worker : Type 0 where
  pub running : Bool
  pub db : Database
  pub metrics : MetricsStore

-- The sessions of the pool that the two queries of the lease run on; a query without one fails.
pub record Sessions : Type 0 where
  pub acquire : Option ℕ
  pub release : Option ℕ

-- What a part of the tick comes to: whether it succeeded, the database and the metrics.
pub record Ran : Type 0 where
  pub succeeded : Bool
  pub db : Database
  pub metrics : MetricsStore

abbrev pub failure_message : String → String
failure_message error = "event processing failed; checkpoint retained for replay: " ++ error

-- The contracts whose lag is at the threshold or above, of `snapshot`.
unfoldable pub lag_alerts : ℕ → MetricsStore → List ContractMetric
lag_alerts threshold m =
    keep (λ c. not (ltb c.lag_ledgers threshold)) (map (λ e. e.1) m.contract_metrics)

-- The checkpoint after a batch.
unfoldable pub settle : String → String → Batch → Bool → Database → Database
settle network id batch succeeded db =
    if batch.complete && succeeded
    then (if batch.reset_checkpoint
        then reset_checkpoint network id batch.checkpoint_ledger db
        else advance_checkpoint network id batch.checkpoint_ledger batch.cursor db)
    else db

module _ (dispatch : EventRecord → Database → Outcome × Database) (network : String) where
  -- The loop over the batch's events, that breaks at the first one that throws.
  unfoldable pub process : String → List EventRecord → Database → MetricsStore → Ran
  process name [] db m = record { succeeded = true; db = db; metrics = m }
  process name (e ∷ es) db m = elim ((dispatch e (record_raw_event e db)).0) [
    | done ↦ process name es ((dispatch e (record_raw_event e db)).1) m
    | threw error ↦ record {
      succeeded = false;
      db =
          note_mismatch network name e.event_id (failure_message error)
            ((dispatch e (record_raw_event e db)).1);
      metrics = note_processing_failure m;
    }
  ]

-- What follows the loop, or the `catch`.
unfoldable pub conclude : ℕ → Ran → MetricsStore
conclude threshold ran =
    if ran.succeeded
    then set_lag_alert_count (length (lag_alerts threshold ran.metrics)) ran.metrics
    else note_processing_failure ran.metrics

module _ (codec : Codec) (settings : Settings) (node : String → Node)
    (dispatch : EventRecord → Database → Outcome × Database) where
  -- One deployment's turn: it fails when the poll throws.
  unfoldable pub visit : String → String → Database → MetricsStore → Ran
  visit name id db m = elim ((poll_contract codec settings (node id) id name db m).0) [
    | none ↦ record {
      succeeded = false;
      db = db;
      metrics = (poll_contract codec settings (node id) id name db m).1;
    }
    | some batch ↦
        let ran =
          process dispatch settings.network name batch.events db
            ((poll_contract codec settings (node id) id name db m).1) in
        record {
          succeeded = true;
          db = settle settings.network id batch ran.succeeded ran.db;
          metrics = ran.metrics;
        }
  ]

  -- The loop over the deployments, which a poll that throws leaves.
  unfoldable pub visit_all : List (String × String) → Database → MetricsStore → Ran
  visit_all [] db m = record { succeeded = true; db = db; metrics = m }
  visit_all ((name, id) ∷ ds) db m =
      let ran = visit name id db m in
      let rest = visit_all ds ran.db ran.metrics in if ran.succeeded then rest else ran

  -- The body of `tick`, with the session that asked for the lease; without one the query failed.
  unfoldable pub leased : Sessions → Option ℕ → ℕ → Worker → Worker
  leased sessions none threshold w = record w {
    running = false;
    metrics = note_processing_failure w.metrics;
  }
  leased sessions (some session) threshold w =
      if (try_acquire_indexer_lease session w.db).0
      then (let ran =
            visit_all w.db.deployments ((try_acquire_indexer_lease session w.db).1) w.metrics in
          record {
            running = false;
            db = release_indexer_lease sessions.release ran.db;
            metrics = conclude threshold ran;
          })
      else record w { running = false }

  unfoldable pub tick : Sessions → ℕ → Worker → Worker
  tick sessions threshold w = if w.running then w else leased sessions sessions.acquire threshold w
