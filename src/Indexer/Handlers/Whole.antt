-- ===== src/Indexer/Handlers/Whole.antt =====
-- The worker of dike-services/src/indexer/worker.ts with the dispatcher of
-- dike-services/src/indexer/dispatcher.ts. What the dispatcher counts and publishes is left out here.
use dike_monolith.Prelude.{
  ◌∷◌, none, sym, Option, Eq, ◌∙◌, ℕ, ◌≡◌, refl, ap, inl, inr, subst, Bool, some, List, [], String,
  string_eq, pair_eq, arith, ◌&&◌, Bool-cases,
}
use dike_monolith.Prelude.Dict.{lookup}
use dike_monolith.Store.Database.{
  Database, EventRecord, Checkpoint, record_raw_event, note_mismatch, advance_checkpoint,
  reset_checkpoint, try_acquire_indexer_lease, release_indexer_lease, unlock,
}
use dike_monolith.Store.Framed.{Framed, insert_new-keeps}
use dike_monolith.Observability.Metrics.{new_metrics}
use dike_monolith.Task.{Ended, returned, threw}
use dike_monolith.Reconciliation.Environment.{Environment}
use dike_monolith.Indexer.Source.{Codec, Settings, Node, Batch}
use dike_monolith.Indexer.Worker.{Outcome, done, Worker, settle, Sessions, tick}
use dike_monolith.Indexer.Worker.Visits.{KeepsCheckpoints}
use dike_monolith.Indexer.Worker.Induction.{Turns, Inductive, tick-P}
use dike_monolith.Indexer.Worker.Lease.{acquired_lease, refused_lease}
use dike_monolith.Indexer.Handlers.{dispatch}
use dike_monolith.Indexer.Handlers.Frame.{dispatch-Framed}

unfoldable pub ending : {A : Type 0} → Ended A → Outcome
ending (returned u) = done
ending (threw e) = Outcome.threw e

-- The dispatcher as the worker calls it, `env e` being what the contracts answer while `e` is dispatched.
unfoldable pub dispatch_event :
    (EventRecord → Environment) → EventRecord → Database → Outcome × Database
dispatch_event env e db =
    let ended = dispatch (env e) e (record { db = db; metrics = new_metrics; updates = [] }) in
    (ending ended.0, ended.1.db)

event_Framed :
    (env : EventRecord → Environment) (e : EventRecord) (db : Database)
    → Framed ((env e).network, e.event_id) db (dispatch_event env e db).1
unfolding dispatch_event
event_Framed env e db =
    dispatch-Framed (env e) e (record { db = db; metrics = new_metrics; updates = [] })

pub dispatch_event-KeepsCheckpoints :
    (env : EventRecord → Environment) → KeepsCheckpoints (dispatch_event env)
dispatch_event-KeepsCheckpoints env e db = (event_Framed env e db).checkpoints

-- Each row of the map is a row of the other, with the same value.
abbrev Stays : {K V : Type 0} → ⦃k_eq : Eq K⦄ → List (K × V) → List (K × V) → Type 0
Stays before after = (k : _) (v : _) → lookup k before ≡ some v → lookup k after ≡ some v

-- What was recorded of events is still there, as it was.
pub record Retains (before db : Database) : Type 0 where
  pub deployments : db.deployments ≡ before.deployments
  pub raw_events : Stays before.raw_events db.raw_events
  pub trades : Stays before.trades db.trades
  pub liquidity_events : Stays before.liquidity_events db.liquidity_events
  pub lp_fee_claims : Stays before.lp_fee_claims db.lp_fee_claims

module _ (env : EventRecord → Environment) (before : Database) where
  recorded-Retains :
      (e : EventRecord) (db : Database) → Retains before db → Retains before (record_raw_event e db)
  unfolding record_raw_event
  recorded-Retains e db h = record {
    deployments = h.deployments;
    raw_events =
        λ k v x. insert_new-keeps (e.network, e.event_id) e db.raw_events k v (h.raw_events k v x);
    trades = h.trades;
    liquidity_events = h.liquidity_events;
    lp_fee_claims = h.lp_fee_claims;
  }

  dispatched-Retains :
      (e : EventRecord) (db : Database)
      → Retains before db
      → Retains before (dispatch_event env e db).1
  dispatched-Retains e db h =
      let f = event_Framed env e db in
      record {
        deployments = f.deployments ∙ h.deployments;
        raw_events = λ k v x. ap (lookup k) f.raw_events ∙ h.raw_events k v x;
        trades = λ k v x. f.trades.keeps k v (h.trades k v x);
        liquidity_events = λ k v x. f.liquidity_events.keeps k v (h.liquidity_events k v x);
        lp_fee_claims = λ k v x. f.lp_fee_claims.keeps k v (h.lp_fee_claims k v x);
      }

  -- The mismatches, the checkpoints and the lease may change.
  Retains-others :
      (db : Database) (m : List ((String × (String × (String × String))) × ℕ))
      (c : List ((String × String) × Checkpoint)) (b : List ℕ)
      → Retains before db
      → Retains before (record db { mismatches = m; checkpoints = c; lease = b })
  Retains-others db m c b h = record {
    deployments = h.deployments;
    raw_events = h.raw_events;
    trades = h.trades;
    liquidity_events = h.liquidity_events;
    lp_fee_claims = h.lp_fee_claims;
  }

  noted-Retains :
      (network name entity message : String) (db : Database)
      → Retains before db
      → Retains before (note_mismatch network name entity message db)
  unfolding note_mismatch
  noted-Retains network name entity message db h = Retains-others db _ _ _ h

  settled-Retains :
      (network id : String) (batch : Batch) (b : Bool) (db : Database)
      → Retains before db
      → Retains before (settle network id batch b db)
  unfolding settle advance_checkpoint reset_checkpoint
  settled-Retains network id batch b db h = elim (Bool-cases (batch.complete && b)) [
    | inr y ↦ subst (Retains before) (ground (arith, y)) h
    | inl y ↦ elim (Bool-cases batch.reset_checkpoint) [
      | inl r ↦ subst (Retains before) (ground (arith, y, r)) (
          Retains-others db db.mismatches
            (reset_checkpoint network id batch.checkpoint_ledger db).checkpoints db.lease h)
      | inr r ↦ subst (Retains before) (ground (arith, y, r)) (
          Retains-others db db.mismatches
            (advance_checkpoint network id batch.checkpoint_ledger batch.cursor db).checkpoints
            db.lease h)
    ]
  ]

  acquired-Retains :
      (session : ℕ) (db : Database)
      → Retains before db
      → Retains before (try_acquire_indexer_lease session db).1
  unfolding try_acquire_indexer_lease
  acquired-Retains session db h = elim (Bool-cases ((try_acquire_indexer_lease session db).0)) [
    | inl y ↦
        subst (Retains before) (sym (acquired_lease session db y))
          (Retains-others db db.mismatches db.checkpoints (session ∷ db.lease) h)
    | inr n ↦ subst (Retains before) (sym (refused_lease session db n)) h
  ]

  released-Retains :
      (session : Option ℕ) (db : Database)
      → Retains before db
      → Retains before (release_indexer_lease session db)
  unfolding release_indexer_lease
  released-Retains none db h = h
  released-Retains (some s) db h =
      Retains-others db db.mismatches db.checkpoints (unlock s db.lease) h

  Retains-Turns : Turns (dispatch_event env) (Retains before)
  Retains-Turns = record {
    recorded = recorded-Retains;
    dispatched = dispatched-Retains;
    noted = noted-Retains;
    settled = settled-Retains;
  }

  Retains-Inductive : Inductive (dispatch_event env) (Retains before)
  Retains-Inductive = record {
    turns = Retains-Turns;
    acquired = acquired-Retains;
    released = released-Retains;
  }

-- A tick of the worker with the real dispatcher keeps the deployments and every raw event, trade, liquidity
-- event and fee claim that was recorded before it, as they were, whatever the polls, the contracts and the
-- handlers come to, and on whatever sessions the queries of the lease run.
pub tick-Retains :
    (codec : Codec) (settings : Settings) (node : String → Node) (env : EventRecord → Environment)
    (sessions : Sessions) (threshold : ℕ) (w : Worker)
    → Retains w.db (tick codec settings node (dispatch_event env) sessions threshold w).db
tick-Retains codec settings node env sessions threshold w =
    tick-P codec settings node (dispatch_event env) (Retains w.db) (Retains-Turns env w.db) sessions
      threshold w (Retains-Inductive env w.db)
      (record {
        deployments = refl;
        raw_events = λ k v x. x;
        trades = λ k v x. x;
        liquidity_events = λ k v x. x;
        lp_fee_claims = λ k v x. x;
      })
