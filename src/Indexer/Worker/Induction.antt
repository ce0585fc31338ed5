-- ===== src/Indexer/Worker/Induction.antt =====
-- What holds of the database after `tick` of dike-services/src/indexer/worker.ts, by each step that it takes.
use dike_monolith.Prelude.{
  Option, ℕ, ◌≡◌, inl, inr, sym, subst, Bool, List, [], ◌∷◌, String, string_eq, pair_eq, arith,
  Option-cases, Bool-cases,
}
use dike_monolith.Store.Database.{
  Database, EventRecord, record_raw_event, note_mismatch, try_acquire_indexer_lease,
  release_indexer_lease,
}
use dike_monolith.Observability.Metrics.{MetricsStore}
use dike_monolith.Indexer.Source.{Codec, Settings, Node, Batch, poll_contract}
use dike_monolith.Indexer.Worker.{
  Outcome, threw, Worker, settle, process, visit, visit_all, Sessions, leased, tick,
  failure_message,
}
use dike_monolith.Indexer.Worker.Ticks.{visit_all_on, visit_all_off}
use dike_monolith.Indexer.Worker.Visits.{Outcome-cases, visit_none, visit_batch, process_done}

-- A property that each step of the turns of a tick keeps.
pub record Turns (dispatch : EventRecord → Database → Outcome × Database) (P : Database → Type 0)
    : Type 0 where
  pub recorded : (e : EventRecord) (db : Database) → P db → P (record_raw_event e db)
  pub dispatched : (e : EventRecord) (db : Database) → P db → P (dispatch e db).1
  pub noted :
      (network name entity message : String) (db : Database)
      → P db
      → P (note_mismatch network name entity message db)
  pub settled :
      (network id : String) (batch : Batch) (b : Bool) (db : Database)
      → P db
      → P (settle network id batch b db)

-- And one that the lease leaves too.
pub record Inductive (dispatch : EventRecord → Database → Outcome × Database)
    (P : Database → Type 0) : Type 0 where
  pub turns : Turns dispatch P
  pub acquired : (session : ℕ) (db : Database) → P db → P (try_acquire_indexer_lease session db).1
  pub released : (session : Option ℕ) (db : Database) → P db → P (release_indexer_lease session db)

module _ (codec : Codec) (settings : Settings) (node : String → Node)
    (dispatch : EventRecord → Database → Outcome × Database) (P : Database → Type 0)
    (step : Turns dispatch P) where
  process_threw :
      (network name : String) (e : EventRecord) (es : List EventRecord) (db : Database)
      (m : MetricsStore) (error : String)
      → (dispatch e (record_raw_event e db)).0 ≡ threw error
      → (process dispatch network name (e ∷ es) db m).db
        ≡ note_mismatch network name e.event_id
            (failure_message error)
            ((dispatch e (record_raw_event e db)).1)
  unfolding process
  process_threw network name e es db m error h = ground (arith, h)

  process-P :
      (network name : String) (es : List EventRecord) (db : Database) (m : MetricsStore)
      → P db
      → P (process dispatch network name es db m).db
  unfolding process
  process-P network name [] db m h = h
  process-P network name (e ∷ es) db m h =
      let after = step.dispatched e (record_raw_event e db) (step.recorded e db h) in
      elim (Outcome-cases ((dispatch e (record_raw_event e db)).0)) [
        | inl k ↦
            subst (λ r. P r.db) (sym (process_done dispatch network name e es db m k))
              (process-P network name es ((dispatch e (record_raw_event e db)).1) m after)
        | inr (error, k) ↦
            subst P (sym (process_threw network name e es db m error k))
              (step.noted network name e.event_id (failure_message error) _ after)
      ]

  visit-P :
      (name id : String) (db : Database) (m : MetricsStore)
      → P db
      → P (visit codec settings node dispatch name id db m).db
  visit-P name id db m h =
      elim (Option-cases ((poll_contract codec settings (node id) id name db m).0)) [
        | inl k ↦
            subst (λ r. P r.db) (sym (visit_none codec settings node dispatch name id db m k)) h
        | inr (batch, k) ↦
            subst (λ r. P r.db)
              (sym (visit_batch codec settings node dispatch name id db m batch k))
              (step.settled settings.network id batch _ _
                (process-P settings.network name batch.events db _ h))
      ]

  pub visit_all-P :
      (ds : List (String × String)) (db : Database) (m : MetricsStore)
      → P db
      → P (visit_all codec settings node dispatch ds db m).db
  unfolding visit_all
  visit_all-P [] db m h = h
  visit_all-P ((name, id) ∷ ds) db m h =
      let one = visit-P name id db m h in
      let ran = visit codec settings node dispatch name id db m in
      elim (Bool-cases ran.succeeded) [
        | inl k ↦
            subst (λ r. P r.db) (sym (visit_all_on codec settings node dispatch name id ds db m k))
              (visit_all-P ds ran.db ran.metrics one)
        | inr k ↦
            subst (λ r. P r.db) (sym (visit_all_off codec settings node dispatch name id ds db m k))
              one
      ]

  pub tick-P :
      (sessions : Sessions) (threshold : ℕ) (w : Worker)
      → Inductive dispatch P
      → P w.db
      → P (tick codec settings node dispatch sessions threshold w).db
  unfolding tick leased
  tick-P sessions threshold w lease h = elim (Bool-cases w.running) [
    | inl r ↦ subst P (ground (arith, r)) h
    | inr r ↦ elim (Option-cases sessions.acquire) [
      | inl q ↦ subst P (ground (arith, r, q)) h
      | inr (s, q) ↦ elim (Bool-cases ((try_acquire_indexer_lease s w.db).0)) [
        | inr a ↦ subst P (ground (arith, r, q, a)) h
        | inl a ↦ subst P (ground (arith, r, q, a)) (
            lease.released sessions.release _
              (visit_all-P w.db.deployments _ w.metrics (lease.acquired s w.db h)))
      ]
    ]
  ]
