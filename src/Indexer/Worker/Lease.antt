-- ===== src/Indexer/Worker/Lease.antt =====
-- The lease of a tick of dike-services/src/indexer/worker.ts, which two queries of the pool take and give back.
use dike_monolith.Prelude.{
  ℕ, ◌≡◌, ◌≢◌, inl, inr, ap, ◌∙◌, Bool, true, false, some, List, ◌∷◌, String, nat_eq, string_eq,
  pair_eq, arith, List-cases, Bool-cases, Option-cases, ==_refl, ◌&&◌,
}
use dike_monolith.Store.Database.{
  Database, EventRecord, try_acquire_indexer_lease, release_indexer_lease, unlock, record_raw_event,
  note_mismatch, advance_checkpoint, reset_checkpoint,
}
use dike_monolith.Indexer.Source.{Codec, Settings, Node, Batch}
use dike_monolith.Indexer.Worker.{Outcome, Worker, Sessions, settle, visit_all, leased, tick}
use dike_monolith.Indexer.Worker.Induction.{Turns, visit_all-P}

pub acquired_lease :
    (session : ℕ) (db : Database)
    → (try_acquire_indexer_lease session db).0 ≡ true
    → (try_acquire_indexer_lease session db).1 ≡ record db { lease = session ∷ db.lease }
unfolding try_acquire_indexer_lease
acquired_lease session db h = elim (List-cases db.lease) [
  | inl e ↦ ground (arith, e)
  | inr (s, ss, e) ↦ ground (arith, e, h)
]

pub refused_lease :
    (session : ℕ) (db : Database)
    → (try_acquire_indexer_lease session db).0 ≡ false
    → (try_acquire_indexer_lease session db).1 ≡ db
unfolding try_acquire_indexer_lease
refused_lease session db h = elim (List-cases db.lease) [
  | inl e ↦ ground (arith, e, h)
  | inr (s, ss, e) ↦ ground (arith, e, h)
]

-- A dispatcher that leaves the lease alone.
abbrev pub KeepsLease : (EventRecord → Database → Outcome × Database) → Type 0
KeepsLease dispatch = (e : EventRecord) (db : Database) → (dispatch e db).1.lease ≡ db.lease

module _ (dispatch : EventRecord → Database → Outcome × Database) (keeps : KeepsLease dispatch)
    (l : List ℕ) where
  settled_lease :
      (network id : String) (batch : Batch) (b : Bool) (db : Database)
      → db.lease ≡ l
      → (settle network id batch b db).lease ≡ l
  unfolding settle advance_checkpoint reset_checkpoint
  settled_lease network id batch b db h = elim (Bool-cases (batch.complete && b)) [
    | inr y ↦ ground (arith, y, h)
    | inl y ↦ elim (Bool-cases batch.reset_checkpoint) [
      | inl r ↦ ground (arith, y, r, h)
      | inr r ↦ ground (arith, y, r, h)
    ]
  ]

  lease-Turns : Turns dispatch (λ db. db.lease ≡ l)
  unfolding record_raw_event note_mismatch
  lease-Turns = record {
    recorded = λ e db h. h;
    dispatched = λ e db h. keeps e db ∙ h;
    noted = λ network name entity message db h. h;
    settled = settled_lease;
  }

module _ (codec : Codec) (settings : Settings) (node : String → Node)
    (dispatch : EventRecord → Database → Outcome × Database) where
  -- With a dispatcher that leaves the lease alone, and a worker that is not running, whose query for the lease runs
  -- on a session of the pool, a tick leaves the worker not running. If the release runs on the same session,
  -- the holds of the lease are as before the tick, whether it was granted or not, and whatever the polls and the
  -- dispatches come to. If it runs on another session, or fails, a lease that was granted stays held.
  pub tick_leases :
      (sessions : Sessions) (threshold : ℕ) (w : Worker) (session : ℕ)
      → KeepsLease dispatch
      → w.running ≡ false
      → sessions.acquire ≡ some session
      → ((tick codec settings node dispatch sessions threshold w).running ≡ false)
        × (sessions.release ≡ some session
            → (tick codec settings node dispatch sessions threshold w).db.lease ≡ w.db.lease)
        × (sessions.release ≢ some session
            → (try_acquire_indexer_lease session w.db).0 ≡ true
            → (tick codec settings node dispatch sessions threshold w).db.lease
              ≡ session ∷ w.db.lease)
  unfolding tick leased release_indexer_lease unlock
  tick_leases sessions threshold w session keeps idle asked =
      elim (Bool-cases ((try_acquire_indexer_lease session w.db).0)) [
        | inr n ↦ (
          ground (arith, idle, asked, n),
          λ h. ground (arith, idle, asked, n, h),
          λ h y. absurd (ground (arith, n, y)),
        )
        | inl y ↦
            let held : (visit_all codec settings node dispatch w.db.deployments
                  ((try_acquire_indexer_lease session w.db).1) w.metrics).db.lease
                ≡ session ∷ w.db.lease =
              visit_all-P codec settings node dispatch _
                (lease-Turns dispatch keeps (session ∷ w.db.lease)) w.db.deployments _ w.metrics
                (ap (λ d. d.lease) (acquired_lease session w.db y)) in
            (
              ground (arith, idle, asked, y),
              λ h. ground (arith, idle, asked, y, h, held, ==_refl session),
              λ h _. elim (Option-cases sessions.release) [
                | inl e ↦ ground (arith, idle, asked, y, e, held)
                | inr (t, e) ↦ ground (arith, idle, asked, y, e, h, held, nat_eq.beq_iff session t)
              ],
            )
      ]
