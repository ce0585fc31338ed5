-- ===== src/Indexer/Worker/Visits.antt =====
-- One deployment's turn in `tick` of dike-services/src/indexer/worker.ts: its events and its checkpoint.
use dike_monolith.Prelude.{
  ℕ, ◌+◌, ◌<◌, ◌≤◌, ◌≡◌, ◌⊎◌, inl, inr, refl, ap, sym, ◌∙◌, subst, Bool, true, false, Option, none,
  some, List, [], ◌∷◌, ◌++◌, String, string_eq, pair_eq, arith, Option-cases, Bool-cases, or_else,
  ==_refl, length,
}
use dike_monolith.Prelude.Dict.{lookup, lookup-insert}
use dike_monolith.Store.Database.{
  Database, EventRecord, record_raw_event, note_mismatch, advance_checkpoint, get_checkpoint,
}
use dike_monolith.Observability.Metrics.{MetricsStore}
use dike_monolith.Indexer.Source.{
  Codec, Settings, Node, Batch, Response, page_limit, poll_contract, from_ledger, end_ledger, fetch,
}
use dike_monolith.Indexer.Source.Pages.{window_events}
use dike_monolith.Indexer.Source.Batches.{
  decode, WindowPages, fetch_complete, fetch_resets, poll_from,
}
use dike_monolith.Indexer.Worker.{
  Outcome, done, threw, Ran, failure_message, settle, process, visit,
}

-- The dispatcher does not touch the checkpoints.
abbrev pub KeepsCheckpoints : (EventRecord → Database → Outcome × Database) → Type 0
KeepsCheckpoints dispatch =
    (e : EventRecord) (db : Database) → (dispatch e db).1.checkpoints ≡ db.checkpoints

pub Outcome-cases : (o : Outcome) → (o ≡ done) ⊎ ((error : String) × (o ≡ threw error))
Outcome-cases done = inl refl
Outcome-cases (threw error) = inr (error, refl)

module _ (dispatch : EventRecord → Database → Outcome × Database) where
  -- Each event is recorded and dispatched, in order, and none throws.
  pub data Processed : List EventRecord → Database → Database → Type 0 where
    all_done : (db : Database) → Processed [] db db
    one_done :
        (e : EventRecord) (es : List EventRecord) (db after : Database)
        → (dispatch e (record_raw_event e db)).0 ≡ done
        → Processed es ((dispatch e (record_raw_event e db)).1) after
        → Processed (e ∷ es) db after

  pub process_done :
      (network name : String) (e : EventRecord) (es : List EventRecord) (db : Database)
      (m : MetricsStore)
      → (dispatch e (record_raw_event e db)).0 ≡ done
      → process dispatch network name (e ∷ es) db m
        ≡ process dispatch network name es ((dispatch e (record_raw_event e db)).1) m
  unfolding process
  process_done network name e es db m h = ground (arith, h)

  -- The loop ends with every event processed, or at the first event that throws: those before it are
  -- processed, and it is noted as a mismatch.
  pub process_cases :
      (network name : String) (es : List EventRecord) (db : Database) (m : MetricsStore)
      → ((process dispatch network name es db m).succeeded ≡ true)
          × Processed es db ((process dispatch network name es db m).db)
        ⊎ (((process dispatch network name es db m).succeeded ≡ false)
            × (before : List EventRecord) × (e : EventRecord) × (rest : List EventRecord)
            × (error : String) × (reached : Database) × (es ≡ before ++ (e ∷ rest))
            × Processed before db reached
            × ((dispatch e (record_raw_event e reached)).0 ≡ threw error)
            × ((process dispatch network name es db m).db
                ≡ note_mismatch network name e.event_id
                    (failure_message error)
                    ((dispatch e (record_raw_event e reached)).1)))
  unfolding process
  process_cases network name [] db m = inl (refl, all_done db)
  process_cases network name (e ∷ es) db m =
      elim (Outcome-cases ((dispatch e (record_raw_event e db)).0)) [
        | inl h ↦ elim (process_cases network name es ((dispatch e (record_raw_event e db)).1) m) [
          | inl (a, b) ↦ inl (
            ap (λ r. r.succeeded) (process_done network name e es db m h) ∙ a,
            one_done e es db _ h (
                subst (λ r. Processed es ((dispatch e (record_raw_event e db)).1) r.db)
                  (sym (process_done network name e es db m h)) b),
          )
          | inr (a, before, f, rest, error, reached, b, c, d, g) ↦ inr (
            ap (λ r. r.succeeded) (process_done network name e es db m h) ∙ a,
            e ∷ before,
            f,
            rest,
            error,
            reached,
            ap (λ l. e ∷ l) b,
            one_done e before db reached h c,
            d,
            ap (λ r. r.db) (process_done network name e es db m h) ∙ g,
          )
        ]
        | inr (error, h) ↦
            inr (ground (arith, h), [], e, es, error, db, refl, all_done db, h, ground (arith, h))
      ]

  record_checkpoints :
      (e : EventRecord) (db : Database)
      → KeepsCheckpoints dispatch
      → (dispatch e (record_raw_event e db)).1.checkpoints ≡ db.checkpoints
  unfolding record_raw_event
  record_checkpoints e db k = k e (record_raw_event e db)

  pub process-checkpoints :
      KeepsCheckpoints dispatch
      → (network name : String) (es : List EventRecord) (db : Database) (m : MetricsStore)
      → (process dispatch network name es db m).db.checkpoints ≡ db.checkpoints
  unfolding process note_mismatch
  process-checkpoints k network name [] db m = refl
  process-checkpoints k network name (e ∷ es) db m =
      elim (Outcome-cases ((dispatch e (record_raw_event e db)).0)) [
        | inl h ↦
            ap (λ r. r.db.checkpoints) (process_done network name e es db m h)
            ∙ process-checkpoints k network name es ((dispatch e (record_raw_event e db)).1) m
            ∙ record_checkpoints e db k
        | inr (error, h) ↦ ground (arith, h) ∙ record_checkpoints e db k
      ]

noted :
    (network name entity message : String) (db : Database)
    → lookup
        (network, (name, (entity, message)))
        (note_mismatch network name entity message db).mismatches
      ≡ some (or_else (lookup (network, (name, (entity, message))) db.mismatches) 0 + 1)
unfolding note_mismatch
noted network name entity message db =
    let key : String × (String × (String × String)) = (network, (name, (entity, message))) in
    lookup-insert key key _ db.mismatches ∙ ground (arith, ==_refl key)

settle_kept :
    (network id : String) (batch : Batch) (succeeded : Bool) (db : Database)
    → (batch.complete ≡ false) ⊎ (succeeded ≡ false)
    → settle network id batch succeeded db ≡ db
unfolding settle
settle_kept network id batch succeeded db (inl h) = ground (arith, h)
settle_kept network id batch succeeded db (inr h) = ground (arith, h)

settle_advanced :
    (network id : String) (batch : Batch) (succeeded : Bool) (db : Database)
    → batch.complete ≡ true
    → succeeded ≡ true
    → batch.reset_checkpoint ≡ false
    → settle network id batch succeeded db
      ≡ advance_checkpoint network id batch.checkpoint_ledger batch.cursor db
unfolding settle
settle_advanced network id batch succeeded db h k r = ground (arith, h, k, r)

module _ (codec : Codec) (settings : Settings) (node : String → Node)
    (dispatch : EventRecord → Database → Outcome × Database) (name id : String) (db : Database)
    (m : MetricsStore) where
  abbrev visited : Ran
  visited = visit codec settings node dispatch name id db m

  pub visit_batch :
      (batch : Batch)
      → (poll_contract codec settings (node id) id name db m).0 ≡ some batch
      → visit codec settings node dispatch name id db m ≡ (
          let ran =
            process dispatch settings.network name batch.events db
              ((poll_contract codec settings (node id) id name db m).1) in
          record {
            succeeded = true;
            db = settle settings.network id batch ran.succeeded ran.db;
            metrics = ran.metrics;
          })
  unfolding visit
  visit_batch batch h = ground (arith, h)

  abbrev after_poll : MetricsStore
  after_poll = (poll_contract codec settings (node id) id name db m).1

  pub visit_none :
      (poll_contract codec settings (node id) id name db m).0 ≡ none
      → visited ≡ record { succeeded = false; db = db; metrics = after_poll }
  unfolding visit
  visit_none h = ground (arith, h)

  -- With a dispatcher that leaves checkpoints alone and a first ledger that the node has reached, a
  -- deployment's turn leaves every checkpoint as it was, or covers a window: the node serves a chain of
  -- fewer than 100 pages for it, every event of theirs inside the window is recorded and dispatched in
  -- order without an error, and the contract's checkpoint then advances to the window's last ledger.
  pub checkpoint_covers :
      (from latest : ℕ)
      → KeepsCheckpoints dispatch
      → (node id).latest ≡ some latest
      → from_ledger settings (get_checkpoint settings.network id db).last_processed_ledger
        ≡ some from
      → from ≤ latest
      → (visited.db.checkpoints ≡ db.checkpoints)
        ⊎ ((ps : List Response) × (reached : Database) × (cursor : Option String) × WindowPages
              codec settings
              (node id)
              id
              name
              from
              latest
              ps
            × (length ps < page_limit)
            × Processed dispatch
                (window_events
                  (decode codec settings (node id) id name)
                  (end_ledger settings from latest)
                  ps)
                db
                reached
            × (visited.db
                ≡ advance_checkpoint settings.network id
                    (end_ledger settings from latest)
                    cursor
                    reached))
  checkpoint_covers from latest k h f l =
      let polled : (poll_contract codec settings (node id) id name db m).0
          ≡ fetch codec settings (node id) id name from latest =
        poll_from codec settings (node id) id name db m from latest h f ∙ ground (arith, l) in
      elim (Option-cases (fetch codec settings (node id) id name from latest)) [
        | inl e ↦ inl (ap (λ r. r.db.checkpoints) (visit_none (polled ∙ e)))
        | inr (batch, e) ↦
            let whole = visit_batch batch (polled ∙ e) in
            let same =
              process-checkpoints dispatch k settings.network name batch.events db after_poll in
            elim (Bool-cases batch.complete) [
              | inr c ↦ inl (
                  ap (λ r. r.db.checkpoints) whole
                  ∙ ap (λ d. d.checkpoints) (settle_kept settings.network id batch _ _ (inl c))
                  ∙ same)
              | inl c ↦
                  elim (process_cases dispatch settings.network name batch.events db after_poll) [
                    | inr u ↦ inl (
                        ap (λ r. r.db.checkpoints) whole
                        ∙ ap (λ d. d.checkpoints)
                            (settle_kept settings.network id batch _ _ (inr u.0))
                        ∙ same)
                    | inl (a, b) ↦
                        let (ps, v, n, w, u) =
                          fetch_complete codec settings (node id) id name from latest batch e c in
                        inr (
                          ps,
                          (process dispatch settings.network name batch.events db after_poll).db,
                          batch.cursor,
                          v,
                          n,
                          subst
                              (λ es.
                                Processed dispatch es db
                                  (process dispatch settings.network name batch.events db
                                    after_poll).db)
                              w b,
                          ap (λ r. r.db) whole
                              ∙ settle_advanced settings.network id batch _ _ c a (
                                  fetch_resets codec settings (node id) id name from latest batch e)
                              ∙ ap
                                  (λ n.
                                    advance_checkpoint settings.network id n batch.cursor
                                      (process dispatch settings.network name batch.events db
                                        after_poll).db)
                                  u,
                        )
                  ]
            ]
      ]

  -- With a dispatcher that leaves checkpoints alone, when the loop over a batch breaks, the checkpoints
  -- stay as they were, and the event that threw, the one behind those that were processed, is seen once
  -- more as a mismatch under its error's text.
  pub failure_retains :
      (batch : Batch)
      → KeepsCheckpoints dispatch
      → (poll_contract codec settings (node id) id name db m).0 ≡ some batch
      → (process dispatch settings.network name batch.events db after_poll).succeeded ≡ false
      → (visited.db.checkpoints ≡ db.checkpoints)
        × (before : List EventRecord) × (e : EventRecord) × (rest : List EventRecord)
        × (error : String) × (reached : Database) × (batch.events ≡ before ++ (e ∷ rest))
        × Processed dispatch before db reached
        × ((dispatch e (record_raw_event e reached)).0 ≡ threw error)
        × (lookup
              (settings.network, (name, (e.event_id, failure_message error)))
              visited.db.mismatches
            ≡ some (
                or_else
                  (lookup
                    (settings.network, (name, (e.event_id, failure_message error)))
                    (dispatch e (record_raw_event e reached)).1.mismatches)
                  0
                + 1))
  failure_retains batch k h f =
      let whole = visit_batch batch h in
      let stays =
        settle_kept settings.network id batch _
          (process dispatch settings.network name batch.events db after_poll).db (inr f) in
      elim (process_cases dispatch settings.network name batch.events db after_poll) [
        | inl u ↦ ground (arith, f, u.0)
        | inr (a, before, e, rest, error, reached, b, c, d, g) ↦ (
          ap (λ r. r.db.checkpoints) whole
              ∙ ap (λ x. x.checkpoints) stays
              ∙ process-checkpoints dispatch k settings.network name batch.events db after_poll,
          before,
          e,
          rest,
          error,
          reached,
          b,
          c,
          d,
          ap
                (λ x.
                  lookup (settings.network, (name, (e.event_id, failure_message error)))
                    x.mismatches)
                (ap (λ r. r.db) whole ∙ stays ∙ g)
              ∙ noted settings.network name e.event_id (failure_message error) _,
        )
      ]
