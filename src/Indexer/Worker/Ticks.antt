-- ===== src/Indexer/Worker/Ticks.antt =====
-- `tick` of dike-services/src/indexer/worker.ts : the checkpoints of the other contracts.
use dike_monolith.Prelude.{
  ◌≡◌, ◌≢◌, inl, inr, refl, ap, ◌∙◌, Bool, true, false, none, some, List, [], ◌∷◌, String,
  string_eq, pair_eq, arith, Option-cases, Bool-cases, max, or_else, All, ◌&&◌,
}
use dike_monolith.Prelude.Dict.{lookup, insert, lookup-insert}
use dike_monolith.Store.Database.{
  Database, EventRecord, Checkpoint, advance_checkpoint, reset_checkpoint, get_checkpoint,
}
use dike_monolith.Observability.Metrics.{MetricsStore}
use dike_monolith.Indexer.Source.{Codec, Settings, Node, Batch, poll_contract}
use dike_monolith.Indexer.Worker.{Outcome, settle, visit, visit_all}
use dike_monolith.Indexer.Worker.Visits.{
  KeepsCheckpoints, visit_none, visit_batch, process-checkpoints,
}

module _ (codec : Codec) (settings : Settings) (node : String → Node)
    (dispatch : EventRecord → Database → Outcome × Database) where
  insert_other :
      (id j : String)
      → id ≢ j
      → (v : Checkpoint) (db : Database)
      → lookup (settings.network, j) (insert (settings.network, id) v db.checkpoints)
        ≡ lookup (settings.network, j) db.checkpoints
  insert_other id j h v db =
      lookup-insert (settings.network, id) (settings.network, j) v db.checkpoints
      ∙ ground (arith, h, string_eq.beq_iff id j)

  settle_others :
      (id j : String) (batch : Batch) (b : Bool) (db : Database)
      → id ≢ j
      → lookup (settings.network, j) (settle settings.network id batch b db).checkpoints
        ≡ lookup (settings.network, j) db.checkpoints
  unfolding settle advance_checkpoint reset_checkpoint
  settle_others id j batch b db h = elim (Bool-cases (batch.complete && b)) [
    | inr e ↦ ground (arith, e)
    | inl e ↦ elim (Bool-cases batch.reset_checkpoint) [
      | inl r ↦ ground (
        arith,
        e,
        r,
        insert_other id j h
            (record {
              last_processed_ledger = batch.checkpoint_ledger;
              last_processed_cursor = none;
            })
            db,
      )
      | inr r ↦ ground (
        arith,
        e,
        r,
        insert_other id j h
            (record {
              last_processed_ledger = elim (lookup (settings.network, id) db.checkpoints) [
                | none ↦ batch.checkpoint_ledger
                | some c ↦ max c.last_processed_ledger batch.checkpoint_ledger
              ];
              last_processed_cursor = batch.cursor;
            })
            db,
      )
    ]
  ]

  visit_others :
      (name id j : String) (db : Database) (m : MetricsStore)
      → KeepsCheckpoints dispatch
      → id ≢ j
      → lookup
          (settings.network, j)
          (visit codec settings node dispatch name id db m).db.checkpoints
        ≡ lookup (settings.network, j) db.checkpoints
  visit_others name id j db m k h =
      elim (Option-cases ((poll_contract codec settings (node id) id name db m).0)) [
        | inl e ↦
            ap (λ r. lookup (settings.network, j) r.db.checkpoints)
              (visit_none codec settings node dispatch name id db m e)
        | inr (batch, e) ↦
            ap (λ r. lookup (settings.network, j) r.db.checkpoints)
              (visit_batch codec settings node dispatch name id db m batch e)
            ∙ settle_others id j batch _ _ h
            ∙ ap (lookup (settings.network, j))
                (process-checkpoints dispatch k settings.network name batch.events db _)
      ]

  pub visit_all_on :
      (name id : String) (ds : List (String × String)) (db : Database) (m : MetricsStore)
      → (visit codec settings node dispatch name id db m).succeeded ≡ true
      → visit_all codec settings node dispatch ((name, id) ∷ ds) db m
        ≡ visit_all codec settings node dispatch ds
            (visit codec settings node dispatch name id db m).db
            (visit codec settings node dispatch name id db m).metrics
  unfolding visit_all
  visit_all_on name id ds db m h = ground (arith, h)

  pub visit_all_off :
      (name id : String) (ds : List (String × String)) (db : Database) (m : MetricsStore)
      → (visit codec settings node dispatch name id db m).succeeded ≡ false
      → visit_all codec settings node dispatch ((name, id) ∷ ds) db m
        ≡ visit codec settings node dispatch name id db m
  unfolding visit_all
  visit_all_off name id ds db m h = ground (arith, h)

  -- The turns of other deployments leave a contract's checkpoint as it was, if the dispatcher leaves
  -- checkpoints alone.
  pub others_keep :
      (j : String) (ds : List (String × String)) (db : Database) (m : MetricsStore)
      → KeepsCheckpoints dispatch
      → All (λ d. d.1 ≢ j) ds
      → get_checkpoint settings.network j (visit_all codec settings node dispatch ds db m).db
        ≡ get_checkpoint settings.network j db
  unfolding visit_all get_checkpoint
  others_keep j [] db m k h = refl
  others_keep j ((name, id) ∷ ds) db m k (h, hs) =
      let own =
        ap (λ o. or_else o (record { last_processed_ledger = 0; last_processed_cursor = none }))
          (visit_others name id j db m k h) in
      elim (Bool-cases ((visit codec settings node dispatch name id db m).succeeded)) [
        | inl s ↦
            ap (λ r. get_checkpoint settings.network j r.db) (visit_all_on name id ds db m s)
            ∙ others_keep j ds _ _ k hs
            ∙ own
        | inr s ↦
            ap (λ r. get_checkpoint settings.network j r.db) (visit_all_off name id ds db m s) ∙ own
      ]
