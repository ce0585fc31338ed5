-- ===== src/Indexer/Source/Batches.antt =====
-- `pollContract` of dike-services/src/indexer/event-source.ts: what its batches hold and when it rewinds.
use dike_monolith.Prelude.{
  ℕ, suc, ◌+◌, ◌≤◌, ◌<◌, ◌≡◌, refl, ap, sym, ◌∙◌, Bool, true, false, not, ◌&&◌, Option, none, some,
  some_inj, List, String, length, arith, Option-cases, Bool-cases, lt_or_le, positive, ◌↔◌, inl,
  inr, ltb, if◌then◌else◌, nat_eq,
}
use dike_monolith.Store.Database.{Database, EventRecord, get_checkpoint}
use dike_monolith.Observability.Metrics.{MetricsStore}
use dike_monolith.Indexer.Source.{
  Codec, Settings, Node, Batch, Response, RawEvent, Progress, window, after, fresh, limit,
  page_limit, decode_raw_event, from_ledger, end_ledger, fetch, rewound, poll_contract, pages,
  next_cursor,
}
use dike_monolith.Indexer.Source.Pages.{
  Served, short, full, window_events, some_past, pages_complete, pages_serves,
}

-- The poll gave a batch, and it is complete.
abbrev pub is_whole : Option Batch → Bool
is_whole none = false
is_whole (some batch) = batch.complete

module _ (codec : Codec) (settings : Settings) (node : Node) (id name : String) where
  abbrev pub decode : Option String → RawEvent → EventRecord
  decode c e = decode_raw_event codec settings.network id c e

  -- The pages of a window of ledgers.
  abbrev pub WindowPages : ℕ → ℕ → List Response → Type 0
  WindowPages from latest ps =
      Served decode (end_ledger settings from latest) node.get_events
        (window from (end_ledger settings from latest)) ps

  abbrev of_progress : ℕ → ℕ → Progress → Batch
  of_progress from latest s = record {
    events = s.events;
    checkpoint_ledger = end_ledger settings from latest;
    cursor = s.cursor;
    complete = not s.exhausted && s.complete;
    reset_checkpoint = false;
  }

  fetch-none :
      (from latest : ℕ)
      → pages decode node.get_events
          (end_ledger settings from latest)
          page_limit
          (window from (end_ledger settings from latest))
          fresh
        ≡ none
      → fetch codec settings node id name from latest ≡ none
  unfolding fetch
  fetch-none from latest h = ground (arith, h)

  fetch-some :
      (from latest : ℕ) (s : Progress)
      → pages decode node.get_events
          (end_ledger settings from latest)
          page_limit
          (window from (end_ledger settings from latest))
          fresh
        ≡ some s
      → fetch codec settings node id name from latest ≡ some (of_progress from latest s)
  unfolding fetch
  fetch-some from latest s h = ground (arith, h)

  -- A complete batch holds, decoded and in order, every event in the window of a chain of fewer than
  -- 100 pages that the node serves for it, of which each but the last is full and holds no event past
  -- the window; and it is a batch for the window's last ledger.
  pub fetch_complete :
      (from latest : ℕ) (batch : Batch)
      → fetch codec settings node id name from latest ≡ some batch
      → batch.complete ≡ true
      → (ps : List Response) × WindowPages from latest ps
        × (length ps < page_limit)
        × (batch.events ≡ window_events decode (end_ledger settings from latest) ps)
        × (batch.checkpoint_ledger ≡ end_ledger settings from latest)
  fetch_complete from latest batch h c =
      elim (Option-cases (
        pages decode node.get_events (end_ledger settings from latest) page_limit
          (window from (end_ledger settings from latest)) fresh)) [
            | inl e ↦ ground (arith, sym h ∙ fetch-none from latest e)
            | inr (s, e) ↦
                let b : batch ≡ of_progress from latest s =
                  some_inj (sym h ∙ fetch-some from latest s e) in
                let (ps, v, l, w) =
                  pages_complete decode _ node.get_events page_limit _ fresh s (λ j. refl) e
                    (ground (arith, b, c)) (ground (arith, b, c)) in
                (ps, v, l, ap (λ x. x.events) b ∙ w, ap (λ x. x.checkpoint_ledger) b)
          ]

  -- When the node serves such a chain, the poll's window is fetched whole: there is a complete batch.
  pub fetch_served :
      (from latest : ℕ) (ps : List Response)
      → WindowPages from latest ps
      → length ps < page_limit
      → (batch : Batch) × (fetch codec settings node id name from latest ≡ some batch)
        × (batch.complete ≡ true)
        × (batch.events ≡ window_events decode (end_ledger settings from latest) ps)
  fetch_served from latest ps v h =
      let (s, e, x, c, w) =
        pages_serves decode (end_ledger settings from latest) node.get_events page_limit _ fresh ps
          v h refl refl in
      (of_progress from latest s, fetch-some from latest s e, ground (arith, x, c), w)

  spilled_rest :
      (last : ℕ) (q : Response) (c : String) (ps : List Response)
      → node.get_events (after c) ≡ some q
      → limit ≤ length q.events
      → some_past last q.events ≡ true
      → Served decode last node.get_events (after c) ps
      → true ≡ false
  spilled_rest last q c _ hq fq sq (short _ p e k) =
      ground (arith, ap (λ r. length r.events) (some_inj (sym e ∙ hq)))
  spilled_rest last q c _ hq fq sq (full _ p d ps e k a o v) =
      sym sq ∙ ap (λ r. some_past last r.events) (some_inj (sym hq ∙ e)) ∙ o

  spilled :
      (from latest : ℕ) (p q : Response) (c : String) (ps : List Response)
      → node.get_events (window from (end_ledger settings from latest)) ≡ some p
      → limit ≤ length p.events
      → next_cursor p.cursor ≡ some c
      → node.get_events (after c) ≡ some q
      → limit ≤ length q.events
      → some_past (end_ledger settings from latest) q.events ≡ true
      → WindowPages from latest ps
      → true ≡ false
  spilled from latest p q c _ hp fp hc hq fq sq (short _ r e k) =
      ground (arith, ap (λ r. length r.events) (some_inj (sym e ∙ hp)))
  spilled from latest p q c _ hp fp hc hq fq sq (full _ r d ps e k a o v) =
      let same : d ≡ c =
        some_inj (sym a ∙ ap (λ x. next_cursor x.cursor) (some_inj (sym e ∙ hp)) ∙ hc) in
      spilled_rest (end_ledger settings from latest) q d ps
        (ap (λ x. node.get_events (after x)) same ∙ hq) fq sq v

  -- A full page with an event past the window, behind a full first page, keeps the poll of that window
  -- from giving a complete batch, whatever the node would answer after them.
  pub spill_never_completes :
      (from latest : ℕ) (p q : Response) (c : String)
      → node.get_events (window from (end_ledger settings from latest)) ≡ some p
      → limit ≤ length p.events
      → next_cursor p.cursor ≡ some c
      → node.get_events (after c) ≡ some q
      → limit ≤ length q.events
      → some_past (end_ledger settings from latest) q.events ≡ true
      → is_whole (fetch codec settings node id name from latest) ≡ false
  spill_never_completes from latest p q c hp fp hc hq fq sq =
      elim (Option-cases (fetch codec settings node id name from latest)) [
        | inl e ↦ ap is_whole e
        | inr (batch, e) ↦ ap is_whole e ∙ elim (Bool-cases batch.complete) [
          | inl k ↦
              let (ps, v, l, w, u) = fetch_complete from latest batch e k in
              ground (arith, spilled from latest p q c ps hp fp hc hq fq sq v)
          | inr k ↦ k
        ]
      ]

  pub fetch_resets :
      (from latest : ℕ) (batch : Batch)
      → fetch codec settings node id name from latest ≡ some batch
      → batch.reset_checkpoint ≡ false
  unfolding fetch
  fetch_resets from latest batch h =
      elim (Option-cases (
        pages decode node.get_events (end_ledger settings from latest) page_limit
          (window from (end_ledger settings from latest)) fresh)) [
            | inl e ↦ ground (arith, sym h ∙ fetch-none from latest e)
            | inr (s, e) ↦
                ap (λ x. x.reset_checkpoint) (some_inj (sym h ∙ fetch-some from latest s e))
          ]

  pub poll_from :
      (db : Database) (m : MetricsStore) (from latest : ℕ)
      → node.latest ≡ some latest
      → from_ledger settings (get_checkpoint settings.network id db).last_processed_ledger
        ≡ some from
      → (poll_contract codec settings node id name db m).0 ≡ (
          if ltb latest from
          then some (
              rewound settings latest (get_checkpoint settings.network id db).last_processed_cursor)
          else fetch codec settings node id name from latest)
  unfolding poll_contract
  poll_from db m from latest h k = ground (arith, h, k)

  -- With a checkpoint above ledger 0 and a node that answers, a poll gives the batch that resets the
  -- checkpoint to the safety margin below the node's last ledger exactly if that ledger is not after the
  -- checkpoint: a checkpoint at the last ledger is reset too.
  pub poll_rewinds :
      (db : Database) (m : MetricsStore) (latest : ℕ)
      → node.latest ≡ some latest
      → 0 < (get_checkpoint settings.network id db).last_processed_ledger
      → ((poll_contract codec settings node id name db m).0
          ≡ some (
              rewound settings latest
                (get_checkpoint settings.network id db).last_processed_cursor))
        ↔ (latest ≤ (get_checkpoint settings.network id db).last_processed_ledger)
  unfolding from_ledger rewound
  poll_rewinds db m latest h p =
      let (n, e) = positive (get_checkpoint settings.network id db).last_processed_ledger p in
      let first : from_ledger settings (get_checkpoint settings.network id db).last_processed_ledger
          ≡ some (suc n + 1) =
        ap (from_ledger settings) e in
      let all = poll_from db m (suc n + 1) latest h first in
      elim (lt_or_le latest (suc n + 1)) [
        | inl l ↦ (λ k. ground (arith, e, l), λ k. all ∙ ground (arith, l))
        | inr l ↦ (
          λ k. elim (Option-cases (fetch codec settings node id name (suc n + 1) latest)) [
            | inl f ↦ ground (arith, sym k ∙ all, l, f)
            | inr (b, f) ↦
                let w : rewound settings latest
                      (get_checkpoint settings.network id db).last_processed_cursor
                    ≡ b =
                  some_inj (sym k ∙ all ∙ ground (arith, l, f)) in
                ground (arith, ap (λ x. x.reset_checkpoint) w, fetch_resets (suc n + 1) latest b f)
          ],
          λ k. ground (arith, e, l, k),
        )
      ]

  -- Without a checkpoint and without a start ledger the poll throws, and it asks for no events.
  pub poll_fresh :
      (db : Database) (m : MetricsStore) (latest : ℕ)
      → node.latest ≡ some latest
      → (get_checkpoint settings.network id db).last_processed_ledger ≡ 0
      → settings.start_ledger ≡ none
      → (poll_contract codec settings node id name db m).0 ≡ none
  unfolding poll_contract from_ledger
  poll_fresh db m latest h p q = ground (arith, h, p, q)
