-- ===== src/Indexer/Source/Pages.antt =====
-- The loop of `pollContract` in dike-services/src/indexer/event-source.ts against the pages that a node
-- serves.
use dike_monolith.Prelude.{
  lt_or_le, ℕ, zero, suc, ◌≤◌, ◌<◌, ◌≡◌, Bool, true, false, not, ◌||◌, Option, none, some,
  some-injective, List, [], ◌∷◌, ◌++◌, map, length, keep, append_assoc, append_nil, nat_eq, ◌==◌,
  arith, String, ◌⊎◌, ◌∙◌, sym, ap, Bool-cases, Option-cases, inl, inr,
}
use dike_monolith.Store.Database.{EventRecord}
use dike_monolith.Indexer.Source.{
  RawEvent, Response, Request, after, Progress, is_past, add_events, next_cursor, turn, pages,
  limit,
}

-- Some event of the page is past the window.
abbrev pub some_past : ℕ → List RawEvent → Bool
some_past last [] = false
some_past last (e ∷ es) = is_past last e || some_past last es

-- The events of the page inside the window.
abbrev pub in_window : ℕ → List RawEvent → List RawEvent
in_window last es = keep (λ e. not (is_past last e)) es

module _ (decode : Option String → RawEvent → EventRecord) (last : ℕ) where
  -- What the pages hold of the window, decoded, each with its page's cursor.
  pub window_events : List Response → List EventRecord
  window_events [] = []
  window_events (p ∷ ps) = map (decode p.cursor) (in_window last p.events) ++ window_events ps

  add_events_lem :
      (cursor : Option String) (es : List RawEvent) (s : Progress)
      → add_events (decode cursor) last es s ≡ record s {
        events = s.events ++ map (decode cursor) (in_window last es);
        overflowed = s.overflowed || some_past last es;
      }
  unfolding add_events
  add_events_lem cursor [] s = ground (arith, append_nil s.events)
  add_events_lem cursor (e ∷ es) s = ground (
    arith,
    add_events_lem cursor es (record s { overflowed = true }),
    add_events_lem cursor es (record s { events = s.events ++ (decode cursor e ∷ []) }),
    append_assoc s.events (decode cursor e ∷ []) (map (decode cursor) (in_window last es)),
  )

  found_lem :
      (b : Bool) (p : Response) (s : Progress)
      → add_events (decode p.cursor) last p.events (record s { exhausted = b; cursor = p.cursor })
        ≡ record s {
          events = s.events ++ map (decode p.cursor) (in_window last p.events);
          cursor = p.cursor;
          exhausted = b;
          overflowed = s.overflowed || some_past last p.events;
        }
  found_lem b p s = add_events_lem p.cursor p.events (record s { exhausted = b; cursor = p.cursor })

  -- The node answers the request by pages linked by their cursors: the last is short, and the others
  -- are full and hold no event past the window.
  pub data Served (get : Request → Option Response) : Request → List Response → Type 0 where
    short :
        (r : Request) (p : Response)
        → get r ≡ some p
        → length p.events < limit
        → Served get r (p ∷ [])
    full :
        (r : Request) (p : Response) (c : String) (ps : List Response)
        → get r ≡ some p
        → limit ≤ length p.events
        → next_cursor p.cursor ≡ some c
        → some_past last p.events ≡ false
        → Served get (after c) ps
        → Served get r (p ∷ ps)

  turn_short :
      (b : Bool) (p : Response) (s : Progress)
      → length p.events < limit
      → turn decode last b p s ≡ (
        record s {
          events = s.events ++ map (decode p.cursor) (in_window last p.events);
          cursor = p.cursor;
          exhausted = b;
          overflowed = s.overflowed || some_past last p.events;
        },
        none,
      )
  unfolding turn
  turn_short b p s h = ground (arith, found_lem b p s)

  -- What the loop has after a page with no event past the window.
  abbrev taken : Bool → Response → Progress → Progress
  taken b p s = record s {
    events = s.events ++ map (decode p.cursor) (in_window last p.events);
    cursor = p.cursor;
    exhausted = b;
  }

  turn_on :
      (b : Bool) (p : Response) (s : Progress) (c : String)
      → limit ≤ length p.events
      → next_cursor p.cursor ≡ some c
      → s.overflowed ≡ false
      → some_past last p.events ≡ false
      → turn decode last b p s ≡ (taken b p s, some (after c))
  unfolding turn
  turn_on b p s c h e o q = ground (arith, found_lem b p s)

  turn_full :
      (b : Bool) (p : Response) (s : Progress)
      → limit ≤ length p.events
      → (((turn decode last b p s).1 ≡ none) × ((turn decode last b p s).0.complete ≡ false))
        ⊎ ((c : String) × (next_cursor p.cursor ≡ some c)
            × (s.overflowed ≡ false)
            × (some_past last p.events ≡ false)
            × (turn decode last b p s ≡ (taken b p s, some (after c))))
  unfolding turn
  turn_full b p s h = elim (Option-cases (next_cursor p.cursor)) [
    | inl e ↦ inl (ground (arith, e), ground (arith, e))
    | inr (c, e) ↦ elim (Bool-cases s.overflowed) [
      | inl o ↦ inl (ground (arith, e, o, found_lem b p s), ground (arith, e, o, found_lem b p s))
      | inr o ↦ elim (Bool-cases (some_past last p.events)) [
        | inl q ↦
            inl (ground (arith, e, o, q, found_lem b p s), ground (arith, e, o, q, found_lem b p s))
        | inr q ↦ inr (c, e, o, q, turn_on b p s c h e o q)
      ]
    ]
  ]

  module _ (get : Request → Option Response) where
    pages_stop :
        (n : ℕ) (r : Request) (p : Response) (s : Progress)
        → get r ≡ some p
        → (turn decode last (n == 0) p s).1 ≡ none
        → pages decode get last (suc n) r s ≡ some ((turn decode last (n == 0) p s).0)
    unfolding pages
    pages_stop n r p s h k = ground (arith, h, k)

    pages_go :
        (n : ℕ) (r next : Request) (p : Response) (s t : Progress)
        → get r ≡ some p
        → turn decode last (n == 0) p s ≡ (t, some next)
        → pages decode get last (suc n) r s ≡ pages decode get last n next t
    unfolding pages
    pages_go n r next p s t h k = ground (arith, h, k)

    pages_throw :
        (n : ℕ) (r : Request) (s : Progress)
        → get r ≡ none
        → pages decode get last (suc n) r s ≡ none
    unfolding pages
    pages_throw n r s h = ground (arith, h)

    -- A loop that ends complete and before its last turn has what a chain of pages holds of the window.
    pub pages_complete :
        (n : ℕ) (r : Request) (s t : Progress)
        → (n ≡ 0 → s.exhausted ≡ true)
        → pages decode get last n r s ≡ some t
        → t.exhausted ≡ false
        → t.complete ≡ true
        → (ps : List Response) × Served get r ps
          × (length ps < n)
          × (t.events ≡ s.events ++ window_events ps)
    unfolding pages window_events
    pages_complete zero r s t z h x c = ground (arith, some-injective h, z)
    pages_complete (suc n) r s t z h x c = elim (Option-cases (get r)) [
      | inl e ↦ ground (arith, pages_throw n r s e)
      | inr (p, e) ↦ elim (lt_or_le (length p.events) limit) [
        | inl k ↦
            let w : some (turn decode last (n == 0) p s).0 ≡ some t =
              sym (pages_stop n r p s e (ap (λ y. y.1) (turn_short (n == 0) p s k))) ∙ h in
            (
              p ∷ [],
              short r p e k,
              ground (arith, x, turn_short (n == 0) p s k, some-injective w),
              ground (
                arith,
                turn_short (n == 0) p s k,
                some-injective w,
                append_nil (map (decode p.cursor) (in_window last p.events)),
              ),
            )
        | inr k ↦ elim (turn_full (n == 0) p s k) [
          | inl (a, b) ↦ ground (arith, pages_stop n r p s e a)
          | inr (d, a, o, q, b) ↦
              let (ps, v, l, w) =
                pages_complete n (after d) (taken (n == 0) p s) t (λ j. ground (arith, j))
                  (sym (pages_go n r (after d) p s (taken (n == 0) p s) e b) ∙ h) x c in
              (
                p ∷ ps,
                full r p d ps e k a q v,
                ground (arith, l),
                ground (
                  arith,
                  w,
                  append_assoc s.events (map (decode p.cursor) (in_window last p.events))
                      (window_events ps),
                ),
              )
        ]
      ]
    ]

    -- A chain of fewer pages than turns is read to its end.
    pub pages_serves :
        (n : ℕ) (r : Request) (s : Progress) (ps : List Response)
        → Served get r ps
        → length ps < n
        → s.complete ≡ true
        → s.overflowed ≡ false
        → (t : Progress) × (pages decode get last n r s ≡ some t)
          × (t.exhausted ≡ false)
          × (t.complete ≡ true)
          × (t.events ≡ s.events ++ window_events ps)
    unfolding window_events
    pages_serves zero r s ps v h c o = ground (arith, h)
    pages_serves (suc n) r s _ (short _ p e k) h c o = (
      (turn decode last (n == 0) p s).0,
      pages_stop n r p s e (ap (λ y. y.1) (turn_short (n == 0) p s k)),
      ground (arith, turn_short (n == 0) p s k, h),
      ground (arith, turn_short (n == 0) p s k, c),
      ground (
        arith,
        turn_short (n == 0) p s k,
        append_nil (map (decode p.cursor) (in_window last p.events)),
      ),
    )
    pages_serves (suc n) r s _ (full _ p d ps e k a q v) h c o =
        let (t, w, x, y, z) =
          pages_serves n (after d) (taken (n == 0) p s) ps v (ground (arith, h)) c o in
        (
          t,
          pages_go n r (after d) p s (taken (n == 0) p s) e (turn_on (n == 0) p s d k a o q) ∙ w,
          x,
          y,
          ground (
            arith,
            z,
            append_assoc s.events (map (decode p.cursor) (in_window last p.events))
                (window_events ps),
          ),
        )
