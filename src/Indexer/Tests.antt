-- ===== src/Indexer/Tests.antt =====
-- The theorems of the indexer at concrete inputs: a contract whose node serves one short page, one whose
-- node spills past the window, and one behind whose checkpoint the node's last ledger is.
use dike_monolith.Prelude.{
  ◌≢◌, ℕ, zero, suc, ◌+◌, ◌≤◌, ◌<◌, ◌≡◌, ◌⊎◌, ◌↔◌, refl, true, false, Option, none, some, List, [],
  ◌∷◌, ◌++◌, String, arith, length, string_eq, pair_eq, or_else,
}
use dike_monolith.Prelude.Dict.{lookup}
use dike_monolith.Store.Values.{JsValue}
use dike_monolith.Store.Database.{
  try_acquire_indexer_lease, Database, EventRecord, get_checkpoint, advance_checkpoint,
  record_raw_event,
}
use dike_monolith.Observability.Metrics.{new_metrics}
use dike_monolith.Indexer.Source.{
  RawEvent, Response, Request, after, window, Codec, Settings, Node, Batch, page_limit, next_cursor,
  is_past, turn, pages, add_events, from_ledger, end_ledger, fetch, rewound, poll_contract,
}
use dike_monolith.Indexer.Source.Pages.{short, window_events}
use dike_monolith.Indexer.Source.Batches.{
  decode, WindowPages, fetch_complete, fetch_served, is_whole, spill_never_completes, poll_rewinds,
}
use dike_monolith.Indexer.Dispatcher.{
  first_string, first_read, first_of, or_next, read_of, value_at, present, string_value, full_text,
}
use dike_monolith.Indexer.Worker.{
  Outcome, done, threw, failure_message, process, visit, visit_all, Worker, Sessions, tick,
}
use dike_monolith.Indexer.Worker.Visits.{Processed, checkpoint_covers, failure_retains}
use dike_monolith.Indexer.Worker.Ticks.{others_keep}
use dike_monolith.Indexer.Worker.Lease.{tick_leases}

abbrev codec : Codec
codec = record { native = λ s. some (JsValue.string s); to_text = λ v. "text" }

abbrev settings : Settings
settings = record {
  network = "testnet";
  start_ledger = some 10;
  ledger_window = 5;
  safety_margin = 3;
}

abbrev event : ℕ → RawEvent
event n = record { ledger = n; id = "e"; tx_hash = "t"; topic = "trade" ∷ []; value = "v" }

abbrev page : Response
page = record { events = event 11 ∷ (event 12 ∷ []); cursor = none }

-- A node that answers the window from ledger 10 by one short page.
abbrev node : Node
node = record { latest = some 20; get_events = λ r. some page }

page_served : WindowPages codec settings node "c" "amm" 10 20 (page ∷ [])
page_served = short (window 10 (end_ledger settings 10 20)) page refl (omega arith)

served_example :
    (batch : Batch) × (fetch codec settings node "c" "amm" 10 20 ≡ some batch)
    × (batch.complete ≡ true)
    × (batch.events
        ≡ window_events
            (decode codec settings node "c" "amm")
            (end_ledger settings 10 20)
            (page ∷ []))
served_example =
    fetch_served codec settings node "c" "amm" 10 20 (page ∷ []) page_served (omega arith)

abbrev whole : Batch
whole = (fetch_served codec settings node "c" "amm" 10 20 (page ∷ []) page_served (omega arith)).0

whole_fetched : (fetch codec settings node "c" "amm" 10 20 ≡ some whole) × (whole.complete ≡ true)
whole_fetched =
    let (batch, f, c, e) =
      fetch_served codec settings node "c" "amm" 10 20 (page ∷ []) page_served (omega arith) in
    (f, c)

complete_example :
    (ps : List Response) × WindowPages codec settings node "c" "amm" 10 20 ps
    × (length ps < page_limit)
    × (whole.events
        ≡ window_events (decode codec settings node "c" "amm") (end_ledger settings 10 20) ps)
    × (whole.checkpoint_ledger ≡ end_ledger settings 10 20)
complete_example =
    fetch_complete codec settings node "c" "amm" 10 20 whole whole_fetched.0 whole_fetched.1

-- A hundred events of one ledger.
abbrev many : ℕ → ℕ → List RawEvent
many zero ledger = []
many (suc n) ledger = event ledger ∷ many n ledger

abbrev first_page : Response
first_page = record { events = many 100 12; cursor = some "1" }

abbrev second_page : Response
second_page = record { events = many 100 15; cursor = some "2" }

abbrev answer : Request → Option Response
answer (window start last) = some first_page
answer (after c) = some second_page

abbrev busy_node : Node
busy_node = record { latest = some 20; get_events = answer }

spill_example : is_whole (fetch codec settings busy_node "c" "amm" 10 20) ≡ false
unfolding end_ledger next_cursor is_past
spill_example =
    spill_never_completes codec settings busy_node "c" "amm" 10 20 first_page second_page "1" refl
      (omega arith) refl refl (omega arith) refl

abbrev database : ℕ → Database
database n = record {
  deployments = ("amm", "c") ∷ [];
  checkpoints =
      (("testnet", "c"), record { last_processed_ledger = n; last_processed_cursor = none }) ∷ [];
  raw_events = [];
  mismatches = [];
  trades = [];
  liquidity_events = [];
  lp_fee_claims = [];
  governance_config = [];
  governance_modules = [];
  governance_lists = [];
  fees_claimed = [];
  tables = λ t. [];
  lease = [];
}

at_checkpoint :
    (n : ℕ)
    → get_checkpoint "testnet" "c" (database n)
      ≡ record { last_processed_ledger = n; last_processed_cursor = none }
unfolding get_checkpoint lookup
at_checkpoint n = refl

-- The checkpoint is the node's last ledger.
rewind_example :
    ((poll_contract codec settings node "c" "amm" (database 20) new_metrics).0
      ≡ some
          (rewound settings 20 (get_checkpoint "testnet" "c" (database 20)).last_processed_cursor))
    ↔ (20 ≤ (get_checkpoint "testnet" "c" (database 20)).last_processed_ledger)
unfolding get_checkpoint lookup
rewind_example =
    poll_rewinds codec settings node "c" "amm" (database 20) new_metrics 20 refl (omega arith)

abbrev accepting : EventRecord → Database → Outcome × Database
accepting e db = (done, db)

abbrev rejecting : EventRecord → Database → Outcome × Database
rejecting e db = (threw "boom", db)

abbrev next_window : Response
next_window = record { events = event 11 ∷ []; cursor = none }

covers_example :
    ((visit codec settings (λ id. node) accepting "amm" "c" (database 9) new_metrics).db.checkpoints
      ≡ (database 9).checkpoints)
    ⊎ ((ps : List Response) × (reached : Database) × (cursor : Option String) × WindowPages codec
          settings node "c" "amm" 10 20 ps
        × (length ps < page_limit)
        × Processed accepting
            (window_events (decode codec settings node "c" "amm") (end_ledger settings 10 20) ps)
            (database 9)
            reached
        × ((visit codec settings (λ id. node) accepting "amm" "c" (database 9) new_metrics).db
            ≡ advance_checkpoint "testnet" "c" (end_ledger settings 10 20) cursor reached))
unfolding from_ledger get_checkpoint lookup
covers_example =
    checkpoint_covers codec settings (λ id. node) accepting "amm" "c" (database 9) new_metrics 10 20
      (λ e db. refl) refl refl (omega arith)

abbrev idle : Worker
idle = record { running = false; db = database 9; metrics = new_metrics }

-- The release runs on another session than the one that took the lease.
abbrev sessions : Sessions
sessions = record { acquire = some 1; release = some 2 }

lease_example :
    ((tick codec settings (λ id. node) accepting sessions 50 idle).running ≡ false)
    × (sessions.release ≡ sessions.acquire
        → (tick codec settings (λ id. node) accepting sessions 50 idle).db.lease ≡ [])
    × (sessions.release ≢ sessions.acquire
        → (try_acquire_indexer_lease 1 (database 9)).0 ≡ true
        → (tick codec settings (λ id. node) accepting sessions 50 idle).db.lease ≡ 1 ∷ [])
lease_example =
    tick_leases codec settings (λ id. node) accepting sessions 50 idle 1 (λ e db. refl) refl refl

others_example :
    get_checkpoint "testnet" "d"
      (visit_all codec settings
        (λ id. node)
        accepting
        (("amm", "c") ∷ [])
        (database 9)
        new_metrics).db
    ≡ get_checkpoint "testnet" "d" (database 9)
others_example =
    others_keep codec settings (λ id. node) accepting "d" (("amm", "c") ∷ []) (database 9)
      new_metrics (λ e db. refl) (λ h. ground (arith, (string_eq.beq_iff "c" "d").1 h), tt)

abbrev polled : Batch
polled =
    or_else (poll_contract codec settings node "c" "amm" (database 9) new_metrics).0
      (rewound settings 20 none)

is_polled : (poll_contract codec settings node "c" "amm" (database 9) new_metrics).0 ≡ some polled
unfolding poll_contract get_checkpoint lookup from_ledger fetch pages turn add_events is_past
    end_ledger next_cursor
is_polled = refl

breaks :
    (process rejecting "testnet" "amm" polled.events
      (database 9)
      (poll_contract codec settings node "c" "amm" (database 9) new_metrics).1).succeeded
    ≡ false
unfolding process poll_contract get_checkpoint lookup from_ledger fetch pages turn add_events
    is_past end_ledger next_cursor
breaks = refl

retains_example :
    ((visit codec settings (λ id. node) rejecting "amm" "c" (database 9) new_metrics).db.checkpoints
      ≡ (database 9).checkpoints)
    × (before : List EventRecord) × (e : EventRecord) × (rest : List EventRecord) × (error : String)
    × (reached : Database) × (polled.events ≡ before ++ (e ∷ rest))
    × Processed rejecting before (database 9) reached
    × ((rejecting e (record_raw_event e reached)).0 ≡ threw error)
    × (lookup
          ("testnet", ("amm", (e.event_id, failure_message error)))
          (visit codec settings
            (λ id. node)
            rejecting
            "amm"
            "c"
            (database 9)
            new_metrics).db.mismatches
        ≡ some (
            or_else
              (lookup
                ("testnet", ("amm", (e.event_id, failure_message error)))
                (rejecting e (record_raw_event e reached)).1.mismatches)
              0
            + 1))
retains_example =
    failure_retains codec settings (λ id. node) rejecting "amm" "c" (database 9) new_metrics polled
      (λ e db. refl) is_polled breaks

abbrev topic_texts : List JsValue
topic_texts = JsValue.string "pos_mint" ∷ (JsValue.null ∷ (JsValue.string "GA" ∷ []))

read_topic :
    first_string codec.to_text topic_texts JsValue.undefined (1 ∷ 2 ∷ []) ("owner" ∷ []) []
    ≡ some "GA"
unfolding first_string first_read first_of or_next read_of value_at present string_value full_text
read_topic = refl
