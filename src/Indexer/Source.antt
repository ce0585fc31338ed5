-- ===== src/Indexer/Source.antt =====
-- dike-services/src/indexer/event-source.ts, with `decodeRawEvent` of dike-services/src/contracts/codecs.ts.
-- Ledgers are natural numbers. The SDK's decoding of a value, the text of a value and the node's
-- answers are parameters.
use dike_monolith.Prelude.{
  ℕ, zero, suc, ◌+◌, ◌-◌, min, Bool, true, false, not, ◌&&◌, ◌||◌, Option, none, some, List, [],
  ◌∷◌, ◌++◌, map, String, ◌==◌, nat_eq, string_eq, if◌then◌else◌, or_else, ltb, length, keep,
}
use dike_monolith.Store.Values.{JsValue, undefined}
use dike_monolith.Store.Database.{Database, EventRecord, get_checkpoint}
use dike_monolith.Observability.Metrics.{
  MetricsStore, set_latest_ledger, set_contract_lag, note_checkpoint_rewind,
}
pub mod Pages
pub mod Batches

-- `RawEventResponse`: topics and value are base64.
pub record RawEvent : Type 0 where
  pub ledger : ℕ
  pub id : String
  pub tx_hash : String
  pub topic : List String
  pub value : String

pub data Request : Type 0 where
  window : ℕ → ℕ → Request
  after : String → Request

pub record Response : Type 0 where
  pub events : List RawEvent
  pub cursor : Option String

-- What the poll gets of the node: none for a call that throws.
pub record Node : Type 0 where
  pub latest : Option ℕ
  pub get_events : Request → Option Response

-- What the poll takes of the SDK and of the language.
pub record Codec : Type 0 where
  pub native : String → Option JsValue
  pub to_text : JsValue → String

pub record Settings : Type 0 where
  pub network : String
  pub start_ledger : Option ℕ
  pub ledger_window : ℕ
  pub safety_margin : ℕ

pub record Batch : Type 0 where
  pub events : List EventRecord
  pub checkpoint_ledger : ℕ
  pub cursor : Option String
  pub complete : Bool
  pub reset_checkpoint : Bool

-- The poll's loop: what it has when it ends.
pub record Progress : Type 0 where
  pub events : List EventRecord
  pub cursor : Option String
  pub exhausted : Bool
  pub complete : Bool
  pub overflowed : Bool

abbrev pub limit : ℕ
limit = 100

abbrev pub page_limit : ℕ
page_limit = 100

module _ (codec : Codec) where
  unfoldable pub native_safe : String → JsValue
  native_safe s = or_else (codec.native s) JsValue.undefined

  -- `String(topicValues[0] ?? "unknown")`.
  unfoldable pub first_topic : List JsValue → String
  first_topic [] = "unknown"
  first_topic (JsValue.undefined ∷ vs) = "unknown"
  first_topic (JsValue.null ∷ vs) = "unknown"
  first_topic (v ∷ vs) = codec.to_text v

  unfoldable pub decode_raw_event : String → String → Option String → RawEvent → EventRecord
  decode_raw_event network id cursor e = record {
    network = network;
    contract_id = id;
    ledger = e.ledger;
    tx_hash = e.tx_hash;
    event_id = e.id;
    topic = first_topic (map native_safe e.topic);
    topic_values = map native_safe e.topic;
    payload = native_safe e.value;
    cursor = cursor;
  }

-- `event.ledger > endLedger`.
unfoldable pub is_past : ℕ → RawEvent → Bool
is_past last e = ltb last e.ledger

-- The loop over the events of a page.
unfoldable pub add_events : (RawEvent → EventRecord) → ℕ → List RawEvent → Progress → Progress
add_events decode last [] s = s
add_events decode last (e ∷ es) s =
    let rest = add_events decode last es in
    if is_past last e
    then rest (record s { overflowed = true })
    else rest (record s { events = s.events ++ (decode e ∷ []) })

-- A cursor that is missing or empty is falsy.
unfoldable pub next_cursor : Option String → Option String
next_cursor none = none
next_cursor (some c) = if c == "" then none else some c

-- A turn of the loop after its answer: what it has, and the next request if it goes on.
unfoldable pub turn :
    (Option String → RawEvent → EventRecord)
    → ℕ
    → Bool
    → Response
    → Progress
    → Progress × Option Request
turn decode last is_last answer s =
    let found =
      add_events (decode answer.cursor) last answer.events
        (record s { exhausted = is_last; cursor = answer.cursor }) in
    if ltb (length answer.events) limit then (found, none) else elim (next_cursor answer.cursor) [
      | none ↦ (record found { complete = false }, none)
      | some c ↦
          if found.overflowed
          then (record found { complete = false }, none)
          else (found, some (after c))
    ]

-- The loop with a number of turns left: none when a request throws.
unfoldable pub pages :
    (Option String → RawEvent → EventRecord)
    → (Request → Option Response)
    → ℕ
    → ℕ
    → Request
    → Progress
    → Option Progress
pages decode get last zero request s = some s
pages decode get last (suc n) request s = elim (get request) [
  | none ↦ none
  | some answer ↦ elim ((turn decode last (n == 0) answer s).1) [
    | none ↦ some ((turn decode last (n == 0) answer s).0)
    | some next ↦ pages decode get last n next ((turn decode last (n == 0) answer s).0)
  ]
]

abbrev pub fresh : Progress
fresh = record { events = []; cursor = none; exhausted = true; complete = true; overflowed = false }

module _ (settings : Settings) where
  -- `checkpoint.lastProcessedLedger > 0 ? … + 1 : startLedger`.
  unfoldable pub from_ledger : ℕ → Option ℕ
  from_ledger zero = settings.start_ledger
  from_ledger (suc n) = some (suc n + 1)

  -- `Math.min(fromLedger + window - 1, latest)`.
  unfoldable pub end_ledger : ℕ → ℕ → ℕ
  end_ledger from latest = min (from + settings.ledger_window - 1) latest

  unfoldable pub rewound : ℕ → Option String → Batch
  rewound latest cursor = record {
    events = [];
    checkpoint_ledger = latest - settings.safety_margin;
    cursor = cursor;
    complete = true;
    reset_checkpoint = true;
  }

module _ (codec : Codec) (settings : Settings) (node : Node) (id name : String) where
  unfoldable pub fetch : ℕ → ℕ → Option Batch
  fetch from latest =
      elim (pages (λ c e. decode_raw_event codec settings.network id c e) node.get_events
        (end_ledger settings from latest) page_limit (window from (end_ledger settings from latest))
        fresh) [
          | none ↦ none
          | some s ↦ some (record {
            events = s.events;
            checkpoint_ledger = end_ledger settings from latest;
            cursor = s.cursor;
            complete = not s.exhausted && s.complete;
            reset_checkpoint = false;
          })
        ]

  -- `pollContract`: none for a throw, and the metrics after it.
  unfoldable pub poll_contract : Database → MetricsStore → Option Batch × MetricsStore
  poll_contract db m = elim (node.latest) [
    | none ↦ (none, m)
    | some latest ↦
        let checkpoint = get_checkpoint settings.network id db in
        let seen = set_latest_ledger latest m in
        elim (from_ledger settings checkpoint.last_processed_ledger) [
          | none ↦ (none, set_contract_lag id name 0 latest seen)
          | some from ↦
              if ltb latest from
              then (
                some (rewound settings latest checkpoint.last_processed_cursor),
                note_checkpoint_rewind
                    (set_contract_lag id name checkpoint.last_processed_ledger latest seen),
              )
              else elim (fetch from latest) [
                | none ↦ (none, seen)
                | some batch ↦ (
                  some batch,
                  set_contract_lag id name (end_ledger settings from latest) latest seen,
                )
              ]
        ]
  ]
