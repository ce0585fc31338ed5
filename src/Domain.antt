-- ===== src/Domain.antt =====
-- dike-services/src/domain/types.ts and derived-state.ts: the tags of a market and what is derived of its
-- state. `derivePrices`, a quotient of floating-point numbers, is left out. Times are natural numbers.
use dike_monolith.Prelude.{
  ℕ, ◌+◌, Bool, true, false, ◌&&◌, Option, none, some, List, [], ◌∷◌, String, ◌==◌, nat_eq,
  string_eq, if◌then◌else◌, ltb, or_else, is_some, not,
}
use dike_monolith.Store.Values.{JsValue, Fields, string, object, end, field}
pub mod Actions
mod Tests

pub data Outcome : Type 0 where
  yes no invalid : Outcome

pub data MarketStatus : Type 0 where
  created live paused trading_closed resolution_requested proposed disputed council_voting resolved
        cancelled :
      MarketStatus

unfoldable pub outcome_named : String → Option Outcome
outcome_named s =
    if s == "Yes"
    then some yes
    else if s == "No"
    then some no
    else if s == "Invalid"
    then some invalid
    else none

unfoldable pub status_named : String → Option MarketStatus
status_named s =
    if s == "Created"
    then some created
    else if s == "Live"
    then some live
    else if s == "Paused"
    then some paused
    else if s == "TradingClosed"
    then some trading_closed
    else if s == "ResolutionRequested"
    then some resolution_requested
    else if s == "Proposed"
    then some proposed
    else if s == "Disputed"
    then some disputed
    else if s == "CouncilVoting"
    then some council_voting
    else if s == "Resolved"
    then some resolved
    else if s == "Cancelled"
    then some cancelled
    else none

abbrev pub outcome_text : Outcome → String
outcome_text yes = "Yes"
outcome_text no = "No"
outcome_text invalid = "Invalid"

abbrev pub status_text : MarketStatus → String
status_text created = "Created"
status_text live = "Live"
status_text paused = "Paused"
status_text trading_closed = "TradingClosed"
status_text resolution_requested = "ResolutionRequested"
status_text proposed = "Proposed"
status_text disputed = "Disputed"
status_text council_voting = "CouncilVoting"
status_text resolved = "Resolved"
status_text cancelled = "Cancelled"

-- The property `tag` of an object.
unfoldable pub tag_of : Fields → Option JsValue
tag_of end = none
tag_of (field k v fs) = if k == "tag" then some v else tag_of fs

-- What a value's tag names: the value itself as a text, or the text of its property `tag`. `String` is a
-- parameter.
unfoldable pub named {ℓ} :
    {A : Type ℓ} → (String → Option A) → (JsValue → String) → JsValue → Option A
named by_name to_text (JsValue.string s) = by_name s
named by_name to_text (JsValue.object fs) = elim (tag_of fs) [
  | none ↦ none
  | some v ↦ by_name (to_text v)
]
named by_name to_text _ = none

unfoldable pub outcome_tag : (JsValue → String) → JsValue → Option Outcome
outcome_tag to_text v = named outcome_named to_text v

unfoldable pub market_status_tag : (JsValue → String) → JsValue → Option MarketStatus
market_status_tag to_text v = named status_named to_text v

pub record Market : Type 0 where
  pub status : Option MarketStatus
  pub expiry : Option ℕ
  pub now : ℕ
  pub registry_tradeable : Option Bool
  pub has_dispute : Bool
  pub proposed_at : Option ℕ
  pub dispute_window : Option ℕ

pub data Action : Type 0 where
  request_resolution propose_outcome await_dispute_settlement dispute finalize_undisputed
        escalate_to_council monitor_commit_reveal redeem :
      Action

-- `expiry && now < expiry`.
unfoldable pub is_open : Option ℕ → ℕ → Bool
is_open none now = false
is_open (some expiry) now = ltb now expiry

unfoldable pub is_live : Option MarketStatus → Bool
is_live (some live) = true
is_live _ = false

unfoldable pub derive_tradeability : Market → Bool
derive_tradeability m = elim m.registry_tradeable [
  | some b ↦ b
  | none ↦ is_live m.status && is_open m.expiry m.now
]

unfoldable pub status_actions : MarketStatus → Market → List Action
status_actions trading_closed m = request_resolution ∷ []
status_actions resolution_requested m = propose_outcome ∷ []
status_actions proposed m =
    if m.has_dispute
    then await_dispute_settlement ∷ []
    else if ltb m.now (or_else m.proposed_at 0 + or_else m.dispute_window 0)
    then dispute ∷ []
    else finalize_undisputed ∷ []
status_actions disputed m = escalate_to_council ∷ []
status_actions council_voting m = monitor_commit_reveal ∷ []
status_actions resolved m = redeem ∷ []
status_actions cancelled m = redeem ∷ []
status_actions _ m = []

unfoldable pub derive_resolution_next_actions : Market → List Action
derive_resolution_next_actions m = elim m.status [
  | none ↦ []
  | some s ↦ if is_open m.expiry m.now then [] else status_actions s m
]

unfoldable pub derive_redeemability : Option MarketStatus → Option Outcome → Bool
derive_redeemability (some resolved) o = is_some o
derive_redeemability (some cancelled) o = is_some o
derive_redeemability _ o = false
