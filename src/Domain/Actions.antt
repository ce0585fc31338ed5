-- ===== src/Domain/Actions.antt =====
-- What dike-services/src/domain/derived-state.ts derives of one market, one result against another, and
-- the names of dike-services/src/domain/types.ts.
use dike_monolith.Prelude.{
  ◌+◌, ◌<◌, List, ◌≡◌, ◌↔◌, ◌⊎◌, inl, inr, refl, true, false, none, some, [], ◌∷◌, String, nat_eq,
  string_eq, or_else, arith, Option-cases, Bool-cases,
}
use dike_monolith.Domain.{
  Outcome, MarketStatus, Market, outcome_text, status_text, outcome_named, status_named, is_open,
  derive_tradeability, status_actions, derive_resolution_next_actions, derive_redeemability, Action,
  redeem, dispute, proposed,
}

-- A market that its own state makes tradeable, with no word of the registry, offers no action.
pub tradeable_has_no_actions :
    (m : Market)
    → m.registry_tradeable ≡ none
    → derive_tradeability m ≡ true
    → derive_resolution_next_actions m ≡ []
unfolding derive_tradeability derive_resolution_next_actions
tradeable_has_no_actions m h k = ground (arith, h, k)

-- An action among those of a list.
abbrev pub Offers : Action → List Action → Type 0
Offers a [] = ⊥
Offers a (b ∷ bs) = (b ≡ a) ⊎ Offers a bs

closed_actions :
    (s : MarketStatus) (m : Market)
    → m.status ≡ some s
    → is_open m.expiry m.now ≡ false
    → derive_resolution_next_actions m ≡ status_actions s m
unfolding derive_resolution_next_actions
closed_actions s m e o = ground (arith, e, o)

open_actions : (m : Market) → is_open m.expiry m.now ≡ true → derive_resolution_next_actions m ≡ []
unfolding derive_resolution_next_actions
open_actions m o = elim (Option-cases m.status) [
  | inl e ↦ ground (arith, e)
  | inr (s, e) ↦ ground (arith, e, o)
]

no_actions : (m : Market) → m.status ≡ none → derive_resolution_next_actions m ≡ []
unfolding derive_resolution_next_actions
no_actions m e = ground (arith, e)

-- The last instant of a dispute window is over.
abbrev pub IsDisputable : Market → Type 0
IsDisputable m =
    (m.status ≡ some proposed)
    × (is_open m.expiry m.now ≡ false)
    × (m.has_dispute ≡ false)
    × (m.now < or_else m.proposed_at 0 + or_else m.dispute_window 0)

dispute_of_status :
    (s : MarketStatus) (m : Market)
    → m.status ≡ some s
    → is_open m.expiry m.now ≡ false
    → Offers dispute (status_actions s m) ↔ IsDisputable m
unfolding status_actions
dispute_of_status MarketStatus.created m e o = ground (arith, e, o)
dispute_of_status MarketStatus.live m e o = ground (arith, e, o)
dispute_of_status MarketStatus.paused m e o = ground (arith, e, o)
dispute_of_status MarketStatus.trading_closed m e o = ground (arith, e, o)
dispute_of_status MarketStatus.resolution_requested m e o = ground (arith, e, o)
dispute_of_status MarketStatus.proposed m e o = ground (arith, e, o)
dispute_of_status MarketStatus.disputed m e o = ground (arith, e, o)
dispute_of_status MarketStatus.council_voting m e o = ground (arith, e, o)
dispute_of_status MarketStatus.resolved m e o = ground (arith, e, o)
dispute_of_status MarketStatus.cancelled m e o = ground (arith, e, o)

redeem_of_status :
    (s : MarketStatus) (m : Market) (o : Outcome)
    → m.status ≡ some s
    → Offers redeem (status_actions s m) ↔ (derive_redeemability m.status (some o) ≡ true)
unfolding status_actions derive_redeemability
redeem_of_status MarketStatus.created m o e = rw e (ground arith)
redeem_of_status MarketStatus.live m o e = rw e (ground arith)
redeem_of_status MarketStatus.paused m o e = rw e (ground arith)
redeem_of_status MarketStatus.trading_closed m o e = rw e (ground arith)
redeem_of_status MarketStatus.resolution_requested m o e = rw e (ground arith)
redeem_of_status MarketStatus.proposed m o e = rw e (ground arith)
redeem_of_status MarketStatus.disputed m o e = rw e (ground arith)
redeem_of_status MarketStatus.council_voting m o e = rw e (ground arith)
redeem_of_status MarketStatus.resolved m o e = rw e (ground arith)
redeem_of_status MarketStatus.cancelled m o e = rw e (ground arith)

redeem_alone :
    (s : MarketStatus) (m : Market)
    → Offers redeem (status_actions s m)
    → status_actions s m ≡ redeem ∷ []
unfolding status_actions
redeem_alone MarketStatus.created m h = ground (arith, h)
redeem_alone MarketStatus.live m h = ground (arith, h)
redeem_alone MarketStatus.paused m h = ground (arith, h)
redeem_alone MarketStatus.trading_closed m h = ground (arith, h)
redeem_alone MarketStatus.resolution_requested m h = ground (arith, h)
redeem_alone MarketStatus.proposed m h = ground (arith, h)
redeem_alone MarketStatus.disputed m h = ground (arith, h)
redeem_alone MarketStatus.council_voting m h = ground (arith, h)
redeem_alone MarketStatus.resolved m h = ground (arith, h)
redeem_alone MarketStatus.cancelled m h = ground (arith, h)

-- A dispute is among the actions of a market exactly if the market is proposed, with no expiry ahead and
-- without a dispute, before the end of its dispute window; and then it is the only action.
pub dispute_iff :
    (m : Market)
    → (Offers dispute (derive_resolution_next_actions m) ↔ IsDisputable m)
      × (IsDisputable m → derive_resolution_next_actions m ≡ dispute ∷ [])
unfolding derive_resolution_next_actions status_actions
dispute_iff m = (
  elim (Bool-cases (is_open m.expiry m.now)) [
    | inl o ↦ rw (open_actions m o) (ground (arith, o))
    | inr o ↦ elim (Option-cases m.status) [
      | inl e ↦ rw (no_actions m e) (ground (arith, e))
      | inr (s, e) ↦ rw (closed_actions s m e o) (dispute_of_status s m e o)
    ]
  ],
  λ h. ground (arith, h),
)

-- For every market, `redeem` is among its actions exactly if the market with some outcome is redeemable by
-- `deriveRedeemability` and no expiry is ahead; and then it is the only action.
pub redeem_iff :
    (m : Market) (o : Outcome)
    → (Offers redeem (derive_resolution_next_actions m)
        ↔ ((derive_redeemability m.status (some o) ≡ true) × (is_open m.expiry m.now ≡ false)))
      × (Offers redeem (derive_resolution_next_actions m)
          → derive_resolution_next_actions m ≡ redeem ∷ [])
unfolding derive_redeemability
redeem_iff m o = elim (Bool-cases (is_open m.expiry m.now)) [
  | inl early ↦ rw (open_actions m early) (ground (arith, early))
  | inr late ↦ elim (Option-cases m.status) [
    | inl e ↦ rw (no_actions m e) (ground (arith, e))
    | inr (s, e) ↦
        let (only, all) = redeem_of_status s m o e in
        rw (closed_actions s m e late) ((λ h. (only h, late), λ (h, _). all h), redeem_alone s m)
  ]
]

status_named_text : (s : MarketStatus) → status_named (status_text s) ≡ some s
unfolding status_named
status_named_text MarketStatus.created = refl
status_named_text MarketStatus.live = refl
status_named_text MarketStatus.paused = refl
status_named_text MarketStatus.trading_closed = refl
status_named_text MarketStatus.resolution_requested = refl
status_named_text MarketStatus.proposed = refl
status_named_text MarketStatus.disputed = refl
status_named_text MarketStatus.council_voting = refl
status_named_text MarketStatus.resolved = refl
status_named_text MarketStatus.cancelled = refl

outcome_named_text : (o : Outcome) → outcome_named (outcome_text o) ≡ some o
unfolding outcome_named
outcome_named_text Outcome.yes = refl
outcome_named_text Outcome.no = refl
outcome_named_text Outcome.invalid = refl

outcome_of_name :
    (text : String) (p : Outcome) → outcome_named text ≡ some p → text ≡ outcome_text p
unfolding outcome_named
outcome_of_name text Outcome.yes h = ground (arith, h, string_eq.beq_iff text "Yes")
outcome_of_name text Outcome.no h = ground (arith, h, string_eq.beq_iff text "No")
outcome_of_name text Outcome.invalid h = ground (arith, h, string_eq.beq_iff text "Invalid")

-- A status and an outcome are read back from their names, and a text that is read as an outcome is its
-- name.
pub names_round_trip :
    (s : MarketStatus) (o : Outcome) (text : String)
    → (status_named (status_text s) ≡ some s)
      × (outcome_named (outcome_text o) ≡ some o)
      × ((p : Outcome) → outcome_named text ≡ some p → text ≡ outcome_text p)
names_round_trip s o text = (status_named_text s, outcome_named_text o, outcome_of_name text)
