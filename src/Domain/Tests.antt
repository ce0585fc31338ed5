-- ===== src/Domain/Tests.antt =====
-- The theorems of the derived state at three markets.
use dike_monolith.Prelude.{ℕ, ◌≡◌, ◌↔◌, refl, true, false, none, some, [], ◌∷◌}
use dike_monolith.Domain.{
  Outcome, MarketStatus, Market, Action, is_open, is_live, derive_tradeability,
  derive_resolution_next_actions, derive_redeemability,
}
use dike_monolith.Domain.Actions.{Offers, IsDisputable, redeem_iff, dispute_iff}

abbrev market : MarketStatus → ℕ → Market
market s now = record {
  status = some s;
  expiry = some 100;
  now = now;
  registry_tradeable = none;
  has_dispute = false;
  proposed_at = some 120;
  dispute_window = some 30;
}

is_tradeable : derive_tradeability (market MarketStatus.live 50) ≡ true
unfolding derive_tradeability is_live is_open
is_tradeable = refl

redeem_example :
    (Offers Action.redeem (derive_resolution_next_actions (market MarketStatus.cancelled 150)) ↔ (
      (derive_redeemability (some MarketStatus.cancelled) (some Outcome.invalid) ≡ true)
      × (is_open (some 100) 150 ≡ false)))
    × (Offers Action.redeem (derive_resolution_next_actions (market MarketStatus.cancelled 150))
        → derive_resolution_next_actions (market MarketStatus.cancelled 150) ≡ Action.redeem ∷ [])
redeem_example = redeem_iff (market MarketStatus.cancelled 150) Outcome.invalid

dispute_example :
    (Offers Action.dispute (derive_resolution_next_actions (market MarketStatus.proposed 130))
      ↔ IsDisputable (market MarketStatus.proposed 130))
    × (IsDisputable (market MarketStatus.proposed 130)
        → derive_resolution_next_actions (market MarketStatus.proposed 130) ≡ Action.dispute ∷ [])
dispute_example = dispute_iff (market MarketStatus.proposed 130)
