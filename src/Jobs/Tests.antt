-- ===== src/Jobs/Tests.antt =====
-- The discovery of markets at a counter of 5, and a tick on the sample chain.
use dike_monolith.Prelude.{ℕ, ◌≤◌, ◌<◌, ◌≡◌, ◌↔◌, ◌⊎◌, refl, true, false, some, [], ◌∷◌, arith}
use dike_monolith.Prelude.Int.{pos}
use dike_monolith.Prelude.Dict.{lookup}
use dike_monolith.Store.Values.{JsValue}
use dike_monolith.Task.{returned}
use dike_monolith.Reconciliation.Values.{prop, read_prop, read_tag, normal}
use dike_monolith.Reconciliation.Markets.{market_columns}
use dike_monolith.Reconciliation.Shown.{Shows}
use dike_monolith.Reconciliation.Sample.{tag, market, contracts, environment, services}
use dike_monolith.Jobs.{has, discover_market_ids, Distinct, discovers}
use dike_monolith.Jobs.Scheduled.{Scope, Client, env, ScheduledJobs, tick}
use dike_monolith.Jobs.Sweep.{tick-Shows}

discovers_example :
    ((y : ℕ)
      → (has y (discover_market_ids (some 5) (2 ∷ 9 ∷ [])) ≡ true)
        ↔ ((has y (2 ∷ 9 ∷ []) ≡ true) ⊎ ((1 ≤ y) × (y < 5))))
    × Distinct (discover_market_ids (some 5) (2 ∷ 9 ∷ []))
discovers_example = discovers 5 (2 ∷ 9 ∷ []) (omega arith) (omega arith)

abbrev client : Client
client = record {
  get_latest_ledger = returned 30;
  get_next_market_id = some 4;
  contracts = λ scope. contracts;
  now = λ scope. "2026-01-01T00:00:00.000Z";
}

abbrev jobs : ScheduledJobs
jobs = record { running = false; services = services }

-- The second of three markets.
sweep_example :
    ((tick environment client jobs).running ≡ false)
    × Shows environment.network
        (pos 2)
        (market_columns
          (env environment client (Scope.market 2))
          30
          (pos 2)
          (normal environment.language market)
          (JsValue.string "Live")
          (JsValue.string "Invalid")
          (prop "fee_config" market))
        (tick environment client jobs).services.db
unfolding read_prop read_tag prop lookup
sweep_example =
    tick-Shows environment client jobs 30 4 2 market (tag "Live") (JsValue.string "Live")
      (JsValue.string "Invalid") refl refl refl (omega arith) (omega arith) (omega arith) refl refl
      refl refl (λ e. ground (arith, e))
