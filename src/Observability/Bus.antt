-- ===== src/Observability/Bus.antt =====
-- dike-services/src/observability/event-bus.ts: what is published. Listeners are not modelled.
use dike_monolith.Prelude.{String}
use dike_monolith.Prelude.Int.{ℤ}

pub data StateUpdate : Type 0 where
  market : String → ℤ → StateUpdate
  portfolio : String → String → StateUpdate
  governance : String → StateUpdate
  council_case : String → ℤ → StateUpdate
  timelock_action : String → ℤ → StateUpdate
