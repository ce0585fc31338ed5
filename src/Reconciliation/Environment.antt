-- ===== src/Reconciliation/Environment.antt =====
-- What dike-services/src/jobs/reconciliation.ts takes of the chain and of the language. The contracts are read
-- through dike-services/src/contracts/client.ts, whose calls are parameters: each returns the value of
-- the contract or throws. One task sees one state of the chain and one reading of the clock.
use dike_monolith.Prelude.{Option, String}
use dike_monolith.Prelude.Int.{ℤ}
use dike_monolith.Store.Values.{JsValue}
use dike_monolith.Task.{Ended}
use dike_monolith.Domain.{Outcome}
use dike_monolith.Sponsorship.Allowlist.{DikeManifestContracts}
use dike_monolith.Indexer.Source.{Codec, Request, Response}

pub record Contracts : Type 0 where
  pub get_treasury : Ended JsValue
  pub get_timelock : Ended JsValue
  pub get_pause_authority : Ended JsValue
  pub get_fee_config : Ended JsValue
  pub get_module : String → Ended JsValue
  pub get_events : String → Request → Ended Response
  pub get_market : ℤ → Ended JsValue
  pub is_tradeable : ℤ → Ended JsValue
  pub get_pool : ℤ → Ended JsValue
  pub get_request : ℤ → Ended JsValue
  pub get_case_for_request : ℤ → Ended JsValue
  pub get_case : ℤ → Ended JsValue
  pub get_case_reward_pool : ℤ → Ended JsValue
  pub get_vault_accounting : ℤ → Ended JsValue
  pub get_position_balance : String → ℤ → Outcome → Ended JsValue
  pub get_lp_balance : ℤ → String → Ended JsValue
  pub get_lp_fee_checkpoint : ℤ → String → Ended JsValue
  pub get_claimable_lp_fees : ℤ → String → Ended JsValue
  pub get_user_deposit : ℤ → String → Ended JsValue
  pub get_root_stake : ℤ → String → Outcome → Ended JsValue
  pub get_child_collateral_used : ℤ → String → Ended JsValue
  pub get_child_used_for_outcome : ℤ → String → Outcome → Ended JsValue
  pub get_child_debt : ℤ → String → Ended JsValue
  pub get_parent_debt : ℤ → String → Outcome → Ended JsValue
  pub get_redeemed : ℤ → String → Outcome → Ended JsValue
  pub get_timelock_action : ℤ → Ended JsValue

-- `String`, `Number` of a text and of a value where it is a number, `toString` of a bigint, `JSON.stringify`, the hex text
-- of a buffer, and a text that Postgres reads as a number.
pub record Language : Type 0 where
  pub to_text : JsValue → String
  pub to_number : String → Option ℤ
  pub digits : ℤ → String
  pub json : JsValue → String
  pub hex : JsValue → Ended String
  pub number_of : JsValue → Option ℤ
  pub numeric : String → Option ℤ

pub record Environment : Type 0 where
  pub network : String
  pub addresses : DikeManifestContracts
  pub contracts : Contracts
  pub language : Language
  pub codec : Codec
  pub now : String
