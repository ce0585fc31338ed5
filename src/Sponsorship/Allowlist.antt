-- ===== src/Sponsorship/Allowlist.antt =====
-- dike-services/src/sponsorship/allowlist.ts, and the contracts of the manifest that
-- dike-services/src/config/manifest.ts names.
use dike_monolith.Prelude.{
  ◌≡◌, ◌↔◌, ◌⊎◌, inl, inr, Bool, true, false, not, ◌||◌, Option, none, some, List, [], ◌∷◌, String,
  ◌==◌, string_eq, Option-cases, ap, arith, if◌then◌else◌,
}
use dike_monolith.Sponsorship.Types.{
  Result, ok, disallowed_contract, disallowed_method, throw, throw_if,
}

-- The keys of `DikeManifestContracts`.
pub data ContractModule : Type 0 where
  mock_usdc dike_timelock dike_governance market_registry conditional_tokens : ContractModule
  collateral_vault amm fee_manager cod_oracle council_of_dike market_factory : ContractModule

-- `manifest.data.contracts`: the address of each module.
abbrev pub DikeManifestContracts : Type 0
DikeManifestContracts = ContractModule → String

-- The keys of `SPONSORED_METHODS`, in its order.
abbrev pub contract_modules : List ContractModule
contract_modules =
    mock_usdc ∷ dike_timelock ∷ dike_governance ∷ market_registry ∷ conditional_tokens
    ∷ collateral_vault ∷ amm ∷ fee_manager ∷ cod_oracle ∷ council_of_dike ∷ market_factory ∷ []

unfoldable pub sponsored_methods : ContractModule → List String
sponsored_methods dike_timelock = "execute" ∷ []
sponsored_methods market_registry = "close_trading" ∷ []
sponsored_methods collateral_vault =
    "redeem_resolved" ∷ "redeem_cancelled" ∷ "sweep_protocol_fees" ∷ []
sponsored_methods amm =
    "buy_yes" ∷ "buy_no" ∷ "buy_child_yes" ∷ "buy_child_no" ∷ "sell_yes" ∷ "sell_no"
    ∷ "add_liquidity" ∷ "remove_liquidity" ∷ "claim_lp_fees" ∷ []
sponsored_methods cod_oracle =
    "request_resolution" ∷ "propose_outcome" ∷ "dispute_outcome" ∷ "finalize_undisputed"
    ∷ "escalate_to_council" ∷ []
sponsored_methods council_of_dike =
    "commit_vote" ∷ "reveal_vote" ∷ "finalize_and_report_case" ∷ "claim_reward" ∷ []
sponsored_methods market_factory = "create_market" ∷ []
sponsored_methods _ = []

-- `Array.prototype.includes`.
unfoldable pub includes : List String → String → Bool
includes [] x = false
includes (y ∷ ys) x = y == x || includes ys x

-- `Array.prototype.find` over the modules.
unfoldable pub find_module :
    DikeManifestContracts → String → List ContractModule → Option ContractModule
find_module contracts id [] = none
find_module contracts id (m ∷ ms) =
    if contracts m == id then some m else find_module contracts id ms

-- The method of a module, or of none.
check_method : String → Option ContractModule → Result (Unit {0})
check_method method none = throw disallowed_contract "The contract is not sponsored by Dike."
check_method method (some m) =
    throw_if (not (includes (sponsored_methods m) method)) disallowed_method
      "The contract method is not sponsored by Dike."

unfoldable pub assert_allowed_contract_call :
    String → String → DikeManifestContracts → Result (Unit {0})
unfolding check_method
assert_allowed_contract_call contract_id method contracts =
    check_method method (find_module contracts contract_id contract_modules)

-- A module that is found has the address.
find_module-eq_some :
    (contracts : DikeManifestContracts) (id : String) (ms : List ContractModule)
    (m : ContractModule)
    → find_module contracts id ms ≡ some m
    → contracts m ≡ id
unfolding find_module
find_module-eq_some contracts id [] m e = cc
find_module-eq_some contracts id (n ∷ ms) m e =
    ground (arith, string_eq.beq_iff (contracts n) id, find_module-eq_some contracts id ms m)

abbrev Listed : ContractModule → List ContractModule → Type 0
Listed m [] = ⊥
Listed m (n ∷ ns) = (n ≡ m) ⊎ Listed m ns

all-Listed : (m : ContractModule) → Listed m contract_modules
all-Listed mock_usdc = ground arith
all-Listed _ = ground arith

-- A module that is listed is found, if no other has its address.
find_module-Listed :
    (contracts : DikeManifestContracts) (m : ContractModule) (ms : List ContractModule)
    → ((n : ContractModule) → contracts n ≡ contracts m → n ≡ m)
    → Listed m ms
    → find_module contracts (contracts m) ms ≡ some m
unfolding find_module
find_module-Listed contracts m [] one h = absurd h
find_module-Listed contracts m (n ∷ ms) one h = ground (
  arith,
  one n,
  ap contracts {x = n} {y = m},
  string_eq.beq_iff (contracts n) (contracts m),
  find_module-Listed contracts m ms one,
)

-- With addresses that differ, a call is allowed exactly if its contract is that of a module and its
-- method is one that the module's list holds.
pub allowed_iff :
    (contract_id method : String) (contracts : DikeManifestContracts)
    → ((m n : ContractModule) → contracts m ≡ contracts n → m ≡ n)
    → (assert_allowed_contract_call contract_id method contracts ≡ ok tt) ↔ (
        (m : ContractModule) × (contracts m ≡ contract_id)
        × (includes (sponsored_methods m) method ≡ true))
unfolding assert_allowed_contract_call
allowed_iff contract_id method contracts apart = (
  λ h. elim (Option-cases (find_module contracts contract_id contract_modules)) [
    | inl e ↦ absurd (ground arith)
    | inr (m, e) ↦ (m, find_module-eq_some contracts contract_id _ m e, ground arith)
  ],
  λ w.
      let found =
        find_module-Listed contracts w.0 contract_modules (λ n. apart n w.0) (all-Listed w.0) in
      rw (← w.1, found, w.2),
)
