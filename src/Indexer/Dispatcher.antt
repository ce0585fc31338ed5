-- ===== src/Indexer/Dispatcher.antt =====
-- The readers of topics and payloads in dike-services/src/indexer/dispatcher.ts. Numbers are integers, and
-- a bigint is one that a number holds exactly; `Number` of a text and `String` of a value are parameters.
pub mod Readers
use dike_monolith.Prelude.{
  ℕ, zero, suc, Bool, true, false, Option, none, some, List, [], ◌∷◌, String, ◌==◌, string_eq,
  if◌then◌else◌, or_else,
}
use dike_monolith.Prelude.Int.{ℤ}
use dike_monolith.Store.Values.{JsValue, Items, Fields, items, fields}
use dike_monolith.Sponsorship.Allowlist.{
  ContractModule, DikeManifestContracts, contract_modules, find_module,
}
use dike_monolith.Domain.{Outcome, yes, no, outcome_tag}

-- A value that is neither undefined nor null.
unfoldable pub present : JsValue → Option JsValue
present JsValue.undefined = none
present JsValue.null = none
present v = some v

-- The entry of an index, if it is present.
unfoldable pub value_at : List JsValue → ℕ → Option JsValue
value_at [] i = none
value_at (v ∷ vs) zero = present v
value_at (v ∷ vs) (suc i) = value_at vs i

-- The property of a key, if it is present.
unfoldable pub property : String → List (String × JsValue) → Option JsValue
property key [] = none
property key ((k, v) ∷ fs) = if k == key then present v else property key fs

-- The first result that is there, and otherwise the last.
unfoldable pub or_next {ℓ} : {A : Type ℓ} → Option A → Option A → Option A
or_next (some a) rest = some a
or_next none rest = rest

unfoldable pub first_of {ℓ κ} : {A : Type ℓ} {B : Type κ} → (A → Option B) → List A → Option B
first_of read [] = none
first_of read (a ∷ as') = or_next (read a) (first_of read as')

unfoldable pub indexed_value : JsValue → List ℕ → Option JsValue
indexed_value (JsValue.array vs) indexes = first_of (λ i. value_at (items vs) i) indexes
indexed_value _ indexes = none

unfoldable pub keyed_value : JsValue → List String → Option JsValue
keyed_value (JsValue.object fs) keys = first_of (λ k. property k (fields fs)) keys
keyed_value _ keys = none

unfoldable pub record_value : JsValue → List String → List ℕ → Option JsValue
record_value v keys indexes = or_next (indexed_value v indexes) (keyed_value v keys)

unfoldable pub full_text : String → Option String
full_text s = if s == "" then none else some s

-- What a reader makes of a value that may be missing.
unfoldable pub read_of {ℓ} : {A : Type ℓ} → (JsValue → Option A) → Option JsValue → Option A
read_of read none = none
read_of read (some v) = read v

unfoldable pub first_read {ℓ} :
    {A : Type ℓ}
    → (JsValue → Option A)
    → List JsValue
    → JsValue
    → List ℕ
    → List String
    → List ℕ
    → Option A
first_read read values payload topics keys indexes =
    or_next (first_of (λ i. read_of read (value_at values i)) topics)
      (read_of read (record_value payload keys indexes))

module _ (to_number : String → Option ℤ) where
  unfoldable pub numeric_value : JsValue → Option ℤ
  numeric_value (JsValue.number n) = some n
  numeric_value (JsValue.bigint n) = some n
  numeric_value (JsValue.string s) = if s == "" then none else to_number s
  numeric_value _ = none

module _ (to_text : JsValue → String) where
  unfoldable pub string_value : JsValue → Option String
  string_value (JsValue.string s) = full_text s
  string_value (JsValue.bigint n) = some (to_text (JsValue.bigint n))
  string_value (JsValue.number n) = some (to_text (JsValue.number n))
  string_value (JsValue.boolean b) = some (to_text (JsValue.boolean b))
  string_value _ = none

  unfoldable pub amount_value : JsValue → String
  amount_value v = or_else (string_value v) "0"

  unfoldable pub truth_outcome : JsValue → Option Outcome
  truth_outcome (JsValue.boolean b) = some (if b then yes else no)
  truth_outcome _ = none

  unfoldable pub outcome_value : JsValue → Option Outcome
  outcome_value v = or_next (outcome_tag to_text v) (truth_outcome v)

  unfoldable pub first_string :
      List JsValue → JsValue → List ℕ → List String → List ℕ → Option String
  first_string values payload topics keys indexes =
      first_read string_value values payload topics keys indexes

  unfoldable pub first_outcome :
      List JsValue → JsValue → List ℕ → List String → List ℕ → Option Outcome
  first_outcome values payload topics keys indexes =
      first_read outcome_value values payload topics keys indexes

-- `contractModuleFor`.
unfoldable pub contract_module_for : DikeManifestContracts → String → Option ContractModule
contract_module_for contracts id = find_module contracts id contract_modules

-- The handlers that `dispatch` chooses from; the logs are left out, so an unknown contract has none.
pub data Handler : Type 0 where
  market_factory market_registry amm collateral_vault conditional_tokens cod_oracle council_of_dike
        governance timelock unknown :
      Handler

unfoldable pub handler_of : Option ContractModule → Handler
handler_of (some ContractModule.market_factory) = Handler.market_factory
handler_of (some ContractModule.market_registry) = Handler.market_registry
handler_of (some ContractModule.amm) = Handler.amm
handler_of (some ContractModule.collateral_vault) = Handler.collateral_vault
handler_of (some ContractModule.conditional_tokens) = Handler.conditional_tokens
handler_of (some ContractModule.cod_oracle) = Handler.cod_oracle
handler_of (some ContractModule.council_of_dike) = Handler.council_of_dike
handler_of (some ContractModule.dike_governance) = Handler.governance
handler_of (some ContractModule.fee_manager) = Handler.governance
handler_of (some ContractModule.dike_timelock) = Handler.timelock
handler_of (some ContractModule.mock_usdc) = Handler.unknown
handler_of none = Handler.unknown

-- The choice of `dispatch`.
unfoldable pub route : DikeManifestContracts → String → Handler
route contracts id = handler_of (contract_module_for contracts id)
