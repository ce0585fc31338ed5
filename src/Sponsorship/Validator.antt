-- ===== src/Sponsorship/Validator.antt =====
-- dike-services/src/sponsorship/validator.ts. The clock is an argument, as in the source.
pub mod Accepts
use dike_monolith.Prelude.{
  ℕ, ◌+◌, ◌≤◌, ◌<◌, ◌≡◌, ◌||◌, Bool, not, Option, none, some, List, [], ◌∷◌, String, arith, leb,
  ltb,
}
use dike_monolith.Prelude.Int.{ℤ, pos, ◌≤ℤ◌, ltb_ℤ}
use dike_monolith.Sponsorship.Types.{
  Result, ok, malformed_xdr, unsupported_envelope, unsupported_source, bad_signature,
  expired_transaction, disallowed_contract, fee_limit_exceeded, throw, throw_if, ◌>>=◌, ◌>>◌,
}
use dike_monolith.Sponsorship.Sdk.{
  Sdk, Transaction, Envelope, Operation, HostFunction, Address, Signature,
}

pub record ParsedSponsorshipTransaction : Type 0 where
  pub xdr : String
  pub transaction : Transaction
  pub source : String
  pub hash : String
  pub contract_id : String
  pub method : String
  pub inner_fee : ℤ
  pub resource_fee : ℤ

-- `MAX_VALIDITY_SECONDS`.
abbrev pub max_validity_seconds : ℕ
max_validity_seconds = 900

abbrev has_no_signature : List Signature → Bool
has_no_signature [] = Bool.true
has_no_signature (s ∷ rest) = Bool.false

decode : Option Envelope → Result Transaction
decode none = throw malformed_xdr "Could not decode the signed transaction."
decode (some Envelope.fee_bump) = throw unsupported_envelope "Fee bumps cannot be nested."
decode (some (Envelope.transaction t)) = ok t

check_validity : Option ℕ → ℕ → ℕ → Result (Unit {0})
check_validity none now valid = throw expired_transaction "The signed transaction has expired."
check_validity (some max_time) now valid = do
  throw_if (leb max_time now) expired_transaction "The signed transaction has expired."
  throw_if (ltb (now + valid) max_time) expired_transaction
      "The signed transaction is valid for too long."

-- The one operation, and what it invokes.
only_invocation : List Operation → Result HostFunction
only_invocation (Operation.invoke_host_function f ∷ []) = ok f
only_invocation _ = throw unsupported_source "Only one Soroban contract operation may be sponsored."

invoked : HostFunction → Result (Address × String)
invoked (HostFunction.invoke_contract a m) = ok (a, m)
invoked HostFunction.other =
    throw unsupported_envelope "Only contract invocations may be sponsored."

contract_bytes : Address → Result (List ℕ)
contract_bytes (Address.contract id) = ok id
contract_bytes Address.other =
    throw disallowed_contract "The invocation must target a contract address."

assembled : Option ℤ → Result ℤ
assembled none = throw unsupported_envelope "The Soroban transaction is not assembled."
assembled (some fee) = ok fee

unfoldable pub parse_sponsored_inner_transaction :
    Sdk → String → String → ℕ → ℕ → Result ParsedSponsorshipTransaction
unfolding decode check_validity only_invocation invoked contract_bytes assembled
parse_sponsored_inner_transaction sdk xdr passphrase now valid = do
  t ← decode (sdk.from_xdr xdr passphrase)
  throw_if (not (sdk.is_valid_public_key t.source)) unsupported_source
      "The inner source must be a standard G account."
  throw_if (has_no_signature t.signatures) bad_signature
      "The inner transaction has no source signature."
  check_validity t.max_time now valid
  f ← only_invocation t.operations
  call ← invoked f
  id ← contract_bytes call.0
  resource_fee ← assembled t.soroban_fee
  throw_if (ltb_ℤ resource_fee (pos 0) || ltb_ℤ t.fee resource_fee) fee_limit_exceeded
      "The signed transaction has invalid fee data."
  ok (record {
    xdr = xdr;
    transaction = t;
    source = t.source;
    hash = t.hash;
    contract_id = sdk.encode_contract id;
    method = call.1;
    inner_fee = t.fee;
    resource_fee = resource_fee;
  })

-- What the validator promises of a transaction that it lets pass.
pub data IsSponsorable (sdk : Sdk) (xdr passphrase : String) (now valid : ℕ)
    : ParsedSponsorshipTransaction → Type 0 where
  sponsorable :
      (t : Transaction) (id : List ℕ) (method : String) (max_time : ℕ) (resource_fee : ℤ)
      → sdk.from_xdr xdr passphrase ≡ some (Envelope.transaction t)
      → sdk.is_valid_public_key t.source ≡ Bool.true
      → has_no_signature t.signatures ≡ Bool.false
      → t.max_time ≡ some max_time
      → now < max_time
      → max_time ≤ now + valid
      → t.operations
        ≡ Operation.invoke_host_function (HostFunction.invoke_contract (Address.contract id) method)
          ∷ []
      → t.soroban_fee ≡ some resource_fee
      → pos 0 ≤ℤ resource_fee
      → resource_fee ≤ℤ t.fee
      → IsSponsorable sdk xdr passphrase now valid (record {
        xdr = xdr;
        transaction = t;
        source = t.source;
        hash = t.hash;
        contract_id = sdk.encode_contract id;
        method = method;
        inner_fee = t.fee;
        resource_fee = resource_fee;
      })
