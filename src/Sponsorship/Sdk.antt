-- ===== src/Sponsorship/Sdk.antt =====
-- What the sponsorship code reads of @stellar/stellar-sdk. The library is not part of the
-- repository: its transactions are seen through the fields that the code reads, and its functions
-- are the fields of a record that the models take as an argument.
use dike_monolith.Prelude.{ℕ, Bool, Option, List, String}
use dike_monolith.Prelude.Int.{ℤ}

pub record Signature : Type 0 where
  pub hint : List ℕ
  pub signature : List ℕ

-- `scAddressTypeContract` with the bytes of the id, or another kind of address.
pub data Address : Type 0 where
  contract : List ℕ → Address
  other : Address

-- `hostFunctionTypeInvokeContract` with its address and function, or another host function.
pub data HostFunction : Type 0 where
  invoke_contract : Address → String → HostFunction
  other : HostFunction

pub data Operation : Type 0 where
  invoke_host_function : HostFunction → Operation
  other : Operation

pub record Transaction : Type 0 where
  pub source : String
  pub signatures : List Signature
  -- `Number(timeBounds.maxTime)`, if there are time bounds.
  pub max_time : Option ℕ
  pub operations : List Operation
  -- `BigInt(transaction.fee)`.
  pub fee : ℤ
  -- The resource fee of `sorobanData()`, if that does not throw.
  pub soroban_fee : Option ℤ
  -- `transaction.hash()` in hex.
  pub hash : String

pub data Envelope : Type 0 where
  transaction : Transaction → Envelope
  fee_bump : Envelope

pub record FeeBumpTransaction : Type 0 where
  pub inner : Transaction
  pub fee_source : String
  pub fee : ℤ
  pub hash : String

-- `none` stands for an exception.
pub record Sdk : Type 0 where
  pub base_fee : ℤ
  pub from_xdr : String → String → Option Envelope
  pub is_valid_public_key : String → Bool
  pub decode_public_key : String → Option (List ℕ)
  pub encode_contract : List ℕ → String
  pub verify : String → String → List ℕ → Option Bool
  pub build_fee_bump : String → ℤ → Transaction → String → Option FeeBumpTransaction
