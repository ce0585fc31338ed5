-- ===== src/Sponsorship/Validator/Accepts.antt =====
-- Which transactions dike-services/src/sponsorship/validator.ts lets pass.
use dike_monolith.Prelude.{
  ℕ, ◌+◌, ◌≤◌, ◌<◌, ◌≡◌, refl, ◌↔◌, ◌||◌, not, Option, none, some, List, [], ◌∷◌, String, arith,
  ltb, leb,
}
use dike_monolith.Prelude.Int.{ℤ, pos, ltb_ℤ, ltb_ℤ-eq_false}
use dike_monolith.Sponsorship.Types.{
  ok, Ensures, >>=-Ensures, throw_if-Ensures, throw_if-Ensures_last, Ensures-ok, returns, throws,
}
use dike_monolith.Sponsorship.Sdk.{Sdk, Envelope, Operation, HostFunction, Address}
use dike_monolith.Sponsorship.Validator.{
  ParsedSponsorshipTransaction, IsSponsorable, sponsorable, decode, check_validity, only_invocation,
  invoked, contract_bytes, assembled, parse_sponsored_inner_transaction, has_no_signature,
}

decode-Ensures : (o : Option Envelope) → Ensures (λ t. o ≡ some (Envelope.transaction t)) (decode o)
unfolding decode
decode-Ensures none = throws
decode-Ensures (some Envelope.fee_bump) = throws
decode-Ensures (some (Envelope.transaction t)) = returns refl

abbrev IsTimely : Option ℕ → ℕ → ℕ → Type 0
IsTimely o now valid = (m : ℕ) × (o ≡ some m) × (now < m) × (m ≤ now + valid)

check_validity-Ensures :
    (o : Option ℕ) (now valid : ℕ)
    → Ensures (λ _. IsTimely o now valid) (check_validity o now valid)
unfolding check_validity
check_validity-Ensures none now valid = throws
check_validity-Ensures (some m) now valid = throw_if-Ensures (leb m now) _ _ λ fresh.
    throw_if-Ensures_last (ltb (now + valid) m) _ _ λ short. (m, refl, ground arith, ground arith)

only_invocation-Ensures :
    (ops : List Operation)
    → Ensures (λ f. ops ≡ Operation.invoke_host_function f ∷ []) (only_invocation ops)
unfolding only_invocation
only_invocation-Ensures [] = throws
only_invocation-Ensures (Operation.invoke_host_function f ∷ []) = returns refl
only_invocation-Ensures (Operation.invoke_host_function f ∷ (o ∷ ops)) = throws
only_invocation-Ensures (Operation.other ∷ ops) = throws

invoked-Ensures :
    (f : HostFunction)
    → Ensures (λ call. f ≡ HostFunction.invoke_contract call.0 call.1) (invoked f)
unfolding invoked
invoked-Ensures (HostFunction.invoke_contract a m) = returns refl
invoked-Ensures HostFunction.other = throws

contract_bytes-Ensures : (a : Address) → Ensures (λ id. a ≡ Address.contract id) (contract_bytes a)
unfolding contract_bytes
contract_bytes-Ensures (Address.contract id) = returns refl
contract_bytes-Ensures Address.other = throws

assembled-Ensures : (o : Option ℤ) → Ensures (λ fee. o ≡ some fee) (assembled o)
unfolding assembled
assembled-Ensures none = throws
assembled-Ensures (some fee) = returns refl

module _ (sdk : Sdk) (xdr passphrase : String) (now valid : ℕ) where
  pub parse_sound :
      Ensures
        (IsSponsorable sdk xdr passphrase now valid)
        (parse_sponsored_inner_transaction sdk xdr passphrase now valid)
  unfolding parse_sponsored_inner_transaction
  parse_sound = >>=-Ensures (decode-Ensures (sdk.from_xdr xdr passphrase)) λ t decoded.
      throw_if-Ensures (not (sdk.is_valid_public_key t.source)) _ _ λ key.
        throw_if-Ensures (has_no_signature t.signatures) _ _ λ signed.
          >>=-Ensures (check_validity-Ensures t.max_time now valid) λ _ timely.
            >>=-Ensures (only_invocation-Ensures t.operations) λ f single.
              >>=-Ensures (invoked-Ensures f) λ call calls.
                >>=-Ensures (contract_bytes-Ensures call.0) λ id on_contract.
                  >>=-Ensures (assembled-Ensures t.soroban_fee) λ fee soroban.
                    throw_if-Ensures (ltb_ℤ fee (pos 0) || ltb_ℤ t.fee fee) _ _ λ fees. returns (
                      sponsorable t id call.1 timely.0 fee decoded (ground arith) signed timely.1
                        timely.2 timely.3 (ground (arith, single, calls, on_contract)) soroban
                        (ground arith) (ground arith))

  parse_complete :
      (p : ParsedSponsorshipTransaction)
      → IsSponsorable sdk xdr passphrase now valid p
      → parse_sponsored_inner_transaction sdk xdr passphrase now valid ≡ ok p
  unfolding parse_sponsored_inner_transaction
  parse_complete _
        (sponsorable t id method m fee decoded key signed bounded after before single soroban nonneg
          covered) =
      rw
        (
          decoded,
          decode,
          key,
          signed,
          bounded,
          single,
          soroban,
          ltb_ℤ-eq_false fee (pos 0) nonneg,
          ltb_ℤ-eq_false t.fee fee covered,
        )
        (ground arith)

  -- The validator accepts a text exactly when it encodes one signed transaction of a standard
  -- account, that invokes one contract function, has not expired, does not outlive the window, and
  -- whose resource fee is neither negative nor above its fee; it then returns its fields.
  pub parse_iff :
      (p : ParsedSponsorshipTransaction)
      → (parse_sponsored_inner_transaction sdk xdr passphrase now valid ≡ ok p)
        ↔ IsSponsorable sdk xdr passphrase now valid p
  parse_iff p = (Ensures-ok parse_sound, parse_complete p)
