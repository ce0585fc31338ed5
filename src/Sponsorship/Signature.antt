-- ===== src/Sponsorship/Signature.antt =====
-- dike-services/src/sponsorship/signature.ts.
use dike_monolith.Prelude.{
  ℕ, ◌+◌, ◌-◌, ◌≡◌, ◌↔◌, ◌||◌, ◌&&◌, refl, ap, Bool, true, false, not, none, some, List, [], ◌∷◌,
  arith, length, nat_beq, ltb, if◌then◌else◌, inl, inr, Option-cases,
}
use dike_monolith.Sponsorship.Types.{Result, ok, bad_signature, throw, throw_if, ◌>>◌}
use dike_monolith.Sponsorship.Sdk.{Sdk, Signature}
use dike_monolith.Sponsorship.Validator.{ParsedSponsorshipTransaction}

drop : ℕ → List ℕ → List ℕ
drop ℕ.zero xs = xs
drop (ℕ.suc n) [] = []
drop (ℕ.suc n) (x ∷ xs) = drop n xs

-- `publicKey.subarray(publicKey.length - 4)`: a start below zero counts from the end.
unfoldable pub key_hint : List ℕ → List ℕ
unfolding drop
key_hint key = let n = length key in drop (if ltb n 4 then n + n - 4 else n - 4) key

-- `timingSafeEqual`, which wants buffers of one length.
pub bytes_equal : List ℕ → List ℕ → Bool
bytes_equal [] [] = true
bytes_equal (a ∷ as') (b ∷ bs) = nat_beq a b && bytes_equal as' bs
bytes_equal _ _ = false

-- The `try` block, whose exceptions are turned into errors of the same code.
check_signature : Sdk → ParsedSponsorshipTransaction → Signature → Result (Unit {0})
check_signature sdk parsed s = elim (sdk.decode_public_key parsed.source) [
  | none ↦ throw bad_signature "The source signature is invalid."
  | some key ↦ do
    throw_if
        (not (nat_beq (length s.hint) (length (key_hint key)))
          || not (bytes_equal s.hint (key_hint key)))
        bad_signature "The source signature hint does not match."
    elim (sdk.verify parsed.source parsed.transaction.hash s.signature) [
      | none ↦ throw bad_signature "The source signature is invalid."
      | some valid ↦ throw_if (not valid) bad_signature "The source signature is invalid."
    ]
]

unfoldable pub verify_signatures :
    Sdk → ParsedSponsorshipTransaction → List Signature → Result (Unit {0})
unfolding check_signature
verify_signatures sdk parsed (s ∷ []) = check_signature sdk parsed s
verify_signatures sdk parsed _ = throw bad_signature "Exactly one source signature is required."

unfoldable pub verify_inner_source_signature :
    Sdk → ParsedSponsorshipTransaction → Result (Unit {0})
unfolding verify_signatures
verify_inner_source_signature sdk parsed =
    verify_signatures sdk parsed parsed.transaction.signatures

bytes_equal_iff : (xs ys : List ℕ) → (bytes_equal xs ys ≡ true) ↔ (xs ≡ ys)
unfolding bytes_equal
bytes_equal_iff [] [] = ground arith
bytes_equal_iff [] (y ∷ ys) = ground arith
bytes_equal_iff (x ∷ xs) [] = ground arith
bytes_equal_iff (x ∷ xs) (y ∷ ys) = ground (arith, bytes_equal_iff xs ys)

-- The one signature is of the source's key: its hint is the key's, and it verifies.
pub record IsSigned (sdk : Sdk) (parsed : ParsedSponsorshipTransaction) : Type 0 where
  pub key : List ℕ
  pub signature : Signature
  pub decoded : sdk.decode_public_key parsed.source ≡ some key
  pub single : parsed.transaction.signatures ≡ signature ∷ []
  pub hinted : signature.hint ≡ key_hint key
  pub verified : sdk.verify parsed.source parsed.transaction.hash signature.signature ≡ some true

check_sound :
    (sdk : Sdk) (parsed : ParsedSponsorshipTransaction) (sigs : List Signature)
    → parsed.transaction.signatures ≡ sigs
    → verify_signatures sdk parsed sigs ≡ ok tt
    → IsSigned sdk parsed
unfolding verify_signatures
check_sound sdk parsed [] e h = cc
check_sound sdk parsed (s ∷ (s' ∷ sigs)) e h = cc
check_sound sdk parsed (s ∷ []) e h = elim (Option-cases (sdk.decode_public_key parsed.source)) [
  | inl missing ↦ absurd (ground arith)
  | inr (key, decoded) ↦ record {
    key = key;
    signature = s;
    decoded = decoded;
    single = e;
    hinted = ground (arith, bytes_equal_iff s.hint (key_hint key));
    verified = ground arith;
  }
]

check_complete :
    (sdk : Sdk) (parsed : ParsedSponsorshipTransaction) (sigs : List Signature)
    → parsed.transaction.signatures ≡ sigs
    → IsSigned sdk parsed
    → verify_signatures sdk parsed sigs ≡ ok tt
unfolding verify_signatures
check_complete sdk parsed sigs e w =
    rw (← e, w.single)
      (rw (w.decoded, check_signature)
        (ground (arith, bytes_equal_iff w.signature.hint (key_hint w.key), ap length w.hinted)))

-- The signature check passes exactly if the transaction holds one signature, whose hint is the end
-- of the source's key and which verifies for the source and the transaction's hash.
pub verify_iff :
    (sdk : Sdk) (parsed : ParsedSponsorshipTransaction)
    → (verify_inner_source_signature sdk parsed ≡ ok tt) ↔ IsSigned sdk parsed
unfolding verify_inner_source_signature
verify_iff sdk parsed = (check_sound sdk parsed _ refl, check_complete sdk parsed _ refl)
