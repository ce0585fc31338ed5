-- ===== src/Sponsorship/FeeBump.antt =====
-- dike-services/src/sponsorship/fee-bump.ts and the signer of signer.ts. Signing goes on in the SDK.
use dike_monolith.Prelude.{◌≡◌, ◌||◌, refl, Option, none, some, String, arith}
use dike_monolith.Prelude.Int.{ltb_ℤ, eq_of_parts}
use dike_monolith.Sponsorship.Types.{
  Result, ok, err, other_error, fee_limit_exceeded, throw_if, ◌>>=◌, ◌>>◌, Ensures, returns, throws,
  >>=-Ensures, throw_if-Ensures, result-Ensures,
}
use dike_monolith.Sponsorship.Sdk.{Sdk, FeeBumpTransaction}
use dike_monolith.Sponsorship.Fees.{FeePolicy, FeeQuote, quote_sponsored_fee}
use dike_monolith.Sponsorship.Validator.{ParsedSponsorshipTransaction}

pub record SponsorSigner : Type 0 where
  pub public_key : String
  pub sign : FeeBumpTransaction → FeeBumpTransaction

pub record BuiltFeeBump : Type 0 where
  pub transaction : FeeBumpTransaction
  pub hash : String
  pub quote : FeeQuote

-- A call of the SDK that may throw.
abbrev attempt {ℓ} : {A : Type ℓ} → Option A → Result A
attempt none = err other_error
attempt (some a) = ok a

unfoldable pub build_and_sign_fee_bump :
    Sdk → ParsedSponsorshipTransaction → FeePolicy → SponsorSigner → String → Result BuiltFeeBump
build_and_sign_fee_bump sdk parsed policy signer passphrase = do
  quote ← quote_sponsored_fee sdk.base_fee parsed.inner_fee parsed.resource_fee policy
  bump ←
      attempt
        (sdk.build_fee_bump signer.public_key policy.base_fee_stroops parsed.transaction passphrase)
  throw_if (ltb_ℤ bump.fee quote.outer_fee || ltb_ℤ quote.outer_fee bump.fee) fee_limit_exceeded
      "The fee-bump fee did not match the sponsor policy."
  ok (record { transaction = signer.sign bump; hash = (signer.sign bump).hash; quote = quote })

attempt-Ensures : {A : Type 0} (o : Option A) → Ensures (λ a. o ≡ some a) (attempt o)
attempt-Ensures none = throws
attempt-Ensures (some a) = returns (ground arith)

-- What was built is the signed fee bump of the parsed transaction, and its fee is the quoted one.
pub build-Ensures :
    (sdk : Sdk) (parsed : ParsedSponsorshipTransaction) (policy : FeePolicy)
    (signer : SponsorSigner) (passphrase : String)
    → Ensures
        (λ b.
          (bump : FeeBumpTransaction) × (sdk.build_fee_bump signer.public_key
              policy.base_fee_stroops parsed.transaction passphrase
            ≡ some bump)
          × (b.transaction ≡ signer.sign bump)
          × (bump.fee ≡ b.quote.outer_fee)
          × (quote_sponsored_fee sdk.base_fee parsed.inner_fee parsed.resource_fee policy
              ≡ ok b.quote))
        (build_and_sign_fee_bump sdk parsed policy signer passphrase)
unfolding build_and_sign_fee_bump
build-Ensures sdk parsed policy signer passphrase = >>=-Ensures (result-Ensures _) λ quote quoted.
    >>=-Ensures (attempt-Ensures (sdk.build_fee_bump _ _ _ _)) λ bump built.
      throw_if-Ensures (ltb_ℤ bump.fee quote.outer_fee || ltb_ℤ quote.outer_fee bump.fee) _ _
        λ same.
          returns (bump, built, refl, eq_of_parts bump.fee quote.outer_fee (ground arith), quoted)
