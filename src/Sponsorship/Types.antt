-- ===== src/Sponsorship/Types.antt =====
-- dike-services/src/sponsorship/types.ts: the codes, the error class, and what a client sees of an
-- error.
use dike_monolith.Prelude.{ℕ, ◌≡◌, refl, subst, Bool, true, false, String}

pub data SponsorshipCode : Type 0 where
  sponsorship_disabled malformed_xdr unsupported_envelope unsupported_source : SponsorshipCode
  bad_signature expired_transaction disallowed_contract disallowed_method : SponsorshipCode
  fee_limit_exceeded quota_exceeded budget_exceeded transaction_replay : SponsorshipCode
  rpc_rejected transaction_failed confirmation_timeout : SponsorshipCode

pub record SponsorshipError : Type 0 where
  pub code : SponsorshipCode
  pub message : String
  pub retryable : Bool

-- What a `throw` carries: a `SponsorshipError`, or anything else.
pub data Thrown : Type 0 where
  sponsorship_error : SponsorshipError → Thrown
  other_error : Thrown

pub data Result {ℓ} (A : Type ℓ) : Type ℓ where
  ok : A → Result A
  err : Thrown → Result A

-- What follows a call that may throw.
infixl 5 ◌>>=◌
abbrev pub ◌>>=◌ {ℓ κ} :
    {Value : Type ℓ} {Next : Type κ} → Result Value → (Value → Result Next) → Result Next
err thrown >>= rest = err thrown
ok value >>= rest = rest value

infixl 5 ◌>>◌
abbrev pub ◌>>◌ {ℓ} : {Next : Type ℓ} → Result (Unit {0}) → Result Next → Result Next
check >> rest = check >>= λ _. rest

-- `throw new SponsorshipError(code, message)`.
abbrev pub throw {ℓ} : {A : Type ℓ} → SponsorshipCode → String → Result A
throw c m = err (sponsorship_error (record { code = c; message = m; retryable = false }))

-- The same with `{ retryable: true }`.
abbrev pub throw_retryable {ℓ} : {A : Type ℓ} → SponsorshipCode → String → Result A
throw_retryable c m = err (sponsorship_error (record { code = c; message = m; retryable = true }))

abbrev pub throw_if : Bool → SponsorshipCode → String → Result (Unit {0})
throw_if true c m = throw c m
throw_if false c m = ok tt

unfoldable pub public_sponsorship_error : Thrown → SponsorshipError
public_sponsorship_error (sponsorship_error e) = e
public_sponsorship_error other_error = record {
  code = rpc_rejected;
  message = "Sponsored transaction could not be submitted.";
  retryable = true;
}

unfoldable pub sponsorship_http_status : SponsorshipCode → ℕ
sponsorship_http_status sponsorship_disabled = 503
sponsorship_http_status quota_exceeded = 429
sponsorship_http_status budget_exceeded = 429
sponsorship_http_status transaction_replay = 409
sponsorship_http_status rpc_rejected = 502
sponsorship_http_status confirmation_timeout = 504
sponsorship_http_status transaction_failed = 422
sponsorship_http_status _ = 400

-- What holds of the value of a call, if it returns.
pub data Ensures {ℓ κ} {A : Type ℓ} (P : A → Type κ) : Result A → Type (ℓ ⊔ κ) where
  returns : {a : A} → P a → Ensures P (ok a)
  throws : {e : Thrown} → Ensures P (err e)

pub >>=-Ensures {ℓ κ ι μ} :
    {A : Type ℓ} {B : Type κ} {P : A → Type ι} {Q : B → Type μ} {m : Result A} {f : A → Result B}
    → Ensures P m
    → ((a : A) → P a → Ensures Q (f a))
    → Ensures Q (m >>= f)
>>=-Ensures (returns h) k = k _ h
>>=-Ensures throws k = throws

pub throw_if-Ensures {κ μ} :
    {B : Type κ} {Q : B → Type μ} (c : Bool) (s : SponsorshipCode) (m : String) {k : Result B}
    → (c ≡ false → Ensures Q k)
    → Ensures Q (throw_if c s m >> k)
throw_if-Ensures true s m h = throws
throw_if-Ensures false s m h = h refl

-- For a check that stands last.
pub throw_if-Ensures_last {μ} :
    {Q : Unit {0} → Type μ} (c : Bool) (s : SponsorshipCode) (m : String)
    → (c ≡ false → Q tt)
    → Ensures Q (throw_if c s m)
throw_if-Ensures_last true s m h = throws
throw_if-Ensures_last false s m h = returns (h refl)

-- Of a call that is not looked into: it returns what it returns.
pub result-Ensures {ℓ} : {A : Type ℓ} (m : Result A) → Ensures (λ a. m ≡ ok a) m
result-Ensures (ok a) = returns refl
result-Ensures (err e) = throws

-- The value itself, from the equation that the call returns it.
pub Ensures-ok {ℓ κ} :
    {A : Type ℓ} {P : A → Type κ} {m : Result A} {a : A} → Ensures P m → m ≡ ok a → P a
Ensures-ok {P} {a} (returns h) e = subst P (cc) h
Ensures-ok throws e = cc

-- The text of a code.
unfoldable pub code_text : SponsorshipCode → String
code_text sponsorship_disabled = "SPONSORSHIP_DISABLED"
code_text malformed_xdr = "MALFORMED_XDR"
code_text unsupported_envelope = "UNSUPPORTED_ENVELOPE"
code_text unsupported_source = "UNSUPPORTED_SOURCE"
code_text bad_signature = "BAD_SIGNATURE"
code_text expired_transaction = "EXPIRED_TRANSACTION"
code_text disallowed_contract = "DISALLOWED_CONTRACT"
code_text disallowed_method = "DISALLOWED_METHOD"
code_text fee_limit_exceeded = "FEE_LIMIT_EXCEEDED"
code_text quota_exceeded = "QUOTA_EXCEEDED"
code_text budget_exceeded = "BUDGET_EXCEEDED"
code_text transaction_replay = "TRANSACTION_REPLAY"
code_text rpc_rejected = "RPC_REJECTED"
code_text transaction_failed = "TRANSACTION_FAILED"
code_text confirmation_timeout = "CONFIRMATION_TIMEOUT"
