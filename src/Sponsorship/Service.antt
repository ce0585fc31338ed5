-- ===== src/Sponsorship/Service.antt =====
-- dike-services/src/sponsorship/service.ts. A call is one step from one world to the next: the Redis
-- counters, the Redis locks and results, the metrics, and what was handed to the submitter. The
-- submitter is an argument, as the service has it by an interface.
pub mod Effects
pub mod Calls
pub mod Once
pub mod Status
use dike_monolith.Prelude.{
  ℕ, ◌-◌, ◌/◌, Bool, true, false, not, ◌&&◌, Option, none, some, List, [], ◌∷◌, String,
  if◌then◌else◌,
}
use dike_monolith.Sponsorship.Types.{
  SponsorshipCode, SponsorshipError, Thrown, sponsorship_error, other_error, Result, ok, err,
  sponsorship_disabled, rpc_rejected, confirmation_timeout, transaction_failed, throw, throw_if,
  code_text, ◌>>=◌, ◌>>◌,
}
use dike_monolith.Sponsorship.Sdk.{Sdk, FeeBumpTransaction}
use dike_monolith.Sponsorship.Request.{parse_sponsorship_request}
use dike_monolith.Sponsorship.Validator.{
  ParsedSponsorshipTransaction, parse_sponsored_inner_transaction, max_validity_seconds,
}
use dike_monolith.Sponsorship.Signature.{verify_inner_source_signature}
use dike_monolith.Sponsorship.Allowlist.{DikeManifestContracts, assert_allowed_contract_call}
use dike_monolith.Sponsorship.Fees.{FeePolicy, FeeQuote, quote_sponsored_fee}
use dike_monolith.Sponsorship.FeeBump.{SponsorSigner, BuiltFeeBump, build_and_sign_fee_bump}
use dike_monolith.Sponsorship.Quota.{
  QuotaPolicy, Counters, BudgetReservation, reserve, release_budget,
}
use dike_monolith.Sponsorship.Replay.{
  SponsorshipResult, ReplayRecord, failure, success, ReplayStore, terminal, acquire, complete,
  release,
}
use dike_monolith.Sponsorship.Submitter.{SubmittedSponsoredTransaction}
use dike_monolith.Observability.Metrics.{
  MetricsStore, Completion, note_sponsorship_requested, note_sponsorship_accepted,
  note_sponsorship_completed,
}

-- `FeeSponsorshipServiceOptions`, with what the parts take of the libraries.
pub record Options : Type 0 where
  pub enabled : Bool
  pub network_passphrase : String
  pub contracts : DikeManifestContracts
  pub fee_policy : FeePolicy
  pub signer : SponsorSigner
  pub quota : QuotaPolicy
  pub replay_ttl_seconds : ℕ
  pub lock_ttl_seconds : ℕ
  pub sdk : Sdk
  pub decoded_length : String → ℕ
  pub key_part : String → String
  pub submit : FeeBumpTransaction → Result SubmittedSponsoredTransaction

-- The arguments of a call, the times at which it starts and ends, and the token that it draws.
pub record Call : Type 0 where
  pub body : Option String
  pub ip : String
  pub start_ms : ℕ
  pub end_ms : ℕ
  pub token : String

abbrev pub start_s : Call → ℕ
start_s c = c.start_ms / 1000

abbrev pub end_s : Call → ℕ
end_s c = c.end_ms / 1000

pub record World : Type 0 where
  pub counters : Counters
  pub replay : ReplayStore
  pub metrics : MetricsStore
  -- Newest first.
  pub submitted : List FeeBumpTransaction

-- A transaction that passed every check, with its quote.
pub record Prepared : Type 0 where
  pub parsed : ParsedSponsorshipTransaction
  pub quote : FeeQuote

-- From `parseSponsorshipRequest` to `quoteSponsoredFee`.
unfoldable pub prepare : Options → Call → Result Prepared
prepare o c = do
  text ← parse_sponsorship_request o.decoded_length c.body
  parsed ←
      parse_sponsored_inner_transaction o.sdk text o.network_passphrase (start_s c)
        max_validity_seconds
  verify_inner_source_signature o.sdk parsed
  assert_allowed_contract_call parsed.contract_id parsed.method o.contracts
  quote ← quote_sponsored_fee o.sdk.base_fee parsed.inner_fee parsed.resource_fee o.fee_policy
  ok (record { parsed = parsed; quote = quote })

-- `safeCode`.
abbrev pub safe_code : Thrown → SponsorshipCode
safe_code (sponsorship_error e) = e.code
safe_code other_error = rpc_rejected

abbrev outcome : SponsorshipCode → Completion
outcome confirmation_timeout = Completion.timeout
outcome transaction_failed = Completion.failed
outcome _ = Completion.rejected

-- `replayResult`.
pub replay_result : ReplayRecord → Result SponsorshipResult
replay_result (success r) = ok r
replay_result (failure code) =
    throw code "This sponsored transaction already reached a terminal state."

module _ (o : Options) (c : Call) (p : ParsedSponsorshipTransaction) where
  give_back : Option BudgetReservation → Bool → World → World
  give_back none started w = w
  give_back (some r) true w = w
  give_back (some r) false w = record w { counters = release_budget r w.counters }

  -- The end of the `catch` block, after `complete`.
  rethrow : Thrown → World → Result (Unit {0}) × ReplayStore → Result SponsorshipResult × World
  rethrow e w (ok _, s) = (err e, record w { replay = s })
  rethrow e w (err e', s) = (err e', record w { replay = s })

  close : Bool → Thrown → World → Result SponsorshipResult × World
  close true e w =
      rethrow e w
        (complete o.replay_ttl_seconds p.hash c.token (failure (safe_code e)) (end_s c) w.replay)
  close false e w = (err e, record w { replay = release p.hash c.token (end_s c) w.replay })

  -- The `catch` block.
  fail : Thrown → Option BudgetReservation → Bool → World → Result SponsorshipResult × World
  fail e reservation started w = close started e (
      give_back reservation started (record w {
        metrics =
            note_sponsorship_completed (outcome (safe_code e)) (c.end_ms - c.start_ms)
              (some (code_text (safe_code e))) w.metrics;
      }))

  confirm :
      SponsorshipResult
      → BudgetReservation
      → World
      → Result (Unit {0}) × ReplayStore
      → Result SponsorshipResult × World
  confirm r reservation w (err e, s) = fail e (some reservation) true (record w { replay = s })
  confirm r reservation w (ok _, s) = (
    ok r,
    record w {
      replay = s;
      metrics =
          note_sponsorship_completed Completion.confirmed (c.end_ms - c.start_ms) none w.metrics;
    },
  )

  finish :
      BudgetReservation
      → Result SubmittedSponsoredTransaction
      → World
      → Result SponsorshipResult × World
  finish reservation (err e) w = fail e (some reservation) true w
  finish reservation (ok s) w =
      let r : SponsorshipResult = record {
        inner_hash = p.hash;
        outer_hash = s.outer_hash;
        return_value_xdr = s.return_value_xdr;
      } in
      confirm r reservation w
        (complete o.replay_ttl_seconds p.hash c.token (success r) (end_s c) w.replay)

  send : BudgetReservation → Result BuiltFeeBump → World → Result SponsorshipResult × World
  send reservation (err e) w = fail e (some reservation) false w
  send reservation (ok b) w =
      finish reservation (o.submit b.transaction)
        (record w { submitted = b.transaction ∷ w.submitted })

  pub reserved : Result BudgetReservation × Counters → World → Result SponsorshipResult × World
  reserved (err e, db) w = fail e none false (record w { counters = db })
  reserved (ok r, db) w =
      send r (build_and_sign_fee_bump o.sdk p o.fee_policy o.signer o.network_passphrase)
        (record w { counters = db })

  locked : FeeQuote → Result String × ReplayStore → World → Result SponsorshipResult × World
  locked q (err e, s) w = (err e, record w { replay = s })
  locked q (ok _, s) w =
      reserved (reserve o.key_part o.quota p.source c.ip q.outer_fee c.start_ms w.counters)
        (record w { replay = s })

  enter : FeeQuote → Option ReplayRecord → World → Result SponsorshipResult × World
  enter q (some r) w = (replay_result r, w)
  enter q none w = locked q (acquire o.lock_ttl_seconds p.hash c.token (start_s c) w.replay) w

-- From the quote on.
pub sponsor_prepared : Options → Call → Result Prepared → World → Result SponsorshipResult × World
sponsor_prepared o c (err e) w = (err e, w)
sponsor_prepared o c (ok p) w =
    enter o c p.parsed p.quote (terminal p.parsed.hash (start_s c) w.replay)
      (record w { metrics = note_sponsorship_accepted p.quote.outer_fee w.metrics })

pub sponsor : Options → Call → World → Result SponsorshipResult × World
unfolding sponsor_prepared enter locked reserved send finish confirm fail close rethrow give_back
sponsor o c w =
    let w' : World = record w { metrics = note_sponsorship_requested w.metrics } in
    if not o.enabled
    then (throw sponsorship_disabled "Fee sponsorship is not enabled.", w')
    else sponsor_prepared o c (prepare o c) w'
