-- ===== src/Sponsorship/Service/Effects.antt =====
-- What one call of dike-services/src/sponsorship/service.ts does to the world.
use dike_monolith.Prelude.{
  ℕ, ◌+◌, ◌≡◌, refl, ◌⊎◌, inl, inr, some, ◌∷◌, string_eq, arith, ap, sym, ◌∙◌, String,
}
use dike_monolith.Prelude.Dict.{insert}
use dike_monolith.Sponsorship.Types.{Thrown, Result, ok, err}
use dike_monolith.Sponsorship.Validator.{ParsedSponsorshipTransaction}
use dike_monolith.Sponsorship.Fees.{FeeQuote}
use dike_monolith.Sponsorship.FeeBump.{BuiltFeeBump, build_and_sign_fee_bump}
use dike_monolith.Sponsorship.Quota.{
  daily_budget, Counters, count_of, BudgetReservation, reserve, release_budget,
}
use dike_monolith.Sponsorship.Quota.History.{
  share, reserve_ok-daily, reserve_err-daily, release_budget-daily,
}
use dike_monolith.Sponsorship.Replay.{SponsorshipResult, ReplayRecord, failure, success, lock_owner}
use dike_monolith.Sponsorship.Replay.Locks.{complete_held, release_results}
use dike_monolith.Sponsorship.Submitter.{SubmittedSponsoredTransaction}
use dike_monolith.Sponsorship.Service.{
  Options, Call, World, end_s, safe_code, give_back, rethrow, close, fail, confirm, finish, send,
  reserved,
}

-- A world whose daily counters, results and submissions are those of another.
pub record Keeps (w w' : World) : Type 0 where
  pub submissions : w'.submitted ≡ w.submitted
  pub results : w'.replay.results ≡ w.replay.results
  pub daily : (d : ℕ) → count_of (daily_budget d) w'.counters ≡ count_of (daily_budget d) w.counters

-- What the submitter's answer makes of a transaction: the result that is stored, and the answer of the call.
abbrev pub final_of : String → Result SubmittedSponsoredTransaction → ReplayRecord
final_of hash (err e) = failure (safe_code e)
final_of hash (ok s) =
    success (record {
      inner_hash = hash;
      outer_hash = s.outer_hash;
      return_value_xdr = s.return_value_xdr;
    })

abbrev pub answer_of : String → Result SubmittedSponsoredTransaction → Result SponsorshipResult
answer_of hash (err e) = err e
answer_of hash (ok s) =
    ok (record {
      inner_hash = hash;
      outer_hash = s.outer_hash;
      return_value_xdr = s.return_value_xdr;
    })

-- One transaction was handed to the submitter, the outer fee of its quote was reserved, and the submitter's answer is
-- that of the call and is stored.
pub record Sends (o : Options) (c : Call) (p : ParsedSponsorshipTransaction) (q : FeeQuote)
    (w : World) (out : Result SponsorshipResult × World) : Type 0 where
  pub built : BuiltFeeBump
  pub builds : build_and_sign_fee_bump o.sdk p o.fee_policy o.signer o.network_passphrase ≡ ok built
  pub submissions : out.1.submitted ≡ built.transaction ∷ w.submitted
  pub reservation : BudgetReservation
  pub charged :
      reserve o.key_part o.quota p.source c.ip q.outer_fee c.start_ms w.counters
      ≡ (ok reservation, out.1.counters)
  pub daily :
      (d : ℕ)
      → count_of (daily_budget d) out.1.counters
        ≡ count_of (daily_budget d) w.counters + share d reservation
  pub results :
      out.1.replay.results
      ≡ insert p.hash
          (final_of p.hash (o.submit built.transaction), end_s c + o.replay_ttl_seconds)
          w.replay.results
  pub answer : out.0 ≡ answer_of p.hash (o.submit built.transaction)

module _ (o : Options) (c : Call) (p : ParsedSponsorshipTransaction) where
  -- The lock is still the call's own when it ends.
  abbrev pub Holds : World → Type 0
  Holds w = lock_owner p.hash (end_s c) w.replay ≡ some c.token

  -- Only the counters, the submissions, the one result and the answer matter from here on.
  record Settles (s : Result SubmittedSponsoredTransaction) (w : World)
      (out : Result SponsorshipResult × World) : Type 0 where
    submissions : out.1.submitted ≡ w.submitted
    counters : out.1.counters ≡ w.counters
    results :
        out.1.replay.results
        ≡ insert p.hash (final_of p.hash s, end_s c + o.replay_ttl_seconds) w.replay.results
    answer : out.0 ≡ answer_of p.hash s

  finish-Settles :
      (r : BudgetReservation) (s : Result SubmittedSponsoredTransaction) (w : World)
      → Holds w
      → Settles s w (finish o c p r s w)
  unfolding finish fail close give_back rethrow confirm
  finish-Settles r (err e) w held =
      rw
        (complete_held p.hash c.token o.replay_ttl_seconds (end_s c) w.replay
          (failure (safe_code e)) held)
        (record { submissions = refl; counters = refl; results = refl; answer = refl })
  finish-Settles r (ok s) w held =
      rw (complete_held p.hash c.token o.replay_ttl_seconds (end_s c) w.replay _ held)
        (record { submissions = refl; counters = refl; results = refl; answer = refl })

  send-cases :
      (r : BudgetReservation) (b : Result BuiltFeeBump) (w : World)
      → Holds w
      → ((e : Thrown) × (b ≡ err e)
          × ((send o c p r b w).1.submitted ≡ w.submitted)
          × ((send o c p r b w).1.replay.results ≡ w.replay.results)
          × ((send o c p r b w).1.counters ≡ release_budget r w.counters))
        ⊎ ((t : BuiltFeeBump) × (b ≡ ok t)
            × Settles
                (o.submit t.transaction)
                (record w { submitted = t.transaction ∷ w.submitted })
                (send o c p r b w))
  unfolding send fail close give_back
  send-cases r (err e) w held =
      inl (e, refl, refl, release_results p.hash c.token (end_s c) w.replay, refl)
  send-cases r (ok t) w held = inr (t, refl, finish-Settles r (o.submit t.transaction) _ held)

  module _ (q : FeeQuote) (w : World) where
    abbrev pub reservation_of_call : Result BudgetReservation × Counters
    reservation_of_call = reserve o.key_part o.quota p.source c.ip q.outer_fee c.start_ms w.counters

    granted :
        (r : BudgetReservation) (db : Counters)
        → (ok r, db) ≡ reservation_of_call
        → (d : ℕ) → count_of (daily_budget d) db ≡ count_of (daily_budget d) w.counters + share d r
    granted r db same d = rw (ap (λ v. v.1) same) (
        reserve_ok-daily o.key_part o.quota p.source c.ip q.outer_fee c.start_ms w.counters r d
          (ap (λ v. v.0) (sym same)))

    refused :
        (e : Thrown) (db : Counters)
        → (err e, db) ≡ reservation_of_call
        → (d : ℕ) → count_of (daily_budget d) db ≡ count_of (daily_budget d) w.counters
    refused e db same d = rw (ap (λ v. v.1) same) (
        reserve_err-daily o.key_part o.quota p.source c.ip q.outer_fee c.start_ms w.counters e d
          (ap (λ v. v.0) (sym same)))

    -- From the reservation on, with the lock held to the end.
    pub reserved-cases :
        (v : Result BudgetReservation × Counters)
        → v ≡ reservation_of_call
        → Holds w
        → Keeps w (reserved o c p v w).1 ⊎ Sends o c p q w (reserved o c p v w)
    unfolding reserved fail close give_back
    reserved-cases (err e, db) same held = inl (record {
      submissions = refl;
      results = release_results p.hash c.token (end_s c) w.replay;
      daily = λ d. refused e db same d;
    })
    reserved-cases (ok r, db) same held =
        elim (send-cases r
          (build_and_sign_fee_bump o.sdk p o.fee_policy o.signer o.network_passphrase)
          (record w { counters = db }) held) [
            | inl (e, failed, kept, results, counters) ↦ inl (record {
              submissions = kept;
              results = results;
              daily = λ d. rw counters (
                  omega
                    (arith, release_budget-daily o.key_part o.quota r db d, granted r db same d));
            })
            | inr (t, built, done) ↦ inr (record {
              built = t;
              builds = built;
              submissions = done.submissions;
              reservation = r;
              charged = sym same ∙ ap (λ a. (ok r, a)) (sym done.counters);
              daily = λ d. rw done.counters (granted r db same d);
              results = done.results;
              answer = done.answer;
            })
          ]
