-- ===== src/Sponsorship/Service/Calls.antt =====
-- Whole calls of `sponsor` in dike-services/src/sponsorship/service.ts.
use dike_monolith.Prelude.{
  ◌+◌, ◌<◌, ◌≡◌, refl, ◌⊎◌, inl, inr, true, false, none, string_eq, sym, subst, Bool-cases,
  Option-cases,
}
use dike_monolith.Prelude.Dict.{insert}
use dike_monolith.Sponsorship.Types.{Thrown, Result, ok, err}
use dike_monolith.Sponsorship.Replay.{SponsorshipResult, terminal, lock_owner, acquire}
use dike_monolith.Sponsorship.Replay.Locks.{acquire_free, acquire_held, lock_owner-insert}
use dike_monolith.Sponsorship.Fees.{FeeQuote}
use dike_monolith.Sponsorship.Validator.{ParsedSponsorshipTransaction}
use dike_monolith.Observability.Metrics.{note_sponsorship_requested, note_sponsorship_accepted}
use dike_monolith.Sponsorship.Service.{
  Options, Call, World, Prepared, start_s, end_s, prepare, locked, enter, sponsor_prepared, sponsor,
}
use dike_monolith.Sponsorship.Service.Effects.{Keeps, Sends, reserved-cases}

Result-cases {ℓ} :
    {A : Type ℓ} (r : Result A) → ((e : Thrown) × (r ≡ err e)) ⊎ ((a : A) × (r ≡ ok a))
Result-cases (ok a) = inr (a, refl)
Result-cases (err e) = inl (e, refl)

-- What had to hold for a transaction to be handed over.
pub record Admits (o : Options) (c : Call) (w : World) (p : Prepared) : Type 0 where
  pub enabled : o.enabled ≡ true
  pub prepared : prepare o c ≡ ok p
  pub fresh : terminal p.parsed.hash (start_s c) w.replay ≡ none
  pub unlocked : lock_owner p.parsed.hash (start_s c) w.replay ≡ none

-- A call keeps the world's accounts, or was admitted and sends one transaction.
abbrev pub Effect : Options → Call → World → Result SponsorshipResult × World → Type 0
Effect o c w out =
    Keeps w out.1 ⊎ ((p : Prepared) × Admits o c w p × Sends o c p.parsed p.quote w out)

module _ (o : Options) (c : Call) (p : ParsedSponsorshipTransaction) (q : FeeQuote)
    (w : World) where
  abbrev Outcome : Result SponsorshipResult × World → Type 0
  Outcome out =
      Keeps w out.1 ⊎ ((lock_owner p.hash (start_s c) w.replay ≡ none) × Sends o c p q w out)

  -- From the lock on, where it outlives the call.
  locked-cases :
      end_s c < start_s c + o.lock_ttl_seconds
      → Outcome (locked o c p q (acquire o.lock_ttl_seconds p.hash c.token (start_s c) w.replay) w)
  unfolding locked
  locked-cases live = elim (Option-cases (lock_owner p.hash (start_s c) w.replay)) [
    | inr (t, held) ↦
        rw (acquire_held p.hash c.token o.lock_ttl_seconds (start_s c) w.replay t held)
          (inl (record { submissions = refl; results = refl; daily = λ d. refl }))
    | inl free ↦
        rw (acquire_free p.hash c.token o.lock_ttl_seconds (start_s c) w.replay free)
          (elim (reserved-cases o c p q
            (record w {
              replay = record (w.replay) {
                locks = insert p.hash (c.token, start_s c + o.lock_ttl_seconds) w.replay.locks;
              };
            })
            _ refl
            (lock_owner-insert p.hash c.token o.lock_ttl_seconds (start_s c) w.replay (end_s c)
              live)) [
                | inl k ↦
                    inl
                      (record { submissions = k.submissions; results = k.results; daily = k.daily })
                | inr s ↦ inr (
                  free,
                  record {
                    built = s.built;
                    builds = s.builds;
                    submissions = s.submissions;
                    reservation = s.reservation;
                    charged = s.charged;
                    daily = s.daily;
                    answer = s.answer;
                    results = s.results;
                  },
                )
              ])
  ]

  enter-cases :
      end_s c < start_s c + o.lock_ttl_seconds
      → let out = enter o c p q (terminal p.hash (start_s c) w.replay) w in
        Keeps w out.1
        ⊎ ((terminal p.hash (start_s c) w.replay ≡ none)
            × (lock_owner p.hash (start_s c) w.replay ≡ none)
            × Sends o c p q w out)
  unfolding enter
  enter-cases live = elim (Option-cases (terminal p.hash (start_s c) w.replay)) [
    | inr (r, done) ↦
        rw done (inl (record { submissions = refl; results = refl; daily = λ d. refl }))
    | inl fresh ↦
        rw (fresh, enter)
          (elim (locked-cases live) [ inl k ↦ inl k | inr (free, s) ↦ inr (refl, free, s) ])
  ]

module _ (o : Options) (c : Call) (w : World) where
  -- The world once the request is counted.
  abbrev pub requested : World
  requested = record w { metrics = note_sponsorship_requested w.metrics }

  pub sponsor_enabled :
      o.enabled ≡ true → sponsor o c w ≡ sponsor_prepared o c (prepare o c) requested
  unfolding sponsor
  sponsor_enabled h = simp h

  pub sponsor_off : o.enabled ≡ false → (sponsor o c w).1 ≡ requested
  unfolding sponsor
  sponsor_off h = simp h

  prepared-Effect :
      (r : Result Prepared)
      → prepare o c ≡ r
      → o.enabled ≡ true
      → end_s c < start_s c + o.lock_ttl_seconds
      → Effect o c w (sponsor_prepared o c r requested)
  unfolding sponsor_prepared
  prepared-Effect (err e) bad enabled live =
      inl (record { submissions = refl; results = refl; daily = λ d. refl })
  prepared-Effect (ok p) good enabled live =
      elim (enter-cases o c p.parsed p.quote
        (record w {
          metrics =
              note_sponsorship_accepted p.quote.outer_fee (note_sponsorship_requested w.metrics);
        })
        live) [
          | inl k ↦
              inl (record { submissions = k.submissions; results = k.results; daily = k.daily })
          | inr (fresh, free, s) ↦ inr (
            p,
            record { enabled = enabled; prepared = good; fresh = fresh; unlocked = free },
            record {
              built = s.built;
              builds = s.builds;
              submissions = s.submissions;
              reservation = s.reservation;
              charged = s.charged;
              daily = s.daily;
              answer = s.answer;
              results = s.results;
            },
          )
        ]

  -- With a lock that outlives the call, a call leaves the submissions, the results and the daily
  -- counters alone; or it was enabled, the transaction passed every check, had no result and no lock,
  -- and then exactly one fee bump, built from it, is handed to the submitter, the outer fee of its quote
  -- is reserved and charged to the day of the reservation, and what the submitter answers is stored for
  -- its hash, as a result or as the code of the error, and is the answer of the call.
  pub sponsor-Effect : end_s c < start_s c + o.lock_ttl_seconds → Effect o c w (sponsor o c w)
  sponsor-Effect live = elim (Bool-cases o.enabled) [
    | inl on ↦ subst (Effect o c w) (sym (sponsor_enabled on)) (prepared-Effect _ refl on live)
    | inr off ↦ inl (
        subst (Keeps w) (sym (sponsor_off off))
          (record { submissions = refl; results = refl; daily = λ d. refl }))
  ]
