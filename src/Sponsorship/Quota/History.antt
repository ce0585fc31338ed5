-- ===== src/Sponsorship/Quota/History.antt =====
-- Histories of the calls of dike-services/src/sponsorship/quota.ts: the daily counter is what the
-- reservations that were not given back add up to.
use dike_monolith.Prelude.{
  ℕ, ap, ◌-◌, ◌+◌, ◌/◌, ◌≡◌, List, [], ◌∷◌, ◌++◌, String, arith, if◌then◌else◌, ◌==◌, nat_eq,
}
use dike_monolith.Prelude.Int.{ℤ, pos_part}
use dike_monolith.Sponsorship.Types.{ok, err, Thrown}
use dike_monolith.Sponsorship.Quota.Redis.{
  daily_budget, quota_key_eq, Counters, count_of, count_of-lapse, count_of-nil,
}
use dike_monolith.Sponsorship.Quota.{
  QuotaPolicy, BudgetReservation, verdict_result, reserve, release_budget,
}
use dike_monolith.Sponsorship.Quota.Scripts.{release_script_counts}
use dike_monolith.Sponsorship.Quota.Limits.{
  IsWithin, Ledger, Step, reserves, refuses, releases, lapses_minute, reserve-IsWithin,
  release-IsWithin, script-daily,
}

-- What a reservation takes of the budget of a day.
abbrev pub share : ℕ → BudgetReservation → ℕ
share d r = if r.daily_key == daily_budget d then pos_part r.amount else 0

abbrev pub spent : ℕ → List BudgetReservation → ℕ
spent d [] = 0
spent d (r ∷ rs) = share d r + spent d rs

spent-append :
    (d : ℕ) (xs ys : List BudgetReservation) → spent d (xs ++ ys) ≡ spent d xs + spent d ys
spent-append d [] ys = omega arith
spent-append d (x ∷ xs) ys = omega (arith, spent-append d xs ys)

module _ (key_part : String → String) (p : QuotaPolicy) where
  pub reserve_ok-daily :
      (source ip : String) (amount : ℤ) (now : ℕ) (db : Counters) (r : BudgetReservation) (d : ℕ)
      → (reserve key_part p source ip amount now db).0 ≡ ok r
      → count_of (daily_budget d) (reserve key_part p source ip amount now db).1
        ≡ count_of (daily_budget d) db + share d r
  unfolding reserve quota_key_eq verdict_result
  reserve_ok-daily source ip amount now db r d h = ground (
    arith,
    script-daily key_part p (key_part source) (key_part ip) (now / 60000) (now / 60000)
        (now / 86400000) (pos_part amount) db d,
  )

  pub reserve_err-daily :
      (source ip : String) (amount : ℤ) (now : ℕ) (db : Counters) (e : Thrown) (d : ℕ)
      → (reserve key_part p source ip amount now db).0 ≡ err e
      → count_of (daily_budget d) (reserve key_part p source ip amount now db).1
        ≡ count_of (daily_budget d) db
  unfolding reserve verdict_result
  reserve_err-daily source ip amount now db e d h = ground (
    arith,
    script-daily key_part p (key_part source) (key_part ip) (now / 60000) (now / 60000)
        (now / 86400000) (pos_part amount) db d,
  )

  pub release_budget-daily :
      (r : BudgetReservation) (db : Counters) (d : ℕ)
      → count_of (daily_budget d) (release_budget r db) ≡ count_of (daily_budget d) db - share d r
  unfolding release_budget
  release_budget-daily r db d =
      release_script_counts r.daily_key (daily_budget d) (pos_part r.amount) db

  -- Every counter is within its limit, and each day's is what the outstanding reservations add up to.
  pub record IsBalanced (l : Ledger key_part p) : Type 0 where
    pub within : IsWithin p l.counters
    pub balance : (d : ℕ) → count_of (daily_budget d) l.counters ≡ spent d l.outstanding

  Step-IsBalanced : {l l' : Ledger key_part p} → Step key_part p l l' → IsBalanced l → IsBalanced l'
  Step-IsBalanced (reserves l source ip amount now r e) b = record {
    within = reserve-IsWithin key_part p source ip amount now l.counters b.within;
    balance =
        λ d. omega (arith, b.balance d, reserve_ok-daily source ip amount now l.counters r d e);
  }
  Step-IsBalanced (refuses l source ip amount now t e) b = record {
    within = reserve-IsWithin key_part p source ip amount now l.counters b.within;
    balance =
        λ d. omega (arith, b.balance d, reserve_err-daily source ip amount now l.counters t d e);
  }
  Step-IsBalanced (releases l r front back e) b = record {
    within = release-IsWithin key_part p r l.counters b.within;
    balance = λ d. omega (
      arith,
      b.balance d,
      ap (spent d) e,
      spent-append d front (r ∷ back),
      spent-append d front back,
      release_budget-daily r l.counters d,
    );
  }
  Step-IsBalanced (lapses_minute l k e) b = record {
    within = λ j. ground (arith, b.within j, count_of-lapse k j l.counters);
    balance = λ d. ground (arith, e d, b.balance d, count_of-lapse k (daily_budget d) l.counters);
  }

  abbrev fresh : Ledger key_part p
  fresh = record { counters = []; outstanding = [] }

  -- What a history of calls leads to.
  pub data Reach : Ledger key_part p → Type 0 where
    start : Reach fresh
    next : {l l' : Ledger key_part p} → Reach l → Step key_part p l l' → Reach l'

  -- After any history of calls from empty counters, no counter is above the limit of the policy, and
  -- each day's counter is what the reservations that were granted and not given back add up to.
  pub Reach-IsBalanced : {l : Ledger key_part p} → Reach l → IsBalanced l
  Reach-IsBalanced start = record {
    within = λ k. rw count_of-nil (omega arith);
    balance = λ d. count_of-nil (daily_budget d);
  }
  Reach-IsBalanced (next r s) = Step-IsBalanced s (Reach-IsBalanced r)
