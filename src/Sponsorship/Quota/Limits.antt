-- ===== src/Sponsorship/Quota/Limits.antt =====
-- The limits of the policy over any history of the calls of
-- dike-services/src/sponsorship/quota.ts, and what the daily counter stands for.
use dike_monolith.Prelude.{
  ℕ, ◌/◌, ◌+◌, ◌≤◌, ◌≡◌, refl, false, List, ◌∷◌, ◌++◌, String, arith, if◌then◌else◌, ◌==◌, nat_eq,
}
use dike_monolith.Prelude.Int.{ℤ, pos_part}
use dike_monolith.Sponsorship.Types.{ok, err, Thrown}
use dike_monolith.Sponsorship.Quota.Redis.{
  QuotaKey, source_minute, ip_minute, daily_budget, quota_key_eq, Counters, count_of, same_count,
  lapse,
}
use dike_monolith.Sponsorship.Quota.{
  QuotaPolicy, BudgetReservation, granted, reserve_script, reserve, release_budget,
}
use dike_monolith.Sponsorship.Quota.Scripts.{
  verdict_of, is_granted, reserve_script_verdict, reserve_script_counts, release_script_counts,
}

abbrev pub limit_of : QuotaPolicy → QuotaKey → ℕ
limit_of p (source_minute part minute) = p.max_per_minute
limit_of p (ip_minute part minute) = p.max_per_ip_minute
limit_of p (daily_budget day) = p.daily_budget_stroops

-- No counter is above its limit.
abbrev pub IsWithin : QuotaPolicy → Counters → Type 0
IsWithin p db = (k : QuotaKey) → count_of k db ≤ limit_of p k

module _ (key_part : String → String) (p : QuotaPolicy) where
  granted_room :
      (of_source of_ip daily amount : ℕ)
      → verdict_of p of_source of_ip daily amount ≡ granted
      → (of_source + 1 ≤ p.max_per_minute)
        × (of_ip + 1 ≤ p.max_per_ip_minute)
        × (daily + amount ≤ p.daily_budget_stroops)
  granted_room of_source of_ip daily amount h = ground arith

  -- The three keys of a call, which differ by their kinds.
  module _ (s i : String) (m n d amount : ℕ) (db : Counters) where
    script-limit :
        (k : QuotaKey)
        → count_of k db ≤ limit_of p k
        → count_of k
            (reserve_script p (source_minute s m) (ip_minute i n) (daily_budget d) amount db).1
          ≤ limit_of p k
    unfolding quota_key_eq
    script-limit (source_minute t o) h = ground (
      arith,
      reserve_script_counts p (source_minute s m) (ip_minute i n) (daily_budget d) amount
          (source_minute t o) db,
      reserve_script_verdict p (source_minute s m) (ip_minute i n) (daily_budget d) amount db refl
          refl refl,
      same_count (source_minute s m) (source_minute t o) db,
    )
    script-limit (ip_minute t o) h = ground (
      arith,
      reserve_script_counts p (source_minute s m) (ip_minute i n) (daily_budget d) amount
          (ip_minute t o) db,
      reserve_script_verdict p (source_minute s m) (ip_minute i n) (daily_budget d) amount db refl
          refl refl,
      same_count (ip_minute i n) (ip_minute t o) db,
    )
    script-limit (daily_budget e) h = ground (
      arith,
      reserve_script_counts p (source_minute s m) (ip_minute i n) (daily_budget d) amount
          (daily_budget e) db,
      reserve_script_verdict p (source_minute s m) (ip_minute i n) (daily_budget d) amount db refl
          refl refl,
      same_count (daily_budget d) (daily_budget e) db,
    )

    -- The daily counters alone: the amount is added to the day's if the answer is `granted`.
    pub script-daily :
        (e : ℕ)
        → let (verdict, db') =
            reserve_script p (source_minute s m) (ip_minute i n) (daily_budget d) amount db in
          count_of (daily_budget e) db'
          ≡ count_of (daily_budget e) db
            + (if is_granted verdict then if d == e then amount else 0 else 0)
    unfolding quota_key_eq
    script-daily e = ground (
      arith,
      reserve_script_counts p (source_minute s m) (ip_minute i n) (daily_budget d) amount
          (daily_budget e) db,
    )

  pub reserve-IsWithin :
      (source ip : String) (amount : ℤ) (now : ℕ) (db : Counters)
      → IsWithin p db
      → IsWithin p (reserve key_part p source ip amount now db).1
  unfolding reserve
  reserve-IsWithin source ip amount now db h k = ground (
    arith,
    h k,
    script-limit (key_part source) (key_part ip) (now / 60000) (now / 60000) (now / 86400000)
        (pos_part amount) db k,
  )

  pub release-IsWithin :
      (r : BudgetReservation) (db : Counters) → IsWithin p db → IsWithin p (release_budget r db)
  unfolding release_budget
  release-IsWithin r db h k =
      ground (arith, h k, release_script_counts r.daily_key k (pos_part r.amount) db)

  -- The counters, and the reservations that were granted and not given back.
  pub record Ledger : Type 0 where
    pub counters : Counters
    pub outstanding : List BudgetReservation

  -- The calls, and the end of a key's time to live.
  pub data Step : Ledger → Ledger → Type 0 where
    reserves :
        (l : Ledger) (source ip : String) (amount : ℤ) (now : ℕ) (r : BudgetReservation)
        → (reserve key_part p source ip amount now l.counters).0 ≡ ok r
        → Step l (record {
          counters = (reserve key_part p source ip amount now l.counters).1;
          outstanding = r ∷ l.outstanding;
        })
    refuses :
        (l : Ledger) (source ip : String) (amount : ℤ) (now : ℕ) (e : Thrown)
        → (reserve key_part p source ip amount now l.counters).0 ≡ err e
        → Step l (record l { counters = (reserve key_part p source ip amount now l.counters).1 })
    releases :
        (l : Ledger) (r : BudgetReservation) (front back : List BudgetReservation)
        → l.outstanding ≡ front ++ (r ∷ back)
        → Step l (record { counters = release_budget r l.counters; outstanding = front ++ back })
    lapses_minute :
        (l : Ledger) (k : QuotaKey)
        → ((d : ℕ) → (k == daily_budget d) ≡ false)
        → Step l (record l { counters = lapse k l.counters })
