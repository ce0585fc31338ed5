-- ===== src/Sponsorship/Quota/Scripts.antt =====
-- What the two scripts of dike-services/src/sponsorship/quota.ts do to the counters.
use dike_monolith.Prelude.{
  ℕ, ◌+◌, ◌-◌, ◌≡◌, Bool, true, false, arith, if◌then◌else◌, ltb, ◌==◌, nat_eq, ==_refl,
}
use dike_monolith.Sponsorship.Quota.Redis.{
  QuotaKey, quota_key_eq, Counters, count_of, count_of-decr_by, count_of-set_ex, count_in,
  count_of-count_in, same_count,
}
use dike_monolith.Sponsorship.Quota.{
  QuotaPolicy, Verdict, granted, source_full, ip_full, budget_full, reserve_script, release_script,
}

-- The answer, from the counters alone.
abbrev pub verdict_of : QuotaPolicy → ℕ → ℕ → ℕ → ℕ → Verdict
verdict_of p of_source of_ip daily amount =
    if ltb p.max_per_minute (of_source + 1)
    then source_full
    else if ltb p.max_per_ip_minute (of_ip + 1)
    then ip_full
    else if ltb p.daily_budget_stroops (daily + amount)
    then budget_full
    else granted

abbrev pub is_granted : Verdict → Bool
is_granted granted = true
is_granted _ = false

same : (k : QuotaKey) → (k == k) ≡ true
same k = ==_refl k

module _ (p : QuotaPolicy) (k₁ k₂ k₃ : QuotaKey) (amount : ℕ) where
  -- For three keys that differ, the answer follows from the three counters.
  pub reserve_script_verdict :
      (db : Counters)
      → (k₁ == k₂) ≡ false
      → (k₁ == k₃) ≡ false
      → (k₂ == k₃) ≡ false
      → (reserve_script p k₁ k₂ k₃ amount db).0
        ≡ verdict_of p (count_of k₁ db) (count_of k₂ db) (count_of k₃ db) amount
  unfolding reserve_script
  reserve_script_verdict db a b c = simp (count_of-count_in, same, a, b, c) (ground arith)

  -- A reservation that is granted adds its charge to each counter; one that is not leaves every
  -- counter as it was.
  pub reserve_script_counts :
      (j : QuotaKey) (db : Counters)
      → let (verdict, db') = reserve_script p k₁ k₂ k₃ amount db in
        count_of j db' ≡ (
          if is_granted verdict
          then count_of j db
            + ((if k₁ == j then 1 else 0)
                + (if k₂ == j then 1 else 0)
                + (if k₃ == j then amount else 0))
          else count_of j db)
  unfolding reserve_script
  reserve_script_counts j db = grind (arith, count_of-count_in, count_of-decr_by)

pub release_script_counts :
    (k j : QuotaKey) (amount : ℕ) (db : Counters)
    → count_of j (release_script k amount db) ≡ count_of j db - (if k == j then amount else 0)
unfolding release_script
release_script_counts k j amount db =
    grind (
      arith, count_of-set_ex, count_in, count_of-count_in, same_count, count_of-decr_by, same_count,
    )
