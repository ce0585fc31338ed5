-- ===== src/Sponsorship/Quota.antt =====
-- dike-services/src/sponsorship/quota.ts: the counters that Redis holds, the two scripts that it
-- runs, each at once, and the class that calls them. A counter is the text of a number that stays
-- below 2 ^ 53, where the numbers of Lua are exact.
pub mod Redis
pub mod Scripts
pub mod Limits
pub mod History
pub use Redis.{
  QuotaKey, source_minute, ip_minute, daily_budget, Counter, Counters, count_of, quota_key_eq,
}
use dike_monolith.Prelude.{ℕ, ◌+◌, ◌-◌, ◌/◌, String, if◌then◌else◌, ltb, ◌==◌, nat_eq}
use dike_monolith.Prelude.Int.{ℤ, pos, pos_part, leb_ℤ}
use dike_monolith.Sponsorship.Types.{
  Result, ok, fee_limit_exceeded, budget_exceeded, quota_exceeded, throw,
}
use Redis.{decr_by, set_ex, count_in}

-- `dailyBudgetStroops` is the number that the script reads in the configured text.
pub record QuotaPolicy : Type 0 where
  pub max_per_minute : ℕ
  pub max_per_ip_minute : ℕ
  pub daily_budget_stroops : ℕ
  pub ttl_seconds : ℕ

pub record BudgetReservation : Type 0 where
  pub daily_key : QuotaKey
  pub amount : ℤ

-- The second part of the tuple that the script returns, `ok` or why not.
pub data Verdict : Type 0 where
  granted source_full ip_full budget_full : Verdict

-- `2 * 24 * 60 * 60`.
abbrev pub two_days : ℕ
two_days = 172800

-- From `INCRBY KEYS[3]` on.
reserve_budget : QuotaPolicy → QuotaKey → QuotaKey → QuotaKey → ℕ → Counters → Verdict × Counters
reserve_budget p k₁ k₂ k₃ amount db =
    let counted = count_in k₃ amount two_days db in
    if ltb p.daily_budget_stroops (count_of k₃ counted)
    then (budget_full, decr_by k₃ amount (decr_by k₂ 1 (decr_by k₁ 1 counted)))
    else (granted, counted)

-- From `INCRBY KEYS[2]` on.
reserve_ip : QuotaPolicy → QuotaKey → QuotaKey → QuotaKey → ℕ → Counters → Verdict × Counters
reserve_ip p k₁ k₂ k₃ amount db =
    let counted = count_in k₂ 1 p.ttl_seconds db in
    if ltb p.max_per_ip_minute (count_of k₂ counted)
    then (ip_full, decr_by k₂ 1 (decr_by k₁ 1 counted))
    else reserve_budget p k₁ k₂ k₃ amount counted

-- `RESERVE_SCRIPT`.
pub reserve_script :
    QuotaPolicy → QuotaKey → QuotaKey → QuotaKey → ℕ → Counters → Verdict × Counters
unfolding reserve_ip reserve_budget
reserve_script p k₁ k₂ k₃ amount db =
    let counted = count_in k₁ 1 p.ttl_seconds db in
    if ltb p.max_per_minute (count_of k₁ counted)
    then (source_full, decr_by k₁ 1 counted)
    else reserve_ip p k₁ k₂ k₃ amount counted

-- `RELEASE_SCRIPT`: a value below zero becomes zero, for two days.
pub release_script : QuotaKey → ℕ → Counters → Counters
release_script k amount db =
    if ltb (count_of k db) amount then set_ex k 0 two_days db else decr_by k amount db

-- How a verdict comes back.
unfoldable pub verdict_result : Verdict → BudgetReservation → Result BudgetReservation
verdict_result granted r = ok r
verdict_result budget_full r = throw budget_exceeded "Sponsorship limit reached."
verdict_result source_full r = throw quota_exceeded "Sponsorship limit reached."
verdict_result ip_full r = throw quota_exceeded "Sponsorship limit reached."

-- The key of a source, an address and a time in milliseconds. The parts are what `keyPart` makes of
-- the texts; a day is counted from 1970, where the source writes its date.
abbrev pub source_key : String → ℕ → QuotaKey
source_key part now_ms = source_minute part (now_ms / 60000)

abbrev pub ip_key : String → ℕ → QuotaKey
ip_key part now_ms = ip_minute part (now_ms / 60000)

abbrev pub daily_key : ℕ → QuotaKey
daily_key now_ms = daily_budget (now_ms / 86400000)

-- `reserve`, with `keyPart` for its first argument.
unfoldable pub reserve :
    (String → String)
    → QuotaPolicy
    → String
    → String
    → ℤ
    → ℕ
    → Counters
    → Result BudgetReservation × Counters
reserve key_part p source ip amount now_ms db =
    if leb_ℤ amount (pos 0)
    then (throw fee_limit_exceeded "The declared fee must be positive.", db)
    else (let (verdict, db') =
          reserve_script p (source_key (key_part source) now_ms) (ip_key (key_part ip) now_ms)
            (daily_key now_ms) (pos_part amount) db in
        (verdict_result verdict (record { daily_key = daily_key now_ms; amount = amount }), db'))

-- `releaseBudget`.
unfoldable pub release_budget : BudgetReservation → Counters → Counters
release_budget r = release_script r.daily_key (pos_part r.amount)
