-- ===== src/Sponsorship/Quota/Redis.antt =====
-- The keys of dike-services/src/sponsorship/quota.ts and the Redis commands on their counters.
use dike_monolith.Prelude.{
  ℕ, ◌+◌, ◌-◌, ◌≡◌, ap, ◌∙◌, ◌↔◌, Bool, true, false, ◌&&◌, Option, none, some, List, [], refl,
  String, arith, Eq, ◌==◌, string_eq, nat_eq, if◌then◌else◌,
}
use dike_monolith.Prelude.Dict.{lookup, insert, erase, lookup-insert, lookup-erase}

-- The texts `dike:sponsor:source:…`, `dike:sponsor:ip:…` and `dike:sponsor:budget:…`. The parts
-- are percent-encoded, so that two keys of different parts are different texts.
pub data QuotaKey : Type 0 where
  source_minute : String → ℕ → QuotaKey
  ip_minute : String → ℕ → QuotaKey
  daily_budget : ℕ → QuotaKey

unfoldable pub same_key : QuotaKey → QuotaKey → Bool
same_key (source_minute s m) (source_minute s' m') = s == s' && m == m'
same_key (ip_minute s m) (ip_minute s' m') = s == s' && m == m'
same_key (daily_budget d) (daily_budget d') = d == d'
same_key _ _ = false

pub same_key_iff : (k j : QuotaKey) → (same_key k j ≡ Bool.true) ↔ (k ≡ j)
unfolding same_key
same_key_iff (source_minute s m) (source_minute s' m') = ground (arith, string_eq.beq_iff s s')
same_key_iff (source_minute s m) (ip_minute s' m') = ground arith
same_key_iff (source_minute s m) (daily_budget d) = ground arith
same_key_iff (ip_minute s m) (source_minute s' m') = ground arith
same_key_iff (ip_minute s m) (ip_minute s' m') = ground (arith, string_eq.beq_iff s s')
same_key_iff (ip_minute s m) (daily_budget d) = ground arith
same_key_iff (daily_budget d) (source_minute s' m') = ground arith
same_key_iff (daily_budget d) (ip_minute s' m') = ground arith
same_key_iff (daily_budget d) (daily_budget d') = ground arith

instance unfoldable pub quota_key_eq : Eq QuotaKey
unfolding same_key
quota_key_eq = record { beq = same_key; beq_iff = same_key_iff }

pub record Counter : Type 0 where
  pub count : ℕ
  -- The seconds of the last `EXPIRE` or `EX`.
  pub ttl : Option ℕ

abbrev pub Counters : Type 0
Counters = List (QuotaKey × Counter)

-- A key that is not there counts as zero.
abbrev value : Option Counter → ℕ
value none = 0
value (some c) = c.count

abbrev lifetime : Option Counter → Option ℕ
lifetime none = none
lifetime (some c) = c.ttl

pub count_of : QuotaKey → Counters → ℕ
count_of k db = value (lookup k db)

-- `INCRBY`.
pub incr_by : QuotaKey → ℕ → Counters → Counters
incr_by k n db = insert k (record { count = count_of k db + n; ttl = lifetime (lookup k db) }) db

-- `DECRBY`, where the value does not fall below zero.
pub decr_by : QuotaKey → ℕ → Counters → Counters
decr_by k n db = insert k (record { count = count_of k db - n; ttl = lifetime (lookup k db) }) db

-- `EXPIRE`, of a key that is there.
pub expire : QuotaKey → ℕ → Counters → Counters
expire k seconds db = insert k (record { count = count_of k db; ttl = some seconds }) db

-- `SET … EX`.
pub set_ex : QuotaKey → ℕ → ℕ → Counters → Counters
set_ex k n seconds db = insert k (record { count = n; ttl = some seconds }) db

-- A key whose time is over.
pub lapse : QuotaKey → Counters → Counters
lapse = erase

-- `INCRBY`, and an `EXPIRE` where the key is new: the value is then the amount added.
pub count_in : QuotaKey → ℕ → ℕ → Counters → Counters
count_in k n seconds db =
    let counted = incr_by k n db in
    if count_of k counted == n then expire k seconds counted else counted

module _ (k j : QuotaKey) (db : Counters) where
  pub same_count : (k == j) ≡ true → count_of k db ≡ count_of j db
  same_count h = ap (λ i. count_of i db) ((quota_key_eq.beq_iff k j).0 h)

  count_of-insert :
      (c : Counter) → count_of j (insert k c db) ≡ (if k == j then c.count else count_of j db)
  unfolding count_of
  count_of-insert c = ground (arith, lookup-insert k j c db)

  pub count_of-incr_by :
      (n : ℕ) → count_of j (incr_by k n db) ≡ count_of j db + (if k == j then n else 0)
  unfolding incr_by
  count_of-incr_by n = count_of-insert _ ∙ ground (arith, same_count)

  pub count_of-decr_by :
      (n : ℕ) → count_of j (decr_by k n db) ≡ count_of j db - (if k == j then n else 0)
  unfolding decr_by
  count_of-decr_by n = count_of-insert _ ∙ ground (arith, same_count)

  pub count_of-expire : (seconds : ℕ) → count_of j (expire k seconds db) ≡ count_of j db
  unfolding expire
  count_of-expire seconds = count_of-insert _ ∙ ground (arith, same_count)

  pub count_of-set_ex :
      (n seconds : ℕ) → count_of j (set_ex k n seconds db) ≡ (if k == j then n else count_of j db)
  unfolding set_ex
  count_of-set_ex n seconds = count_of-insert _

  pub count_of-lapse : count_of j (lapse k db) ≡ (if k == j then 0 else count_of j db)
  unfolding count_of lapse
  count_of-lapse = ground (arith, lookup-erase k j db)

pub count_of-count_in :
    (k j : QuotaKey) (n seconds : ℕ) (db : Counters)
    → count_of j (count_in k n seconds db) ≡ count_of j db + (if k == j then n else 0)
unfolding count_in
count_of-count_in k j n seconds db =
    ground (arith, count_of-expire k j (incr_by k n db) seconds, count_of-incr_by k j db n)

pub count_of-nil : (k : QuotaKey) → count_of k [] ≡ 0
unfolding count_of lookup
count_of-nil k = refl
