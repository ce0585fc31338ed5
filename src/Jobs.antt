-- ===== src/Jobs.antt =====
-- `discoverMarketIds` of dike-services/src/jobs/scheduled.ts. Market ids are natural numbers; the
-- factory's counter is none when the call throws or gives what is not a natural number.
pub mod Scheduled
pub mod Sweep
mod Tests
use dike_monolith.Prelude.{
  ℕ, zero, suc, ◌+◌, ◌-◌, ◌*◌, ◌≤◌, ◌<◌, ◌≡◌, ◌↔◌, ◌⊎◌, inl, inr, refl, Bool, true, false, ◌&&◌,
  ◌||◌, not, Option, none, some, List, [], ◌∷◌, ◌==◌, nat_eq, if◌then◌else◌, ltb, arith, Bool-cases,
  ap, sym, subst, ◌∙◌,
}

unfoldable pub has : ℕ → List ℕ → Bool
has x [] = false
has x (y ∷ ys) = (x == y) || has x ys

-- `Set.add`, that keeps the order of insertion.
unfoldable pub add : ℕ → List ℕ → List ℕ
add x [] = x ∷ []
add x (y ∷ ys) = let rest = add x ys in if x == y then y ∷ ys else y ∷ rest

-- `new Set(ids)`, the ids read from the front.
unfoldable pub add_all : List ℕ → List ℕ → List ℕ
add_all [] set = set
add_all (x ∷ xs) set = add_all xs (add x set)

-- The loop from 1 up to a number.
unfoldable pub add_up_to : ℕ → List ℕ → List ℕ
add_up_to zero set = set
add_up_to (suc n) set = add (suc n) (add_up_to n set)

abbrev pub max_safe_integer : ℕ
max_safe_integer = 9007199254740991

unfoldable pub discover_market_ids : Option ℕ → List ℕ → List ℕ
discover_market_ids none known = known
discover_market_ids (some next) known =
    if ltb next 1 || ltb max_safe_integer next
    then known
    else add_up_to (next - 1) (add_all known [])

-- No id occurs twice.
abbrev pub Distinct : List ℕ → Type 0
Distinct [] = Unit
Distinct (x ∷ xs) = (has x xs ≡ false) × Distinct xs

has-add : (y x : ℕ) (s : List ℕ) → has y (add x s) ≡ ((y == x) || has y s)
unfolding has add
has-add y x [] = ground arith
has-add y x (z ∷ s) = ground (arith, has-add y x s)

has-add_all : (y : ℕ) (xs s : List ℕ) → has y (add_all xs s) ≡ (has y xs || has y s)
unfolding has add_all
has-add_all y [] s = refl
has-add_all y (x ∷ xs) s = ground (arith, has-add_all y xs (add x s), has-add y x s)

has-add_up_to :
    (y n : ℕ) (s : List ℕ) → has y (add_up_to n s) ≡ ((ltb 0 y && not (ltb n y)) || has y s)
unfolding add_up_to
has-add_up_to y zero s = ground arith
has-add_up_to y (suc n) s = ground (arith, has-add_up_to y n s, has-add y (suc n) (add_up_to n s))

add-Distinct : (x : ℕ) (s : List ℕ) → Distinct s → Distinct (add x s)
unfolding has add
add-Distinct x [] d = (refl, tt)
add-Distinct x (z ∷ s) (h, d) = elim (Bool-cases (x == z)) [
  | inl e ↦ ground (arith, e, h, d)
  | inr e ↦
      ground
        (arith, e, h, has-add z x s, add-Distinct x s d, nat_eq.beq_iff x z, nat_eq.beq_iff z x)
]

add_all-Distinct : (xs s : List ℕ) → Distinct s → Distinct (add_all xs s)
unfolding add_all
add_all-Distinct [] s d = d
add_all-Distinct (x ∷ xs) s d = add_all-Distinct xs (add x s) (add-Distinct x s d)

add_up_to-Distinct : (n : ℕ) (s : List ℕ) → Distinct s → Distinct (add_up_to n s)
unfolding add_up_to
add_up_to-Distinct zero s d = d
add_up_to-Distinct (suc n) s d = add-Distinct (suc n) (add_up_to n s) (add_up_to-Distinct n s d)

discovered :
    (next : ℕ) (known : List ℕ)
    → 1 ≤ next
    → next ≤ max_safe_integer
    → discover_market_ids (some next) known ≡ add_up_to (next - 1) (add_all known [])
unfolding discover_market_ids
discovered next known h k = ground (arith, h, k)

-- With a factory's counter of at least 1 that is a safe integer, the ids to reconcile are, without
-- repetition, those known and every id from 1 to below the counter, and no other.
pub discovers :
    (next : ℕ) (known : List ℕ)
    → 1 ≤ next
    → next ≤ max_safe_integer
    → ((y : ℕ)
        → (has y (discover_market_ids (some next) known) ≡ true)
          ↔ ((has y known ≡ true) ⊎ ((1 ≤ y) × (y < next))))
      × Distinct (discover_market_ids (some next) known)
unfolding has
discovers next known h k = (
  λ y. ground (
    arith,
    h,
    k,
    discovered next known h k,
    has-add_up_to y (next - 1) (add_all known []),
    has-add_all y known [],
  ),
  subst Distinct (sym (discovered next known h k))
      (add_up_to-Distinct (next - 1) (add_all known []) (add_all-Distinct known [] tt)),
)
