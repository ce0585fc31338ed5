-- ===== src/Migrations/Order.antt =====
-- The order in which `sort` of dike-services/src/db/migrations.ts leaves the names.
use Prim.Native.Nat.{Ordering, zero, suc, compare as compare_ℕ}
use Prim.Native.Nat.compare as compare_ℕ
use Prim.Native.Char.{code}
use Prim.Native.String.{compare, then}
use Prim.Native.String.compare
use mathlib.Core.List.{Perm}
use mathlib.Core.List.Perm
use dike_monolith.Prelude.{
  ℕ, ◌≡◌, refl, ap, sym, subst, ◌∙◌, true, false, List, [], ◌∷◌, String, arith, Bool-cases, inl,
  inr, keep,
}
use dike_monolith.Migrations.{is_before, insert_sorted, sort, ends_with, migration_files}

flip : Ordering → Ordering
flip Ordering.lt = Ordering.gt
flip Ordering.eq = Ordering.eq
flip Ordering.gt = Ordering.lt

then-flip : (o p : Ordering) → then (flip o) (flip p) ≡ flip (then o p)
unfolding flip
then-flip Ordering.lt p = refl
then-flip Ordering.eq p = refl
then-flip Ordering.gt p = refl

number_flip : (m n : ℕ) → compare_ℕ n m ≡ flip (compare_ℕ m n)
unfolding flip
number_flip zero zero = compare_ℕ.zero-zero ∙ ap flip (sym compare_ℕ.zero-zero)
number_flip zero (suc n) = compare_ℕ.suc-zero n ∙ ap flip (sym (compare_ℕ.zero-suc n))
number_flip (suc m) zero = compare_ℕ.zero-suc m ∙ ap flip (sym (compare_ℕ.suc-zero m))
number_flip (suc m) (suc n) =
    compare_ℕ.suc-suc n m ∙ number_flip m n ∙ ap flip (sym (compare_ℕ.suc-suc m n))

text_flip : (s t : String) → compare t s ≡ flip (compare s t)
unfolding flip
text_flip String.[] String.[] = compare.nil-nil ∙ ap flip (sym compare.nil-nil)
text_flip String.[] (String.◌∷◌ d t) = compare.cons-nil d t ∙ ap flip (sym (compare.nil-cons d t))
text_flip (String.◌∷◌ c s) String.[] = compare.nil-cons c s ∙ ap flip (sym (compare.cons-nil c s))
text_flip (String.◌∷◌ c s) (String.◌∷◌ d t) =
    compare.cons-cons d c t s
    ∙ rw (number_flip (code c) (code d), text_flip s t)
        (then-flip (compare_ℕ (code c) (code d)) (compare s t))
    ∙ ap flip (sym (compare.cons-cons c d s t))

before_flip : (o : Ordering) → is_before o ≡ false → is_before (flip o) ≡ true
unfolding is_before flip
before_flip Ordering.lt h = ground (arith, h)
before_flip Ordering.eq h = ground (arith, h)
before_flip Ordering.gt h = refl

-- Of two names one is before the other.
total : (f g : String) → is_before (compare f g) ≡ false → is_before (compare g f) ≡ true
total f g h = ap is_before (text_flip f g) ∙ before_flip (compare f g) h

-- No name is before the one that it follows.
abbrev pub IsAscending : List String → Type 0
IsAscending [] = Unit {0}
IsAscending (f ∷ []) = Unit {0}
IsAscending (f ∷ (g ∷ fs)) = (is_before (compare f g) ≡ true) × IsAscending (g ∷ fs)

inserted_first :
    (f g : String) (fs : List String)
    → is_before (compare f g) ≡ true
    → insert_sorted f (g ∷ fs) ≡ f ∷ (g ∷ fs)
unfolding insert_sorted
inserted_first f g fs y = rw y refl

inserted_later :
    (f g : String) (fs : List String)
    → is_before (compare f g) ≡ false
    → insert_sorted f (g ∷ fs) ≡ g ∷ insert_sorted f fs
unfolding insert_sorted
inserted_later f g fs n = rw n refl

-- What is inserted into a list with a head that is before both.
IsAscending-below :
    (f g : String) (fs : List String)
    → is_before (compare g f) ≡ true
    → IsAscending (g ∷ fs)
    → IsAscending (insert_sorted f fs)
    → IsAscending (g ∷ insert_sorted f fs)
unfolding insert_sorted
IsAscending-below f g [] h hs rest = (h, tt)
IsAscending-below f g (k ∷ fs) h (gk, hs) rest = elim (Bool-cases (is_before (compare f k))) [
  | inl y ↦ subst (λ l. IsAscending (g ∷ l)) (sym (inserted_first f k fs y)) (h, (y, hs))
  | inr n ↦
      subst (λ l. IsAscending (g ∷ l)) (sym (inserted_later f k fs n))
        (gk, subst IsAscending (inserted_later f k fs n) rest)
]

tail-IsAscending : (g : String) (fs : List String) → IsAscending (g ∷ fs) → IsAscending fs
tail-IsAscending g [] h = tt
tail-IsAscending g (k ∷ fs) (h, hs) = hs

IsAscending-insert_sorted :
    (f : String) (fs : List String) → IsAscending fs → IsAscending (insert_sorted f fs)
unfolding insert_sorted
IsAscending-insert_sorted f [] h = tt
IsAscending-insert_sorted f (g ∷ fs) h = elim (Bool-cases (is_before (compare f g))) [
  | inl y ↦ subst IsAscending (sym (inserted_first f g fs y)) (y, h)
  | inr n ↦ subst IsAscending (sym (inserted_later f g fs n)) (
      IsAscending-below f g fs (total f g n) h
        (IsAscending-insert_sorted f fs (tail-IsAscending g fs h)))
]

pub IsAscending-sort : (fs : List String) → IsAscending (sort fs)
unfolding sort
IsAscending-sort [] = tt
IsAscending-sort (f ∷ fs) = IsAscending-insert_sorted f (sort fs) (IsAscending-sort fs)

Perm-insert_sorted : (f : String) (fs : List String) → Perm (insert_sorted f fs) (f ∷ fs)
unfolding insert_sorted
Perm-insert_sorted f [] = Perm.rfl
Perm-insert_sorted f (g ∷ fs) = elim (Bool-cases (is_before (compare f g))) [
  | inl y ↦ rw (inserted_first f g fs y) Perm.rfl
  | inr n ↦
      rw (inserted_later f g fs n)
        (Perm.trans (Perm.cons g (Perm-insert_sorted f fs)) (Perm.swap f g fs))
]

Perm-sort : (fs : List String) → Perm (sort fs) fs
unfolding sort
Perm-sort [] = Perm.rfl
Perm-sort (f ∷ fs) = Perm.trans (Perm-insert_sorted f (sort fs)) (Perm.cons f (Perm-sort fs))

-- The files of a run: the names that end in `.sql`, each as often as it is listed, in their order.
pub IsAscending-migration_files :
    (names : List String)
    → IsAscending (migration_files names)
      × Perm (migration_files names) (keep (ends_with ".sql") names)
unfolding migration_files
IsAscending-migration_files names =
    (IsAscending-sort (keep (ends_with ".sql") names), Perm-sort (keep (ends_with ".sql") names))
