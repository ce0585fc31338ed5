-- ===== src/Prelude/Dict.antt =====
-- Dictionaries, in order of insertion, for `Map`, for a table with a unique key and for Redis.
use mathlib.Core.Path.{◌≡◌, refl, ap}
use mathlib.Core.List.{List, [], ◌∷◌}
use mathlib.Core.Option.{Option, none, some}
use native.Mathlib.Omega.{arith}
use dike_monolith.Prelude.Tests.{Eq, ◌==◌, if◌then◌else◌, or_else}

module _ {ℓ κ} {K : Type ℓ} ⦃e : Eq K⦄ {V : Type κ} where
  unfoldable pub lookup : K → List (K × V) → Option V
  lookup key [] = none
  lookup key ((own, value) ∷ rest) = if own == key then some value else lookup key rest

  unfoldable pub insert : K → V → List (K × V) → List (K × V)
  insert key value ((own, old) ∷ rest) =
      if own == key then (key, value) ∷ rest else (own, old) ∷ insert key value rest
  insert key value [] = (key, value) ∷ []

  unfoldable pub erase : K → List (K × V) → List (K × V)
  erase key [] = []
  erase key ((own, old) ∷ rest) = if own == key then erase key rest else (own, old) ∷ erase key rest

  pub lookup-insert :
      (key other : K) (value : V) (m : List (K × V))
      → lookup other (insert key value m) ≡ (if key == other then some value else lookup other m)
  unfolding lookup insert
  lookup-insert key other value ((own, old) ∷ m) = ground (
    arith,
    lookup-insert key other value m,
    e.beq_iff key other,
    e.beq_iff own key,
    e.beq_iff own other,
  )
  lookup-insert key other value [] = refl

  pub lookup-erase :
      (k j : K) (m : List (K × V)) → lookup j (erase k m) ≡ (if k == j then none else lookup j m)
  unfolding lookup erase
  lookup-erase k j [] = ground arith
  lookup-erase k j ((i, w) ∷ m) =
      ground (arith, e.beq_iff k j, e.beq_iff i k, e.beq_iff i j, lookup-erase k j m)

  -- `ON CONFLICT … DO NOTHING`: the first value of a key stays.
  unfoldable pub insert_new : K → V → List (K × V) → List (K × V)
  insert_new k v m = elim (lookup k m) [ none ↦ insert k v m | some w ↦ m ]

  pub lookup-insert_new :
      (k j : K) (v : V) (m : List (K × V))
      → lookup j (insert_new k v m) ≡ (if k == j then some (or_else (lookup k m) v) else lookup j m)
  unfolding insert_new
  lookup-insert_new k j v m =
      ground (arith, lookup-insert k j v m, e.beq_iff k j, ap (λ i. lookup i m) {x = k} {y = j})

  pub insert_new-again :
      (k : K) (v w : V) (m : List (K × V)) → insert_new k w (insert_new k v m) ≡ insert_new k v m
  unfolding insert_new
  insert_new-again k v w m = ground (arith, lookup-insert k k v m, e.beq_iff k k)

  pub lookup-insert_same : (k : K) (v : V) (m : List (K × V)) → lookup k (insert k v m) ≡ some v
  lookup-insert_same k v m = ground (arith, lookup-insert k k v m, e.beq_iff k k)
