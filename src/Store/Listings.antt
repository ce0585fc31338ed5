-- ===== src/Store/Listings.antt =====
-- The listings of dike-services/src/db/repositories/state-repository.ts that the scheduled jobs read. The rows of a
-- listing that the statement does not order come in the order of insertion, and an id is an integer.
use dike_monolith.Prelude.{
  ℕ, Bool, false, Option, none, some, List, [], ◌∷◌, map, String, string_eq, if◌then◌else◌, ltb,
  keep,
}
use dike_monolith.Prelude.Int.{ℤ, pos, negsuc}
use dike_monolith.Prelude.Dict.{lookup}
use dike_monolith.Store.Values.{SqlValue, same_value}
use dike_monolith.Store.Tables.{
  Table, markets, pools, timelock_actions, user_positions, lp_positions,
}
use dike_monolith.Store.Upserts.{Columns, includes}
use dike_monolith.Store.Database.{Database}

-- Whether a column of a row holds the value.
unfoldable pub holds : String → SqlValue → Columns → Bool
holds column value row = elim (lookup column row) [ none ↦ false | some v ↦ same_value v value ]

unfoldable pub rows_of : String → Table → Database → List Columns
rows_of network t db = keep (holds "network" (SqlValue.text network)) (map (λ r. r.1) (db.tables t))

-- `Number` of a column; an id that is not a natural number is none.
unfoldable pub natural_of : (String → Option ℤ) → SqlValue → Option ℕ
natural_of to_number (SqlValue.number (pos n)) = some n
natural_of to_number (SqlValue.text s) = elim (to_number s) [
  | none ↦ none
  | some (pos n) ↦ some n
  | some (negsuc n) ↦ none
]
natural_of to_number SqlValue.null = some 0
natural_of to_number _ = none

module _ (to_number : String → Option ℤ) where
  unfoldable pub id_at : String → Columns → Option ℕ
  id_at column row = elim (lookup column row) [ none ↦ some 0 | some v ↦ natural_of to_number v ]

  unfoldable pub ids_at : String → List Columns → List ℕ
  ids_at column [] = []
  ids_at column (r ∷ rs) = elim (id_at column r) [
    | none ↦ ids_at column rs
    | some n ↦ n ∷ ids_at column rs
  ]

  -- `ORDER BY … DESC`.
  unfoldable pub insert_descending : ℕ → List ℕ → List ℕ
  insert_descending n [] = n ∷ []
  insert_descending n (m ∷ ms) =
      let rest = insert_descending n ms in if ltb n m then m ∷ rest else n ∷ (m ∷ ms)

  unfoldable pub descending : List ℕ → List ℕ
  descending [] = []
  descending (n ∷ ns) = insert_descending n (descending ns)

  unfoldable pub list_known_market_ids : String → Database → List ℕ
  list_known_market_ids network db = descending (ids_at "market_id" (rows_of network markets db))

  unfoldable pub list_known_timelock_action_ids : String → Database → List ℕ
  list_known_timelock_action_ids network db =
      descending (ids_at "action_id" (rows_of network timelock_actions db))

  -- The pairs of a market and its pool.
  unfoldable pub pairs_of : List Columns → List (ℕ × ℕ)
  pairs_of [] = []
  pairs_of (r ∷ rs) = elim (id_at "market_id" r) [
    | none ↦ pairs_of rs
    | some market ↦ elim (id_at "pool_id" r) [
      | none ↦ pairs_of rs
      | some pool ↦ (market, pool) ∷ pairs_of rs
    ]
  ]

  unfoldable pub list_known_market_pools : String → Database → List (ℕ × ℕ)
  list_known_market_pools network db = pairs_of (rows_of network pools db)

-- The texts of the column `owner`, each once.
unfoldable pub owners : List Columns → List String
owners [] = []
owners (r ∷ rs) =
    let rest = owners rs in
    elim (lookup "owner" r) [
      | some (SqlValue.text s) ↦ if includes rest s then rest else s ∷ rest
      | _ ↦ rest
    ]

unfoldable pub list_known_position_owners : String → ℕ → Database → List String
list_known_position_owners network market db =
    owners
      (keep (holds "market_id" (SqlValue.number (pos market))) (rows_of network user_positions db))

unfoldable pub list_known_lp_owners : String → ℕ → Database → List String
list_known_lp_owners network pool db =
    owners (keep (holds "pool_id" (SqlValue.number (pos pool))) (rows_of network lp_positions db))
