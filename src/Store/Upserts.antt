-- ===== src/Store/Upserts.antt =====
-- The upserts of dike-services/src/db/repositories/state-repository.ts that `buildUpsertSpec` serves:
-- the row of the key is updated in the columns given, or inserted with them.
pub mod Laws
mod Tests
use dike_monolith.Prelude.{
  ◌≡◌, ◌↔◌, ◌≢◌, refl, ap, ◌⊎◌, inl, inr, Bool, true, false, not, ◌&&◌, ◌||◌, Option, none, some,
  List, [], ◌∷◌, ◌++◌, map, String, Eq, ◌==◌, string_eq, ==_refl, if◌then◌else◌, keep, arith,
  Bool-cases, Option-cases, or_else,
}
use dike_monolith.Prelude.Dict.{lookup, insert, lookup-insert}
use dike_monolith.Store.Values.{SqlValue, same_value, same_value_iff}
use dike_monolith.Store.Tables.{Table, allowed_columns, key_columns, not_null_columns}

pub data UpsertError : Type 0 where
  unexpected_columns : Table → List String → UpsertError
  no_columns : Table → UpsertError
  -- The database's refusal of a row.
  null_column : Table → String → UpsertError

pub data Upserted (A : Type 0) : Type 0 where
  ok : A → Upserted A
  err : UpsertError → Upserted A

-- `Object.entries` of a summary.
abbrev pub Columns : Type 0
Columns = List (String × SqlValue)

-- The values of the columns of the conflict clause.
abbrev pub RowKey : Type 0
RowKey = List (Option SqlValue)

abbrev pub Rows : Type 0
Rows = List (RowKey × Columns)

same_key : RowKey → RowKey → Bool
same_key [] [] = true
same_key (none ∷ ks) (none ∷ js) = same_key ks js
same_key (some v ∷ ks) (some w ∷ js) = same_value v w && same_key ks js
same_key _ _ = false

same_key_iff : (ks js : RowKey) → (same_key ks js ≡ true) ↔ (ks ≡ js)
unfolding same_key
same_key_iff [] [] = ground arith
same_key_iff [] (j ∷ js) = ground arith
same_key_iff (none ∷ ks) [] = ground arith
same_key_iff (some v ∷ ks) [] = ground arith
same_key_iff (none ∷ ks) (none ∷ js) = ground (arith, same_key_iff ks js)
same_key_iff (none ∷ ks) (some w ∷ js) = ground arith
same_key_iff (some v ∷ ks) (none ∷ js) = ground arith
same_key_iff (some v ∷ ks) (some w ∷ js) = ground (arith, same_value_iff v w, same_key_iff ks js)

instance pub row_key_eq : Eq RowKey
row_key_eq = record { beq = same_key; beq_iff = same_key_iff }

-- `Array.prototype.includes`.
unfoldable pub includes : List String → String → Bool
includes [] x = false
includes (y ∷ ys) x = y == x || includes ys x

-- The keys that are not allowed.
unfoldable pub invalid_keys : List String → Columns → List String
invalid_keys allowed [] = []
invalid_keys allowed ((k, v) ∷ cs) =
    if includes allowed k then invalid_keys allowed cs else k ∷ invalid_keys allowed cs

-- The tests, on the invalid keys and the entries that are allowed.
unfoldable pub check_spec : Table → List String → Columns → Upserted Columns
check_spec t (k ∷ ks) entries = err (unexpected_columns t (k ∷ ks))
check_spec t [] [] = err (no_columns t)
check_spec t [] (c ∷ cs) = ok (c ∷ cs)

-- `buildUpsertSpec`: the columns and values of the statement.
unfoldable pub build_upsert_spec : Table → Columns → Upserted Columns
unfolding check_spec
build_upsert_spec t summary =
    check_spec t (invalid_keys (allowed_columns t) summary)
      (keep (λ c. includes (allowed_columns t) c.0) summary)

-- `SET column = EXCLUDED.column, …`.
pub assign : Columns → Columns → Columns
assign [] row = row
assign ((k, v) ∷ cs) row = assign cs (insert k v row)

unfoldable pub key_of : Table → Columns → RowKey
key_of t cs = map (λ k. lookup k cs) (key_columns t)

-- `INSERT … ON CONFLICT … DO UPDATE`.
pub write : RowKey → Columns → Rows → Rows
write key cs rows = insert key (assign cs (or_else (lookup key rows) [])) rows

-- The value that a summary gives to a column; of two the later.
unfoldable pub given : String → Columns → Option SqlValue
given c [] = none
given c ((k, v) ∷ cs) = elim (given c cs) [
  | some w ↦ some w
  | none ↦ if k == c then some v else none
]

-- Whether `NOT NULL` refuses what is given of a column, with or without a default.
unfoldable pub refuses : Bool → Option SqlValue → Bool
refuses default none = not default
refuses default (some SqlValue.null) = true
refuses default (some v) = false

unfoldable pub null_columns : Table → Columns → List (String × Bool)
null_columns t cs = keep (λ n. refuses n.1 (given n.0 cs)) (not_null_columns t)

-- The statement: the tuple that it inserts is tested first, also where the row is there already.
abbrev execute : Table → List (String × Bool) → Columns → Rows → Upserted Rows
execute t (n ∷ ns) cs rows = err (null_column t n.0)
execute t [] cs rows = ok (write (key_of t cs) cs rows)

abbrev write_spec : Table → Upserted Columns → Rows → Upserted Rows
write_spec t (err e) rows = err e
write_spec t (ok cs) rows = execute t (null_columns t cs) cs rows

pub upsert : Table → Columns → Rows → Upserted Rows
upsert t summary rows = write_spec t (build_upsert_spec t summary) rows

-- What a column of a row holds.
pub value_of : RowKey → String → Rows → Option SqlValue
value_of key c rows = lookup c (or_else (lookup key rows) [])

abbrev pub or_keep : Option SqlValue → Option SqlValue → Option SqlValue
or_keep (some v) old = some v
or_keep none old = old

lookup-assign :
    (c : String) (cs row : Columns) → lookup c (assign cs row) ≡ or_keep (given c cs) (lookup c row)
unfolding assign given
lookup-assign c [] row = refl
lookup-assign c ((k, v) ∷ cs) row =
    ground (arith, lookup-assign c cs (insert k v row), lookup-insert k c v row)

pub value_of-write :
    (key j : RowKey) (c : String) (cs : Columns) (rows : Rows)
    → value_of j c (write key cs rows)
      ≡ (if key == j then or_keep (given c cs) (value_of j c rows) else value_of j c rows)
unfolding value_of write
value_of-write key j c cs rows = ground (
  arith,
  lookup-insert key j (assign cs (or_else (lookup key rows) [])) rows,
  lookup-assign c cs (or_else (lookup key rows) []),
  row_key_eq.beq_iff key j,
)
