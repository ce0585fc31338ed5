-- ===== src/Store/Upserts/Laws.antt =====
-- What the upserts of dike-services/src/db/repositories/state-repository.ts do to a table.
use dike_monolith.Prelude.{
  ap, ◌≡◌, ◌↔◌, ◌≢◌, refl, sym, ◌∙◌, inl, inr, List-cases, true, List, [], ◌∷◌, String, ◌==◌, Bool,
  false, Option, some, none, string_eq, if◌then◌else◌, keep, arith, All,
}
use dike_monolith.Store.Values.{SqlValue}
use dike_monolith.Store.Tables.{Table, allowed_columns, not_null_columns}
use dike_monolith.Store.Upserts.{
  Columns, RowKey, row_key_eq, Rows, Upserted, ok, err, includes, invalid_keys, check_spec,
  build_upsert_spec, key_of, write, write_spec, execute, refuses, null_columns, null_column, upsert,
  value_of, given, or_keep, value_of-write,
}

abbrev pub IsAllowed : Table → String × SqlValue → Type 0
IsAllowed t c = includes (allowed_columns t) c.0 ≡ true

-- With no invalid key the filter keeps every entry.
keep_valid :
    (allowed : List String) (s : Columns)
    → invalid_keys allowed s ≡ []
    → keep (λ c. includes allowed c.0) s ≡ s
unfolding invalid_keys
keep_valid allowed [] h = refl
keep_valid allowed ((k, v) ∷ cs) h = ground (arith, keep_valid allowed cs)

invalid_keys_nil :
    (allowed : List String) (s : Columns)
    → (invalid_keys allowed s ≡ []) ↔ All (λ c. includes allowed c.0 ≡ true) s
unfolding invalid_keys
invalid_keys_nil allowed [] = ground arith
invalid_keys_nil allowed ((k, v) ∷ cs) = ground (arith, invalid_keys_nil allowed cs)

spec_valid :
    (t : Table) (s : Columns)
    → invalid_keys (allowed_columns t) s ≡ []
    → build_upsert_spec t s ≡ check_spec t [] s
unfolding build_upsert_spec
spec_valid t s valid = rw (valid, keep_valid (allowed_columns t) s valid) refl

check_spec-eq_ok : (t : Table) (s cs : Columns) → check_spec t [] s ≡ ok cs → (s ≢ []) × (cs ≡ s)
unfolding check_spec
check_spec-eq_ok t [] cs h = cc
check_spec-eq_ok t (c ∷ s) cs h = (λ e. cc, cc)

check_spec_ok : (t : Table) (s : Columns) → s ≢ [] → check_spec t [] s ≡ ok s
unfolding check_spec
check_spec_ok t [] ne = absurd (ne refl)
check_spec_ok t (c ∷ s) ne = refl

spec_sound :
    (t : Table) (s cs : Columns)
    → build_upsert_spec t s ≡ ok cs
    → (s ≢ []) × All (IsAllowed t) s × (cs ≡ s)
unfolding build_upsert_spec
spec_sound t s cs h = elim (List-cases (invalid_keys (allowed_columns t) s)) [
  | inl valid ↦
      let (full, same) = check_spec-eq_ok t s cs (sym (spec_valid t s valid) ∙ h) in
      (full, (invalid_keys_nil (allowed_columns t) s).0 valid, same)
  | inr (k, ks, bad) ↦ absurd (ground arith)
]

spec_complete :
    (t : Table) (s : Columns) → s ≢ [] → All (IsAllowed t) s → build_upsert_spec t s ≡ ok s
spec_complete t s ne h =
    spec_valid t s ((invalid_keys_nil (allowed_columns t) s).1 h) ∙ check_spec_ok t s ne

-- What `NOT NULL` asks of a column: it is not given as null, and it is given unless it has a default.
abbrev pub IsFilled : Columns → String × Bool → Type 0
IsFilled s n = (given n.0 s ≢ some SqlValue.null) × (n.1 ≡ false → given n.0 s ≢ none)

refuses_iff :
    (default : Bool) (v : Option SqlValue)
    → (refuses default v ≡ false) ↔ ((v ≢ some SqlValue.null) × (default ≡ false → v ≢ none))
unfolding refuses
refuses_iff true none = ground arith
refuses_iff false none = ground arith
refuses_iff default (some SqlValue.null) = ground arith
refuses_iff default (some (SqlValue.text s)) = ground arith
refuses_iff default (some (SqlValue.number n)) = ground arith
refuses_iff default (some (SqlValue.boolean b)) = ground arith

kept_nil :
    (s : Columns) (ns : List (String × Bool))
    → (keep (λ n. refuses n.1 (given n.0 s)) ns ≡ []) ↔ All (IsFilled s) ns
kept_nil s [] = ground arith
kept_nil s ((c, default) ∷ ns) = ground (arith, kept_nil s ns, refuses_iff default (given c s))

null_columns_nil :
    (t : Table) (s : Columns) → (null_columns t s ≡ []) ↔ All (IsFilled s) (not_null_columns t)
unfolding null_columns
null_columns_nil t s = kept_nil s (not_null_columns t)

execute-eq_ok :
    (t : Table) (ns : List (String × Bool)) (cs : Columns) (rows rows' : Rows)
    → execute t ns cs rows ≡ ok rows'
    → (ns ≡ []) × (rows' ≡ write (key_of t cs) cs rows)
execute-eq_ok t [] cs rows rows' h = (refl, cc)
execute-eq_ok t (n ∷ ns) cs rows rows' h = cc

write_spec-eq_ok :
    (t : Table) (u : Upserted Columns) (rows rows' : Rows)
    → write_spec t u rows ≡ ok rows'
    → (cs : Columns) × (u ≡ ok cs)
      × (null_columns t cs ≡ [])
      × (rows' ≡ write (key_of t cs) cs rows)
write_spec-eq_ok t (ok cs) rows rows' h =
    let (filled, written) = execute-eq_ok t (null_columns t cs) cs rows rows' h in
    (cs, refl, filled, written)
write_spec-eq_ok t (err e) rows rows' h = cc

-- What an upsert that succeeds has written.
upsert_written :
    (t : Table) (s : Columns) (rows rows' : Rows)
    → upsert t s rows ≡ ok rows'
    → (s ≢ []) × All (IsAllowed t) s × (null_columns t s ≡ []) × (rows' ≡ write (key_of t s) s rows)
unfolding upsert
upsert_written t s rows rows' h =
    let (cs, spec, filled, written) = write_spec-eq_ok t (build_upsert_spec t s) rows rows' h in
    let (full, allowed, same) = spec_sound t s cs spec in
    (full, allowed, rw (← same) filled, rw (← same) written)

-- A summary that the builder takes as it is, and that fills the columns of its table, is written.
pub upsert_taken :
    (t : Table) (s : Columns) (rows : Rows)
    → build_upsert_spec t s ≡ ok s
    → null_columns t s ≡ []
    → upsert t s rows ≡ ok (write (key_of t s) s rows)
unfolding upsert
upsert_taken t s rows h k = ap (λ u. write_spec t u rows) h ∙ ap (λ ns. execute t ns s rows) k

-- One that leaves a column null is refused.
pub upsert_refused :
    (t : Table) (s : Columns) (rows : Rows) (n : String × Bool) (ns : List (String × Bool))
    → build_upsert_spec t s ≡ ok s
    → null_columns t s ≡ n ∷ ns
    → upsert t s rows ≡ err (null_column t n.0)
unfolding upsert
upsert_refused t s rows n ns h k =
    ap (λ u. write_spec t u rows) h ∙ ap (λ ms. execute t ms s rows) k

-- An upsert is accepted exactly if the summary gives a column, and only columns of the table, and a value
-- to each column that is declared NOT NULL: none of them is given as null, and those without a default, with
-- those of the primary key, are given.
pub upsert_iff :
    (t : Table) (s : Columns) (rows : Rows)
    → ((rows' : Rows) × (upsert t s rows ≡ ok rows'))
      ↔ ((s ≢ []) × All (IsAllowed t) s × All (IsFilled s) (not_null_columns t))
upsert_iff t s rows = (
  λ (w : (rows' : Rows) × (upsert t s rows ≡ ok rows')).
      let (full, allowed, filled, _) = upsert_written t s rows w.0 w.1 in
      (full, allowed, (null_columns_nil t s).0 filled),
  λ (full, allowed, filled). (
    write (key_of t s) s rows,
    upsert_taken t s rows (spec_complete t s full allowed) ((null_columns_nil t s).1 filled),
  ),
)

-- After an upsert that succeeds, the row of its key holds what was given in the columns given and what
-- it held before in the others, and every other row is as it was.
pub upsert_values :
    (t : Table) (s : Columns) (rows rows' : Rows)
    → upsert t s rows ≡ ok rows'
    → (key : RowKey) (c : String)
    → value_of key c rows' ≡ (
        if key_of t s == key
        then or_keep (given c s) (value_of key c rows)
        else value_of key c rows)
upsert_values t s rows rows' h key c =
    let (_, _, _, written) = upsert_written t s rows rows' h in
    rw written (value_of-write (key_of t s) key c s rows)

-- An upsert that succeeds succeeds again on what it left, and changes no value of any row.
pub upsert_again :
    (t : Table) (s : Columns) (rows rows' : Rows)
    → upsert t s rows ≡ ok rows'
    → (rows'' : Rows) × (upsert t s rows' ≡ ok rows'')
      × ((key : RowKey) (c : String) → value_of key c rows'' ≡ value_of key c rows')
upsert_again t s rows rows' h =
    let (full, allowed, filled, _) = upsert_written t s rows rows' h in
    let again = upsert_taken t s rows' (spec_complete t s full allowed) filled in
    (
      write (key_of t s) s rows',
      again,
      λ key c. ground (
        arith,
        upsert_values t s rows rows' h key c,
        upsert_values t s rows' (write (key_of t s) s rows') again key c,
      ),
    )
