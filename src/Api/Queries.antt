-- ===== src/Api/Queries.antt =====
-- What dike-services/src/api/request-validation.ts accepts.
use dike_monolith.Prelude.{
  ℕ, ◌≡◌, ◌≢◌, ◌≤◌, ◌↔◌, ◌⊎◌, inl, inr, refl, ap, sym, subst, arith, true, Option, none, some,
  String, string_eq, or_else,
}
use dike_monolith.Store.Values.{JsValue}
use dike_monolith.Task.{Ended, returned, threw, or_default}
use dike_monolith.Api.Validation.{
  is_decimal, decimal, max_safe_integer, IntegerOptions, above, query_scalar, scalar_text, text_of,
  checked_integer, integer_of_text, integer_value, with_value, MarketListQuery,
  parse_market_list_query, query_property, limit_options, id_options, query_string,
}

-- At most the bound, if there is one.
abbrev pub AtMost : Option ℕ → ℕ → Type 0
AtMost none n = Unit
AtMost (some m) n = n ≤ m

module _ (to_text : JsValue → String) where
  checked_integer_at :
      (text field : String) (least : ℕ) (most default_value : Option ℕ) (n : ℕ)
      → (checked_integer to_text text field
            (record { least = least; most = most; default_value = default_value })
          ≡ returned (some n))
        ↔ ((is_decimal text ≡ true)
            × (decimal 0 text ≡ n)
            × (n ≤ max_safe_integer)
            × (least ≤ n)
            × AtMost most n)
  unfolding checked_integer above
  checked_integer_at text field least none d n = ground arith
  checked_integer_at text field least (some m) d n = ground arith

  pub with_value_inv :
      {A B : Type 0} (r : Ended A) (f : A → Ended B) (b : B)
      → with_value to_text r f ≡ returned b
      → (a : A) × (r ≡ returned a) × (f a ≡ returned b)
  with_value_inv (returned a) f b h = (a, refl, h)
  with_value_inv (threw e) f b h = absurd (ground (arith, h))

  -- What an integer of a query comes from: the default, or the digits of a value within the bounds.
  abbrev pub IsInteger : JsValue → String → IntegerOptions → Option ℕ → Type 0
  IsInteger v field options o =
      ((query_scalar v field ≡ returned none) × (o ≡ options.default_value))
      ⊎ ((w : JsValue) × (n : ℕ) × (query_scalar v field ≡ returned (some w))
          × (o ≡ some n)
          × (is_decimal (scalar_text to_text w) ≡ true)
          × (decimal 0 (scalar_text to_text w) ≡ n)
          × (n ≤ max_safe_integer)
          × (options.least ≤ n)
          × AtMost options.most n)

  checked_never :
      (text field : String) (options : IntegerOptions)
      → checked_integer to_text text field options ≢ returned none
  unfolding checked_integer
  checked_never text field options h = absurd (ground (arith, h))

  IsInteger-read :
      (v : JsValue) (field : String) (options : IntegerOptions) (scalar : Option JsValue)
      (o : Option ℕ)
      → query_scalar v field ≡ returned scalar
      → integer_of_text to_text (text_of to_text scalar) field options ≡ returned o
      → IsInteger v field options o
  unfolding integer_of_text text_of
  IsInteger-read v field options none o h k = inl (h, ground (arith, k))
  IsInteger-read v field options (some w) none h k =
      absurd (checked_never (scalar_text to_text w) field options k)
  IsInteger-read v field options (some w) (some n) h k =
      let facts =
        (checked_integer_at (scalar_text to_text w) field options.least options.most
            options.default_value n).0
          k in
      inr (w, n, h, refl, facts.0, facts.1, facts.2, facts.3, facts.4)

  -- An integer of a query that is accepted is the default where the query gives none, and otherwise what the
  -- digits of its text write, a safe integer within the bounds.
  pub integer_value-IsInteger :
      (v : JsValue) (field : String) (options : IntegerOptions) (o : Option ℕ)
      → integer_value to_text v field options ≡ returned o
      → IsInteger v field options o
  unfolding integer_value
  integer_value-IsInteger v field options o h =
      let (scalar, a, b) = with_value_inv (query_scalar v field) _ o h in
      IsInteger-read v field options scalar o a b

  abbrev pub Within : Option ℕ → Type 0
  Within none = Unit
  Within (some n) = n ≤ max_safe_integer

  limit_bounds :
      (v : JsValue) (o : Option ℕ)
      → IsInteger v "limit" limit_options o
      → (1 ≤ or_else o 20) × (or_else o 20 ≤ 100)
  limit_bounds v o (inl (a, b)) = ground (arith, b)
  limit_bounds v o (inr (w, n, a, b, c, d, f, g, h)) = ground (arith, b, g, h)

  cursor_bounds : (v : JsValue) (o : Option ℕ) → IsInteger v "cursor" id_options o → Within o
  cursor_bounds v none h = tt
  cursor_bounds v (some n) (inl (a, b)) = absurd (ground (arith, b))
  cursor_bounds v (some n) (inr (w, m, a, b, c, d, f, g, h)) = ground (arith, b, f)

  -- A query for the list of markets that is accepted asks for between 1 and 100 markets, after a cursor that is
  -- none or a safe integer, whatever the query holds; its limit is what the digits that it gives write,
  -- or 20 where it gives none.
  pub parse_market_list_query-Bounded :
      (query : JsValue) (q : MarketListQuery)
      → parse_market_list_query to_text query ≡ returned q
      → (1 ≤ q.limit)
        × (q.limit ≤ 100)
        × Within q.cursor
        × ((o : Option ℕ) × (q.limit ≡ or_else o 20)
            × IsInteger (query_property "limit" query) "limit" limit_options o)
  unfolding parse_market_list_query or_default
  parse_market_list_query-Bounded query q h =
      let (limit, a, h1) =
        with_value_inv (integer_value to_text (query_property "limit" query) "limit" _) _ q h in
      let (cursor, b, h2) =
        with_value_inv (integer_value to_text (query_property "cursor" query) "cursor" _) _ q h1 in
      let (status, c, h3) =
        with_value_inv (query_string to_text (query_property "status" query) "status") _ q h2 in
      let (creator, d, h4) =
        with_value_inv (query_string to_text (query_property "creator" query) "creator") _ q h3 in
      let (collateral, e, h5) =
        with_value_inv (query_string to_text (query_property "collateral" query) "collateral") _ q
          h4 in
      let same_limit = ap (λ r. (or_default r q).limit) h5 in
      let same_cursor = ap (λ r. (or_default r q).cursor) h5 in
      let limited =
        integer_value-IsInteger (query_property "limit" query) "limit" limit_options limit a in
      let (least, most) = limit_bounds (query_property "limit" query) limit limited in
      (
        subst (λ n. 1 ≤ n) same_limit least,
        subst (λ n. n ≤ 100) same_limit most,
        subst Within same_cursor (
            cursor_bounds (query_property "cursor" query) cursor
              (integer_value-IsInteger _ "cursor" id_options cursor b)),
        (limit, sym same_limit, limited),
      )
