-- ===== src/Indexer/Dispatcher/Readers.antt =====
-- What the readers of dike-services/src/indexer/dispatcher.ts find.
use dike_monolith.Prelude.{
  ℕ, ◌≡◌, ◌⊎◌, inl, inr, Option, some, List, [], ◌∷◌, String, arith, string_eq, Option-cases,
}
use dike_monolith.Store.Values.{JsValue}
use dike_monolith.Indexer.Dispatcher.{
  or_next, first_of, value_at, record_value, string_value, read_of, first_read, first_string,
}

-- Where a list is read, the result is that of one of its members.
first_of-eq_some {ℓ κ} :
    {A : Type ℓ} {B : Type κ} (read : A → Option B) (as' : List A) (b : B)
    → first_of read as' ≡ some b
    → (a : A) × (read a ≡ some b)
unfolding first_of or_next
first_of-eq_some read [] b h = ground (arith, h)
first_of-eq_some read (a ∷ as') b h = elim (Option-cases (read a)) [
  | inl e ↦ first_of-eq_some read as' b (ground (arith, e, h))
  | inr (c, e) ↦ (a, ground (arith, e, h))
]

module _ (to_text : JsValue → String) where
  -- A text that is read stands, as a text or as the text of a value, in one of the topics or in the
  -- payload at one of its keys or indexes.
  pub first_string_source :
      (values : List JsValue) (payload : JsValue) (topics : List ℕ) (keys : List String)
      (indexes : List ℕ) (s : String)
      → first_string to_text values payload topics keys indexes ≡ some s
      → ((i : ℕ) × (read_of (string_value to_text) (value_at values i) ≡ some s))
        ⊎ (read_of (string_value to_text) (record_value payload keys indexes) ≡ some s)
  unfolding first_string first_read or_next
  first_string_source values payload topics keys indexes s h =
      elim (Option-cases
        (first_of (λ i. read_of (string_value to_text) (value_at values i)) topics)) [
          | inl e ↦ inr (ground (arith, e, h))
          | inr (t, e) ↦ inl (first_of-eq_some _ topics s (ground (arith, e, h)))
        ]
