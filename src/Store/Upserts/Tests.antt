-- ===== src/Store/Upserts/Tests.antt =====
-- The theorems of the upserts at one row of the markets.
use dike_monolith.Prelude.{◌≡◌, ◌≢◌, ◌↔◌, refl, All, [], ◌∷◌}
use dike_monolith.Prelude.Int.{pos}
use dike_monolith.Store.Values.{SqlValue}
use dike_monolith.Store.Tables.{allowed_columns, not_null_columns, markets}
use dike_monolith.Store.Upserts.{
  Columns, row_key_eq, Rows, ok, err, null_column, null_columns, refuses, given, upsert,
  build_upsert_spec, invalid_keys, check_spec, write, key_of, includes,
}
use dike_monolith.Store.Upserts.Laws.{IsAllowed, IsFilled, upsert_iff}

abbrev market : Columns
market =
    ("network", SqlValue.text "testnet")
    ∷ ("market_id", SqlValue.number (pos 7))
    ∷ ("status", SqlValue.text "Live")
    ∷ []

-- The columns with a default need not be given, but they may not be given as null.
abbrev no_fees : Columns
no_fees = ("fee_config_json", SqlValue.null) ∷ market

is_accepted : upsert markets market [] ≡ ok (write (key_of markets market) market [])
unfolding upsert build_upsert_spec includes allowed_columns invalid_keys check_spec null_columns
    not_null_columns refuses given
is_accepted = refl

is_refused : upsert markets no_fees [] ≡ err (null_column markets "fee_config_json")
unfolding upsert build_upsert_spec includes allowed_columns invalid_keys check_spec null_columns
    not_null_columns refuses given
is_refused = refl

accepts_example : ((rows' : Rows) × (upsert markets market [] ≡ ok rows')) ↔ (
    (market ≢ [])
    × All (IsAllowed markets) market
    × All (IsFilled market) (not_null_columns markets))
accepts_example = upsert_iff markets market []
