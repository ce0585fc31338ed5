-- ===== src/Api/Tests.antt =====
-- The query of the tests in dike-services/src/api/request-validation.test.ts.
use dike_monolith.Prelude.{ℕ, Option, ◌≤◌, ◌≡◌, refl, some, none, or_else, String}
use dike_monolith.Prelude.Dict.{lookup}
use dike_monolith.Store.Values.{JsValue, Fields}
use dike_monolith.Task.{returned, threw}
use dike_monolith.Api.Validation.{
  query_scalar, is_digit, all_digits, is_decimal, decimal, above, scalar_text, text_of,
  query_string, checked_integer, integer_of_text, integer_value, query_property, MarketListQuery,
  limit_options, parse_market_list_query, parse_market_id,
}
use dike_monolith.Prelude.{◌⊎◌, ◌≢◌, ◌↔◌, true, [], ◌∷◌, ◌==◌, string_eq, if◌then◌else◌}
use dike_monolith.Store.Values.{SqlValue}
use dike_monolith.Store.Database.{Database}
use dike_monolith.Reconciliation.Sample
use dike_monolith.Api.Authorization.{
  Authorities, authorize, normalize_address, column_address, config_of,
}
use dike_monolith.Api.Rights.{Listed, authorize_iff}
use dike_monolith.Api.Queries.{IsInteger, Within, parse_market_list_query-Bounded}

abbrev to_text : JsValue → String
to_text v = "text"

abbrev query : JsValue
query = JsValue.object (
    Fields.field "status" (JsValue.string "Live") (
      Fields.field "limit" (JsValue.string "25")
        (Fields.field "cursor" (JsValue.string "10") Fields.end)))

abbrev parsed : MarketListQuery
parsed = record {
  status = some "Live";
  creator = none;
  collateral = none;
  limit = 25;
  cursor = some 10;
}

query_parsed : parse_market_list_query to_text query ≡ returned parsed
unfolding parse_market_list_query integer_value query_scalar query_property lookup integer_of_text
    text_of scalar_text checked_integer is_decimal all_digits is_digit decimal above query_string
query_parsed = refl

id_refused : parse_market_id to_text (JsValue.string "-1") ≡ threw "id must be an integer"
unfolding parse_market_id integer_value query_scalar integer_of_text text_of scalar_text
    checked_integer is_decimal all_digits is_digit
id_refused = refl

bounded_example :
    (1 ≤ parsed.limit)
    × (parsed.limit ≤ 100)
    × Within to_text parsed.cursor
    × ((o : Option ℕ) × (parsed.limit ≡ or_else o 20)
        × IsInteger to_text (query_property "limit" query) "limit" limit_options o)
bounded_example = parse_market_list_query-Bounded to_text query parsed query_parsed

-- The member list with one spelling of GA, and the timelock GT.
abbrev database : Database
database = record Sample.database {
  governance_lists = (("testnet", ("member", " GA")), true) ∷ [];
  governance_config = ("testnet", ("timelock", SqlValue.text "GT") ∷ []) ∷ [];
}

abbrev authorities : Authorities
authorities = record { network = "testnet"; admin = "GADMIN"; governance_authority = "GGOV" }

abbrev drop_space : String → String
drop_space s = if s == " GA" then "GA" else s

rights_example :
    (((authorize drop_space (λ s. s) authorities database "GA").can_create ≡ true)
      ↔ Listed drop_space
          (λ s. s)
          "testnet"
          "creator"
          (normalize_address drop_space (λ s. s) "GA")
          database.governance_lists)
    × (((authorize drop_space (λ s. s) authorities database "GA").can_council ≡ true)
        ↔ Listed drop_space
            (λ s. s)
            "testnet"
            "member"
            (normalize_address drop_space (λ s. s) "GA")
            database.governance_lists)
    × (((authorize drop_space (λ s. s) authorities database "GA").can_admin ≡ true) ↔ (
        (normalize_address drop_space (λ s. s) "GA" ≢ "")
        × ((normalize_address drop_space (λ s. s) authorities.admin
              ≡ normalize_address drop_space (λ s. s) "GA")
            ⊎ ((normalize_address drop_space (λ s. s) authorities.governance_authority
                  ≡ normalize_address drop_space (λ s. s) "GA")
                ⊎ ((column_address drop_space
                        (λ s. s)
                        (lookup "timelock" (config_of "testnet" database))
                      ≡ normalize_address drop_space (λ s. s) "GA")
                    ⊎ (column_address drop_space
                          (λ s. s)
                          (lookup "pause_authority" (config_of "testnet" database))
                        ≡ normalize_address drop_space (λ s. s) "GA"))))))
rights_example = authorize_iff drop_space (λ s. s) authorities database "GA"
