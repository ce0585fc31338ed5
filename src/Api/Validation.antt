-- ===== src/Api/Validation.antt =====
-- dike-services/src/api/request-validation.ts. A request that is refused throws the text of its error, with the
-- status 400. `String` of a number or a boolean, `trim` and `toUpperCase` are parameters.
use Prim.Native.Char.{Char, code}
use Prim.Native.String.{◌++◌, count}
use dike_monolith.Prelude.{
  ℕ, ◌+◌, ◌-◌, ◌*◌, Bool, true, false, not, ◌&&◌, ◌||◌, Option, none, some, List, [], ◌∷◌, String,
  ◌==◌, string_eq, nat_eq, if◌then◌else◌, ltb, or_else,
}
use dike_monolith.Prelude.Dict.{lookup}
use dike_monolith.Prelude.Int.{pos}
use dike_monolith.Store.Values.{JsValue, fields}
use dike_monolith.Store.Upserts.{includes}
use dike_monolith.Task.{Ended, returned, threw}

-- A value that is given once and is no object.
unfoldable pub query_scalar : JsValue → String → Ended (Option JsValue)
query_scalar JsValue.undefined field = returned none
query_scalar JsValue.null field = returned none
query_scalar (JsValue.string s) field =
    if s == "" then returned none else returned (some (JsValue.string s))
query_scalar (JsValue.array vs) field = threw (field ++ " must be provided once")
query_scalar (JsValue.number n) field = returned (some (JsValue.number n))
query_scalar (JsValue.boolean b) field = returned (some (JsValue.boolean b))
query_scalar _ field = threw (field ++ " must be a scalar value")

unfoldable pub is_digit : Char → Bool
is_digit c = not (ltb (code c) 48) && not (ltb 57 (code c))

unfoldable pub all_digits : String → Bool
all_digits String.[] = true
all_digits (String.◌∷◌ c s) = is_digit c && all_digits s

-- `/^\d+$/`.
unfoldable pub is_decimal : String → Bool
is_decimal s = not (s == "") && all_digits s

-- The number that digits write, after those read already.
unfoldable pub decimal : ℕ → String → ℕ
decimal n String.[] = n
decimal n (String.◌∷◌ c s) = decimal (n * 10 + (code c - 48)) s

abbrev pub max_safe_integer : ℕ
max_safe_integer = 9007199254740991

-- The bounds and the default of `integerValue`.
pub record IntegerOptions : Type 0 where
  pub least : ℕ
  pub most : Option ℕ
  pub default_value : Option ℕ

unfoldable pub above : ℕ → Option ℕ → Bool
above n none = false
above n (some m) = ltb m n

pub record MarketListQuery : Type 0 where
  pub status : Option String
  pub creator : Option String
  pub collateral : Option String
  pub limit : ℕ
  pub cursor : Option ℕ

abbrev pub id_options : IntegerOptions
id_options = record { least = 0; most = none; default_value = none }

unfoldable pub given_id : Option ℕ → Ended ℕ
given_id none = threw "id is required"
given_id (some n) = returned n

abbrev pub council_case_statuses : List String
council_case_statuses =
    "Opened" ∷ "CommitPhase" ∷ "RevealPhase" ∷ "ReadyToFinalize" ∷ "Finalized" ∷ "Cancelled" ∷ []

unfoldable pub case_status : Option String → Ended (Option String)
case_status none = returned none
case_status (some s) =
    if includes council_case_statuses s
    then returned (some s)
    else threw "status must be a valid council case status"

-- A query that is no object has no properties.
unfoldable pub query_property : String → JsValue → JsValue
query_property key (JsValue.object fs) = or_else (lookup key (fields fs)) JsValue.undefined
query_property key v = JsValue.undefined

abbrev pub limit_options : IntegerOptions
limit_options = record { least = 1; most = some 100; default_value = some 20 }

module _ (to_text : JsValue → String) where
  unfoldable pub scalar_text : JsValue → String
  scalar_text (JsValue.string s) = s
  scalar_text v = to_text v

  unfoldable pub text_of : Option JsValue → Option String
  text_of none = none
  text_of (some v) = some (scalar_text v)

  abbrev pub with_value : {A B : Type 0} → Ended A → (A → Ended B) → Ended B
  with_value (returned a) f = f a
  with_value (threw e) f = threw e

  unfoldable pub query_string : JsValue → String → Ended (Option String)
  query_string v field = with_value (query_scalar v field) (λ scalar. returned (text_of scalar))

  abbrev pub bound_text : ℕ → String
  bound_text n = to_text (JsValue.number (pos n))

  -- `Number` of a text of digits is a safe integer where it is what the digits write; more digits are none.
  unfoldable pub checked_integer : String → String → IntegerOptions → Ended (Option ℕ)
  checked_integer text field options =
      if not (is_decimal text)
      then threw (field ++ " must be an integer")
      else if ltb max_safe_integer (decimal 0 text) || ltb (decimal 0 text) options.least
      then threw (field ++ (" must be at least " ++ bound_text options.least))
      else if above (decimal 0 text) options.most
      then threw (field ++ (" must be at most " ++ bound_text (or_else options.most 0)))
      else returned (some (decimal 0 text))

  unfoldable pub integer_of_text : Option String → String → IntegerOptions → Ended (Option ℕ)
  integer_of_text none field options = returned options.default_value
  integer_of_text (some text) field options = checked_integer text field options

  unfoldable pub integer_value : JsValue → String → IntegerOptions → Ended (Option ℕ)
  integer_value v field options =
      with_value (query_scalar v field) (λ scalar. integer_of_text (text_of scalar) field options)

  unfoldable pub parse_market_id : JsValue → Ended ℕ
  parse_market_id v = with_value (integer_value v "id" id_options) given_id

  unfoldable pub parse_council_case_status : JsValue → Ended (Option String)
  parse_council_case_status v = with_value (query_string v "status") case_status

  unfoldable pub parse_market_list_query : JsValue → Ended MarketListQuery
  parse_market_list_query query =
      with_value (integer_value (query_property "limit" query) "limit" limit_options) (λ limit.
        with_value (integer_value (query_property "cursor" query) "cursor" id_options) (λ cursor.
          with_value (query_string (query_property "status" query) "status") (λ status.
            with_value (query_string (query_property "creator" query) "creator") (λ creator.
              with_value (query_string (query_property "collateral" query) "collateral")
                (λ collateral. returned (record {
                  status = status;
                  creator = creator;
                  collateral = collateral;
                  limit = or_else limit 20;
                  cursor = cursor;
                }))))))

-- `[A-Z2-7]`.
unfoldable pub is_base32 : Char → Bool
is_base32 c =
    (not (ltb (code c) 65) && not (ltb 90 (code c)))
    || (not (ltb (code c) 50) && not (ltb 55 (code c)))

unfoldable pub all_base32 : String → Bool
all_base32 String.[] = true
all_base32 (String.◌∷◌ c s) = is_base32 c && all_base32 s

unfoldable pub is_stellar_address : String → Bool
is_stellar_address s = (count s == 56) && all_base32 s

module _ (trim to_upper : String → String) where
  unfoldable pub parse_address : JsValue → String → Ended String
  parse_address (JsValue.string s) field =
      if is_stellar_address (to_upper (trim s))
      then returned (to_upper (trim s))
      else threw (field ++ " must be a valid Stellar address")
  parse_address v field = threw (field ++ " must be a string")
