-- ===== src/Wallet/Errors.antt =====
-- `parseDikeError` of dike-web/lib/stellar/transaction.ts, on the message of an error. The decoding of a result
-- and the digits of a number are parameters.
use Prim.Native.Char.{Char, code}
use Prim.Native.String.{◌++◌}
use text.Mathlib.Text.{starts_with}
use dike_monolith.Prelude.{
  ℕ, Bool, not, ◌&&◌, ◌||◌, Option, none, some, List, [], ◌∷◌, String, ◌==◌, string_eq, nat_eq,
  if◌then◌else◌, ltb, or_else,
}
use dike_monolith.Prelude.Dict.{lookup}
use dike_monolith.Api.Validation.{is_digit, decimal}

-- `DIKE_ERROR_MAP`.
abbrev pub dike_error_map : List (ℕ × String)
dike_error_map =
    (3, "Unauthorized")
    ∷ (6, "InvalidStatus")
    ∷ (15, "InsufficientBalance")
    ∷ (17, "SlippageExceeded")
    ∷ (18, "DeadlineExpired")
    ∷ (30, "UnsupportedCollateral")
    ∷ (35, "EncumberedPosition")
    ∷ []

-- The rest of a text after a prefix.
unfoldable pub after_prefix : String → String → Option String
after_prefix String.[] s = some s
after_prefix (String.◌∷◌ c p) String.[] = none
after_prefix (String.◌∷◌ c p) (String.◌∷◌ d s) = if code c == code d then after_prefix p s else none

-- The longest part in front whose characters pass a test, and what follows.
unfoldable pub span : (Char → Bool) → String → String × String
span p String.[] = ("", "")
span p (String.◌∷◌ c s) =
    let rest = span p s in if p c then (String.◌∷◌ c rest.0, rest.1) else ("", String.◌∷◌ c s)

unfoldable pub closed : String × String → Option String
closed (digits, rest) = elim (after_prefix ")" rest) [
  | none ↦ none
  | some tail ↦ if digits == "" then none else some digits
]

-- `Error\(Contract, #(\d+)\)` where the text begins, and its first match in a text.
unfoldable pub code_here : String → Option String
code_here s = elim (after_prefix "Error(Contract, #" s) [
  | none ↦ none
  | some rest ↦ closed (span is_digit rest)
]

unfoldable pub first_match : (String → Option String) → String → Option String
first_match here String.[] = here String.[]
first_match here (String.◌∷◌ c s) = elim (here (String.◌∷◌ c s)) [
  | some found ↦ some found
  | none ↦ first_match here s
]

unfoldable pub contains : String → String → Bool
contains part String.[] = part == ""
contains part (String.◌∷◌ c s) = starts_with (String.◌∷◌ c s) part || contains part s

unfoldable pub first_named : List (ℕ × String) → String → Option String
first_named [] msg = none
first_named ((n, name) ∷ names) msg = if contains name msg then some name else first_named names msg

-- `[A-Za-z0-9+/=]`.
unfoldable pub is_base64_char : Char → Bool
is_base64_char c =
    (not (ltb (code c) 65) && not (ltb 90 (code c)))
    || ((not (ltb (code c) 97) && not (ltb 122 (code c)))
        || (is_digit c || (code c == 43 || (code c == 47 || code c == 61))))

-- `AAAA[A-Za-z0-9+/=]+`.
unfoldable pub xdr_here : String → Option String
xdr_here s = elim (after_prefix "AAAA" s) [
  | none ↦ none
  | some rest ↦
      if (span is_base64_char rest).0 == ""
      then none
      else some ("AAAA" ++ (span is_base64_char rest).0)
]

-- `String.prototype.replace` of the first occurrence.
unfoldable pub replace : String → String → String → String
replace part new String.[] = if part == "" then new else ""
replace part new (String.◌∷◌ c s) = elim (after_prefix part (String.◌∷◌ c s)) [
  | some rest ↦ new ++ rest
  | none ↦ String.◌∷◌ c (replace part new s)
]

module _ (print : ℕ → String) (decode_result_xdr : String → Option String) where
  unfoldable pub contract_error : ℕ → String
  contract_error n = or_else (lookup n dike_error_map) ("ContractError #" ++ print n)

  unfoldable pub decoded_message : String → String → Option String → String
  decoded_message msg xdr (some decoded) =
      replace "Transaction failed on-chain: " ""
        (replace "Transaction rejected: " "" (replace xdr decoded msg))
  decoded_message msg xdr none =
      if starts_with msg "Transaction rejected:"
      then "Transaction rejected by Stellar RPC"
      else if starts_with msg "Transaction failed on-chain:"
      then "Transaction failed on-chain"
      else msg

  unfoldable pub result_message : String → Option String → String
  result_message msg none = msg
  result_message msg (some xdr) = decoded_message msg xdr (decode_result_xdr xdr)

  unfoldable pub parse_dike_error : String → String
  parse_dike_error msg = elim (first_match code_here msg) [
    | some digits ↦ contract_error (decimal 0 digits)
    | none ↦ elim (first_named dike_error_map msg) [
      | some name ↦ name
      | none ↦ result_message msg (first_match xdr_here msg)
    ]
  ]
