-- ===== src/Sponsorship/Request.antt =====
-- dike-services/src/sponsorship/request.ts. The body is what the zod schema of an object with the one
-- text field makes of it: that text, or nothing. `Buffer.from` is an argument, by the length of what
-- it decodes.
use Prim.Native.Char.{code}
use dike_monolith.Prelude.{
  ℕ, ◌+◌, ◌*◌, ◌/◌, ◌%◌, ◌≤◌, ◌≡◌, ◌↔◌, ◌⊎◌, inl, inr, refl, sym, subst, Bool-cases, nat_eq, Bool,
  true, false, ◌&&◌, ◌||◌, not, Option, none, some, List, [], ◌∷◌, String, arith, ltb, leb, nat_beq,
  length,
}
use dike_monolith.Sponsorship.Types.{Result, ok, malformed_xdr, throw, throw_if, ◌>>◌}

abbrev pub max_xdr_bytes : ℕ
max_xdr_bytes = 150000

-- `Math.ceil(MAX_XDR_BYTES / 3) * 4`.
abbrev pub max_xdr_base64_length : ℕ
max_xdr_base64_length = (max_xdr_bytes + 2) / 3 * 4

abbrev pub codes : String → List ℕ
codes String.[] = []
codes (String.◌∷◌ c s) = code c ∷ codes s

is_base64_char : ℕ → Bool
is_base64_char c =
    (leb b'A' c && leb c b'Z')
    || ((leb b'a' c && leb c b'z')
        || ((leb b'0' c && leb c b'9') || (nat_beq c b'+' || nat_beq c b'/')))

is_empty : List ℕ → Bool
is_empty [] = true
is_empty (c ∷ cs) = false

-- A group that the padding ends: two or three characters, and nothing after it.
is_last_group : ℕ → ℕ → ℕ → ℕ → List ℕ → Bool
is_last_group a b c d rest =
    is_base64_char a
    && (is_base64_char b
        && ((is_base64_char c || nat_beq c b'=') && (nat_beq d b'=' && is_empty rest)))

-- The regular expression, group by group.
matches_base64 : List ℕ → Bool
unfolding is_base64_char is_last_group is_empty
matches_base64 [] = true
matches_base64 (a ∷ (b ∷ (c ∷ (d ∷ rest)))) =
    (is_base64_char a && (is_base64_char b && (is_base64_char c && is_base64_char d)))
      && matches_base64 rest
    || is_last_group a b c d rest
matches_base64 _ = false

unfoldable pub is_base64 : List ℕ → Bool
unfolding matches_base64
is_base64 cs = nat_beq (length cs % 4) 0 && matches_base64 cs

check_text : (String → ℕ) → String → Result String
check_text decoded_length text = do
  throw_if (ltb (length (codes text)) 1 || ltb max_xdr_base64_length (length (codes text)))
      malformed_xdr "signedTransactionXdr must be base64 XDR."
  throw_if (not (is_base64 (codes text))) malformed_xdr "signedTransactionXdr must be base64 XDR."
  throw_if (nat_beq (decoded_length text) 0 || ltb max_xdr_bytes (decoded_length text))
      malformed_xdr "signedTransactionXdr exceeds the size limit."
  ok text

unfoldable pub parse_sponsorship_request : (String → ℕ) → Option String → Result String
unfolding check_text
parse_sponsorship_request decoded_length none =
    throw malformed_xdr "signedTransactionXdr must be base64 XDR."
parse_sponsorship_request decoded_length (some text) = check_text decoded_length text

-- A character of the base64 alphabet.
abbrev pub IsBase64Char : ℕ → Type 0
IsBase64Char c =
    ((b'A' ≤ c) × (c ≤ b'Z'))
    ⊎ ((b'a' ≤ c) × (c ≤ b'z'))
    ⊎ ((b'0' ≤ c) × (c ≤ b'9'))
    ⊎ (c ≡ b'+')
    ⊎ (c ≡ b'/')

-- The grammar of base64 texts: groups of four characters, of which the last may end in one or two `=`.
pub data IsBase64 : List ℕ → Type 0 where
  empty : IsBase64 []
  group :
      {a b c d : ℕ} {rest : List ℕ}
      → IsBase64Char a
      → IsBase64Char b
      → IsBase64Char c
      → IsBase64Char d
      → IsBase64 rest
      → IsBase64 (a ∷ b ∷ c ∷ d ∷ rest)
  one_pad :
      {a b c : ℕ}
      → IsBase64Char a
      → IsBase64Char b
      → IsBase64Char c
      → IsBase64 (a ∷ b ∷ c ∷ b'=' ∷ [])
  two_pads : {a b : ℕ} → IsBase64Char a → IsBase64Char b → IsBase64 (a ∷ b ∷ b'=' ∷ b'=' ∷ [])

char_iff : (c : ℕ) → (is_base64_char c ≡ true) ↔ IsBase64Char c
unfolding is_base64_char
char_iff c = ground arith

last_group :
    (a b c d : ℕ) (rest : List ℕ)
    → is_last_group a b c d rest ≡ true
    → IsBase64 (a ∷ b ∷ c ∷ d ∷ rest)
unfolding is_last_group is_empty
last_group a b c d (r ∷ rs) h = absurd (ground (arith, h))
last_group a b c d [] h =
    let first : IsBase64Char a = (char_iff a).0 (ground (arith, h)) in
    let second : IsBase64Char b = (char_iff b).0 (ground (arith, h)) in
    let pad : d ≡ b'=' = ground (arith, h, nat_eq.beq_iff d b'=') in
    subst (λ x. IsBase64 (a ∷ b ∷ c ∷ x ∷ [])) (sym pad)
      (elim (Bool-cases (is_base64_char c)) [
        | inl y ↦ one_pad first second ((char_iff c).0 y)
        | inr n ↦
            subst (λ x. IsBase64 (a ∷ b ∷ x ∷ b'=' ∷ []))
              (sym (ground (arith, h, n, nat_eq.beq_iff c b'='))) (two_pads first second)
      ])

full_group :
    (a b c d : ℕ) (rest : List ℕ)
    → (is_base64_char a && (is_base64_char b && (is_base64_char c && is_base64_char d))) ≡ true
    → IsBase64 rest
    → IsBase64 (a ∷ b ∷ c ∷ d ∷ rest)
full_group a b c d rest h g =
    group ((char_iff a).0 (ground (arith, h))) ((char_iff b).0 (ground (arith, h)))
      ((char_iff c).0 (ground (arith, h))) ((char_iff d).0 (ground (arith, h))) g

matched : (cs : List ℕ) → matches_base64 cs ≡ true → IsBase64 cs
unfolding matches_base64
matched [] h = empty
matched (a ∷ []) h = absurd (ground (arith, h))
matched (a ∷ (b ∷ [])) h = absurd (ground (arith, h))
matched (a ∷ (b ∷ (c ∷ []))) h = absurd (ground (arith, h))
matched (a ∷ (b ∷ (c ∷ (d ∷ rest)))) h = elim (Bool-cases (is_last_group a b c d rest)) [
  | inl y ↦ last_group a b c d rest y
  | inr n ↦ full_group a b c d rest (ground (arith, h, n)) (matched rest (ground (arith, h, n)))
]

matches : (cs : List ℕ) → IsBase64 cs → matches_base64 cs ≡ true
unfolding matches_base64 is_last_group is_empty
matches [] empty = refl
matches (a ∷ []) g = elim g [ ]
matches (a ∷ (b ∷ [])) g = elim g [ ]
matches (a ∷ (b ∷ (c ∷ []))) g = elim g [ ]
matches (a ∷ (b ∷ (c ∷ (d ∷ rest)))) (group p q r s g) =
    ground (
      arith,
      (char_iff a).1 p,
      (char_iff b).1 q,
      (char_iff c).1 r,
      (char_iff d).1 s,
      matches rest g,
    )
matches (a ∷ (b ∷ (c ∷ (d ∷ [])))) (one_pad p q r) =
    ground (arith, (char_iff a).1 p, (char_iff b).1 q, (char_iff c).1 r)
matches (a ∷ (b ∷ (c ∷ (d ∷ [])))) (two_pads p q) =
    ground (arith, (char_iff a).1 p, (char_iff b).1 q)

pub length-IsBase64 : (cs : List ℕ) → IsBase64 cs → length cs % 4 ≡ 0
length-IsBase64 [] empty = refl
length-IsBase64 (a ∷ []) g = elim g [ ]
length-IsBase64 (a ∷ (b ∷ [])) g = elim g [ ]
length-IsBase64 (a ∷ (b ∷ (c ∷ []))) g = elim g [ ]
length-IsBase64 (a ∷ (b ∷ (c ∷ (d ∷ rest)))) (group p q r s g) =
    omega (arith, length-IsBase64 rest g)
length-IsBase64 (a ∷ (b ∷ (c ∷ (d ∷ [])))) (one_pad p q r) = refl
length-IsBase64 (a ∷ (b ∷ (c ∷ (d ∷ [])))) (two_pads p q) = refl

is_base64_iff : (cs : List ℕ) → (is_base64 cs ≡ true) ↔ IsBase64 cs
unfolding is_base64
is_base64_iff cs =
    (λ h. matched cs (ground (arith, h)), λ g. ground (arith, length-IsBase64 cs g, matches cs g))

-- What the schema and the pattern ask of a text.
abbrev pub IsXdrText : String → Type 0
IsXdrText text =
    (1 ≤ length (codes text))
    × (length (codes text) ≤ max_xdr_base64_length)
    × IsBase64 (codes text)

-- Where decoding makes of a base64 text of 4n characters at least a byte and at most 3n of them, a
-- text is accepted exactly if it is not empty, not longer than the limit and in the grammar of base64, and
-- then it is the result: the test of the decoded size rejects nothing more.
pub request_iff :
    (decoded_length : String → ℕ) (text t : String)
    → ((x : String)
        → IsBase64 (codes x)
        → 1 ≤ length (codes x)
        → (1 ≤ decoded_length x) × (decoded_length x ≤ length (codes x) / 4 * 3))
    → (parse_sponsorship_request decoded_length (some text) ≡ ok t) ↔ (IsXdrText text × (t ≡ text))
unfolding parse_sponsorship_request
request_iff decoded_length text t decodes = (
  λ h.
      let valid = (is_base64_iff (codes text)).0 (ground (arith, h)) in
      ((ground (arith, h), ground (arith, h), valid), ground (arith, h)),
  λ (w, same).
      let size = decodes text w.2 w.0 in
      let valid = (is_base64_iff (codes text)).1 w.2 in ground (arith, valid, size, same),
)
