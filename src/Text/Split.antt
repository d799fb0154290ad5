-- ===== src/Text/Split.antt =====
-- What the two device transports use of `strings` and `strconv`: splitting, trimming, unsigned numbers.
use Prim.Native.Char.{Char, code}
use zshell_gateway.Base.{
  ℕ, ◌+◌, ◌-◌, ◌*◌, ◌^◌, String, ◌≡◌, refl, Bool, true, false, ◌&&◌, List, [], ◌∷◌, Option, none,
  some, ltb, leb, nat_beq, str_beq, if◌then◌else◌,
}
use zshell_gateway.Text.Trim.{is_space}
use zshell_gateway.Text.Hex.{to_lower}
use zshell_gateway.Text.Utf8.{cons_first}

-- the text after a prefix
unfoldable pub strip_prefix : String → String → Option String
strip_prefix String.[] s = some s
strip_prefix (String.◌∷◌ p ps) String.[] = none
strip_prefix (String.◌∷◌ p ps) (String.◌∷◌ c s) =
    let rest = strip_prefix ps s in if nat_beq (code p) (code c) then rest else none

-- `strings.HasPrefix(s, prefix)`, with the prefix first
unfoldable pub has_prefix : String → String → Bool
unfolding strip_prefix
has_prefix p s = elim (strip_prefix p s) [ none ↦ false | some _ ↦ true ]

-- `strings.TrimPrefix(s, prefix)`, with the prefix first
unfoldable pub trim_prefix : String → String → String
unfolding strip_prefix
trim_prefix p s = elim (strip_prefix p s) [ none ↦ s | some rest ↦ rest ]

abbrev is_slash : Char → Bool
is_slash c = nat_beq (code c) b'/'

unfoldable pub trim_left_slash : String → String
trim_left_slash String.[] = String.[]
trim_left_slash (String.◌∷◌ c s) =
    let rest = trim_left_slash s in if is_slash c then rest else String.◌∷◌ c s

abbrev slash_cons : Char → String → String
slash_cons c String.[] = if is_slash c then String.[] else String.◌∷◌ c String.[]
slash_cons c (String.◌∷◌ d s) = String.◌∷◌ c (String.◌∷◌ d s)

unfoldable pub trim_right_slash : String → String
trim_right_slash String.[] = String.[]
trim_right_slash (String.◌∷◌ c s) = slash_cons c (trim_right_slash s)

-- `strings.Trim(s, "/")`
unfoldable pub trim_both_slashes : String → String
unfolding trim_left_slash trim_right_slash
trim_both_slashes s = trim_right_slash (trim_left_slash s)

-- `strings.Split(s, "/")`
unfoldable pub split_slashes : String → List String
split_slashes String.[] = "" ∷ []
split_slashes (String.◌∷◌ c s) =
    let parts = split_slashes s in if is_slash c then "" ∷ parts else cons_first c parts

-- a character in front of fields; the test says whether the text after it starts within a field
abbrev field_cons : Char → Bool → List String → List String
field_cons c true fields = cons_first c fields
field_cons c false fields = String.◌∷◌ c "" ∷ fields

abbrev in_field : String → Bool
in_field String.[] = false
in_field (String.◌∷◌ c s) = if is_space (code c) then false else true

-- `strings.Fields`
unfoldable pub fields_of : String → List String
fields_of String.[] = []
fields_of (String.◌∷◌ c s) =
    let rest = fields_of s in if is_space (code c) then rest else field_cons c (in_field s) rest

-- `strings.EqualFold(s, "Bearer")`: no letter of the word folds to a character outside ASCII
abbrev pub equal_fold_bearer : String → Bool
equal_fold_bearer s = str_beq (to_lower s) "bearer"

-- one more digit of a number below 2^64
abbrev digit_after : Option ℕ → ℕ → Option ℕ
digit_after none c = none
digit_after (some n) c =
    let next = n * 10 + (c - b'0') in
    if leb b'0' c && leb c b'9' && ltb next (2 ^ 64) then some next else none

unfoldable pub parse_digits : Option ℕ → String → Option ℕ
parse_digits acc String.[] = acc
parse_digits acc (String.◌∷◌ c s) = parse_digits (digit_after acc (code c)) s

-- `strconv.ParseUint(s, 10, 64)`; `none` is its error
unfoldable pub parse_uint : String → Option ℕ
unfolding parse_digits
parse_uint String.[] = none
parse_uint (String.◌∷◌ c s) = parse_digits (some 0) (String.◌∷◌ c s)

splits : split_slashes (trim_both_slashes "/ab/c//d/") ≡ "ab" ∷ "c" ∷ "" ∷ "d" ∷ []
unfolding split_slashes trim_both_slashes
splits = refl

prefixes : trim_prefix "/device/http" "/device/http/x" ≡ "/x"
unfolding trim_prefix
prefixes = refl

fields_test : fields_of "  Bearer \tx " ≡ "Bearer" ∷ "x" ∷ []
unfolding fields_of
fields_test = refl

parses : parse_uint "18446744073709551615" ≡ some 18446744073709551615
unfolding parse_uint
parses = refl

overflows : parse_uint "18446744073709551616" ≡ none
unfolding parse_uint
overflows = refl
