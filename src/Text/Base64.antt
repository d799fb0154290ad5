-- ===== src/Text/Base64.antt =====
-- `base64.RawURLEncoding`: URL-safe, without padding; decoding skips line ends, as Go's does.
use Prim.Native.Char.{Char, code}
use zshell_gateway.Base.{
  ℕ, ◌+◌, ◌-◌, ◌*◌, ◌/◌, ◌%◌, ◌<◌, String, ◌≡◌, refl, Bool, true, false, ◌&&◌, ◌||◌, not, List, [],
  ◌∷◌, Option, none, some, arith, leb, nat_beq, if◌then◌else◌,
}
use zshell_gateway.Text.Utf8.{NoDot}
use zshell_gateway.Text.Hex.{nth, IsBytes, each_below, each_below_sound}

abbrev pub alphabet : String
alphabet = "ABCDEFGHIJKLMNOPQRSTUVWXYZabcdefghijklmnopqrstuvwxyz0123456789-_"

abbrev pub char_of : ℕ → Char
char_of n = nth alphabet n

-- `EncodeToString`: three bytes give four characters
unfoldable pub encode : List ℕ → String
unfolding nth
encode [] = String.[]
encode (a ∷ []) = String.◌∷◌ (char_of (a / 4)) (String.◌∷◌ (char_of (a % 4 * 16)) String.[])
encode (a ∷ b ∷ []) =
    String.◌∷◌ (char_of (a / 4))
      (String.◌∷◌ (char_of (a % 4 * 16 + b / 16)) (String.◌∷◌ (char_of (b % 16 * 4)) String.[]))
encode (a ∷ b ∷ c ∷ rest) = String.◌∷◌ (char_of (a / 4)) (
    String.◌∷◌ (char_of (a % 4 * 16 + b / 16))
      (String.◌∷◌ (char_of (b % 16 * 4 + c / 64)) (String.◌∷◌ (char_of (c % 64)) (encode rest))))

-- the value of a character
unfoldable pub sextet : ℕ → Option ℕ
sextet c =
    if leb b'A' c && leb c b'Z'
    then some (c - b'A')
    else if leb b'a' c && leb c b'z'
    then some (c - b'a' + 26)
    else if leb b'0' c && leb c b'9'
    then some (c - b'0' + 52)
    else if nat_beq c b'-'
    then some 62
    else if nat_beq c b'_'
    then some 63
    else none

abbrev pub cons_sextet : Option ℕ → Option (List ℕ) → Option (List ℕ)
cons_sextet (some x) (some xs) = some (x ∷ xs)
cons_sextet (some x) none = none
cons_sextet none _ = none

unfoldable pub sextets : String → Option (List ℕ)
unfolding sextet
sextets String.[] = some []
sextets (String.◌∷◌ c s) =
    let rest = sextets s in
    if nat_beq (code c) 10 || nat_beq (code c) 13 then rest else cons_sextet (sextet (code c)) rest

-- a single character is no byte; the bits that are left over are not checked
unfoldable pub bytes_of : List ℕ → Option (List ℕ)
bytes_of [] = some []
bytes_of (x ∷ []) = none
bytes_of (x ∷ y ∷ []) = some ((x * 4 + y / 16) ∷ [])
bytes_of (x ∷ y ∷ z ∷ []) = some ((x * 4 + y / 16) ∷ (y % 16 * 16 + z / 4) ∷ [])
bytes_of (x ∷ y ∷ z ∷ w ∷ rest) = elim (bytes_of rest) [
  | none ↦ none
  | some bs ↦ some ((x * 4 + y / 16) ∷ (y % 16 * 16 + z / 4) ∷ (z % 4 * 64 + w) ∷ bs)
]

-- `DecodeString`
unfoldable pub decode : String → Option (List ℕ)
unfolding sextets bytes_of
decode s = elim (sextets s) [ none ↦ none | some xs ↦ bytes_of xs ]

encodes : encode (0 ∷ 16 ∷ 131 ∷ 255 ∷ []) ≡ "ABCD_w"
unfolding encode
encodes = refl

decodes : decode "ABCD_w" ≡ some (0 ∷ 16 ∷ 131 ∷ 255 ∷ [])
unfolding decode
decodes = refl

abbrev reads_back : ℕ → Bool
reads_back n = elim (sextet (code (char_of n))) [
  | none ↦ false
  | some m ↦ nat_beq m n && leb 14 (code (char_of n))
]

reads_back_all : each_below reads_back 64 ≡ true
unfolding each_below sextet nth
reads_back_all = refl

sextets-char :
    (n : ℕ) (s : String) (xs : List ℕ)
    → n < 64
    → sextets s ≡ some xs
    → sextets (String.◌∷◌ (char_of n) s) ≡ some (n ∷ xs)
unfolding sextets
sextets-char n s xs h e = ground (arith, each_below_sound reads_back 64 n reads_back_all h, e)

-- the six-bit groups of the bytes
abbrev groups : List ℕ → List ℕ
groups [] = []
groups (a ∷ []) = (a / 4) ∷ (a % 4 * 16) ∷ []
groups (a ∷ b ∷ []) = (a / 4) ∷ (a % 4 * 16 + b / 16) ∷ (b % 16 * 4) ∷ []
groups (a ∷ b ∷ c ∷ rest) =
    (a / 4) ∷ (a % 4 * 16 + b / 16) ∷ (b % 16 * 4 + c / 64) ∷ (c % 64) ∷ groups rest

sextets-encode : (bs : List ℕ) → IsBytes bs → sextets (encode bs) ≡ some (groups bs)
unfolding encode
sextets-encode [] h = unfold sextets in refl
sextets-encode (a ∷ []) h =
    sextets-char _ _ _ (omega arith) (sextets-char _ _ _ (omega arith) (unfold sextets in refl))
sextets-encode (a ∷ b ∷ []) h =
    sextets-char _ _ _ (omega arith)
      (sextets-char _ _ _ (omega arith) (sextets-char _ _ _ (omega arith) (unfold sextets in refl)))
sextets-encode (a ∷ b ∷ c ∷ rest) h = sextets-char _ _ _ (omega arith) (
    sextets-char _ _ _ (omega arith) (
      sextets-char _ _ _ (omega arith)
        (sextets-char _ _ _ (omega arith) (sextets-encode rest h.1.1.1))))

bytes_of-groups : (bs : List ℕ) → IsBytes bs → bytes_of (groups bs) ≡ some bs
unfolding bytes_of
bytes_of-groups [] h = refl
bytes_of-groups (a ∷ []) h = ground (arith)
bytes_of-groups (a ∷ b ∷ []) h = ground (arith)
bytes_of-groups (a ∷ b ∷ c ∷ rest) h = rw (bytes_of-groups rest h.1.1.1) (ground arith)

-- Decoding what was encoded gives the bytes back.
pub decode-encode : (bs : List ℕ) → IsBytes bs → decode (encode bs) ≡ some bs
unfolding decode
decode-encode bs h = rw (sextets-encode bs h, decode) (bytes_of-groups bs h)

-- No character of an encoding is a dot.
abbrev no_dot : ℕ → Bool
no_dot n = not (nat_beq (code (char_of n)) 46)

no_dot_all : each_below no_dot 64 ≡ true
unfolding each_below nth
no_dot_all = refl

char_of-NoDot : (n : ℕ) → n < 64 → nat_beq (code (char_of n)) 46 ≡ false
char_of-NoDot n h = ground (arith, each_below_sound no_dot 64 n no_dot_all h)

pub encode-NoDot : (bs : List ℕ) → IsBytes bs → NoDot (encode bs)
unfolding encode
encode-NoDot [] h = tt
encode-NoDot (a ∷ []) h =
    (char_of-NoDot (a / 4) (omega arith), (char_of-NoDot (a % 4 * 16) (omega arith), tt))
encode-NoDot (a ∷ b ∷ []) h = (
  char_of-NoDot (a / 4) (omega arith),
  (
    char_of-NoDot (a % 4 * 16 + b / 16) (omega arith),
    (char_of-NoDot (b % 16 * 4) (omega arith), tt),
  ),
)
encode-NoDot (a ∷ b ∷ c ∷ rest) h = (
  char_of-NoDot (a / 4) (omega arith),
  (
    char_of-NoDot (a % 4 * 16 + b / 16) (omega arith),
    (
      char_of-NoDot (b % 16 * 4 + c / 64) (omega arith),
      (char_of-NoDot (c % 64) (omega arith), encode-NoDot rest h.1.1.1),
    ),
  ),
)
