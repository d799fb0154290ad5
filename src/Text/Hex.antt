-- ===== src/Text/Hex.antt =====
-- `encoding/hex`, `encoding/binary`'s big-endian numbers, and `strings.ToLower`.
use Prim.Native.Char.{Char, code, nul}
use zshell_gateway.Base.{
  ℕ, zero, suc, ◌+◌, ◌-◌, ◌*◌, ◌/◌, ◌%◌, ◌<◌, String, ◌≡◌, refl, Bool, true, false, ◌&&◌, List, [],
  ◌∷◌, Option, none, some, arith, leb, nat_beq, if◌then◌else◌,
}

-- the i-th character of a table
unfoldable pub nth : String → ℕ → Char
nth String.[] i = nul
nth (String.◌∷◌ c s) zero = c
nth (String.◌∷◌ c s) (suc i) = nth s i

-- ASCII letters, and the two other capitals whose lower case is an ASCII letter. The lower case of the
-- remaining characters is not ASCII, which no use in the program can tell from the character itself.
unfoldable pub to_lower_char : Char → Char
unfolding nth
to_lower_char c =
    if leb b'A' (code c) && leb (code c) b'Z'
    then nth "abcdefghijklmnopqrstuvwxyz" (code c - b'A')
    else if nat_beq (code c) 0x130
    then "i"
    else if nat_beq (code c) 0x212A
    then "k"
    else c

-- `strings.ToLower`
unfoldable pub to_lower : String → String
unfolding to_lower_char
to_lower String.[] = String.[]
to_lower (String.◌∷◌ c s) = String.◌∷◌ (to_lower_char c) (to_lower s)

unfoldable pub hex_value : ℕ → Option ℕ
hex_value c =
    if leb b'0' c && leb c b'9'
    then some (c - b'0')
    else if leb b'a' c && leb c b'f'
    then some (c - b'a' + 10)
    else if leb b'A' c && leb c b'F'
    then some (c - b'A' + 10)
    else none

abbrev byte_of : Option ℕ → Option ℕ → Option (List ℕ) → Option (List ℕ)
byte_of (some a) (some b) (some bs) = some ((a * 16 + b) ∷ bs)
byte_of (some a) (some b) none = none
byte_of (some a) none _ = none
byte_of none _ _ = none

-- `hex.DecodeString`: `none` is an odd length or a character that is no digit
unfoldable pub decode : String → Option (List ℕ)
unfolding hex_value
decode String.[] = some []
decode (String.◌∷◌ c String.[]) = none
decode (String.◌∷◌ c (String.◌∷◌ d s)) =
    byte_of (hex_value (code c)) (hex_value (code d)) (decode s)

abbrev pub digit_table : String
digit_table = "0123456789abcdef"

-- `hex.EncodeToString`
unfoldable pub encode : List ℕ → String
unfolding nth
encode [] = String.[]
encode (b ∷ bs) =
    String.◌∷◌ (nth digit_table (b / 16)) (String.◌∷◌ (nth digit_table (b % 16)) (encode bs))

encodes : encode (0 ∷ 171 ∷ 255 ∷ []) ≡ "00abff"
unfolding encode
encodes = refl

decodes : decode (to_lower "00ABfF") ≡ some (0 ∷ 171 ∷ 255 ∷ [])
unfolding decode to_lower
decodes = refl

-- Every element is a byte.
abbrev pub IsBytes : List ℕ → Type 0
IsBytes [] = Unit {0}
IsBytes (b ∷ bs) = (b < 256) × IsBytes bs

-- a test that every number below the bound passes
unfoldable pub each_below : (ℕ → Bool) → ℕ → Bool
each_below test zero = true
each_below test (suc bound) = each_below test bound && test bound

pub each_below_sound :
    (test : ℕ → Bool) (bound n : ℕ) → each_below test bound ≡ true → n < bound → test n ≡ true
unfolding each_below
each_below_sound test zero n passed below = absurd (omega (arith, below))
each_below_sound test (suc bound) n passed below =
    ground (arith, passed, below, each_below_sound test bound n)

abbrev reads_back : ℕ → Bool
reads_back n = elim (hex_value (code (nth digit_table n))) [ none ↦ false | some m ↦ nat_beq m n ]

digit_reads_back : each_below reads_back 16 ≡ true
unfolding each_below hex_value nth
digit_reads_back = refl

hex_value-digit : (n : ℕ) → n < 16 → hex_value (code (nth digit_table n)) ≡ some n
hex_value-digit n h = ground (arith, each_below_sound reads_back 16 n digit_reads_back h)

-- Decoding what was encoded gives the bytes back.
pub decode-encode : (bs : List ℕ) → IsBytes bs → decode (encode bs) ≡ some bs
unfolding decode encode
decode-encode [] h = refl
decode-encode (b ∷ bs) h =
    rw
      (
        hex_value-digit (b / 16) (omega arith),
        hex_value-digit (b % 16) (omega arith),
        decode-encode bs h.1,
      )
      (ground arith)
