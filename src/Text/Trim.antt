-- ===== src/Text/Trim.antt =====
-- `strings.TrimSpace`, `strings.ToLower` and `len` of Go.
use Prim.Native.Char.{Char, code, len_utf8}
use zshell_gateway.Base.{
  ℕ, ◌+◌, String, ◌≡◌, refl, Bool, true, false, ◌&&◌, ◌||◌, leb, nat_beq, if◌then◌else◌,
}

-- `unicode.IsSpace`
abbrev pub is_space : ℕ → Bool
is_space c =
    (leb 9 c && leb c 13)
    || nat_beq c 32
    || nat_beq c 0x85
    || nat_beq c 0xA0
    || nat_beq c 0x1680
    || (leb 0x2000 c && leb c 0x200A)
    || nat_beq c 0x2028
    || nat_beq c 0x2029
    || nat_beq c 0x202F
    || nat_beq c 0x205F
    || nat_beq c 0x3000

unfoldable pub trim_left : String → String
trim_left String.[] = String.[]
trim_left (String.◌∷◌ c s) = if is_space (code c) then trim_left s else String.◌∷◌ c s

-- a character in front of a text whose right end is trimmed
abbrev pub trim_cons : Bool → Char → String → String
trim_cons true c String.[] = String.[]
trim_cons true c (String.◌∷◌ d s) = String.◌∷◌ c (String.◌∷◌ d s)
trim_cons false c s = String.◌∷◌ c s

unfoldable pub trim_right : String → String
trim_right String.[] = String.[]
trim_right (String.◌∷◌ c s) = trim_cons (is_space (code c)) c (trim_right s)

unfoldable pub trim_space : String → String
unfolding trim_left trim_right
trim_space s = trim_right (trim_left s)

trims : trim_space " \t ab c\n " ≡ "ab c"
unfolding trim_space
trims = refl

-- `len(s)`: the bytes of the UTF-8 text
unfoldable pub byte_len : String → ℕ
byte_len String.[] = 0
byte_len (String.◌∷◌ c s) = len_utf8 c + byte_len s
