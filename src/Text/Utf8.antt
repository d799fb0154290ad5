-- ===== src/Text/Utf8.antt =====
-- `[]byte(s)` and `strings.Split` at a dot.
use Prim.Native.Char.{Char, code}
use Prim.Native.String.append
use zshell_gateway.Base.{
  ℕ, ◌+◌, ◌/◌, ◌%◌, String, ◌≡◌, refl, ap, ◌∙◌, List, [], ◌∷◌, ◌++◌, Bool, true, false, ltb,
  nat_beq, not, ◌&&◌, if◌then◌else◌, arith,
}
use zshell_gateway.Text.Hex.{nth}
use zshell_gateway.Text.Decimal.{concat}

-- the bytes of a character
unfoldable pub char_bytes : ℕ → List ℕ
char_bytes c =
    if ltb c 0x80
    then c ∷ []
    else if ltb c 0x800
    then (0xC0 + c / 64) ∷ (0x80 + c % 64) ∷ []
    else if ltb c 0x10000
    then (0xE0 + c / 4096) ∷ (0x80 + c / 64 % 64) ∷ (0x80 + c % 64) ∷ []
    else (0xF0 + c / 262144) ∷ (0x80 + c / 4096 % 64) ∷ (0x80 + c / 64 % 64) ∷ (0x80 + c % 64) ∷ []

unfoldable pub utf8 : String → List ℕ
unfolding char_bytes
utf8 String.[] = []
utf8 (String.◌∷◌ c s) = char_bytes (code c) ++ utf8 s

abbrev pub cons_first : Char → List String → List String
cons_first c [] = []
cons_first c (part ∷ parts) = String.◌∷◌ c part ∷ parts

-- `strings.Split(s, ".")`
unfoldable pub split_dots : String → List String
split_dots String.[] = "" ∷ []
split_dots (String.◌∷◌ c s) =
    let parts = split_dots s in if nat_beq (code c) 46 then "" ∷ parts else cons_first c parts

-- No character of the text is a dot.
abbrev pub NoDot : String → Type 0
NoDot String.[] = Unit
NoDot (String.◌∷◌ c s) = (nat_beq (code c) 46 ≡ false) × NoDot s

abbrev pub has_no_dot : String → Bool
has_no_dot String.[] = true
has_no_dot (String.◌∷◌ c s) = not (nat_beq (code c) 46) && has_no_dot s

pub has_no_dot_sound : (s : String) → has_no_dot s ≡ true → NoDot s
has_no_dot_sound String.[] h = tt
has_no_dot_sound (String.◌∷◌ c s) h = ground (arith, has_no_dot_sound s)

splits : split_dots "a.bc." ≡ "a" ∷ "bc" ∷ "" ∷ []
unfolding split_dots
splits = refl

utf8s : utf8 "aé€" ≡ 0x61 ∷ 0xC3 ∷ 0xA9 ∷ 0xE2 ∷ 0x82 ∷ 0xAC ∷ []
unfolding utf8 char_bytes
utf8s = refl

pub split_dots-append :
    (s t : String) → NoDot s → split_dots (concat s (concat "." t)) ≡ s ∷ split_dots t
unfolding split_dots nth
split_dots-append String.[] t h = ap split_dots (
    append.nil (concat "." t)
    ∙ append.cons (nth "." 0) String.[] t
    ∙ ap (String.◌∷◌ (nth "." 0)) (append.nil t))
split_dots-append (String.◌∷◌ c s) t h =
    ap split_dots (append.cons c s (concat "." t)) ∙ rw (h.0, split_dots-append s t h.1) refl

pub split_dots_one : (s : String) → NoDot s → split_dots s ≡ s ∷ []
unfolding split_dots
split_dots_one String.[] h = refl
split_dots_one (String.◌∷◌ c s) h = rw (h.0, split_dots_one s h.1) refl
