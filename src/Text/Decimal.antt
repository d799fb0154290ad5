-- ===== src/Text/Decimal.antt =====
-- `%d` of `fmt` at a `uint64`, and the concatenation of texts.
use Prim.Native.String
use zshell_gateway.Base.{ℕ, zero, suc, ◌/◌, ◌%◌, String, ◌≡◌, refl, nat_beq, if◌then◌else◌}
use zshell_gateway.Text.Hex.{nth}

-- `a + b` on Go strings
abbrev pub concat : String → String → String
concat a b = String.◌++◌ a b

-- `%q`, for a text with nothing to escape
abbrev pub quoted : String → String
quoted s = concat "\"" (concat s "\"")

-- a digit for each unit of fuel, the last digit first
emit : ℕ → ℕ → String → String
unfolding nth
emit zero n out = out
emit (suc f) n out =
    let rest = emit f (n / 10) (String.◌∷◌ (nth "0123456789" (n % 10)) out) in
    if nat_beq n 0 then out else rest

-- twenty digits are enough for a `uint64`
unfoldable pub decimal : ℕ → String
unfolding emit
decimal n = if nat_beq n 0 then "0" else emit 20 n ""

decimals : decimal 18446744073709551615 ≡ "18446744073709551615"
unfolding decimal
decimals = refl
