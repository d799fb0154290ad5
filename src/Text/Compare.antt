-- ===== src/Text/Compare.antt =====
-- `subtle.ConstantTimeCompare` and `hmac.Equal`: equality of byte strings.
use zshell_gateway.Base.{
  ℕ, ◌≡◌, refl, ◌↔◌, Bool, true, false, ◌&&◌, List, [], ◌∷◌, nat_beq, nat_beq_iff, arith,
}

-- `ConstantTimeCompare(a, b) == 1`, also `hmac.Equal`
unfoldable pub constant_time_compare : List ℕ → List ℕ → Bool
constant_time_compare [] [] = true
constant_time_compare (x ∷ xs) (y ∷ ys) = nat_beq x y && constant_time_compare xs ys
constant_time_compare (x ∷ xs) [] = false
constant_time_compare [] (y ∷ ys) = false

pub constant_time_compare_iff : (a b : List ℕ) → (constant_time_compare a b ≡ true) ↔ (a ≡ b)
unfolding constant_time_compare
constant_time_compare_iff [] [] = (λ _. refl, λ _. refl)
constant_time_compare_iff [] (y ∷ b) = ground arith
constant_time_compare_iff (x ∷ a) [] = ground arith
constant_time_compare_iff (x ∷ a) (y ∷ b) =
    ground (arith, nat_beq_iff x y, constant_time_compare_iff a b)

pub compare_refl : (a : List ℕ) → constant_time_compare a a ≡ true
compare_refl a = (constant_time_compare_iff a a).1 refl
