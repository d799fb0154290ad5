-- ===== src/Gateway/Checks/Pin.antt =====
-- The comparison of the PIN in constant time.
use zshell_gateway.Base.{
  ℕ, zero, suc, ◌%◌, ◌^◌, ◌≤◌, ◌<◌, String, ◌≡◌, refl, ap, sym, ◌∙◌, ◌↔◌, Bool, true, false, ◌&&◌,
  List, [], ◌∷◌, length, arith, nat_beq_iff,
}
use zshell_gateway.Text.Utf8.{utf8}
use zshell_gateway.Text.Compare.{constant_time_compare}
use zshell_gateway.Text.Compare.{constant_time_compare_iff}
use zshell_gateway.Gateway.Checks.{fill, constant_time_pin_equal}

head_eq : {x y : ℕ} {a b : List ℕ} → ◌≡◌ {A = List ℕ} (x ∷ a) (y ∷ b) → (x ≡ y) × (a ≡ b)
head_eq e = (ground (arith, e), ground (arith, e))

-- The array keeps every byte of a text that fits.
fill_inj : (n : ℕ) (a b : List ℕ) → length a ≤ n → length a ≡ length b → fill n a ≡ fill n b → a ≡ b
unfolding fill
fill_inj n [] [] le same e = refl
fill_inj n [] (y ∷ b) le same e = absurd (omega (arith, same))
fill_inj n (x ∷ a) [] le same e = absurd (omega (arith, same))
fill_inj zero (x ∷ a) (y ∷ b) le same e = absurd (omega (arith, le))
fill_inj (suc n) (x ∷ a) (y ∷ b) le same e =
    let parts = head_eq e in
    let rest : a ≡ b = fill_inj n a b (omega (arith, le)) (omega (arith, same)) parts.1 in
    ground (arith, parts.0, rest)

both_iff : (a b : Bool) → (a && b ≡ true) ↔ ((a ≡ true) × (b ≡ true))
both_iff true b = (λ h. (refl, h), λ h. h.1)
both_iff false b = (λ h. ground (arith, h), λ h. h.0)

small_mod : (n : ℕ) → n < 4294967296 → n % 4294967296 ≡ n
small_mod n h = omega (arith, h)

-- A PIN of at most 512 bytes is equal to what is presented exactly when the bytes are the same, if
-- these are fewer than 2^32.
pub constant_time_pin_equal_iff :
    (expected presented : String)
    → length (utf8 expected) ≤ 512
    → length (utf8 presented) < 2 ^ 32
    → (constant_time_pin_equal expected presented ≡ true) ↔ (utf8 expected ≡ utf8 presented)
unfolding constant_time_pin_equal
constant_time_pin_equal_iff expected presented short fits = (same, equal)
  where
    left : List ℕ
    left = utf8 expected

    right : List ℕ
    right = utf8 presented

    same : constant_time_pin_equal expected presented ≡ true → left ≡ right
    same h =
        let parts = (both_iff (constant_time_compare (fill 512 left) (fill 512 right)) _).0 h in
        let lengths : length left ≡ length right =
          sym (small_mod (length left) (omega (arith, short)))
          ∙ (nat_beq_iff (length left % 2 ^ 32) (length right % 2 ^ 32)).0 parts.1
          ∙ small_mod (length right) fits in
        fill_inj 512 left right short lengths
          ((constant_time_compare_iff (fill 512 left) (fill 512 right)).0 parts.0)

    equal : left ≡ right → constant_time_pin_equal expected presented ≡ true
    equal e = (both_iff (constant_time_compare (fill 512 left) (fill 512 right)) _).1 (
      (constant_time_compare_iff (fill 512 left) (fill 512 right)).1 (ap (fill 512) e),
      (nat_beq_iff (length left % 2 ^ 32) (length right % 2 ^ 32)).1
          (ap (λ z. length z % 2 ^ 32) e),
    )
