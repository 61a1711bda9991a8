-- ===== src/Rv32/Exec/Arith/Laws.antt =====
-- The results of the multiplications and divisions fit together.
use native.Mathlib.Nat.{div-add-mod', mod-lt, div-le_self, add-mul, mul_comm, mul-le-mul}
use riscv_vp_plusplus.Base.{
  ℕ, zero, suc, ◌+◌, ◌-◌, ◌*◌, ◌/◌, ◌%◌, ◌^◌, ◌≡◌, ◌≢◌, ◌<◌, ◌≤◌, sym, ap, ◌∙◌, ◌⊎◌, inl, inr,
  arith, bit_and, bit_and_field, bit_and_ones, ltb, Bool-cases, ◌==◌, ◌&&◌,
}
use riscv_vp_plusplus.Rv32.Exec.Arith.{
  div, rem, divu, remu, mul, mulh, mulhu, to_int64, signed_div, signed_mod, magnitude, negate,
}

halves : (x : ℕ) → x < 2 ^ 64 → x / 2 ^ 32 % 2 ^ 32 * 2 ^ 32 + x % 2 ^ 32 ≡ x
halves x h = omega arith

high_lem : (x : ℕ) → bit_and x 0xFFFFFFFF00000000 / 2 ^ 32 ≡ x / 2 ^ 32 % 2 ^ 32
high_lem x = omega (arith, bit_and_field 32 32 x)

-- The results of MULH and MUL are the two halves of the 64-bit product of the sign-extended
-- operands.
pub mulh-mul : (a b : ℕ) → mulh a b * 2 ^ 32 + mul a b ≡ to_int64 a * to_int64 b % 2 ^ 64
unfolding mulh mul
mulh-mul a b =
    let x = to_int64 a * to_int64 b % 2 ^ 64 in
    omega (arith, bit_and_ones 32 x, high_lem x, halves x (omega arith))

lt_le : (x : ℕ) → x < 2 ^ 32 → x ≤ 2 ^ 32 - 1
lt_le x h = omega arith

mul_low : (a b p q : ℕ) → (a + p * 2 ^ 32) * (b + q * 2 ^ 32) % 2 ^ 32 ≡ a * b % 2 ^ 32
mul_low a b p q = grind arith

to_int64-form : (a : ℕ) → (p : ℕ) × (to_int64 a ≡ a + p * 2 ^ 32)
to_int64-form a = elim (Bool-cases (ltb a (2 ^ 31))) [
  | inl x ↦ (0, ground arith)
  | inr x ↦ (2 ^ 32 - 1, ground arith)
]

to_int64-low : (a b : ℕ) → to_int64 a * to_int64 b % 2 ^ 32 ≡ a * b % 2 ^ 32
to_int64-low a b =
    let (p, x) = to_int64-form a in let (q, y) = to_int64-form b in rw (x, y) (mul_low a b p q)

-- For all 32-bit operands, the results of MULHU and MUL are the two halves of the product of the
-- unsigned operands.
mulhu-mul : (a b : ℕ) → a < 2 ^ 32 → b < 2 ^ 32 → mulhu a b * 2 ^ 32 + mul a b ≡ a * b
unfolding mulhu mul
mulhu-mul a b ha hb =
    let bound : a * b < 2 ^ 64 = omega (arith, mul-le-mul (lt_le a ha) (lt_le b hb)) in
    omega (
      arith,
      to_int64-low a b,
      bit_and_ones 32 (to_int64 a * to_int64 b % 2 ^ 64),
      high_lem (a * b % 2 ^ 64),
    )

-- The results of DIVU and REMU satisfy `q * b + r = a` for all 32-bit operands, also at a divisor
-- of zero, and the remainder is smaller than a divisor that is not zero.
divu-remu :
    (a b : ℕ) → a < 2 ^ 32 → b < 2 ^ 32 → (divu a b * b + remu a b ≡ a) × ((b ≡ 0) ⊎ (remu a b < b))
unfolding divu remu
divu-remu a b ha hb = ground (arith, div-add-mod' a b)

mul-complement : (x y : ℕ) → x ≤ 2 ^ 32 → (2 ^ 32 - x) * y + x * y ≡ 2 ^ 32 * y
mul-complement x y h =
    let whole : (2 ^ 32 - x) + x ≡ 2 ^ 32 = omega arith in
    sym (add-mul (2 ^ 32 - x) x y) ∙ ap (λ (t : ℕ). t * y) whole

negate-mul : (q y : ℕ) → q < 2 ^ 32 → (negate q * y + q * y) % 2 ^ 32 ≡ 0
negate-mul zero y h = omega arith
negate-mul (suc q) y h =
    let whole : negate (suc q) ≡ 2 ^ 32 - suc q = omega arith in
    rw whole (omega (arith, mul-complement (suc q) y (omega arith)))

module _ (q r b y : ℕ) (hq : q < 2 ^ 32) (hr : r < 2 ^ 32) (hy : y < 2 ^ 32) where
  both_negative :
      b ≡ 2 ^ 32 - y
      → q * y + r < 2 ^ 32 + 1
      → (q * b + negate r) % 2 ^ 32 ≡ (2 ^ 32 - (q * y + r)) % 2 ^ 32
  both_negative e h =
      rw e (omega (arith, mul_comm q (2 ^ 32 - y), mul_comm q y, mul-complement y q (omega arith)))

  dividend_negative :
      q * y + r < 2 ^ 32 + 1 → (negate q * y + negate r) % 2 ^ 32 ≡ (2 ^ 32 - (q * y + r)) % 2 ^ 32
  dividend_negative h = omega (arith, negate-mul q y hq)

  divisor_negative :
      b ≡ 2 ^ 32 - y → q * y + r < 2 ^ 32 + 1 → (negate q * b + r) % 2 ^ 32 ≡ (q * y + r) % 2 ^ 32
  divisor_negative e h = rw e (
      omega (
        arith,
        negate-mul q (2 ^ 32 - y) hq,
        mul_comm q (2 ^ 32 - y),
        mul_comm q y,
        mul-complement y q (omega arith),
      ))

-- The quotient and the remainder of a magnitude.
DivMod : ℕ → ℕ → ℕ → ℕ → Type 0
DivMod x y q r = (q * y + r ≡ x) × (r < y) × (q ≤ x)

magnitudes : (x y : ℕ) → 0 < y → DivMod x y (x / y) (x % y)
unfolding DivMod
magnitudes x y h = (div-add-mod' x y, mod-lt x h, div-le_self x y)

magnitude-negate : (r : ℕ) → r < 2 ^ 31 → magnitude (negate r) ≡ r
magnitude-negate r h = ground arith

-- The signs put back on the quotient and the remainder of the magnitudes.
signed_div-signed_mod :
    (a b : ℕ)
    → a < 2 ^ 32
    → b < 2 ^ 32
    → b ≢ 0
    → ((signed_div a b * b + signed_mod a b) % 2 ^ 32 ≡ a)
      × (magnitude (signed_mod a b) < magnitude b)
unfolding DivMod
signed_div-signed_mod a b ha hb h = elim (Bool-cases (ltb a (2 ^ 31))) [
  | inl x ↦ elim (Bool-cases (ltb b (2 ^ 31))) [
    | inl y ↦
        let (whole, small, le) = magnitudes a b (ground arith) in
        rw (x, y) (omega arith, ground arith)
    | inr y ↦
        let (whole, small, le) = magnitudes a (2 ^ 32 - b) (omega arith) in
        rw (x, y)
          (
            divisor_negative _ _ b (2 ^ 32 - b) (omega arith) (omega arith) (ground arith)
                  (omega arith) (ground arith)
                ∙ ground arith,
            ground arith,
          )
  ]
  | inr x ↦ elim (Bool-cases (ltb b (2 ^ 31))) [
    | inl y ↦
        let (whole, small, le) = magnitudes (2 ^ 32 - a) b (ground arith) in
        rw (x, y)
          (
            dividend_negative _ _ 0 b (ground arith) (ground arith) (ground arith) (ground arith)
                ∙ ground arith,
            ground arith,
          )
    | inr y ↦
        let (whole, small, le) = magnitudes (2 ^ 32 - a) (2 ^ 32 - b) (omega arith) in
        rw (x, y)
          (
            both_negative _ _ b (2 ^ 32 - b) (ground arith) (ground arith) (ground arith)
                  (ground arith) (ground arith)
                ∙ ground arith,
            ground arith,
          )
  ]
]

-- For all 32-bit operands, the results of DIV and REM satisfy `q * b + r = a` modulo 2 ^ 32, also
-- at a divisor of zero and at the signed overflow, and the remainder is smaller in magnitude than
-- a divisor that is not zero.
pub div-rem :
    (a b : ℕ)
    → a < 2 ^ 32
    → b < 2 ^ 32
    → ((div a b * b + rem a b) % 2 ^ 32 ≡ a) × ((b ≡ 0) ⊎ (magnitude (rem a b) < magnitude b))
unfolding div rem
div-rem a b ha hb = elim (Bool-cases (b == 0)) [
  | inl z ↦ ground arith
  | inr n ↦
      let (whole, small) = signed_div-signed_mod a b ha hb (λ e. absurd (ground arith)) in
      elim (Bool-cases (a == 2 ^ 31 && b == 2 ^ 32 - 1)) [
        | inl o ↦ ground arith
        | inr m ↦ rw (n, m) (whole, inr small)
      ]
]
