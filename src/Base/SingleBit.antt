-- ===== src/Base/SingleBit.antt =====
-- Tests of one bit of a word, and what setting or clearing a bit does to them.
use Prim.Native.Nat.{ℕ, zero, suc, ◌+◌, ◌-◌, ◌*◌, ◌/◌, ◌^◌, ◌≤◌, ◌<◌, bit_and, bit_or}
use mathlib.Core.Path.{◌≡◌, refl, sym, ap, ◌∙◌}
use mathlib.Core.Logic.{◌⊎◌, ◌≢◌, inl, inr}
use mathlib.Core.Bool.{true, false}
use native.Mathlib.Nat.{pow-suc, div_self, pow-le-pow_right}
use native.Mathlib.Omega.{arith}
use riscv_vp_plusplus.Base.Tests.{◌==◌, ◌!=◌}
use riscv_vp_plusplus.Base.Bits.{bit_and_field, two-pow-pos}
use riscv_vp_plusplus.Base.BitAt.{
  bit_at, bit_at-bit_and, bit_at-bit_or, bit_at-complement, bit_at-above, div-two-pow-suc,
}

pub two_pow_split : (a b : ℕ) → 2 ^ (a + b) ≡ 2 ^ a * 2 ^ b
two_pow_split zero b = let e : 0 + b ≡ b = omega arith in rw e (omega arith)
two_pow_split (suc a) b =
    let e : suc a + b ≡ suc (a + b) = omega arith in
    rw (e, pow-suc 2 a, pow-suc 2 (a + b), two_pow_split a b) (grind arith)

bit_and-bit : (k x : ℕ) → bit_and x (2 ^ k) ≡ bit_at k x * 2 ^ k
bit_and-bit k x =
    let one : (2 ^ 1 - 1) * 2 ^ k ≡ 2 ^ k = omega arith in rw one at (bit_and_field 1 k x)

bit_cases : (k x : ℕ) → (bit_at k x ≡ 0) ⊎ (bit_at k x ≡ 1)
bit_cases k x = ground arith

pub bit_test : (k x : ℕ) → (bit_and x (2 ^ k) != 0) ≡ (bit_at k x == 1)
bit_test k x = elim (bit_cases k x) [
  | inl zero_bit ↦
      let e : bit_and x (2 ^ k) ≡ 0 = rw (bit_and-bit k x, zero_bit) (omega arith) in
      rw (e, zero_bit) refl
  | inr one_bit ↦
      let e : bit_and x (2 ^ k) ≡ 2 ^ k = rw (bit_and-bit k x, one_bit) (omega arith) in
      rw (e, one_bit) (ground (arith, two-pow-pos k))
]

pub bit_set : (k x : ℕ) → (bit_and x (2 ^ k) != 0) ≡ true → bit_at k x ≡ 1
bit_set k x h = ground (arith, bit_test k x)

pub bit_clear : (k x : ℕ) → (bit_and x (2 ^ k) != 0) ≡ false → bit_at k x ≡ 0
bit_clear k x h = ground (arith, bit_test k x)

bit_at-two_pow_self : (i : ℕ) → bit_at i (2 ^ i) ≡ 1
bit_at-two_pow_self i = let e : 2 ^ i / 2 ^ i ≡ 1 = div_self (two-pow-pos i) in rw e refl

bit_at-two_pow_ne : (i j : ℕ) → i ≢ j → bit_at i (2 ^ j) ≡ 0
bit_at-two_pow_ne zero zero ne = absurd (ne refl)
bit_at-two_pow_ne zero (suc j) ne = omega (arith, pow-suc 2 j)
bit_at-two_pow_ne (suc i) zero ne = bit_at-above (suc i) 1 1 (omega arith) (omega arith)
bit_at-two_pow_ne (suc i) (suc j) ne =
    let half : 2 ^ suc j / 2 ≡ 2 ^ j = omega (arith, pow-suc 2 j) in
    rw (div-two-pow-suc (2 ^ suc j) i, half) (bit_at-two_pow_ne i j (λ e. ne (ap suc e)))

two_pow_below : (j : ℕ) → j < 32 → 2 ^ j < 2 ^ 32
two_pow_below j h =
    let le : 2 ^ suc j ≤ 2 ^ 32 = pow-le-pow_right (omega arith) h in
    omega (arith, pow-suc 2 j, two-pow-pos j)

-- The test of a bit after another is set, and after another is cleared.
pub test_after_set :
    (i j w : ℕ) → i ≢ j → (bit_and (bit_or w (2 ^ j)) (2 ^ i) != 0) ≡ (bit_and w (2 ^ i) != 0)
test_after_set i j w ne =
    let other : bit_at i (bit_or w (2 ^ j)) ≡ bit_at i w =
      omega (arith, bit_at-bit_or i w (2 ^ j), bit_at-two_pow_ne i j ne) in
    bit_test i (bit_or w (2 ^ j)) ∙ rw other (sym (bit_test i w))

pub test_set : (i w : ℕ) → (bit_and (bit_or w (2 ^ i)) (2 ^ i) != 0) ≡ true
test_set i w =
    let on : bit_at i (bit_or w (2 ^ i)) ≡ 1 =
      omega (arith, bit_at-bit_or i w (2 ^ i), bit_at-two_pow_self i) in
    rw (bit_test i (bit_or w (2 ^ i)), on) refl

pub test_after_clear :
    (i j w : ℕ)
    → i < 32
    → j < 32
    → i ≢ j
    → (bit_and (bit_and w (2 ^ 32 - 1 - 2 ^ j)) (2 ^ i) != 0) ≡ (bit_and w (2 ^ i) != 0)
test_after_clear i j w hi hj ne =
    let mask = 2 ^ 32 - 1 - 2 ^ j in
    let other : bit_at i (bit_and w mask) ≡ bit_at i w = omega (
      arith,
      bit_at-bit_and i w mask,
      bit_at-complement i 32 (2 ^ j) hi (two_pow_below j hj),
      bit_at-two_pow_ne i j ne,
    ) in
    bit_test i (bit_and w mask) ∙ rw other (sym (bit_test i w))

pub test_clear :
    (i w : ℕ) → i < 32 → (bit_and (bit_and w (2 ^ 32 - 1 - 2 ^ i)) (2 ^ i) != 0) ≡ false
test_clear i w hi =
    let mask = 2 ^ 32 - 1 - 2 ^ i in
    let off : bit_at i (bit_and w mask) ≡ 0 = omega (
      arith,
      bit_at-bit_and i w mask,
      bit_at-complement i 32 (2 ^ i) hi (two_pow_below i hi),
      bit_at-two_pow_self i,
    ) in
    rw (bit_test i (bit_and w mask), off) refl
