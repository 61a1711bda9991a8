-- ===== src/Base/BitAt.antt =====
-- The bits of a word one by one: of a `bit_and`, and of a complement.
use Prim.Native.Nat.{ℕ, zero, suc, ◌-◌, ◌/◌, ◌%◌, ◌^◌, ◌≤◌, ◌<◌, min, max, bit_and, bit_or}
use mathlib.Core.Path.{◌≡◌, refl, sym, ap, ◌∙◌, ◌∙◌}
use native.Mathlib.Nat.{pow-suc, pow-succ', div-div-eq-div-mul}
use native.Mathlib.Omega.{arith}
use riscv_vp_plusplus.Base.Bits.{bit_or_step, bit_and_step}

pub div-two-pow-suc : (x k : ℕ) → x / 2 ^ suc k ≡ x / 2 / 2 ^ k
div-two-pow-suc x k = rw (pow-succ' 2 k) (sym (div-div-eq-div-mul x 2 (2 ^ k)))

bit_and-half : (a b : ℕ) → bit_and a b / 2 ≡ bit_and (a / 2) (b / 2)
bit_and-half a b = omega (arith, bit_and_step a b)

pub bit_and-div : (k a b : ℕ) → bit_and a b / 2 ^ k ≡ bit_and (a / 2 ^ k) (b / 2 ^ k)
bit_and-div zero a b = ground arith
bit_and-div (suc k) a b =
    rw (div-two-pow-suc (bit_and a b) k, div-two-pow-suc a k, div-two-pow-suc b k, bit_and-half a b)
      (bit_and-div k (a / 2) (b / 2))

-- The bit of a word at a position.
abbrev pub bit_at : ℕ → ℕ → ℕ
bit_at i x = x / 2 ^ i % 2

pub bit_at-bit_and : (i a b : ℕ) → bit_at i (bit_and a b) ≡ min (bit_at i a) (bit_at i b)
bit_at-bit_and i a b = omega (arith, bit_and-div i a b, bit_and_step (a / 2 ^ i) (b / 2 ^ i))

pub bit_at-complement : (i n x : ℕ) → i < n → x < 2 ^ n → bit_at i (2 ^ n - 1 - x) ≡ 1 - bit_at i x
bit_at-complement i zero x h hx = absurd (omega arith)
bit_at-complement zero (suc n) x h hx = omega (arith, pow-suc 2 n)
bit_at-complement (suc i) (suc n) x h hx =
    let half : (2 ^ suc n - 1 - x) / 2 ≡ 2 ^ n - 1 - x / 2 = omega (arith, pow-suc 2 n) in
    rw (div-two-pow-suc (2 ^ suc n - 1 - x) i, div-two-pow-suc x i, half)
      (bit_at-complement i n (x / 2) (omega arith) (omega (arith, pow-suc 2 n)))

pub bit_at-zero : (i : ℕ) → bit_at i 0 ≡ 0
bit_at-zero zero = refl
bit_at-zero (suc i) = rw (div-two-pow-suc 0 i) (bit_at-zero i)

bit_or-half : (a b : ℕ) → bit_or a b / 2 ≡ bit_or (a / 2) (b / 2)
bit_or-half a b = omega (arith, bit_or_step a b)

bit_or-div : (k a b : ℕ) → bit_or a b / 2 ^ k ≡ bit_or (a / 2 ^ k) (b / 2 ^ k)
bit_or-div zero a b = ground arith
bit_or-div (suc k) a b =
    rw (div-two-pow-suc (bit_or a b) k, div-two-pow-suc a k, div-two-pow-suc b k, bit_or-half a b)
      (bit_or-div k (a / 2) (b / 2))

pub bit_at-bit_or : (i a b : ℕ) → bit_at i (bit_or a b) ≡ max (bit_at i a) (bit_at i b)
bit_at-bit_or i a b = omega (arith, bit_or-div i a b, bit_or_step (a / 2 ^ i) (b / 2 ^ i))

ext_below : (n a b : ℕ) → a ≤ n → b ≤ n → ((i : ℕ) → bit_at i a ≡ bit_at i b) → a ≡ b
ext_below zero a b ha hb h = omega arith
ext_below (suc n) a b ha hb h =
    let low : a % 2 ≡ b % 2 = omega (arith, h 0) in
    let high : a / 2 ≡ b / 2 = ext_below n (a / 2) (b / 2) (omega arith) (omega arith) (λ i.
      ap (λ (t : ℕ). t % 2) (sym (div-two-pow-suc a i))
      ∙ h (suc i)
      ∙ ap (λ (t : ℕ). t % 2) (div-two-pow-suc b i)) in
    omega arith

-- Words with the same bits are the same.
pub bit_at-ext : (a b : ℕ) → ((i : ℕ) → bit_at i a ≡ bit_at i b) → a ≡ b
bit_at-ext a b h = ext_below (max a b) a b (omega arith) (omega arith) h

-- A word of `n` bits has none above them.
pub bit_at-above : (i n x : ℕ) → n ≤ i → x < 2 ^ n → bit_at i x ≡ 0
bit_at-above i zero x h hx = let e : x ≡ 0 = omega arith in rw e (bit_at-zero i)
bit_at-above zero (suc n) x h hx = absurd (omega arith)
bit_at-above (suc i) (suc n) x h hx =
    rw (div-two-pow-suc x i) (bit_at-above i n (x / 2) (omega arith) (omega (arith, pow-suc 2 n)))

pub bit_and_comm : (a b : ℕ) → bit_and a b ≡ bit_and b a
bit_and_comm a b =
    bit_at-ext (bit_and a b) (bit_and b a)
      (λ i. omega (arith, bit_at-bit_and i a b, bit_at-bit_and i b a))
