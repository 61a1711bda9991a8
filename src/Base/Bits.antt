-- ===== src/Base/Bits.antt =====
-- Laws of `bit_and`, `bit_or` and `bit_xor`, at every width: a word cut at a bit position is worked
-- on part by part. From these come the masks and fields of util/common.h as arithmetic.
use Prim.Native.Nat.{
  ℕ, zero, suc, ◌+◌, ◌-◌, ◌*◌, ◌/◌, ◌%◌, ◌^◌, ◌≤◌, ◌<◌, min, max, bit_and, bit_or, digits, bitwise,
  bit_and-bitwise, bit_or-bitwise,
}
use mathlib.Core.Path.{◌≡◌, refl, sym, ap, ap₂, ◌∙◌}
use native.Mathlib.Nat.{pow-suc, one-le-pow, mod-lt, div-add-mod'}
use mathlib.Core.Logic.{inl, inr}
use native.Mathlib.Omega.{arith}
use riscv_vp_plusplus.Base.Tests.{Bool-cases, leb}

-- A recursion on binary digits: `last` is the result on what is left of the second word where the
-- first has run out, and `op` works on two digits.
module _ (last : ℕ → ℕ) (op : ℕ → ℕ → ℕ)
    (run_out : (y : ℕ) → last y ≡ last (y / 2) * 2 + op 0 (y % 2)) where
  spare_digit :
      (count x y : ℕ) → x ≤ count → digits last op (suc count) x y ≡ digits last op count x y
  spare_digit zero zero y h = refl
  spare_digit zero (suc x) y h = absurd (omega arith)
  spare_digit (suc count) zero y h = refl
  spare_digit (suc count) (suc x) y h =
      ap (λ (rest : ℕ). rest * 2 + op (suc x % 2) (y % 2))
        (spare_digit count (suc x / 2) (y / 2) (omega arith))

  digits-bitwise : (count x y : ℕ) → x ≤ count → digits last op count x y ≡ bitwise last op x y
  digits-bitwise zero zero y h = refl
  digits-bitwise zero (suc x) y h = absurd (omega arith)
  digits-bitwise (suc count) x y h = elim (Bool-cases (leb x count)) [
    | inl fits ↦
        let le : x ≤ count = ground arith in spare_digit count x y le ∙ digits-bitwise count x y le
    | inr tight ↦
        let same : x ≡ suc count = ground arith in ap (λ (n : ℕ). digits last op n x y) (sym same)
  ]

  bitwise-halves :
      (x y : ℕ) → bitwise last op x y ≡ bitwise last op (x / 2) (y / 2) * 2 + op (x % 2) (y % 2)
  bitwise-halves zero y = run_out y
  bitwise-halves (suc x) y =
      ap (λ (rest : ℕ). rest * 2 + op (suc x % 2) (y % 2))
        (digits-bitwise x (suc x / 2) (y / 2) (omega arith))

pub bit_or_step : (x y : ℕ) → bit_or x y ≡ bit_or (x / 2) (y / 2) * 2 + max (x % 2) (y % 2)
bit_or_step x y = simp bit_or-bitwise (bitwise-halves (λ n. n) max (λ n. omega arith) x y)

pub bit_and_step : (x y : ℕ) → bit_and x y ≡ bit_and (x / 2) (y / 2) * 2 + min (x % 2) (y % 2)
bit_and_step x y = simp bit_and-bitwise (bitwise-halves (λ n. 0) min (λ n. omega arith) x y)

double_step : (c n : ℕ) → c * 2 ^ suc n ≡ 2 * (c * 2 ^ n)
double_step c n = ap (λ (p : ℕ). c * p) (pow-suc 2 n) ∙ omega arith

module _ (p q : ℕ) where
  pub bit_and_split :
      (k r s : ℕ)
      → r < 2 ^ k
      → s < 2 ^ k
      → bit_and (p * 2 ^ k + r) (q * 2 ^ k + s) ≡ bit_and p q * 2 ^ k + bit_and r s
  bit_and_split zero r s hr hs = ground arith
  bit_and_split (suc k) r s hr hs = ground (
    arith,
    bit_and_step (p * 2 ^ suc k + r) (q * 2 ^ suc k + s),
    bit_and_step r s,
    double_step p k,
    double_step q k,
    double_step (bit_and p q) k,
    pow-suc 2 k,
    bit_and_split k (r / 2) (s / 2) (omega (arith, pow-suc 2 k)) (omega (arith, pow-suc 2 k)),
  )

  pub bit_or_split :
      (k r s : ℕ)
      → r < 2 ^ k
      → s < 2 ^ k
      → bit_or (p * 2 ^ k + r) (q * 2 ^ k + s) ≡ bit_or p q * 2 ^ k + bit_or r s
  bit_or_split zero r s hr hs = ground arith
  bit_or_split (suc k) r s hr hs = ground (
    arith,
    bit_or_step (p * 2 ^ suc k + r) (q * 2 ^ suc k + s),
    bit_or_step r s,
    double_step p k,
    double_step q k,
    double_step (bit_or p q) k,
    pow-suc 2 k,
    bit_or_split k (r / 2) (s / 2) (omega (arith, pow-suc 2 k)) (omega (arith, pow-suc 2 k)),
  )

pub zero-bit_and : (b : ℕ) → bit_and 0 b ≡ 0
zero-bit_and b = bit_and-bitwise 0 b

zero-bit_or : (b : ℕ) → bit_or 0 b ≡ b
zero-bit_or b = bit_or-bitwise 0 b

bit_and-zero_below : (n a : ℕ) → a ≤ n → bit_and a 0 ≡ 0
bit_and-zero_below n zero h = refl
bit_and-zero_below zero (suc a) h = absurd (omega arith)
bit_and-zero_below (suc n) (suc a) h =
    omega (arith, bit_and_step (suc a) 0, bit_and-zero_below n (suc a / 2) (omega arith))

pub bit_and-zero : (a : ℕ) → bit_and a 0 ≡ 0
bit_and-zero a = bit_and-zero_below a a (omega arith)

bit_or-zero_below : (n a : ℕ) → a ≤ n → bit_or a 0 ≡ a
bit_or-zero_below n zero h = refl
bit_or-zero_below zero (suc a) h = absurd (omega arith)
bit_or-zero_below (suc n) (suc a) h =
    omega (arith, bit_or_step (suc a) 0, bit_or-zero_below n (suc a / 2) (omega arith))

pub bit_or-zero : (a : ℕ) → bit_or a 0 ≡ a
bit_or-zero a = bit_or-zero_below a a (omega arith)

ones_keep : (k q r : ℕ) → r < 2 ^ k → bit_and (q * 2 ^ k + r) (2 ^ k - 1) ≡ r
ones_keep zero q r h = rw bit_and-zero (omega arith)
ones_keep (suc k) q r h = ground (
  arith,
  bit_and_step (q * 2 ^ suc k + r) (2 ^ suc k - 1),
  double_step q k,
  pow-suc 2 k,
  one-le-pow k 2,
  ones_keep k q (r / 2) (omega (arith, pow-suc 2 k)),
)

-- A mask of `k` ones is the remainder by `2 ^ k`.
pub bit_and_ones : (k a : ℕ) → bit_and a (2 ^ k - 1) ≡ a % 2 ^ k
bit_and_ones k a = ground (arith, one-le-pow k 2, ones_keep k (a / 2 ^ k) (a % 2 ^ k))

pub two-pow-pos : (k : ℕ) → 0 < 2 ^ k
two-pow-pos k = one-le-pow k 2 (omega arith)

bit_or_high_low : (m h b : ℕ) → b < 2 ^ m → bit_or (h * 2 ^ m + 0) (0 * 2 ^ m + b) ≡ h * 2 ^ m + b
bit_or_high_low m h b hb =
    rw (bit_or_split h 0 m 0 b (two-pow-pos m) hb, bit_or-zero h, zero-bit_or b) refl

pub bit_or_low : (m h b : ℕ) → b < 2 ^ m → bit_or (h * 2 ^ m) b ≡ h * 2 ^ m + b
bit_or_low m h b hb =
    let high : h * 2 ^ m + 0 ≡ h * 2 ^ m = omega arith in
    let low : 0 * 2 ^ m + b ≡ b = omega arith in
    ap₂ bit_or (sym high) (sym low) ∙ bit_or_high_low m h b hb

-- Disjoint parts: `a` lies below bit `l`, `b` in the `m` bits from bit `l` up, and `h` above them.
pub bit_or_disjoint :
    (m l h a b : ℕ)
    → a < 2 ^ l
    → b < 2 ^ m
    → bit_or ((h * 2 ^ m + 0) * 2 ^ l + a) ((0 * 2 ^ m + b) * 2 ^ l + 0)
      ≡ (h * 2 ^ m + b) * 2 ^ l + a
bit_or_disjoint m l h a b ha hb =
    rw
      (
        bit_or_split (h * 2 ^ m + 0) (0 * 2 ^ m + b) l a 0 ha (two-pow-pos l),
        bit_or_high_low m h b hb,
        bit_or-zero a,
      )
      refl

-- The same for words that have those parts.
pub bit_or_add :
    (m l h a b x y : ℕ)
    → x ≡ (h * 2 ^ m + 0) * 2 ^ l + a
    → y ≡ (0 * 2 ^ m + b) * 2 ^ l + 0
    → a < 2 ^ l
    → b < 2 ^ m
    → bit_or x y ≡ x + y
bit_or_add m l h a b x y ex ey ha hb = rw (ex, ey, bit_or_disjoint m l h a b ha hb) (grind arith)

bit_and_high :
    (k l q r : ℕ)
    → r < 2 ^ l
    → bit_and (q * 2 ^ l + r) ((2 ^ k - 1) * 2 ^ l + 0) ≡ q % 2 ^ k * 2 ^ l
bit_and_high k l q r h =
    rw (bit_and_split q (2 ^ k - 1) l r 0 h (two-pow-pos l), bit_and_ones k q, bit_and-zero r)
      (omega arith)

-- A mask of `k` ones from bit `l` up keeps that field in its place.
pub bit_and_field : (k l x : ℕ) → bit_and x ((2 ^ k - 1) * 2 ^ l) ≡ x / 2 ^ l % 2 ^ k * 2 ^ l
bit_and_field k l x =
    let whole : x / 2 ^ l * 2 ^ l + x % 2 ^ l ≡ x = div-add-mod' x (2 ^ l) in
    let mask : (2 ^ k - 1) * 2 ^ l + 0 ≡ (2 ^ k - 1) * 2 ^ l = omega arith in
    ap₂ bit_and (sym whole) (sym mask)
    ∙ bit_and_high k l (x / 2 ^ l) (x % 2 ^ l) (mod-lt x (two-pow-pos l))

-- A mask is applied above and below a bit position apart.
pub bit_and_cut :
    (k x q s : ℕ)
    → s < 2 ^ k
    → bit_and x (q * 2 ^ k + s) ≡ bit_and (x / 2 ^ k) q * 2 ^ k + bit_and (x % 2 ^ k) s
bit_and_cut k x q s h =
    ap (λ (t : ℕ). bit_and t (q * 2 ^ k + s)) (sym (div-add-mod' x (2 ^ k)))
    ∙ bit_and_split (x / 2 ^ k) q k (x % 2 ^ k) s (mod-lt x (two-pow-pos k)) h
