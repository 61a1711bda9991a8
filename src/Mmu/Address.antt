-- ===== src/Mmu/Address.antt =====
-- The arithmetic of the address that the walk returns.
use riscv_vp_plusplus.Base.{
  ℕ, zero, suc, ◌+◌, ◌-◌, ◌*◌, ◌/◌, ◌%◌, ◌^◌, ◌<◌, ◌≤◌, bit_and, bit_or, ◌≡◌, ◌∙◌, arith, ap,
  bit_and_field, bit_and_ones, bit_or_low, two-pow-pos, two_pow_split,
}
use native.Mathlib.Nat.{mod-lt, mod-eq_of_lt, div-lt_iff_lt-mul, div-add-mod', mul-le-mul_right}
use riscv_vp_plusplus.Mmu.{leaf_paddr}

pred_mul : (q p : ℕ) → 0 < q → 0 < p → q * p - 1 - (p - 1) ≡ (q - 1) * p
pred_mul zero p h g = absurd (omega arith)
pred_mul (suc q) p h g =
    let e : suc q - 1 ≡ q = omega arith in
    let f : suc q * p ≡ q * p + p = grind arith in rw (e, f) (omega arith)

-- An aligned frame number keeps all its bits under the mask of the high ones.
high_bits :
    (sh x : ℕ) → sh ≤ 52 → x < 2 ^ 64 → x % 2 ^ sh ≡ 0 → bit_and x (2 ^ 64 - 1 - (2 ^ sh - 1)) ≡ x
high_bits sh x le lt aligned =
    let width : 64 ≡ 64 - sh + sh = omega arith in
    let whole : 2 ^ 64 ≡ 2 ^ (64 - sh) * 2 ^ sh =
      ap (λ (n : ℕ). 2 ^ n) width ∙ two_pow_split (64 - sh) sh in
    let mask : 2 ^ 64 - 1 - (2 ^ sh - 1) ≡ (2 ^ (64 - sh) - 1) * 2 ^ sh =
      ap (λ (n : ℕ). n - 1 - (2 ^ sh - 1)) whole
      ∙ pred_mul (2 ^ (64 - sh)) (2 ^ sh) (two-pow-pos (64 - sh)) (two-pow-pos sh) in
    let fits : x < 2 ^ (64 - sh) * 2 ^ sh = omega arith in
    let below : x / 2 ^ sh < 2 ^ (64 - sh) = (div-lt_iff_lt-mul (two-pow-pos sh)).1 fits in
    let parts : x / 2 ^ sh * 2 ^ sh + x % 2 ^ sh ≡ x = div-add-mod' x (2 ^ sh) in
    ap (bit_and x) mask
    ∙ bit_and_field (64 - sh) sh x
    ∙ ap (λ (n : ℕ). n * 2 ^ sh) (mod-eq_of_lt below)
    ∙ omega arith

pub leaf_paddr_frame :
    (sh pte vaddr : ℕ)
    → sh ≤ 52
    → pte < 2 ^ 64
    → pte / 2 ^ 10 % 2 ^ sh ≡ 0
    → leaf_paddr sh pte vaddr
      ≡ (pte / 2 ^ 10 + vaddr / 2 ^ 12 % 2 ^ sh) * 2 ^ 12 % 2 ^ 64 + vaddr % 2 ^ 12
unfolding leaf_paddr
leaf_paddr_frame sh pte vaddr le lt aligned =
    let vpn = vaddr / 2 ^ 12 in
    let ppn = pte / 2 ^ 10 in
    let high : bit_and ppn (2 ^ 64 - 1 - (2 ^ sh - 1)) ≡ ppn =
      high_bits sh ppn le (omega arith) aligned in
    let low : bit_and vpn (2 ^ sh - 1) ≡ vpn % 2 ^ sh = bit_and_ones sh vpn in
    let offset : bit_and vaddr (2 ^ 12 - 1) ≡ vaddr % 2 ^ 12 = bit_and_ones 12 vaddr in
    let parts : ppn / 2 ^ sh * 2 ^ sh + ppn % 2 ^ sh ≡ ppn = div-add-mod' ppn (2 ^ sh) in
    let frame : ppn / 2 ^ sh * 2 ^ sh ≡ ppn = omega arith in
    let page : bit_or ppn (vpn % 2 ^ sh) ≡ ppn + vpn % 2 ^ sh =
      rw frame at (bit_or_low sh (ppn / 2 ^ sh) (vpn % 2 ^ sh) (mod-lt vpn (two-pow-pos sh))) in
    let n = ppn + vpn % 2 ^ sh in
    let wrap : n * 2 ^ 12 % 2 ^ 64 ≡ n % 2 ^ 52 * 2 ^ 12 = omega arith in
    let joined : bit_or (n % 2 ^ 52 * 2 ^ 12) (vaddr % 2 ^ 12)
        ≡ n % 2 ^ 52 * 2 ^ 12 + vaddr % 2 ^ 12 =
      bit_or_low 12 (n % 2 ^ 52) (vaddr % 2 ^ 12) (omega arith) in
    rw (high, low, page, offset, wrap) joined

-- A frame number of 22 bits that is aligned keeps them with the page number below its level.
pub frame_below :
    (sh ppn vpn : ℕ) → sh ≤ 22 → ppn < 2 ^ 22 → ppn % 2 ^ sh ≡ 0 → ppn + vpn % 2 ^ sh < 2 ^ 22
frame_below sh ppn vpn le lt aligned =
    let width : 22 ≡ 22 - sh + sh = omega arith in
    let whole : 2 ^ 22 ≡ 2 ^ (22 - sh) * 2 ^ sh =
      ap (λ (n : ℕ). 2 ^ n) width ∙ two_pow_split (22 - sh) sh in
    let fits : ppn < 2 ^ (22 - sh) * 2 ^ sh = omega arith in
    let below : ppn / 2 ^ sh < 2 ^ (22 - sh) = (div-lt_iff_lt-mul (two-pow-pos sh)).1 fits in
    let parts : ppn / 2 ^ sh * 2 ^ sh + ppn % 2 ^ sh ≡ ppn = div-add-mod' ppn (2 ^ sh) in
    let next : suc (ppn / 2 ^ sh) * 2 ^ sh ≤ 2 ^ (22 - sh) * 2 ^ sh =
      mul-le-mul_right (2 ^ sh) below in
    let step : suc (ppn / 2 ^ sh) * 2 ^ sh ≡ ppn / 2 ^ sh * 2 ^ sh + 2 ^ sh = grind arith in
    let low : vpn % 2 ^ sh < 2 ^ sh = mod-lt vpn (two-pow-pos sh) in omega arith
