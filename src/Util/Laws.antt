-- ===== src/Util/Laws.antt =====
-- The macros of util/common.h as quotients and remainders.
use native.Mathlib.Nat.{mul-div_left}
use riscv_vp_plusplus.Base.{
  ℕ, bit_and, ◌+◌, ◌-◌, ◌*◌, ◌/◌, ◌%◌, ◌^◌, ◌≡◌, ap, ◌∙◌, arith, bit_and_field, two-pow-pos,
}
use riscv_vp_plusplus.Util.{bit_range, bit_slice, bit_single, bit_single_p1, bit_single_pn}

pub bit_range_lem :
    (x upper lower : ℕ)
    → bit_range x upper lower ≡ x / 2 ^ lower % 2 ^ (upper - lower + 1) * 2 ^ lower
unfolding bit_range
bit_range_lem x upper lower = bit_and_field (upper - lower + 1) lower x

pub bit_slice_lem :
    (x upper lower : ℕ) → bit_slice x upper lower ≡ x / 2 ^ lower % 2 ^ (upper - lower + 1)
unfolding bit_slice
bit_slice_lem x upper lower =
    ap (λ (t : ℕ). t / 2 ^ lower) (bit_and_field (upper - lower + 1) lower x)
    ∙ mul-div_left (x / 2 ^ lower % 2 ^ (upper - lower + 1)) (two-pow-pos lower)

pub bit_single_lem : (x pos : ℕ) → bit_single x pos ≡ x / 2 ^ pos % 2 * 2 ^ pos
unfolding bit_single
bit_single_lem x pos = ap (λ (t : ℕ). bit_and x t) (omega arith) ∙ bit_and_field 1 pos x

pub bit_single_p1_lem : (x pos : ℕ) → bit_single_p1 x pos ≡ x / 2 ^ pos % 2
unfolding bit_single_p1
bit_single_p1_lem x pos =
    ap (λ (t : ℕ). t / 2 ^ pos) (bit_single_lem x pos)
    ∙ mul-div_left (x / 2 ^ pos % 2) (two-pow-pos pos)

pub bit_single_pn_lem :
    (x pos new_pos : ℕ) → bit_single_pn x pos new_pos ≡ x / 2 ^ pos % 2 * 2 ^ new_pos
unfolding bit_single_pn bit_single_p1
bit_single_pn_lem x pos new_pos = ap (λ (t : ℕ). t * 2 ^ new_pos) (bit_single_p1_lem x pos)
