-- ===== src/Instr/Immediates.antt =====
-- The immediates that the accessors of core/common/instr.h read back from the words of the factory:
-- the scattered bits of each format come back in their places, sign extended.
use riscv_vp_plusplus.Base.{
  ℕ, ◌+◌, ◌-◌, ◌*◌, ◌/◌, ◌%◌, ◌^◌, ◌<◌, ◌≡◌, arith, bit_or, bit_or_add, sar, sign_extend,
}
use riscv_vp_plusplus.Util.{bit_range, bit_single}
use riscv_vp_plusplus.Util.Laws.{bit_range_lem, bit_single_lem}
use riscv_vp_plusplus.Instr.Fields.{i_imm, s_imm, b_imm, j_imm, u_imm}
use riscv_vp_plusplus.Instr.Factory.{i_type, s_type, b_type, jal, lui}
use riscv_vp_plusplus.Instr.Factory.Words.{i_type_lem, s_type_lem, b_type_lem, jal_lem, lui_lem}

-- The immediate of an assembled I-type word is the 12 low bits of the one that it was made from,
-- sign extended.
i_imm-i_type :
    (op f3 rd rs1 imm : ℕ)
    → op < 128
    → f3 < 8
    → i_imm (i_type op f3 rd rs1 imm) ≡ sign_extend 12 imm
unfolding i_imm
i_imm-i_type op f3 rd rs1 imm h1 h2 =
    let w = i_type op f3 rd rs1 imm in
    let e : bit_range w 31 20 ≡ imm % 4096 * 2 ^ 20 =
      omega (arith, i_type_lem op f3 rd rs1 imm h1 h2, bit_range_lem w 31 20) in
    rw e (ground arith)

pub u_imm-lui : (rd imm : ℕ) → u_imm (lui rd imm) ≡ imm / 2 ^ 12 % 2 ^ 20 * 2 ^ 12
unfolding u_imm
u_imm-lui rd imm = omega (arith, lui_lem rd imm, bit_range_lem (lui rd imm) 31 12)

s_imm_parts : (n lo : ℕ) → n < 134217728 → lo < 32 → bit_or (n * 2 ^ 5) lo ≡ lo + n * 2 ^ 5
s_imm_parts n lo h_n h_lo =
    let p1 =
      bit_or_add 5 0 n 0 lo (n * 2 ^ 5) lo (omega arith) (omega arith) (omega arith)
        (omega arith) in
    omega (arith, p1)

b_imm_parts :
    (n b11 mid lo : ℕ)
    → n < 1048576
    → b11 < 2
    → mid < 64
    → lo < 16
    → bit_or (bit_or (bit_or (n * 2 ^ 12) (b11 * 2 ^ 11)) (mid * 2 ^ 5)) (lo * 2 ^ 1)
      ≡ lo * 2 ^ 1 + mid * 2 ^ 5 + b11 * 2 ^ 11 + n * 2 ^ 12
b_imm_parts n b11 mid lo h_n h_b11 h_mid h_lo =
    let p1 =
      bit_or_add 1 11 n 0 b11 (n * 2 ^ 12) (b11 * 2 ^ 11) (omega arith) (omega arith) (omega arith)
        (omega arith) in
    let p2 =
      bit_or_add 6 5 (n * 2 ^ 1 + b11) 0 mid (bit_or (n * 2 ^ 12) (b11 * 2 ^ 11)) (mid * 2 ^ 5)
        (omega (arith, p1)) (omega (arith, p1)) (omega arith) (omega arith) in
    let p3 =
      bit_or_add 4 1 (n * 2 ^ 7 + b11 * 2 ^ 6 + mid) 0 lo
        (bit_or (bit_or (n * 2 ^ 12) (b11 * 2 ^ 11)) (mid * 2 ^ 5)) (lo * 2 ^ 1)
        (omega (arith, p1, p2)) (omega (arith, p1, p2)) (omega arith) (omega arith) in
    omega (arith, p1, p2, p3)

j_imm_parts :
    (n hi b11 lo : ℕ)
    → n < 4096
    → hi < 256
    → b11 < 2
    → lo < 1024
    → bit_or (bit_or (bit_or (n * 2 ^ 20) (hi * 2 ^ 12)) (b11 * 2 ^ 11)) (lo * 2 ^ 1)
      ≡ lo * 2 ^ 1 + b11 * 2 ^ 11 + hi * 2 ^ 12 + n * 2 ^ 20
j_imm_parts n hi b11 lo h_n h_hi h_b11 h_lo =
    let p1 =
      bit_or_add 8 12 n 0 hi (n * 2 ^ 20) (hi * 2 ^ 12) (omega arith) (omega arith) (omega arith)
        (omega arith) in
    let p2 =
      bit_or_add 1 11 (n * 2 ^ 8 + hi) 0 b11 (bit_or (n * 2 ^ 20) (hi * 2 ^ 12)) (b11 * 2 ^ 11)
        (omega (arith, p1)) (omega (arith, p1)) (omega arith) (omega arith) in
    let p3 =
      bit_or_add 10 1 (n * 2 ^ 9 + hi * 2 ^ 1 + b11) 0 lo
        (bit_or (bit_or (n * 2 ^ 20) (hi * 2 ^ 12)) (b11 * 2 ^ 11)) (lo * 2 ^ 1)
        (omega (arith, p1, p2)) (omega (arith, p1, p2)) (omega arith) (omega arith) in
    omega (arith, p1, p2, p3)

-- The upper part of an immediate after the arithmetic shift: `n` bits from bit `k` up.
abbrev sign_bits : ℕ → ℕ → ℕ
sign_bits k bit = bit * (2 ^ (32 - k) - 1)

-- The offset of an assembled store is the 12 low bits of the offset that it was made from, sign
-- extended.
s_imm-s_type :
    (op f3 rs1 rs2 imm : ℕ)
    → op < 128
    → f3 < 8
    → s_imm (s_type op f3 rs1 rs2 imm) ≡ sign_extend 12 imm
unfolding s_imm
s_imm-s_type op f3 rs1 rs2 imm h1 h2 =
    let w = s_type op f3 rs1 rs2 imm in
    let l = s_type_lem op f3 rs1 rs2 imm h1 h2 in
    let e1 : bit_range w 31 25 ≡ imm / 32 % 128 * 2 ^ 25 =
      omega (arith, l, bit_range_lem w 31 25) in
    let e2 : bit_range w 11 7 / 2 ^ 7 ≡ imm % 32 = omega (arith, l, bit_range_lem w 11 7) in
    let e3 : sar (imm / 32 % 128 * 2 ^ 25) 20
        ≡ (imm / 32 % 128 + imm / 2048 % 2 * (2 ^ 27 - 2 ^ 7)) * 2 ^ 5 =
      ground arith in
    rw
      (
        e1,
        e2,
        e3,
        s_imm_parts (imm / 32 % 128 + imm / 2048 % 2 * (2 ^ 27 - 2 ^ 7)) (imm % 32) (omega arith)
            (omega arith),
      )
      (ground arith)

-- The branch offset of an assembled branch is the 13-bit offset that it was made from, sign
-- extended, with its lowest bit cleared.
b_imm-b_type :
    (f3 rs1 rs2 imm : ℕ) → f3 < 8 → b_imm (b_type f3 rs1 rs2 imm) ≡ sign_extend 13 (imm / 2 * 2)
unfolding b_imm
b_imm-b_type f3 rs1 rs2 imm h =
    let w = b_type f3 rs1 rs2 imm in
    let l = b_type_lem f3 rs1 rs2 imm h in
    let e1 : bit_single w 31 ≡ imm / 2 ^ 12 % 2 * 2 ^ 31 = omega (arith, l, bit_single_lem w 31) in
    let e2 : bit_single w 7 * 2 ^ 4 ≡ imm / 2 ^ 11 % 2 * 2 ^ 11 =
      omega (arith, l, bit_single_lem w 7) in
    let e3 : bit_range w 30 25 / 2 ^ 20 ≡ imm / 32 % 64 * 2 ^ 5 =
      omega (arith, l, bit_range_lem w 30 25) in
    let e4 : bit_range w 11 8 / 2 ^ 7 ≡ imm / 2 % 16 * 2 ^ 1 =
      omega (arith, l, bit_range_lem w 11 8) in
    let e5 : sar (imm / 2 ^ 12 % 2 * 2 ^ 31) 19 ≡ sign_bits 12 (imm / 2 ^ 12 % 2) * 2 ^ 12 =
      ground arith in
    rw
      (
        e1,
        e2,
        e3,
        e4,
        e5,
        b_imm_parts (sign_bits 12 (imm / 2 ^ 12 % 2)) (imm / 2 ^ 11 % 2) (imm / 32 % 64)
            (imm / 2 % 16) (omega arith) (omega arith) (omega arith) (omega arith),
      )
      (ground arith)

-- The jump offset of a JAL word is the 21-bit offset that it was made from, sign extended, with
-- its lowest bit cleared.
j_imm-jal : (rd imm : ℕ) → j_imm (jal rd imm) ≡ sign_extend 21 (imm / 2 * 2)
unfolding j_imm
j_imm-jal rd imm =
    let w = jal rd imm in
    let l = jal_lem rd imm in
    let e1 : bit_single w 31 ≡ imm / 2 ^ 20 % 2 * 2 ^ 31 = omega (arith, l, bit_single_lem w 31) in
    let e2 : bit_range w 19 12 ≡ imm / 2 ^ 12 % 256 * 2 ^ 12 =
      omega (arith, l, bit_range_lem w 19 12) in
    let e3 : bit_single w 20 / 2 ^ 9 ≡ imm / 2 ^ 11 % 2 * 2 ^ 11 =
      omega (arith, l, bit_single_lem w 20) in
    let e4 : bit_range w 30 21 / 2 ^ 20 ≡ imm / 2 % 1024 * 2 ^ 1 =
      omega (arith, l, bit_range_lem w 30 21) in
    let e5 : sar (imm / 2 ^ 20 % 2 * 2 ^ 31) 11 ≡ sign_bits 20 (imm / 2 ^ 20 % 2) * 2 ^ 20 =
      ground arith in
    rw
      (
        e1,
        e2,
        e3,
        e4,
        e5,
        j_imm_parts (sign_bits 20 (imm / 2 ^ 20 % 2)) (imm / 2 ^ 12 % 256) (imm / 2 ^ 11 % 2)
            (imm / 2 % 1024) (omega arith) (omega arith) (omega arith) (omega arith),
      )
      (ground arith)
