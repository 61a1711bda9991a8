-- ===== src/Instr/Fields.antt =====
-- vp/src/core/common/instr.h, `struct Instruction`: the fields and immediates of an instruction
-- word. The word and the immediates are 32-bit patterns.
use riscv_vp_plusplus.Base.{ℕ, ◌*◌, ◌/◌, ◌^◌, bit_and, bit_or, sar, Bool, ltb}
use riscv_vp_plusplus.Util.{bit_range, bit_slice, bit_single, bit_single_p1, extract_sign_bit}
pub mod Laws

unfoldable pub quadrant : ℕ → ℕ
quadrant instr = bit_and instr 3

unfoldable pub is_compressed : ℕ → Bool
unfolding quadrant
is_compressed instr = ltb (quadrant instr) 3

unfoldable pub c_format : ℕ → ℕ
c_format instr = bit_and instr 0xffff

unfoldable pub c_opcode : ℕ → ℕ
unfolding bit_slice
c_opcode instr = bit_slice instr 15 13

unfoldable pub c_b12 : ℕ → ℕ
unfolding bit_single_p1
c_b12 instr = bit_single_p1 instr 12

unfoldable pub c_rd_small : ℕ → ℕ
unfolding bit_slice
c_rd_small instr = bit_or (bit_slice instr 9 7) 8

unfoldable pub c_rs2_small : ℕ → ℕ
unfolding bit_slice
c_rs2_small instr = bit_or (bit_slice instr 4 2) 8

unfoldable pub c_rs2 : ℕ → ℕ
unfolding bit_slice
c_rs2 instr = bit_slice instr 6 2

unfoldable pub c_imm : ℕ → ℕ
unfolding bit_slice extract_sign_bit
c_imm instr = bit_or (bit_slice instr 6 2) (extract_sign_bit instr 12 5)

unfoldable pub c_uimm : ℕ → ℕ
unfolding bit_slice bit_single_p1
c_uimm instr = bit_or (bit_slice instr 6 2) (bit_single_p1 instr 12 * 2 ^ 5)

unfoldable pub c_f2_high : ℕ → ℕ
unfolding bit_slice
c_f2_high instr = bit_slice instr 11 10

unfoldable pub c_f2_low : ℕ → ℕ
unfolding bit_slice
c_f2_low instr = bit_slice instr 6 5

unfoldable pub csr : ℕ → ℕ
unfolding bit_range
csr instr = bit_range instr 31 20 / 2 ^ 20

unfoldable pub zimm : ℕ → ℕ
unfolding bit_range
zimm instr = bit_range instr 19 15 / 2 ^ 15

unfoldable pub shamt : ℕ → ℕ
unfolding bit_range
shamt instr = bit_range instr 25 20 / 2 ^ 20

unfoldable pub shamt_w : ℕ → ℕ
unfolding bit_range
shamt_w instr = bit_range instr 24 20 / 2 ^ 20

unfoldable pub funct3 : ℕ → ℕ
unfolding bit_range
funct3 instr = bit_range instr 14 12 / 2 ^ 12

unfoldable pub funct12 : ℕ → ℕ
unfolding bit_range
funct12 instr = bit_range instr 31 20 / 2 ^ 20

unfoldable pub funct7 : ℕ → ℕ
unfolding bit_range
funct7 instr = bit_range instr 31 25 / 2 ^ 25

unfoldable pub funct6 : ℕ → ℕ
unfolding bit_range
funct6 instr = bit_range instr 31 26 / 2 ^ 26

unfoldable pub funct5 : ℕ → ℕ
unfolding bit_range
funct5 instr = bit_range instr 31 27 / 2 ^ 27

unfoldable pub opcode : ℕ → ℕ
unfolding bit_range
opcode instr = bit_range instr 6 0

unfoldable pub j_imm : ℕ → ℕ
unfolding bit_range bit_single
j_imm instr =
    bit_or
      (bit_or (bit_or (sar (bit_single instr 31) 11) (bit_range instr 19 12))
        (bit_single instr 20 / 2 ^ 9))
      (bit_range instr 30 21 / 2 ^ 20)

unfoldable pub i_imm : ℕ → ℕ
unfolding bit_range
i_imm instr = sar (bit_range instr 31 20) 20

unfoldable pub s_imm : ℕ → ℕ
unfolding bit_range
s_imm instr = bit_or (sar (bit_range instr 31 25) 20) (bit_range instr 11 7 / 2 ^ 7)

unfoldable pub b_imm : ℕ → ℕ
unfolding bit_range bit_single
b_imm instr =
    bit_or
      (bit_or (bit_or (sar (bit_single instr 31) 19) (bit_single instr 7 * 2 ^ 4))
        (bit_range instr 30 25 / 2 ^ 20))
      (bit_range instr 11 8 / 2 ^ 7)

unfoldable pub u_imm : ℕ → ℕ
unfolding bit_range
u_imm instr = bit_range instr 31 12

unfoldable pub rs1 : ℕ → ℕ
unfolding bit_range
rs1 instr = bit_range instr 19 15 / 2 ^ 15

unfoldable pub rs2 : ℕ → ℕ
unfolding bit_range
rs2 instr = bit_range instr 24 20 / 2 ^ 20

unfoldable pub rd : ℕ → ℕ
unfolding bit_range
rd instr = bit_range instr 11 7 / 2 ^ 7
