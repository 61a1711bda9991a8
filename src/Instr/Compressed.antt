-- ===== src/Instr/Compressed.antt =====
-- vp/src/core/common/instr.cpp: the compressed instructions, their immediates and their decoder.

pub mod Expand
use riscv_vp_plusplus.Base.{ℕ, ◌*◌, ◌^◌, Option, none, some, ◌==◌, ◌!=◌, bit_or, if◌then◌else◌}
use riscv_vp_plusplus.Util.{bit_slice, bit_single_p1, bit_single_pn, extract_sign_bit}
use riscv_vp_plusplus.Instr.Isa.{Architecture, by_arch}
use riscv_vp_plusplus.Instr.Fields.{
  quadrant, c_opcode, c_format, c_b12, c_rs2, c_f2_high, c_f2_low, rd,
}

-- `Compressed::C_OpId`.
pub data COpId : Type 0 where
  illegal reserved addi4spn fld lq lw flw ld fsd sq sw fsw sd : COpId
  nop addi jal addiw li addi16sp lui srli srai andi sub xor or and subw addw j beqz bnez : COpId
  slli fldsp lqsp lwsp flwsp ldsp jr mv ebreak jalr add fsdsp sqsp swsp fswsp sdsp : COpId

unfoldable pub c_addi4spn_nzuimm : ℕ → ℕ
unfolding bit_slice bit_single_p1
c_addi4spn_nzuimm n =
    bit_or
      (bit_or (bit_or (bit_slice n 12 11 * 2 ^ 4) (bit_slice n 10 7 * 2 ^ 6))
        (bit_single_p1 n 6 * 2 ^ 2))
      (bit_single_p1 n 5 * 2 ^ 3)

unfoldable pub c_lw_uimm : ℕ → ℕ
unfolding bit_slice bit_single_p1
c_lw_uimm n =
    bit_or (bit_or (bit_slice n 12 10 * 2 ^ 3) (bit_single_p1 n 6 * 2 ^ 2))
      (bit_single_p1 n 5 * 2 ^ 6)

unfoldable pub c_ld_uimm : ℕ → ℕ
unfolding bit_slice
c_ld_uimm n = bit_or (bit_slice n 12 10 * 2 ^ 3) (bit_slice n 6 5 * 2 ^ 6)

abbrev pub c_sw_uimm : ℕ → ℕ
c_sw_uimm n = c_lw_uimm n

abbrev pub c_sd_uimm : ℕ → ℕ
c_sd_uimm n = c_ld_uimm n

unfoldable pub c_jal_imm : ℕ → ℕ
unfolding bit_slice bit_single_pn extract_sign_bit
c_jal_imm n =
    bit_or
      (bit_or
        (bit_or
          (bit_or
            (bit_or
              (bit_or (bit_or (extract_sign_bit n 12 11) (bit_single_pn n 11 4))
                (bit_slice n 10 9 * 2 ^ 8))
              (bit_single_pn n 8 10))
            (bit_single_pn n 7 6))
          (bit_single_pn n 6 7))
        (bit_slice n 5 3 * 2 ^ 1))
      (bit_single_pn n 2 5)

unfoldable pub c_addi16sp_nzimm : ℕ → ℕ
unfolding bit_slice bit_single_pn extract_sign_bit
c_addi16sp_nzimm n =
    bit_or
      (bit_or
        (bit_or (bit_or (extract_sign_bit n 12 9) (bit_single_pn n 6 4)) (bit_single_pn n 5 6))
        (bit_slice n 4 3 * 2 ^ 7))
      (bit_single_pn n 2 5)

unfoldable pub c_lui_nzimm : ℕ → ℕ
unfolding bit_slice extract_sign_bit
c_lui_nzimm n = bit_or (extract_sign_bit n 12 17) (bit_slice n 6 2 * 2 ^ 12)

abbrev pub c_j_imm : ℕ → ℕ
c_j_imm n = c_jal_imm n

unfoldable pub c_branch_imm : ℕ → ℕ
unfolding bit_slice bit_single_pn extract_sign_bit
c_branch_imm n =
    bit_or
      (bit_or
        (bit_or (bit_or (extract_sign_bit n 12 8) (bit_slice n 11 10 * 2 ^ 3))
          (bit_slice n 6 5 * 2 ^ 6))
        (bit_slice n 4 3 * 2 ^ 1))
      (bit_single_pn n 2 5)

unfoldable pub c_lwsp_uimm : ℕ → ℕ
unfolding bit_slice bit_single_pn
c_lwsp_uimm n =
    bit_or (bit_or (bit_single_pn n 12 5) (bit_slice n 6 4 * 2 ^ 2)) (bit_slice n 3 2 * 2 ^ 6)

unfoldable pub c_swsp_uimm : ℕ → ℕ
unfolding bit_slice
c_swsp_uimm n = bit_or (bit_slice n 12 9 * 2 ^ 2) (bit_slice n 8 7 * 2 ^ 6)

unfoldable pub c_ldsp_uimm : ℕ → ℕ
unfolding bit_slice bit_single_pn
c_ldsp_uimm n =
    bit_or (bit_or (bit_single_pn n 12 5) (bit_slice n 6 5 * 2 ^ 3)) (bit_slice n 4 2 * 2 ^ 6)

unfoldable pub c_sdsp_uimm : ℕ → ℕ
unfolding bit_slice
c_sdsp_uimm n = bit_or (bit_slice n 12 10 * 2 ^ 3) (bit_slice n 9 7 * 2 ^ 6)

-- `case 0` of `decode_compressed`.
unfoldable pub decode_quadrant_0 : Architecture → ℕ → COpId
unfolding c_opcode c_format
decode_quadrant_0 arch instr =
    if c_opcode instr == 0b000
    then (if c_format instr == 0 then COpId.illegal else COpId.addi4spn)
    else if c_opcode instr == 0b001
    then COpId.fld
    else if c_opcode instr == 0b010
    then COpId.lw
    else if c_opcode instr == 0b011
    then by_arch arch COpId.flw COpId.ld
    else if c_opcode instr == 0b100
    then COpId.reserved
    else if c_opcode instr == 0b101
    then COpId.fsd
    else if c_opcode instr == 0b110
    then COpId.sw
    else if c_opcode instr == 0b111
    then by_arch arch COpId.fsw COpId.sd
    else COpId.illegal

-- `case 0b100` of `case 1`.
unfoldable pub decode_arith_1 : ℕ → COpId
unfolding c_f2_high c_f2_low c_b12
decode_arith_1 instr =
    if c_f2_high instr == 0b00
    then COpId.srli
    else if c_f2_high instr == 0b01
    then COpId.srai
    else if c_f2_high instr == 0b10
    then COpId.andi
    else if c_f2_high instr == 0b11
    then (if c_b12 instr != 0
        then (if c_f2_low instr == 0b00
            then COpId.subw
            else if c_f2_low instr == 0b01
            then COpId.addw
            else COpId.reserved)
        else if c_f2_low instr == 0b00
        then COpId.sub
        else if c_f2_low instr == 0b01
        then COpId.xor
        else if c_f2_low instr == 0b10
        then COpId.or
        else if c_f2_low instr == 0b11
        then COpId.and
        else COpId.illegal)
    else COpId.illegal

-- `case 1`.
unfoldable pub decode_quadrant_1 : Architecture → ℕ → COpId
unfolding c_opcode c_format rd decode_arith_1
decode_quadrant_1 arch instr =
    if c_opcode instr == 0b000
    then (if c_format instr == 1 then COpId.nop else COpId.addi)
    else if c_opcode instr == 0b001
    then by_arch arch COpId.jal COpId.addiw
    else if c_opcode instr == 0b010
    then COpId.li
    else if c_opcode instr == 0b011
    then (if rd instr == 2 then COpId.addi16sp else COpId.lui)
    else if c_opcode instr == 0b100
    then decode_arith_1 instr
    else if c_opcode instr == 0b101
    then COpId.j
    else if c_opcode instr == 0b110
    then COpId.beqz
    else if c_opcode instr == 0b111
    then COpId.bnez
    else COpId.illegal

-- `case 0b100` of `case 2`.
unfoldable pub decode_move_2 : ℕ → COpId
unfolding c_b12 rd c_rs2
decode_move_2 instr =
    if c_b12 instr != 0
    then (if rd instr != 0
        then (if c_rs2 instr != 0 then COpId.add else COpId.jalr)
        else COpId.ebreak)
    else if c_rs2 instr != 0
    then COpId.mv
    else COpId.jr

-- `case 2`.
unfoldable pub decode_quadrant_2 : Architecture → ℕ → COpId
unfolding c_opcode decode_move_2
decode_quadrant_2 arch instr =
    if c_opcode instr == 0b000
    then COpId.slli
    else if c_opcode instr == 0b001
    then COpId.fldsp
    else if c_opcode instr == 0b010
    then COpId.lwsp
    else if c_opcode instr == 0b011
    then by_arch arch COpId.flwsp COpId.ldsp
    else if c_opcode instr == 0b100
    then decode_move_2 instr
    else if c_opcode instr == 0b101
    then COpId.fsdsp
    else if c_opcode instr == 0b110
    then COpId.swsp
    else if c_opcode instr == 0b111
    then by_arch arch COpId.fswsp COpId.sdsp
    else COpId.illegal

-- `decode_compressed`; `none` is the exception that it throws in quadrant 3.
unfoldable pub decode_compressed : Architecture → ℕ → Option COpId
unfolding quadrant decode_quadrant_0 decode_quadrant_1 decode_quadrant_2
decode_compressed arch instr =
    if quadrant instr == 0
    then some (decode_quadrant_0 arch instr)
    else if quadrant instr == 1
    then some (decode_quadrant_1 arch instr)
    else if quadrant instr == 2
    then some (decode_quadrant_2 arch instr)
    else none
