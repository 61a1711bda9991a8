-- ===== src/Instr/Compressed/Expand.antt =====
-- vp/src/core/common/instr.cpp, `expand_compressed` and `Instruction::decode_and_expand_compressed`.
use riscv_vp_plusplus.Base.{ℕ, Option, some, ◌==◌, ◌!=◌, ltb, Bool, false, bit_and, if◌then◌else◌}
use mathlib.Core.Option
use riscv_vp_plusplus.Instr.OpId.{OpId}
use riscv_vp_plusplus.Instr.Isa.{Architecture, by_arch, misa_c, misa_d, misa_f}
use riscv_vp_plusplus.Instr.Fields.{rd, c_rd_small, c_rs2_small, c_rs2, c_imm, c_uimm}
use riscv_vp_plusplus.Instr.Factory
use riscv_vp_plusplus.Instr.Compressed.{
  COpId, c_addi4spn_nzuimm, c_lw_uimm, c_ld_uimm, c_sw_uimm, c_sd_uimm, c_jal_imm, c_addi16sp_nzimm,
  c_lui_nzimm, c_j_imm, c_branch_imm, c_lwsp_uimm, c_swsp_uimm, c_ldsp_uimm, c_sdsp_uimm,
  decode_compressed,
}

-- The operation that `expand_compressed` returns, and the word that it leaves in `instr`.
pub record Expanded : Type 0 where
  pub op : OpId
  pub word : ℕ

abbrev pub expanded : ℕ → OpId → Expanded
expanded word op = record { op = op; word = word }

-- C_GET_OP_OR_NOP, on the new word.
abbrev pub op_or_nop : ℕ → OpId → OpId → Expanded
op_or_nop word op nop = expanded word (if rd word != 0 then op else nop)

-- REQUIRE_ISA, with the word as it was.
abbrev pub require_expanded : ℕ → ℕ → ℕ → Expanded → Expanded
require_expanded isa ext instr rest =
    if bit_and isa ext == 0 then expanded instr OpId.unsup else rest

-- `arch == RV32 && n > 31`.
abbrev pub is_wide_shift : Architecture → ℕ → Bool
is_wide_shift arch n = by_arch arch (ltb 31 n) false

unfoldable pub expand_compressed : Architecture → ℕ → ℕ → COpId → Expanded
expand_compressed arch isa instr COpId.illegal = expanded instr OpId.undef
expand_compressed arch isa instr COpId.lq = expanded instr OpId.undef
expand_compressed arch isa instr COpId.lqsp = expanded instr OpId.undef
expand_compressed arch isa instr COpId.sq = expanded instr OpId.undef
expand_compressed arch isa instr COpId.sqsp = expanded instr OpId.undef
expand_compressed arch isa instr COpId.reserved = expanded instr OpId.undef
expand_compressed arch isa instr COpId.nop = expanded (Factory.add 0 0 0) OpId.add_nop
expand_compressed arch isa instr COpId.add =
    op_or_nop (Factory.add (rd instr) (rd instr) (c_rs2 instr)) OpId.add OpId.add_nop
expand_compressed arch isa instr COpId.mv =
    op_or_nop (Factory.add (rd instr) 0 (c_rs2 instr)) OpId.add OpId.add_nop
expand_compressed arch isa instr COpId.and =
    op_or_nop (Factory.and (c_rd_small instr) (c_rd_small instr) (c_rs2_small instr)) OpId.and
      OpId.and_nop
expand_compressed arch isa instr COpId.or =
    op_or_nop (Factory.or (c_rd_small instr) (c_rd_small instr) (c_rs2_small instr)) OpId.or
      OpId.or_nop
expand_compressed arch isa instr COpId.xor =
    op_or_nop (Factory.xor (c_rd_small instr) (c_rd_small instr) (c_rs2_small instr)) OpId.xor
      OpId.xor_nop
expand_compressed arch isa instr COpId.sub =
    op_or_nop (Factory.sub (c_rd_small instr) (c_rd_small instr) (c_rs2_small instr)) OpId.sub
      OpId.sub_nop
expand_compressed arch isa instr COpId.addw =
    op_or_nop (Factory.addw (c_rd_small instr) (c_rd_small instr) (c_rs2_small instr)) OpId.addw
      OpId.addw_nop
expand_compressed arch isa instr COpId.subw =
    op_or_nop (Factory.subw (c_rd_small instr) (c_rd_small instr) (c_rs2_small instr)) OpId.subw
      OpId.subw_nop
expand_compressed arch isa instr COpId.lw =
    expanded (Factory.lw (c_rs2_small instr) (c_rd_small instr) (c_lw_uimm instr)) OpId.lw
expand_compressed arch isa instr COpId.ld =
    expanded (Factory.ld (c_rs2_small instr) (c_rd_small instr) (c_ld_uimm instr)) OpId.ld
expand_compressed arch isa instr COpId.flw =
    require_expanded isa misa_f instr
      (expanded (Factory.flw (c_rs2_small instr) (c_rd_small instr) (c_lw_uimm instr)) OpId.flw)
expand_compressed arch isa instr COpId.fld =
    require_expanded isa misa_d instr
      (expanded (Factory.fld (c_rs2_small instr) (c_rd_small instr) (c_ld_uimm instr)) OpId.fld)
expand_compressed arch isa instr COpId.sw =
    expanded (Factory.sw (c_rd_small instr) (c_rs2_small instr) (c_sw_uimm instr)) OpId.sw
expand_compressed arch isa instr COpId.sd =
    expanded (Factory.sd (c_rd_small instr) (c_rs2_small instr) (c_sd_uimm instr)) OpId.sd
expand_compressed arch isa instr COpId.fsw =
    require_expanded isa misa_f instr
      (expanded (Factory.fsw (c_rd_small instr) (c_rs2_small instr) (c_sw_uimm instr)) OpId.fsw)
expand_compressed arch isa instr COpId.fsd =
    require_expanded isa misa_d instr
      (expanded (Factory.fsd (c_rd_small instr) (c_rs2_small instr) (c_sd_uimm instr)) OpId.fsd)
expand_compressed arch isa instr COpId.addi4spn =
    if c_addi4spn_nzuimm instr == 0
    then expanded instr OpId.undef
    else op_or_nop (Factory.addi (c_rs2_small instr) 2 (c_addi4spn_nzuimm instr)) OpId.addi
        OpId.addi_nop
expand_compressed arch isa instr COpId.addi =
    op_or_nop (Factory.addi (rd instr) (rd instr) (c_imm instr)) OpId.addi OpId.addi_nop
expand_compressed arch isa instr COpId.jal = expanded (Factory.jal 1 (c_jal_imm instr)) OpId.jal
expand_compressed arch isa instr COpId.addiw =
    if rd instr == 0
    then expanded instr OpId.undef
    else op_or_nop (Factory.addiw (rd instr) (rd instr) (c_imm instr)) OpId.addiw OpId.addiw_nop
expand_compressed arch isa instr COpId.li =
    op_or_nop (Factory.addi (rd instr) 0 (c_imm instr)) OpId.addi OpId.addi_nop
expand_compressed arch isa instr COpId.addi16sp =
    if c_addi16sp_nzimm instr == 0
    then expanded instr OpId.undef
    else op_or_nop (Factory.addi 2 2 (c_addi16sp_nzimm instr)) OpId.addi OpId.addi_nop
expand_compressed arch isa instr COpId.lui =
    if c_lui_nzimm instr == 0
    then expanded instr OpId.undef
    else op_or_nop (Factory.lui (rd instr) (c_lui_nzimm instr)) OpId.lui OpId.lui_nop
expand_compressed arch isa instr COpId.slli =
    if is_wide_shift arch (c_uimm instr)
    then expanded instr OpId.undef
    else op_or_nop (Factory.slli (rd instr) (rd instr) (c_uimm instr)) OpId.slli OpId.slli_nop
expand_compressed arch isa instr COpId.srli =
    if is_wide_shift arch (c_uimm instr)
    then expanded instr OpId.undef
    else op_or_nop (Factory.srli (c_rd_small instr) (c_rd_small instr) (c_uimm instr)) OpId.srli
        OpId.srli_nop
expand_compressed arch isa instr COpId.srai =
    if is_wide_shift arch (c_uimm instr)
    then expanded instr OpId.undef
    else op_or_nop (Factory.srai (c_rd_small instr) (c_rd_small instr) (c_uimm instr)) OpId.srai
        OpId.srai_nop
expand_compressed arch isa instr COpId.andi =
    op_or_nop (Factory.andi (c_rd_small instr) (c_rd_small instr) (c_imm instr)) OpId.andi
      OpId.andi_nop
expand_compressed arch isa instr COpId.j = expanded (Factory.jal 0 (c_j_imm instr)) OpId.j
expand_compressed arch isa instr COpId.beqz =
    expanded (Factory.beq (c_rd_small instr) 0 (c_branch_imm instr)) OpId.beq
expand_compressed arch isa instr COpId.bnez =
    expanded (Factory.bne (c_rd_small instr) 0 (c_branch_imm instr)) OpId.bne
expand_compressed arch isa instr COpId.lwsp =
    if rd instr == 0
    then expanded instr OpId.undef
    else expanded (Factory.lw (rd instr) 2 (c_lwsp_uimm instr)) OpId.lw
expand_compressed arch isa instr COpId.ldsp =
    if rd instr == 0
    then expanded instr OpId.undef
    else expanded (Factory.ld (rd instr) 2 (c_ldsp_uimm instr)) OpId.ld
expand_compressed arch isa instr COpId.flwsp =
    require_expanded isa misa_f instr
      (expanded (Factory.flw (rd instr) 2 (c_lwsp_uimm instr)) OpId.flw)
expand_compressed arch isa instr COpId.fldsp =
    require_expanded isa misa_d instr
      (expanded (Factory.fld (rd instr) 2 (c_ldsp_uimm instr)) OpId.fld)
expand_compressed arch isa instr COpId.swsp =
    expanded (Factory.sw 2 (c_rs2 instr) (c_swsp_uimm instr)) OpId.sw
expand_compressed arch isa instr COpId.sdsp =
    expanded (Factory.sd 2 (c_rs2 instr) (c_sdsp_uimm instr)) OpId.sd
expand_compressed arch isa instr COpId.fswsp =
    require_expanded isa misa_f instr
      (expanded (Factory.fsw 2 (c_rs2 instr) (c_swsp_uimm instr)) OpId.fsw)
expand_compressed arch isa instr COpId.fsdsp =
    require_expanded isa misa_d instr
      (expanded (Factory.fsd 2 (c_rs2 instr) (c_sdsp_uimm instr)) OpId.fsd)
expand_compressed arch isa instr COpId.ebreak = expanded Factory.ebreak OpId.ebreak
expand_compressed arch isa instr COpId.jr =
    if rd instr == 0
    then expanded instr OpId.undef
    else expanded (Factory.jalr 0 (rd instr) 0) OpId.jr
expand_compressed arch isa instr COpId.jalr = expanded (Factory.jalr 1 (rd instr) 0) OpId.jalr

-- `none` is the exception of `decode_compressed`.
unfoldable pub decode_and_expand_compressed : Architecture → ℕ → ℕ → Option Expanded
decode_and_expand_compressed arch isa instr =
    if bit_and isa misa_c == 0
    then some (expanded instr OpId.unsup)
    else Option.map (expand_compressed arch isa instr) (decode_compressed arch instr)
