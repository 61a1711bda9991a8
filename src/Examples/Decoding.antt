-- ===== src/Examples/Decoding.antt =====
-- The decoders and the immediates at concrete instructions.
use riscv_vp_plusplus.Base.{◌≡◌, some, refl, arith}
use riscv_vp_plusplus.Instr.OpId.{OpId}
use riscv_vp_plusplus.Instr.Isa.{rv32}
use riscv_vp_plusplus.Instr.Fields.{c_imm}
use riscv_vp_plusplus.Instr.Factory.{i_type, addi}
use riscv_vp_plusplus.Instr.Decode.{decode_normal}
use riscv_vp_plusplus.Instr.Compressed.{decode_compressed}
use riscv_vp_plusplus.Instr.Compressed.Expand.{
  expand_compressed, decode_and_expand_compressed, expanded,
}
use riscv_vp_plusplus.Instr.Agree.Expand.{expand-decode_normal}

-- C.ADDI of 1 to x5.
expand-decode_normal_example : decode_normal rv32 4 (addi 5 5 1) ≡ some OpId.addi
unfolding decode_and_expand_compressed decode_compressed expand_compressed i_type c_imm
expand-decode_normal_example =
    expand-decode_normal rv32 4 0x0285 (expanded (addi 5 5 1) OpId.addi) refl (ground arith)
      (ground arith)
