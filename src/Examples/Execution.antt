-- ===== src/Examples/Execution.antt =====
-- Concrete instructions and operands executed.
use riscv_vp_plusplus.Base.{ℕ, ◌+◌, ◌*◌, ◌%◌, ◌^◌, ◌≡◌, ◌<◌, ◌⊎◌, true, refl, arith}
use riscv_vp_plusplus.Util.{bit_range}
use riscv_vp_plusplus.Instr.OpId.{OpId}
use riscv_vp_plusplus.Instr.Isa.{rv32}
use riscv_vp_plusplus.Instr.Fields.{rd, rs1, i_imm, opcode, funct3}
use riscv_vp_plusplus.Instr.Factory.{addi, i_type}
use riscv_vp_plusplus.Instr.Decode.{decode_normal, decode_op_imm, match_or_zero}
use riscv_vp_plusplus.Rv32.Exec.{Hart, exec_op, write_reg}
use riscv_vp_plusplus.Rv32.Exec.Arith.{div, rem, mul, mulh, magnitude, to_int64}
use riscv_vp_plusplus.Rv32.Exec.Arith.Laws.{div-rem, mulh-mul}
use riscv_vp_plusplus.Rv32.Exec.Zero.{exec_op-zero}
use riscv_vp_plusplus.Examples.{hart}

-- The hart after `addi x5, x5, 1`.
abbrev hart_1 : Hart
hart_1 = record hart { regs = write_reg 5 1 hart.regs }

exec_op-zero_example : hart_1.regs 0 ≡ hart.regs 0
unfolding decode_normal decode_op_imm match_or_zero exec_op i_type rd rs1 i_imm opcode funct3
    bit_range
exec_op-zero_example = exec_op-zero rv32 4 (addi 5 5 1) OpId.addi true hart hart_1 refl refl

div-rem_example :
    ((div 0xFFFFFFF9 2 * 2 + rem 0xFFFFFFF9 2) % 2 ^ 32 ≡ 0xFFFFFFF9)
    × ((◌≡◌ {A = ℕ} 2 0) ⊎ (magnitude (rem 0xFFFFFFF9 2) < magnitude 2))
div-rem_example = div-rem 0xFFFFFFF9 2 (omega arith) (omega arith)

mulh-mul_example :
    mulh 0xFFFFFFFF 3 * 2 ^ 32 + mul 0xFFFFFFFF 3 ≡ to_int64 0xFFFFFFFF * to_int64 3 % 2 ^ 64
mulh-mul_example = mulh-mul 0xFFFFFFFF 3
