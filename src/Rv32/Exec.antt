-- ===== src/Rv32/Exec.antt =====
-- vp/src/core/rv32/iss_ctemplate.cpp, `ISS_CT::exec_steps`: the cases of the integer operations that
-- touch the registers and the pc only. The pc is that of the instruction cache without its blocks
-- (core/common/dbbcache.h, `DBBCacheDummy_T`). Statistics and cycle counts are not in the state.
pub mod Arith
pub mod Zero
pub mod Control
pub mod Memory
pub mod System
use riscv_vp_plusplus.Base.{
  ℕ, ◌+◌, ◌-◌, ◌*◌, ◌/◌, ◌%◌, ◌^◌, Bool, true, false, not, ◌==◌, ◌!=◌, ◌&&◌, ◌||◌, ltb, bit_and,
  bit_or, bit_xor, u32, sar, if◌then◌else◌,
}
use riscv_vp_plusplus.Util.{bit_range}
use riscv_vp_plusplus.Instr.OpId.{OpId}
use riscv_vp_plusplus.Instr.Fields.{rs1, rs2, rd, i_imm, u_imm, b_imm, j_imm, shamt}
use riscv_vp_plusplus.Rv32.State.{SimulationTrap}
use riscv_vp_plusplus.Rv32.Exec.Arith.{
  sub32, signed_lt, div, rem, divu, remu, mul, mulh, mulhu, mulhsu,
}

-- `pc` is the address after the instruction, and `last_pc` that of the instruction.
pub record Hart : Type 0 where
  pub regs : ℕ → ℕ
  pub pc : ℕ
  pub last_pc : ℕ

-- `other` is a case that is not modelled here.
pub data Outcome : Type 0 where
  next : Hart → Outcome
  trap : SimulationTrap → Outcome
  other : Outcome

-- `regs[index] = value`.
abbrev pub write_reg : ℕ → ℕ → (ℕ → ℕ) → ℕ → ℕ
write_reg index value regs j = if j == index then value else regs j

-- `RegFile_T::shamt` on RV32.
abbrev pub reg_shamt : (ℕ → ℕ) → ℕ → ℕ
unfolding bit_range
reg_shamt regs index = bit_range (regs index) 4 0

abbrev pub bool_to_reg : Bool → ℕ
bool_to_reg b = if b then 1 else 0

-- The jumps of the instruction cache.
abbrev pub jump : ℕ → Hart → Hart
jump pc_offset h = record h { pc = u32 (h.last_pc + pc_offset) }

abbrev pub jump_and_link : ℕ → ℕ → Hart → Hart
jump_and_link rd pc_offset h = record h {
  regs = write_reg rd h.pc h.regs;
  pc = u32 (h.last_pc + pc_offset);
}

abbrev pub jump_dyn : ℕ → Hart → Hart
jump_dyn pc h = record h { pc = pc }

abbrev pub jump_dyn_and_link : ℕ → ℕ → Hart → Hart
jump_dyn_and_link rd pc h = record h { regs = write_reg rd h.pc h.regs; pc = pc }

-- The target of JR and JALR, and its check: EXC_INSTR_ADDR_MISALIGNED without the C extension.
abbrev pub jalr_target : ℕ → Hart → ℕ
jalr_target i h = bit_and (u32 (h.regs (rs1 i) + i_imm i)) (2 ^ 32 - 2)

abbrev check_target : Bool → ℕ → Hart → Outcome
check_target has_c pc h =
    if bit_and pc 3 != 0 && not has_c then trap (record { reason = 0; mtval = pc }) else next h

-- A case that writes rd and nothing else.
abbrev set_rd : ℕ → Hart → ℕ → Outcome
set_rd i h value = next (record h { regs = write_reg (rd i) value h.regs })

abbrev branch_if : Bool → ℕ → Hart → Outcome
branch_if taken i h = next (if taken then jump (b_imm i) h else h)

unfoldable pub exec_op : Bool → ℕ → Hart → OpId → Outcome
exec_op has_c i h OpId.lui_nop = next h
exec_op has_c i h OpId.auipc_nop = next h
exec_op has_c i h OpId.addi_nop = next h
exec_op has_c i h OpId.slti_nop = next h
exec_op has_c i h OpId.sltiu_nop = next h
exec_op has_c i h OpId.xori_nop = next h
exec_op has_c i h OpId.ori_nop = next h
exec_op has_c i h OpId.andi_nop = next h
exec_op has_c i h OpId.slli_nop = next h
exec_op has_c i h OpId.srli_nop = next h
exec_op has_c i h OpId.srai_nop = next h
exec_op has_c i h OpId.add_nop = next h
exec_op has_c i h OpId.sub_nop = next h
exec_op has_c i h OpId.sll_nop = next h
exec_op has_c i h OpId.slt_nop = next h
exec_op has_c i h OpId.sltu_nop = next h
exec_op has_c i h OpId.xor_nop = next h
exec_op has_c i h OpId.srl_nop = next h
exec_op has_c i h OpId.sra_nop = next h
exec_op has_c i h OpId.or_nop = next h
exec_op has_c i h OpId.and_nop = next h
exec_op has_c i h OpId.mul_nop = next h
exec_op has_c i h OpId.mulh_nop = next h
exec_op has_c i h OpId.mulhsu_nop = next h
exec_op has_c i h OpId.mulhu_nop = next h
exec_op has_c i h OpId.div_nop = next h
exec_op has_c i h OpId.divu_nop = next h
exec_op has_c i h OpId.rem_nop = next h
exec_op has_c i h OpId.remu_nop = next h
exec_op has_c i h OpId.addi = set_rd i h (u32 (h.regs (rs1 i) + i_imm i))
exec_op has_c i h OpId.slti = set_rd i h (bool_to_reg (signed_lt (h.regs (rs1 i)) (i_imm i)))
exec_op has_c i h OpId.sltiu = set_rd i h (bool_to_reg (ltb (h.regs (rs1 i)) (i_imm i)))
exec_op has_c i h OpId.xori = set_rd i h (bit_xor (h.regs (rs1 i)) (i_imm i))
exec_op has_c i h OpId.ori = set_rd i h (bit_or (h.regs (rs1 i)) (i_imm i))
exec_op has_c i h OpId.andi = set_rd i h (bit_and (h.regs (rs1 i)) (i_imm i))
exec_op has_c i h OpId.add = set_rd i h (u32 (h.regs (rs1 i) + h.regs (rs2 i)))
exec_op has_c i h OpId.sub = set_rd i h (sub32 (h.regs (rs1 i)) (h.regs (rs2 i)))
exec_op has_c i h OpId.sll = set_rd i h (u32 (h.regs (rs1 i) * 2 ^ reg_shamt h.regs (rs2 i)))
exec_op has_c i h OpId.slt = set_rd i h (bool_to_reg (signed_lt (h.regs (rs1 i)) (h.regs (rs2 i))))
exec_op has_c i h OpId.sltu = set_rd i h (bool_to_reg (ltb (h.regs (rs1 i)) (h.regs (rs2 i))))
exec_op has_c i h OpId.srl = set_rd i h (h.regs (rs1 i) / 2 ^ reg_shamt h.regs (rs2 i))
exec_op has_c i h OpId.sra = set_rd i h (sar (h.regs (rs1 i)) (reg_shamt h.regs (rs2 i)))
exec_op has_c i h OpId.xor = set_rd i h (bit_xor (h.regs (rs1 i)) (h.regs (rs2 i)))
exec_op has_c i h OpId.or = set_rd i h (bit_or (h.regs (rs1 i)) (h.regs (rs2 i)))
exec_op has_c i h OpId.and = set_rd i h (bit_and (h.regs (rs1 i)) (h.regs (rs2 i)))
exec_op has_c i h OpId.slli = set_rd i h (u32 (h.regs (rs1 i) * 2 ^ shamt i))
exec_op has_c i h OpId.srli = set_rd i h (h.regs (rs1 i) / 2 ^ shamt i)
exec_op has_c i h OpId.srai = set_rd i h (sar (h.regs (rs1 i)) (shamt i))
exec_op has_c i h OpId.lui = set_rd i h (u_imm i)
exec_op has_c i h OpId.auipc = set_rd i h (u32 (h.last_pc + u_imm i))
exec_op has_c i h OpId.mul = set_rd i h (mul (h.regs (rs1 i)) (h.regs (rs2 i)))
exec_op has_c i h OpId.mulh = set_rd i h (mulh (h.regs (rs1 i)) (h.regs (rs2 i)))
exec_op has_c i h OpId.mulhu = set_rd i h (mulhu (h.regs (rs1 i)) (h.regs (rs2 i)))
exec_op has_c i h OpId.mulhsu = set_rd i h (mulhsu (h.regs (rs1 i)) (h.regs (rs2 i)))
exec_op has_c i h OpId.div = set_rd i h (div (h.regs (rs1 i)) (h.regs (rs2 i)))
exec_op has_c i h OpId.divu = set_rd i h (divu (h.regs (rs1 i)) (h.regs (rs2 i)))
exec_op has_c i h OpId.rem = set_rd i h (rem (h.regs (rs1 i)) (h.regs (rs2 i)))
exec_op has_c i h OpId.remu = set_rd i h (remu (h.regs (rs1 i)) (h.regs (rs2 i)))
exec_op has_c i h OpId.j = next (jump (j_imm i) h)
exec_op has_c i h OpId.jal = next (jump_and_link (rd i) (j_imm i) h)
exec_op has_c i h OpId.jr = check_target has_c (jalr_target i h) (jump_dyn (jalr_target i h) h)
exec_op has_c i h OpId.jalr =
    check_target has_c (jalr_target i h) (jump_dyn_and_link (rd i) (jalr_target i h) h)
exec_op has_c i h OpId.beq = branch_if (h.regs (rs1 i) == h.regs (rs2 i)) i h
exec_op has_c i h OpId.bne = branch_if (h.regs (rs1 i) != h.regs (rs2 i)) i h
exec_op has_c i h OpId.blt = branch_if (signed_lt (h.regs (rs1 i)) (h.regs (rs2 i))) i h
exec_op has_c i h OpId.bge = branch_if (not (signed_lt (h.regs (rs1 i)) (h.regs (rs2 i)))) i h
exec_op has_c i h OpId.bltu = branch_if (ltb (h.regs (rs1 i)) (h.regs (rs2 i))) i h
exec_op has_c i h OpId.bgeu = branch_if (not (ltb (h.regs (rs1 i)) (h.regs (rs2 i)))) i h
exec_op has_c i h _ = other
