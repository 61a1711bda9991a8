-- ===== src/Rv32/Exec/Zero.antt =====
-- x0 keeps its value: a case that writes rd is reached only by an instruction whose rd is not x0.
use mathlib.Core.Path.{subst}
use riscv_vp_plusplus.Base.{
  ℕ, Bool, true, false, Option, none, some, some_inj, ◌≡◌, ◌≢◌, refl, ◌==◌, arith, ◌⊎◌, inl, inr,
  if◌then◌else◌, if-both,
}
use riscv_vp_plusplus.Instr.OpId.{OpId}
use riscv_vp_plusplus.Instr.Isa.{Architecture}
use riscv_vp_plusplus.Instr.Fields.{rd, opcode}
use riscv_vp_plusplus.Instr.Decode.{
  match_or_zero, decode_branch, decode_load, decode_store, decode_shift_right_imm, decode_op_imm,
  decode_op_imm_w, decode_op, decode_op_w, decode_fence, decode_system, decode_amo, decode_fp_load,
  decode_fp_store, decode_normal, decode_op_base, decode_op_sub, decode_op_mul, decode_op_base_w,
  decode_op_sub_w, decode_op_mul_w, decode_shift_right_imm_w, decode_privileged,
  is_fp_or_vector_opcode,
}
use riscv_vp_plusplus.Instr.Compressed.Expand.{Expanded, decode_and_expand_compressed}
use riscv_vp_plusplus.Instr.Agree.Expand.{expanded-Agrees}
use riscv_vp_plusplus.Rv32.Exec.{Hart, next, exec_op}

-- The operations whose case writes rd.
abbrev writes_rd : OpId → Bool
writes_rd OpId.addi = true
writes_rd OpId.slti = true
writes_rd OpId.sltiu = true
writes_rd OpId.xori = true
writes_rd OpId.ori = true
writes_rd OpId.andi = true
writes_rd OpId.slli = true
writes_rd OpId.srli = true
writes_rd OpId.srai = true
writes_rd OpId.add = true
writes_rd OpId.sub = true
writes_rd OpId.sll = true
writes_rd OpId.slt = true
writes_rd OpId.sltu = true
writes_rd OpId.xor = true
writes_rd OpId.srl = true
writes_rd OpId.sra = true
writes_rd OpId.or = true
writes_rd OpId.and = true
writes_rd OpId.mul = true
writes_rd OpId.mulh = true
writes_rd OpId.mulhsu = true
writes_rd OpId.mulhu = true
writes_rd OpId.div = true
writes_rd OpId.divu = true
writes_rd OpId.rem = true
writes_rd OpId.remu = true
writes_rd OpId.lui = true
writes_rd OpId.auipc = true
writes_rd OpId.jal = true
writes_rd OpId.jalr = true
writes_rd _ = false

-- The decoder gives `op` for `i`, and where its case writes rd, that is not x0.
abbrev Keeps : ℕ → OpId → Type 0
Keeps i op = (writes_rd op ≡ false) ⊎ (rd i ≢ 0)

decode_branch-Keeps : (i : ℕ) → Keeps i (decode_branch i)
unfolding decode_branch match_or_zero
decode_branch-Keeps i = ground arith

decode_load-Keeps : (i : ℕ) → Keeps i (decode_load i)
unfolding decode_load match_or_zero
decode_load-Keeps i = ground arith

decode_store-Keeps : (i : ℕ) → Keeps i (decode_store i)
unfolding decode_store match_or_zero
decode_store-Keeps i = ground arith

decode_shift_right_imm-Keeps :
    (arch : Architecture) (i : ℕ) → Keeps i (decode_shift_right_imm arch i)
unfolding decode_shift_right_imm match_or_zero
decode_shift_right_imm-Keeps arch i = ground arith

decode_op_imm-Keeps : (arch : Architecture) (i : ℕ) → Keeps i (decode_op_imm arch i)
unfolding decode_op_imm decode_shift_right_imm match_or_zero
decode_op_imm-Keeps arch i = ground arith

decode_op_imm_w-Keeps : (i : ℕ) → Keeps i (decode_op_imm_w i)
unfolding decode_op_imm_w decode_shift_right_imm_w match_or_zero
decode_op_imm_w-Keeps i = ground arith

decode_op_base-Keeps : (i : ℕ) → Keeps i (decode_op_base i)
unfolding decode_op_base match_or_zero
decode_op_base-Keeps i = ground arith

decode_op_sub-Keeps : (i : ℕ) → Keeps i (decode_op_sub i)
unfolding decode_op_sub match_or_zero
decode_op_sub-Keeps i = ground arith

decode_op_mul-Keeps : (isa i : ℕ) → Keeps i (decode_op_mul isa i)
unfolding decode_op_mul match_or_zero
decode_op_mul-Keeps isa i = ground arith

decode_op-Keeps : (isa i : ℕ) → Keeps i (decode_op isa i)
unfolding decode_op decode_op_base decode_op_sub decode_op_mul match_or_zero
decode_op-Keeps isa i = ground arith

decode_op_base_w-Keeps : (i : ℕ) → Keeps i (decode_op_base_w i)
unfolding decode_op_base_w match_or_zero
decode_op_base_w-Keeps i = ground arith

decode_op_w-Keeps : (isa i : ℕ) → Keeps i (decode_op_w isa i)
unfolding decode_op_w decode_op_base_w decode_op_sub_w decode_op_mul_w match_or_zero
decode_op_w-Keeps isa i = ground arith

decode_fence-Keeps : (i : ℕ) → Keeps i (decode_fence i)
unfolding decode_fence match_or_zero
decode_fence-Keeps i = ground arith

decode_system-Keeps : (i : ℕ) → Keeps i (decode_system i)
unfolding decode_system decode_privileged match_or_zero
decode_system-Keeps i = ground arith

decode_amo-Keeps : (isa i : ℕ) → Keeps i (decode_amo isa i)
unfolding decode_amo match_or_zero
decode_amo-Keeps isa i = ground arith

decode_fp-Keeps :
    (isa i : ℕ) (op : OpId)
    → (decode_fp_load isa i ≡ some op) ⊎ (decode_fp_store isa i ≡ some op)
    → Keeps i op
unfolding decode_fp_load decode_fp_store match_or_zero
decode_fp-Keeps isa i op e = ground arith

match_or_zero-Keeps :
    (i mask encoding : ℕ) (op op_zero : OpId)
    → writes_rd op_zero ≡ false
    → Keeps i (match_or_zero i mask encoding op op_zero)
unfolding match_or_zero
match_or_zero-Keeps i mask encoding op op_zero h = ground arith

-- Every operation that a decoder may give keeps x0.
abbrev AllKeep : ℕ → Option OpId → Type 0
AllKeep i o = (op : OpId) → o ≡ some op → Keeps i op

AllKeep-some : (i : ℕ) (op : OpId) → Keeps i op → AllKeep i (some op)
AllKeep-some i op k op' e = subst (Keeps i) (some_inj e) k

AllKeep-if :
    (i : ℕ) (b : Bool) (op : OpId) (o : Option OpId)
    → Keeps i op
    → AllKeep i o
    → AllKeep i (if b then some op else o)
AllKeep-if i true op o k rest = AllKeep-some i op k
AllKeep-if i false op o k rest = rest

decode_normal-AllKeep : (arch : Architecture) (isa i : ℕ) → AllKeep i (decode_normal arch isa i)
unfolding decode_normal
decode_normal-AllKeep arch isa i =
    AllKeep-if i (opcode i == 0b0110111) _ _
      (match_or_zero-Keeps i 0x7f 0x37 OpId.lui OpId.lui_nop refl)
      (AllKeep-if i (opcode i == 0b0010111) _ _
        (match_or_zero-Keeps i 0x7f 0x17 OpId.auipc OpId.auipc_nop refl)
        (AllKeep-if i (opcode i == 0b1101111) _ _
          (match_or_zero-Keeps i 0x7f 0x6f OpId.jal OpId.j refl)
          (AllKeep-if i (opcode i == 0b1100111) _ _
            (match_or_zero-Keeps i 0x707f 0x67 OpId.jalr OpId.jr refl)
            (AllKeep-if i (opcode i == 0b1100011) _ _ (decode_branch-Keeps i) (
              AllKeep-if i (opcode i == 0b0000011) _ _ (decode_load-Keeps i) (
                AllKeep-if i (opcode i == 0b0100011) _ _ (decode_store-Keeps i) (
                  AllKeep-if i (opcode i == 0b0010011) _ _ (decode_op_imm-Keeps arch i) (
                    AllKeep-if i (opcode i == 0b0011011) _ _ (decode_op_imm_w-Keeps i) (
                      AllKeep-if i (opcode i == 0b0110011) _ _ (decode_op-Keeps isa i) (
                        AllKeep-if i (opcode i == 0b0111011) _ _ (decode_op_w-Keeps isa i) (
                          AllKeep-if i (opcode i == 0b0001111) _ _ (decode_fence-Keeps i) (
                            AllKeep-if i (opcode i == 0b1110011) _ _ (decode_system-Keeps i) (
                              AllKeep-if i (opcode i == 0b0101111) _ _ (decode_amo-Keeps isa i) (
                                if-both (AllKeep i) (opcode i == 0b0000111) _ _
                                  (λ op e. decode_fp-Keeps isa i op (inl e))
                                  (if-both (AllKeep i) (opcode i == 0b0100111) _ _
                                    (λ op e. decode_fp-Keeps isa i op (inr e))
                                    (if-both (AllKeep i) (is_fp_or_vector_opcode (opcode i)) none
                                      (some OpId.undef) (λ op e. absurd (ground arith))
                                      (AllKeep-some i OpId.undef (inl refl))))))))))))))))))

decode_normal-Keeps :
    (arch : Architecture) (isa i : ℕ) (op : OpId) → decode_normal arch isa i ≡ some op → Keeps i op
decode_normal-Keeps arch isa i = decode_normal-AllKeep arch isa i

exec_op-KeepsZero :
    (has_c : Bool) (i : ℕ) (h h' : Hart) (op : OpId)
    → Keeps i op
    → exec_op has_c i h op ≡ next h'
    → h'.regs 0 ≡ h.regs 0
unfolding exec_op
exec_op-KeepsZero has_c i h h' op k e = ground arith

decode_and_expand_compressed-Keeps :
    (arch : Architecture) (isa instr : ℕ) (r : Expanded)
    → decode_and_expand_compressed arch isa instr ≡ some r
    → Keeps r.word r.op
decode_and_expand_compressed-Keeps arch isa instr r d = elim (expanded-Agrees arch isa instr r d) [
  | inl (inl u) ↦ inl (rw u refl)
  | inl (inr u) ↦ inl (rw u refl)
  | inr e ↦ decode_normal-Keeps arch isa r.word r.op e
]

-- An instruction word that the normal decoder maps to an operation leaves x0 as it was, whichever
-- of the integer cases executes it, where that case returns and does not trap.
pub exec_op-zero :
    (arch : Architecture) (isa i : ℕ) (op : OpId) (has_c : Bool) (h h' : Hart)
    → decode_normal arch isa i ≡ some op
    → exec_op has_c i h op ≡ next h'
    → h'.regs 0 ≡ h.regs 0
exec_op-zero arch isa i op has_c h h' d e =
    exec_op-KeepsZero has_c i h h' op (decode_normal-Keeps arch isa i op d) e

-- A compressed instruction that is expanded and then executed by one of the integer cases leaves
-- x0 as it was, where that case returns and does not trap.
exec_op-compressed_zero :
    (arch : Architecture) (isa instr : ℕ) (r : Expanded) (has_c : Bool) (h h' : Hart)
    → decode_and_expand_compressed arch isa instr ≡ some r
    → exec_op has_c r.word h r.op ≡ next h'
    → h'.regs 0 ≡ h.regs 0
exec_op-compressed_zero arch isa instr r has_c h h' d e =
    exec_op-KeepsZero has_c r.word h h' r.op (decode_and_expand_compressed-Keeps arch isa instr r d)
      e
