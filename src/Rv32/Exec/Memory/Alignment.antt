-- ===== src/Rv32/Exec/Memory/Alignment.antt =====
-- The address of an access to memory, and the trap that a misaligned one takes.
use riscv_vp_plusplus.Base.{ℕ, ◌+◌, ◌%◌, ◌≡◌, ◌≢◌, ◌!=◌, true, refl, arith, u32}
use riscv_vp_plusplus.Instr.OpId.{OpId}
use riscv_vp_plusplus.Instr.Fields.{rs1, i_imm, s_imm}
use riscv_vp_plusplus.Rv32.Exec.Memory.{
  DataMemory, MemoryHart, trapped, alignment_trap, exec_memory,
}

-- The address that an instruction word accesses.
abbrev pub load_address : ℕ → MemoryHart → ℕ
load_address i m = u32 (m.regs (rs1 i) + i_imm i)

abbrev pub store_address : ℕ → MemoryHart → ℕ
store_address i m = u32 (m.regs (rs1 i) + s_imm i)

abbrev pub amo_address : ℕ → MemoryHart → ℕ
amo_address i m = m.regs (rs1 i)

-- The operations that have an alignment, with the exception of a misaligned address, 4 for the
-- loads and LR and 6 for the rest, and where the address comes from.
pub data HasAlignment : OpId → (width reason : ℕ) → (ℕ → MemoryHart → ℕ) → Type 0 where
  lh : HasAlignment OpId.lh 2 4 load_address
  lhu : HasAlignment OpId.lhu 2 4 load_address
  lw : HasAlignment OpId.lw 4 4 load_address
  sh : HasAlignment OpId.sh 2 6 store_address
  sw : HasAlignment OpId.sw 4 6 store_address
  lr_w : HasAlignment OpId.lr_w 4 4 amo_address
  sc_w : HasAlignment OpId.sc_w 4 6 amo_address
  amoswap_w : HasAlignment OpId.amoswap_w 4 6 amo_address
  amoadd_w : HasAlignment OpId.amoadd_w 4 6 amo_address
  amoxor_w : HasAlignment OpId.amoxor_w 4 6 amo_address
  amoand_w : HasAlignment OpId.amoand_w 4 6 amo_address
  amoor_w : HasAlignment OpId.amoor_w 4 6 amo_address
  amomin_w : HasAlignment OpId.amomin_w 4 6 amo_address
  amominu_w : HasAlignment OpId.amominu_w 4 6 amo_address
  amomax_w : HasAlignment OpId.amomax_w 4 6 amo_address
  amomaxu_w : HasAlignment OpId.amomaxu_w 4 6 amo_address

test_misaligned : (n width : ℕ) → n % width ≢ 0 → (n % width != 0) ≡ true
test_misaligned n width h = ground arith

-- Every halfword and word load and store, LR.W, SC.W and AMO at an address that is not a multiple
-- of its width raises the misaligned exception of its kind with the address as its value, and
-- leaves the registers and memory as they are.
pub exec_memory-HasAlignment :
    {S : Type 0} (mem : DataMemory S) (i : ℕ) (s : S) (m : MemoryHart) (op : OpId)
    (width reason : ℕ) (address : ℕ → MemoryHart → ℕ)
    → HasAlignment op width reason address
    → address i m % width ≢ 0
    → exec_memory mem i s m op ≡ trapped s m (alignment_trap reason (address i m))
unfolding exec_memory
exec_memory-HasAlignment mem i s m op width reason address lh h =
    rw (test_misaligned (load_address i m) 2 h) refl
exec_memory-HasAlignment mem i s m op width reason address lhu h =
    rw (test_misaligned (load_address i m) 2 h) refl
exec_memory-HasAlignment mem i s m op width reason address lw h =
    rw (test_misaligned (load_address i m) 4 h) refl
exec_memory-HasAlignment mem i s m op width reason address sh h =
    rw (test_misaligned (store_address i m) 2 h) refl
exec_memory-HasAlignment mem i s m op width reason address sw h =
    rw (test_misaligned (store_address i m) 4 h) refl
exec_memory-HasAlignment mem i s m op width reason address lr_w h =
    rw (test_misaligned (amo_address i m) 4 h) refl
exec_memory-HasAlignment mem i s m op width reason address sc_w h =
    rw (test_misaligned (amo_address i m) 4 h) refl
exec_memory-HasAlignment mem i s m op width reason address amoswap_w h =
    rw (test_misaligned (amo_address i m) 4 h) refl
exec_memory-HasAlignment mem i s m op width reason address amoadd_w h =
    rw (test_misaligned (amo_address i m) 4 h) refl
exec_memory-HasAlignment mem i s m op width reason address amoxor_w h =
    rw (test_misaligned (amo_address i m) 4 h) refl
exec_memory-HasAlignment mem i s m op width reason address amoand_w h =
    rw (test_misaligned (amo_address i m) 4 h) refl
exec_memory-HasAlignment mem i s m op width reason address amoor_w h =
    rw (test_misaligned (amo_address i m) 4 h) refl
exec_memory-HasAlignment mem i s m op width reason address amomin_w h =
    rw (test_misaligned (amo_address i m) 4 h) refl
exec_memory-HasAlignment mem i s m op width reason address amominu_w h =
    rw (test_misaligned (amo_address i m) 4 h) refl
exec_memory-HasAlignment mem i s m op width reason address amomax_w h =
    rw (test_misaligned (amo_address i m) 4 h) refl
exec_memory-HasAlignment mem i s m op width reason address amomaxu_w h =
    rw (test_misaligned (amo_address i m) 4 h) refl
