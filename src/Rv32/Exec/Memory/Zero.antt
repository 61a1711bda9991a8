-- ===== src/Rv32/Exec/Memory/Zero.antt =====
-- x0 across the cases that access memory.
use riscv_vp_plusplus.Base.{ℕ, ◌≡◌, ◌⊎◌, arith}
use riscv_vp_plusplus.Instr.OpId.{OpId}
use riscv_vp_plusplus.Instr.Fields.{rd}
use riscv_vp_plusplus.Rv32.State.{SimulationTrap}
use riscv_vp_plusplus.Rv32.Exec.Memory.{
  DataMemory, MemoryHart, MemoryOutcome, retired, trapped, MemoryCase, load_case, store_case,
  amo_case, lr_case, sc_case, no_case, memory_case, exec_case, exec_memory,
}

-- A retired case leaves x0 zero. So does one that traps, but for SC with x0 for its result.
abbrev pub KeepsZero : {S : Type 0} → MemoryCase S → ℕ → MemoryOutcome S → Type 0
KeepsZero {S = S} k i r =
    ((s : S) (m : MemoryHart) → r ≡ retired s m → m.regs 0 ≡ 0)
    × ((s : S) (m : MemoryHart) (e : SimulationTrap)
        → r ≡ trapped s m e
        → (m.regs 0 ≡ 0) ⊎ ((k ≡ sc_case) × (rd i ≡ 0) × (m.regs 0 ≡ 1)))

module _ {S : Type 0} (mem : DataMemory S) (i : ℕ) (s : S) (m : MemoryHart)
    (zero : m.regs 0 ≡ 0) where
  exec_case-KeepsZero : (k : MemoryCase S) → KeepsZero k i (exec_case mem i s m k)
  unfolding exec_case
  exec_case-KeepsZero (load_case alignment mem_load) =
      (λ s' m' h. ground arith, λ s' m' e h. ground arith)
  exec_case-KeepsZero (store_case alignment mem_store) =
      (λ s' m' h. ground arith, λ s' m' e h. ground arith)
  exec_case-KeepsZero (amo_case operation) = (λ s' m' h. ground arith, λ s' m' e h. ground arith)
  exec_case-KeepsZero lr_case = (λ s' m' h. ground arith, λ s' m' e h. ground arith)
  exec_case-KeepsZero sc_case = (λ s' m' h. ground arith, λ s' m' e h. ground arith)
  exec_case-KeepsZero no_case = (λ s' m' h. ground arith, λ s' m' e h. ground arith)

-- From a zero x0, a memory case that retires leaves x0 zero, and so does one that traps, unless it
-- is SC.W with x0 for its result: that may leave x0 at one.
pub exec_memory-KeepsZero :
    {S : Type 0} (mem : DataMemory S) (i : ℕ) (s : S) (m : MemoryHart) (op : OpId)
    → m.regs 0 ≡ 0
    → KeepsZero (memory_case mem op) i (exec_memory mem i s m op)
unfolding exec_memory
exec_memory-KeepsZero mem i s m op zero = exec_case-KeepsZero mem i s m zero (memory_case mem op)
