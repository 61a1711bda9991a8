-- ===== src/Rv32/Exec/Memory.antt =====
-- vp/src/core/rv32/iss_ctemplate.{h,cpp}: the cases of `exec_steps` that access data memory, over the
-- interface `data_memory_if_T`. The load/store cache in front of it is the one without entries
-- (core/common/lscache.h, `LSCache_IF_T`), which passes every access on.
pub mod Alignment
pub mod Zero
use Prim.Native.Nat.{min, max}
use riscv_vp_plusplus.Base.{
  ℕ, ◌+◌, ◌%◌, ◌^◌, bit_and, bit_or, bit_xor, Bool, true, false, ◌==◌, ◌!=◌, u32, if◌then◌else◌,
}
use riscv_vp_plusplus.Instr.OpId.{OpId}
use riscv_vp_plusplus.Instr.Fields.{rs1, rs2, rd, i_imm, s_imm}
use riscv_vp_plusplus.Rv32.State.{SimulationTrap}
use riscv_vp_plusplus.Rv32.Exec.{write_reg}
use riscv_vp_plusplus.Rv32.Exec.Arith.{signed_lt}
use riscv_vp_plusplus.Mmu.{Access, done, raised, stop}

-- `data_memory_if_T`, the part that RV32 uses. A load returns the 32-bit pattern of its result.
pub record DataMemory (S : Type 0) : Type 0 where
  pub load_byte : S → ℕ → Access S ℕ
  pub load_half : S → ℕ → Access S ℕ
  pub load_word : S → ℕ → Access S ℕ
  pub load_ubyte : S → ℕ → Access S ℕ
  pub load_uhalf : S → ℕ → Access S ℕ
  pub store_byte : S → ℕ → ℕ → Access S ℕ
  pub store_half : S → ℕ → ℕ → Access S ℕ
  pub store_word : S → ℕ → ℕ → Access S ℕ
  pub atomic_load_word : S → ℕ → Access S ℕ
  pub atomic_store_word : S → ℕ → ℕ → Access S ℕ
  pub atomic_load_reserved_word : S → ℕ → Access S ℕ
  pub atomic_store_conditional_word : S → ℕ → ℕ → Access S Bool

-- The registers, and what LR and SC keep of a reservation.
pub record MemoryHart : Type 0 where
  pub regs : ℕ → ℕ
  pub lr_sc_counter : ℕ
  pub iss_slow_path : Bool

-- A case retires, or leaves by a trap; `stopped` is an exception that is no trap.
pub data MemoryOutcome (S : Type 0) : Type 0 where
  retired : S → MemoryHart → MemoryOutcome S
  trapped : S → MemoryHart → SimulationTrap → MemoryOutcome S
  stopped : MemoryOutcome S

-- The operations by the shape of their case; the number is the alignment.
pub data MemoryCase (S : Type 0) : Type 0 where
  load_case : ℕ → (S → ℕ → Access S ℕ) → MemoryCase S
  store_case : ℕ → (S → ℕ → ℕ → Access S ℕ) → MemoryCase S
  amo_case : (ℕ → ℕ → ℕ) → MemoryCase S
  lr_case : MemoryCase S
  sc_case : MemoryCase S
  no_case : MemoryCase S

unfoldable pub memory_case : {S : Type 0} → DataMemory S → OpId → MemoryCase S
memory_case mem OpId.sb = store_case 1 (λ s addr value. mem.store_byte s addr (value % 2 ^ 8))
memory_case mem OpId.sh = store_case 2 (λ s addr value. mem.store_half s addr (value % 2 ^ 16))
memory_case mem OpId.sw = store_case 4 mem.store_word
memory_case mem OpId.lb = load_case 1 mem.load_byte
memory_case mem OpId.lh = load_case 2 mem.load_half
memory_case mem OpId.lw = load_case 4 mem.load_word
memory_case mem OpId.lbu = load_case 1 mem.load_ubyte
memory_case mem OpId.lhu = load_case 2 mem.load_uhalf
memory_case mem OpId.lr_w = lr_case
memory_case mem OpId.sc_w = sc_case
memory_case mem OpId.amoswap_w = amo_case (λ a b. b)
memory_case mem OpId.amoadd_w = amo_case (λ a b. u32 (a + b))
memory_case mem OpId.amoxor_w = amo_case bit_xor
memory_case mem OpId.amoand_w = amo_case bit_and
memory_case mem OpId.amoor_w = amo_case bit_or
memory_case mem OpId.amomin_w = amo_case (λ a b. if signed_lt b a then b else a)
memory_case mem OpId.amominu_w = amo_case min
memory_case mem OpId.amomax_w = amo_case (λ a b. if signed_lt a b then b else a)
memory_case mem OpId.amomaxu_w = amo_case max
memory_case mem _ = no_case

abbrev pub set_reg : ℕ → ℕ → MemoryHart → MemoryHart
set_reg index value m = record m { regs = write_reg index value m.regs }

abbrev pub reset_reg_zero : MemoryHart → MemoryHart
reset_reg_zero m = set_reg 0 0 m

abbrev pub alignment_trap : ℕ → ℕ → SimulationTrap
alignment_trap reason addr = record { reason = reason; mtval = addr }

-- The reason that `execute_amo_w` throws on for a trap of its load.
abbrev pub amo_trap : SimulationTrap → SimulationTrap
amo_trap e = if e.reason == 5 then record { reason = 7; mtval = e.mtval } else e

module _ {S : Type 0} (mem : DataMemory S) (i : ℕ) (s : S) (m : MemoryHart) where
  -- `EXC_LOAD_ADDR_MISALIGNED` is 4, `EXC_STORE_AMO_ADDR_MISALIGNED` 6.
  unfoldable pub execute_load : ℕ → (S → ℕ → Access S ℕ) → MemoryOutcome S
  execute_load alignment mem_load =
      let addr = u32 (m.regs (rs1 i) + i_imm i) in
      if addr % alignment != 0
      then trapped s m (alignment_trap 4 addr)
      else elim (mem_load s addr) [
        | done s' value ↦ retired s' (reset_reg_zero (set_reg (rd i) value m))
        | raised s' e ↦ trapped s' m e
        | stop ↦ stopped
      ]

  unfoldable pub execute_store : ℕ → (S → ℕ → ℕ → Access S ℕ) → MemoryOutcome S
  execute_store alignment mem_store =
      let addr = u32 (m.regs (rs1 i) + s_imm i) in
      if addr % alignment != 0
      then trapped s m (alignment_trap 6 addr)
      else elim (mem_store s addr (m.regs (rs2 i))) [
        | done s' _ ↦ retired s' m
        | raised s' e ↦ trapped s' m e
        | stop ↦ stopped
      ]

  unfoldable pub execute_amo_w : (ℕ → ℕ → ℕ) → MemoryOutcome S
  execute_amo_w operation =
      let addr = m.regs (rs1 i) in
      if addr % 4 != 0
      then trapped s m (alignment_trap 6 addr)
      else elim (mem.atomic_load_word s addr) [
        | raised s' e ↦ trapped s' m (amo_trap e)
        | stop ↦ stopped
        | done s' value ↦ elim (mem.atomic_store_word s' addr (operation value (m.regs (rs2 i)))) [
          | raised s'' e ↦ trapped s'' m e
          | stop ↦ stopped
          | done s'' _ ↦ retired s'' (if rd i != 0 then set_reg (rd i) value m else m)
        ]
      ]

  -- 17 instructions are covered by a reservation.
  unfoldable pub execute_lr_w : MemoryOutcome S
  execute_lr_w =
      let addr = m.regs (rs1 i) in
      if addr % 4 != 0
      then trapped s m (alignment_trap 4 addr)
      else elim (mem.atomic_load_reserved_word s addr) [
        | raised s' e ↦ trapped s' m e
        | stop ↦ stopped
        | done s' value ↦
            let loaded = set_reg (rd i) value m in
            let reserved =
              if m.lr_sc_counter == 0
              then record loaded { lr_sc_counter = 17; iss_slow_path = true }
              else loaded in
            retired s' (reset_reg_zero reserved)
      ]

  -- rd holds 1 while the store runs.
  unfoldable pub execute_sc_w : MemoryOutcome S
  execute_sc_w =
      let addr = m.regs (rs1 i) in
      if addr % 4 != 0
      then trapped s m (alignment_trap 6 addr)
      else let failed = set_reg (rd i) 1 m in
        elim (mem.atomic_store_conditional_word s addr (m.regs (rs2 i))) [
          | raised s' e ↦ trapped s' failed e
          | stop ↦ stopped
          | done s' success ↦
              let result = set_reg (rd i) (if success then 0 else 1) failed in
              retired s' (reset_reg_zero (record result { lr_sc_counter = 0 }))
        ]

  unfoldable pub exec_case : MemoryCase S → MemoryOutcome S
  unfolding execute_load execute_store execute_amo_w execute_lr_w execute_sc_w
  exec_case (load_case alignment mem_load) = execute_load alignment mem_load
  exec_case (store_case alignment mem_store) = execute_store alignment mem_store
  exec_case (amo_case operation) = execute_amo_w operation
  exec_case lr_case = execute_lr_w
  exec_case sc_case = execute_sc_w
  exec_case no_case = stopped

  -- `stopped` for an operation with no case here.
  unfoldable pub exec_memory : OpId → MemoryOutcome S
  unfolding exec_case memory_case
  exec_memory op = exec_case (memory_case mem op)
