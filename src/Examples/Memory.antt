-- ===== src/Examples/Memory.antt =====
-- A memory of words behind the bus with a page table in it, and the accesses of a hart to it.
use riscv_vp_plusplus.Base.{
  ℕ, ◌%◌, ◌^◌, ◌*◌, ◌+◌, ◌≡◌, ◌==◌, refl, inl, arith, Bool, true, false, some, if◌then◌else◌,
}
use riscv_vp_plusplus.Bus.{lock, is_locked}
use riscv_vp_plusplus.Instr.OpId.{OpId}
use riscv_vp_plusplus.Instr.Fields.{rs1, i_imm}
use riscv_vp_plusplus.Rv32.Exec.Memory.{
  MemoryHart, trapped, alignment_trap, memory_case, exec_memory,
}
use riscv_vp_plusplus.Rv32.Exec.Memory.Zero.{KeepsZero, exec_memory-KeepsZero}
use riscv_vp_plusplus.Rv32.Exec.Memory.Alignment.{lw, exec_memory-HasAlignment}
use riscv_vp_plusplus.Mmu.{
  VmInfo, load, mmu_core, check_vaddr_extension, decode_vm_info, pte_address, load_pte,
}
use riscv_vp_plusplus.Mmu.Tlb.{flush_tlb, fill_tlb, effective_mode}
use riscv_vp_plusplus.Mmu.Walk.{Leads, found, deeper}
use riscv_vp_plusplus.Mem.{
  TargetMemory, Interface, MemState, mmu_memory, data_memory, atomic_load_data,
  atomic_store_conditional_data, load_data, store_data,
}
use riscv_vp_plusplus.Mem.Lock.{
  holds, IsStaleMiss, atomic_store_conditional_data-holds, atomic_load_data-IsStaleMiss,
}
use riscv_vp_plusplus.Mem.Hold.{atomic_load_data-holds}
use riscv_vp_plusplus.Examples.{user_core}

abbrev pub Words : Type 0
Words = ℕ → ℕ

abbrev write_word : Words → ℕ → ℕ → Words
write_word s addr value a = if a == addr then value else s a

abbrev pub word_target : TargetMemory Words
word_target = record {
  read = λ bytes s addr. some (s, s addr % 2 ^ (8 * bytes));
  write = λ bytes s addr value. some (write_word s addr value);
}

-- A pointer at 0x1000, and at 0x2004 a leaf whose A bit is clear.
abbrev stale_tables : Words
stale_tables a = if a == 0x1000 then 0x801 else if a == 0x2004 then 5 * 1024 + 159 else 0

abbrev paged : Interface Words
paged = record {
  memory = word_target;
  hart_id = 0;
  mmu = true;
  core = mmu_core (record user_core { csrs = record user_core.csrs { satp = 2 ^ 31 + 1 } }) false;
  upper_half_first = true;
}

abbrev flat : Interface Words
flat = record paged { mmu = false }

abbrev state : Words → Bool → MemState Words
state target is_held = record {
  memory = record {
    target = target;
    bus_lock = record { locked = is_held; owner = 0 };
    lr_addr = 8;
  };
  tlb = flush_tlb;
}

abbrev regs_hart : MemoryHart
regs_hart = record { regs = λ j. 0; lr_sc_counter = 0; iss_slow_path = false }

exec_memory-KeepsZero_example :
    KeepsZero
      (memory_case (data_memory flat) OpId.sc_w)
      0
      (exec_memory (data_memory flat) 0 (state stale_tables true) regs_hart OpId.sc_w)
exec_memory-KeepsZero_example =
    exec_memory-KeepsZero (data_memory flat) 0 (state stale_tables true) regs_hart OpId.sc_w refl

-- LW from one past x0.
exec_memory-HasAlignment_example :
    exec_memory (data_memory flat) 0x00102083 (state stale_tables false) regs_hart OpId.lw
    ≡ trapped (state stale_tables false) regs_hart (alignment_trap 4 1)
unfolding i_imm rs1
exec_memory-HasAlignment_example =
    exec_memory-HasAlignment (data_memory flat) 0x00102083 (state stale_tables false) regs_hart
      OpId.lw 4 4 _ lw (ground arith)

atomic_store_conditional_data-holds_example :
    (holds flat (state (write_word stale_tables 8 7) false).memory ≡ false)
    × (true ≡ true → (holds flat (state stale_tables true).memory ≡ true) × (◌≡◌ {A = ℕ} 8 8))
unfolding atomic_store_conditional_data store_data is_locked
atomic_store_conditional_data-holds_example =
    atomic_store_conditional_data-holds flat 4 8 7 (state stale_tables true)
      (state (write_word stale_tables 8 7) false) true refl

atomic_load_data-holds_example : holds flat (state stale_tables true).memory ≡ true
unfolding atomic_load_data load_data lock
atomic_load_data-holds_example =
    atomic_load_data-holds flat 4 0x1000 0x801 (state stale_tables false) (state stale_tables true)
      (inl refl) refl

abbrev sv32_info : VmInfo
sv32_info = record { levels = 2; idxbits = 10; ptesize = 4; ptbase = 0x1000 }

stale_tables-Leads :
    Leads
      (mmu_memory paged)
      paged.core
      sv32_info
      load
      false
      0x1234
      2
      0x1000
      (state stale_tables true).memory
      0
      0x2004
      (5 * 1024 + 159)
      (state stale_tables true).memory
unfolding pte_address load_pte mmu_core mmu_memory
stale_tables-Leads =
    deeper {i = 1} {pointer = 0x801} refl (refl, refl, refl, refl)
      (found {i = 0} refl (refl, inl refl, inl refl, refl, refl))

stale_tables-IsStaleMiss : IsStaleMiss paged (state stale_tables true) 0x1234
unfolding mmu_core decode_vm_info check_vaddr_extension effective_mode flush_tlb
stale_tables-IsStaleMiss = (
  ground arith,
  ground arith,
  ground arith,
  (
    sv32_info,
    refl,
    refl,
    (0, 0x2004, 5 * 1024 + 159, (state stale_tables true).memory, stale_tables-Leads, refl),
  ),
)

-- After the load the A bit is set in memory, and the bus is free.
abbrev updated_state : MemState Words
updated_state = record (state (write_word stale_tables 0x2004 (5 * 1024 + 223)) false) {
  tlb = fill_tlb flush_tlb 0x1234 load 0 0x5234;
}

atomic_load_data-IsStaleMiss_example : holds paged updated_state.memory ≡ false
unfolding atomic_load_data load_data lock mmu_core flush_tlb
atomic_load_data-IsStaleMiss_example =
    atomic_load_data-IsStaleMiss paged 4 0x1234 0 (state stale_tables false)
      (state stale_tables true) updated_state refl refl refl stale_tables-IsStaleMiss refl
