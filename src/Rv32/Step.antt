-- ===== src/Rv32/Step.antt =====
-- vp/src/core/rv32/iss_ctemplate.cpp, `ISS_CT::exec_steps`: one turn of the loop, from the fetch to the
-- trap handler, with the instruction cache without blocks (core/common/dbbcache.h, `DBBCacheDummy_T`).
-- Debug mode, traces and the end of the simulation by `shall_exit` are not in the state; a wait in
-- SystemC is a step of the environment.
pub mod WellFormed
pub mod CsrsKept
pub mod Invariant
pub mod Reservation
pub mod Holding
pub mod Counting
pub mod Environment
pub mod Reachable
use riscv_vp_plusplus.Base.{
  ℕ, ◌+◌, ◌-◌, ◌%◌, ◌^◌, Bool, true, false, ◌==◌, ◌!=◌, ltb, Option, none, some, if◌then◌else◌, u32,
}
use riscv_vp_plusplus.Instr.OpId.{OpId}
use riscv_vp_plusplus.Instr.Isa.{rv32}
use riscv_vp_plusplus.Instr.Fields.{is_compressed}
use riscv_vp_plusplus.Instr.Decode.{decode_normal}
use riscv_vp_plusplus.Instr.Compressed.Expand.{Expanded, decode_and_expand_compressed}
use riscv_vp_plusplus.Mmu.{done, raised, stop, mmu_core}
use riscv_vp_plusplus.Mmu.Tlb.{Tlb, flush_tlb}
use riscv_vp_plusplus.Mem.{TargetMemory, Interface, MemState, data_memory, load_instr}
use riscv_vp_plusplus.Rv32.Csrs.Access.{Clocks}
use riscv_vp_plusplus.Rv32.State.{
  Core, SimulationTrap, Result, ok, error, has_c_extension, release_lr_sc_reservation,
}
use riscv_vp_plusplus.Rv32.Trap.{handle_interrupt, handle_trap, then_ok}
use riscv_vp_plusplus.Rv32.Exec.{Hart, next, trap, other, exec_op}
use riscv_vp_plusplus.Rv32.Exec.Memory.{
  MemoryHart, MemoryOutcome, retired, trapped, stopped, MemoryCase, no_case, memory_case, exec_case,
}
use riscv_vp_plusplus.Rv32.Exec.System.{
  SystemHart, SystemConfig, SystemOutcome, completed, tlb_flushed, faulted, waiting, failed,
  outside, commit_instructions, exec_system,
}

-- `ISS_CT` with its registers, its part of the memory interface and of the TLB, and the memory
-- behind the bus. `core.pc` is the pc of the instruction cache.
pub record Machine (B : Type 0) : Type 0 where
  pub regs : ℕ → ℕ
  pub last_pc : ℕ
  pub ninstr : ℕ
  pub ninstr_last : ℕ
  pub core : Core
  pub target : B
  pub lr_addr : ℕ
  pub tlb : Tlb

-- `isa` is `isa_config.cfg`.
pub record MachineConfig (B : Type 0) : Type 0 where
  pub memory : TargetMemory B
  pub mmu : Bool
  pub page_fault_on_ad : Bool
  pub isa : ℕ
  pub fast_quantum_ins_granularity : ℕ
  pub sys : Bool
  pub debug_mode : Bool
  pub ignore_wfi : Bool
  pub upper_half_first : Bool

-- The result of a case: `blocked` is an access that does not end in this state, `ended` another
-- exception, `unmodelled` an instruction that has no case here.
pub data Executed (B : Type 0) : Type 0 where
  executed : Machine B → Executed B
  traps : Machine B → SimulationTrap → Executed B
  sleeps : Machine B → Executed B
  blocked : Executed B
  ended : Executed B
  unmodelled : Executed B

-- The two records that the memory and the system cases work on, and the way back.
abbrev pub memory_hart : {B : Type 0} → Machine B → MemoryHart
memory_hart m = record {
  regs = m.regs;
  lr_sc_counter = m.core.lr_sc_counter;
  iss_slow_path = m.core.iss_slow_path;
}

abbrev pub memory_state : {B : Type 0} → Machine B → MemState B
memory_state m = record {
  memory = record { target = m.target; bus_lock = m.core.bus_lock; lr_addr = m.lr_addr };
  tlb = m.tlb;
}

abbrev pub with_memory : {B : Type 0} → Machine B → MemState B → Machine B
with_memory m s = record m {
  target = s.memory.target;
  lr_addr = s.memory.lr_addr;
  tlb = s.tlb;
  core = record m.core { bus_lock = s.memory.bus_lock };
}

abbrev pub with_memory_hart : {B : Type 0} → Machine B → MemoryHart → Machine B
with_memory_hart m h = record m {
  regs = h.regs;
  core = record m.core { lr_sc_counter = h.lr_sc_counter; iss_slow_path = h.iss_slow_path };
}

abbrev pub system_hart : {B : Type 0} → Machine B → SystemHart
system_hart m = record {
  regs = m.regs;
  last_pc = m.last_pc;
  ninstr = m.ninstr;
  ninstr_last = m.ninstr_last;
  core = m.core;
}

abbrev pub with_system_hart : {B : Type 0} → Machine B → SystemHart → Machine B
with_system_hart m h = record m {
  regs = h.regs;
  last_pc = h.last_pc;
  ninstr = h.ninstr;
  ninstr_last = h.ninstr_last;
  core = h.core;
}

abbrev pub hart : {B : Type 0} → Machine B → Hart
hart m = record { regs = m.regs; pc = m.core.pc; last_pc = m.last_pc }

abbrev pub with_hart : {B : Type 0} → Machine B → Hart → Machine B
with_hart m h = record m { regs = h.regs; core = record m.core { pc = h.pc } }

-- An instruction as the cases see it: its word, its operation and its length.
pub record Fetched : Type 0 where
  pub word : ℕ
  pub op : OpId
  pub length : ℕ

-- `DBBCacheDummy_T::decode`; `none` is an operation that the decoder model leaves out.
unfoldable pub decode_word : ℕ → ℕ → Option Fetched
decode_word isa mem_word =
    if is_compressed mem_word
    then elim (decode_and_expand_compressed rv32 isa mem_word) [
      | none ↦ none
      | some r ↦ some (record { word = r.word; op = r.op; length = 2 })
    ]
    else elim (decode_normal rv32 isa mem_word) [
      | none ↦ none
      | some op ↦ some (record { word = mem_word; op = op; length = 4 })
    ]

-- `commit_all_and_reset_fast_quantum`, without the cycles.
unfoldable pub commit_all_and_reset_fast_quantum : {B : Type 0} → Machine B → Machine B
unfolding commit_instructions
commit_all_and_reset_fast_quantum m =
    record (with_system_hart m (commit_instructions (system_hart m))) {
      ninstr = 0;
      ninstr_last = 0;
    }

-- The count of a reservation: it is released at the end, and else the slow path is taken again.
unfoldable pub count_lr_sc : Core → Core
unfolding release_lr_sc_reservation
count_lr_sc c =
    if c.lr_sc_counter != 0
    then (let counted = record c { lr_sc_counter = c.lr_sc_counter - 1 } in
        if counted.lr_sc_counter == 0
        then release_lr_sc_reservation counted
        else record counted { iss_slow_path = true })
    else c

-- What the slow path does before the fetch.
unfoldable pub slow_path : {B : Type 0} → Machine B → Result (Machine B)
unfolding commit_all_and_reset_fast_quantum handle_interrupt count_lr_sc
slow_path m0 =
    let m =
      commit_all_and_reset_fast_quantum
        (record m0 { core = record m0.core { iss_slow_path = false } }) in
    then_ok (handle_interrupt m.core) (λ core. ok (record m { core = count_lr_sc core }))

-- The case is over: the instruction is counted, or the trap is taken.
unfoldable pub finish : {B : Type 0} → Executed B → Executed B
unfolding handle_trap
finish (executed m) = executed (record m { ninstr = (m.ninstr + 1) % 2 ^ 64 })
finish (traps m e) = elim (handle_trap m.core e m.last_pc) [
  | ok core ↦ executed (record m { core = core; ninstr = (m.ninstr + 1) % 2 ^ 64 })
  | error ↦ ended
]
finish r = r

-- The pc of the instruction cache after an instruction of `length` bytes.
abbrev pub advance : {B : Type 0} → Machine B → ℕ → Machine B
advance m length = record m { core = record m.core { pc = u32 (m.core.pc + length) } }

module _ {B : Type 0} (cfg : MachineConfig B) where
  abbrev pub interface : Machine B → Interface B
  interface m = record {
    memory = cfg.memory;
    hart_id = m.core.csrs.mhartid;
    mmu = cfg.mmu;
    core = mmu_core m.core cfg.page_fault_on_ad;
    upper_half_first = cfg.upper_half_first;
  }

  abbrev pub system_config : Clocks → SystemConfig
  system_config clocks = record {
    clocks = clocks;
    sys = cfg.sys;
    debug_mode = cfg.debug_mode;
    ignore_wfi = cfg.ignore_wfi;
  }

  abbrev pub finish_memory : Machine B → MemoryOutcome (MemState B) → Executed B
  finish_memory m r = elim r [
    | retired s h ↦ executed (with_memory (with_memory_hart m h) s)
    | trapped s h e ↦ traps (with_memory (with_memory_hart m h) s) e
    | stopped ↦ blocked
  ]

  -- `fence_vma` of the load/store cache flushes the TLB.
  abbrev pub finish_system : Machine B → SystemOutcome → Executed B
  finish_system m r = elim r [
    | completed h ↦ executed (with_system_hart m h)
    | tlb_flushed h ↦ executed (record (with_system_hart m h) { tlb = flush_tlb })
    | faulted h e ↦ traps (with_system_hart m h) e
    | waiting h ↦ sleeps (with_system_hart m h)
    | failed ↦ ended
    | outside ↦ unmodelled
  ]

  -- The cases that `exec_op` leaves out: those of memory, and then those of the system.
  unfoldable pub execute_other :
      Clocks → Machine B → ℕ → OpId → MemoryCase (MemState B) → Executed B
  unfolding exec_system
  execute_other clocks m i op no_case =
      finish_system m (exec_system (system_config clocks) i (system_hart m) op)
  execute_other clocks m i op c =
      finish_memory m (exec_case (data_memory (interface m)) i (memory_state m) (memory_hart m) c)

  unfoldable pub execute : Clocks → Machine B → ℕ → OpId → Executed B
  unfolding exec_op execute_other memory_case
  execute clocks m i op = elim (exec_op (has_c_extension m.core) i (hart m) op) [
    | next h ↦ executed (with_hart m h)
    | trap e ↦ traps m e
    | other ↦ execute_other clocks m i op (memory_case (data_memory (interface m)) op)
  ]

  -- `DBBCacheDummy_T::fetch_decode`, and the case that it goes to.
  unfoldable pub fetch_execute : Clocks → Machine B → Executed B
  unfolding load_instr decode_word execute
  fetch_execute clocks m0 =
      let m = record m0 { last_pc = m0.core.pc } in
      elim (load_instr (interface m) (memory_state m) m.core.pc) [
        | stop ↦ blocked
        | raised s e ↦ traps (with_memory m s) e
        | done s mem_word ↦ elim (decode_word cfg.isa mem_word) [
          | none ↦ unmodelled
          | some f ↦ execute clocks (advance (with_memory m s) f.length) f.word f.op
        ]
      ]

  -- The fetch without the slow path, where the quantum may be over.
  abbrev pub fast_path : Machine B → Machine B
  unfolding commit_all_and_reset_fast_quantum
  fast_path m =
      if ltb cfg.fast_quantum_ins_granularity m.ninstr
      then commit_all_and_reset_fast_quantum m
      else m

  unfoldable pub prepare_step : Machine B → Result (Machine B)
  unfolding slow_path
  prepare_step m = if m.core.iss_slow_path then slow_path m else ok (fast_path m)

  unfoldable pub exec_step : Clocks → Machine B → Executed B
  unfolding prepare_step fetch_execute finish
  exec_step clocks m = elim (prepare_step m) [
    | ok m' ↦ finish (fetch_execute clocks m')
    | error ↦ ended
  ]
