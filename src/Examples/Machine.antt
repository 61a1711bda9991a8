-- ===== src/Examples/Machine.antt =====
-- Turns of a hart with its memory.
use riscv_vp_plusplus.Base.{◌+◌, ◌≡◌, ◌^◌, ◌==◌, refl, inl, inr, arith, false, true, if◌then◌else◌}
use riscv_vp_plusplus.Instr.OpId.{OpId}
use riscv_vp_plusplus.Instr.Fields.{is_compressed, quadrant, rd, opcode, funct3, funct12}
use riscv_vp_plusplus.Instr.Decode.{decode_normal, decode_system, decode_privileged, match_or_zero}
use riscv_vp_plusplus.Mmu.Tlb.{flush_tlb}
use riscv_vp_plusplus.Mem.{load_instr, v2p, raw_load_data}
use riscv_vp_plusplus.Rv32.Csrs.Access.{Clocks}
use riscv_vp_plusplus.Rv32.State.{Result, ok, error, release_lr_sc_reservation}
use riscv_vp_plusplus.Rv32.Trap.{
  compute_pending_interrupts, handle_interrupt, handle_trap, prepare_trap, switch_to_trap_handler,
}
use riscv_vp_plusplus.Rv32.Exec.{exec_op}
use riscv_vp_plusplus.Rv32.Exec.Memory.{memory_case}
use riscv_vp_plusplus.Rv32.Exec.System.{
  SystemHart, SystemConfig, commit_instructions, exec_system, exec_ecall,
}
use riscv_vp_plusplus.Rv32.Step.{
  Machine, MachineConfig, Executed, executed, exec_step, prepare_step, fetch_execute, execute,
  slow_path, count_lr_sc, commit_all_and_reset_fast_quantum, execute_other, finish, decode_word,
}
use riscv_vp_plusplus.Rv32.Step.WellFormed.{IsWellFormed}
use riscv_vp_plusplus.Rv32.Step.Environment.{turn, here, instruction}
use riscv_vp_plusplus.Rv32.Step.Reachable.{Reaches-IsWellFormed, Reaches-IsCounting}
use riscv_vp_plusplus.Rv32.Step.Reservation.{IsCounting}
use riscv_vp_plusplus.Rv32.Step.Counting.{CountsDown, slow_path-CountsDown}
use riscv_vp_plusplus.Rv32.Exec.System.Legal.{IsConfined, exec_system-IsConfined}
use riscv_vp_plusplus.Bus.{unlock, is_locked}
use riscv_vp_plusplus.Examples.{user_core}
use riscv_vp_plusplus.Examples.Memory.{Words, word_target}

abbrev clocks : Clocks
clocks = record { mtime = 7; cycles = 9 }

abbrev config : MachineConfig Words
config = record {
  memory = word_target;
  mmu = false;
  page_fault_on_ad = false;
  isa = 2 ^ 20 + 2 ^ 18;
  fast_quantum_ins_granularity = 1000;
  sys = false;
  debug_mode = false;
  ignore_wfi = false;
  upper_half_first = true;
}

-- ECALL at the pc of the hart.
abbrev calling : Machine Words
calling = record {
  regs = λ j. 0;
  last_pc = 0;
  ninstr = 3;
  ninstr_last = 1;
  core = record user_core {
    iss_slow_path = false;
    lr_sc_counter = 0;
    bus_lock = record { locked = false; owner = 0 };
  };
  target = λ a. if a == 0x1004 then 0x73 else 0;
  lr_addr = 0;
  tlb = flush_tlb;
}

abbrev machine_of : Machine Words → Executed Words → Machine Words
machine_of m (executed m') = m'
machine_of m _ = m

-- The hart in the handler.
abbrev called : Machine Words
called = machine_of calling (exec_step config clocks calling)

call : exec_step config clocks calling ≡ executed called
unfolding exec_step prepare_step fetch_execute execute execute_other finish decode_word load_instr
    v2p raw_load_data is_compressed quadrant decode_normal decode_system exec_op memory_case
    exec_system exec_ecall handle_trap prepare_trap switch_to_trap_handler release_lr_sc_reservation
    opcode funct3 decode_privileged funct12 match_or_zero rd unlock
call = refl

Reaches-IsWellFormed_example : IsWellFormed called.core
Reaches-IsWellFormed_example =
    Reaches-IsWellFormed config calling called (turn (instruction clocks call) here)
      (omega arith, omega arith, (refl, refl, refl), refl)

Reaches-IsCounting_example : IsCounting called.core
unfolding is_locked
Reaches-IsCounting_example =
    Reaches-IsCounting config calling called (turn (instruction clocks call) here)
      (inl refl, omega arith, inl refl)

-- A hart in machine mode with a reservation, of which five turns are left.
abbrev reserved : Machine Words
reserved = record calling {
  core = record user_core { prv = 3; iss_slow_path = true; lr_sc_counter = 5 };
}

abbrev result_of : Machine Words → Result (Machine Words) → Machine Words
result_of m (ok m') = m'
result_of m error = m

slow_path-CountsDown_example :
    CountsDown reserved.core (result_of reserved (slow_path reserved)).core
unfolding slow_path handle_interrupt compute_pending_interrupts commit_all_and_reset_fast_quantum
    commit_instructions count_lr_sc
slow_path-CountsDown_example =
    slow_path-CountsDown reserved (result_of reserved (slow_path reserved)) (inr (omega arith))
      (omega arith) refl

abbrev bare_config : SystemConfig
bare_config = record { clocks = clocks; sys = false; debug_mode = false; ignore_wfi = true }

abbrev user_hart : SystemHart
user_hart = record {
  regs = λ j. j;
  last_pc = 0x1000;
  ninstr = 3;
  ninstr_last = 1;
  core = user_core;
}

-- CSRRW of mtvec from user mode: refused.
exec_system-IsConfined_example :
    IsConfined user_core.csrs (exec_system bare_config 0x305090F3 user_hart OpId.csrrw)
exec_system-IsConfined_example =
    exec_system-IsConfined bare_config 0x305090F3 user_hart OpId.csrrw (omega arith)
