-- ===== src/Examples/Clints.antt =====
-- A CLINT and an FE310 PLIC of two harts, and a register range without callbacks.
use riscv_vp_plusplus.Base.{
  ℕ, ◌/◌, ◌%◌, ◌≡◌, ◌≤◌, ◌⊎◌, refl, arith, false, true, List, [], ◌∷◌, ◌==◌, some, if◌then◌else◌,
}
use riscv_vp_plusplus.Util.MemoryMap.{
  RegisterRange, Register, process, read_command, write_command, to_local, read_bytes,
}
use riscv_vp_plusplus.Util.MemoryMap.Laws.{process-round_trip}
use riscv_vp_plusplus.Clint.{
  Clint, mtime, msip, update_and_get_mtime, run_timers, pre_read_mtime, post_write_msip,
}
use riscv_vp_plusplus.Clint.Timer.{
  IsTimeReached, IsTimeAhead, timer_line, software_line, update_and_get_mtime-monotone,
  pre_read_mtime-mtime, run_timers-timer_line, post_write_msip-software_line,
}
use riscv_vp_plusplus.Clint.Lightweight.{lwrt_run, lwrt_update_and_get_mtime, lwrt_run-timer_line}
use riscv_vp_plusplus.Fe310.{
  Fe310Plic, fe310_run, hart_has_pending_enabled_interrupts, hart_get_next_pending_interrupt,
}
use riscv_vp_plusplus.Fe310.Delivery.{IsRaised, fe310_run-IsRaised}
use riscv_vp_plusplus.Examples.{user_core}

abbrev range_of : ℕ → ℕ → (ℕ → ℕ) → RegisterRange
range_of start size mem = record {
  start = start;
  size = size;
  mem = mem;
  readonly = false;
  alignment = 4;
}

-- The time is 5, hart 0 waits for 9, hart 1 has its software interrupt pending.
abbrev clint : Clint
clint = record {
  number_of_cores = 2;
  scaler = 1000;
  access_delay = 20;
  regs_mtime = range_of 0xBFF8 8 (λ j. if j == 0 then 5 else 0);
  regs_mtimecmp = range_of 0x4000 16 (λ j. if j == 0 then 9 else 0);
  regs_msip = range_of 0x0 8 (λ j. if j == 4 then 3 else 0);
  target_harts = λ i. user_core;
  irq_event = [];
  now = 10000;
  delay = 20;
}

run_timers-timer_line_example :
    (IsTimeReached 9 (mtime (update_and_get_mtime clint)) × (timer_line (run_timers clint) 0 ≡ 1))
    ⊎ (IsTimeAhead 9 (mtime (update_and_get_mtime clint)) × (timer_line (run_timers clint) 0 ≡ 0))
unfolding read_bytes
run_timers-timer_line_example = run_timers-timer_line clint 0 (omega arith)

update_and_get_mtime-monotone_example :
    (mtime clint ≤ mtime (update_and_get_mtime clint))
    × (clint.now / clint.scaler ≤ mtime (update_and_get_mtime clint))
    × ((mtime (update_and_get_mtime clint) ≡ mtime clint)
        ⊎ (mtime (update_and_get_mtime clint) ≡ clint.now / clint.scaler))
update_and_get_mtime-monotone_example = update_and_get_mtime-monotone clint (omega arith)

pre_read_mtime-mtime_example : mtime (pre_read_mtime clint 0 8).0 ≡ 10020 / 1000
pre_read_mtime-mtime_example = pre_read_mtime-mtime clint 0 8 (omega arith)

post_write_msip-software_line_example :
    (software_line (post_write_msip clint 4 4) 1 ≡ msip clint 1 % 2)
    × (msip (post_write_msip clint 4 4) 1 ≡ msip clint 1 % 2)
post_write_msip-software_line_example = post_write_msip-software_line clint 1 4

lwrt_run-timer_line_example :
    (IsTimeReached 0 (mtime (lwrt_update_and_get_mtime 12 clint))
      × (timer_line (lwrt_run 12 clint) 1 ≡ 1))
    ⊎ (IsTimeAhead 0 (mtime (lwrt_update_and_get_mtime 12 clint))
        × (timer_line (lwrt_run 12 clint) 1 ≡ timer_line clint 1))
unfolding read_bytes
lwrt_run-timer_line_example = lwrt_run-timer_line 12 clint 1 (omega arith)

abbrev plain : Register RegisterRange
plain = record {
  range = λ r. r;
  with_range = λ r r'. r';
  pre_write = λ r a n. (r, true);
  post_write = λ r a n. r;
  pre_read = λ r a n. (r, true);
  post_read = λ r a n. r;
}

abbrev scratch : RegisterRange
scratch = range_of 0x100 16 (λ j. 0)

abbrev word : List ℕ
word = 1 ∷ 2 ∷ 3 ∷ 4 ∷ []

process-round_trip_example :
    (r : RegisterRange) × (process plain scratch 0x104 (write_command word) ≡ some (r, []))
    × (process plain r 0x104 (read_command 4)
        ≡ some (plain.post_read r (to_local scratch 0x104) 4, word))
process-round_trip_example =
    process-round_trip plain scratch 0x104 word
      (λ r a n. refl, λ r a n. refl, λ r a n. refl, λ r r'. refl) refl (omega arith) (omega arith)
      refl

-- Interrupt 3 is pending with priority 2, and hart 1 has it enabled.
abbrev fe310 : Fe310Plic
fe310 = record {
  number_cores = 2;
  number_interrupts = 5;
  max_priority = 7;
  regs_interrupt_priorities = range_of 0x0 24 (λ j. if j == 12 then 2 else 0);
  regs_pending_interrupts = range_of 0x1000 4 (λ j. if j == 0 then 8 else 0);
  regs_hart_enabled_interrupts = range_of 0x2000 8 (λ j. if j == 4 then 8 else 0);
  regs_hart_config = range_of 0x200000 16 (λ j. 0);
  irq_level = 3;
  hart_eip = λ i. false;
  target_harts = λ i. user_core;
}

hart_has_pending_enabled_interrupts_test : hart_has_pending_enabled_interrupts fe310 1 ≡ true
unfolding hart_has_pending_enabled_interrupts hart_get_next_pending_interrupt read_bytes
hart_has_pending_enabled_interrupts_test = refl

fe310_run-IsRaised_example : IsRaised fe310 (fe310_run fe310) 1
fe310_run-IsRaised_example = fe310_run-IsRaised fe310 1 refl (omega arith)
