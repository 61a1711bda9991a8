-- ===== src/Examples/Traps.antt =====
-- Traps, interrupts and CSR accesses of concrete harts.
use riscv_vp_plusplus.Base.{
  ℕ, ◌≡◌, ◌≢◌, ◌≤◌, ◌^◌, ◌%◌, ◌/◌, false, true, inl, inr, refl, arith, bit_at, ◌⊎◌,
}
use riscv_vp_plusplus.Rv32.State.{Core, ok, machine_mode}
use riscv_vp_plusplus.Rv32.Csrs.{get_field, sstatus_write_mask}
use riscv_vp_plusplus.Rv32.Csrs.Access.{set_csr_value, write_csr, write, is_invalid_csr_access}
use riscv_vp_plusplus.Rv32.Csrs.Access.Laws.{sstatus_write, is_invalid_csr_access-allowed}
use riscv_vp_plusplus.Rv32.Trap.{
  handle_trap, handle_interrupt, return_from_trap_handler, compute_pending_interrupts,
  interrupt_code,
}
use riscv_vp_plusplus.Rv32.Trap.Interrupts.{
  IsFor, IsFirst, interrupt_code-IsFirst, compute_pending_interrupts-IsFor,
  compute_pending_interrupts_complete,
}
use riscv_vp_plusplus.Rv32.Trap.Delivery.{IsHandled, handle_interrupt-IsHandled}
use riscv_vp_plusplus.Rv32.Trap.RoundTrip.{Resumed, handle_trap-return_from_trap_handler}
use riscv_vp_plusplus.Rv32.Trap.Lines.{
  trigger_external_interrupt, trigger_external_interrupt-compute_pending_interrupts,
}
use riscv_vp_plusplus.Examples.{blocked_core, user_core, quiet_core, page_fault}

handle_trap-return_from_trap_handler_example :
    (c1 : Core) × (c2 : Core) × (mode : ℕ) × (handle_trap user_core page_fault 0x1000 ≡ ok c1)
    × (return_from_trap_handler c1 mode ≡ ok c2)
    × (user_core.prv ≤ mode)
    × Resumed mode (record user_core { pc = 0x1000 }) c2
handle_trap-return_from_trap_handler_example =
    handle_trap-return_from_trap_handler user_core page_fault 0x1000 (inr (inr refl)) (omega arith)
      refl

handle_interrupt-IsHandled_example :
    (c' : Core) × (handle_interrupt user_core ≡ ok c') × IsHandled user_core c'
handle_interrupt-IsHandled_example = handle_interrupt-IsHandled user_core (inr (inr refl)) refl refl

compute_pending_interrupts-IsFor_example :
    IsFor user_core (compute_pending_interrupts user_core).target_mode 7
unfolding compute_pending_interrupts
compute_pending_interrupts-IsFor_example =
    compute_pending_interrupts-IsFor user_core 7 (omega arith) (omega arith) (omega arith) refl

compute_pending_interrupts_complete_example :
    (quiet_core.prv ≡ machine_mode) × (get_field 3 1 quiet_core.csrs.mstatus ≡ 0)
unfolding compute_pending_interrupts
compute_pending_interrupts_complete_example =
    compute_pending_interrupts_complete quiet_core 7 (omega arith) (omega arith) (inl refl) refl
      refl refl refl

interrupt_code-IsFirst_example : IsFirst 0x82 (interrupt_code 0x82)
interrupt_code-IsFirst_example = interrupt_code-IsFirst 0x82

sstatus_write_example :
    ((bit_at 3 sstatus_write_mask ≡ 0) × (bit_at 3 0x800de733 ≡ bit_at 3 user_core.csrs.mstatus))
    ⊎ ((bit_at 3 sstatus_write_mask ≡ 1) × (bit_at 3 0x800de733 ≡ bit_at 3 0xFFFFFFFF))
unfolding set_csr_value write_csr write
sstatus_write_example =
    sstatus_write user_core
      (record user_core {
        csrs = record user_core.csrs { mstatus = 0x800de733 };
        iss_slow_path = true;
      })
      0xFFFFFFFF 3 (omega arith) refl

is_invalid_csr_access-allowed_example :
    (0x141 / 2 ^ 8 % 4 ≤ quiet_core.prv) × ((true ≡ false) ⊎ (0x141 / 2 ^ 10 % 4 ≢ 3))
unfolding is_invalid_csr_access
is_invalid_csr_access-allowed_example = is_invalid_csr_access-allowed quiet_core 0x141 true refl

trigger_external_interrupt-compute_pending_interrupts_example :
    (blocked_core.prv ≡ machine_mode) × (get_field 3 1 blocked_core.csrs.mstatus ≡ 0)
unfolding trigger_external_interrupt compute_pending_interrupts
trigger_external_interrupt-compute_pending_interrupts_example =
    trigger_external_interrupt-compute_pending_interrupts blocked_core (inl refl) (omega arith) refl
      refl refl
