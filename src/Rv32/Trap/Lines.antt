-- ===== src/Rv32/Trap/Lines.antt =====
-- vp/src/core/rv32/iss_ctemplate.cpp: the interrupt lines, which the PLIC and the CLINT raise and
-- lower. A raise asks for the slow path, in which the hart looks for interrupts.
use riscv_vp_plusplus.Base.{ℕ, ◌≡◌, ◌<◌, ◌^◌, ◌==◌, arith, inl, inr, true, if◌then◌else◌, bit_at}
use riscv_vp_plusplus.Rv32.Csrs.{get_field, set_field}
use riscv_vp_plusplus.Rv32.State.{Core, machine_mode, supervisor_mode, user_mode, none_mode}
use riscv_vp_plusplus.Rv32.Trap.{compute_pending_interrupts}
use riscv_vp_plusplus.Rv32.Trap.Interrupts.{IsMode, compute_pending_interrupts_complete}

-- The bit of mip at a position, in the `switch` on the level: none for a level that does not exist.
abbrev set_external : ℕ → ℕ → ℕ → ℕ
set_external level value mip =
    if level == user_mode
    then set_field 8 1 value mip
    else if level == supervisor_mode
    then set_field 9 1 value mip
    else if level == machine_mode
    then set_field 11 1 value mip
    else mip

unfoldable pub trigger_external_interrupt : Core → ℕ → Core
trigger_external_interrupt c level = record c {
  csrs = record c.csrs { mip = set_external level 1 c.csrs.mip };
  iss_slow_path = true;
}

unfoldable pub clear_external_interrupt : Core → ℕ → Core
clear_external_interrupt c level = record c {
  csrs = record c.csrs { mip = set_external level 0 c.csrs.mip };
}

unfoldable pub trigger_timer_interrupt : Core → Core
trigger_timer_interrupt c = record c {
  csrs = record c.csrs { mip = set_field 7 1 1 c.csrs.mip };
  iss_slow_path = true;
}

unfoldable pub clear_timer_interrupt : Core → Core
clear_timer_interrupt c = record c { csrs = record c.csrs { mip = set_field 7 1 0 c.csrs.mip } }

unfoldable pub trigger_software_interrupt : Core → Core
trigger_software_interrupt c = record c {
  csrs = record c.csrs { mip = set_field 3 1 1 c.csrs.mip };
  iss_slow_path = true;
}

unfoldable pub clear_software_interrupt : Core → Core
clear_software_interrupt c = record c { csrs = record c.csrs { mip = set_field 3 1 0 c.csrs.mip } }

-- After the external interrupt of machine mode is raised, with its bit set in mie and clear in
-- mideleg, a word of 32 bits, `compute_pending_interrupts` finds none for a hart in one of the
-- three modes only where the hart is in machine mode with MIE clear.
pub trigger_external_interrupt-compute_pending_interrupts :
    (c : Core)
    → IsMode c.prv
    → c.csrs.mideleg < 2 ^ 32
    → bit_at 11 c.csrs.mie ≡ 1
    → bit_at 11 c.csrs.mideleg ≡ 0
    → (compute_pending_interrupts (trigger_external_interrupt c machine_mode)).target_mode
      ≡ none_mode
    → (c.prv ≡ machine_mode) × (get_field 3 1 c.csrs.mstatus ≡ 0)
unfolding trigger_external_interrupt
trigger_external_interrupt-compute_pending_interrupts c mode h mie mideleg none =
    compute_pending_interrupts_complete (trigger_external_interrupt c machine_mode) 11 (omega arith)
      h mode mie (omega arith) mideleg none

-- For each of the three modes, lowering its external interrupt line after raising it leaves mip as
-- lowering it alone does.
pub clear_external_interrupt-trigger_external_interrupt :
    (c : Core) (level : ℕ)
    → IsMode level
    → (clear_external_interrupt (trigger_external_interrupt c level) level).csrs.mip
      ≡ (clear_external_interrupt c level).csrs.mip
unfolding trigger_external_interrupt clear_external_interrupt
clear_external_interrupt-trigger_external_interrupt c level (inl e) = rw e (omega arith)
clear_external_interrupt-trigger_external_interrupt c level (inr (inl e)) = rw e (omega arith)
clear_external_interrupt-trigger_external_interrupt c level (inr (inr e)) = rw e (omega arith)
