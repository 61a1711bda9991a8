-- ===== src/Rv32/Step/Reachable.antt =====
-- What holds of every state that a hart reaches.
use riscv_vp_plusplus.Base.{refl, inl, inr}
use riscv_vp_plusplus.Rv32.State.{Core}
use riscv_vp_plusplus.Rv32.Trap.Lines.{
  trigger_external_interrupt, clear_external_interrupt, trigger_timer_interrupt,
  clear_timer_interrupt, trigger_software_interrupt, clear_software_interrupt,
}
use riscv_vp_plusplus.Rv32.Step.{Machine, MachineConfig}
use riscv_vp_plusplus.Rv32.Step.WellFormed.{IsWellFormed}
use riscv_vp_plusplus.Rv32.Step.Invariant.{exec_step-IsWellFormed}
use riscv_vp_plusplus.Rv32.Step.Reservation.{IsCounting}
use riscv_vp_plusplus.Rv32.Step.Counting.{exec_step-Counts}
use riscv_vp_plusplus.Rv32.Step.Environment.{
  Line, trigger_external, clear_external, trigger_timer, clear_timer, trigger_software,
  clear_software, Reaches, Reaches-keeps,
}

Line-IsWellFormed : {c c' : Core} → Line c c' → IsWellFormed c → IsWellFormed c'
unfolding trigger_external_interrupt clear_external_interrupt trigger_timer_interrupt
    clear_timer_interrupt trigger_software_interrupt clear_software_interrupt
Line-IsWellFormed (trigger_external level) h = h
Line-IsWellFormed (clear_external level) h = h
Line-IsWellFormed trigger_timer h = h
Line-IsWellFormed clear_timer h = h
Line-IsWellFormed trigger_software h = h
Line-IsWellFormed clear_software h = h

Line-IsCounting : {c c' : Core} → Line c c' → IsCounting c → IsCounting c'
unfolding trigger_external_interrupt clear_external_interrupt trigger_timer_interrupt
    clear_timer_interrupt trigger_software_interrupt clear_software_interrupt
Line-IsCounting (trigger_external level) h = (h.0, h.1, inr refl)
Line-IsCounting (clear_external level) h = h
Line-IsCounting trigger_timer h = (h.0, h.1, inr refl)
Line-IsCounting clear_timer h = h
Line-IsCounting trigger_software h = (h.0, h.1, inr refl)
Line-IsCounting clear_software h = h

module _ {B : Type 0} (cfg : MachineConfig B) (m m' : Machine B) where
  -- From a hart whose mode is a field of two bits, whose pc and return addresses are even and
  -- whose mie is within its mask, every hart reached by turns of the loop of `exec_steps`, with
  -- interrupt lines and the memory behind the bus changing between them, is such a hart.
  pub Reaches-IsWellFormed : Reaches cfg m m' → IsWellFormed m.core → IsWellFormed m'.core
  Reaches-IsWellFormed = Reaches-keeps cfg IsWellFormed (record {
    lines = Line-IsWellFormed;
    yields = λ c bus_lock free h. h;
    steps = exec_step-IsWellFormed cfg;
  })

  -- If at the start a hart that holds the bus lock has a reservation, the count of the reservation
  -- is at most 17, and the hart takes the slow path while it counts, then all this holds of every
  -- hart reached by turns of the loop, with interrupt lines and the memory behind the bus changing
  -- between them.
  pub Reaches-IsCounting : Reaches cfg m m' → IsCounting m.core → IsCounting m'.core
  Reaches-IsCounting = Reaches-keeps cfg IsCounting (record {
    lines = Line-IsCounting;
    yields = λ c bus_lock free h. (inl free, h.1, h.2);
    steps = exec_step-Counts cfg;
  })
