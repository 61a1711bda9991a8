-- ===== src/Rv32/Step/Environment.antt =====
-- vp/src/core/rv32/iss_ctemplate.cpp: the turns of a hart and what other parts of the program do between
-- them. An instruction of another hart, and an access of a peripheral, is a change of the memory behind
-- the bus and of the bus lock, while this hart does not hold it.
use mathlib.Core.Path.{subst}
use riscv_vp_plusplus.Base.{ℕ, ◌≡◌, ◌+◌, ◌%◌, ◌^◌, true, false}
use riscv_vp_plusplus.Bus.{BusLock, is_locked}
use riscv_vp_plusplus.Rv32.Csrs.Access.{Clocks}
use riscv_vp_plusplus.Rv32.State.{Core}
use riscv_vp_plusplus.Rv32.Trap.Lines.{
  trigger_external_interrupt, clear_external_interrupt, trigger_timer_interrupt,
  clear_timer_interrupt, trigger_software_interrupt, clear_software_interrupt,
}
use riscv_vp_plusplus.Rv32.Exec.System.{has_local_pending_enabled_interrupts}
use riscv_vp_plusplus.Rv32.Step.{Machine, MachineConfig, executed, sleeps, exec_step}
use riscv_vp_plusplus.Rv32.Step.Invariant.{EndsIn}

-- A call of the interrupt controllers on a hart (core/common/irq_if.h).
pub data Line : Core → Core → Type 0 where
  trigger_external : {c : Core} (level : ℕ) → Line c (trigger_external_interrupt c level)
  clear_external : {c : Core} (level : ℕ) → Line c (clear_external_interrupt c level)
  trigger_timer : {c : Core} → Line c (trigger_timer_interrupt c)
  clear_timer : {c : Core} → Line c (clear_timer_interrupt c)
  trigger_software : {c : Core} → Line c (trigger_software_interrupt c)
  clear_software : {c : Core} → Line c (clear_software_interrupt c)

pub data Outside {B : Type 0} : Machine B → Machine B → Type 0 where
  line : {m : Machine B} {c : Core} → Line m.core c → Outside m (record m { core = c })
  others :
      {m : Machine B} (target : B) (bus_lock : BusLock)
      → is_locked m.core.bus_lock m.core.csrs.mhartid ≡ false
      → is_locked bus_lock m.core.csrs.mhartid ≡ false
      → Outside m (record m { target = target; core = record m.core { bus_lock = bus_lock } })

pub data Outsides {B : Type 0} : Machine B → Machine B → Type 0 where
  still : {m : Machine B} → Outsides m m
  moved : {m m1 m2 : Machine B} → Outside m m1 → Outsides m1 m2 → Outsides m m2

-- A turn: an instruction, a WFI that waits until an enabled interrupt is pending, or a step outside.
pub data Turn {B : Type 0} (cfg : MachineConfig B) : Machine B → Machine B → Type 0 where
  instruction :
      (clocks : Clocks) {m m' : Machine B} → exec_step cfg clocks m ≡ executed m' → Turn cfg m m'
  wakes :
      (clocks : Clocks) {m m1 m2 : Machine B}
      → exec_step cfg clocks m ≡ sleeps m1
      → Outsides m1 m2
      → has_local_pending_enabled_interrupts m2.core ≡ true
      → Turn cfg m (record m2 { ninstr = (m2.ninstr + 1) % 2 ^ 64 })
  outside : {m m' : Machine B} → Outside m m' → Turn cfg m m'

pub data Reaches {B : Type 0} (cfg : MachineConfig B) : Machine B → Machine B → Type 0 where
  here : {m : Machine B} → Reaches cfg m m
  turn : {m m1 m2 : Machine B} → Turn cfg m m1 → Reaches cfg m1 m2 → Reaches cfg m m2

-- A property of the core that every turn keeps.
pub record KeptByTurns {B : Type 0} (cfg : MachineConfig B) (P : Core → Type 0) : Type 0 where
  pub lines : {c c' : Core} → Line c c' → P c → P c'
  pub yields :
      (c : Core) (bus_lock : BusLock)
      → is_locked bus_lock c.csrs.mhartid ≡ false
      → P c
      → P (record c { bus_lock = bus_lock })
  pub steps :
      (clocks : Clocks) (m : Machine B)
      → P m.core
      → EndsIn (λ m'. P m'.core) (λ m'. P m'.core) (exec_step cfg clocks m)

module _ {B : Type 0} (cfg : MachineConfig B) (P : Core → Type 0) (kept : KeptByTurns cfg P) where
  Outside-keeps : {m m' : Machine B} → Outside m m' → P m.core → P m'.core
  Outside-keeps (line l) g = kept.lines l g
  Outside-keeps (others {m = m} target bus_lock before after) g =
      kept.yields m.core bus_lock after g

  Outsides-keeps : {m m' : Machine B} → Outsides m m' → P m.core → P m'.core
  Outsides-keeps still g = g
  Outsides-keeps (moved o os) g = Outsides-keeps os (Outside-keeps o g)

  Turn-keeps : {m m' : Machine B} → Turn cfg m m' → P m.core → P m'.core
  Turn-keeps (instruction clocks {m = m} e) g =
      subst (EndsIn (λ t. P t.core) (λ t. P t.core)) e (kept.steps clocks m g)
  Turn-keeps (wakes clocks {m = m} e os pending) g =
      Outsides-keeps os (subst (EndsIn (λ t. P t.core) (λ t. P t.core)) e (kept.steps clocks m g))
  Turn-keeps (outside o) g = Outside-keeps o g

  pub Reaches-keeps : {m m' : Machine B} → Reaches cfg m m' → P m.core → P m'.core
  Reaches-keeps here g = g
  Reaches-keeps (turn t ts) g = Reaches-keeps ts (Turn-keeps t g)
