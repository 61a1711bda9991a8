-- ===== src/Rv32/Step/WellFormed.antt =====
-- What holds of the core of a hart between two instructions, and that traps, interrupts, returns and
-- CSR writes keep it.
use mathlib.Core.Path.{subst}
use riscv_vp_plusplus.Base.{Bool-cases, sym, ◌!=◌, ℕ, ◌≡◌, ◌<◌, ◌%◌, arith, refl, ◌⊎◌, inl, inr}
use riscv_vp_plusplus.Rv32.Csrs.{Csrs}
use riscv_vp_plusplus.Rv32.State.{
  Core, Result, none_mode, ok, error, SimulationTrap, release_lr_sc_reservation,
}
use riscv_vp_plusplus.Rv32.Trap.{
  PendingInterrupts, prepare_trap, handle_trap, switch_to_trap_handler, handle_interrupt, then_ok,
  compute_pending_interrupts, prepare_interrupt, record_interrupt, interrupt_code,
  return_from_trap_handler,
}
use riscv_vp_plusplus.Rv32.Trap.Interrupts.{IsMasked}

-- The addresses that a return jumps to are even.
abbrev pub HasEvenReturns : Csrs → Type 0
HasEvenReturns r = (r.mepc % 2 ≡ 0) × (r.sepc % 2 ≡ 0) × (r.uepc % 2 ≡ 0)

-- The mode is a field of two bits, the pc and the return addresses are even, and mie is within its
-- mask.
abbrev pub IsWellFormed : Core → Type 0
IsWellFormed c = (c.prv < 4) × (c.pc % 2 ≡ 0) × HasEvenReturns c.csrs × IsMasked c.csrs.mie

switch_to_trap_handler-IsWellFormed :
    (c c' : Core) (mode : ℕ)
    → IsWellFormed c
    → switch_to_trap_handler c mode ≡ ok c'
    → IsWellFormed c'
unfolding switch_to_trap_handler release_lr_sc_reservation
switch_to_trap_handler-IsWellFormed c c' mode h e = ground arith

prepare_trap-IsWellFormed :
    (c : Core) (e : SimulationTrap) (last_pc : ℕ) (r : ℕ × Core)
    → IsWellFormed c
    → last_pc % 2 ≡ 0
    → prepare_trap c e last_pc ≡ ok r
    → IsWellFormed r.1
unfolding prepare_trap
prepare_trap-IsWellFormed c e last_pc r h even x = ground arith

pub return_from_trap_handler-IsWellFormed :
    (c c' : Core) (mode : ℕ)
    → IsWellFormed c
    → return_from_trap_handler c mode ≡ ok c'
    → IsWellFormed c'
unfolding return_from_trap_handler
return_from_trap_handler-IsWellFormed c c' mode h e = ground arith

pub then_ok-ok :
    {A B : Type 0} (r : Result A) (k : A → Result B) (b : B)
    → then_ok r k ≡ ok b
    → (a : A) × (r ≡ ok a) × (k a ≡ ok b)
then_ok-ok (ok a) k b e = (a, refl, e)
then_ok-ok error k b e = absurd (ground arith)

pub handle_trap-IsWellFormed :
    (c c' : Core) (e : SimulationTrap) (last_pc : ℕ)
    → IsWellFormed c
    → last_pc % 2 ≡ 0
    → handle_trap c e last_pc ≡ ok c'
    → IsWellFormed c'
unfolding handle_trap
handle_trap-IsWellFormed c c' e last_pc h even x =
    let (r, prepared, entered) =
      then_ok-ok (prepare_trap c e last_pc) (λ r. switch_to_trap_handler r.1 r.0) c' x in
    switch_to_trap_handler-IsWellFormed r.1 c' r.0
      (prepare_trap-IsWellFormed c e last_pc r h even prepared) entered

record_interrupt-IsWellFormed :
    (c c' : Core) (mode exc : ℕ)
    → IsWellFormed c
    → record_interrupt c mode exc ≡ ok c'
    → IsWellFormed c'
unfolding record_interrupt
record_interrupt-IsWellFormed c c' mode exc h e = ground arith

pub handle_interrupt-cases :
    (c c' : Core)
    → handle_interrupt c ≡ ok c'
    → (c' ≡ c)
      ⊎ ((r : PendingInterrupts) × (c1 : Core) × (prepare_interrupt c r ≡ ok c1)
          × (switch_to_trap_handler c1 r.target_mode ≡ ok c'))
unfolding handle_interrupt
handle_interrupt-cases c c' e =
    let r = compute_pending_interrupts c in
    elim (Bool-cases (r.target_mode != none_mode)) [
      | inl taken ↦
          let (c1, prepared, entered) =
            then_ok-ok (prepare_interrupt c r) (λ c'. switch_to_trap_handler c' r.target_mode) c'
              (rw taken at e) in
          inr (r, c1, prepared, entered)
      | inr none ↦ inl (ground arith)
    ]

pub handle_interrupt-IsWellFormed :
    (c c' : Core) → IsWellFormed c → handle_interrupt c ≡ ok c' → IsWellFormed c'
unfolding prepare_interrupt
handle_interrupt-IsWellFormed c c' h e = elim (handle_interrupt-cases c c' e) [
  | inl same ↦ subst IsWellFormed (sym same) h
  | inr (r, c1, prepared, entered) ↦
      let (exc, code, recorded) =
        then_ok-ok (interrupt_code r.pending) (λ exc. record_interrupt c r.target_mode exc) c1
          prepared in
      switch_to_trap_handler-IsWellFormed c1 c' r.target_mode
        (record_interrupt-IsWellFormed c c1 r.target_mode exc h recorded) entered
]
