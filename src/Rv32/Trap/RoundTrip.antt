-- ===== src/Rv32/Trap/RoundTrip.antt =====
-- The return from a trap handler takes the hart back to where the trap interrupted it.
use mathlib.Core.Path.{subst}
use riscv_vp_plusplus.Base.{
  ℕ, ◌≡◌, ◌<◌, refl, arith, false, ◌==◌, ◌&&◌, ◌∙◌, ◌≤◌, ◌^◌, inl, inr, ap, ◌≢◌, sym,
}
use riscv_vp_plusplus.Rv32.Csrs.{get_field}
use riscv_vp_plusplus.Rv32.Csrs.Fields.{get_field-mpp, mie_restored}
use riscv_vp_plusplus.Rv32.State.{
  Core, SimulationTrap, ok, error, Result-cases, machine_mode, supervisor_mode, user_mode,
  release_lr_sc_reservation,
}
use riscv_vp_plusplus.Rv32.Trap.Interrupts.{IsMode}
use riscv_vp_plusplus.Rv32.Trap.Privilege.{prepare_trap-IsPrepared}
use riscv_vp_plusplus.Rv32.Trap.{
  prepare_trap, handle_trap, switch_to_trap_handler, return_from_trap_handler,
}

-- The hart runs again as it did before the trap: its mode, its pc, and the interrupt enable of `mode`.
abbrev pub Resumed : ℕ → Core → Core → Type 0
Resumed mode before after =
    (after.prv ≡ before.prv)
    × (after.pc ≡ before.pc)
    × (get_field mode 1 after.csrs.mstatus ≡ get_field mode 1 before.csrs.mstatus)

abbrev RoundTrip : ℕ → Core → Type 0
RoundTrip mode c =
    (c1 : Core) × (c2 : Core) × (switch_to_trap_handler c mode ≡ ok c1)
    × (return_from_trap_handler c1 mode ≡ ok c2)
    × Resumed mode c c2

pub return_from_trap_handler-machine :
    (c : Core)
    → c.prv < 4
    → (get_field 2 30 c.csrs.mtvec == 0 && c.error_on_zero_traphandler) ≡ false
    → RoundTrip machine_mode c
unfolding switch_to_trap_handler return_from_trap_handler release_lr_sc_reservation
return_from_trap_handler-machine c prv h = rw h (
  _,
  _,
  refl,
  refl,
  (get_field-mpp c.prv _ ∙ omega arith, refl, mie_restored c.csrs.mstatus c.prv _ _ refl),
)

pub return_from_trap_handler-supervisor : (c : Core) → c.prv < 2 → RoundTrip supervisor_mode c
unfolding switch_to_trap_handler return_from_trap_handler release_lr_sc_reservation
return_from_trap_handler-supervisor c prv = (_, _, refl, refl, (omega arith, refl, omega arith))

pub return_from_trap_handler-user : (c : Core) → c.prv ≡ user_mode → RoundTrip user_mode c
unfolding switch_to_trap_handler return_from_trap_handler release_lr_sc_reservation
return_from_trap_handler-user c prv = (_, _, refl, refl, (omega arith, refl, omega arith))

switch_to_trap_handler-RoundTrip :
    (c : Core) (mode : ℕ)
    → IsMode mode
    → c.prv ≤ mode
    → c.error_on_zero_traphandler ≡ false
    → RoundTrip mode c
switch_to_trap_handler-RoundTrip c mode (inl e) le h =
    subst (λ (m : ℕ). RoundTrip m c) (sym e)
      (return_from_trap_handler-machine c (omega arith) (ground arith))
switch_to_trap_handler-RoundTrip c mode (inr (inl e)) le h =
    subst (λ (m : ℕ). RoundTrip m c) (sym e) (return_from_trap_handler-supervisor c (omega arith))
switch_to_trap_handler-RoundTrip c mode (inr (inr e)) le h =
    subst (λ (m : ℕ). RoundTrip m c) (sym e) (return_from_trap_handler-user c (omega arith))

prepare_trap-error :
    (c : Core) (e : SimulationTrap) (last_pc : ℕ)
    → e.mtval < 2 ^ 32
    → prepare_trap c e last_pc ≢ error
unfolding prepare_trap
prepare_trap-error c e last_pc h = ground arith

prepare_trap-flag :
    (c : Core) (e : SimulationTrap) (last_pc : ℕ) (r : ℕ × Core)
    → prepare_trap c e last_pc ≡ ok r
    → r.1.error_on_zero_traphandler ≡ c.error_on_zero_traphandler
unfolding prepare_trap
prepare_trap-flag c e last_pc r h = ground arith

-- From any of the three modes, with a trap value of 32 bits and the check for null handlers off, a
-- trap is taken in a mode of at least the hart's privilege, and the return from that mode gives
-- back the hart's mode, the pc of the trap, and the interrupt enable of the mode that handled it.
pub handle_trap-return_from_trap_handler :
    (c : Core) (e : SimulationTrap) (last_pc : ℕ)
    → IsMode c.prv
    → e.mtval < 2 ^ 32
    → c.error_on_zero_traphandler ≡ false
    → (c1 : Core) × (c2 : Core) × (mode : ℕ) × (handle_trap c e last_pc ≡ ok c1)
      × (return_from_trap_handler c1 mode ≡ ok c2)
      × (c.prv ≤ mode)
      × Resumed mode (record c { pc = last_pc }) c2
unfolding handle_trap
handle_trap-return_from_trap_handler c e last_pc mode h flag =
    elim (Result-cases (prepare_trap c e last_pc)) [
      | inl x ↦ absurd (prepare_trap-error c e last_pc h x)
      | inr (r, x) ↦
          let (is_mode, le, prv, pc, mstatus) = prepare_trap-IsPrepared c e last_pc r mode x in
          let (c1, c2, entered, returned, resumed) =
            switch_to_trap_handler-RoundTrip r.1 r.0 is_mode
              (subst (λ (p : ℕ). p ≤ r.0) (sym prv) le)
              (prepare_trap-flag c e last_pc r x ∙ flag) in
          (
            c1,
            c2,
            r.0,
            rw x entered,
            returned,
            le,
            (resumed.0 ∙ prv, resumed.1 ∙ pc, resumed.2 ∙ ap (get_field r.0 1) mstatus),
          )
    ]
