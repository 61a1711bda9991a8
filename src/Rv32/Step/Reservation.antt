-- ===== src/Rv32/Step/Reservation.antt =====
-- The reservation of LR and the bus lock: between two turns a hart that holds the lock is counting
-- its reservation down, in the slow path.
use mathlib.Core.Path.{subst}
use riscv_vp_plusplus.Base.{
  ℕ, ◌≡◌, ◌≢◌, ◌≤◌, ◌/◌, ◌%◌, ◌^◌, ◌-◌, true, false, some, refl, ◌⊎◌, inl, inr, arith, Option-cases,
}
use riscv_vp_plusplus.Bus.{unlock, is_locked}
use riscv_vp_plusplus.Rv32.Csrs.Access.{Clocks, write_csr, set_csr_value, get_csr_value}
use riscv_vp_plusplus.Rv32.Csrs.Access.Machine.{write_csr-mhartid}
use riscv_vp_plusplus.Rv32.State.{Core, ok, SimulationTrap, release_lr_sc_reservation}
use riscv_vp_plusplus.Rv32.Trap.{
  prepare_trap, handle_trap, switch_to_trap_handler, handle_interrupt, return_from_trap_handler,
}
use riscv_vp_plusplus.Rv32.Step.WellFormed.{then_ok-ok, handle_interrupt-cases}
use riscv_vp_plusplus.Rv32.Step.CsrsKept.{get_csr_value-cases}
use riscv_vp_plusplus.Rv32.Exec.System.Keeps.{KeptBySystem}
use riscv_vp_plusplus.Rv32.Step.{count_lr_sc}

-- The hart does not hold the bus lock, or it has a reservation.
abbrev pub IsFreeOrReserved : Core → Type 0
IsFreeOrReserved c = (is_locked c.bus_lock c.csrs.mhartid ≡ false) ⊎ (c.lr_sc_counter ≢ 0)

-- And the count is at most 17, and where it runs the hart takes the slow path.
abbrev pub IsCounting : Core → Type 0
IsCounting c =
    IsFreeOrReserved c × (c.lr_sc_counter ≤ 17) × ((c.lr_sc_counter ≡ 0) ⊎ (c.iss_slow_path ≡ true))

-- A hart without a reservation and without the lock.
abbrev pub IsReleased : Core → Type 0
IsReleased c = (is_locked c.bus_lock c.csrs.mhartid ≡ false) × (c.lr_sc_counter ≡ 0)

pub IsReleased-IsCounting : (c : Core) → IsReleased c → IsCounting c
IsReleased-IsCounting c (free, zero_count) = (inl free, omega arith, inl zero_count)

release_lr_sc_reservation-IsReleased : (c : Core) → IsReleased (release_lr_sc_reservation c)
unfolding release_lr_sc_reservation is_locked unlock
release_lr_sc_reservation-IsReleased c = ground arith

switch_to_trap_handler-IsReleased :
    (c c' : Core) (mode : ℕ) → switch_to_trap_handler c mode ≡ ok c' → IsReleased c'
unfolding switch_to_trap_handler
switch_to_trap_handler-IsReleased c c' mode e =
    let h = release_lr_sc_reservation-IsReleased c in ground arith

pub handle_trap-IsReleased :
    (c c' : Core) (e : SimulationTrap) (last_pc : ℕ)
    → handle_trap c e last_pc ≡ ok c'
    → IsReleased c'
unfolding handle_trap
handle_trap-IsReleased c c' e last_pc x =
    let (r, prepared, entered) =
      then_ok-ok (prepare_trap c e last_pc) (λ r. switch_to_trap_handler r.1 r.0) c' x in
    switch_to_trap_handler-IsReleased r.1 c' r.0 entered

pub handle_interrupt-IsReleased :
    (c c' : Core) → handle_interrupt c ≡ ok c' → (c' ≡ c) ⊎ IsReleased c'
handle_interrupt-IsReleased c c' e = elim (handle_interrupt-cases c c' e) [
  | inl same ↦ inl same
  | inr (r, c1, prepared, entered) ↦
      inr (switch_to_trap_handler-IsReleased c1 c' r.target_mode entered)
]

set_csr_value-IsCounting :
    (c c' : Core) (addr value : ℕ)
    → addr / 2 ^ 10 % 4 ≢ 3
    → IsCounting c
    → set_csr_value c addr value ≡ some c'
    → IsCounting c'
unfolding set_csr_value
set_csr_value-IsCounting c c' addr value writable h e =
    elim (Option-cases (write_csr c addr value)) [
      | inl x ↦ absurd (ground arith)
      | inr (r, x) ↦
          let same : r.mhartid ≡ c.csrs.mhartid = elim (write_csr-mhartid c r addr value x) [
            | inl own ↦ absurd (writable (rw own refl))
            | inr kept ↦ kept
          ] in
          let c'_lem : record c { csrs = r; iss_slow_path = true } ≡ c' = ground arith in
          subst IsCounting c'_lem (rw same h.0, h.1, inr refl)
    ]

get_csr_value-IsCounting :
    (k : Clocks) (c : Core) (addr : ℕ) (r : ℕ × Core)
    → IsCounting c
    → get_csr_value k c addr ≡ some r
    → IsCounting r.1
get_csr_value-IsCounting k c addr r h = get_csr_value-cases IsCounting k c addr r h h h h

return_from_trap_handler-IsCounting :
    (c c' : Core) (mode : ℕ)
    → IsCounting c
    → return_from_trap_handler c mode ≡ ok c'
    → IsCounting c'
unfolding return_from_trap_handler
return_from_trap_handler-IsCounting c c' mode h e = ground arith

pub IsCounting-KeptBySystem : (level : ℕ) → KeptBySystem level IsCounting
IsCounting-KeptBySystem level = record {
  commits = λ c v h. h;
  reads = get_csr_value-IsCounting;
  writes = λ c c' addr value writable h e. set_csr_value-IsCounting c c' addr value writable.1 h e;
  releases = λ c h.
      IsReleased-IsCounting (release_lr_sc_reservation c) (release_lr_sc_reservation-IsReleased c);
  returns = return_from_trap_handler-IsCounting;
}

-- The count goes down by one, and at its end the lock is given back.
pub count_lr_sc-IsCounting :
    (c : Core) → IsFreeOrReserved c → c.lr_sc_counter ≤ 17 → IsCounting (count_lr_sc c)
unfolding count_lr_sc
count_lr_sc-IsCounting c h b =
    let r =
      release_lr_sc_reservation-IsReleased (record c { lr_sc_counter = c.lr_sc_counter - 1 }) in
    ground arith
