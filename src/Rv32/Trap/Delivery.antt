-- ===== src/Rv32/Trap/Delivery.antt =====
-- `handle_interrupt` always returns, in the mode of the chosen interrupt.
use riscv_vp_plusplus.Base.{ℕ, ◌≡◌, ◌≤◌, refl, ◌⊎◌, inl, inr, arith, true, false, ◌!=◌, ◌≢◌, ◌∙◌}
use riscv_vp_plusplus.Rv32.State.{
  Core, ok, error, none_mode, Result-cases, release_lr_sc_reservation,
}
use riscv_vp_plusplus.Rv32.Trap.{
  PendingInterrupts, compute_pending_interrupts, interrupt_code, record_interrupt,
  prepare_interrupt, handle_interrupt, switch_to_trap_handler,
}
use riscv_vp_plusplus.Rv32.Trap.Interrupts.{
  IsMode, IsMasked, IsPending, interrupt_code-error, compute_pending_interrupts-IsTaken,
  compute_pending_interrupts-IsPending,
}

switch_to_trap_handler-returns :
    (c : Core) (mode : ℕ)
    → IsMode mode
    → c.error_on_zero_traphandler ≡ false
    → switch_to_trap_handler c mode ≢ error
unfolding switch_to_trap_handler release_lr_sc_reservation
switch_to_trap_handler-returns c mode h e = ground arith

switch_to_trap_handler-prv :
    (c c' : Core) (mode : ℕ) → switch_to_trap_handler c mode ≡ ok c' → c'.prv ≡ mode
unfolding switch_to_trap_handler release_lr_sc_reservation
switch_to_trap_handler-prv c c' mode e = ground arith

record_interrupt-flag :
    (c : Core) (mode exc : ℕ)
    → IsMode mode
    → (c' : Core) × (record_interrupt c mode exc ≡ ok c')
      × (c'.error_on_zero_traphandler ≡ c.error_on_zero_traphandler)
unfolding record_interrupt
record_interrupt-flag c mode exc (inl e) = rw e (_, refl, refl)
record_interrupt-flag c mode exc (inr (inl e)) = rw e (_, refl, refl)
record_interrupt-flag c mode exc (inr (inr e)) = rw e (_, refl, refl)

prepare_interrupt-returns :
    (c : Core) (r : PendingInterrupts)
    → IsMode r.target_mode
    → IsPending r.pending
    → r.pending ≢ 0
    → (c' : Core) × (prepare_interrupt c r ≡ ok c')
      × (c'.error_on_zero_traphandler ≡ c.error_on_zero_traphandler)
unfolding prepare_interrupt
prepare_interrupt-returns c r mode bits some_bit = elim (Result-cases (interrupt_code r.pending)) [
  | inl e ↦ absurd (some_bit (interrupt_code-error r.pending bits e))
  | inr (exc, e) ↦ rw e (record_interrupt-flag c r.target_mode exc mode)
]

-- The hart after `handle_interrupt`: as before where no interrupt is chosen, and else in its mode.
abbrev pub IsHandled : Core → Core → Type 0
IsHandled c c' =
    (((compute_pending_interrupts c).target_mode ≡ none_mode) × (c' ≡ c))
    ⊎ ((c'.prv ≡ (compute_pending_interrupts c).target_mode) × (c.prv ≤ c'.prv))

is_chosen :
    (c : Core)
    → IsMode (compute_pending_interrupts c).target_mode
    → ((compute_pending_interrupts c).target_mode != none_mode) ≡ true
is_chosen c mode = ground arith

-- With mie within its mask and the check for null handlers off, `handle_interrupt` returns and
-- never throws: the hart is as before where no interrupt is chosen, and else it is in the chosen
-- mode, of at least its own privilege.
pub handle_interrupt-IsHandled :
    (c : Core)
    → IsMode c.prv
    → IsMasked c.csrs.mie
    → c.error_on_zero_traphandler ≡ false
    → (c' : Core) × (handle_interrupt c ≡ ok c') × IsHandled c c'
unfolding handle_interrupt
handle_interrupt-IsHandled c mode mask flag = elim (compute_pending_interrupts-IsTaken c mode) [
  | inl e ↦ (c, ground arith, inl (e, refl))
  | inr (target, le, some_bit) ↦
      let r = compute_pending_interrupts c in
      let (c1, prepared, flag1) =
        prepare_interrupt-returns c r target (compute_pending_interrupts-IsPending c mask)
          some_bit in
      elim (Result-cases (switch_to_trap_handler c1 r.target_mode)) [
        | inl e ↦ absurd (switch_to_trap_handler-returns c1 r.target_mode target (flag1 ∙ flag) e)
        | inr (c2, e) ↦
            let prv = switch_to_trap_handler-prv c1 c2 r.target_mode e in
            (c2, rw (is_chosen c target, prepared) e, inr (prv, omega arith))
      ]
]
