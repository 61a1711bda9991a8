-- ===== src/Fe310/Delivery.antt =====
-- vp/src/platform/common/fe310_plic.h: the interrupt that is chosen, and the external interrupt lines
-- of the harts after `run`.
use riscv_vp_plusplus.Base.{
  ℕ, zero, suc, ◌+◌, ◌-◌, ◌/◌, ◌%◌, ◌≡◌, ◌≢◌, ◌≤◌, ◌<◌, refl, ◌∙◌, arith, Bool, true, false, not,
  ◌&&◌, ◌||◌, inl, inr, ◌==◌, ==_ne, bit_at, bit_set, bit_test, ◌⊎◌, Bool-cases, if◌then◌else◌,
}
use mathlib.Core.Path.{subst}
use riscv_vp_plusplus.Plic.Select.{IsBest, select-IsBest}
use riscv_vp_plusplus.Rv32.Csrs.{get_field}
use riscv_vp_plusplus.Rv32.State.{Core, machine_mode}
use riscv_vp_plusplus.Rv32.Trap.Lines.{trigger_external_interrupt}
use riscv_vp_plusplus.Clint.Timer.{==_refl}
use riscv_vp_plusplus.Fe310.{
  Fe310Plic, interrupt_priorities, pending_interrupts, hart_enabled_interrupts, priority_threshold,
  is_next_candidate, hart_get_next_pending_interrupt, hart_has_pending_enabled_interrupts, set_eip,
  run_hart, run_harts, fe310_run,
}

-- The chosen interrupt is the first of the highest priority among the candidates, and zero only where
-- none of them has a priority.
pub hart_get_next_pending_interrupt-IsBest :
    (p : Fe310Plic) (hart_id : ℕ) (consider_threshold : Bool)
    → IsBest
        (is_next_candidate p hart_id consider_threshold)
        (interrupt_priorities p)
        (p.number_interrupts - 1)
        (hart_get_next_pending_interrupt p hart_id consider_threshold)
unfolding hart_get_next_pending_interrupt
hart_get_next_pending_interrupt-IsBest p hart_id consider_threshold =
    select-IsBest (is_next_candidate p hart_id consider_threshold) (interrupt_priorities p)
      (p.number_interrupts - 1)

-- The machine external interrupt of a hart.
abbrev pub external_line : Fe310Plic → ℕ → ℕ
external_line p i = get_field 11 1 (p.target_harts i).csrs.mip

-- An interrupt that the hart enables is pending, with a priority above the hart's threshold.
abbrev pub HasInterrupt : Fe310Plic → ℕ → Type 0
HasInterrupt p i =
    (irq : ℕ) × (0 < irq)
    × (irq ≤ p.number_interrupts - 1)
    × (bit_at (irq % 32) (hart_enabled_interrupts p i (irq / 32)) ≡ 1)
    × (bit_at (irq % 32) (pending_interrupts p (irq / 32)) ≡ 1)
    × (priority_threshold p i < interrupt_priorities p irq)

-- What a round does to a hart.
abbrev pub IsRaised : Fe310Plic → Fe310Plic → ℕ → Type 0
IsRaised p p' i =
    ((p.hart_eip i ≡ false) × HasInterrupt p i × (p'.hart_eip i ≡ true) × (external_line p' i ≡ 1))
    ⊎ (((p.hart_eip i ≡ true) ⊎ ¬ HasInterrupt p i)
        × (p'.hart_eip i ≡ p.hart_eip i)
        × (external_line p' i ≡ external_line p i))

hart_has_pending_enabled_interrupts-HasInterrupt :
    (p : Fe310Plic) (i : ℕ) → hart_has_pending_enabled_interrupts p i ≡ true → HasInterrupt p i
unfolding hart_has_pending_enabled_interrupts
hart_has_pending_enabled_interrupts-HasInterrupt p i h =
    let irq = hart_get_next_pending_interrupt p i true in
    let offset = irq % 32 in
    elim (hart_get_next_pending_interrupt-IsBest p i true) [
      | inl (nothing, others) ↦ absurd (ground arith)
      | inr (pos, le, c, some_priority, others) ↦ (
        irq,
        pos,
        le,
        bit_set offset (hart_enabled_interrupts p i (irq / 32)) (ground arith),
        bit_set offset (pending_interrupts p (irq / 32)) (ground arith),
        ground arith,
      )
    ]

is_next_candidate_intro :
    (p : Fe310Plic) (i irq : ℕ)
    → bit_at (irq % 32) (hart_enabled_interrupts p i (irq / 32)) ≡ 1
    → bit_at (irq % 32) (pending_interrupts p (irq / 32)) ≡ 1
    → priority_threshold p i < interrupt_priorities p irq
    → is_next_candidate p i true irq ≡ true
is_next_candidate_intro p i irq enabled pending above =
    let e = bit_test (irq % 32) (hart_enabled_interrupts p i (irq / 32)) in
    let f = bit_test (irq % 32) (pending_interrupts p (irq / 32)) in ground arith

hart_has_pending_enabled_interrupts_none :
    (p : Fe310Plic) (i : ℕ) → hart_has_pending_enabled_interrupts p i ≡ false → ¬ HasInterrupt p i
unfolding hart_has_pending_enabled_interrupts
hart_has_pending_enabled_interrupts_none p i h (irq, pos, le, enabled, pending, above) =
    elim (hart_get_next_pending_interrupt-IsBest p i true) [
      | inl (nothing, others) ↦
          let none_above =
            others irq pos le (is_next_candidate_intro p i irq enabled pending above) in
          absurd (omega arith)
      | inr (some_irq, le_last, c, some_priority, rest) ↦ absurd (ground arith)
    ]

-- The same in the terms of the source.
abbrev IsRaisedBy : Fe310Plic → Fe310Plic → ℕ → Type 0
IsRaisedBy p p' i =
    let pending = hart_has_pending_enabled_interrupts p i in
    (p'.hart_eip i ≡ (p.hart_eip i || pending))
    × (external_line p' i ≡ (if not (p.hart_eip i) && pending then 1 else external_line p i))

IsRaisedBy-IsRaised : (p p' : Fe310Plic) (i : ℕ) → IsRaisedBy p p' i → IsRaised p p' i
IsRaisedBy-IsRaised p p' i (eip, line) = elim (Bool-cases (p.hart_eip i)) [
  | inl before ↦ inr (inl before, ground arith, ground arith)
  | inr fresh ↦ elim (Bool-cases (hart_has_pending_enabled_interrupts p i)) [
    | inl some_irq ↦ inl (
      fresh,
      hart_has_pending_enabled_interrupts-HasInterrupt p i some_irq,
      ground arith,
      ground arith,
    )
    | inr no_irq ↦
        inr (inr (hart_has_pending_enabled_interrupts_none p i no_irq), ground arith, ground arith)
  ]
]

run_hart-cases :
    (P : Fe310Plic → Type 0) (i : ℕ) (p : Fe310Plic)
    → (not (p.hart_eip i) && hart_has_pending_enabled_interrupts p i ≡ true
        → P (set_eip p i true (trigger_external_interrupt (p.target_harts i) p.irq_level)))
    → (not (p.hart_eip i) && hart_has_pending_enabled_interrupts p i ≡ false → P p)
    → P (run_hart i p)
unfolding run_hart
run_hart-cases P i p taken idle =
    elim (Bool-cases (not (p.hart_eip i) && hart_has_pending_enabled_interrupts p i)) [
      | inl e ↦ rw (run_hart, e) (taken e)
      | inr e ↦ rw (run_hart, e) (idle e)
    ]

-- Another hart keeps its line, and what is pending for every hart stays.
abbrev IsSameBut : ℕ → Fe310Plic → Fe310Plic → Type 0
IsSameBut i p p' =
    (p'.irq_level ≡ p.irq_level)
    × ((j : ℕ) → hart_has_pending_enabled_interrupts p' j ≡ hart_has_pending_enabled_interrupts p j)
    × ((j : ℕ) → j ≢ i → (p'.hart_eip j ≡ p.hart_eip j) × (external_line p' j ≡ external_line p j))

set_eip-IsSameBut :
    (p : Fe310Plic) (i : ℕ) (eip : Bool) (core : Core) → IsSameBut i p (set_eip p i eip core)
unfolding hart_has_pending_enabled_interrupts hart_get_next_pending_interrupt
set_eip-IsSameBut p i eip core =
    (refl, λ j. refl, λ j h. (rw (==_ne j i h) refl, rw (==_ne j i h) refl))

run_hart-IsSameBut : (i : ℕ) (p : Fe310Plic) → IsSameBut i p (run_hart i p)
run_hart-IsSameBut i p =
    run_hart-cases (IsSameBut i p) i p (λ e. set_eip-IsSameBut p i true _)
      (λ e. (refl, λ j. refl, λ j h. (refl, refl)))

run_hart-IsRaisedBy :
    (i : ℕ) (p : Fe310Plic) → p.irq_level ≡ machine_mode → IsRaisedBy p (run_hart i p) i
unfolding trigger_external_interrupt hart_has_pending_enabled_interrupts
run_hart-IsRaisedBy i p level =
    run_hart-cases (λ p'. IsRaisedBy p p' i) i p
      (λ e. rw (==_refl i, level) (ground arith, rw e (omega arith)))
      (λ e. (ground arith, rw e refl))

run_harts-other :
    (count i j : ℕ) (p : Fe310Plic)
    → j < i
    → ((run_harts count i p).hart_eip j ≡ p.hart_eip j)
      × (external_line (run_harts count i p) j ≡ external_line p j)
unfolding run_harts
run_harts-other zero i j p h = (refl, refl)
run_harts-other (suc count) i j p h =
    let rest = run_harts-other count (suc i) j (run_hart i p) (omega arith) in
    let here = (run_hart-IsSameBut i p).2 j (omega arith) in (rest.0 ∙ here.0, rest.1 ∙ here.1)

run_harts-IsRaisedBy :
    (count i j : ℕ) (p : Fe310Plic)
    → p.irq_level ≡ machine_mode
    → i ≤ j
    → j < i + count
    → IsRaisedBy p (run_harts count i p) j
unfolding run_harts
run_harts-IsRaisedBy zero i j p level low high = absurd (omega arith)
run_harts-IsRaisedBy (suc count) i j p level low high = elim (Bool-cases (j == i)) [
  | inl here ↦
      let e : i ≡ j = ground arith in
      let raised = subst (λ k. IsRaisedBy p (run_hart i p) k) e (run_hart-IsRaisedBy i p level) in
      let rest = run_harts-other count (suc i) j (run_hart i p) (omega arith) in
      (rest.0 ∙ raised.0, rest.1 ∙ raised.1)
  | inr other ↦
      let same = run_hart-IsSameBut i p in
      let rest =
        run_harts-IsRaisedBy count (suc i) j (run_hart i p) (same.0 ∙ level) (ground arith)
          (omega arith) in
      let here = same.2 j (ground arith) in
      (rest.0 ∙ rw (same.1 j, here.0) refl, rest.1 ∙ rw (same.1 j, here.0, here.1) refl)
]

-- In an FE310 PLIC that drives the machine external interrupts, a wake-up of `run` notes an
-- interrupt for each hart for which none was noted and an interrupt that the hart enables is
-- pending with a priority above the threshold of the hart, and makes the external interrupt
-- pending in its mip; every other hart keeps both.
pub fe310_run-IsRaised :
    (p : Fe310Plic) (i : ℕ)
    → p.irq_level ≡ machine_mode
    → i < p.number_cores
    → IsRaised p (fe310_run p) i
unfolding fe310_run
fe310_run-IsRaised p i level h =
    IsRaisedBy-IsRaised p (fe310_run p) i
      (run_harts-IsRaisedBy p.number_cores 0 i p level (omega arith) (omega arith))
