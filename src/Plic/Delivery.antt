-- ===== src/Plic/Delivery.antt =====
-- A triggered interrupt reaches the hart that enables it.
use riscv_vp_plusplus.Base.{
  ℕ, ◌≤◌, ◌<◌, Bool, true, false, ◌&&◌, ◌==◌, ltb, lt→ltb, ◌≡◌, ◌≢◌, refl, inl, inr, ◌⊎◌, arith,
  Bool-cases, some, sym, ◌∙◌, some_inj, bit_at,
}
use riscv_vp_plusplus.Rv32.State.{Core, machine_mode, supervisor_mode}
use riscv_vp_plusplus.Rv32.Trap.Lines.{trigger_external_interrupt}
use riscv_vp_plusplus.Plic.{
  SifivePlic, is_candidate, priority_of, select, next_pending_irq, has_pending_irq,
}
use riscv_vp_plusplus.Plic.Select.{select-IsBest, next_pending_irq_total}

-- The external interrupt of the supervisor or of the machine is pending in mip.
abbrev pub HasExternal : Core → Type 0
HasExternal c = (bit_at 9 c.csrs.mip ≡ 1) ⊎ (bit_at 11 c.csrs.mip ≡ 1)

-- A level to deliver at is one of these, and the delivery sets its bit.
pub trigger_external_interrupt-HasExternal :
    (c : Core) (level : ℕ)
    → (level ≡ supervisor_mode) ⊎ (level ≡ machine_mode)
    → HasExternal (trigger_external_interrupt c level)
unfolding trigger_external_interrupt
trigger_external_interrupt-HasExternal c level (inl s) = rw s (inl (omega arith))
trigger_external_interrupt-HasExternal c level (inr m) = rw m (inr (omega arith))

-- A candidate with a priority is found.
select_found :
    (candidate : ℕ → Bool) (priority : ℕ → ℕ) (n irq : ℕ)
    → 0 < irq
    → irq ≤ n
    → candidate irq ≡ true
    → 0 < priority irq
    → 0 < (select candidate priority n).0
select_found candidate priority n irq pos le c prio = elim (select-IsBest candidate priority n) [
  | inl (nothing, others) ↦ let fact = others irq pos le c in absurd (omega arith)
  | inr (found, below, chosen, high, first) ↦ found
]

-- The same at a level that the hart has, above its threshold.
next_pending_irq_found :
    (p : SifivePlic) (hart level irq : ℕ)
    → p.numirq < 64
    → p.fu540_mode && (hart == 0 && level == supervisor_mode) ≡ false
    → 0 < irq
    → irq ≤ p.numirq
    → is_candidate p hart level false irq ≡ true
    → (found : ℕ) × (next_pending_irq p hart level false ≡ some found) × (ltb 0 found ≡ true)
unfolding is_candidate
next_pending_irq_found p hart level irq small has_level pos le c =
    let candidate = is_candidate p hart level false in
    let prio : 0 < priority_of p irq = ground arith in
    let found = select_found candidate (priority_of p) p.numirq irq pos le c prio in
    (
      (select candidate (priority_of p) p.numirq).0,
      next_pending_irq_total p hart level false small has_level,
      lt→ltb 0 (select candidate (priority_of p) p.numirq).0 found,
    )

pub machine_level :
    (solo hart_0 : Bool) → solo && (hart_0 && machine_mode == supervisor_mode) ≡ false
machine_level solo hart_0 = ground arith

pub supervisor_level :
    (solo hart_0 : Bool)
    → solo && hart_0 ≡ false
    → solo && (hart_0 && supervisor_mode == supervisor_mode) ≡ false
supervisor_level solo hart_0 h = ground arith

machine_only :
    (level : ℕ) (solo : Bool)
    → (level ≡ machine_mode) ⊎ ((level ≡ supervisor_mode) × (solo ≡ false))
    → solo ≡ true
    → level ≡ machine_mode
machine_only level solo (inl e) h = e
machine_only level solo (inr (e, no_solo)) h = absurd (ground arith)

true_ne_false : true ≢ false
true_ne_false h = ground arith

machine_found :
    (p : SifivePlic) (hart level irq : ℕ)
    → p.numirq < 64
    → level ≡ machine_mode
    → 0 < irq
    → irq ≤ p.numirq
    → is_candidate p hart level false irq ≡ true
    → (found : ℕ) × (next_pending_irq p hart machine_mode false ≡ some found) × (ltb 0 found ≡ true)
machine_found p hart level irq small e pos le c =
    next_pending_irq_found p hart machine_mode irq small (machine_level p.fu540_mode (hart == 0))
      pos le (rw e at c)

pub has_pending_irq_found :
    (p : SifivePlic) (hart level irq : ℕ)
    → p.numirq < 64
    → (level ≡ machine_mode) ⊎ ((level ≡ supervisor_mode) × (p.fu540_mode && hart == 0 ≡ false))
    → 0 < irq
    → irq ≤ p.numirq
    → is_candidate p hart level false irq ≡ true
    → (found : ℕ) × (has_pending_irq p hart ≡ some (some found))
      × ((found ≡ supervisor_mode) ⊎ (found ≡ machine_mode))
unfolding has_pending_irq
has_pending_irq_found p hart level irq small allowed pos le c =
    elim (Bool-cases (p.fu540_mode && hart == 0)) [
      | inl solo ↦
          let (m, next, some_m) =
            machine_found p hart level irq small
              (machine_only level (p.fu540_mode && hart == 0) allowed solo) pos le c in
          (machine_mode, rw (has_pending_irq, solo, next, some_m) refl, inr refl)
      | inr pair ↦
          let level_fits = supervisor_level p.fu540_mode (hart == 0) pair in
          let s = next_pending_irq_total p hart supervisor_mode false small level_fits in
          elim (Bool-cases (
            ltb 0
              (select (is_candidate p hart supervisor_mode false) (priority_of p) p.numirq).0)) [
                | inl some_s ↦
                    (supervisor_mode, rw (has_pending_irq, pair, s, some_s) refl, inl refl)
                | inr no_s ↦
                    let at_machine : level ≡ machine_mode = elim allowed [
                      | inl e ↦ e
                      | inr (e, has_supervisor) ↦
                          let (f, next, some_f) =
                            next_pending_irq_found p hart supervisor_mode irq small level_fits pos
                              le (rw e at c) in
                          let same = some_inj (sym next ∙ s) in
                          absurd (true_ne_false (sym (rw same at some_f) ∙ no_s))
                    ] in
                    let (m, next, some_m) =
                      machine_found p hart level irq small at_machine pos le c in
                    (machine_mode, rw (has_pending_irq, pair, s, no_s, next, some_m) refl, inr refl)
              ]
    ]
