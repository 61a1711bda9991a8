-- ===== src/Plic/Run.antt =====
-- `run` raises the line of every hart that has an interrupt, and a triggered interrupt gets there.
use mathlib.Core.Path.{subst}
use riscv_vp_plusplus.Base.{
  ℕ, zero, suc, ◌≤◌, ◌<◌, true, false, ◌&&◌, ◌||◌, ◌==◌, ltb, leb, ◌≡◌, ◌≢◌, refl, inl, inr, ◌⊎◌,
  arith, Bool-cases, some, none, sym, ◌∙◌, some_inj, Option, ==_ne, ==_iff, lt→ltb, bit_or,
}
use riscv_vp_plusplus.Rv32.State.{machine_mode, supervisor_mode}
use riscv_vp_plusplus.Rv32.Trap.Lines.{trigger_external_interrupt}
use riscv_vp_plusplus.Plic.{
  SifivePlic, is_candidate, is_enabled, get_threshold, priority_of, next_pending_irq,
  has_pending_irq, run, Harts, set_hart, gateway_trigger_interrupt, get_idx, get_off,
}
use riscv_vp_plusplus.Plic.Select.{next_pending_irq_total}
use riscv_vp_plusplus.Plic.Claim.{set_pending, gateway_trigger_interrupt-IsPendingBut}
use riscv_vp_plusplus.Plic.Delivery.{
  machine_level, supervisor_level, HasExternal, trigger_external_interrupt-HasExternal,
  has_pending_irq_found,
}

-- What an iteration makes of the harts.
served : Harts → ℕ → Option ℕ → Harts
served harts n none = harts
served harts n (some level) = set_hart harts n (trigger_external_interrupt (harts n) level)

run_step :
    (p : SifivePlic) (n : ℕ) (harts h1 : Harts) (r : Option ℕ)
    → run p n harts ≡ some h1
    → has_pending_irq p n ≡ some r
    → run p (suc n) harts ≡ some (served h1 n r)
unfolding run served
run_step p n harts h1 none e f = rw (run, e, f) refl
run_step p n harts h1 (some level) e f = rw (run, e, f) refl

served_other :
    (harts : Harts) (n hart : ℕ) (r : Option ℕ) → hart ≢ n → served harts n r hart ≡ harts hart
unfolding served
served_other harts n hart none ne = refl
served_other harts n hart (some level) ne = let e = ==_ne hart n ne in rw e refl

served_own :
    (harts : Harts) (n level : ℕ)
    → (level ≡ supervisor_mode) ⊎ (level ≡ machine_mode)
    → HasExternal (served harts n (some level) n)
unfolding served
served_own harts n level h =
    let own : (n == n) ≡ true = ground arith in
    rw own (trigger_external_interrupt-HasExternal (harts n) level h)

next_total :
    (p : SifivePlic)
    → p.numirq < 64
    → (hart level : ℕ) → p.fu540_mode && (hart == 0 && level == supervisor_mode) ≡ false
    → (irq : ℕ) × (next_pending_irq p hart level false ≡ some irq)
next_total p small hart level h = (_, next_pending_irq_total p hart level false small h)

module _ (p : SifivePlic) (small : p.numirq < 64) where
  has_pending_irq_total : (hart : ℕ) → (r : Option ℕ) × (has_pending_irq p hart ≡ some r)
  unfolding has_pending_irq
  has_pending_irq_total hart =
      let (m, machine) =
        next_total p small hart machine_mode (machine_level p.fu540_mode (hart == 0)) in
      elim (Bool-cases (p.fu540_mode && hart == 0)) [
        | inl solo ↦ elim (Bool-cases (ltb 0 m)) [
          | inl some_m ↦ (some machine_mode, rw (has_pending_irq, solo, machine, some_m) refl)
          | inr no_m ↦ (none, rw (has_pending_irq, solo, machine, no_m) refl)
        ]
        | inr pair ↦
            let (s, supervisor) =
              next_total p small hart supervisor_mode
                (supervisor_level p.fu540_mode (hart == 0) pair) in
            elim (Bool-cases (ltb 0 s)) [
              | inl some_s ↦
                  (some supervisor_mode, rw (has_pending_irq, pair, supervisor, some_s) refl)
              | inr no_s ↦ elim (Bool-cases (ltb 0 m)) [
                | inl some_m ↦ (
                  some machine_mode,
                  rw (has_pending_irq, pair, supervisor, no_s, machine, some_m) refl,
                )
                | inr no_m ↦
                    (none, rw (has_pending_irq, pair, supervisor, no_s, machine, no_m) refl)
              ]
            ]
      ]

  -- The wake-up returns, and raises the line of a hart below `n` that has an interrupt.
  run_delivers :
      (n : ℕ) (harts : Harts) (hart level : ℕ)
      → has_pending_irq p hart ≡ some (some level)
      → (level ≡ supervisor_mode) ⊎ (level ≡ machine_mode)
      → (harts' : Harts) × (run p n harts ≡ some harts') × (hart < n → HasExternal (harts' hart))
  unfolding run
  run_delivers zero harts hart level pending valid = (harts, refl, λ lt. absurd (omega arith))
  run_delivers (suc n) harts hart level pending valid =
      let (h1, e, before) = run_delivers n harts hart level pending valid in
      let (r, f) = has_pending_irq_total n in
      (
        served h1 n r,
        run_step p n harts h1 r e f,
        λ lt. elim (Bool-cases (hart == n)) [
          | inl same ↦
              let e' : hart ≡ n = (==_iff hart n).0 same in
              let there : some (some level) ≡ some r = sym (rw e' at pending) ∙ f in
              subst (λ (k : ℕ). HasExternal (served h1 n r k)) (sym e')
                (subst (λ (o : Option ℕ). HasExternal (served h1 n o n)) (some_inj there)
                  (served_own h1 n level valid))
          | inr other ↦
              let ne : hart ≢ n = ground arith in
              subst HasExternal (sym (served_other h1 n hart r ne)) (before (ground arith))
        ],
      )

-- In a PLIC of fewer than 64 interrupts, after the trigger of an interrupt that a hart enables at
-- a level that it has, with a priority above the threshold, the wake-up of `run` returns and the
-- machine or supervisor external interrupt is pending in the mip of that hart.
pub run-gateway_trigger_interrupt :
    (p : SifivePlic) (n : ℕ) (harts : Harts) (hart level irq : ℕ)
    → p.numirq < 64
    → 0 < irq
    → irq ≤ p.numirq
    → hart < n
    → (level ≡ machine_mode) ⊎ ((level ≡ supervisor_mode) × (p.fu540_mode && hart == 0 ≡ false))
    → is_enabled p hart level irq ≡ true
    → get_threshold p hart level < priority_of p irq
    → (p' : SifivePlic) × (harts' : Harts) × (gateway_trigger_interrupt p irq ≡ some p')
      × (run p' n harts ≡ some harts')
      × HasExternal (harts' hart)
unfolding gateway_trigger_interrupt set_pending is_candidate
run-gateway_trigger_interrupt p n harts hart level irq small pos le lt allowed enabled above =
    let p' = set_pending p irq (bit_or (p.pending_interrupts (get_idx irq)) (get_off irq)) in
    let found : gateway_trigger_interrupt p irq ≡ some p' =
      let good : (irq == 0 || ltb p.numirq irq) ≡ false = ground arith in
      let within : leb 2 (get_idx irq) ≡ false = ground arith in
      rw (gateway_trigger_interrupt, good, within) refl in
    let (_, _, but) = gateway_trigger_interrupt-IsPendingBut p p' irq found in
    let candidate : is_candidate p' hart level false irq ≡ true =
      let high = lt→ltb (get_threshold p hart level) (priority_of p irq) above in
      rw (is_candidate, enabled, but.0, high) refl in
    let (line, has, valid) =
      has_pending_irq_found p' hart level irq small allowed pos le candidate in
    let (harts', e, raised) = run_delivers p' small n harts hart line has valid in
    (p', harts', found, e, raised lt)
