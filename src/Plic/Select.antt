-- ===== src/Plic/Select.antt =====
-- The loop over the interrupts picks the first of the highest priority.
use riscv_vp_plusplus.Base.{
  ℕ, zero, suc, ◌≤◌, ◌<◌, Bool, true, false, ◌&&◌, ◌≡◌, ◌≢◌, ◌==◌, refl, ap, inl, inr, ◌⊎◌, arith,
  ltb, leb, Bool-cases, some, none, sym, ◌∙◌, some_inj,
}
use riscv_vp_plusplus.Rv32.State.{supervisor_mode}
use mathlib.Core.Path.{subst}
use riscv_vp_plusplus.Plic.{
  SifivePlic, select, is_candidate, priority_of, next_pending_irq, reads_beyond,
}

-- No candidate up to `n` has a priority, or `irq` is the first of those with the highest.
abbrev pub IsBest : (ℕ → Bool) → (ℕ → ℕ) → ℕ → ℕ → Type 0
IsBest candidate priority n irq =
    ((irq ≡ 0) × ((j : ℕ) → 0 < j → j ≤ n → candidate j ≡ true → priority j ≡ 0))
    ⊎ ((0 < irq)
        × (irq ≤ n)
        × (candidate irq ≡ true)
        × (0 < priority irq)
        × ((j : ℕ)
            → 0 < j
            → j ≤ n
            → candidate j ≡ true
            → (priority j < priority irq) ⊎ ((priority j ≡ priority irq) × (irq ≤ j))))

none_ne_some : {a : ℕ} → none ≢ some a
none_ne_some h = ground arith

module _ (candidate : ℕ → Bool) (priority : ℕ → ℕ) where
  IsLeading : ℕ → ℕ × ℕ → Type 0
  IsLeading n r =
      (((r.0 ≡ 0) × (r.1 ≡ 0))
        ⊎ ((0 < r.0) × (r.0 ≤ n) × (candidate r.0 ≡ true) × (0 < r.1) × (priority r.0 ≡ r.1)))
      × ((j : ℕ)
          → 0 < j
          → j ≤ n
          → candidate j ≡ true
          → (priority j < r.1) ⊎ ((priority j ≡ r.1) × (r.0 ≤ j)))

  -- The interrupts before a number, and that one.
  last_cases : (j n : ℕ) → j ≤ suc n → (j ≤ n) ⊎ (j ≡ suc n)
  last_cases j n le = ground arith

  lead_new :
      (n : ℕ) (r : ℕ × ℕ) (j : ℕ)
      → 0 < j
      → j ≤ suc n
      → candidate j ≡ true
      → candidate (suc n) && ltb r.1 (priority (suc n)) ≡ true
      → ((i : ℕ)
          → 0 < i
          → i ≤ n
          → candidate i ≡ true
          → (priority i < r.1) ⊎ ((priority i ≡ r.1) × (r.0 ≤ i)))
      → (priority j < priority (suc n)) ⊎ ((priority j ≡ priority (suc n)) × (suc n ≤ j))
  lead_new n r j pos le c taken others = elim (last_cases j n le) [
    | inl before ↦ let fact = others j pos before c in inl (ground arith)
    | inr e ↦ inr (ap priority e, omega arith)
  ]

  lead_old :
      (n : ℕ) (r : ℕ × ℕ) (j : ℕ)
      → 0 < j
      → j ≤ suc n
      → candidate j ≡ true
      → candidate (suc n) && ltb r.1 (priority (suc n)) ≡ false
      → ((r.0 ≡ 0) × (r.1 ≡ 0))
        ⊎ ((0 < r.0) × (r.0 ≤ n) × (candidate r.0 ≡ true) × (0 < r.1) × (priority r.0 ≡ r.1))
      → ((i : ℕ)
          → 0 < i
          → i ≤ n
          → candidate i ≡ true
          → (priority i < r.1) ⊎ ((priority i ≡ r.1) × (r.0 ≤ i)))
      → (priority j < r.1) ⊎ ((priority j ≡ r.1) × (r.0 ≤ j))
  lead_old n r j pos le c kept place others = elim (last_cases j n le) [
    | inl before ↦ others j pos before c
    | inr e ↦
        let c' : candidate (suc n) ≡ true = subst (λ (i : ℕ). candidate i ≡ true) e c in
        let top : ltb r.1 (priority (suc n)) ≡ false = rw c' at kept in
        let same : priority j ≡ priority (suc n) = ap priority e in ground arith
  ]

  select-IsLeading : (n : ℕ) → IsLeading n (select candidate priority n)
  unfolding IsLeading select
  select-IsLeading zero = (inl (refl, refl), λ j pos le c. absurd (omega arith))
  select-IsLeading (suc n) =
      let r = select candidate priority n in
      let (place, others) = select-IsLeading n in
      elim (Bool-cases (candidate (suc n) && ltb r.1 (priority (suc n)))) [
        | inl taken ↦
            rw (select, taken)
              (
                inr (omega arith, omega arith, ground arith, ground arith, refl),
                λ j pos le c. lead_new n r j pos le c taken others,
              )
        | inr kept ↦
            rw (select, kept)
              (ground arith, λ j pos le c. lead_old n r j pos le c kept place others)
      ]

  pub select-IsBest : (n : ℕ) → IsBest candidate priority n (select candidate priority n).0
  unfolding IsLeading
  select-IsBest n =
      let r = select candidate priority n in
      let (place, others) = select-IsLeading n in
      elim place [
        | inl (none_sel, none_max) ↦
            inl (none_sel, λ j pos le c. let fact = others j pos le c in ground arith)
        | inr (pos, le, c, some_max, top) ↦
            inr (pos, le, c, rw top some_max, λ j jpos jle jc. rw top (others j jpos jle jc))
      ]

next_pending_irq_cases :
    (p : SifivePlic) (hart level irq : ℕ) (ignth : Bool)
    → next_pending_irq p hart level ignth ≡ some irq
    → some irq ≡ some (select (is_candidate p hart level ignth) (priority_of p) p.numirq).0
unfolding next_pending_irq
next_pending_irq_cases p hart level irq ignth h =
    elim (Bool-cases (p.fu540_mode && (hart == 0 && level == supervisor_mode))) [
      | inl bad ↦ absurd (none_ne_some (sym (rw (next_pending_irq, bad) refl) ∙ h))
      | inr good ↦ elim (Bool-cases (reads_beyond p hart level p.numirq)) [
        | inl over ↦ absurd (none_ne_some (sym (rw (next_pending_irq, good, over) refl) ∙ h))
        | inr within ↦ sym h ∙ rw (next_pending_irq, good, within) refl
      ]
    ]

-- The interrupt that `next_pending_irq` returns is the first of the highest priority among those
-- that are enabled, pending and, unless the threshold is ignored, above it; it is zero only where
-- none of them has a priority.
pub next_pending_irq-IsBest :
    (p : SifivePlic) (hart level irq : ℕ) (ignth : Bool)
    → next_pending_irq p hart level ignth ≡ some irq
    → IsBest (is_candidate p hart level ignth) (priority_of p) p.numirq irq
unfolding next_pending_irq
next_pending_irq-IsBest p hart level irq ignth h =
    let best = select-IsBest (is_candidate p hart level ignth) (priority_of p) p.numirq in
    let same : (select (is_candidate p hart level ignth) (priority_of p) p.numirq).0 ≡ irq =
      some_inj (sym (next_pending_irq_cases p hart level irq ignth h)) in
    subst (IsBest (is_candidate p hart level ignth) (priority_of p) p.numirq) same best

reads_beyond_below :
    (p : SifivePlic) (hart level n : ℕ) → n < 64 → reads_beyond p hart level n ≡ false
unfolding reads_beyond
reads_beyond_below p hart level zero lt = refl
reads_beyond_below p hart level (suc n) lt =
    let before = reads_beyond_below p hart level n (omega arith) in
    let small : leb 64 (suc n) ≡ false = ground arith in rw (reads_beyond, before, small) refl

-- With fewer than 64 interrupts the loop asserts nothing, for a level that the hart has.
pub next_pending_irq_total :
    (p : SifivePlic) (hart level : ℕ) (ignth : Bool)
    → p.numirq < 64
    → p.fu540_mode && (hart == 0 && level == supervisor_mode) ≡ false
    → next_pending_irq p hart level ignth
      ≡ some (select (is_candidate p hart level ignth) (priority_of p) p.numirq).0
unfolding next_pending_irq
next_pending_irq_total p hart level ignth lt good =
    let within = reads_beyond_below p hart level p.numirq lt in
    rw (next_pending_irq, good, within) refl
