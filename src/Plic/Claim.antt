-- ===== src/Plic/Claim.antt =====
-- Triggers and claims: the pending bits, and the bounds of the priorities.
use Prim.Native.Nat.{min}
use mathlib.Core.Path.{subst}
use riscv_vp_plusplus.Base.{
  [], ◌∷◌, ℕ, ◌-◌, ◌/◌, ◌%◌, ◌^◌, ◌≤◌, ◌<◌, Bool, true, false, ◌&&◌, ◌||◌, ◌==◌, ◌!=◌, ltb, leb,
  ◌≡◌, ◌≢◌, refl, inl, inr, ◌⊎◌, arith, Bool-cases, Option-cases, some, none, sym, ◌∙◌, some_inj,
  if-both, bit_and, bit_or, ==_iff, test_set, test_after_set, test_clear, test_after_clear,
}
use riscv_vp_plusplus.Plic.{
  SifivePlic, is_pending, gateway_trigger_interrupt, clear_pending, claim_irq, next_pending_irq,
  read_hartctx, is_claim_access, view, write_hartctx, store_hartctx, write_irq_prios, Harts,
  get_idx, get_off, set_at, set_at_2,
}

none_ne_plic : {p : SifivePlic} → none ≢ some p
none_ne_plic h = ground arith

-- The pending bits are those of `p`, but for that of `irq`, which is `bit`.
abbrev pub IsPendingBut : SifivePlic → SifivePlic → ℕ → Bool → Type 0
IsPendingBut p p' irq bit =
    (is_pending p' irq ≡ bit) × ((j : ℕ) → j ≢ irq → is_pending p' j ≡ is_pending p j)

unfoldable pub set_pending : SifivePlic → ℕ → ℕ → SifivePlic
set_pending p irq word = record p {
  pending_interrupts = set_at p.pending_interrupts (get_idx irq) word;
}

-- A word of the pending register is replaced by one with another bit for `irq` alone.
set_pending-IsPendingBut :
    (p : SifivePlic) (irq word : ℕ) (bit : Bool)
    → (bit_and word (get_off irq) != 0) ≡ bit
    → ((k : ℕ)
        → k < 32
        → k ≢ irq % 32
        → (bit_and word (2 ^ k) != 0) ≡ (bit_and (p.pending_interrupts (get_idx irq)) (2 ^ k) != 0))
    → IsPendingBut p (set_pending p irq word) irq bit
unfolding set_pending
set_pending-IsPendingBut p irq word bit here others =
    let own : (irq / 32 == irq / 32) ≡ true = ground arith in
    (
      rw own here,
      λ j ne. elim (Bool-cases (j / 32 == irq / 32)) [
        | inr away ↦ rw away refl
        | inl same ↦
            let e : j / 32 ≡ irq / 32 = (==_iff (j / 32) (irq / 32)).0 same in
            rw (same, e) (others (j % 32) (omega arith) (λ low. ne (omega arith)))
      ],
    )

clear_pending-IsPendingBut :
    (p : SifivePlic) (irq : ℕ) → IsPendingBut p (clear_pending p irq) irq false
unfolding clear_pending set_pending
clear_pending-IsPendingBut p irq =
    let word = p.pending_interrupts (get_idx irq) in
    set_pending-IsPendingBut p irq (bit_and word (2 ^ 32 - 1 - get_off irq)) false
      (test_clear (irq % 32) word (omega arith))
      (λ k lt ne. test_after_clear k (irq % 32) word lt (omega arith) ne)

pub triggered :
    (p p' : SifivePlic) (irq : ℕ)
    → gateway_trigger_interrupt p irq ≡ some p'
    → (0 < irq)
      × (irq ≤ p.numirq)
      × (set_pending p irq (bit_or (p.pending_interrupts (get_idx irq)) (get_off irq)) ≡ p')
unfolding gateway_trigger_interrupt set_pending
triggered p p' irq h = elim (Bool-cases (irq == 0 || ltb p.numirq irq)) [
  | inl bad ↦ absurd (none_ne_plic (sym (rw (gateway_trigger_interrupt, bad) refl) ∙ h))
  | inr good ↦ elim (Bool-cases (leb 2 (get_idx irq))) [
    | inl over ↦ absurd (none_ne_plic (sym (rw (gateway_trigger_interrupt, good, over) refl) ∙ h))
    | inr within ↦ (
      ground arith,
      ground arith,
      some_inj (sym (rw (gateway_trigger_interrupt, good, within) refl) ∙ h),
    )
  ]
]

-- A trigger that is accepted is of an interrupt between one and the number of interrupts, sets its
-- pending bit, and leaves every other pending bit.
pub gateway_trigger_interrupt-IsPendingBut :
    (p p' : SifivePlic) (irq : ℕ)
    → gateway_trigger_interrupt p irq ≡ some p'
    → (0 < irq) × (irq ≤ p.numirq) × IsPendingBut p p' irq true
unfolding gateway_trigger_interrupt
gateway_trigger_interrupt-IsPendingBut p p' irq h =
    let word = p.pending_interrupts (get_idx irq) in
    let set_word = bit_or word (get_off irq) in
    let but =
      set_pending-IsPendingBut p irq set_word true (test_set (irq % 32) word)
        (λ k lt ne. test_after_set k (irq % 32) word ne) in
    let (pos, le, e) = triggered p p' irq h in
    (pos, le, subst (λ (q : SifivePlic). IsPendingBut p q irq true) e but)

claim_irq-claim :
    (p : SifivePlic) (hart level irq : ℕ)
    → (claim_irq p hart level irq).claim hart (view p hart level) ≡ irq
unfolding claim_irq clear_pending
claim_irq-claim p hart level irq =
    let own : (hart == hart && view p hart level == view p hart level) ≡ true = ground arith in
    if-both (λ (q : SifivePlic). q.claim hart (view p hart level) ≡ irq) (irq != 0) _ _
      (rw own refl) (rw own refl)

-- A read of the claim register returns, with the chosen interrupt in the register; where there is
-- one its pending bit is cleared and every other stays, and where there is none every pending bit
-- stays.
pub read_hartctx-claim :
    (p : SifivePlic) (addr hart level irq : ℕ)
    → is_claim_access addr ≡ true
    → next_pending_irq p hart level true ≡ some irq
    → (p' : SifivePlic) × (read_hartctx p addr hart level ≡ some p')
      × (p'.claim hart (view p hart level) ≡ irq)
      × (irq ≢ 0 → IsPendingBut p p' irq false)
      × (irq ≡ 0 → (j : ℕ) → is_pending p' j ≡ is_pending p j)
unfolding read_hartctx claim_irq clear_pending
read_hartctx-claim p addr hart level irq access next =
    let claimed = record p { claim = set_at_2 p.claim hart (view p hart level) irq } in
    (
      claim_irq p hart level irq,
      rw (read_hartctx, access, next) refl,
      claim_irq-claim p hart level irq,
      λ ne.
          let some_irq : (irq != 0) ≡ true = ground arith in
          rw (claim_irq, some_irq) (clear_pending-IsPendingBut claimed irq),
      λ e j. let no_irq : (irq != 0) ≡ false = ground arith in rw (claim_irq, no_irq) refl,
    )

-- The priorities and thresholds are at most 7.
abbrev pub IsBounded : SifivePlic → Type 0
IsBounded p =
    ((idx : ℕ) → p.interrupt_priorities idx ≤ 7) × ((hart level : ℕ) → p.threshold hart level ≤ 7)

read_hartctx_cases :
    (p p' : SifivePlic) (addr hart level : ℕ)
    → read_hartctx p addr hart level ≡ some p'
    → (p' ≡ p) ⊎ ((irq : ℕ) × (p' ≡ claim_irq p hart level irq))
unfolding read_hartctx
read_hartctx_cases p p' addr hart level e = elim (Bool-cases (is_claim_access addr)) [
  | inr other ↦ inl (some_inj (sym e ∙ rw (read_hartctx, other) refl))
  | inl access ↦ elim (Option-cases (next_pending_irq p hart level true)) [
    | inl bad ↦ absurd (none_ne_plic (sym (rw (read_hartctx, access, bad) refl) ∙ e))
    | inr (irq, next) ↦ inr (irq, some_inj (sym e ∙ rw (read_hartctx, access, next) refl))
  ]
]

claim_irq-IsBounded :
    (p : SifivePlic) (hart level irq : ℕ) → IsBounded p → IsBounded (claim_irq p hart level irq)
unfolding claim_irq clear_pending
claim_irq-IsBounded p hart level irq bounded = if-both IsBounded (irq != 0) _ _ bounded bounded

min_le : (a : ℕ) → min a 7 ≤ 7
min_le a = omega arith

-- The store changes no priority, and of the thresholds that of the hart where it is to the first word.
store_hartctx-threshold :
    (p : SifivePlic) (addr hart level value : ℕ)
    → let stored = store_hartctx p addr hart level value in
      ((idx : ℕ) → stored.interrupt_priorities idx ≡ p.interrupt_priorities idx)
      × ((h l : ℕ)
          → (stored.threshold h l ≡ p.threshold h l)
            ⊎ ((addr / 4 ≡ 0) × (h == hart && l == view stored hart level ≡ true)))
unfolding store_hartctx
store_hartctx-threshold p addr hart level value = elim (Bool-cases (addr / 4 == 0)) [
  | inl first ↦
      rw (store_hartctx, first)
        (
          λ idx. refl,
          λ h l. elim (Bool-cases (h == hart && l == view p hart level)) [
            | inl here ↦ inr (ground arith, here)
            | inr elsewhere ↦ inl (rw elsewhere refl)
          ],
        )
  | inr later ↦
      rw (store_hartctx, later)
        (
          if-both
              (λ (q : SifivePlic).
                (idx : ℕ) → q.interrupt_priorities idx ≡ p.interrupt_priorities idx)
              (addr / 4 == 1) _ _ (λ idx. refl) (λ idx. refl),
          λ h l. inl (
              if-both (λ (q : SifivePlic). q.threshold h l ≡ p.threshold h l) (addr / 4 == 1) _ _
                refl refl),
        )
]

-- A write of a context register changes no priority, and the threshold it changes is clipped.
write_hartctx-IsBounded :
    (p : SifivePlic) (harts : Harts) (addr hart level value : ℕ)
    → IsBounded p
    → IsBounded (write_hartctx p harts addr hart level value).0
unfolding write_hartctx
write_hartctx-IsBounded p harts addr hart level value (prios, thresholds) =
    let stored = store_hartctx p addr hart level value in
    let (same_prios, same_thresholds) = store_hartctx-threshold p addr hart level value in
    let here = λ (h l : ℕ). h == hart && l == view stored hart level in
    elim (Bool-cases (is_claim_access addr)) [
      | inl claims ↦
          rw (write_hartctx, claims)
            (
              λ idx. rw (same_prios idx) (prios idx),
              λ h l. elim (same_thresholds h l) [
                | inl same ↦ rw same (thresholds h l)
                | inr (first, at) ↦ absurd (ground arith)
              ],
            )
      | inr other ↦
          rw (write_hartctx, other)
            (
              λ idx. rw (same_prios idx) (prios idx),
              λ h l. elim (same_thresholds h l) [
                | inl same ↦
                    if-both (λ (n : ℕ). n ≤ 7) (here h l) _ _ (min_le _) (rw same (thresholds h l))
                | inr (first, at) ↦ rw at (min_le _)
              ],
            )
    ]

-- If the priorities and thresholds of a PLIC are at most 7, they are so after a write of one word
-- to a priority register, a write or a read of a context register, and a trigger.
pub write_irq_prios-IsBounded :
    (p : SifivePlic) (harts : Harts) (addr hart level idx value : ℕ)
    → IsBounded p
    → IsBounded (write_irq_prios p idx (value ∷ []))
      × IsBounded (write_hartctx p harts addr hart level value).0
      × ((p' : SifivePlic) → read_hartctx p addr hart level ≡ some p' → IsBounded p')
      × ((p' : SifivePlic) (irq : ℕ) → gateway_trigger_interrupt p irq ≡ some p' → IsBounded p')
unfolding write_irq_prios set_pending
write_irq_prios-IsBounded p harts addr hart level idx value (prios, thresholds) = (
  (
    λ i. elim (Bool-cases (i == idx)) [
      | inl here ↦ rw here (min_le _)
      | inr other ↦ rw other (prios i)
    ],
    thresholds,
  ),
  write_hartctx-IsBounded p harts addr hart level value (prios, thresholds),
  λ p' e. elim (read_hartctx_cases p p' addr hart level e) [
    | inl same ↦ subst IsBounded (sym same) (prios, thresholds)
    | inr (irq, claimed) ↦
        subst IsBounded (sym claimed) (claim_irq-IsBounded p hart level irq (prios, thresholds))
  ],
  λ p' irq e. subst IsBounded (triggered p p' irq e).2 (prios, thresholds),
)
