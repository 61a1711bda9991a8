-- ===== src/Rv32/Trap/Interrupts.antt =====
-- Which interrupt is taken, and that one is taken whenever `compute_pending_interrupts` finds one.
use riscv_vp_plusplus.Base.{
  ℕ, ◌≡◌, ◌<◌, ◌≤◌, ◌^◌, ◌/◌, refl, ◌⊎◌, inl, inr, arith, ◌!=◌, bit_and, List, [], ◌∷◌,
  if◌then◌else◌, bit_at, bit_at-bit_and, bit_and-div, bit_and-zero, zero-bit_and, ◌≢◌, sym, ap, ◌∙◌,
  ◌+◌, ◌-◌, ◌*◌, ◌%◌, suc, Bool-cases, bit_at-complement, bit_at-zero,
}
use mathlib.Core.Path.{subst}
use riscv_vp_plusplus.Rv32.Csrs.{get_field, mie_mask}
use riscv_vp_plusplus.Rv32.State.{
  Core, Result, ok, error, machine_mode, supervisor_mode, user_mode, none_mode, bit_not,
}
use riscv_vp_plusplus.Rv32.Trap.{PendingInterrupts, compute_pending_interrupts, interrupt_code}

-- The place of an interrupt in the privileged architecture's order: its privilege is in the lowest
-- two bits of its code, 3, 1 and 0, the highest first, and above them are 2 for external, 0 for software and 1
-- for timer, in this order.
abbrev pub rank : ℕ → ℕ
rank code = (2 - code % 4) * 3 + (code / 4 + 1) % 3

-- The codes of the standard interrupts: three kinds, each for user, supervisor and machine.
abbrev pub IsStandard : ℕ → Type 0
IsStandard code = (code < 12) × (code % 4 ≢ 2)

-- An interrupt is chosen that is set, and before which none that is set stands, or none is set.
abbrev pub IsFirst : ℕ → Result ℕ → Type 0
IsFirst x r =
    ((code : ℕ) × (r ≡ ok code)
      × IsStandard code
      × (bit_at code x ≡ 1)
      × ((other : ℕ) → IsStandard other → bit_at other x ≡ 1 → rank code ≤ rank other))
    ⊎ ((r ≡ error) × ((other : ℕ) → IsStandard other → bit_at other x ≡ 0))

le_or_lt : (m n : ℕ) → (m ≤ n) ⊎ (n < m)
le_or_lt m n = omega arith

-- The standard interrupts from a place on, one by one.
abbrev IsOrdered : ℕ → List ℕ → Type 0
IsOrdered n [] = n ≡ 9
IsOrdered n (code ∷ codes) = IsStandard code × (rank code ≡ n) × IsOrdered (suc n) codes

abbrev first_set : List ℕ → ℕ → Result ℕ
first_set [] x = error
first_set (code ∷ codes) x = if get_field code 1 x != 0 then ok code else first_set codes x

rank_unique : (i j : ℕ) → IsStandard i → IsStandard j → rank i ≡ rank j → i ≡ j
rank_unique i j h k e = omega arith

rank_bound : (i : ℕ) → IsStandard i → rank i < 9
rank_bound i h = omega arith

first_set-IsFirst :
    (codes : List ℕ) (n x : ℕ)
    → IsOrdered n codes
    → ((other : ℕ) → IsStandard other → rank other < n → bit_at other x ≡ 0)
    → IsFirst x (first_set codes x)
first_set-IsFirst [] n x end below =
    inr (refl, λ other h. below other h (omega (arith, end, rank_bound other h)))
first_set-IsFirst (code ∷ codes) n x (standard, place, rest) below =
    elim (Bool-cases (get_field code 1 x != 0)) [
      | inl set ↦ rw set (
          inl (
            code,
            refl,
            standard,
            ground arith,
            λ other h bit. elim (le_or_lt n (rank other)) [
              | inl le ↦ omega arith
              | inr lt ↦ absurd (omega (arith, below other h lt))
            ],
          ))
      | inr clear ↦ rw clear (
          first_set-IsFirst codes (suc n) x rest (λ other h lt. elim (le_or_lt n (rank other)) [
            | inl le ↦
                let same : other ≡ code = rank_unique other code h standard (omega arith) in
                subst (λ (k : ℕ). bit_at k x ≡ 0) (sym same) (ground arith)
            | inr before ↦ below other h before
          ]))
    ]

-- The exception code that `prepare_interrupt` chooses is a standard interrupt that is set in the
-- pending word, and none that is set there is before it in the order of the privileged
-- architecture: machine before supervisor before user, and in each external before software before
-- timer. It fails only where no standard interrupt is set.
pub interrupt_code-IsFirst : (x : ℕ) → IsFirst x (interrupt_code x)
unfolding interrupt_code
interrupt_code-IsFirst x =
    first_set-IsFirst (11 ∷ 3 ∷ 7 ∷ 9 ∷ 1 ∷ 5 ∷ 8 ∷ 0 ∷ 4 ∷ []) 0 x (ground arith)
      (λ other h lt. absurd (omega arith))

-- The standard interrupts only, as a write of mie leaves them.
abbrev pub IsMasked : ℕ → Type 0
IsMasked mie = bit_and mie mie_mask ≡ mie

mie-high : (x : ℕ) → IsMasked x → x / 2 ^ 12 ≡ 0
mie-high x h =
    ap (λ (t : ℕ). t / 2 ^ 12) (sym h) ∙ bit_and-div 12 x mie_mask ∙ bit_and-zero (x / 2 ^ 12)

bit_and-high : (x y : ℕ) → IsMasked x → bit_and x y / 2 ^ 12 ≡ 0
bit_and-high x y h =
    bit_and-div 12 x y
    ∙ ap (λ (t : ℕ). bit_and t (y / 2 ^ 12)) (mie-high x h)
    ∙ zero-bit_and (y / 2 ^ 12)

-- A bit that the mask clears is clear in the word and in its conjunctions.
bit_and-cleared : (i x y : ℕ) → IsMasked x → bit_at i mie_mask ≡ 0 → bit_at i (bit_and x y) ≡ 0
bit_and-cleared i x y h e =
    omega (arith, bit_at-bit_and i x mie_mask, bit_at-bit_and i x y, ap (λ (t : ℕ). bit_at i t) h)

abbrev pub IsPending : ℕ → Type 0
IsPending p = (p / 2 ^ 12 ≡ 0) × (bit_at 2 p ≡ 0) × (bit_at 6 p ≡ 0) × (bit_at 10 p ≡ 0)

bit_and-IsPending : (x y : ℕ) → IsMasked x → IsPending (bit_and x y)
bit_and-IsPending x y h = (
  bit_and-high x y h,
  bit_and-cleared 2 x y h refl,
  bit_and-cleared 6 x y h refl,
  bit_and-cleared 10 x y h refl,
)

pub interrupt_code-error : (p : ℕ) → IsPending p → interrupt_code p ≡ error → p ≡ 0
unfolding interrupt_code
interrupt_code-error p h e = ground arith

pub IsPending-bit_and : (p y : ℕ) → IsPending p → IsPending (bit_and p y)
IsPending-bit_and p y h = (
  bit_and-div 12 p y ∙ ap (λ (t : ℕ). bit_and t (y / 2 ^ 12)) h.0 ∙ zero-bit_and (y / 2 ^ 12),
  omega (arith, bit_at-bit_and 2 p y, h.1),
  omega (arith, bit_at-bit_and 6 p y, h.2),
  omega (arith, bit_at-bit_and 10 p y, h.3),
)

abbrev pub IsMode : ℕ → Type 0
IsMode m = (m ≡ machine_mode) ⊎ ((m ≡ supervisor_mode) ⊎ (m ≡ user_mode))

abbrev pub IsTaken : Core → PendingInterrupts → Type 0
IsTaken c r = IsMode r.target_mode × (c.prv ≤ r.target_mode) × (r.pending ≢ 0)

pub compute_pending_interrupts-IsTaken :
    (c : Core)
    → IsMode c.prv
    → ((compute_pending_interrupts c).target_mode ≡ none_mode)
      ⊎ IsTaken c (compute_pending_interrupts c)
unfolding compute_pending_interrupts
compute_pending_interrupts-IsTaken c mode = ground arith

-- The four words that can be pending.
abbrev m_bits : Core → ℕ
m_bits c = bit_and (bit_and c.csrs.mie c.csrs.mip) (bit_not c.csrs.mideleg)

abbrev delegated_bits : Core → ℕ
delegated_bits c = bit_and (bit_and c.csrs.mie c.csrs.mip) c.csrs.mideleg

abbrev s_bits : Core → ℕ
s_bits c = bit_and (delegated_bits c) (bit_not c.csrs.sideleg)

abbrev u_bits : Core → ℕ
u_bits c = bit_and (delegated_bits c) c.csrs.sideleg

compute_pending_interrupts-cases :
    (P : PendingInterrupts → Type 0) (c : Core)
    → P (record { target_mode = none_mode; pending = 0 })
    → P (record { target_mode = machine_mode; pending = m_bits c })
    → P (record { target_mode = supervisor_mode; pending = s_bits c })
    → P (record { target_mode = user_mode; pending = u_bits c })
    → P (compute_pending_interrupts c)
unfolding compute_pending_interrupts
compute_pending_interrupts-cases P c n m s u = ground arith

pub compute_pending_interrupts-IsPending :
    (c : Core) → IsMasked c.csrs.mie → IsPending (compute_pending_interrupts c).pending
compute_pending_interrupts-IsPending c h =
    let p = bit_and c.csrs.mie c.csrs.mip in
    let all : IsPending p = bit_and-IsPending c.csrs.mie c.csrs.mip h in
    let d : IsPending (delegated_bits c) = IsPending-bit_and p c.csrs.mideleg all in
    compute_pending_interrupts-cases (λ r. IsPending r.pending) c (refl, refl, refl, refl)
      (IsPending-bit_and p (bit_not c.csrs.mideleg) all)
      (IsPending-bit_and (delegated_bits c) (bit_not c.csrs.sideleg) d)
      (IsPending-bit_and (delegated_bits c) c.csrs.sideleg d)

-- An interrupt that is enabled and pending, and delegated to `mode`.
abbrev pub IsFor : Core → ℕ → ℕ → Type 0
IsFor c mode i =
    (bit_at i c.csrs.mie ≡ 1)
    × (bit_at i c.csrs.mip ≡ 1)
    × ((mode ≡ machine_mode × (bit_at i c.csrs.mideleg ≡ 0))
        ⊎ ((mode ≡ supervisor_mode × (bit_at i c.csrs.mideleg ≡ 1) × (bit_at i c.csrs.sideleg ≡ 0))
            ⊎ (mode ≡ user_mode × (bit_at i c.csrs.mideleg ≡ 1) × (bit_at i c.csrs.sideleg ≡ 1))))

abbrev Chosen : Core → ℕ → PendingInterrupts → Type 0
Chosen c i r = bit_at i r.pending ≡ 1 → IsFor c r.target_mode i

-- Every bit in the pending word that `compute_pending_interrupts` returns is an interrupt that mie
-- enables, that mip has pending, and that mideleg and sideleg, words of 32 bits, delegate to the
-- mode that it returns.
pub compute_pending_interrupts-IsFor :
    (c : Core) (i : ℕ)
    → i < 32
    → c.csrs.mideleg < 2 ^ 32
    → c.csrs.sideleg < 2 ^ 32
    → bit_at i (compute_pending_interrupts c).pending ≡ 1
    → IsFor c (compute_pending_interrupts c).target_mode i
compute_pending_interrupts-IsFor c i h hm hs =
    let all = bit_at-bit_and i c.csrs.mie c.csrs.mip in
    let d = bit_at-bit_and i (bit_and c.csrs.mie c.csrs.mip) c.csrs.mideleg in
    let not_m = bit_at-complement i 32 c.csrs.mideleg h hm in
    let not_s = bit_at-complement i 32 c.csrs.sideleg h hs in
    compute_pending_interrupts-cases (Chosen c i) c (λ e. absurd (omega (arith, bit_at-zero i)))
      (λ e.
        let m = bit_at-bit_and i (bit_and c.csrs.mie c.csrs.mip) (bit_not c.csrs.mideleg) in
        (omega arith, omega arith, inl (refl, omega arith)))
      (λ e.
        let s = bit_at-bit_and i (delegated_bits c) (bit_not c.csrs.sideleg) in
        (omega arith, omega arith, inr (inl (refl, omega arith, omega arith))))
      (λ e.
        let u = bit_at-bit_and i (delegated_bits c) c.csrs.sideleg in
        (omega arith, omega arith, inr (inr (refl, omega arith, omega arith))))

-- No bit of a word that is zero is set; this is how a missed interrupt shows.
bit_at-none : (i p : ℕ) → p ≡ 0 → bit_at i p ≡ 0
bit_at-none i p e = ap (λ (t : ℕ). bit_at i t) e ∙ bit_at-zero i

compute_pending_interrupts-none :
    (c : Core)
    → IsMode c.prv
    → bit_and c.csrs.mie c.csrs.mip ≢ 0
    → m_bits c ≢ 0
    → (compute_pending_interrupts c).target_mode ≡ none_mode
    → (c.prv ≡ machine_mode) × (get_field 3 1 c.csrs.mstatus ≡ 0)
unfolding compute_pending_interrupts
compute_pending_interrupts-none c mode p m none = ground arith

-- Where `compute_pending_interrupts` finds none for a hart in one of the three modes although an
-- interrupt is enabled, pending and not delegated, the hart is in machine mode with MIE clear.
pub compute_pending_interrupts_complete :
    (c : Core) (i : ℕ)
    → i < 32
    → c.csrs.mideleg < 2 ^ 32
    → IsMode c.prv
    → bit_at i c.csrs.mie ≡ 1
    → bit_at i c.csrs.mip ≡ 1
    → bit_at i c.csrs.mideleg ≡ 0
    → (compute_pending_interrupts c).target_mode ≡ none_mode
    → (c.prv ≡ machine_mode) × (get_field 3 1 c.csrs.mstatus ≡ 0)
compute_pending_interrupts_complete c i h hm mode mie mip mideleg none =
    let all = bit_at-bit_and i c.csrs.mie c.csrs.mip in
    let not_m = bit_at-complement i 32 c.csrs.mideleg h hm in
    let m = bit_at-bit_and i (bit_and c.csrs.mie c.csrs.mip) (bit_not c.csrs.mideleg) in
    let p : bit_and c.csrs.mie c.csrs.mip ≢ 0 = λ e. absurd (omega (arith, bit_at-none i _ e)) in
    let q : m_bits c ≢ 0 = λ e. absurd (omega (arith, bit_at-none i _ e)) in
    compute_pending_interrupts-none c mode p q none
