-- ===== src/Plic.antt =====
-- vp/src/platform/common/sifive_plic.{h,cpp}: `SIFIVE_PLIC`, the platform-level interrupt
-- controller, and the external interrupt lines of the harts that it drives.
pub mod Select
pub mod Claim
pub mod Delivery
pub mod Run
use Prim.Native.Nat.{min}
use riscv_vp_plusplus.Base.{
  ℕ, zero, suc, ◌+◌, ◌-◌, ◌*◌, ◌/◌, ◌%◌, ◌^◌, bit_and, bit_or, Bool, true, false, not, ◌&&◌, ◌||◌,
  ◌==◌, ◌!=◌, ltb, leb, if◌then◌else◌, List, [], ◌∷◌, Option, none, some,
}
use riscv_vp_plusplus.Rv32.State.{Core, machine_mode, supervisor_mode}
use riscv_vp_plusplus.Rv32.Trap.Lines.{trigger_external_interrupt, clear_external_interrupt}

-- The registers. Those of a hart are indexed by the hart and the level; `threshold` and `claim` are
-- words 0 and 1 of `hart_context`, and `context_rest` those from 2 up, which a hart has for more than 64
-- interrupts.
pub record SifivePlic : Type 0 where
  pub fu540_mode : Bool
  pub numirq : ℕ
  pub interrupt_priorities : ℕ → ℕ
  pub pending_interrupts : ℕ → ℕ
  pub enabled_irqs : ℕ → ℕ → ℕ → ℕ
  pub threshold : ℕ → ℕ → ℕ
  pub claim : ℕ → ℕ → ℕ
  pub context_rest : ℕ → ℕ → ℕ → ℕ

abbrev pub set_at : (ℕ → ℕ) → ℕ → ℕ → ℕ → ℕ
set_at f i v j = if j == i then v else f j

abbrev pub set_at_2 : (ℕ → ℕ → ℕ) → ℕ → ℕ → ℕ → ℕ → ℕ → ℕ
set_at_2 f i k v j l = if j == i && l == k then v else f j l

abbrev pub get_idx : ℕ → ℕ
get_idx irq = irq / 32

abbrev pub get_off : ℕ → ℕ
get_off irq = 2 ^ (irq % 32)

-- `create_hart_regs`: hart 0 of an FU540 has one view on its registers for both levels.
abbrev pub view : SifivePlic → ℕ → ℕ → ℕ
view p hart level = if p.fu540_mode && hart == 0 then machine_mode else level

-- `none` is the std::invalid_argument, or an index past the two words of the pending register,
-- which ArrayView asserts against.
unfoldable pub gateway_trigger_interrupt : SifivePlic → ℕ → Option SifivePlic
gateway_trigger_interrupt p irq =
    if irq == 0 || ltb p.numirq irq
    then none
    else if leb 2 (get_idx irq)
    then none
    else let word = bit_or (p.pending_interrupts (get_idx irq)) (get_off irq) in
      some (record p { pending_interrupts = set_at p.pending_interrupts (get_idx irq) word })

abbrev pub is_pending : SifivePlic → ℕ → Bool
is_pending p irq = bit_and (p.pending_interrupts (get_idx irq)) (get_off irq) != 0

abbrev pub is_enabled : SifivePlic → ℕ → ℕ → ℕ → Bool
is_enabled p hart level irq =
    bit_and (p.enabled_irqs hart (view p hart level) (get_idx irq)) (get_off irq) != 0

unfoldable pub clear_pending : SifivePlic → ℕ → SifivePlic
clear_pending p irq =
    let word = bit_and (p.pending_interrupts (get_idx irq)) (2 ^ 32 - 1 - get_off irq) in
    record p { pending_interrupts = set_at p.pending_interrupts (get_idx irq) word }

abbrev pub get_threshold : SifivePlic → ℕ → ℕ → ℕ
get_threshold p hart level = p.threshold hart (view p hart level)

abbrev pub priority_of : SifivePlic → ℕ → ℕ
priority_of p irq = p.interrupt_priorities (irq - 1)

-- The guards of the loop body of `next_pending_irq`, and what it does with an interrupt.
unfoldable pub is_candidate : SifivePlic → ℕ → ℕ → Bool → ℕ → Bool
is_candidate p hart level ignth irq =
    is_enabled p hart level irq
    && is_pending p irq
    && (ignth || ltb (get_threshold p hart level) (priority_of p irq))

-- `selirq` and `maxpri` after the loop has seen the interrupts up to a number.
unfoldable pub select : (candidate : ℕ → Bool) (priority : ℕ → ℕ) → ℕ → ℕ × ℕ
select candidate priority zero = (0, 0)
select candidate priority (suc n) =
    let rest = select candidate priority n in
    if candidate (suc n) && ltb rest.1 (priority (suc n)) then (suc n, priority (suc n)) else rest

-- The loop asks for a pending bit past the two words: for an enabled interrupt from 64 up.
unfoldable pub reads_beyond : SifivePlic → ℕ → ℕ → ℕ → Bool
reads_beyond p hart level zero = false
reads_beyond p hart level (suc n) =
    reads_beyond p hart level n || (leb 64 (suc n) && is_enabled p hart level (suc n))

-- `none` is a failed assertion.
unfoldable pub next_pending_irq : SifivePlic → ℕ → ℕ → Bool → Option ℕ
unfolding select is_candidate reads_beyond
next_pending_irq p hart level ignth =
    if p.fu540_mode && (hart == 0 && level == supervisor_mode)
    then none
    else if reads_beyond p hart level p.numirq
    then none
    else some (select (is_candidate p hart level ignth) (priority_of p) p.numirq).0

abbrev pub is_claim_access : ℕ → Bool
is_claim_access addr = addr / 4 % 2 == 1

-- The registers that the write of the claim register and the clear of the pending bit leave.
unfoldable pub claim_irq : SifivePlic → ℕ → ℕ → ℕ → SifivePlic
unfolding clear_pending
claim_irq p hart level irq =
    let claimed = record p { claim = set_at_2 p.claim hart (view p hart level) irq } in
    if irq != 0 then clear_pending claimed irq else claimed

unfoldable pub read_hartctx : SifivePlic → ℕ → ℕ → ℕ → Option SifivePlic
unfolding next_pending_irq claim_irq
read_hartctx p addr hart level =
    if is_claim_access addr
    then elim (next_pending_irq p hart level true) [
      | none ↦ none
      | some irq ↦ some (claim_irq p hart level irq)
    ]
    else some p

abbrev pub max_thr : ℕ
max_thr = 7

abbrev pub max_prio : ℕ
max_prio = 7

-- `target_harts`.
abbrev pub Harts : Type 0
Harts = ℕ → Core

abbrev pub set_hart : Harts → ℕ → Core → Harts
set_hart harts hart core j = if j == hart then core else harts j

-- What the register range does before the callback: the word `value` is stored in a context register.
unfoldable pub store_hartctx : SifivePlic → ℕ → ℕ → ℕ → ℕ → SifivePlic
store_hartctx p addr hart level value =
    let l = view p hart level in
    if addr / 4 == 0
    then record p { threshold = set_at_2 p.threshold hart l value }
    else if addr / 4 == 1
    then record p { claim = set_at_2 p.claim hart l value }
    else record p {
      context_rest = λ h k word.
          if h == hart && k == l && word == addr / 4 then value else p.context_rest h k word;
    }

-- A write of the word `value` to a context register, with its callback, which asserts that it is one
-- word.
unfoldable pub write_hartctx : SifivePlic → Harts → ℕ → ℕ → ℕ → ℕ → SifivePlic × Harts
unfolding store_hartctx clear_external_interrupt
write_hartctx p harts addr hart level value =
    let stored = store_hartctx p addr hart level value in
    let thr = min (get_threshold stored hart level) max_thr in
    if is_claim_access addr
    then (stored, set_hart harts hart (clear_external_interrupt (harts hart) level))
    else (
      record stored { threshold = set_at_2 stored.threshold hart (view stored hart level) thr },
      harts,
    )

-- What the register range does before the callback: the words are stored from register `idx` up.
unfoldable pub store_irq_prios : SifivePlic → ℕ → List ℕ → SifivePlic
store_irq_prios p idx [] = p
store_irq_prios p idx (value ∷ values) =
    let rest = store_irq_prios p (suc idx) values in
    record rest { interrupt_priorities = set_at rest.interrupt_priorities idx value }

-- A write of words to the priority registers from `idx` up, with its callback, which looks at the
-- first of them only.
unfoldable pub write_irq_prios : SifivePlic → ℕ → List ℕ → SifivePlic
unfolding store_irq_prios
write_irq_prios p idx values =
    let stored = store_irq_prios p idx values in
    let elem = min (stored.interrupt_priorities idx) max_prio in
    record stored { interrupt_priorities = set_at stored.interrupt_priorities idx elem }

-- The level is the result where there is one.
unfoldable pub has_pending_irq : SifivePlic → ℕ → Option (Option ℕ)
unfolding next_pending_irq
has_pending_irq p hart =
    let supervisor =
      if p.fu540_mode && hart == 0 then some 0 else next_pending_irq p hart supervisor_mode false in
    elim supervisor [
      | none ↦ none
      | some irq ↦
          if ltb 0 irq
          then some (some supervisor_mode)
          else elim (next_pending_irq p hart machine_mode false) [
            | none ↦ none
            | some irq' ↦ if ltb 0 irq' then some (some machine_mode) else some none
          ]
    ]

-- One wake-up of `run`, for the first `n` harts.
unfoldable pub run : SifivePlic → ℕ → Harts → Option Harts
unfolding has_pending_irq trigger_external_interrupt
run p zero harts = some harts
run p (suc n) harts = elim (run p n harts) [
  | none ↦ none
  | some harts' ↦ elim (has_pending_irq p n) [
    | none ↦ none
    | some none ↦ some harts'
    | some (some level) ↦ some (set_hart harts' n (trigger_external_interrupt (harts' n) level))
  ]
]
