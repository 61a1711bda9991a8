-- ===== src/Fe310.antt =====
-- vp/src/platform/common/fe310_plic.h: `FE310_PLIC`, the interrupt controller of the FE310, on its register
-- ranges. A failed assertion of a callback is not in the state: the definitions go on past it as the
-- source does without assertions.
pub mod Delivery
use riscv_vp_plusplus.Base.{
  ℕ, zero, suc, ◌+◌, ◌-◌, ◌*◌, ◌/◌, ◌%◌, ◌^◌, bit_and, bit_or, Bool, true, false, not, ◌&&◌, ◌||◌,
  ◌==◌, ◌!=◌, ltb, List, [], ◌∷◌, Option, if◌then◌else◌,
}
use Prim.Native.Nat.{min}
use riscv_vp_plusplus.Plic.{select}
use riscv_vp_plusplus.Util.MemoryMap.{RegisterRange, Register, Command, route, view_32, set_view_32}
use riscv_vp_plusplus.Rv32.State.{Core, bit_not}
use riscv_vp_plusplus.Rv32.Trap.Lines.{trigger_external_interrupt, clear_external_interrupt}

pub record Fe310Plic : Type 0 where
  pub number_cores : ℕ
  pub number_interrupts : ℕ
  pub max_priority : ℕ
  pub regs_interrupt_priorities : RegisterRange
  pub regs_pending_interrupts : RegisterRange
  pub regs_hart_enabled_interrupts : RegisterRange
  pub regs_hart_config : RegisterRange
  pub irq_level : ℕ
  pub hart_eip : ℕ → Bool
  pub target_harts : ℕ → Core

abbrev pub interrupt_priorities : Fe310Plic → ℕ → ℕ
interrupt_priorities p i = view_32 p.regs_interrupt_priorities i

abbrev pub pending_interrupts : Fe310Plic → ℕ → ℕ
pending_interrupts p idx = view_32 p.regs_pending_interrupts idx

-- The row size of the view is one.
abbrev pub hart_enabled_interrupts : Fe310Plic → ℕ → ℕ → ℕ
hart_enabled_interrupts p n i = view_32 p.regs_hart_enabled_interrupts (n * 1 + i)

-- `HartConfig` is two words.
abbrev pub priority_threshold : Fe310Plic → ℕ → ℕ
priority_threshold p hart_id = view_32 p.regs_hart_config (2 * hart_id)

abbrev pub set_pending : Fe310Plic → ℕ → ℕ → Fe310Plic
set_pending p idx value = record p {
  regs_pending_interrupts = set_view_32 p.regs_pending_interrupts idx value;
}

unfoldable pub fe310_gateway_trigger_interrupt : Fe310Plic → ℕ → Fe310Plic
fe310_gateway_trigger_interrupt p irq_id =
    let idx = irq_id / 32 in
    let off = irq_id % 32 in set_pending p idx (bit_or (pending_interrupts p idx) (2 ^ off))

unfoldable pub clear_pending_interrupt : Fe310Plic → ℕ → Fe310Plic
clear_pending_interrupt p irq_id =
    let idx = irq_id / 32 in
    let off = irq_id % 32 in
    set_pending p idx (bit_and (pending_interrupts p idx) (bit_not (2 ^ off)))

-- The tests in the loop, but for the comparison with the highest priority so far.
abbrev pub is_next_candidate : Fe310Plic → ℕ → Bool → ℕ → Bool
is_next_candidate p hart_id consider_threshold i =
    let prio = interrupt_priorities p i in
    bit_and (hart_enabled_interrupts p hart_id (i / 32)) (2 ^ (i % 32)) != 0
    && (bit_and (pending_interrupts p (i / 32)) (2 ^ (i % 32)) != 0
        && (ltb 0 prio && (not consider_threshold || ltb (priority_threshold p hart_id) prio)))

unfoldable pub hart_get_next_pending_interrupt : Fe310Plic → ℕ → Bool → ℕ
unfolding select
hart_get_next_pending_interrupt p hart_id consider_threshold =
    (select (is_next_candidate p hart_id consider_threshold) (interrupt_priorities p)
      (p.number_interrupts - 1)).0

unfoldable pub hart_has_pending_enabled_interrupts : Fe310Plic → ℕ → Bool
unfolding hart_get_next_pending_interrupt
hart_has_pending_enabled_interrupts p hart_id =
    ltb 0 (hart_get_next_pending_interrupt p hart_id true)

-- The loop over the view, whose `end` is the last element: it leaves that one as it is.
unfoldable pub clip_priorities : (count : ℕ) → Fe310Plic → Fe310Plic
clip_priorities zero p = p
clip_priorities (suc count) p =
    let clipped = clip_priorities count p in
    let x = interrupt_priorities clipped count in
    record clipped {
      regs_interrupt_priorities =
          set_view_32 clipped.regs_interrupt_priorities count (min x p.max_priority);
    }

unfoldable pub post_write_interrupt_priorities : Fe310Plic → ℕ → ℕ → Fe310Plic
unfolding clip_priorities
post_write_interrupt_priorities p local_addr n = clip_priorities p.number_interrupts p

unfoldable pub pre_read_hart_config : Fe310Plic → ℕ → ℕ → Fe310Plic × Bool
unfolding hart_get_next_pending_interrupt clear_pending_interrupt
pre_read_hart_config p local_addr n =
    let idx = local_addr / 4 in
    if idx % 2 == 1
    then (let min_id = hart_get_next_pending_interrupt p 0 false in
        let claimed = record p {
          regs_hart_config = set_view_32 p.regs_hart_config (2 * (idx - 1) + 1) min_id;
        } in
        (clear_pending_interrupt claimed min_id, true))
    else (p, true)

abbrev pub set_eip : Fe310Plic → ℕ → Bool → Core → Fe310Plic
set_eip p i eip core = record p {
  hart_eip = λ j. if j == i then eip else p.hart_eip j;
  target_harts = λ j. if j == i then core else p.target_harts j;
}

unfoldable pub post_write_hart_config : Fe310Plic → ℕ → ℕ → Fe310Plic
unfolding hart_has_pending_enabled_interrupts
post_write_hart_config p local_addr n =
    let idx = local_addr / 4 in
    let hart = idx - 1 in
    if idx % 2 == 1
    then if hart_has_pending_enabled_interrupts p hart
      then set_eip p hart (p.hart_eip hart)
          (trigger_external_interrupt (p.target_harts hart) p.irq_level)
      else set_eip p hart false (clear_external_interrupt (p.target_harts hart) p.irq_level)
    else p

-- The body of the loop in `run`, and the loop with `count` harts left from hart `i` up.
unfoldable pub run_hart : ℕ → Fe310Plic → Fe310Plic
unfolding hart_has_pending_enabled_interrupts
run_hart i p =
    if not (p.hart_eip i) && hart_has_pending_enabled_interrupts p i
    then set_eip p i true (trigger_external_interrupt (p.target_harts i) p.irq_level)
    else p

unfoldable pub run_harts : (count i : ℕ) → Fe310Plic → Fe310Plic
unfolding run_hart
run_harts zero i p = p
run_harts (suc count) i p = run_harts count (suc i) (run_hart i p)

unfoldable pub fe310_run : Fe310Plic → Fe310Plic
unfolding run_harts
fe310_run p = run_harts p.number_cores 0 p

abbrev no_callback : Fe310Plic → ℕ → ℕ → Fe310Plic
no_callback p local_addr n = p

abbrev pass : Fe310Plic → ℕ → ℕ → Fe310Plic × Bool
pass p local_addr n = (p, true)

unfoldable pub fe310_register_ranges : List (Register Fe310Plic)
unfolding pre_read_hart_config post_write_hart_config post_write_interrupt_priorities
fe310_register_ranges =
    record {
      range = λ p. p.regs_interrupt_priorities;
      with_range = λ p r. record p { regs_interrupt_priorities = r };
      pre_write = pass;
      post_write = post_write_interrupt_priorities;
      pre_read = pass;
      post_read = no_callback;
    }
    ∷ record {
      range = λ p. p.regs_pending_interrupts;
      with_range = λ p r. record p { regs_pending_interrupts = r };
      pre_write = pass;
      post_write = no_callback;
      pre_read = pass;
      post_read = no_callback;
    }
    ∷ record {
      range = λ p. p.regs_hart_enabled_interrupts;
      with_range = λ p r. record p { regs_hart_enabled_interrupts = r };
      pre_write = pass;
      post_write = no_callback;
      pre_read = pass;
      post_read = no_callback;
    }
    ∷ record {
      range = λ p. p.regs_hart_config;
      with_range = λ p r. record p { regs_hart_config = r };
      pre_write = pass;
      post_write = post_write_hart_config;
      pre_read = pre_read_hart_config;
      post_read = no_callback;
    }
    ∷ []

unfoldable pub fe310_transport : Fe310Plic → ℕ → Command → Option (Fe310Plic × List ℕ)
unfolding route fe310_register_ranges
fe310_transport p addr command = route fe310_register_ranges p addr command
