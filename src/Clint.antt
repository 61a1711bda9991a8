-- ===== src/Clint.antt =====
-- vp/src/core/common/clint.h: `CLINT`, the timer and the software interrupts of the harts. SystemC is
-- outside: its time is a field, and what is sent to its event is kept in a list, the latest first.
pub mod Timer
pub mod Lightweight
use riscv_vp_plusplus.Base.{
  ℕ, zero, suc, ◌+◌, ◌-◌, ◌*◌, ◌/◌, ◌%◌, ◌^◌, bit_and, Bool, true, false, ◌&&◌, ◌==◌, ◌!=◌, ltb,
  leb, List, [], ◌∷◌, Option, if◌then◌else◌,
}
use riscv_vp_plusplus.Util.MemoryMap.{
  RegisterRange, Register, Command, route, view_64, set_view_64, view_32, set_view_32,
}
use riscv_vp_plusplus.Rv32.State.{Core}
use riscv_vp_plusplus.Rv32.Trap.Lines.{
  trigger_timer_interrupt, clear_timer_interrupt, trigger_software_interrupt,
  clear_software_interrupt,
}

-- What `irq_event.notify` is called with: the delay of a transaction, or `goal - time`.
pub data Notification : Type 0 where
  after : ℕ → Notification
  between : (goal time : ℕ) → Notification

-- `now` is the value of `sc_time_stamp()`, and `delay` that of the transaction that is processed.
pub record Clint : Type 0 where
  pub number_of_cores : ℕ
  pub scaler : ℕ
  pub access_delay : ℕ
  pub regs_mtime : RegisterRange
  pub regs_mtimecmp : RegisterRange
  pub regs_msip : RegisterRange
  pub target_harts : ℕ → Core
  pub irq_event : List Notification
  pub now : ℕ
  pub delay : ℕ

abbrev pub mtime : Clint → ℕ
mtime c = view_64 c.regs_mtime 0

abbrev pub mtimecmp : Clint → ℕ → ℕ
mtimecmp c i = view_64 c.regs_mtimecmp i

abbrev pub msip : Clint → ℕ → ℕ
msip c i = view_32 c.regs_msip i

abbrev pub set_mtime : Clint → ℕ → Clint
set_mtime c value = record c { regs_mtime = set_view_64 c.regs_mtime 0 value }

abbrev pub set_target : ℕ → Core → Clint → Clint
set_target i core c = record c { target_harts = λ j. if j == i then core else c.target_harts j }

abbrev pub notify : Notification → Clint → Clint
notify n c = record c { irq_event = n ∷ c.irq_event }

unfoldable pub update_and_get_mtime : Clint → Clint
update_and_get_mtime c =
    let now = c.now / c.scaler in if ltb (mtime c) now then set_mtime c now else c

-- `cmp > 0 && mtime >= cmp`.
abbrev pub is_due : Clint → ℕ → Bool
is_due c i = ltb 0 (mtimecmp c i) && leb (mtimecmp c i) (mtime c)

-- The body of the loop in `run`.
unfoldable pub process_hart : ℕ → Clint → Clint
process_hart i c =
    let cmp = mtimecmp c i in
    if is_due c i
    then set_target i (trigger_timer_interrupt (c.target_harts i)) c
    else let cleared = set_target i (clear_timer_interrupt (c.target_harts i)) c in
      if ltb 0 cmp && ltb cmp (2 ^ 64 - 1)
      then notify (between (cmp * c.scaler % 2 ^ 64) (mtime c * c.scaler % 2 ^ 64)) cleared
      else cleared

-- The loop with `count` harts left, from hart `i` up.
unfoldable pub process_harts : (count i : ℕ) → Clint → Clint
unfolding process_hart
process_harts zero i c = c
process_harts (suc count) i c = process_harts count (suc i) (process_hart i c)

-- A round of `run`, after the event.
unfoldable pub run_timers : Clint → Clint
unfolding update_and_get_mtime process_harts
run_timers c = process_harts c.number_of_cores 0 (update_and_get_mtime c)

unfoldable pub pre_read_mtime : Clint → ℕ → ℕ → Clint × Bool
pre_read_mtime c local_addr n = (set_mtime c ((c.now + c.delay) / c.scaler), true)

unfoldable pub post_write_mtimecmp : Clint → ℕ → ℕ → Clint
post_write_mtimecmp c local_addr n = notify (after c.delay) c

unfoldable pub post_write_msip : Clint → ℕ → ℕ → Clint
post_write_msip c local_addr n =
    let idx = local_addr / 4 in
    let masked = bit_and (msip c idx) 0x1 in
    let stored = record c { regs_msip = set_view_32 c.regs_msip idx masked } in
    if masked != 0
    then set_target idx (trigger_software_interrupt (c.target_harts idx)) stored
    else set_target idx (clear_software_interrupt (c.target_harts idx)) stored

abbrev no_callback : Clint → ℕ → ℕ → Clint
no_callback c local_addr n = c

abbrev pass : Clint → ℕ → ℕ → Clint × Bool
pass c local_addr n = (c, true)

-- The ranges of a CLINT with the callbacks of mtime and mtimecmp.
unfoldable pub ranges_with :
    (pre_read_mtime : Clint → ℕ → ℕ → Clint × Bool) (post_write_mtimecmp : Clint → ℕ → ℕ → Clint)
    → List (Register Clint)
unfolding post_write_msip
ranges_with pre_read_mtime post_write_mtimecmp =
    record {
      range = λ c. c.regs_mtime;
      with_range = λ c r. record c { regs_mtime = r };
      pre_write = pass;
      post_write = no_callback;
      pre_read = pre_read_mtime;
      post_read = no_callback;
    }
    ∷ record {
      range = λ c. c.regs_mtimecmp;
      with_range = λ c r. record c { regs_mtimecmp = r };
      pre_write = pass;
      post_write = post_write_mtimecmp;
      pre_read = pass;
      post_read = no_callback;
    }
    ∷ record {
      range = λ c. c.regs_msip;
      with_range = λ c r. record c { regs_msip = r };
      pre_write = pass;
      post_write = post_write_msip;
      pre_read = pass;
      post_read = no_callback;
    }
    ∷ []

unfoldable pub register_ranges : List (Register Clint)
unfolding pre_read_mtime post_write_mtimecmp ranges_with
register_ranges = ranges_with pre_read_mtime post_write_mtimecmp

unfoldable pub clint_transport : Clint → ℕ → ℕ → Command → Option (Clint × List ℕ)
unfolding route register_ranges
clint_transport c delay addr command =
    route register_ranges (record c { delay = delay + c.access_delay }) addr command
