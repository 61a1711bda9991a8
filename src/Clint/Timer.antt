-- ===== src/Clint/Timer.antt =====
-- vp/src/core/common/clint.h: what the registers of the CLINT and the interrupt lines of the harts are
-- after its operations.
use riscv_vp_plusplus.Base.{
  ℕ, zero, suc, ◌+◌, ◌*◌, ◌/◌, ◌%◌, ◌^◌, ◌≡◌, ◌≢◌, ◌≤◌, ◌<◌, refl, sym, ap, ◌∙◌, arith, bit_and,
  ltb, true, false, inl, inr, ◌⊎◌, List, ◌==◌, ◌!=◌, ==_ne, Bool-cases, if-both, bit_and_ones,
}
use mathlib.Core.Path.{subst}
use riscv_vp_plusplus.Util.MemoryMap.{
  RegisterRange, read_bytes, write_bytes, view_64, set_view_64, view_32, set_view_32,
}
use riscv_vp_plusplus.Util.MemoryMap.Laws.{read_bytes-write_bytes}
use riscv_vp_plusplus.Rv32.Csrs.{get_field}
use riscv_vp_plusplus.Rv32.Exec.{bool_to_reg}
use riscv_vp_plusplus.Rv32.Trap.Lines.{
  trigger_timer_interrupt, clear_timer_interrupt, trigger_software_interrupt,
  clear_software_interrupt,
}
use riscv_vp_plusplus.Clint.{
  Clint, Notification, set_target, mtime, mtimecmp, msip, set_mtime, is_due, update_and_get_mtime,
  process_hart, process_harts, run_timers, pre_read_mtime, post_write_msip,
}

pub view_64-set_view_64 :
    (r : RegisterRange) (idx value : ℕ) → view_64 (set_view_64 r idx value) idx ≡ value % 2 ^ 64
unfolding read_bytes write_bytes
view_64-set_view_64 r idx value = read_bytes-write_bytes r.mem (idx * 8) 8 value

pub view_32-set_view_32 :
    (r : RegisterRange) (idx value : ℕ) → view_32 (set_view_32 r idx value) idx ≡ value % 2 ^ 32
unfolding read_bytes write_bytes
view_32-set_view_32 r idx value = read_bytes-write_bytes r.mem (idx * 4) 4 value

-- While the time of the simulation in units of the scaler has 64 bits, `update_and_get_mtime`
-- never takes mtime back, leaves it at least at the time of the simulation, and leaves one of
-- these two.
pub update_and_get_mtime-monotone :
    (c : Clint)
    → c.now / c.scaler < 2 ^ 64
    → (mtime c ≤ mtime (update_and_get_mtime c))
      × (c.now / c.scaler ≤ mtime (update_and_get_mtime c))
      × ((mtime (update_and_get_mtime c) ≡ mtime c)
          ⊎ (mtime (update_and_get_mtime c) ≡ c.now / c.scaler))
unfolding update_and_get_mtime
update_and_get_mtime-monotone c h =
    let stored : mtime (set_mtime c (c.now / c.scaler)) ≡ c.now / c.scaler % 2 ^ 64 =
      view_64-set_view_64 c.regs_mtime 0 (c.now / c.scaler) in
    ground arith

-- A read of mtime sets it to the time of the simulation with the delay of the access, in units of
-- the scaler, while that has 64 bits, whatever it was before.
pub pre_read_mtime-mtime :
    (c : Clint) (local_addr n : ℕ)
    → (c.now + c.delay) / c.scaler < 2 ^ 64
    → mtime (pre_read_mtime c local_addr n).0 ≡ (c.now + c.delay) / c.scaler
unfolding pre_read_mtime
pre_read_mtime-mtime c local_addr n h =
    let stored = view_64-set_view_64 c.regs_mtime 0 ((c.now + c.delay) / c.scaler) in
    omega (arith, stored)

-- The timer bit of a hart.
abbrev pub timer_line : Clint → ℕ → ℕ
timer_line c i = get_field 7 1 (c.target_harts i).csrs.mip

abbrev pub software_line : Clint → ℕ → ℕ
software_line c i = get_field 3 1 (c.target_harts i).csrs.mip

-- The three ends of the body of the loop.
process_hart-cases :
    (P : Clint → Type 0) (i : ℕ) (c : Clint)
    → (is_due c i ≡ true → P (set_target i (trigger_timer_interrupt (c.target_harts i)) c))
    → (is_due c i ≡ false
        → (events : List Notification)
        → P (record (set_target i (clear_timer_interrupt (c.target_harts i)) c) {
          irq_event = events;
        }))
    → P (process_hart i c)
unfolding process_hart
process_hart-cases P i c due idle = elim (Bool-cases (is_due c i)) [
  | inl e ↦ rw (process_hart, e) (due e)
  | inr e ↦ rw (process_hart, e) (if-both P _ _ _ (idle e _) (idle e _))
]

process_hart-is_due : (i j : ℕ) (c : Clint) → is_due (process_hart i c) j ≡ is_due c j
process_hart-is_due i j c =
    process_hart-cases (λ c'. is_due c' j ≡ is_due c j) i c (λ e. refl) (λ e events. refl)

process_hart-other :
    (i j : ℕ) (c : Clint) → j ≢ i → timer_line (process_hart i c) j ≡ timer_line c j
process_hart-other i j c h =
    process_hart-cases (λ c'. timer_line c' j ≡ timer_line c j) i c (λ e. rw (==_ne j i h) refl)
      (λ e events. rw (==_ne j i h) refl)

pub ==_refl : (i : ℕ) → (i == i) ≡ true
==_refl i = ground arith

process_hart-line : (i : ℕ) (c : Clint) → timer_line (process_hart i c) i ≡ bool_to_reg (is_due c i)
unfolding trigger_timer_interrupt clear_timer_interrupt
process_hart-line i c =
    process_hart-cases (λ c'. timer_line c' i ≡ bool_to_reg (is_due c i)) i c
      (λ e. rw (==_refl i, e) (omega arith)) (λ e events. rw (==_refl i, e) (omega arith))

process_harts-other :
    (count i j : ℕ) (c : Clint) → j < i → timer_line (process_harts count i c) j ≡ timer_line c j
unfolding process_harts
process_harts-other zero i j c h = refl
process_harts-other (suc count) i j c h =
    process_harts-other count (suc i) j (process_hart i c) (omega arith)
    ∙ process_hart-other i j c (omega arith)

process_harts-line :
    (count i j : ℕ) (c : Clint)
    → i ≤ j
    → j < i + count
    → timer_line (process_harts count i c) j ≡ bool_to_reg (is_due c j)
unfolding process_harts
process_harts-line zero i j c low high = absurd (omega arith)
process_harts-line (suc count) i j c low high = elim (Bool-cases (j == i)) [
  | inl here ↦
      let e : j ≡ i = ground arith in
      subst
        (λ (k : ℕ).
          timer_line (process_harts count (suc i) (process_hart i c)) k ≡ bool_to_reg (is_due c k))
        (sym e)
        (process_harts-other count (suc i) i (process_hart i c) (omega arith)
          ∙ process_hart-line i c)
  | inr later ↦
      let ne : j ≢ i = ground arith in
      process_harts-line count (suc i) j (process_hart i c) (omega arith) (omega arith)
      ∙ ap bool_to_reg (process_hart-is_due i j c)
]

-- A comparison value that is not zero and that the time has reached, and any other one.
abbrev pub IsTimeReached : ℕ → ℕ → Type 0
IsTimeReached cmp time = (cmp ≢ 0) × (cmp ≤ time)

abbrev pub IsTimeAhead : ℕ → ℕ → Type 0
IsTimeAhead cmp time = (cmp ≡ 0) ⊎ (time < cmp)

pub is_due-cases :
    (c : Clint) (i : ℕ)
    → ((is_due c i ≡ true) × IsTimeReached (mtimecmp c i) (mtime c))
      ⊎ ((is_due c i ≡ false) × IsTimeAhead (mtimecmp c i) (mtime c))
is_due-cases c i = elim (Bool-cases (is_due c i)) [
  | inl e ↦ inl (e, (ground arith, ground arith))
  | inr e ↦ inr (e, ground arith)
]

update_and_get_mtime-mtimecmp :
    (c : Clint) (i : ℕ) → mtimecmp (update_and_get_mtime c) i ≡ mtimecmp c i
unfolding update_and_get_mtime
update_and_get_mtime-mtimecmp c i =
    if-both (λ c'. mtimecmp c' i ≡ mtimecmp c i) (ltb (mtime c) (c.now / c.scaler)) _ c refl refl

-- After a round of `run`, the timer interrupt of each hart of the CLINT is pending in its mip
-- where its mtimecmp is not zero and the time that the round has read is at least that, and is not
-- pending where mtimecmp is zero or above that time.
pub run_timers-timer_line :
    (c : Clint) (i : ℕ)
    → i < c.number_of_cores
    → (IsTimeReached (mtimecmp c i) (mtime (update_and_get_mtime c))
        × (timer_line (run_timers c) i ≡ 1))
      ⊎ (IsTimeAhead (mtimecmp c i) (mtime (update_and_get_mtime c))
          × (timer_line (run_timers c) i ≡ 0))
unfolding run_timers
run_timers-timer_line c i h =
    let c1 = update_and_get_mtime c in
    let line = process_harts-line c.number_of_cores 0 i c1 (omega arith) (omega arith) in
    let same = update_and_get_mtime-mtimecmp c i in
    elim (is_due-cases c1 i) [
      | inl (e, reached) ↦ inl (rw same at reached, line ∙ ap bool_to_reg e)
      | inr (e, ahead) ↦ inr (rw same at ahead, line ∙ ap bool_to_reg e)
    ]

-- After the callback of a write at the msip register of a hart, the register holds the lowest bit
-- of the word in it, and the software interrupt of the hart is pending in its mip exactly where
-- that is set.
pub post_write_msip-software_line :
    (c : Clint) (i n : ℕ)
    → (software_line (post_write_msip c (4 * i) n) i ≡ msip c i % 2)
      × (msip (post_write_msip c (4 * i) n) i ≡ msip c i % 2)
unfolding post_write_msip trigger_software_interrupt clear_software_interrupt
post_write_msip-software_line c i n =
    let at : 4 * i / 4 ≡ i = omega arith in
    let masked : bit_and (msip c i) 1 ≡ msip c i % 2 = bit_and_ones 1 (msip c i) in
    let stored : msip (record c { regs_msip = set_view_32 c.regs_msip i (msip c i % 2) }) i
        ≡ msip c i % 2 % 2 ^ 32 =
      view_32-set_view_32 c.regs_msip i (msip c i % 2) in
    elim (Bool-cases (msip c i % 2 != 0)) [
      | inl e ↦ rw (post_write_msip, at, masked, e, ==_refl i) (ground arith, omega (arith, stored))
      | inr e ↦ rw (post_write_msip, at, masked, e, ==_refl i) (ground arith, omega (arith, stored))
    ]
