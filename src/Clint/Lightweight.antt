-- ===== src/Clint/Lightweight.antt =====
-- vp/src/core/common/lwrt_clint.h: `LWRT_CLINT`, whose time is the host's. The operations that differ
-- from those of `CLINT`: `host_time` is the host's clock, in microseconds since the start, and the rest
-- of the state is that of `CLINT` without its event.
use riscv_vp_plusplus.Base.{
  ℕ, zero, suc, ◌+◌, ◌*◌, ◌/◌, ◌≡◌, ◌≢◌, ◌≤◌, ◌<◌, refl, sym, ◌∙◌, arith, true, false, inl, inr,
  ◌⊎◌, List, Bool, Option, ltb, ◌==◌, ==_ne, Bool-cases, if-both, if◌then◌else◌,
}
use mathlib.Core.Path.{subst}
use riscv_vp_plusplus.Rv32.Trap.Lines.{trigger_timer_interrupt, clear_timer_interrupt}
use riscv_vp_plusplus.Rv32.Exec.{bool_to_reg}
use riscv_vp_plusplus.Clint.{Clint, mtime, mtimecmp, set_mtime, set_target, is_due, ranges_with}
use riscv_vp_plusplus.Util.MemoryMap.{Command, route}
use riscv_vp_plusplus.Clint.Timer.{timer_line, ==_refl, IsTimeReached, IsTimeAhead, is_due-cases}

unfoldable pub lwrt_update_and_get_mtime : ℕ → Clint → Clint
lwrt_update_and_get_mtime host_time c = if ltb (mtime c) host_time then set_mtime c host_time else c

-- The body of the loop in `run` raises the line only.
unfoldable pub poll_hart : ℕ → Clint → Clint
poll_hart i c =
    if is_due c i then set_target i (trigger_timer_interrupt (c.target_harts i)) c else c

unfoldable pub poll_harts : (count i : ℕ) → Clint → Clint
unfolding poll_hart
poll_harts zero i c = c
poll_harts (suc count) i c = poll_harts count (suc i) (poll_hart i c)

-- A round of `run`, after its wait.
unfoldable pub lwrt_run : ℕ → Clint → Clint
unfolding lwrt_update_and_get_mtime poll_harts
lwrt_run host_time c = poll_harts c.number_of_cores 0 (lwrt_update_and_get_mtime host_time c)

unfoldable pub lwrt_post_write_mtimecmp : Clint → ℕ → ℕ → Clint
lwrt_post_write_mtimecmp c local_addr n =
    let i = local_addr / 8 in
    if is_due c i
    then set_target i (trigger_timer_interrupt (c.target_harts i)) c
    else set_target i (clear_timer_interrupt (c.target_harts i)) c

-- The delay of the access, in picoseconds, is added to a time in microseconds.
unfoldable pub lwrt_pre_read_mtime : ℕ → Clint → ℕ → ℕ → Clint × Bool
lwrt_pre_read_mtime host_time c local_addr n = (set_mtime c (host_time + c.delay), true)

unfoldable pub lwrt_transport : ℕ → Clint → ℕ → ℕ → Command → Option (Clint × List ℕ)
unfolding route ranges_with lwrt_pre_read_mtime lwrt_post_write_mtimecmp
lwrt_transport host_time c delay addr command =
    let ranges = ranges_with (lwrt_pre_read_mtime host_time) lwrt_post_write_mtimecmp in
    route ranges (record c { delay = delay + c.access_delay }) addr command

poll_hart-cases :
    (P : Clint → Type 0) (i : ℕ) (c : Clint)
    → (is_due c i ≡ true → P (set_target i (trigger_timer_interrupt (c.target_harts i)) c))
    → (is_due c i ≡ false → P c)
    → P (poll_hart i c)
unfolding poll_hart
poll_hart-cases P i c due idle = elim (Bool-cases (is_due c i)) [
  | inl e ↦ rw (poll_hart, e) (due e)
  | inr e ↦ rw (poll_hart, e) (idle e)
]

poll_hart-is_due : (i j : ℕ) (c : Clint) → is_due (poll_hart i c) j ≡ is_due c j
poll_hart-is_due i j c =
    poll_hart-cases (λ c'. is_due c' j ≡ is_due c j) i c (λ e. refl) (λ e. refl)

poll_hart-other : (i j : ℕ) (c : Clint) → j ≢ i → timer_line (poll_hart i c) j ≡ timer_line c j
poll_hart-other i j c h =
    poll_hart-cases (λ c'. timer_line c' j ≡ timer_line c j) i c (λ e. rw (==_ne j i h) refl)
      (λ e. refl)

-- A round raises the line of the hart, or leaves it as it is.
abbrev PolledLine : Clint → Clint → ℕ → Type 0
PolledLine c c' j = timer_line c' j ≡ (if is_due c j then 1 else timer_line c j)

poll_hart-line : (i : ℕ) (c : Clint) → PolledLine c (poll_hart i c) i
unfolding trigger_timer_interrupt
poll_hart-line i c =
    poll_hart-cases (λ c'. PolledLine c c' i) i c (λ e. rw (==_refl i, e) (omega arith))
      (λ e. rw e refl)

poll_harts-other :
    (count i j : ℕ) (c : Clint) → j < i → timer_line (poll_harts count i c) j ≡ timer_line c j
unfolding poll_harts
poll_harts-other zero i j c h = refl
poll_harts-other (suc count) i j c h =
    poll_harts-other count (suc i) j (poll_hart i c) (omega arith)
    ∙ poll_hart-other i j c (omega arith)

poll_harts-line :
    (count i j : ℕ) (c : Clint) → i ≤ j → j < i + count → PolledLine c (poll_harts count i c) j
unfolding poll_harts
poll_harts-line zero i j c low high = absurd (omega arith)
poll_harts-line (suc count) i j c low high = elim (Bool-cases (j == i)) [
  | inl here ↦
      let e : j ≡ i = ground arith in
      subst (λ (k : ℕ). PolledLine c (poll_harts count (suc i) (poll_hart i c)) k) (sym e)
        (poll_harts-other count (suc i) i (poll_hart i c) (omega arith) ∙ poll_hart-line i c)
  | inr later ↦
      let ne : j ≢ i = ground arith in
      poll_harts-line count (suc i) j (poll_hart i c) (omega arith) (omega arith)
      ∙ rw (poll_hart-is_due i j c, poll_hart-other i j c ne) refl
]

lwrt_update_and_get_mtime-timer_line :
    (host_time : ℕ) (c : Clint) (i : ℕ)
    → (mtimecmp (lwrt_update_and_get_mtime host_time c) i ≡ mtimecmp c i)
      × (timer_line (lwrt_update_and_get_mtime host_time c) i ≡ timer_line c i)
unfolding lwrt_update_and_get_mtime
lwrt_update_and_get_mtime-timer_line host_time c i =
    if-both (λ c'. (mtimecmp c' i ≡ mtimecmp c i) × (timer_line c' i ≡ timer_line c i))
      (ltb (mtime c) host_time) _ c (refl, refl) (refl, refl)

-- After a round of `run` of the lightweight CLINT, the timer interrupt of each of its harts is
-- pending where its mtimecmp is not zero and the time that the round has read is at least that,
-- and is as it was, never cleared, where mtimecmp is zero or above that time.
pub lwrt_run-timer_line :
    (host_time : ℕ) (c : Clint) (i : ℕ)
    → i < c.number_of_cores
    → (IsTimeReached (mtimecmp c i) (mtime (lwrt_update_and_get_mtime host_time c))
        × (timer_line (lwrt_run host_time c) i ≡ 1))
      ⊎ (IsTimeAhead (mtimecmp c i) (mtime (lwrt_update_and_get_mtime host_time c))
          × (timer_line (lwrt_run host_time c) i ≡ timer_line c i))
unfolding lwrt_run
lwrt_run-timer_line host_time c i h =
    let c1 = lwrt_update_and_get_mtime host_time c in
    let polled : PolledLine c1 (poll_harts c.number_of_cores 0 c1) i =
      poll_harts-line c.number_of_cores 0 i c1 (omega arith) (omega arith) in
    let (same, before) = lwrt_update_and_get_mtime-timer_line host_time c i in
    elim (is_due-cases c1 i) [
      | inl (e, reached) ↦ inl (rw same at reached, rw e at polled)
      | inr (e, ahead) ↦ inr (rw same at ahead, (rw e at polled) ∙ before)
    ]

-- After a write of the comparison value of a hart its timer interrupt is pending exactly where it is due.
lwrt_post_write_mtimecmp-timer_line :
    (c : Clint) (i n : ℕ)
    → timer_line (lwrt_post_write_mtimecmp c (8 * i) n) i ≡ bool_to_reg (is_due c i)
unfolding lwrt_post_write_mtimecmp trigger_timer_interrupt clear_timer_interrupt
lwrt_post_write_mtimecmp-timer_line c i n =
    let at : 8 * i / 8 ≡ i = omega arith in
    elim (Bool-cases (is_due c i)) [
      | inl e ↦ rw (lwrt_post_write_mtimecmp, at, e, ==_refl i) (omega arith)
      | inr e ↦ rw (lwrt_post_write_mtimecmp, at, e, ==_refl i) (omega arith)
    ]
