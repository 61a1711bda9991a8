-- ===== src/Rv32/Step/Counting.antt =====
-- A turn of the loop keeps the count of the reservation, and with it the bus lock.
use mathlib.Core.Path.{subst}
use riscv_vp_plusplus.Base.{
  ◌≤◌, ◌!=◌, ℕ, ◌≡◌, ◌<◌, false, refl, inl, inr, ◌⊎◌, arith, Bool-cases, if-both, Option-cases, ltb,
  sym,
}
use riscv_vp_plusplus.Instr.OpId.{OpId}
use riscv_vp_plusplus.Mmu.Walk.{Access-cases}
use riscv_vp_plusplus.Mem.{MemState, load_instr, data_memory}
use riscv_vp_plusplus.Mem.Release.{load_instr-IsKeptOrFree}
use riscv_vp_plusplus.Rv32.Csrs.{get_field}
use riscv_vp_plusplus.Rv32.Csrs.Access.{Clocks}
use riscv_vp_plusplus.Rv32.State.{release_lr_sc_reservation, Core, Result-cases, ok_inj, ok}
use riscv_vp_plusplus.Rv32.Trap.{handle_trap, handle_interrupt}
use riscv_vp_plusplus.Rv32.Exec.Memory.{
  MemoryHart, MemoryOutcome, retired, trapped, stopped, MemoryCase, load_case, store_case, amo_case,
  lr_case, sc_case, no_case, exec_case,
}
use riscv_vp_plusplus.Rv32.Exec.System.{
  SystemOutcome, completed, tlb_flushed, faulted, waiting, failed, outside, commit_instructions,
}
use riscv_vp_plusplus.Rv32.Exec.System.Keeps.{
  Leaves, IsKept, exec_system-Leaves, commit_instructions-Good,
}
use riscv_vp_plusplus.Rv32.Step.{
  Machine, MachineConfig, Executed, executed, traps, sleeps, blocked, ended, unmodelled,
  system_hart, memory_hart, memory_state, with_memory, advance, interface, system_config,
  finish_memory, finish_system, execute_other, execute, finish, fetch_execute, fast_path, exec_step,
  slow_path, prepare_step, count_lr_sc, commit_all_and_reset_fast_quantum, decode_word,
}
use riscv_vp_plusplus.Rv32.Step.WellFormed.{then_ok-ok}
use riscv_vp_plusplus.Rv32.Step.Invariant.{EndsIn, execute-cases, exec_step-cases}
use riscv_vp_plusplus.Rv32.Step.Reservation.{
  IsFreeOrReserved, IsCounting, IsReleased, IsReleased-IsCounting, handle_trap-IsReleased,
  handle_interrupt-IsReleased, IsCounting-KeptBySystem, count_lr_sc-IsCounting,
}
use riscv_vp_plusplus.Rv32.Step.Holding.{
  IsQuiet, memory_case-IsQuiet, IsHeldCounting, IsKeptOrFree-IsHeldCounting,
  exec_case-IsHeldCounting,
}

abbrev pub Counts : {B : Type 0} → Machine B → Type 0
Counts m = IsCounting m.core

-- Where a trap is still to be taken nothing is asked: it releases the reservation.
abbrev Anything : {B : Type 0} → Machine B → Type 0
Anything m = Unit

-- The core that the slow path hands on: it counts, and it is nearer to the release.
abbrev pub CountsDown : Core → Core → Type 0
CountsDown before after =
    IsCounting after × ((after.lr_sc_counter ≡ 0) ⊎ (after.lr_sc_counter < before.lr_sc_counter))

count_lr_sc-CountsDown :
    (before c : Core)
    → IsFreeOrReserved c
    → c.lr_sc_counter ≤ 17
    → c.lr_sc_counter ≡ before.lr_sc_counter
    → CountsDown before (count_lr_sc c)
unfolding count_lr_sc release_lr_sc_reservation
count_lr_sc-CountsDown before c lock bound same =
    (count_lr_sc-IsCounting c lock bound, ground arith)

count_lr_sc-released : (before c : Core) → IsReleased c → CountsDown before (count_lr_sc c)
unfolding count_lr_sc
count_lr_sc-released before c (free, none_left) =
    (count_lr_sc-IsCounting c (inl free) (omega arith), ground arith)

-- The commit of the counters, before the interrupts.
abbrev Starts : Core → Core → Type 0
Starts before c = IsFreeOrReserved c × (c.lr_sc_counter ≡ before.lr_sc_counter)

commit_all-Starts :
    {B : Type 0} (m : Machine B)
    → IsFreeOrReserved m.core
    → Starts m.core
        (commit_all_and_reset_fast_quantum
          (record m { core = record m.core { iss_slow_path = false } })).core
unfolding commit_all_and_reset_fast_quantum commit_instructions
commit_all-Starts m lock =
    if-both (Starts m.core) (get_field 2 1 m.core.csrs.mcountinhibit != 0) _ _ (lock, refl)
      (lock, refl)

-- Where a hart that holds the bus lock has a reservation, with a count of at most 17, and its slow
-- path returns, it leaves a count that is smaller than before or zero, the slow path to be taken
-- again while the count is not zero, and the bus lock free where it is zero.
pub slow_path-CountsDown :
    {B : Type 0} (m m' : Machine B)
    → IsFreeOrReserved m.core
    → m.core.lr_sc_counter ≤ 17
    → slow_path m ≡ ok m'
    → CountsDown m.core m'.core
unfolding slow_path
slow_path-CountsDown m m' lock bound e =
    let m1 =
      commit_all_and_reset_fast_quantum
        (record m { core = record m.core { iss_slow_path = false } }) in
    let (held, same_count) = commit_all-Starts m lock in
    let (c, handled, same) =
      then_ok-ok (handle_interrupt m1.core) (λ core. ok (record m1 { core = count_lr_sc core })) m'
        e in
    subst (λ (t : Machine _). CountsDown m.core t.core) (ok_inj same)
      (elim (handle_interrupt-IsReleased m1.core c handled) [
        | inl none_taken ↦
            subst (λ (x : Core). CountsDown m.core (count_lr_sc x)) (sym none_taken)
              (count_lr_sc-CountsDown m.core m1.core held (rw same_count bound) same_count)
        | inr released ↦ count_lr_sc-released m.core c released
      ])

module _ {B : Type 0} (cfg : MachineConfig B) where
  finish_memory-Counts :
      (m : Machine B) (r : MemoryOutcome (MemState B))
      → ((s : MemState B) (h : MemoryHart) → r ≡ retired s h → IsHeldCounting (interface cfg m) s h)
      → EndsIn Counts Anything (finish_memory cfg m r)
  finish_memory-Counts m (retired s h) g = g s h refl
  finish_memory-Counts m (trapped s h e) g = tt
  finish_memory-Counts m stopped g = tt

  finish_system-Counts :
      (m : Machine B) (r : SystemOutcome)
      → Leaves (IsKept IsCounting m.last_pc) r
      → EndsIn Counts Anything (finish_system cfg m r)
  finish_system-Counts m (completed h) w = w.1
  finish_system-Counts m (tlb_flushed h) w = w.1
  finish_system-Counts m (faulted h x) w = tt
  finish_system-Counts m (waiting h) w = w.1
  finish_system-Counts m failed w = tt
  finish_system-Counts m outside w = tt

  module _ (clocks : Clocks) (m : Machine B) (i : ℕ) (op : OpId) (g : Counts m) where
    retired-Counts :
        (k : MemoryCase (MemState B))
        → IsQuiet (interface cfg m) k
        → EndsIn Counts Anything (
            finish_memory cfg m
              (exec_case (data_memory (interface cfg m)) i (memory_state m) (memory_hart m) k))
    retired-Counts k q = finish_memory-Counts m _ (λ s h e.
        exec_case-IsHeldCounting (interface cfg m) i (memory_state m) s (memory_hart m) h k q g e)

    execute_other-Counts :
        (k : MemoryCase (MemState B))
        → IsQuiet (interface cfg m) k
        → EndsIn Counts Anything (execute_other cfg clocks m i op k)
    unfolding execute_other
    execute_other-Counts no_case q = finish_system-Counts m _ (
        exec_system-Leaves m.core.prv IsCounting (IsCounting-KeptBySystem m.core.prv) m.last_pc
          (system_config cfg clocks) i (system_hart m) op refl (refl, g))
    execute_other-Counts (load_case a f) q = retired-Counts (load_case a f) q
    execute_other-Counts (store_case a f) q = retired-Counts (store_case a f) q
    execute_other-Counts (amo_case f) q = retired-Counts (amo_case f) q
    execute_other-Counts lr_case q = retired-Counts lr_case q
    execute_other-Counts sc_case q = retired-Counts sc_case q

    execute-Counts : EndsIn Counts Anything (execute cfg clocks m i op)
    execute-Counts =
        execute-cases cfg Counts Anything clocks m i op (λ h e. g) tt
          (λ k e.
            execute_other-Counts k (
              subst (IsQuiet (interface cfg m)) (sym e) (memory_case-IsQuiet (interface cfg m) op)))

  fetch_execute-Counts :
      (clocks : Clocks) (m : Machine B)
      → Counts m
      → EndsIn Counts Anything (fetch_execute cfg clocks m)
  unfolding fetch_execute
  fetch_execute-Counts clocks m0 g =
      let m = record m0 { last_pc = m0.core.pc } in
      elim (Access-cases (load_instr (interface cfg m) (memory_state m) m.core.pc)) [
        | inr (inr e) ↦ rw (EndsIn, e) tt
        | inr (inl (s, x, e)) ↦ rw (EndsIn, e) tt
        | inl (s, mem_word, e) ↦ elim (Option-cases (decode_word cfg.isa mem_word)) [
          | inl d ↦ rw (EndsIn, e, d) tt
          | inr (f, d) ↦
              rw (EndsIn, e, d)
                (execute-Counts clocks (advance (with_memory m s) f.length) f.word f.op (
                  IsKeptOrFree-IsHeldCounting (interface cfg m) (memory_state m) s (memory_hart m)
                    (load_instr-IsKeptOrFree (interface cfg m) m.core.pc mem_word (memory_state m) s
                      e)
                    g))
        ]
      ]

  finish-Counts : (r : Executed B) → EndsIn Counts Anything r → EndsIn Counts Counts (finish r)
  unfolding finish
  finish-Counts (executed m) g = g
  finish-Counts (traps m e) g = elim (Result-cases (handle_trap m.core e m.last_pc)) [
    | inl x ↦ rw (EndsIn, x) tt
    | inr (c, x) ↦
        rw (EndsIn, x) (IsReleased-IsCounting c (handle_trap-IsReleased m.core c e m.last_pc x))
  ]
  finish-Counts (sleeps m) g = g
  finish-Counts blocked g = tt
  finish-Counts ended g = tt
  finish-Counts unmodelled g = tt

  commit_all-Counts : (m : Machine B) → Counts m → Counts (commit_all_and_reset_fast_quantum m)
  unfolding commit_all_and_reset_fast_quantum
  commit_all-Counts m g =
      (commit_instructions-Good m.core.prv IsCounting (IsCounting-KeptBySystem m.core.prv) m.last_pc
        (system_hart m) (refl, g)).1

  prepare_step-Counts : (m m' : Machine B) → Counts m → prepare_step cfg m ≡ ok m' → Counts m'
  unfolding prepare_step
  prepare_step-Counts m m' g e = elim (Bool-cases m.core.iss_slow_path) [
    | inl slow ↦ (slow_path-CountsDown m m' g.0 g.1 (ground arith)).0
    | inr fast ↦
        let same : fast_path cfg m ≡ m' = ground arith in
        subst (Counts {B = B}) same (
          if-both (Counts {B = B}) (ltb cfg.fast_quantum_ins_granularity m.ninstr) _ m
            (commit_all-Counts m g) g)
  ]

  pub exec_step-Counts :
      (clocks : Clocks) (m : Machine B) → Counts m → EndsIn Counts Counts (exec_step cfg clocks m)
  exec_step-Counts clocks m g =
      exec_step-cases cfg Counts Counts Anything clocks m (λ m' e. prepare_step-Counts m m' g e)
        (λ m' g'. fetch_execute-Counts clocks m' g') (λ r g'. finish-Counts r g')
