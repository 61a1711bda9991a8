-- ===== src/Rv32/Step/Invariant.antt =====
-- A turn of the loop keeps the core well formed.
use mathlib.Core.Path.{subst}
use riscv_vp_plusplus.Base.{
  Bool-cases, ℕ, ◌+◌, ◌%◌, ◌≡◌, false, some, refl, inl, inr, ◌⊎◌, arith, if-both, Option-cases, u32,
  ltb,
}
use riscv_vp_plusplus.Instr.OpId.{OpId}
use riscv_vp_plusplus.Mmu.Walk.{Access-cases}
use riscv_vp_plusplus.Mem.{MemState, load_instr, data_memory}
use riscv_vp_plusplus.Rv32.Csrs.Access.{Clocks}
use riscv_vp_plusplus.Rv32.State.{
  Core, Result-cases, ok_inj, ok, SimulationTrap, has_c_extension, release_lr_sc_reservation,
}
use riscv_vp_plusplus.Rv32.Trap.{handle_trap, handle_interrupt}
use riscv_vp_plusplus.Rv32.Exec.{Hart, Outcome, next, trap, other, exec_op}
use riscv_vp_plusplus.Rv32.Exec.Control.{exec_op-pc_even}
use riscv_vp_plusplus.Rv32.Exec.Memory.{
  MemoryOutcome, retired, trapped, stopped, MemoryCase, load_case, store_case, amo_case, lr_case,
  sc_case, no_case, memory_case,
}
use riscv_vp_plusplus.Rv32.Exec.System.{
  SystemOutcome, completed, tlb_flushed, faulted, waiting, failed, outside,
}
use riscv_vp_plusplus.Rv32.Exec.System.Keeps.{
  KeptBySystem, Leaves, IsKept, exec_system-Leaves, commit_instructions-Good,
}
use riscv_vp_plusplus.Rv32.Step.{
  Machine, MachineConfig, Executed, executed, traps, sleeps, blocked, ended, unmodelled, hart,
  with_hart, system_hart, memory_state, with_memory, advance, prepare_step, interface,
  system_config, finish_memory, finish_system, execute_other, execute, finish, fetch_execute,
  fast_path, exec_step, slow_path, count_lr_sc, commit_all_and_reset_fast_quantum, decode_word,
  Fetched,
}
use riscv_vp_plusplus.Rv32.Step.WellFormed.{
  then_ok-ok, IsWellFormed, handle_trap-IsWellFormed, handle_interrupt-IsWellFormed,
  return_from_trap_handler-IsWellFormed,
}
use riscv_vp_plusplus.Rv32.Step.CsrsKept.{set_csr_value-IsWellFormed, get_csr_value-IsWellFormed}

-- The machine that a turn leaves, where it leaves one, satisfies `P`, and `T` where a trap is still
-- to be taken.
abbrev pub EndsIn : {B : Type 0} → (Machine B → Type 0) → (Machine B → Type 0) → Executed B → Type 0
EndsIn P T (executed m) = P m
EndsIn P T (traps m e) = T m
EndsIn P T (sleeps m) = P m
EndsIn P T blocked = Unit
EndsIn P T ended = Unit
EndsIn P T unmodelled = Unit

Outcome-cases :
    (o : Outcome)
    → ((h : Hart) × (o ≡ next h)) ⊎ (((e : SimulationTrap) × (o ≡ trap e)) ⊎ (o ≡ other))
Outcome-cases (next h) = inl (h, refl)
Outcome-cases (trap e) = inr (inl (e, refl))
Outcome-cases other = inr (inr refl)

module _ {B : Type 0} (cfg : MachineConfig B) where
  -- A case that `exec_op` has, or one of the others.
  pub execute-cases :
      (P T : Machine B → Type 0) (clocks : Clocks) (m : Machine B) (i : ℕ) (op : OpId)
      → ((h : Hart) → exec_op (has_c_extension m.core) i (hart m) op ≡ next h → P (with_hart m h))
      → T m
      → ((k : MemoryCase (MemState B))
          → k ≡ memory_case (data_memory (interface cfg m)) op
          → EndsIn P T (execute_other cfg clocks m i op k))
      → EndsIn P T (execute cfg clocks m i op)
  unfolding execute
  execute-cases P T clocks m i op n t o =
      elim (Outcome-cases (exec_op (has_c_extension m.core) i (hart m) op)) [
        | inl (h, e) ↦ rw (EndsIn, e) (n h e)
        | inr (inl (x, e)) ↦ rw (EndsIn, e) t
        | inr (inr e) ↦ rw (EndsIn, e) (o _ refl)
      ]

  -- The parts of a turn, one after the other.
  pub exec_step-cases :
      (Q P T : Machine B → Type 0) (clocks : Clocks) (m : Machine B)
      → ((m' : Machine B) → prepare_step cfg m ≡ ok m' → Q m')
      → ((m' : Machine B) → Q m' → EndsIn P T (fetch_execute cfg clocks m'))
      → ((r : Executed B) → EndsIn P T r → EndsIn Q Q (finish r))
      → EndsIn Q Q (exec_step cfg clocks m)
  unfolding exec_step
  exec_step-cases Q P T clocks m prepare run close = elim (Result-cases (prepare_step cfg m)) [
    | inl e ↦ rw (EndsIn, e) tt
    | inr (m', e) ↦ rw (EndsIn, e) (close (fetch_execute cfg clocks m') (run m' (prepare m' e)))
  ]

release_lr_sc_reservation-IsWellFormed :
    (c : Core) → IsWellFormed c → IsWellFormed (release_lr_sc_reservation c)
unfolding release_lr_sc_reservation
release_lr_sc_reservation-IsWellFormed c h = h

IsWellFormed-KeptBySystem : (level : ℕ) → KeptBySystem level IsWellFormed
IsWellFormed-KeptBySystem level = record {
  commits = λ c v h. h;
  reads = get_csr_value-IsWellFormed;
  writes = λ c c' addr value writable h e. set_csr_value-IsWellFormed c c' addr value h e;
  releases = release_lr_sc_reservation-IsWellFormed;
  returns = return_from_trap_handler-IsWellFormed;
}

-- While a case runs, the address of the instruction is even too.
abbrev pub IsRunning : {B : Type 0} → Machine B → Type 0
IsRunning m = (m.last_pc % 2 ≡ 0) × IsWellFormed m.core

abbrev pub IsReady : {B : Type 0} → Machine B → Type 0
IsReady m = IsWellFormed m.core

module _ {B : Type 0} (cfg : MachineConfig B) where
  finish_memory-EndsIn :
      (m : Machine B) (r : MemoryOutcome (MemState B))
      → IsRunning m
      → EndsIn IsRunning IsRunning (finish_memory cfg m r)
  finish_memory-EndsIn m (retired s h) g = g
  finish_memory-EndsIn m (trapped s h e) g = g
  finish_memory-EndsIn m stopped g = tt

  finish_system-EndsIn :
      (m : Machine B) (r : SystemOutcome)
      → IsRunning m
      → Leaves (IsKept IsWellFormed m.last_pc) r
      → EndsIn IsRunning IsRunning (finish_system cfg m r)
  finish_system-EndsIn m (completed h) g (e, w) = (rw e g.0, w)
  finish_system-EndsIn m (tlb_flushed h) g (e, w) = (rw e g.0, w)
  finish_system-EndsIn m (faulted h x) g (e, w) = (rw e g.0, w)
  finish_system-EndsIn m (waiting h) g (e, w) = (rw e g.0, w)
  finish_system-EndsIn m failed g w = tt
  finish_system-EndsIn m outside g w = tt

  execute_other-EndsIn :
      (clocks : Clocks) (m : Machine B) (i : ℕ) (op : OpId) (k : MemoryCase (MemState B))
      → IsRunning m
      → EndsIn IsRunning IsRunning (execute_other cfg clocks m i op k)
  unfolding execute_other
  execute_other-EndsIn clocks m i op no_case g = finish_system-EndsIn m _ g (
      exec_system-Leaves m.core.prv IsWellFormed (IsWellFormed-KeptBySystem m.core.prv) m.last_pc
        (system_config cfg clocks) i (system_hart m) op refl (refl, g.1))
  execute_other-EndsIn clocks m i op (load_case a f) g = finish_memory-EndsIn m _ g
  execute_other-EndsIn clocks m i op (store_case a f) g = finish_memory-EndsIn m _ g
  execute_other-EndsIn clocks m i op (amo_case f) g = finish_memory-EndsIn m _ g
  execute_other-EndsIn clocks m i op lr_case g = finish_memory-EndsIn m _ g
  execute_other-EndsIn clocks m i op sc_case g = finish_memory-EndsIn m _ g

  execute-EndsIn :
      (clocks : Clocks) (m : Machine B) (i : ℕ) (op : OpId)
      → IsRunning m
      → EndsIn IsRunning IsRunning (execute cfg clocks m i op)
  execute-EndsIn clocks m i op (l, g) =
      execute-cases cfg IsRunning IsRunning clocks m i op
        (λ h e.
          (l, (g.0, exec_op-pc_even (has_c_extension m.core) i (hart m) h op g.1 l e, g.2, g.3)))
        (l, g) (λ k e. execute_other-EndsIn clocks m i op k (l, g))

  finish-EndsIn :
      (r : Executed B) → EndsIn IsRunning IsRunning r → EndsIn IsReady IsReady (finish r)
  unfolding finish
  finish-EndsIn (executed m) (l, g) = g
  finish-EndsIn (traps m e) (l, g) = elim (Result-cases (handle_trap m.core e m.last_pc)) [
    | inl x ↦ rw (EndsIn, x) tt
    | inr (c, x) ↦ rw (EndsIn, x) (handle_trap-IsWellFormed m.core c e m.last_pc g l x)
  ]
  finish-EndsIn (sleeps m) (l, g) = g
  finish-EndsIn blocked g = tt
  finish-EndsIn ended g = tt
  finish-EndsIn unmodelled g = tt

  decode_word-length_even :
      (mem_word : ℕ) (f : Fetched) → decode_word cfg.isa mem_word ≡ some f → f.length % 2 ≡ 0
  unfolding decode_word
  decode_word-length_even mem_word f e = ground arith

  add_even : (pc length : ℕ) → pc % 2 ≡ 0 → length % 2 ≡ 0 → u32 (pc + length) % 2 ≡ 0
  add_even pc length p l = omega arith

  fetch_execute-EndsIn :
      (clocks : Clocks) (m : Machine B)
      → IsReady m
      → EndsIn IsRunning IsRunning (fetch_execute cfg clocks m)
  unfolding fetch_execute
  fetch_execute-EndsIn clocks m0 g =
      let m = record m0 { last_pc = m0.core.pc } in
      elim (Access-cases (load_instr (interface cfg m) (memory_state m) m.core.pc)) [
        | inr (inr e) ↦ rw (EndsIn, e) tt
        | inr (inl (s, x, e)) ↦ rw (EndsIn, e) (g.1, g)
        | inl (s, mem_word, e) ↦ elim (Option-cases (decode_word cfg.isa mem_word)) [
          | inl d ↦ rw (EndsIn, e, d) tt
          | inr (f, d) ↦
              rw (EndsIn, e, d)
                (execute-EndsIn clocks (advance (with_memory m s) f.length) f.word f.op (
                  g.1,
                  (
                    g.0,
                    add_even m.core.pc f.length g.1 (decode_word-length_even mem_word f d),
                    g.2,
                    g.3,
                  ),
                ))
        ]
      ]

  commit_all-IsReady : (m : Machine B) → IsReady m → IsReady (commit_all_and_reset_fast_quantum m)
  unfolding commit_all_and_reset_fast_quantum
  commit_all-IsReady m g =
      (commit_instructions-Good m.core.prv IsWellFormed (IsWellFormed-KeptBySystem m.core.prv)
        m.last_pc (system_hart m) (refl, g)).1

  count_lr_sc-IsWellFormed : (c : Core) → IsWellFormed c → IsWellFormed (count_lr_sc c)
  unfolding count_lr_sc release_lr_sc_reservation
  count_lr_sc-IsWellFormed c h = ground arith

  slow_path-IsReady : (m m' : Machine B) → IsReady m → slow_path m ≡ ok m' → IsReady m'
  unfolding slow_path
  slow_path-IsReady m m' g e =
      let m1 =
        commit_all_and_reset_fast_quantum
          (record m { core = record m.core { iss_slow_path = false } }) in
      let (c, handled, same) =
        then_ok-ok (handle_interrupt m1.core) (λ core. ok (record m1 { core = count_lr_sc core }))
          m' e in
      subst (IsReady {B = B}) (ok_inj same) (
        count_lr_sc-IsWellFormed c (
          handle_interrupt-IsWellFormed m1.core c
            (commit_all-IsReady (record m { core = record m.core { iss_slow_path = false } }) g)
            handled))

  prepare_step-IsReady : (m m' : Machine B) → IsReady m → prepare_step cfg m ≡ ok m' → IsReady m'
  unfolding prepare_step
  prepare_step-IsReady m m' g e = elim (Bool-cases m.core.iss_slow_path) [
    | inl slow ↦ slow_path-IsReady m m' g (ground arith)
    | inr fast ↦
        let same : fast_path cfg m ≡ m' = ground arith in
        subst (IsReady {B = B}) same (
          if-both (IsReady {B = B}) (ltb cfg.fast_quantum_ins_granularity m.ninstr) _ m
            (commit_all-IsReady m g) g)
  ]

  pub exec_step-IsWellFormed :
      (clocks : Clocks) (m : Machine B)
      → IsReady m
      → EndsIn IsReady IsReady (exec_step cfg clocks m)
  exec_step-IsWellFormed clocks m g =
      exec_step-cases cfg IsReady IsRunning IsRunning clocks m
        (λ m' e. prepare_step-IsReady m m' g e) (λ m' g'. fetch_execute-EndsIn clocks m' g')
        (λ r g'. finish-EndsIn r g')
