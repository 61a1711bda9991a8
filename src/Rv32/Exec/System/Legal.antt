-- ===== src/Rv32/Exec/System/Legal.antt =====
-- vp/src/core/rv32/iss_ctemplate.cpp, `is_invalid_csr_access`, the system instructions and the trap
-- handler: what they do to the registers of machine mode.
use riscv_vp_plusplus.Base.{ℕ, ◌≡◌, ◌≢◌, ◌<◌, ◌/◌, ◌%◌, ◌^◌, ◌⊎◌, inl, inr, refl, ◌∙◌, arith, some}
use riscv_vp_plusplus.Instr.OpId.{OpId}
use riscv_vp_plusplus.Rv32.Csrs.{Csrs}
use riscv_vp_plusplus.Rv32.Csrs.Access.{write_csr, set_csr_value}
use riscv_vp_plusplus.Rv32.Csrs.Access.Machine.{
  write_csr-mtvec, write_csr-medeleg, write_csr-mideleg, write_csr-mcounteren, write_csr-mscratch,
  write_csr-mepc, write_csr-mcause, write_csr-mtval, write_csr-mhartid,
}
use riscv_vp_plusplus.Rv32.Csrs.Access.Laws.{set_csr_value-csrs}
use riscv_vp_plusplus.Rv32.Step.CsrsKept.{get_csr_value-cases}
use riscv_vp_plusplus.Rv32.State.{
  Core, SimulationTrap, ok, error, Result-cases, release_lr_sc_reservation,
}
use riscv_vp_plusplus.Rv32.Trap.{
  return_from_trap_handler, prepare_trap, switch_to_trap_handler, handle_trap,
}
use riscv_vp_plusplus.Rv32.Exec.System.{
  SystemHart, SystemConfig, SystemOutcome, completed, tlb_flushed, faulted, waiting, failed,
  outside, exec_system,
}
use riscv_vp_plusplus.Rv32.Step.WellFormed.{then_ok-ok}
use riscv_vp_plusplus.Rv32.Exec.System.Keeps.{
  KeptBySystem, IsWritable, Leaves, Leaves-core, exec_system-Leaves,
}

-- The registers that only machine mode may write: its trap set-up and delegation.
abbrev pub HasSameSetUp : Csrs → Csrs → Type 0
HasSameSetUp r r' =
    (r'.mtvec ≡ r.mtvec)
    × (r'.medeleg ≡ r.medeleg)
    × (r'.mideleg ≡ r.mideleg)
    × (r'.mcounteren ≡ r.mcounteren)

-- And its trap handling.
abbrev pub HasSameHandling : Csrs → Csrs → Type 0
HasSameHandling r r' =
    (r'.mscratch ≡ r.mscratch)
    × (r'.mepc ≡ r.mepc)
    × (r'.mcause ≡ r.mcause)
    × (r'.mtval ≡ r.mtval)
    × (r'.mhartid ≡ r.mhartid)

other_address :
    {A : Type 0} (addr own : ℕ) → addr / 2 ^ 8 % 4 ≢ 3 → own / 2 ^ 8 % 4 ≡ 3 → (addr ≡ own) ⊎ A → A
other_address addr own h o (inl e) = absurd (h (rw e o))
other_address addr own h o (inr a) = a

write_csr-HasSameSetUp :
    (c : Core) (r : Csrs) (addr value : ℕ)
    → addr / 2 ^ 8 % 4 ≢ 3
    → write_csr c addr value ≡ some r
    → HasSameSetUp c.csrs r
write_csr-HasSameSetUp c r addr value h e = (
  other_address addr 0x305 h refl (write_csr-mtvec c r addr value e),
  other_address addr 0x302 h refl (write_csr-medeleg c r addr value e),
  other_address addr 0x303 h refl (write_csr-mideleg c r addr value e),
  other_address addr 0x306 h refl (write_csr-mcounteren c r addr value e),
)

write_csr-HasSameHandling :
    (c : Core) (r : Csrs) (addr value : ℕ)
    → addr / 2 ^ 8 % 4 ≢ 3
    → write_csr c addr value ≡ some r
    → HasSameHandling c.csrs r
write_csr-HasSameHandling c r addr value h e = (
  other_address addr 0x340 h refl (write_csr-mscratch c r addr value e),
  other_address addr 0x341 h refl (write_csr-mepc c r addr value e),
  other_address addr 0x342 h refl (write_csr-mcause c r addr value e),
  other_address addr 0x343 h refl (write_csr-mtval c r addr value e),
  other_address addr 0xF14 h refl (write_csr-mhartid c r addr value e),
)

-- The whole of it, in a hart.
abbrev pub HasSameMachine : Csrs → Core → Type 0
HasSameMachine r c = HasSameSetUp r c.csrs × HasSameHandling r c.csrs

HasSameMachine-writes :
    (r : Csrs) (level : ℕ) (c c' : Core) (addr value : ℕ)
    → level < 3
    → IsWritable level addr
    → HasSameMachine r c
    → set_csr_value c addr value ≡ some c'
    → HasSameMachine r c'
HasSameMachine-writes r level c c' addr value low (prv, writable) (u, h) e =
    let w = set_csr_value-csrs c c' addr value e in
    let below : addr / 2 ^ 8 % 4 ≢ 3 = omega arith in
    let u' = write_csr-HasSameSetUp c c'.csrs addr value below w in
    let h' = write_csr-HasSameHandling c c'.csrs addr value below w in
    (
      (u'.0 ∙ u.0, u'.1 ∙ u.1, u'.2 ∙ u.2, u'.3 ∙ u.3),
      (h'.0 ∙ h.0, h'.1 ∙ h.1, h'.2 ∙ h.2, h'.3 ∙ h.3, h'.4 ∙ h.4),
    )

HasSameMachine-returns :
    (r : Csrs) (c c' : Core) (mode : ℕ)
    → HasSameMachine r c
    → return_from_trap_handler c mode ≡ ok c'
    → HasSameMachine r c'
unfolding return_from_trap_handler
HasSameMachine-returns r c c' mode h e = ground arith

HasSameMachine-releases :
    (r : Csrs) (c : Core) → HasSameMachine r c → HasSameMachine r (release_lr_sc_reservation c)
unfolding release_lr_sc_reservation
HasSameMachine-releases r c h = h

HasSameMachine-KeptBySystem :
    (r : Csrs) (level : ℕ) → level < 3 → KeptBySystem level (HasSameMachine r)
HasSameMachine-KeptBySystem r level low = record {
  commits = λ c v h. h;
  reads = λ k c addr x h. get_csr_value-cases (HasSameMachine r) k c addr x h h h h;
  writes = λ c c' addr value w h e. HasSameMachine-writes r level c c' addr value low w h e;
  releases = HasSameMachine-releases r;
  returns = HasSameMachine-returns r;
}

-- What the entry of a trap leaves as it is.
abbrev pub IsSameForHandler : Csrs → Csrs → Type 0
IsSameForHandler r r' = HasSameSetUp r r' × (r'.mscratch ≡ r.mscratch) × (r'.mhartid ≡ r.mhartid)

prepare_trap-IsSameForHandler :
    (c : Core) (e : SimulationTrap) (last_pc : ℕ) (r : ℕ × Core)
    → prepare_trap c e last_pc ≡ ok r
    → IsSameForHandler c.csrs r.1.csrs
unfolding prepare_trap
prepare_trap-IsSameForHandler c e last_pc r h = ground arith

switch_to_trap_handler-IsSameForHandler :
    (c c' : Core) (mode : ℕ)
    → switch_to_trap_handler c mode ≡ ok c'
    → IsSameForHandler c.csrs c'.csrs
unfolding switch_to_trap_handler release_lr_sc_reservation
switch_to_trap_handler-IsSameForHandler c c' mode h = ground arith

handle_trap-IsSameForHandler :
    (r : Csrs) (c c' : Core) (e : SimulationTrap) (last_pc : ℕ)
    → HasSameMachine r c
    → handle_trap c e last_pc ≡ ok c'
    → IsSameForHandler r c'.csrs
unfolding handle_trap
handle_trap-IsSameForHandler r c c' e last_pc h x =
    let (t, prepared, entered) =
      then_ok-ok (prepare_trap c e last_pc) (λ t. switch_to_trap_handler t.1 t.0) c' x in
    let before = prepare_trap-IsSameForHandler c e last_pc t prepared in
    let after = switch_to_trap_handler-IsSameForHandler t.1 c' t.0 entered in
    (
      (
        after.0.0 ∙ before.0.0 ∙ h.0.0,
        after.0.1 ∙ before.0.1 ∙ h.0.1,
        after.0.2 ∙ before.0.2 ∙ h.0.2,
        after.0.3 ∙ before.0.3 ∙ h.0.3,
      ),
      after.1 ∙ before.1 ∙ h.1.0,
      after.2 ∙ before.2 ∙ h.1.4,
    )

-- All of these registers where the instruction completes or waits, and where it traps the ones that
-- the trap handler leaves, after it.
abbrev pub IsConfined : Csrs → SystemOutcome → Type 0
IsConfined r (completed h) = HasSameMachine r h.core
IsConfined r (tlb_flushed h) = HasSameMachine r h.core
IsConfined r (waiting h) = HasSameMachine r h.core
IsConfined r (faulted h e) =
    HasSameMachine r h.core
    × ((handle_trap h.core e h.last_pc ≡ error)
        ⊎ ((c : Core) × (handle_trap h.core e h.last_pc ≡ ok c) × IsSameForHandler r c.csrs))
IsConfined r failed = Unit
IsConfined r outside = Unit

Leaves-IsConfined :
    (r : Csrs) (o : SystemOutcome) → Leaves (λ h. HasSameMachine r h.core) o → IsConfined r o
Leaves-IsConfined r (completed h) x = x
Leaves-IsConfined r (tlb_flushed h) x = x
Leaves-IsConfined r (waiting h) x = x
Leaves-IsConfined r (faulted h e) x = (
  x,
  elim (Result-cases (handle_trap h.core e h.last_pc)) [
    | inl fails ↦ inl fails
    | inr (c, entered) ↦
        inr (c, entered, handle_trap-IsSameForHandler r h.core c e h.last_pc x entered)
  ],
)
Leaves-IsConfined r failed x = x
Leaves-IsConfined r outside x = x

-- Below machine mode, a CSR, environment, fence or privileged instruction that completes or waits
-- leaves mtvec, medeleg, mideleg, mcounteren, mscratch, mepc, mcause, mtval and mhartid as they
-- are. One that traps leaves them at the throw, and the trap handler, where it does not fail, then
-- leaves mtvec, medeleg, mideleg, mcounteren, mscratch and mhartid.
pub exec_system-IsConfined :
    (cfg : SystemConfig) (i : ℕ) (h : SystemHart) (op : OpId)
    → h.core.prv < 3
    → IsConfined h.core.csrs (exec_system cfg i h op)
exec_system-IsConfined cfg i h op low =
    let r = h.core.csrs in
    let o = exec_system cfg i h op in
    Leaves-IsConfined r o (
      Leaves-core (HasSameMachine r) h.last_pc o (
        exec_system-Leaves h.core.prv (HasSameMachine r)
          (HasSameMachine-KeptBySystem r h.core.prv low) h.last_pc cfg i h op refl
          (refl, ((refl, refl, refl, refl), (refl, refl, refl, refl, refl)))))
