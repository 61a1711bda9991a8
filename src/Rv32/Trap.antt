-- ===== src/Rv32/Trap.antt =====
-- vp/src/core/rv32/iss_ctemplate.cpp: the entry to and the return from trap handlers, and the choice
-- of the interrupt that is taken. The block cache that is told of the new pc is not in the state.
pub mod RoundTrip
pub mod Privilege
pub mod Interrupts
pub mod Delivery
pub mod Lines
use riscv_vp_plusplus.Base.{
  ℕ, ◌+◌, ◌-◌, ◌*◌, ◌/◌, ◌%◌, ◌^◌, Bool, true, false, not, ◌==◌, ◌!=◌, ◌&&◌, ◌||◌, ltb, bit_and,
  if◌then◌else◌,
}
use riscv_vp_plusplus.Rv32.Csrs.{Csrs, get_field, set_field}
use riscv_vp_plusplus.Rv32.State.{
  Core, Result, ok, error, SimulationTrap, machine_mode, supervisor_mode, user_mode, none_mode,
  bit_not, has_user_mode_extension, release_lr_sc_reservation,
}

-- The value of a cause register for an exception or an interrupt.
abbrev set_cause : ℕ → ℕ → ℕ → ℕ
set_cause interrupt code v = set_field 0 31 code (set_field 31 1 interrupt v)

-- `prepare_trap`; `error` is the failing cast of a trap value of more than 32 bits.
unfoldable pub prepare_trap : Core → SimulationTrap → ℕ → Result (ℕ × Core)
prepare_trap c0 e last_pc =
    let c = record c0 { pc = last_pc } in
    let exc_bit = 2 ^ e.reason in
    if c.prv == machine_mode || bit_and exc_bit c.csrs.medeleg == 0
    then (if ltb e.mtval (2 ^ 32)
        then ok (
          machine_mode,
          record c {
            csrs = record c.csrs { mcause = set_cause 0 e.reason c.csrs.mcause; mtval = e.mtval };
          },
        )
        else error)
    else if c.prv == supervisor_mode || bit_and exc_bit c.csrs.sedeleg == 0
    then (if ltb e.mtval (2 ^ 32)
        then ok (
          supervisor_mode,
          record c {
            csrs = record c.csrs { scause = set_cause 0 e.reason c.csrs.scause; stval = e.mtval };
          },
        )
        else error)
    else if ltb e.mtval (2 ^ 32)
    then ok (
      user_mode,
      record c {
        csrs = record c.csrs { ucause = set_cause 0 e.reason c.csrs.ucause; utval = e.mtval };
      },
    )
    else error

pub record PendingInterrupts : Type 0 where
  pub target_mode : ℕ
  pub pending : ℕ

abbrev no_interrupt : PendingInterrupts
no_interrupt = record { target_mode = none_mode; pending = 0 }

-- `compute_pending_interrupts`.
unfoldable pub compute_pending_interrupts : Core → PendingInterrupts
compute_pending_interrupts c =
    let pending = bit_and c.csrs.mie c.csrs.mip in
    let m_pending = bit_and pending (bit_not c.csrs.mideleg) in
    let delegated = bit_and pending c.csrs.mideleg in
    let s_pending = bit_and delegated (bit_not c.csrs.sideleg) in
    let u_pending = bit_and delegated c.csrs.sideleg in
    if pending == 0
    then no_interrupt
    else if m_pending != 0
        && (ltb c.prv machine_mode || (c.prv == machine_mode && get_field 3 1 c.csrs.mstatus != 0))
    then record { target_mode = machine_mode; pending = m_pending }
    else if s_pending != 0
        && (ltb c.prv supervisor_mode
            || (c.prv == supervisor_mode && get_field 1 1 c.csrs.mstatus != 0))
    then record { target_mode = supervisor_mode; pending = s_pending }
    else if u_pending != 0 && (c.prv == user_mode && get_field 0 1 c.csrs.mstatus != 0)
    then record { target_mode = user_mode; pending = u_pending }
    else no_interrupt

-- The exception code that `prepare_interrupt` chooses; `error` is its exception.
unfoldable pub interrupt_code : ℕ → Result ℕ
interrupt_code x =
    if get_field 11 1 x != 0
    then ok 11
    else if get_field 3 1 x != 0
    then ok 3
    else if get_field 7 1 x != 0
    then ok 7
    else if get_field 9 1 x != 0
    then ok 9
    else if get_field 1 1 x != 0
    then ok 1
    else if get_field 5 1 x != 0
    then ok 5
    else if get_field 8 1 x != 0
    then ok 8
    else if get_field 0 1 x != 0
    then ok 0
    else if get_field 4 1 x != 0
    then ok 4
    else error

abbrev pub then_ok {ℓ κ} : {A : Type ℓ} {B : Type κ} → Result A → (A → Result B) → Result B
then_ok (ok a) k = k a
then_ok error k = error

-- The cause register of the target mode, `switch (e.target_mode)` of `prepare_interrupt`.
unfoldable pub record_interrupt : Core → ℕ → ℕ → Result Core
record_interrupt c target_mode exc =
    if target_mode == machine_mode
    then ok (record c {
      csrs = record c.csrs { mcause = set_field 31 1 1 (set_field 0 31 exc c.csrs.mcause) };
    })
    else if target_mode == supervisor_mode
    then ok (record c {
      csrs = record c.csrs { scause = set_field 31 1 1 (set_field 0 31 exc c.csrs.scause) };
    })
    else if target_mode == user_mode
    then ok (record c {
      csrs = record c.csrs { ucause = set_field 31 1 1 (set_field 0 31 exc c.csrs.ucause) };
    })
    else error

-- `prepare_interrupt`.
unfoldable pub prepare_interrupt : Core → PendingInterrupts → Result Core
unfolding interrupt_code record_interrupt
prepare_interrupt c e =
    then_ok (interrupt_code e.pending) (λ exc. record_interrupt c e.target_mode exc)

-- Where a handler starts: the base of xtvec, and in vectored mode the entry of an interrupt.
abbrev pub handler_pc : ℕ → ℕ → ℕ
handler_pc tvec cause =
    let base = get_field 2 30 tvec * 2 ^ 2 in
    if get_field 31 1 cause != 0 && get_field 0 2 tvec == 1
    then (base + 4 * get_field 0 31 cause) % 2 ^ 32
    else base

-- `switch_to_trap_handler`; `error` is a null handler under `error_on_zero_traphandler`, or a mode
-- that does not exist.
unfoldable pub switch_to_trap_handler : Core → ℕ → Result Core
unfolding release_lr_sc_reservation
switch_to_trap_handler c0 target_mode =
    let c = release_lr_sc_reservation c0 in
    let pp = c.prv in
    let s = c.csrs.mstatus in
    if target_mode == machine_mode
    then (let s1 = set_field 7 1 (get_field 3 1 s) s in
        let s2 = set_field 3 1 0 s1 in
        let s3 = set_field 11 2 pp s2 in
        if get_field 2 30 c.csrs.mtvec == 0 && c.error_on_zero_traphandler
        then error
        else ok (record c {
          prv = target_mode;
          pc = handler_pc c.csrs.mtvec c.csrs.mcause;
          csrs = record c.csrs { mepc = c.pc; mstatus = s3 };
        }))
    else if target_mode == supervisor_mode
    then (let s1 = set_field 5 1 (get_field 1 1 s) s in
        let s2 = set_field 1 1 0 s1 in
        let s3 = set_field 8 1 pp s2 in
        ok (record c {
          prv = target_mode;
          pc = handler_pc c.csrs.stvec c.csrs.scause;
          csrs = record c.csrs { sepc = c.pc; mstatus = s3 };
        }))
    else if target_mode == user_mode
    then (let s1 = set_field 4 1 (get_field 0 1 s) s in
        let s2 = set_field 0 1 0 s1 in
        ok (record c {
          prv = target_mode;
          pc = handler_pc c.csrs.utvec c.csrs.ucause;
          csrs = record c.csrs { uepc = c.pc; mstatus = s2 };
        }))
    else error

-- `handle_interrupt`.
unfoldable pub handle_interrupt : Core → Result Core
handle_interrupt c =
    let x = compute_pending_interrupts c in
    if x.target_mode != none_mode
    then then_ok (prepare_interrupt c x) (λ c'. switch_to_trap_handler c' x.target_mode)
    else ok c

-- `handle_trap`.
unfoldable pub handle_trap : Core → SimulationTrap → ℕ → Result Core
handle_trap c e last_pc = then_ok (prepare_trap c e last_pc) (λ r. switch_to_trap_handler r.1 r.0)

-- `return_from_trap_handler`.
unfoldable pub return_from_trap_handler : Core → ℕ → Result Core
return_from_trap_handler c return_mode =
    let s = c.csrs.mstatus in
    if return_mode == machine_mode
    then (let s1 = set_field 3 1 (get_field 7 1 s) s in
        let s2 = set_field 7 1 1 s1 in
        let s3 =
          set_field 11 2 (if has_user_mode_extension c then user_mode else machine_mode) s2 in
        ok (record c {
          prv = get_field 11 2 s;
          pc = c.csrs.mepc;
          csrs = record c.csrs { mstatus = s3 };
          iss_slow_path = true;
        }))
    else if return_mode == supervisor_mode
    then (let s1 = set_field 1 1 (get_field 5 1 s) s in
        let s2 = set_field 5 1 1 s1 in
        let s3 =
          set_field 8 1 (if has_user_mode_extension c then user_mode else supervisor_mode) s2 in
        ok (record c {
          prv = get_field 8 1 s;
          pc = c.csrs.sepc;
          csrs = record c.csrs { mstatus = s3 };
          iss_slow_path = true;
        }))
    else if return_mode == user_mode
    then (let s1 = set_field 0 1 (get_field 4 1 s) s in
        let s2 = set_field 4 1 1 s1 in
        ok (record c {
          prv = user_mode;
          pc = c.csrs.uepc;
          csrs = record c.csrs { mstatus = s2 };
          iss_slow_path = true;
        }))
    else error
