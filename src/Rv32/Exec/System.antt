-- ===== src/Rv32/Exec/System.antt =====
-- vp/src/core/rv32/iss_ctemplate.{h,cpp}: the cases of `exec_steps` for the CSR, environment call, fence
-- and privileged instructions, and those that a 32-bit hart refuses.
pub mod Keeps
pub mod Legal
use riscv_vp_plusplus.Base.{
  ℕ, ◌+◌, ◌-◌, ◌%◌, ◌^◌, bit_and, bit_or, Bool, true, false, not, ◌==◌, ◌!=◌, ◌&&◌, ◌||◌, Option,
  none, some, if◌then◌else◌,
}
use riscv_vp_plusplus.Instr.OpId.{OpId}
use riscv_vp_plusplus.Instr.Fields.{rs1, rd, csr, zimm}
use riscv_vp_plusplus.Rv32.Csrs.{get_field}
use riscv_vp_plusplus.Rv32.Csrs.Access.{Clocks, is_invalid_csr_access, get_csr_value, set_csr_value}
use riscv_vp_plusplus.Rv32.State.{
  Core, SimulationTrap, ok, error, machine_mode, supervisor_mode, user_mode, bit_not,
  has_user_mode_extension, has_supervisor_mode_extension, release_lr_sc_reservation,
}
use riscv_vp_plusplus.Rv32.Trap.{return_from_trap_handler}
use riscv_vp_plusplus.Rv32.Exec.{write_reg}

-- `core.pc` is the address after the instruction, `last_pc` that of the instruction. `ninstr` and
-- `ninstr_last` count the instructions that `instret` does not show yet.
pub record SystemHart : Type 0 where
  pub regs : ℕ → ℕ
  pub last_pc : ℕ
  pub ninstr : ℕ
  pub ninstr_last : ℕ
  pub core : Core

-- What the cases read besides: `sys` is whether system calls are intercepted.
pub record SystemConfig : Type 0 where
  pub clocks : Clocks
  pub sys : Bool
  pub debug_mode : Bool
  pub ignore_wfi : Bool

-- `tlb_flushed` retires too, after a flush of the TLB; `waiting` is WFI with nothing pending; `failed`
-- is an exception that is no trap; `outside` is a case that is not modelled here.
pub data SystemOutcome : Type 0 where
  completed : SystemHart → SystemOutcome
  tlb_flushed : SystemHart → SystemOutcome
  faulted : SystemHart → SimulationTrap → SystemOutcome
  waiting : SystemHart → SystemOutcome
  failed : SystemOutcome
  outside : SystemOutcome

abbrev pub s_mode : Core → Bool
s_mode c = c.prv == supervisor_mode

abbrev pub u_mode : Core → Bool
u_mode c = c.prv == user_mode

-- `commit_instructions`; bit 2 of mcountinhibit is IR.
unfoldable pub commit_instructions : SystemHart → SystemHart
commit_instructions h =
    let inc = (h.ninstr + 2 ^ 64 - h.ninstr_last) % 2 ^ 64 in
    let c = h.core in
    record h {
      ninstr_last = h.ninstr;
      core =
          if get_field 2 1 c.csrs.mcountinhibit != 0
          then c
          else record c { csrs = record c.csrs { instret = (c.csrs.instret + inc) % 2 ^ 64 } };
    }

-- RAISE_ILLEGAL_INSTRUCTION.
abbrev pub illegal_instruction : ℕ → SystemHart → SystemOutcome
illegal_instruction i h = faulted h (record { reason = 2; mtval = i })

-- `has_local_pending_enabled_interrupts`.
abbrev pub has_local_pending_enabled_interrupts : Core → Bool
has_local_pending_enabled_interrupts c = bit_and c.csrs.mie c.csrs.mip != 0

module _ (clocks : Clocks) (i : ℕ) where
  abbrev pub set_csr : ℕ → SystemHart → SystemOutcome
  set_csr value h = elim (set_csr_value h.core (csr i) value) [
    | none ↦ illegal_instruction i h
    | some core ↦ completed (record h { core = core })
  ]

  -- CSRRW and CSRRWI: the CSR is not read where rd is x0.
  unfoldable pub exec_csr_write : SystemHart → ℕ → SystemOutcome
  unfolding commit_instructions
  exec_csr_write h value = elim (is_invalid_csr_access h.core (csr i) true) [
    | none ↦ illegal_instruction i h
    | some invalid ↦
        if invalid
        then illegal_instruction i h
        else if rd i != 0
        then (let h1 = commit_instructions h in
            elim (get_csr_value clocks h1.core (csr i)) [
              | none ↦ illegal_instruction i h1
              | some (csr_val, core) ↦
                  set_csr value (record h1 { regs = write_reg (rd i) csr_val h1.regs; core = core })
            ])
        else set_csr value h
  ]

  -- CSRRS, CSRRC and their immediate forms: the CSR is not written where the operand is x0 or 0.
  unfoldable pub exec_csr_modify : SystemHart → Bool → (ℕ → ℕ) → SystemOutcome
  unfolding commit_instructions
  exec_csr_modify h write operation = elim (is_invalid_csr_access h.core (csr i) write) [
    | none ↦ illegal_instruction i h
    | some invalid ↦
        if invalid
        then illegal_instruction i h
        else (let h1 = commit_instructions h in
            elim (get_csr_value clocks h1.core (csr i)) [
              | none ↦ illegal_instruction i h1
              | some (csr_val, core) ↦
                  let h2 = record h1 {
                    regs = if rd i != 0 then write_reg (rd i) csr_val h1.regs else h1.regs;
                    core = core;
                  } in
                  if write then set_csr (operation csr_val) h2 else completed h2
            ])
  ]

-- EXC_ECALL_M_MODE, EXC_ECALL_S_MODE, EXC_ECALL_U_MODE.
unfoldable pub exec_ecall : SystemConfig → SystemHart → SystemOutcome
exec_ecall cfg h =
    let environment_call =
      λ (reason : ℕ). faulted h (record { reason = reason; mtval = h.last_pc }) in
    if cfg.sys
    then outside
    else if h.core.prv == machine_mode
    then environment_call 11
    else if h.core.prv == supervisor_mode
    then environment_call 9
    else if h.core.prv == user_mode
    then environment_call 8
    else failed

unfoldable pub exec_ebreak : SystemConfig → SystemHart → SystemOutcome
exec_ebreak cfg h =
    if cfg.debug_mode then outside else faulted h (record { reason = 3; mtval = h.last_pc })

-- The loop of WFI is left at once, or waits for an event.
unfoldable pub exec_wfi : SystemConfig → ℕ → SystemHart → SystemOutcome
unfolding release_lr_sc_reservation
exec_wfi cfg i h0 =
    let h = record h0 { core = release_lr_sc_reservation h0.core } in
    if s_mode h.core && get_field 21 1 h.core.csrs.mstatus != 0
    then illegal_instruction i h
    else if u_mode h.core && has_supervisor_mode_extension h.core
    then illegal_instruction i h
    else if cfg.ignore_wfi || has_local_pending_enabled_interrupts h.core
    then completed h
    else waiting h

unfoldable pub exec_sfence_vma : ℕ → SystemHart → SystemOutcome
exec_sfence_vma i h =
    if s_mode h.core && get_field 20 1 h.core.csrs.mstatus != 0
    then illegal_instruction i h
    else tlb_flushed h

abbrev pub return_to : ℕ → SystemHart → SystemOutcome
return_to mode h = elim (return_from_trap_handler h.core mode) [
  | ok core ↦ completed (record h { core = core })
  | error ↦ failed
]

unfoldable pub exec_uret : ℕ → SystemHart → SystemOutcome
exec_uret i h =
    if not (has_user_mode_extension h.core) then illegal_instruction i h else return_to user_mode h

unfoldable pub exec_sret : ℕ → SystemHart → SystemOutcome
exec_sret i h =
    if not (has_supervisor_mode_extension h.core)
      || (s_mode h.core && get_field 22 1 h.core.csrs.mstatus != 0)
    then illegal_instruction i h
    else return_to supervisor_mode h

unfoldable pub exec_mret : SystemHart → SystemOutcome
exec_mret h = return_to machine_mode h

-- UNDEF, UNSUP and OP_CASE_INVALID.
unfoldable pub is_refused : OpId → Bool
is_refused OpId.undef = true
is_refused OpId.unsup = true
is_refused OpId.sd = true
is_refused OpId.ld = true
is_refused OpId.lwu = true
is_refused OpId.addiw = true
is_refused OpId.addiw_nop = true
is_refused OpId.slliw = true
is_refused OpId.slliw_nop = true
is_refused OpId.srliw = true
is_refused OpId.srliw_nop = true
is_refused OpId.sraiw = true
is_refused OpId.sraiw_nop = true
is_refused OpId.addw = true
is_refused OpId.addw_nop = true
is_refused OpId.subw = true
is_refused OpId.subw_nop = true
is_refused OpId.sllw = true
is_refused OpId.sllw_nop = true
is_refused OpId.srlw = true
is_refused OpId.srlw_nop = true
is_refused OpId.sraw = true
is_refused OpId.sraw_nop = true
is_refused OpId.mulw = true
is_refused OpId.mulw_nop = true
is_refused OpId.divw = true
is_refused OpId.divw_nop = true
is_refused OpId.divuw = true
is_refused OpId.divuw_nop = true
is_refused OpId.remw = true
is_refused OpId.remw_nop = true
is_refused OpId.remuw = true
is_refused OpId.remuw_nop = true
is_refused OpId.lr_d = true
is_refused OpId.sc_d = true
is_refused OpId.amoswap_d = true
is_refused OpId.amoadd_d = true
is_refused OpId.amoxor_d = true
is_refused OpId.amoand_d = true
is_refused OpId.amoor_d = true
is_refused OpId.amomin_d = true
is_refused OpId.amominu_d = true
is_refused OpId.amomax_d = true
is_refused OpId.amomaxu_d = true
is_refused _ = false

-- The operations of these cases; `outside` for the others.
unfoldable pub exec_system : SystemConfig → ℕ → SystemHart → OpId → SystemOutcome
unfolding exec_csr_write exec_csr_modify exec_ecall exec_ebreak exec_wfi exec_sfence_vma exec_uret
    exec_sret exec_mret is_refused
exec_system cfg i h OpId.fence = completed h
exec_system cfg i h OpId.fence_i = completed h
exec_system cfg i h OpId.ecall = exec_ecall cfg h
exec_system cfg i h OpId.ebreak = exec_ebreak cfg h
exec_system cfg i h OpId.csrrw = exec_csr_write cfg.clocks i h (h.regs (rs1 i))
exec_system cfg i h OpId.csrrs =
    exec_csr_modify cfg.clocks i h (rs1 i != 0) (λ v. bit_or v (h.regs (rs1 i)))
exec_system cfg i h OpId.csrrc =
    exec_csr_modify cfg.clocks i h (rs1 i != 0) (λ v. bit_and v (bit_not (h.regs (rs1 i))))
exec_system cfg i h OpId.csrrwi = exec_csr_write cfg.clocks i h (zimm i)
exec_system cfg i h OpId.csrrsi =
    exec_csr_modify cfg.clocks i h (zimm i != 0) (λ v. bit_or v (zimm i))
exec_system cfg i h OpId.csrrci =
    exec_csr_modify cfg.clocks i h (zimm i != 0) (λ v. bit_and v (bit_not (zimm i)))
exec_system cfg i h OpId.wfi = exec_wfi cfg i h
exec_system cfg i h OpId.sfence_vma = exec_sfence_vma i h
exec_system cfg i h OpId.uret = exec_uret i h
exec_system cfg i h OpId.sret = exec_sret i h
exec_system cfg i h OpId.mret = exec_mret h
exec_system cfg i h op = if is_refused op then illegal_instruction i h else outside
