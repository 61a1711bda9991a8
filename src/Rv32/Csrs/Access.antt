-- ===== src/Rv32/Csrs/Access.antt =====
-- vp/src/core/rv32/iss_ctemplate.cpp: how the CSR instructions read and write a CSR. `none` is the
-- illegal instruction trap. The clocks that the CLINT and the cycle counter show are arguments, since
-- they advance outside the instruction.
pub mod Laws
pub mod Machine
use riscv_vp_plusplus.Base.{
  ℕ, ◌+◌, ◌-◌, ◌*◌, ◌/◌, ◌%◌, ◌^◌, Bool, true, false, not, ◌==◌, ◌!=◌, ◌&&◌, ◌||◌, ltb, leb,
  bit_and, bit_or, Option, none, some, if◌then◌else◌,
}
use riscv_vp_plusplus.Rv32.Csrs.{
  Csrs, get_field, set_field, default_read32, default_write32, mie_mask, sie_mask, uie_mask,
  mip_write_mask, mip_read_mask, sip_mask, uip_mask, medeleg_mask, mideleg_mask, mtvec_mask,
  mcounteren_mask, mcountinhibit_mask, sedeleg_mask, sideleg_mask, mstatus_write_mask,
  mstatus_read_mask, sstatus_write_mask, sstatus_read_mask, ustatus_write_mask, ustatus_read_mask,
  mstatush_write_mask, mstatush_read_mask, satp_mask, fcsr_mask, vtype_mask, vxrm_mask, vxsat_mask,
  vcsr_mask,
}
use riscv_vp_plusplus.Rv32.State.{
  Core, supervisor_mode, user_mode, bit_not, has_c_extension, has_supervisor_mode_extension,
  has_user_mode_extension,
}

-- `clint->update_and_get_mtime()` and `_compute_and_get_current_cycles()`, 64-bit values.
pub record Clocks : Type 0 where
  pub mtime : ℕ
  pub cycles : ℕ

-- `is_invalid_csr_access`; `none` where the floating point or the vector unit is off.
unfoldable pub is_invalid_csr_access : Core → ℕ → Bool → Option Bool
is_invalid_csr_access c csr_addr is_write =
    let is_fp = csr_addr == 0x001 || (csr_addr == 0x002 || csr_addr == 0x003) in
    let is_vector =
      csr_addr == 0x008
      || (csr_addr == 0x009
          || (csr_addr == 0x00A
              || (csr_addr == 0x00F
                  || (csr_addr == 0xC20 || (csr_addr == 0xC21 || csr_addr == 0xC22))))) in
    let csr_prv = bit_and 0x300 csr_addr / 2 ^ 8 in
    let csr_readonly = bit_and 0xC00 csr_addr / 2 ^ 10 == 3 in
    let s_invalid = csr_prv == supervisor_mode && not (has_supervisor_mode_extension c) in
    let u_invalid = csr_prv == user_mode && not (has_user_mode_extension c) in
    if is_fp && get_field 13 2 c.csrs.mstatus == 0
    then none
    else if is_vector && get_field 9 2 c.csrs.mstatus == 0
    then none
    else some (is_write && csr_readonly || (ltb c.prv csr_prv || (s_invalid || u_invalid)))

-- `is_bitset`.
abbrev is_bitset : ℕ → ℕ → Bool
is_bitset reg bitpos = bit_and reg (2 ^ bitpos) != 0

-- `validate_csr_counter_read_access_rights`; false is the illegal instruction trap.
unfoldable pub validate_csr_counter_read_access_rights : Core → ℕ → Bool
validate_csr_counter_read_access_rights c addr =
    let cnt = bit_and addr 0x1F in
    if (leb 0xC00 addr && leb addr 0xC1F) || (leb 0xC80 addr && leb addr 0xC9F)
    then (if c.prv == supervisor_mode && not (is_bitset c.csrs.mcounteren cnt)
        then false
        else not (
            c.prv == user_mode
            && (not (is_bitset c.csrs.mcounteren cnt) || not (is_bitset c.csrs.scounteren cnt))))
    else true

-- SWITCH_CASE_MATCH_ANY_HPMCOUNTER_RV32.
abbrev pub is_hpmcounter : ℕ → Bool
is_hpmcounter addr =
    (leb 0xC03 addr && leb addr 0xC1F)
    || ((leb 0xC83 addr && leb addr 0xC9F)
        || ((leb 0xB03 addr && leb addr 0xB1F)
            || ((leb 0xB83 addr && leb addr 0xB9F) || (leb 0x323 addr && leb addr 0x33F))))

-- The debug CSRs, TSELECT apart.
abbrev is_debug_csr : ℕ → Bool
is_debug_csr addr = (leb 0x7A1 addr && leb addr 0x7A3) || (leb 0x7B0 addr && leb addr 0x7B3)

abbrev pub pc_alignment_mask : Core → ℕ
pc_alignment_mask c = if has_c_extension c then bit_not 1 else bit_not 3

abbrev with_csrs : Core → Csrs → Core
with_csrs c csrs = record c { csrs = csrs }

abbrev default_read : Core → ℕ → Option (ℕ × Core)
default_read c addr = elim (default_read32 c.csrs addr) [ none ↦ none | some v ↦ some (v, c) ]

-- `get_csr_value`: the value, and the state in which the clocks and the mirrored fields are updated.
unfoldable pub get_csr_value : Clocks → Core → ℕ → Option (ℕ × Core)
unfolding validate_csr_counter_read_access_rights
get_csr_value k c addr =
    let mirrored = set_field 0 1 c.csrs.vxsat (set_field 1 2 c.csrs.vxrm c.csrs.vcsr) in
    if not (validate_csr_counter_read_access_rights c addr)
    then none
    else if addr == 0xC01 || addr == 0xB01
    then some (k.mtime % 2 ^ 32, with_csrs c (record c.csrs { time = k.mtime }))
    else if addr == 0xC81 || addr == 0xB81
    then some (k.mtime / 2 ^ 32 % 2 ^ 32, with_csrs c (record c.csrs { time = k.mtime }))
    else if addr == 0xC00 || addr == 0xB00
    then some (k.cycles % 2 ^ 32, with_csrs c (record c.csrs { cycle = k.cycles }))
    else if addr == 0xC80 || addr == 0xB80
    then some (k.cycles / 2 ^ 32 % 2 ^ 32, with_csrs c (record c.csrs { cycle = k.cycles }))
    else if addr == 0xB02
    then some (c.csrs.instret % 2 ^ 32, c)
    else if addr == 0xB82
    then some (c.csrs.instret / 2 ^ 32 % 2 ^ 32, c)
    else if is_hpmcounter addr
    then some (0, c)
    else if addr == 0x300
    then some (bit_and c.csrs.mstatus mstatus_read_mask, c)
    else if addr == 0x100
    then some (bit_and c.csrs.mstatus sstatus_read_mask, c)
    else if addr == 0x000
    then some (bit_and c.csrs.mstatus ustatus_read_mask, c)
    else if addr == 0x310
    then some (bit_and c.csrs.mstatush mstatush_read_mask, c)
    else if addr == 0x344
    then some (bit_and c.csrs.mip mip_read_mask, c)
    else if addr == 0x144
    then some (bit_and c.csrs.mip sip_mask, c)
    else if addr == 0x044
    then some (bit_and c.csrs.mip uip_mask, c)
    else if addr == 0x304
    then some (bit_and c.csrs.mie mie_mask, c)
    else if addr == 0x104
    then some (bit_and c.csrs.mie sie_mask, c)
    else if addr == 0x004
    then some (bit_and c.csrs.mie uie_mask, c)
    else if addr == 0x180
    then (if get_field 20 1 c.csrs.mstatus != 0 then none else default_read c addr)
    else if addr == 0x003
    then some (bit_and c.csrs.fcsr fcsr_mask, c)
    else if addr == 0x001
    then some (get_field 0 5 c.csrs.fcsr, c)
    else if addr == 0x002
    then some (get_field 5 3 c.csrs.fcsr, c)
    else if addr == 0x00F
    then some (mirrored, with_csrs c (record c.csrs { vcsr = mirrored }))
    else if addr == 0x7A0
    then some (1, c)
    else if is_debug_csr addr
    then some (0, c)
    else default_read c addr

-- The lambda `write` of `set_csr_value`.
unfoldable pub write : ℕ → ℕ → ℕ → ℕ
write reg value mask = bit_or (bit_and reg (bit_not mask)) (bit_and value mask)

-- The `switch` of `set_csr_value`.
unfoldable pub write_csr : Core → ℕ → ℕ → Option Csrs
unfolding write
write_csr c addr value =
    let r = c.csrs in
    if addr == 0x301 || is_hpmcounter addr
    then some r
    else if addr == 0x180
    then (if get_field 20 1 r.mstatus != 0
        then none
        else some (record r { satp = write r.satp value satp_mask }))
    else if addr == 0x305
    then some (record r { mtvec = write r.mtvec value mtvec_mask })
    else if addr == 0x105
    then some (record r { stvec = write r.stvec value mtvec_mask })
    else if addr == 0x005
    then some (record r { utvec = write r.utvec value mtvec_mask })
    else if addr == 0x341
    then some (record r { mepc = write r.mepc value (pc_alignment_mask c) })
    else if addr == 0x141
    then some (record r { sepc = write r.sepc value (pc_alignment_mask c) })
    else if addr == 0x041
    then some (record r { uepc = write r.uepc value (pc_alignment_mask c) })
    else if addr == 0x300
    then some (record r { mstatus = write r.mstatus value mstatus_write_mask })
    else if addr == 0x100
    then some (record r { mstatus = write r.mstatus value sstatus_write_mask })
    else if addr == 0x000
    then some (record r { mstatus = write r.mstatus value ustatus_write_mask })
    else if addr == 0x310
    then some (record r { mstatush = write r.mstatush value mstatush_write_mask })
    else if addr == 0x344
    then some (record r { mip = write r.mip value mip_write_mask })
    else if addr == 0x144
    then some (record r { mip = write r.mip value sip_mask })
    else if addr == 0x044
    then some (record r { mip = write r.mip value uip_mask })
    else if addr == 0x304
    then some (record r { mie = write r.mie value mie_mask })
    else if addr == 0x104
    then some (record r { mie = write r.mie value sie_mask })
    else if addr == 0x004
    then some (record r { mie = write r.mie value uie_mask })
    else if addr == 0x303
    then some (record r { mideleg = write r.mideleg value mideleg_mask })
    else if addr == 0x302
    then some (record r { medeleg = write r.medeleg value medeleg_mask })
    else if addr == 0x103
    then some (record r { sideleg = write r.sideleg value sideleg_mask })
    else if addr == 0x102
    then some (record r { sedeleg = write r.sedeleg value sedeleg_mask })
    else if addr == 0x306
    then some (record r { mcounteren = write r.mcounteren value mcounteren_mask })
    else if addr == 0x106
    then some (record r { scounteren = write r.scounteren value mcounteren_mask })
    else if addr == 0x320
    then some (record r { mcountinhibit = write r.mcountinhibit value mcountinhibit_mask })
    else if addr == 0x003
    then some (record r { fcsr = write r.fcsr value fcsr_mask })
    else if addr == 0x001
    then some (record r { fcsr = set_field 0 5 value r.fcsr })
    else if addr == 0x002
    then some (record r { fcsr = set_field 5 3 value r.fcsr })
    else if addr == 0x009
    then (let vxsat = write r.vxsat value vxsat_mask in
        some (record r { vxsat = vxsat; vcsr = set_field 0 1 vxsat r.vcsr }))
    else if addr == 0x00A
    then (let vxrm = write r.vxrm value vxrm_mask in
        some (record r { vxrm = vxrm; vcsr = set_field 1 2 vxrm r.vcsr }))
    else if addr == 0x00F
    then (let vcsr = write r.vcsr value vcsr_mask in
        some (record r {
          vcsr = vcsr;
          vxrm = set_field 0 2 (get_field 1 2 vcsr) r.vxrm;
          vxsat = set_field 0 1 (get_field 0 1 vcsr) r.vxsat;
        }))
    else if addr == 0xC21
    then some (record r { vtype = write r.vtype value vtype_mask })
    else if addr == 0x7A0 || is_debug_csr addr
    then some r
    else default_write32 r addr value

-- `set_csr_value`, with `maybe_interrupt_pending`.
unfoldable pub set_csr_value : Core → ℕ → ℕ → Option Core
unfolding write_csr
set_csr_value c addr value = elim (write_csr c addr value) [
  | none ↦ none
  | some csrs ↦ some (record c { csrs = csrs; iss_slow_path = true })
]
