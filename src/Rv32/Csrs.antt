-- ===== src/Rv32/Csrs.antt =====
-- vp/src/core/rv32/csr.h: the CSR table, its masks, and the bit fields of its registers. A register
-- is its 32-bit value; cycle, time and instret are 64-bit values.
pub mod Access
pub mod Fields
use riscv_vp_plusplus.Base.{
  ℕ, ◌+◌, ◌-◌, ◌*◌, ◌/◌, ◌%◌, ◌^◌, Option, none, some, ◌==◌, ◌&&◌, leb, Bool, bit_and,
  if◌then◌else◌,
}

-- A field of `width` bits from bit `pos` up, as the compilers lay out the unions of csr.h.
abbrev pub get_field : ℕ → ℕ → ℕ → ℕ
get_field pos width v = v / 2 ^ pos % 2 ^ width

abbrev pub set_field : ℕ → ℕ → ℕ → ℕ → ℕ
set_field pos width x v =
    v / 2 ^ (pos + width) * 2 ^ (pos + width) + x % 2 ^ width * 2 ^ pos + v % 2 ^ pos

-- `struct csr_table`.
pub record Csrs : Type 0 where
  pub cycle : ℕ
  pub time : ℕ
  pub instret : ℕ
  pub mvendorid : ℕ
  pub marchid : ℕ
  pub mimpid : ℕ
  pub mhartid : ℕ
  pub mstatus : ℕ
  pub mstatush : ℕ
  pub misa : ℕ
  pub medeleg : ℕ
  pub mideleg : ℕ
  pub mie : ℕ
  pub mtvec : ℕ
  pub mcounteren : ℕ
  pub mcountinhibit : ℕ
  pub mscratch : ℕ
  pub mepc : ℕ
  pub mcause : ℕ
  pub mtval : ℕ
  pub mip : ℕ
  pub sedeleg : ℕ
  pub sideleg : ℕ
  pub stvec : ℕ
  pub scounteren : ℕ
  pub sscratch : ℕ
  pub sepc : ℕ
  pub scause : ℕ
  pub stval : ℕ
  pub satp : ℕ
  pub utvec : ℕ
  pub uscratch : ℕ
  pub uepc : ℕ
  pub ucause : ℕ
  pub utval : ℕ
  pub fcsr : ℕ
  pub vstart : ℕ
  pub vxsat : ℕ
  pub vxrm : ℕ
  pub vcsr : ℕ
  pub vtype : ℕ
  pub vl : ℕ
  pub vlenb : ℕ
  pub pmpaddr : ℕ → ℕ
  pub pmpcfg : ℕ → ℕ

-- `register_mapping`, read: `default_read32`, and `none` where `is_valid_csr32_addr` fails.
unfoldable pub default_read32 : Csrs → ℕ → Option ℕ
default_read32 c addr =
    if addr == 0xC00
    then some (c.cycle % 2 ^ 32)
    else if addr == 0xC80
    then some (c.cycle / 2 ^ 32 % 2 ^ 32)
    else if addr == 0xC01
    then some (c.time % 2 ^ 32)
    else if addr == 0xC81
    then some (c.time / 2 ^ 32 % 2 ^ 32)
    else if addr == 0xC02
    then some (c.instret % 2 ^ 32)
    else if addr == 0xC82
    then some (c.instret / 2 ^ 32 % 2 ^ 32)
    else if addr == 0xB00
    then some (c.cycle % 2 ^ 32)
    else if addr == 0xB80
    then some (c.cycle / 2 ^ 32 % 2 ^ 32)
    else if addr == 0xB01
    then some (c.time % 2 ^ 32)
    else if addr == 0xB81
    then some (c.time / 2 ^ 32 % 2 ^ 32)
    else if addr == 0xB02
    then some (c.instret % 2 ^ 32)
    else if addr == 0xB82
    then some (c.instret / 2 ^ 32 % 2 ^ 32)
    else if addr == 0xF11
    then some (c.mvendorid)
    else if addr == 0xF12
    then some (c.marchid)
    else if addr == 0xF13
    then some (c.mimpid)
    else if addr == 0xF14
    then some (c.mhartid)
    else if addr == 0x300
    then some (c.mstatus)
    else if addr == 0x310
    then some (c.mstatush)
    else if addr == 0x301
    then some (c.misa)
    else if addr == 0x302
    then some (c.medeleg)
    else if addr == 0x303
    then some (c.mideleg)
    else if addr == 0x304
    then some (c.mie)
    else if addr == 0x305
    then some (c.mtvec)
    else if addr == 0x306
    then some (c.mcounteren)
    else if addr == 0x320
    then some (c.mcountinhibit)
    else if addr == 0x340
    then some (c.mscratch)
    else if addr == 0x341
    then some (c.mepc)
    else if addr == 0x342
    then some (c.mcause)
    else if addr == 0x343
    then some (c.mtval)
    else if addr == 0x344
    then some (c.mip)
    else if addr == 0x102
    then some (c.sedeleg)
    else if addr == 0x103
    then some (c.sideleg)
    else if addr == 0x105
    then some (c.stvec)
    else if addr == 0x106
    then some (c.scounteren)
    else if addr == 0x140
    then some (c.sscratch)
    else if addr == 0x141
    then some (c.sepc)
    else if addr == 0x142
    then some (c.scause)
    else if addr == 0x143
    then some (c.stval)
    else if addr == 0x180
    then some (c.satp)
    else if addr == 0x005
    then some (c.utvec)
    else if addr == 0x040
    then some (c.uscratch)
    else if addr == 0x041
    then some (c.uepc)
    else if addr == 0x042
    then some (c.ucause)
    else if addr == 0x043
    then some (c.utval)
    else if addr == 0x003
    then some (c.fcsr)
    else if addr == 0x008
    then some (c.vstart)
    else if addr == 0x009
    then some (c.vxsat)
    else if addr == 0x00A
    then some (c.vxrm)
    else if addr == 0x00F
    then some (c.vcsr)
    else if addr == 0xC20
    then some (c.vl)
    else if addr == 0xC21
    then some (c.vtype)
    else if addr == 0xC22
    then some (c.vlenb)
    else if leb 0x3B0 addr && leb addr 0x3BF
    then some (c.pmpaddr (addr - 0x3B0))
    else if leb 0x3A0 addr && leb addr 0x3A3
    then some (c.pmpcfg (addr - 0x3A0))
    else none

abbrev update : (ℕ → ℕ) → ℕ → ℕ → ℕ → ℕ
update f i v j = if j == i then v else f j

-- `register_mapping`, written: `default_write32`, and `none` where `is_valid_csr32_addr` fails.
unfoldable pub default_write32 : Csrs → ℕ → ℕ → Option Csrs
default_write32 c addr value =
    if addr == 0xC00
    then some (record c { cycle = set_field 0 32 value c.cycle })
    else if addr == 0xC80
    then some (record c { cycle = set_field 32 32 value c.cycle })
    else if addr == 0xC01
    then some (record c { time = set_field 0 32 value c.time })
    else if addr == 0xC81
    then some (record c { time = set_field 32 32 value c.time })
    else if addr == 0xC02
    then some (record c { instret = set_field 0 32 value c.instret })
    else if addr == 0xC82
    then some (record c { instret = set_field 32 32 value c.instret })
    else if addr == 0xB00
    then some (record c { cycle = set_field 0 32 value c.cycle })
    else if addr == 0xB80
    then some (record c { cycle = set_field 32 32 value c.cycle })
    else if addr == 0xB01
    then some (record c { time = set_field 0 32 value c.time })
    else if addr == 0xB81
    then some (record c { time = set_field 32 32 value c.time })
    else if addr == 0xB02
    then some (record c { instret = set_field 0 32 value c.instret })
    else if addr == 0xB82
    then some (record c { instret = set_field 32 32 value c.instret })
    else if addr == 0xF11
    then some (record c { mvendorid = value })
    else if addr == 0xF12
    then some (record c { marchid = value })
    else if addr == 0xF13
    then some (record c { mimpid = value })
    else if addr == 0xF14
    then some (record c { mhartid = value })
    else if addr == 0x300
    then some (record c { mstatus = value })
    else if addr == 0x310
    then some (record c { mstatush = value })
    else if addr == 0x301
    then some (record c { misa = value })
    else if addr == 0x302
    then some (record c { medeleg = value })
    else if addr == 0x303
    then some (record c { mideleg = value })
    else if addr == 0x304
    then some (record c { mie = value })
    else if addr == 0x305
    then some (record c { mtvec = value })
    else if addr == 0x306
    then some (record c { mcounteren = value })
    else if addr == 0x320
    then some (record c { mcountinhibit = value })
    else if addr == 0x340
    then some (record c { mscratch = value })
    else if addr == 0x341
    then some (record c { mepc = value })
    else if addr == 0x342
    then some (record c { mcause = value })
    else if addr == 0x343
    then some (record c { mtval = value })
    else if addr == 0x344
    then some (record c { mip = value })
    else if addr == 0x102
    then some (record c { sedeleg = value })
    else if addr == 0x103
    then some (record c { sideleg = value })
    else if addr == 0x105
    then some (record c { stvec = value })
    else if addr == 0x106
    then some (record c { scounteren = value })
    else if addr == 0x140
    then some (record c { sscratch = value })
    else if addr == 0x141
    then some (record c { sepc = value })
    else if addr == 0x142
    then some (record c { scause = value })
    else if addr == 0x143
    then some (record c { stval = value })
    else if addr == 0x180
    then some (record c { satp = value })
    else if addr == 0x005
    then some (record c { utvec = value })
    else if addr == 0x040
    then some (record c { uscratch = value })
    else if addr == 0x041
    then some (record c { uepc = value })
    else if addr == 0x042
    then some (record c { ucause = value })
    else if addr == 0x043
    then some (record c { utval = value })
    else if addr == 0x003
    then some (record c { fcsr = value })
    else if addr == 0x008
    then some (record c { vstart = value })
    else if addr == 0x009
    then some (record c { vxsat = value })
    else if addr == 0x00A
    then some (record c { vxrm = value })
    else if addr == 0x00F
    then some (record c { vcsr = value })
    else if addr == 0xC20
    then some (record c { vl = value })
    else if addr == 0xC21
    then some (record c { vtype = value })
    else if addr == 0xC22
    then some (record c { vlenb = value })
    else if leb 0x3B0 addr && leb addr 0x3BF
    then some (record c { pmpaddr = update c.pmpaddr (addr - 0x3B0) value })
    else if leb 0x3A0 addr && leb addr 0x3A3
    then some (record c { pmpcfg = update c.pmpcfg (addr - 0x3A0) value })
    else none

abbrev pub mie_mask : ℕ
mie_mask = 0xbbb

abbrev pub sie_mask : ℕ
sie_mask = 0x333

abbrev pub uie_mask : ℕ
uie_mask = 0x111

abbrev pub mip_write_mask : ℕ
mip_write_mask = 0x333

abbrev pub mip_read_mask : ℕ
mip_read_mask = mie_mask

abbrev pub sip_mask : ℕ
sip_mask = 0x3

abbrev pub uip_mask : ℕ
uip_mask = 0x1

abbrev pub medeleg_mask : ℕ
medeleg_mask = 0xbbff

abbrev pub mideleg_mask : ℕ
mideleg_mask = mie_mask

abbrev pub mtvec_mask : ℕ
mtvec_mask = 0xfffffffd

abbrev pub mcounteren_mask : ℕ
mcounteren_mask = 0x7

abbrev pub mcountinhibit_mask : ℕ
mcountinhibit_mask = 0x5

abbrev pub sedeleg_mask : ℕ
sedeleg_mask = 0xb1ff

abbrev pub sideleg_mask : ℕ
sideleg_mask = mideleg_mask

abbrev pub mstatus_write_mask : ℕ
mstatus_write_mask = 0x807fffbb

abbrev pub mstatus_read_mask : ℕ
mstatus_read_mask = 0x807ffffb

abbrev pub sstatus_write_mask : ℕ
sstatus_write_mask = 0x800de733

abbrev pub sstatus_read_mask : ℕ
sstatus_read_mask = 0x800de773

abbrev pub ustatus_write_mask : ℕ
ustatus_write_mask = 0x11

abbrev pub ustatus_read_mask : ℕ
ustatus_read_mask = 0x51

abbrev pub mstatush_write_mask : ℕ
mstatush_write_mask = 0x0

abbrev pub mstatush_read_mask : ℕ
mstatush_read_mask = 0x30

abbrev pub satp_mask : ℕ
satp_mask = 0x803fffff

abbrev pub fcsr_mask : ℕ
fcsr_mask = 0xff

abbrev pub vtype_mask : ℕ
vtype_mask = 0x800000ff

abbrev pub vxrm_mask : ℕ
vxrm_mask = 0x3

abbrev pub vxsat_mask : ℕ
vxsat_mask = 0x1

abbrev pub vcsr_mask : ℕ
vcsr_mask = 0x7
