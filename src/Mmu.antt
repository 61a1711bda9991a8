-- ===== src/Mmu.antt =====
-- vp/src/core/common/mmu.h: `class MMU_T`, the page table walk and the TLB in front of it. The page
-- tables are reached through `mmu_memory_if` (core/common/mmu_mem_if.h).
pub mod Pte
pub mod Address
pub mod Walk
pub mod Sound
pub mod Tlb
pub mod Page
pub mod Frozen
pub mod Total
pub mod Buffer
use riscv_vp_plusplus.Base.{
  ℕ, zero, suc, ◌+◌, ◌-◌, ◌*◌, ◌/◌, ◌%◌, ◌^◌, bit_and, bit_or, Bool, true, false, not, ◌&&◌, ◌||◌,
  ◌==◌, ◌!=◌, if◌then◌else◌, u32, ltb, Option, none, some,
}
use riscv_vp_plusplus.Rv32.Csrs.{get_field}
use riscv_vp_plusplus.Rv32.State.{SimulationTrap, Core, machine_mode, supervisor_mode}

pub data MemoryAccessType : Type 0 where
  fetch : MemoryAccessType
  load : MemoryAccessType
  store : MemoryAccessType

-- An access to memory in the state `S`: it ends with a value, or raises a trap. `stop` is one that
-- does neither in this state: another exception, a shift that C++ leaves undefined, or the wait for
-- a bus that another hart has locked.
pub data Access (S A : Type 0) : Type 0 where
  done : S → A → Access S A
  raised : S → SimulationTrap → Access S A
  stop : Access S A

-- `struct mmu_memory_if`, without `v2p`. The store always returns or raises a trap.
pub record MmuMemory (S : Type 0) : Type 0 where
  pub mmu_load_pte64 : S → ℕ → Access S ℕ
  pub mmu_load_pte32 : S → ℕ → Access S ℕ
  pub mmu_store_pte32 : S → ℕ → ℕ → Access S ℕ

-- What the MMU reads of the core that it is a template over, and its own switch.
pub record MmuCore : Type 0 where
  pub xlen : ℕ
  pub prv : ℕ
  pub satp_mode : ℕ
  pub satp_ppn : ℕ
  pub mprv : Bool
  pub mpp : ℕ
  pub sum : Bool
  pub mxr : Bool
  pub page_fault_on_ad : Bool

-- These fields on RV32.
unfoldable pub mmu_core : Core → Bool → MmuCore
mmu_core c page_fault_on_ad = record {
  xlen = 32;
  prv = c.prv;
  satp_mode = get_field 31 1 c.csrs.satp;
  satp_ppn = get_field 0 22 c.csrs.satp;
  mprv = get_field 17 1 c.csrs.mstatus != 0;
  mpp = get_field 11 2 c.csrs.mstatus;
  sum = get_field 18 1 c.csrs.mstatus != 0;
  mxr = get_field 19 1 c.csrs.mstatus != 0;
  page_fault_on_ad = page_fault_on_ad;
}

abbrev pub pte_v : ℕ → Bool
pte_v pte = bit_and pte (2 ^ 0) != 0

abbrev pub pte_r : ℕ → Bool
pte_r pte = bit_and pte (2 ^ 1) != 0

abbrev pub pte_w : ℕ → Bool
pte_w pte = bit_and pte (2 ^ 2) != 0

abbrev pub pte_x : ℕ → Bool
pte_x pte = bit_and pte (2 ^ 3) != 0

abbrev pub pte_u : ℕ → Bool
pte_u pte = bit_and pte (2 ^ 4) != 0

abbrev pub satp_mode_bare : ℕ
satp_mode_bare = 0

-- `struct vm_info`.
pub record VmInfo : Type 0 where
  pub levels : ℕ
  pub idxbits : ℕ
  pub ptesize : ℕ
  pub ptbase : ℕ

-- `unknown_mode` is the std::runtime_error.
pub data Decoded : Type 0 where
  scheme : VmInfo → Decoded
  unknown_mode : Decoded

unfoldable pub decode_vm_info : MmuCore → Decoded
decode_vm_info c =
    let ptbase = c.satp_ppn * 2 ^ 12 % 2 ^ 64 in
    let mode = c.satp_mode in
    if mode == 1
    then scheme (record { levels = 2; idxbits = 10; ptesize = 4; ptbase = ptbase })
    else if mode == 8
    then scheme (record { levels = 3; idxbits = 9; ptesize = 8; ptbase = ptbase })
    else if mode == 9
    then scheme (record { levels = 4; idxbits = 9; ptesize = 8; ptbase = ptbase })
    else if mode == 10
    then scheme (record { levels = 5; idxbits = 9; ptesize = 8; ptbase = ptbase })
    else if mode == 11
    then scheme (record { levels = 6; idxbits = 9; ptesize = 8; ptbase = ptbase })
    else unknown_mode

unfoldable pub highbit : VmInfo → ℕ
highbit vm = vm.idxbits * vm.levels + 12 - 1

-- `none` is a shift by a negative count, which C++ leaves undefined (SV64 on a 64-bit core).
unfoldable pub check_vaddr_extension : MmuCore → ℕ → VmInfo → Option Bool
unfolding highbit
check_vaddr_extension c vaddr vm =
    let ext_mask = 2 ^ (c.xlen - highbit vm) - 1 in
    let bits = bit_and (vaddr / 2 ^ highbit vm) ext_mask in
    if ltb c.xlen (highbit vm) then none else some (bits == 0 || bits == ext_mask)

-- What an iteration of the loop in `walk` does with the entry that it has read.
pub data Verdict : Type 0 where
  fault : Verdict
  descend : Verdict
  leaf : Verdict

abbrev pub is_fetch : MemoryAccessType → Bool
is_fetch fetch = true
is_fetch load = false
is_fetch store = false

abbrev pub is_load : MemoryAccessType → Bool
is_load fetch = false
is_load load = true
is_load store = false

abbrev pub is_store : MemoryAccessType → Bool
is_store fetch = false
is_store load = false
is_store store = true

-- The guards of the loop, in their order, on the bits of the entry and the test of its alignment.
unfoldable pub check_bits :
    MmuCore → MemoryAccessType → Bool → (v r w x u misaligned : Bool) → Verdict
check_bits c type s_mode v r w x u misaligned =
    if not v || (not r && w)
    then fault
    else if not r && not x
    then descend
    else if is_fetch type && not x
    then fault
    else if is_load type && (not r && not (c.mxr && x))
    then fault
    else if is_store type && not (r && w)
    then fault
    else if u && (s_mode && (is_fetch type || not c.sum))
    then fault
    else if not u && not s_mode
    then fault
    else if misaligned
    then fault
    else leaf

unfoldable pub check_pte : MmuCore → MemoryAccessType → Bool → ℕ → ℕ → Verdict
unfolding check_bits
check_pte c type s_mode ptshift pte =
    check_bits c type s_mode (pte_v pte) (pte_r pte) (pte_w pte) (pte_x pte) (pte_u pte)
      (bit_and (pte / 2 ^ 10) (2 ^ ptshift - 1) != 0)

-- The A bit, and for a store the D bit.
abbrev pub accessed_dirty : MemoryAccessType → ℕ
accessed_dirty type = if is_store type then 2 ^ 6 + 2 ^ 7 else 2 ^ 6

unfoldable pub leaf_paddr : ℕ → ℕ → ℕ → ℕ
leaf_paddr ptshift pte vaddr =
    let ppn = pte / 2 ^ 10 in
    let mask = 2 ^ ptshift - 1 in
    let vpn = vaddr / 2 ^ 12 in
    let page = bit_or (bit_and ppn (2 ^ 64 - 1 - mask)) (bit_and vpn mask) in
    bit_or (page * 2 ^ 12 % 2 ^ 64) (bit_and vaddr (2 ^ 12 - 1))

-- The trap that `walk` raises after its loop.
unfoldable pub walk_fault : MemoryAccessType → ℕ → SimulationTrap
walk_fault fetch vaddr = record { reason = 12; mtval = vaddr }
walk_fault load vaddr = record { reason = 13; mtval = vaddr }
walk_fault store vaddr = record { reason = 15; mtval = vaddr }

unfoldable pub load_pte : {S : Type 0} → MmuMemory S → VmInfo → S → ℕ → Access S ℕ
load_pte mem vm s addr =
    if vm.ptesize == 4 then mem.mmu_load_pte32 s addr else mem.mmu_load_pte64 s addr

-- The address of the entry for `vaddr` in the table at `base`.
unfoldable pub pte_address : VmInfo → ℕ → ℕ → ℕ → ℕ
pte_address vm ptshift base vaddr =
    let vpn_field = bit_and (vaddr / 2 ^ (12 + ptshift)) (2 ^ vm.idxbits - 1) in
    (base + vpn_field * vm.ptesize) % 2 ^ 64

module _ {S : Type 0} where
  -- What the loop does at a leaf: the A and D bits, then the address.
  unfoldable pub finish_leaf :
      MmuMemory S → MmuCore → MemoryAccessType → ℕ → ℕ → ℕ → ℕ → S → Access S ℕ
  unfolding walk_fault leaf_paddr
  finish_leaf mem c type vaddr ptshift pte_paddr pte s =
      let ad = accessed_dirty type in
      if bit_and pte ad != ad
      then if c.page_fault_on_ad
        then raised s (walk_fault type vaddr)
        else elim (mem.mmu_store_pte32 s pte_paddr (u32 (bit_or pte ad))) [
          | done s' _ ↦ done s' (leaf_paddr ptshift pte vaddr)
          | raised s' e ↦ raised s' e
          | stop ↦ stop
        ]
      else done s (leaf_paddr ptshift pte vaddr)

  -- The loop of `walk` with `levels` iterations left: its `i` is `levels - 1`.
  unfoldable pub walk_levels :
      MmuMemory S
      → MmuCore
      → VmInfo
      → MemoryAccessType
      → Bool
      → ℕ
      → (levels : ℕ) → ℕ
      → S
      → Access S ℕ
  unfolding walk_fault load_pte pte_address check_pte finish_leaf
  walk_levels mem c vm type s_mode vaddr zero base s = raised s (walk_fault type vaddr)
  walk_levels mem c vm type s_mode vaddr (suc i) base s =
      let ptshift = i * vm.idxbits in
      let pte_paddr = pte_address vm ptshift base vaddr in
      elim (load_pte mem vm s pte_paddr) [
        | done s' pte ↦ elim (check_pte c type s_mode ptshift pte) [
          | fault ↦ raised s' (walk_fault type vaddr)
          | descend ↦ walk_levels mem c vm type s_mode vaddr i (pte / 2 ^ 10 * 2 ^ 12 % 2 ^ 64) s'
          | leaf ↦ finish_leaf mem c type vaddr ptshift pte_paddr pte s'
        ]
        | raised s' e ↦ raised s' e
        | stop ↦ stop
      ]

  unfoldable pub walk : MmuMemory S → MmuCore → ℕ → MemoryAccessType → ℕ → S → Access S ℕ
  unfolding decode_vm_info check_vaddr_extension highbit walk_levels
  walk mem c vaddr type mode s =
      let s_mode = mode == supervisor_mode in
      elim (decode_vm_info c) [
        | unknown_mode ↦ stop
        | scheme vm ↦ elim (check_vaddr_extension c vaddr vm) [
          | none ↦ stop
          | some extended ↦
              let levels = if extended then vm.levels else 0 in
              walk_levels mem c vm type s_mode vaddr levels vm.ptbase s
        ]
      ]
