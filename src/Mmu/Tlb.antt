-- ===== src/Mmu/Tlb.antt =====
-- vp/src/core/common/mmu.h: the TLB, and the translation that looks into it before it walks.
use riscv_vp_plusplus.Base.{
  ℕ, ◌-◌, ◌/◌, ◌%◌, ◌^◌, bit_and, bit_or, Bool, not, ◌&&◌, ◌||◌, ◌==◌, if◌then◌else◌,
}
use riscv_vp_plusplus.Rv32.State.{machine_mode, supervisor_mode, user_mode}
use riscv_vp_plusplus.Mmu.{
  MmuCore, MemoryAccessType, fetch, load, store, MmuMemory, Access, done, raised, stop, walk,
  is_fetch, is_load, is_store, satp_mode_bare,
}

-- `struct tlb_entry_t`, and the TLB by mode, access type and index.
pub record TlbEntry : Type 0 where
  pub ppn : ℕ
  pub vpn : ℕ

abbrev pub Tlb : Type 0
Tlb = ℕ → MemoryAccessType → ℕ → TlbEntry

pub record TlbState (S : Type 0) : Type 0 where
  pub memory : S
  pub tlb : Tlb

-- The empty entry: -1 in both fields.
abbrev pub flushed_entry : TlbEntry
flushed_entry = record { ppn = 2 ^ 64 - 1; vpn = 2 ^ 64 - 1 }

unfoldable pub flush_tlb : Tlb
flush_tlb mode type idx = flushed_entry

abbrev pub is_type : MemoryAccessType → MemoryAccessType → Bool
is_type fetch type = is_fetch type
is_type load type = is_load type
is_type store type = is_store type

unfoldable pub set_tlb : Tlb → ℕ → MemoryAccessType → ℕ → TlbEntry → Tlb
set_tlb tlb mode type idx entry mode' type' idx' =
    if mode == mode' && (is_type type type' && idx == idx') then entry else tlb mode' type' idx'

-- The entry that a walk leaves behind.
unfoldable pub fill_tlb : Tlb → ℕ → MemoryAccessType → ℕ → ℕ → Tlb
unfolding set_tlb
fill_tlb tlb vaddr type mode paddr =
    let vpn = vaddr / 2 ^ 12 in
    set_tlb tlb mode type (vpn % 256)
      (record { ppn = bit_and paddr (2 ^ 64 - 1 - (2 ^ 12 - 1)); vpn = vpn })

-- The mode that an access is translated for.
unfoldable pub effective_mode : MmuCore → MemoryAccessType → ℕ
effective_mode c type = if not (is_fetch type) && c.mprv then c.mpp else c.prv

-- The modes that the TLB has entries for.
abbrev pub has_entries : ℕ → Bool
has_entries mode = mode == user_mode || mode == supervisor_mode

module _ {S : Type 0} where
  -- The walk, and the entry that it leaves in the TLB.
  unfoldable pub walk_and_fill :
      MmuMemory S → MmuCore → ℕ → MemoryAccessType → ℕ → TlbState S → Access (TlbState S) ℕ
  unfolding walk fill_tlb set_tlb
  walk_and_fill mem c vaddr type mode s = elim (walk mem c vaddr type mode s.memory) [
    | done memory paddr ↦
        done (record { memory = memory; tlb = fill_tlb s.tlb vaddr type mode paddr }) paddr
    | raised memory e ↦ raised (record { memory = memory; tlb = s.tlb }) e
    | stop ↦ stop
  ]

  -- `stop` is the failed assertion on the mode.
  unfoldable pub translate_virtual_to_physical_addr :
      MmuMemory S → MmuCore → ℕ → MemoryAccessType → TlbState S → Access (TlbState S) ℕ
  unfolding effective_mode walk_and_fill
  translate_virtual_to_physical_addr mem c vaddr type s =
      let mode = effective_mode c type in
      let vpn = vaddr / 2 ^ 12 in
      let x = s.tlb mode type (vpn % 256) in
      if c.satp_mode == satp_mode_bare
      then done s vaddr
      else if mode == machine_mode
      then done s vaddr
      else if not (has_entries mode)
      then stop
      else if x.vpn == vpn
      then done s (bit_or x.ppn (bit_and vaddr (2 ^ 12 - 1)))
      else walk_and_fill mem c vaddr type mode s
