-- ===== src/Examples/Translation.antt =====
-- A page table of SV32 with a pointer and a leaf, in a memory of words, and the MMU on it.
use riscv_vp_plusplus.Base.{
  ℕ, ◌%◌, ◌^◌, ◌*◌, ◌+◌, ◌<◌, ◌≡◌, ◌==◌, ◌↔◌, refl, sym, inl, arith, true, false, if◌then◌else◌,
}
use riscv_vp_plusplus.Rv32.State.{Core}
use riscv_vp_plusplus.Mmu.{
  VmInfo, MmuMemory, done, load, mmu_core, walk, decode_vm_info, check_vaddr_extension, highbit,
  pte_address, leaf_paddr, load_pte,
}
use riscv_vp_plusplus.Mmu.Tlb.{
  TlbState, flush_tlb, effective_mode, translate_virtual_to_physical_addr, fill_tlb,
}
use riscv_vp_plusplus.Mmu.Walk.{Leads, found, deeper}
use riscv_vp_plusplus.Mmu.Sound.{IsWordMemory, IsTranslated, walk-IsTranslated}
use riscv_vp_plusplus.Mmu.Total.{IsTotalMemory, IsDoneOrFault, walk_total, walk_complete, walk_rv32}
use riscv_vp_plusplus.Mmu.Frozen.{IsReadOnly}
use riscv_vp_plusplus.Mmu.Buffer.{
  done_inj, IsCoherent, flush_tlb-IsCoherent, translate_virtual_to_physical_addr-walk,
  translate_virtual_to_physical_addr-IsCoherent,
}
use riscv_vp_plusplus.Examples.{user_core}

abbrev Words : Type 0
Words = ℕ → ℕ

abbrev write_word : Words → ℕ → ℕ → Words
write_word s addr value a = if a == addr then value else s a

abbrev word_memory : MmuMemory Words
word_memory = record {
  mmu_load_pte64 = λ s addr. done s (s addr % 2 ^ 64);
  mmu_load_pte32 = λ s addr. done s (s addr % 2 ^ 32);
  mmu_store_pte32 = λ s addr value. done (write_word s addr value) 0;
}

-- A pointer at 0x1000, and at 0x2004 a leaf with all its flags.
abbrev tables : Words
tables a = if a == 0x1000 then 0x801 else if a == 0x2004 then 5 * 1024 + 223 else 0

-- A hart in user mode with its root table in frame 1.
abbrev paged_core : Core
paged_core = record user_core { csrs = record user_core.csrs { satp = 2 ^ 31 + 1 } }

word_memory-IsWordMemory : IsWordMemory word_memory
word_memory-IsWordMemory = (λ s s' addr pte h. ground arith, λ s s' addr pte h. ground arith)

word_memory-IsTotalMemory : IsTotalMemory word_memory
word_memory-IsTotalMemory =
    (λ s addr. (s, _, refl), λ s addr. (s, _, refl), λ s addr value. (_, 0, refl))

word_memory-IsReadOnly : IsReadOnly word_memory
word_memory-IsReadOnly = (λ s s' addr pte h. ground arith, λ s s' addr pte h. ground arith)

abbrev sv32_info : VmInfo
sv32_info = record { levels = 2; idxbits = 10; ptesize = 4; ptbase = 0x1000 }

tables-Leads :
    Leads word_memory
      (mmu_core paged_core false)
      sv32_info
      load
      false
      0x1234
      2
      0x1000
      tables
      0
      0x2004
      5343
      tables
unfolding pte_address load_pte mmu_core
tables-Leads =
    deeper {i = 1} {pointer = 0x801} refl (refl, refl, refl, refl)
      (found {i = 0} refl (refl, inl refl, inl refl, refl, refl))

walk-IsTranslated_example :
    IsTranslated word_memory (mmu_core paged_core true) 0x1234 load 0 tables 0x5234
unfolding walk mmu_core
walk-IsTranslated_example =
    walk-IsTranslated word_memory (mmu_core paged_core true) 0x1234 load 0 tables tables 0x5234
      word_memory-IsWordMemory refl

walk_complete_example :
    (s' : Words) × (walk word_memory (mmu_core paged_core false) 0x1234 load 0 tables
      ≡ done s' (leaf_paddr 0 5343 0x1234))
unfolding mmu_core decode_vm_info check_vaddr_extension
walk_complete_example =
    walk_complete word_memory (mmu_core paged_core false) 0x1234 load 0 sv32_info tables tables 0
      0x2004 5343 word_memory-IsTotalMemory refl refl refl tables-Leads

walk_total_example :
    IsDoneOrFault load 0x9000 (walk word_memory (mmu_core paged_core false) 0x9000 load 0 tables)
unfolding mmu_core decode_vm_info highbit
walk_total_example =
    walk_total word_memory (mmu_core paged_core false) 0x9000 load 0 sv32_info tables
      word_memory-IsTotalMemory refl (omega arith)

walk_rv32_example : (0x5234 < 2 ^ 34) × (0x5234 % 2 ^ 12 ≡ 0x1234 % 2 ^ 12)
unfolding walk mmu_core
walk_rv32_example =
    walk_rv32 word_memory paged_core true 0x1234 load 0 tables tables 0x5234
      word_memory-IsWordMemory refl

abbrev flushed : TlbState Words
flushed = record { memory = tables; tlb = flush_tlb }

translate_virtual_to_physical_addr-walk_example :
    ((s' : TlbState Words) × (translate_virtual_to_physical_addr word_memory
          (mmu_core paged_core true)
          0x1234
          load
          flushed
        ≡ done s' 0x5234))
    ↔ ((effective_mode (mmu_core paged_core true) load < 2)
        × ((m : Words) × (walk word_memory
                (mmu_core paged_core true)
                0x1234
                load
                (effective_mode (mmu_core paged_core true) load)
                tables
              ≡ done m 0x5234)))
unfolding mmu_core effective_mode
translate_virtual_to_physical_addr-walk_example =
    translate_virtual_to_physical_addr-walk word_memory (mmu_core paged_core true) 0x1234 load
      flushed 0x5234 (omega arith) (ground arith) (ground arith)
      (flush_tlb-IsCoherent word_memory (mmu_core paged_core true) tables)

translate_virtual_to_physical_addr-IsCoherent_example :
    IsCoherent word_memory
      (mmu_core paged_core false)
      (record { memory = tables; tlb = fill_tlb flush_tlb 0x1234 load 0 0x5234 })
unfolding walk translate_virtual_to_physical_addr mmu_core flush_tlb effective_mode
translate_virtual_to_physical_addr-IsCoherent_example =
    translate_virtual_to_physical_addr-IsCoherent word_memory (mmu_core paged_core false) 0x1234
      load flushed (record { memory = tables; tlb = fill_tlb flush_tlb 0x1234 load 0 0x5234 })
      0x5234 (λ m found e. sym (done_inj e).0)
      (flush_tlb-IsCoherent word_memory (mmu_core paged_core false) tables) refl
