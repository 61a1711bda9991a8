-- ===== src/Mmu/Frozen.antt =====
-- A walk that may not set the A and D bits leaves memory as it is.
use riscv_vp_plusplus.Base.{ℕ, Bool, true, ◌≡◌, ◌==◌, ◌∙◌, inl, inr, arith, Bool-cases}
use riscv_vp_plusplus.Rv32.State.{supervisor_mode}
use riscv_vp_plusplus.Mmu.{
  MmuCore, MemoryAccessType, MmuMemory, VmInfo, done, load_pte, finish_leaf, walk,
}
use riscv_vp_plusplus.Mmu.Walk.{Leads, found, deeper, walk_levels-Leads}
use riscv_vp_plusplus.Mmu.Sound.{walk-done}

-- The loads of the walk leave memory as it is.
abbrev pub IsReadOnly : {S : Type 0} → MmuMemory S → Type 0
IsReadOnly {S = S} mem =
    ((s s' : S) (addr pte : ℕ) → mem.mmu_load_pte32 s addr ≡ done s' pte → s' ≡ s)
    × ((s s' : S) (addr pte : ℕ) → mem.mmu_load_pte64 s addr ≡ done s' pte → s' ≡ s)

module _ {S : Type 0} (mem : MmuMemory S) (c : MmuCore) (frozen : IsReadOnly mem) where
  load_pte_frozen :
      (vm : VmInfo) (s s' : S) (addr pte : ℕ) → load_pte mem vm s addr ≡ done s' pte → s' ≡ s
  unfolding load_pte
  load_pte_frozen vm s s' addr pte e = elim (Bool-cases (vm.ptesize == 4)) [
    | inl four ↦ frozen.0 s s' addr pte (rw four at e)
    | inr other ↦ frozen.1 s s' addr pte (rw other at e)
  ]

  Leads-frozen :
      (vm : VmInfo) (type : MemoryAccessType) (s_mode : Bool) (vaddr : ℕ) {levels base : ℕ}
      {s s' : S} {ptshift pte_paddr pte : ℕ}
      → Leads mem c vm type s_mode vaddr levels base s ptshift pte_paddr pte s'
      → s' ≡ s
  Leads-frozen vm type s_mode vaddr (found e is_leaf) = load_pte_frozen vm _ _ _ _ e
  Leads-frozen vm type s_mode vaddr (deeper e is_pointer rest) =
      Leads-frozen vm type s_mode vaddr rest ∙ load_pte_frozen vm _ _ _ _ e

  finish_leaf_frozen :
      (type : MemoryAccessType) (vaddr ptshift pte_paddr pte : ℕ) (s s' : S) (paddr : ℕ)
      → c.page_fault_on_ad ≡ true
      → finish_leaf mem c type vaddr ptshift pte_paddr pte s ≡ done s' paddr
      → s' ≡ s
  unfolding finish_leaf
  finish_leaf_frozen type vaddr ptshift pte_paddr pte s s' paddr fault_on_ad h = ground arith

  pub walk_frozen :
      (vaddr : ℕ) (type : MemoryAccessType) (mode : ℕ) (s s' : S) (paddr : ℕ)
      → c.page_fault_on_ad ≡ true
      → walk mem c vaddr type mode s ≡ done s' paddr
      → s' ≡ s
  walk_frozen vaddr type mode s s' paddr fault_on_ad h =
      let s_mode = mode == supervisor_mode in
      let (vm, known, fits, ran) = walk-done mem c vaddr type mode s s' paddr h in
      let (sh, pte_paddr, pte, s1, leads, finish) =
        walk_levels-Leads mem c vm type s_mode vaddr vm.levels vm.ptbase s s' paddr ran in
      finish_leaf_frozen type vaddr sh pte_paddr pte s1 s' paddr fault_on_ad finish
      ∙ Leads-frozen vm type s_mode vaddr leads
