-- ===== src/Mmu/Total.antt =====
-- When the walk returns, and the fault that it raises when it does not.
use riscv_vp_plusplus.Base.{
  ℕ, zero, suc, ◌*◌, ◌/◌, ◌%◌, ◌^◌, ◌<◌, ◌≤◌, bit_and, bit_or, Bool, true, false, ◌≡◌, refl, ◌∙◌,
  inl, inr, ◌⊎◌, arith, ◌==◌, Bool-cases, if-both, ◌!=◌, u32, some, Option-cases,
}
use riscv_vp_plusplus.Rv32.State.{SimulationTrap, supervisor_mode, Core}
use riscv_vp_plusplus.Mmu.{
  MmuCore, MemoryAccessType, fetch, load, store, MmuMemory, VmInfo, Access, done, raised, load_pte,
  pte_address, check_pte, finish_leaf, accessed_dirty, leaf_paddr, walk_levels, walk_fault, walk,
  decode_vm_info, scheme, check_vaddr_extension, highbit, mmu_core,
}
use riscv_vp_plusplus.Mmu.Address.{frame_below}
use riscv_vp_plusplus.Mmu.Walk.{Verdict-cases, Leads, Leads-walk_levels}
use riscv_vp_plusplus.Mmu.Sound.{IsWordMemory, walk-IsTranslated, Leads-IsLeafFor}

-- Every access of the walk to memory returns.
abbrev pub IsTotalMemory : {S : Type 0} → MmuMemory S → Type 0
IsTotalMemory {S = S} mem =
    ((s : S) (addr : ℕ) → (s' : S) × (pte : ℕ) × (mem.mmu_load_pte32 s addr ≡ done s' pte))
    × ((s : S) (addr : ℕ) → (s' : S) × (pte : ℕ) × (mem.mmu_load_pte64 s addr ≡ done s' pte))
    × ((s : S) (addr value : ℕ)
        → (s' : S) × (r : ℕ) × (mem.mmu_store_pte32 s addr value ≡ done s' r))

-- The page fault of an access, with the exception code of its type and the address for its value.
abbrev pub IsPageFault : MemoryAccessType → ℕ → SimulationTrap → Type 0
IsPageFault type vaddr e =
    (((type ≡ fetch) × (e.reason ≡ 12))
      ⊎ ((type ≡ load) × (e.reason ≡ 13))
      ⊎ ((type ≡ store) × (e.reason ≡ 15)))
    × (e.mtval ≡ vaddr)

walk_fault-IsPageFault :
    (type : MemoryAccessType) (vaddr : ℕ) → IsPageFault type vaddr (walk_fault type vaddr)
unfolding walk_fault
walk_fault-IsPageFault fetch vaddr = (inl (refl, refl), refl)
walk_fault-IsPageFault load vaddr = (inr (inl (refl, refl)), refl)
walk_fault-IsPageFault store vaddr = (inr (inr (refl, refl)), refl)

-- An access that returns, or that raises the page fault of its type at its address.
abbrev pub IsDoneOrFault : {S : Type 0} → MemoryAccessType → ℕ → Access S ℕ → Type 0
IsDoneOrFault {S = S} type vaddr r =
    ((s : S) × (paddr : ℕ) × (r ≡ done s paddr))
    ⊎ ((s : S) × (e : SimulationTrap) × (r ≡ raised s e) × IsPageFault type vaddr e)

is_fault :
    {S : Type 0} (type : MemoryAccessType) (vaddr : ℕ) (s : S) (r : Access S ℕ)
    → r ≡ raised s (walk_fault type vaddr)
    → IsDoneOrFault type vaddr r
is_fault type vaddr s r e = inr (s, walk_fault type vaddr, e, walk_fault-IsPageFault type vaddr)

module _ {S : Type 0} (mem : MmuMemory S) (total : IsTotalMemory mem) (c : MmuCore)
    (type : MemoryAccessType) (vaddr : ℕ) where
  load_pte-done :
      (vm : VmInfo) (s : S) (addr : ℕ)
      → (s' : S) × (pte : ℕ) × (load_pte mem vm s addr ≡ done s' pte)
  unfolding load_pte
  load_pte-done vm s addr = elim (Bool-cases (vm.ptesize == 4)) [
    | inl four ↦ let (s', pte, e) = total.0 s addr in (s', pte, rw (four, e) refl)
    | inr other ↦ let (s', pte, e) = total.1 s addr in (s', pte, rw (other, e) refl)
  ]

  finish_leaf_total :
      (ptshift pte_paddr pte : ℕ) (s : S)
      → IsDoneOrFault type vaddr (finish_leaf mem c type vaddr ptshift pte_paddr pte s)
  unfolding finish_leaf
  finish_leaf_total ptshift pte_paddr pte s =
      let ad = accessed_dirty type in
      let (s1, r, e) = total.2 s pte_paddr (u32 (bit_or pte ad)) in
      if-both (IsDoneOrFault type vaddr) (bit_and pte ad != ad) _ _
        (if-both (IsDoneOrFault type vaddr) c.page_fault_on_ad _ _ (is_fault type vaddr s _ refl)
          (inl (s1, leaf_paddr ptshift pte vaddr, rw e refl)))
        (inl (s, leaf_paddr ptshift pte vaddr, refl))

  finish_leaf_returns :
      (ptshift pte_paddr pte : ℕ) (s : S)
      → c.page_fault_on_ad ≡ false
      → (s' : S) × (finish_leaf mem c type vaddr ptshift pte_paddr pte s
          ≡ done s' (leaf_paddr ptshift pte vaddr))
  unfolding finish_leaf
  finish_leaf_returns ptshift pte_paddr pte s update =
      let ad = accessed_dirty type in
      let (s1, r, e) = total.2 s pte_paddr (u32 (bit_or pte ad)) in
      elim (Bool-cases (bit_and pte ad != ad)) [
        | inl stale ↦ (s1, rw (finish_leaf, stale, update, e) refl)
        | inr fresh ↦ (s, rw (finish_leaf, fresh) refl)
      ]

  walk_levels_total :
      (vm : VmInfo) (s_mode : Bool) (levels base : ℕ) (s : S)
      → IsDoneOrFault type vaddr (walk_levels mem c vm type s_mode vaddr levels base s)
  unfolding walk_levels
  walk_levels_total vm s_mode zero base s = is_fault type vaddr s _ refl
  walk_levels_total vm s_mode (suc i) base s =
      let (s1, pte, e) = load_pte-done vm s (pte_address vm (i * vm.idxbits) base vaddr) in
      elim (Verdict-cases (check_pte c type s_mode (i * vm.idxbits) pte)) [
        | inl f ↦ is_fault type vaddr s1 _ (rw (walk_levels, e, f) refl)
        | inr (inl d) ↦
            rw (walk_levels, e, d)
              (walk_levels_total vm s_mode i (pte / 2 ^ 10 * 2 ^ 12 % 2 ^ 64) s1)
        | inr (inr l) ↦
            rw (walk_levels, e, l)
              (finish_leaf_total (i * vm.idxbits) (pte_address vm (i * vm.idxbits) base vaddr) pte
                s1)
      ]

-- Where every access to memory returns, the scheme is known and it fits the width of the core,
-- `walk` returns an address, or raises exception 12 for a fetch, 13 for a load or 15 for a store
-- with the virtual address as its value, and does nothing else.
pub walk_total :
    {S : Type 0} (mem : MmuMemory S) (c : MmuCore) (vaddr : ℕ) (type : MemoryAccessType) (mode : ℕ)
    (vm : VmInfo) (s : S)
    → IsTotalMemory mem
    → decode_vm_info c ≡ scheme vm
    → highbit vm ≤ c.xlen
    → IsDoneOrFault type vaddr (walk mem c vaddr type mode s)
unfolding walk check_vaddr_extension
walk_total mem c vaddr type mode vm s total known wide =
    elim (Option-cases (check_vaddr_extension c vaddr vm)) [
      | inl bad ↦ absurd (ground arith)
      | inr (false, over) ↦ is_fault type vaddr s _ (rw (walk, known, over) refl)
      | inr (true, fits) ↦
          rw (walk, known, fits)
            (walk_levels_total mem total c type vaddr vm (mode == supervisor_mode) vm.levels
              vm.ptbase s)
    ]

-- Where every access to memory returns, A and D bits are set by the walk, the scheme is known and
-- the address is sign extended, a leaf that the tables lead to and that grants the access makes
-- `walk` return the address in its frame.
pub walk_complete :
    {S : Type 0} (mem : MmuMemory S) (c : MmuCore) (vaddr : ℕ) (type : MemoryAccessType) (mode : ℕ)
    (vm : VmInfo) (s s1 : S) (ptshift pte_paddr pte : ℕ)
    → IsTotalMemory mem
    → c.page_fault_on_ad ≡ false
    → decode_vm_info c ≡ scheme vm
    → check_vaddr_extension c vaddr vm ≡ some true
    → Leads mem c vm type
        (mode == supervisor_mode)
        vaddr
        vm.levels
        vm.ptbase
        s
        ptshift
        pte_paddr
        pte
        s1
    → (s' : S) × (walk mem c vaddr type mode s ≡ done s' (leaf_paddr ptshift pte vaddr))
unfolding walk finish_leaf
walk_complete mem c vaddr type mode vm s s1 ptshift pte_paddr pte total update known fits leads =
    let s_mode = mode == supervisor_mode in
    let run = Leads-walk_levels mem c vm type s_mode vaddr leads in
    let ran : walk mem c vaddr type mode s ≡ finish_leaf mem c type vaddr ptshift pte_paddr pte s1 =
      rw (walk, known, fits) run in
    let (s', e) = finish_leaf_returns mem total c type vaddr ptshift pte_paddr pte s1 update in
    (s', ran ∙ e)

sv32 :
    (core : Core) (page_fault_on_ad : Bool) (vm : VmInfo)
    → decode_vm_info (mmu_core core page_fault_on_ad) ≡ scheme vm
    → (vm.ptesize ≡ 4) × (vm.idxbits ≡ 10) × (vm.levels ≡ 2)
unfolding mmu_core decode_vm_info
sv32 core page_fault_on_ad vm h = ground arith

load_pte_small :
    {S : Type 0} (mem : MmuMemory S) (vm : VmInfo)
    → IsWordMemory mem
    → vm.ptesize ≡ 4
    → (s s' : S) (addr pte : ℕ) → load_pte mem vm s addr ≡ done s' pte
    → pte < 2 ^ 32
unfolding load_pte
load_pte_small mem vm words four s s' addr pte e =
    let test : (vm.ptesize == 4) ≡ true = ground arith in words.0 s s' addr pte (rw test at e)

-- On RV32, over a memory whose loads return words of their size, an address that `walk` returns
-- has 34 bits, and its offset in the page is that of the virtual address.
pub walk_rv32 :
    {S : Type 0} (mem : MmuMemory S) (core : Core) (page_fault_on_ad : Bool) (vaddr : ℕ)
    (type : MemoryAccessType) (mode : ℕ) (s s' : S) (paddr : ℕ)
    → IsWordMemory mem
    → walk mem (mmu_core core page_fault_on_ad) vaddr type mode s ≡ done s' paddr
    → (paddr < 2 ^ 34) × (paddr % 2 ^ 12 ≡ vaddr % 2 ^ 12)
unfolding mmu_core
walk_rv32 mem core page_fault_on_ad vaddr type mode s s' paddr words h =
    let c = mmu_core core page_fault_on_ad in
    let (vm, known, (ptshift, pte_paddr, pte, s1, leads, is_leaf, e)) =
      walk-IsTranslated mem c vaddr type mode s s' paddr words h in
    let shape = sv32 core page_fault_on_ad vm known in
    let (low, word, _) =
      Leads-IsLeafFor mem c vm type (mode == supervisor_mode) vaddr (2 ^ 32)
        (load_pte_small mem vm words shape.0) leads in
    let shift : ptshift ≤ 10 =
      let e : vm.levels * vm.idxbits ≡ 20 = rw (shape.1, shape.2) refl in omega arith in
    let ppn_lt =
      frame_below ptshift (pte / 2 ^ 10) (vaddr / 2 ^ 12) (omega arith) (omega arith) is_leaf.4 in
    (omega arith, omega arith)
