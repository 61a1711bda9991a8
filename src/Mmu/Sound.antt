-- ===== src/Mmu/Sound.antt =====
-- What the walk returns: it is the address that the page tables give, and a fault is the fault of
-- the access.
use riscv_vp_plusplus.Base.{
  ℕ, suc, ◌+◌, ◌*◌, ◌/◌, ◌%◌, ◌^◌, ◌<◌, ◌≤◌, Bool, true, false, ◌≡◌, refl, sym, ◌∙◌, inl, inr, ◌⊎◌,
  arith, ◌==◌, Bool-cases, Option-cases, some,
}
use riscv_vp_plusplus.Rv32.State.{supervisor_mode}
use riscv_vp_plusplus.Mmu.{
  MmuCore, MemoryAccessType, MmuMemory, VmInfo, done, load_pte, finish_leaf, leaf_paddr,
  walk_levels, walk_fault, walk, decode_vm_info, scheme, unknown_mode, Decoded,
  check_vaddr_extension,
}
use riscv_vp_plusplus.Mmu.Pte.{IsLeafFor}
use riscv_vp_plusplus.Mmu.Address.{leaf_paddr_frame}
use riscv_vp_plusplus.Mmu.Walk.{
  stop_ne_done, raised_ne_done, Leads, found, deeper, walk_levels-Leads,
}

-- The entries that memory returns are words of their size.
abbrev pub IsWordMemory : {S : Type 0} → MmuMemory S → Type 0
IsWordMemory {S = S} mem =
    ((s s' : S) (addr pte : ℕ) → mem.mmu_load_pte32 s addr ≡ done s' pte → pte < 2 ^ 32)
    × ((s s' : S) (addr pte : ℕ) → mem.mmu_load_pte64 s addr ≡ done s' pte → pte < 2 ^ 64)

pub decode_vm_info_small :
    (c : MmuCore) (vm : VmInfo)
    → decode_vm_info c ≡ scheme vm
    → ((vm.idxbits ≡ 9) × (vm.levels ≤ 6)) ⊎ ((vm.idxbits ≡ 10) × (vm.levels ≡ 2))
unfolding decode_vm_info
decode_vm_info_small c vm h = ground arith

pub first_shift :
    (vm : VmInfo) (ptshift : ℕ)
    → ((vm.idxbits ≡ 9) × (vm.levels ≤ 6)) ⊎ ((vm.idxbits ≡ 10) × (vm.levels ≡ 2))
    → ptshift + vm.idxbits ≤ vm.levels * vm.idxbits
    → ptshift ≤ 45
first_shift vm ptshift (inl (nine, levels)) h =
    let e : vm.levels * vm.idxbits ≡ vm.levels * 9 = rw nine refl in omega arith
first_shift vm ptshift (inr (ten, two)) h =
    let e : vm.levels * vm.idxbits ≡ 20 = rw (ten, two) refl in omega arith

load_pte_word :
    {S : Type 0} (mem : MmuMemory S) (vm : VmInfo)
    → IsWordMemory mem
    → (s s' : S) (addr pte : ℕ) → load_pte mem vm s addr ≡ done s' pte
    → pte < 2 ^ 64
unfolding load_pte
load_pte_word mem vm (small, large) s s' addr pte e = elim (Bool-cases (vm.ptesize == 4)) [
  | inl four ↦ let lt : pte < 2 ^ 32 = small s s' addr pte (rw four at e) in omega arith
  | inr other ↦ large s s' addr pte (rw other at e)
]

module _ {S : Type 0} (mem : MmuMemory S) (c : MmuCore) (vm : VmInfo) (type : MemoryAccessType)
    (s_mode : Bool) (vaddr : ℕ) where
  -- The leaf is one, a word, and not above the first level.
  pub Leads-IsLeafFor :
      {levels base : ℕ} {s s' : S} {ptshift pte_paddr pte : ℕ} (bound : ℕ)
      → ((s s' : S) (addr pte : ℕ) → load_pte mem vm s addr ≡ done s' pte → pte < bound)
      → Leads mem c vm type s_mode vaddr levels base s ptshift pte_paddr pte s'
      → (ptshift + vm.idxbits ≤ levels * vm.idxbits)
        × (pte < bound)
        × IsLeafFor c type s_mode ptshift pte
  Leads-IsLeafFor bound words (found {i = i} {s = s} {s' = s'} {pte = pte} e is_leaf) =
      (grind arith, words s s' _ pte e, is_leaf)
  Leads-IsLeafFor bound words (deeper {i = i} e is_pointer rest) =
      let (low, word, is_leaf) = Leads-IsLeafFor bound words rest in
      let more : i * vm.idxbits ≤ suc i * vm.idxbits = grind arith in (omega arith, word, is_leaf)

pub finish_leaf-done :
    {S : Type 0} (mem : MmuMemory S) (c : MmuCore) (type : MemoryAccessType)
    (vaddr ptshift pte_paddr pte : ℕ) (s s' : S) (paddr : ℕ)
    → finish_leaf mem c type vaddr ptshift pte_paddr pte s ≡ done s' paddr
    → paddr ≡ leaf_paddr ptshift pte vaddr
unfolding finish_leaf
finish_leaf-done mem c type vaddr ptshift pte_paddr pte s s' paddr h = ground arith

-- The frame of the leaf, with the page number below its level, and the offset in the page.
abbrev pub frame_address : ℕ → ℕ → ℕ → ℕ
frame_address ptshift pte vaddr =
    (pte / 2 ^ 10 + vaddr / 2 ^ 12 % 2 ^ ptshift) * 2 ^ 12 % 2 ^ 64 + vaddr % 2 ^ 12

pub Decoded-cases : (d : Decoded) → ((vm : VmInfo) × (d ≡ scheme vm)) ⊎ (d ≡ unknown_mode)
Decoded-cases (scheme vm) = inl (vm, refl)
Decoded-cases unknown_mode = inr refl

-- A walk that returns has run its loop from the root, on a sign-extended address.
pub walk-done :
    {S : Type 0} (mem : MmuMemory S) (c : MmuCore) (vaddr : ℕ) (type : MemoryAccessType) (mode : ℕ)
    (s s' : S) (paddr : ℕ)
    → walk mem c vaddr type mode s ≡ done s' paddr
    → (vm : VmInfo) × (decode_vm_info c ≡ scheme vm)
      × (check_vaddr_extension c vaddr vm ≡ some true)
      × (walk_levels mem c vm type (mode == supervisor_mode) vaddr vm.levels vm.ptbase s
          ≡ done s' paddr)
unfolding walk
walk-done mem c vaddr type mode s s' paddr h = elim (Decoded-cases (decode_vm_info c)) [
  | inr unknown ↦ absurd (stop_ne_done (rw (walk, unknown) refl) h)
  | inl (vm, known) ↦ elim (Option-cases (check_vaddr_extension c vaddr vm)) [
    | inl bad ↦ absurd (stop_ne_done (rw (walk, known, bad) refl) h)
    | inr (false, over) ↦
        absurd (raised_ne_done {s = s} {e = walk_fault type vaddr} (rw (walk, known, over) refl) h)
    | inr (true, fits) ↦ (vm, known, fits, sym (rw (walk, known, fits) refl) ∙ h)
  ]
]

-- The tables lead from the root to a leaf that grants the access, and the address is the one that
-- its frame gives.
abbrev pub IsTranslated :
    {S : Type 0} → MmuMemory S → MmuCore → ℕ → MemoryAccessType → ℕ → S → ℕ → Type 0
IsTranslated {S = S} mem c vaddr type mode s paddr =
    (vm : VmInfo) × (decode_vm_info c ≡ scheme vm)
    × ((ptshift : ℕ) × (pte_paddr : ℕ) × (pte : ℕ) × (s1 : S) × Leads mem c vm type
          (mode == supervisor_mode) vaddr vm.levels vm.ptbase s ptshift pte_paddr pte s1
        × IsLeafFor c type (mode == supervisor_mode) ptshift pte
        × (paddr ≡ frame_address ptshift pte vaddr))

-- Over a memory whose loads return words of their size, an address that `walk` returns comes from
-- a leaf that the page tables lead to from the root: the leaf is valid, grants the access, may be
-- used in the mode and is aligned, and the address is its frame with the page number below its
-- level and the offset in the page.
pub walk-IsTranslated :
    {S : Type 0} (mem : MmuMemory S) (c : MmuCore) (vaddr : ℕ) (type : MemoryAccessType) (mode : ℕ)
    (s s' : S) (paddr : ℕ)
    → IsWordMemory mem
    → walk mem c vaddr type mode s ≡ done s' paddr
    → IsTranslated mem c vaddr type mode s paddr
walk-IsTranslated mem c vaddr type mode s s' paddr words h =
    let s_mode = mode == supervisor_mode in
    let (vm, known, fits, ran) = walk-done mem c vaddr type mode s s' paddr h in
    let (ptshift, pte_paddr, pte, s1, leads, finish) =
      walk_levels-Leads mem c vm type s_mode vaddr vm.levels vm.ptbase s s' paddr ran in
    let (low, word, is_leaf) =
      Leads-IsLeafFor mem c vm type s_mode vaddr (2 ^ 64) (load_pte_word mem vm words) leads in
    let shift : ptshift ≤ 45 = first_shift vm ptshift (decode_vm_info_small c vm known) low in
    let e = finish_leaf-done mem c type vaddr ptshift pte_paddr pte s1 s' paddr finish in
    let frame = leaf_paddr_frame ptshift pte vaddr (omega arith) word is_leaf.4 in
    (vm, known, (ptshift, pte_paddr, pte, s1, leads, is_leaf, e ∙ frame))
