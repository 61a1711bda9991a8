-- ===== src/Mmu/Page.antt =====
-- The walk is the same for all the addresses of a page, but for the offset in the page.
use native.Mathlib.Nat.{div-div-eq-div-mul}
use riscv_vp_plusplus.Base.{
  ℕ, ◌+◌, ◌-◌, ◌*◌, ◌/◌, ◌%◌, ◌^◌, ◌≤◌, ◌<◌, bit_and, bit_or, Bool, ◌≡◌, refl, sym, ap, ◌∙◌, arith,
  ◌==◌, bit_and_field, bit_and_ones, bit_or_low, two_pow_split,
}
use riscv_vp_plusplus.Rv32.State.{supervisor_mode}
use riscv_vp_plusplus.Mmu.{
  MmuCore, MemoryAccessType, MmuMemory, VmInfo, done, pte_address, finish_leaf, leaf_paddr, walk,
  decode_vm_info, scheme, check_vaddr_extension, highbit,
}
use riscv_vp_plusplus.Mmu.Walk.{Leads, found, deeper, walk_levels-Leads, Leads-walk_levels}
use riscv_vp_plusplus.Mmu.Sound.{walk-done, finish_leaf-done}

-- The page of an address, and another offset in it: what a TLB entry keeps, and what a hit returns.
abbrev pub page_of : ℕ → ℕ
page_of paddr = bit_and paddr (2 ^ 64 - 1 - (2 ^ 12 - 1))

abbrev pub at_offset : ℕ → ℕ → ℕ
at_offset ppn vaddr = bit_or ppn (bit_and vaddr (2 ^ 12 - 1))

page_of_joined :
    (n offset : ℕ)
    → offset < 2 ^ 12
    → page_of (bit_or (n * 2 ^ 12 % 2 ^ 64) offset) ≡ n * 2 ^ 12 % 2 ^ 64
page_of_joined n offset lt =
    let wrap : n * 2 ^ 12 % 2 ^ 64 ≡ n % 2 ^ 52 * 2 ^ 12 = omega arith in
    let mask : 2 ^ 64 - 1 - (2 ^ 12 - 1) ≡ (2 ^ 52 - 1) * 2 ^ 12 = refl in
    rw (wrap, bit_or_low 12 (n % 2 ^ 52) offset lt)
      (bit_and_field 52 12 (n % 2 ^ 52 * 2 ^ 12 + offset) ∙ omega arith)

levels_pos : (c : MmuCore) (vm : VmInfo) → decode_vm_info c ≡ scheme vm → 1 ≤ vm.idxbits * vm.levels
unfolding decode_vm_info
levels_pos c vm h = ground arith

module _ (va vb : ℕ) (same : va / 2 ^ 12 ≡ vb / 2 ^ 12) where
  high_same : (sh : ℕ) → va / 2 ^ (12 + sh) ≡ vb / 2 ^ (12 + sh)
  high_same sh =
      rw
        (
          two_pow_split 12 sh,
          sym (div-div-eq-div-mul va (2 ^ 12) (2 ^ sh)),
          sym (div-div-eq-div-mul vb (2 ^ 12) (2 ^ sh)),
          same,
        )
        refl

  leaf_paddr_page :
      (sh pte : ℕ) → at_offset (page_of (leaf_paddr sh pte va)) vb ≡ leaf_paddr sh pte vb
  unfolding leaf_paddr
  leaf_paddr_page sh pte =
      let n =
        bit_or (bit_and (pte / 2 ^ 10) (2 ^ 64 - 1 - (2 ^ sh - 1)))
          (bit_and (vb / 2 ^ 12) (2 ^ sh - 1)) in
      let low : bit_and va (2 ^ 12 - 1) < 2 ^ 12 = rw (bit_and_ones 12 va) (omega arith) in
      rw (same, page_of_joined n (bit_and va (2 ^ 12 - 1)) low) refl

  pte_address_page :
      (vm : VmInfo) (sh base : ℕ) → pte_address vm sh base va ≡ pte_address vm sh base vb
  unfolding pte_address
  pte_address_page vm sh base = rw (high_same sh) refl

  check_vaddr_extension_page :
      (c : MmuCore) (vm : VmInfo)
      → 1 ≤ vm.idxbits * vm.levels
      → check_vaddr_extension c va vm ≡ check_vaddr_extension c vb vm
  unfolding check_vaddr_extension highbit
  check_vaddr_extension_page c vm h =
      let e : vm.idxbits * vm.levels + 12 - 1 ≡ 12 + (vm.idxbits * vm.levels - 1) = omega arith in
      rw (e, high_same (vm.idxbits * vm.levels - 1)) refl

  module _ {S : Type 0} (mem : MmuMemory S) (c : MmuCore) (vm : VmInfo) (type : MemoryAccessType)
      (s_mode : Bool) where
    Leads-page :
        {levels base : ℕ} {s s' : S} {ptshift pte_paddr pte : ℕ}
        → Leads mem c vm type s_mode va levels base s ptshift pte_paddr pte s'
        → Leads mem c vm type s_mode vb levels base s ptshift pte_paddr pte s'
    Leads-page (found {i = i} {base = base} e is_leaf) =
        let address = pte_address_page vm (i * vm.idxbits) base in
        rw address (found (rw address at e) is_leaf)
    Leads-page (deeper {i = i} {base = base} e is_pointer rest) =
        deeper (rw (pte_address_page vm (i * vm.idxbits) base) at e) is_pointer (Leads-page rest)

  finish_leaf_page :
      {S : Type 0} (mem : MmuMemory S) (c : MmuCore) (type : MemoryAccessType)
      (sh pte_paddr pte : ℕ) (s s' : S) (paddr : ℕ)
      → finish_leaf mem c type va sh pte_paddr pte s ≡ done s' paddr
      → finish_leaf mem c type vb sh pte_paddr pte s ≡ done s' (leaf_paddr sh pte vb)
  unfolding finish_leaf
  finish_leaf_page mem c type sh pte_paddr pte s s' paddr h = ground arith

  pub walk_page :
      {S : Type 0} (mem : MmuMemory S) (c : MmuCore) (type : MemoryAccessType) (mode : ℕ) (s s' : S)
      (paddr : ℕ)
      → walk mem c va type mode s ≡ done s' paddr
      → walk mem c vb type mode s ≡ done s' (at_offset (page_of paddr) vb)
  unfolding walk
  walk_page mem c type mode s s' paddr h =
      let s_mode = mode == supervisor_mode in
      let (vm, known, fits, ran) = walk-done mem c va type mode s s' paddr h in
      let (sh, pte_paddr, pte, s1, leads, finish) =
        walk_levels-Leads mem c vm type s_mode va vm.levels vm.ptbase s s' paddr ran in
      let run = Leads-walk_levels mem c vm type s_mode vb (Leads-page mem c vm type s_mode leads) in
      let over = sym (check_vaddr_extension_page c vm (levels_pos c vm known)) ∙ fits in
      let finished = finish_leaf_page mem c type sh pte_paddr pte s1 s' paddr finish in
      let e = finish_leaf-done mem c type va sh pte_paddr pte s1 s' paddr finish in
      let last = sym (leaf_paddr_page sh pte) ∙ ap (λ (p : ℕ). at_offset (page_of p) vb) (sym e) in
      rw (walk, known, over) (run ∙ finished ∙ ap (done s') last)
