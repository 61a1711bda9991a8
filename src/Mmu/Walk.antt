-- ===== src/Mmu/Walk.antt =====
-- The page table walk against the page tables: which entries it reads, and the address it returns.
use riscv_vp_plusplus.Base.{
  ℕ, zero, suc, ◌*◌, ◌/◌, ◌%◌, ◌^◌, Bool, ◌≡◌, ◌≢◌, refl, sym, ◌∙◌, inl, inr, ◌⊎◌, arith,
}
use riscv_vp_plusplus.Rv32.State.{SimulationTrap}
use riscv_vp_plusplus.Mmu.{
  MmuCore, MemoryAccessType, MmuMemory, VmInfo, Access, done, raised, stop, load_pte, pte_address,
  check_pte, leaf, descend, fault, Verdict, finish_leaf, walk_levels, walk_fault,
}
use riscv_vp_plusplus.Mmu.Pte.{IsPointer, IsLeafFor, check_pte-leaf, check_pte-descend, leaf_found}

pub Access-cases :
    {S A : Type 0} (r : Access S A)
    → ((s : S) × (a : A) × (r ≡ done s a))
      ⊎ (((s : S) × (e : SimulationTrap) × (r ≡ raised s e)) ⊎ (r ≡ stop))
Access-cases (done s a) = inl (s, a, refl)
Access-cases (raised s e) = inr (inl (s, e, refl))
Access-cases stop = inr (inr refl)

pub raised_ne_done :
    {S A : Type 0} {r : Access S A} {s s' : S} {e : SimulationTrap} {a : A}
    → r ≡ raised s e
    → r ≢ done s' a
raised_ne_done h e = ground arith

pub stop_ne_done : {S A : Type 0} {r : Access S A} {s' : S} {a : A} → r ≡ stop → r ≢ done s' a
stop_ne_done h e = ground arith

pub Verdict-cases : (v : Verdict) → (v ≡ fault) ⊎ ((v ≡ descend) ⊎ (v ≡ leaf))
Verdict-cases v = ground arith

module _ {S : Type 0} (mem : MmuMemory S) (c : MmuCore) (vm : VmInfo) (type : MemoryAccessType)
    (s_mode : Bool) (vaddr : ℕ) where
  -- From the table at `base`, with `levels` levels left, the entries for `vaddr` lead through
  -- pointers to the leaf `pte`, which is at `pte_paddr` and maps pages of `2 ^ ptshift` frames.
  pub data Leads : ℕ → ℕ → S → (ptshift pte_paddr pte : ℕ) → S → Type 0 where
    found :
        {i base : ℕ} {s s' : S} {pte : ℕ}
        → load_pte mem vm s (pte_address vm (i * vm.idxbits) base vaddr) ≡ done s' pte
        → IsLeafFor c type s_mode (i * vm.idxbits) pte
        → Leads (suc i) base s (i * vm.idxbits) (pte_address vm (i * vm.idxbits) base vaddr) pte s'
    deeper :
        {i base : ℕ} {s s' s'' : S} {pointer ptshift pte_paddr pte : ℕ}
        → load_pte mem vm s (pte_address vm (i * vm.idxbits) base vaddr) ≡ done s' pointer
        → IsPointer pointer
        → Leads i (pointer / 2 ^ 10 * 2 ^ 12 % 2 ^ 64) s' ptshift pte_paddr pte s''
        → Leads (suc i) base s ptshift pte_paddr pte s''

  pub Leads-walk_levels :
      {levels base : ℕ} {s s' : S} {ptshift pte_paddr pte : ℕ}
      → Leads levels base s ptshift pte_paddr pte s'
      → walk_levels mem c vm type s_mode vaddr levels base s
        ≡ finish_leaf mem c type vaddr ptshift pte_paddr pte s'
  unfolding walk_levels
  Leads-walk_levels (found {i = i} {pte = pte} e is_leaf) =
      let ok_leaf = leaf_found c (i * vm.idxbits) pte type s_mode is_leaf in
      rw (walk_levels, e, ok_leaf) refl
  Leads-walk_levels (deeper {i = i} {pointer = pointer} e is_pointer rest) =
      let down = (check_pte-descend c (i * vm.idxbits) pointer type s_mode).1 is_pointer in
      rw (walk_levels, e, down) (Leads-walk_levels rest)

  pub walk_levels-Leads :
      (levels base : ℕ) (s s' : S) (paddr : ℕ)
      → walk_levels mem c vm type s_mode vaddr levels base s ≡ done s' paddr
      → (ptshift : ℕ) × (pte_paddr : ℕ) × (pte : ℕ) × (s1 : S) × Leads levels base s ptshift
          pte_paddr pte s1
        × (finish_leaf mem c type vaddr ptshift pte_paddr pte s1 ≡ done s' paddr)
  unfolding walk_levels
  walk_levels-Leads zero base s s' paddr h = absurd (ground arith)
  walk_levels-Leads (suc i) base s s' paddr h =
      elim (Access-cases (load_pte mem vm s (pte_address vm (i * vm.idxbits) base vaddr))) [
        | inr (inl (s1, trap, e)) ↦
            absurd (raised_ne_done {s = s1} {e = trap} (rw (walk_levels, e) refl) h)
        | inr (inr e) ↦ absurd (stop_ne_done (rw (walk_levels, e) refl) h)
        | inl (s1, pte, e) ↦ elim (Verdict-cases (check_pte c type s_mode (i * vm.idxbits) pte)) [
          | inl f ↦
              absurd (
                raised_ne_done {s = s1} {e = walk_fault type vaddr} (rw (walk_levels, e, f) refl) h)
          | inr (inl d) ↦
              let (ptshift, pte_paddr, leaf_pte, s2, rest, finish) =
                walk_levels-Leads i (pte / 2 ^ 10 * 2 ^ 12 % 2 ^ 64) s1 s' paddr
                  (sym (rw (walk_levels, e, d) refl) ∙ h) in
              let pointer = (check_pte-descend c (i * vm.idxbits) pte type s_mode).0 d in
              (ptshift, pte_paddr, leaf_pte, s2, deeper e pointer rest, finish)
          | inr (inr l) ↦
              let is_leaf = check_pte-leaf c (i * vm.idxbits) pte type s_mode l in
              (
                i * vm.idxbits,
                pte_address vm (i * vm.idxbits) base vaddr,
                pte,
                s1,
                found e is_leaf,
                sym (rw (walk_levels, e, l) refl) ∙ h,
              )
        ]
      ]
