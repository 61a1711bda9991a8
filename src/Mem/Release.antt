-- ===== src/Mem/Release.antt =====
-- An access that is not atomic never takes the bus lock: it leaves it as it is, or gives it back.
use riscv_vp_plusplus.Base.{
  ℕ, false, ◌==◌, ◌≡◌, refl, sym, ap, ◌∙◌, inl, inr, ◌⊎◌, arith, Bool-cases, ◌+◌, bit_and,
}
use mathlib.Core.Path.{subst}
use riscv_vp_plusplus.Bus.{BusLock, is_locked}
use riscv_vp_plusplus.Rv32.State.{supervisor_mode}
use riscv_vp_plusplus.Mmu.{MemoryAccessType, fetch, load, done, finish_leaf, walk}
use riscv_vp_plusplus.Mmu.Tlb.{effective_mode, translate_virtual_to_physical_addr}
use riscv_vp_plusplus.Mmu.Walk.{stop_ne_done, walk_levels-Leads}
use riscv_vp_plusplus.Mmu.Sound.{walk-done}
use riscv_vp_plusplus.Mmu.Buffer.{done_inj, walk_and_fill-done, translate_cases}
use riscv_vp_plusplus.Mem.{
  Interface, BusState, MemState, mmu_memory, raw_load_data, raw_store_data, v2p, load_data,
  load_instr, bind, with_tlb,
}
use riscv_vp_plusplus.Mem.Lock.{bind-done, with_tlb-done, raw_load_data-bus_lock}
use riscv_vp_plusplus.Mem.Hold.{Leads-bus_lock}

module _ {B : Type 0} (iface : Interface B) where
  -- The bus lock is as it was, or the hart does not hold it.
  abbrev pub IsKeptOrFree : BusLock → BusLock → Type 0
  IsKeptOrFree before after = (after ≡ before) ⊎ (is_locked after iface.hart_id ≡ false)

  pub IsKeptOrFree-trans :
      (a b c : BusLock) → IsKeptOrFree a b → IsKeptOrFree b c → IsKeptOrFree a c
  IsKeptOrFree-trans a b c f (inr free) = inr free
  IsKeptOrFree-trans a b c (inl e) (inl e') = inl (e' ∙ e)
  IsKeptOrFree-trans a b c (inr free) (inl e) =
      inr (subst (λ (x : BusLock). is_locked x iface.hart_id ≡ false) (sym e) free)

  module _ (type : MemoryAccessType) (vaddr : ℕ) where
    finish_leaf-IsKeptOrFree :
        (ptshift pte_paddr pte paddr : ℕ) (s s' : BusState B)
        → finish_leaf (mmu_memory iface) iface.core type vaddr ptshift pte_paddr pte s
          ≡ done s' paddr
        → IsKeptOrFree s.bus_lock s'.bus_lock
    unfolding finish_leaf mmu_memory raw_store_data is_locked
    finish_leaf-IsKeptOrFree ptshift pte_paddr pte paddr s s' h = ground arith

    walk-IsKeptOrFree :
        (mode paddr : ℕ) (s s' : BusState B)
        → walk (mmu_memory iface) iface.core vaddr type mode s ≡ done s' paddr
        → IsKeptOrFree s.bus_lock s'.bus_lock
    walk-IsKeptOrFree mode paddr s s' h =
        let mem = mmu_memory iface in
        let s_mode = mode == supervisor_mode in
        let (vm, known, fits, ran) = walk-done mem iface.core vaddr type mode s s' paddr h in
        let (sh, pte_paddr, pte, s1, leads, finish) =
          walk_levels-Leads mem iface.core vm type s_mode vaddr vm.levels vm.ptbase s s' paddr
            ran in
        IsKeptOrFree-trans s.bus_lock s1.bus_lock s'.bus_lock
          (inl (Leads-bus_lock iface type vaddr vm s_mode leads))
          (finish_leaf-IsKeptOrFree sh pte_paddr pte paddr s1 s' finish)

    v2p-IsKeptOrFree :
        (paddr : ℕ) (s s' : MemState B)
        → v2p iface s vaddr type ≡ done s' paddr
        → IsKeptOrFree s.memory.bus_lock s'.memory.bus_lock
    unfolding v2p
    v2p-IsKeptOrFree paddr s s' h =
        let mem = mmu_memory iface in
        elim (Bool-cases iface.mmu) [
          | inr no_mmu ↦
              let e : v2p iface s vaddr type ≡ done s vaddr = rw (v2p, no_mmu) refl in
              inl (ap (λ (t : MemState B). t.memory.bus_lock) (sym (done_inj (sym e ∙ h)).0))
          | inl has_mmu ↦
              let e : v2p iface s vaddr type
                  ≡ translate_virtual_to_physical_addr mem iface.core vaddr type s =
                rw (v2p, has_mmu) refl in
              elim (translate_cases mem iface.core vaddr type s) [
                | inl (p, f) ↦ inl (
                    ap (λ (t : MemState B). t.memory.bus_lock)
                      (sym (done_inj (sym f ∙ sym e ∙ h)).0))
                | inr (inr f) ↦ absurd (stop_ne_done f (sym e ∙ h))
                | inr (inl f) ↦
                    let mode = effective_mode iface.core type in
                    let (m, walked, state) =
                      walk_and_fill-done mem iface.core vaddr type mode s s' paddr
                        (sym f ∙ sym e ∙ h) in
                    IsKeptOrFree-trans s.memory.bus_lock m.bus_lock s'.memory.bus_lock
                      (walk-IsKeptOrFree mode paddr s.memory m walked)
                      (inl (ap (λ (t : MemState B). t.memory.bus_lock) state))
              ]
        ]

    -- A translation and the read behind it.
    read-IsKeptOrFree :
        (bytes value : ℕ) (s s' : MemState B)
        → bind
            (v2p iface s vaddr type)
            (λ s' paddr. with_tlb s' (raw_load_data iface bytes s'.memory paddr))
          ≡ done s' value
        → IsKeptOrFree s.memory.bus_lock s'.memory.bus_lock
    read-IsKeptOrFree bytes value s s' h =
        let (s1, paddr, e, f) = bind-done (v2p iface s vaddr type) _ s' value h in
        IsKeptOrFree-trans s.memory.bus_lock s1.memory.bus_lock s'.memory.bus_lock
          (v2p-IsKeptOrFree paddr s s1 e)
          (inl (
            raw_load_data-bus_lock iface bytes paddr value s1.memory s'.memory
              (with_tlb-done s1 s' (raw_load_data iface bytes s1.memory paddr) value f)))

  pub load_data-IsKeptOrFree :
      (bytes addr value : ℕ) (s s' : MemState B)
      → load_data iface bytes s addr ≡ done s' value
      → IsKeptOrFree s.memory.bus_lock s'.memory.bus_lock
  unfolding load_data
  load_data-IsKeptOrFree bytes addr value s s' h = read-IsKeptOrFree load addr bytes value s s' h

  -- Two halfwords, one after the other.
  halves-IsKeptOrFree :
      (first second : ℕ) (join : ℕ → ℕ → ℕ) (value : ℕ) (s s' : MemState B)
      → let halfword = λ (t : MemState B) (a : ℕ).
        bind
          (v2p iface t a fetch)
          (λ t' paddr. with_tlb t' (raw_load_data iface 2 t'.memory paddr)) in
        bind (halfword s first) (λ s1 x. bind (halfword s1 second) (λ s2 y. done s2 (join x y)))
          ≡ done s' value
        → IsKeptOrFree s.memory.bus_lock s'.memory.bus_lock
  halves-IsKeptOrFree first second join value s s' h =
      let (s1, x, e, f) = bind-done _ _ s' value h in
      let (s2, y, e2, f2) = bind-done _ _ s' value f in
      IsKeptOrFree-trans s.memory.bus_lock s1.memory.bus_lock s'.memory.bus_lock
        (read-IsKeptOrFree fetch first 2 x s s1 e)
        (IsKeptOrFree-trans s1.memory.bus_lock s2.memory.bus_lock s'.memory.bus_lock
          (read-IsKeptOrFree fetch second 2 y s1 s2 e2)
          (inl (ap (λ (t : MemState B). t.memory.bus_lock) (sym (done_inj f2).0))))

  pub load_instr-IsKeptOrFree :
      (addr value : ℕ) (s s' : MemState B)
      → load_instr iface s addr ≡ done s' value
      → IsKeptOrFree s.memory.bus_lock s'.memory.bus_lock
  unfolding load_instr
  load_instr-IsKeptOrFree addr value s s' h = elim (Bool-cases (bit_and addr 0xFFF == 0xFFE)) [
    | inr whole ↦ read-IsKeptOrFree fetch addr 4 value s s' (rw whole at h)
    | inl crosses ↦ elim (Bool-cases iface.upper_half_first) [
      | inl upper ↦ halves-IsKeptOrFree (addr + 2) addr _ value s s' (rw (crosses, upper) at h)
      | inr lower ↦ halves-IsKeptOrFree addr (addr + 2) _ value s s' (rw (crosses, lower) at h)
    ]
  ]
