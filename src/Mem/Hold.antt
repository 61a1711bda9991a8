-- ===== src/Mem/Hold.antt =====
-- An atomic load keeps the bus lock where the walk writes nothing.
use riscv_vp_plusplus.Base.{
  ℕ, Bool, true, false, ◌==◌, ◌≡◌, refl, sym, ap, ◌∙◌, inl, inr, ◌⊎◌, arith, Bool-cases,
  Option-cases, some,
}
use mathlib.Core.Path.{subst}
use riscv_vp_plusplus.Bus.{BusLock, lock, is_locked}
use riscv_vp_plusplus.Rv32.State.{supervisor_mode}
use riscv_vp_plusplus.Mmu.{MemoryAccessType, load, done, VmInfo, load_pte, finish_leaf, walk}
use riscv_vp_plusplus.Mmu.Tlb.{effective_mode, translate_virtual_to_physical_addr}
use riscv_vp_plusplus.Mmu.Walk.{stop_ne_done, Leads, found, deeper, walk_levels-Leads}
use riscv_vp_plusplus.Mmu.Sound.{walk-done}
use riscv_vp_plusplus.Mmu.Buffer.{done_inj, walk_and_fill-done, translate_cases}
use riscv_vp_plusplus.Mem.{
  Interface, BusState, MemState, mmu_memory, raw_load_data, v2p, load_data, locked,
  atomic_load_data,
}
use riscv_vp_plusplus.Mem.Lock.{holds, bind-done, with_tlb-done, raw_load_data-bus_lock}

module _ {B : Type 0} (iface : Interface B) where
  load_pte-bus_lock :
      (vm : VmInfo) (s s' : BusState B) (addr pte : ℕ)
      → load_pte (mmu_memory iface) vm s addr ≡ done s' pte
      → s'.bus_lock ≡ s.bus_lock
  unfolding load_pte mmu_memory
  load_pte-bus_lock vm s s' addr pte e = elim (Bool-cases (vm.ptesize == 4)) [
    | inl four ↦ raw_load_data-bus_lock iface 4 addr pte s s' (rw four at e)
    | inr other ↦ raw_load_data-bus_lock iface 8 addr pte s s' (rw other at e)
  ]

  module _ (type : MemoryAccessType) (vaddr : ℕ) where
    pub Leads-bus_lock :
        (vm : VmInfo) (s_mode : Bool) {levels base : ℕ} {s s' : BusState B}
        {ptshift pte_paddr pte : ℕ}
        → Leads
            (mmu_memory iface)
            iface.core
            vm
            type
            s_mode
            vaddr
            levels
            base
            s
            ptshift
            pte_paddr
            pte
            s'
        → s'.bus_lock ≡ s.bus_lock
    Leads-bus_lock vm s_mode (found e is_leaf) = load_pte-bus_lock vm _ _ _ _ e
    Leads-bus_lock vm s_mode (deeper e is_pointer rest) =
        Leads-bus_lock vm s_mode rest ∙ load_pte-bus_lock vm _ _ _ _ e

    finish_leaf-bus_lock :
        (ptshift pte_paddr pte paddr : ℕ) (s s' : BusState B)
        → iface.core.page_fault_on_ad ≡ true
        → finish_leaf (mmu_memory iface) iface.core type vaddr ptshift pte_paddr pte s
          ≡ done s' paddr
        → s'.bus_lock ≡ s.bus_lock
    unfolding finish_leaf
    finish_leaf-bus_lock ptshift pte_paddr pte paddr s s' fault_on_ad h = ground arith

    walk-bus_lock :
        (mode paddr : ℕ) (s s' : BusState B)
        → iface.core.page_fault_on_ad ≡ true
        → walk (mmu_memory iface) iface.core vaddr type mode s ≡ done s' paddr
        → s'.bus_lock ≡ s.bus_lock
    walk-bus_lock mode paddr s s' fault_on_ad h =
        let mem = mmu_memory iface in
        let s_mode = mode == supervisor_mode in
        let (vm, known, fits, ran) = walk-done mem iface.core vaddr type mode s s' paddr h in
        let (sh, pte_paddr, pte, s1, leads, finish) =
          walk_levels-Leads mem iface.core vm type s_mode vaddr vm.levels vm.ptbase s s' paddr
            ran in
        finish_leaf-bus_lock sh pte_paddr pte paddr s1 s' fault_on_ad finish
        ∙ Leads-bus_lock vm s_mode leads

    v2p-bus_lock :
        (paddr : ℕ) (s s' : MemState B)
        → (iface.mmu ≡ false) ⊎ (iface.core.page_fault_on_ad ≡ true)
        → v2p iface s vaddr type ≡ done s' paddr
        → s'.memory.bus_lock ≡ s.memory.bus_lock
    unfolding v2p
    v2p-bus_lock paddr s s' quiet h =
        let mem = mmu_memory iface in
        elim (Bool-cases iface.mmu) [
          | inr no_mmu ↦
              let e : v2p iface s vaddr type ≡ done s vaddr = rw (v2p, no_mmu) refl in
              ap (λ (t : MemState B). t.memory.bus_lock) (sym (done_inj (sym e ∙ h)).0)
          | inl has_mmu ↦
              let e : v2p iface s vaddr type
                  ≡ translate_virtual_to_physical_addr mem iface.core vaddr type s =
                rw (v2p, has_mmu) refl in
              let fault_on_ad : iface.core.page_fault_on_ad ≡ true = ground arith in
              elim (translate_cases mem iface.core vaddr type s) [
                | inl (p, f) ↦
                    ap (λ (t : MemState B). t.memory.bus_lock)
                      (sym (done_inj (sym f ∙ sym e ∙ h)).0)
                | inr (inr f) ↦ absurd (stop_ne_done f (sym e ∙ h))
                | inr (inl f) ↦
                    let mode = effective_mode iface.core type in
                    let (m, walked, state) =
                      walk_and_fill-done mem iface.core vaddr type mode s s' paddr
                        (sym f ∙ sym e ∙ h) in
                    ap (λ (t : MemState B). t.memory.bus_lock) state
                    ∙ walk-bus_lock mode paddr s.memory m fault_on_ad walked
              ]
        ]

  locked-holds : (s s0 : MemState B) → locked iface s ≡ some s0 → holds iface s0.memory ≡ true
  unfolding lock is_locked
  locked-holds s s0 h = ground arith

  -- Without an MMU, or where stale A and D bits fault, a hart holds the bus lock after each of its
  -- atomic loads that returns.
  pub atomic_load_data-holds :
      (bytes addr value : ℕ) (s s' : MemState B)
      → (iface.mmu ≡ false) ⊎ (iface.core.page_fault_on_ad ≡ true)
      → atomic_load_data iface bytes s addr ≡ done s' value
      → holds iface s'.memory ≡ true
  unfolding atomic_load_data load_data
  atomic_load_data-holds bytes addr value s s' quiet h = elim (Option-cases (locked iface s)) [
    | inl waits ↦ absurd (stop_ne_done (rw (atomic_load_data, waits) refl) h)
    | inr (s0, takes) ↦
        let opened : atomic_load_data iface bytes s addr ≡ load_data iface bytes s0 addr =
          rw (atomic_load_data, takes) refl in
        let (s1, paddr, e, f) = bind-done (v2p iface s0 addr load) _ s' value (sym opened ∙ h) in
        let kept =
          raw_load_data-bus_lock iface bytes paddr value s1.memory s'.memory
            (with_tlb-done s1 s' (raw_load_data iface bytes s1.memory paddr) value f) in
        let same = kept ∙ v2p-bus_lock load addr paddr s0 s1 quiet e in
        subst (λ (b : BusLock). is_locked b iface.hart_id ≡ true) (sym same)
          (locked-holds s s0 takes)
  ]
