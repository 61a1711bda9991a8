-- ===== src/Mem/Lock.antt =====
-- The bus lock of the atomic accesses: what holds it, and what gives it back.
use riscv_vp_plusplus.Base.{
  ℕ, ◌/◌, ◌%◌, ◌^◌, bit_and, Bool, true, false, ◌==◌, ◌!=◌, ◌≡◌, ◌≢◌, refl, sym, ap, ◌∙◌, inl, inr,
  arith, Bool-cases, some, ==_ne, ==_iff, u32, bit_or,
}
use mathlib.Core.Path.{subst}
use riscv_vp_plusplus.Bus.{BusLock, lock, unlock, is_locked}
use riscv_vp_plusplus.Rv32.State.{supervisor_mode, machine_mode}
use riscv_vp_plusplus.Mmu.{
  Access, done, raised, stop, MemoryAccessType, load, store, VmInfo, scheme, decode_vm_info,
  check_vaddr_extension, accessed_dirty, leaf_paddr, finish_leaf, walk, satp_mode_bare,
}
use riscv_vp_plusplus.Mmu.Tlb.{
  TlbState, effective_mode, has_entries, walk_and_fill, translate_virtual_to_physical_addr,
}
use riscv_vp_plusplus.Mmu.Walk.{
  Access-cases, raised_ne_done, stop_ne_done, Leads, Leads-walk_levels,
}
use riscv_vp_plusplus.Mmu.Buffer.{done_inj, walk_and_fill-done}
use riscv_vp_plusplus.Mem.{
  Interface, BusState, MemState, bind, with_tlb, raw_load_data, raw_store_data, mmu_memory, v2p,
  load_data, store_data, locked, atomic_load_data, atomic_store_conditional_data, atomic_unlock,
}

pub bind-done :
    {S A C : Type 0} (r : Access S A) (f : S → A → Access S C) (s' : S) (c : C)
    → bind r f ≡ done s' c
    → (s : S) × (a : A) × (r ≡ done s a) × (f s a ≡ done s' c)
bind-done (done s a) f s' c h = (s, a, refl, h)
bind-done (raised s e) f s' c h = absurd (ground arith)
bind-done stop f s' c h = absurd (ground arith)

pub with_tlb-done :
    {S A : Type 0} (s s' : TlbState S) (r : Access S A) (a : A)
    → with_tlb s r ≡ done s' a
    → r ≡ done s'.memory a
with_tlb-done s s' (done m p) a h =
    let (state, value) = done_inj h in
    ap (λ (t : TlbState _). done t.memory p) state ∙ ap (done s'.memory) value
with_tlb-done s s' (raised m e) a h = absurd (ground arith)
with_tlb-done s s' stop a h = absurd (ground arith)

module _ {B : Type 0} (iface : Interface B) where
  -- The hart of the interface holds the bus lock.
  abbrev pub holds : BusState B → Bool
  holds s = is_locked s.bus_lock iface.hart_id

  pub raw_store_data-holds :
      (bytes addr value r : ℕ) (s s' : BusState B)
      → raw_store_data iface bytes s addr value ≡ done s' r
      → holds s' ≡ false
  unfolding raw_store_data is_locked
  raw_store_data-holds bytes addr value r s s' h = ground arith

  pub raw_load_data-bus_lock :
      (bytes addr value : ℕ) (s s' : BusState B)
      → raw_load_data iface bytes s addr ≡ done s' value
      → s'.bus_lock ≡ s.bus_lock
  unfolding raw_load_data
  raw_load_data-bus_lock bytes addr value s s' h = ground arith

  pub store_data-holds :
      (bytes addr value r : ℕ) (s s' : MemState B)
      → store_data iface bytes s addr value ≡ done s' r
      → holds s'.memory ≡ false
  unfolding store_data
  store_data-holds bytes addr value r s s' h =
      let (s1, paddr, e, f) = bind-done (v2p iface s addr store) _ s' r h in
      raw_store_data-holds bytes paddr value r s1.memory s'.memory
        (with_tlb-done s1 s' (raw_store_data iface bytes s1.memory paddr value) r f)

  atomic_unlock-holds : (s : BusState B) → holds (atomic_unlock iface s) ≡ false
  unfolding unlock is_locked
  atomic_unlock-holds s = ground arith

  -- After a conditional store that returns, the hart does not hold the bus lock; and one that
  -- succeeds found the lock held by the hart and its address reserved.
  pub atomic_store_conditional_data-holds :
      (bytes addr value : ℕ) (s s' : MemState B) (success : Bool)
      → atomic_store_conditional_data iface bytes s addr value ≡ done s' success
      → (holds s'.memory ≡ false)
        × (success ≡ true → (holds s.memory ≡ true) × (addr ≡ s.memory.lr_addr))
  unfolding atomic_store_conditional_data
  atomic_store_conditional_data-holds bytes addr value s s' success h =
      let run = atomic_store_conditional_data iface bytes s addr value in
      elim (Bool-cases (holds s.memory)) [
        | inr free ↦
            let e : run ≡ done s false = rw (atomic_store_conditional_data, free) refl in
            let (state, answer) = done_inj (sym e ∙ h) in
            (
              subst (λ (t : MemState B). holds t.memory ≡ false) state free,
              λ stored. absurd (ground arith),
            )
        | inl held ↦ elim (Bool-cases (addr == s.memory.lr_addr)) [
          | inr other ↦
              let released : MemState B = record s { memory = atomic_unlock iface s.memory } in
              let e : run ≡ done released false =
                rw (atomic_store_conditional_data, held, other) refl in
              let (state, answer) = done_inj (sym e ∙ h) in
              (
                subst (λ (t : MemState B). holds t.memory ≡ false) state
                    (atomic_unlock-holds s.memory),
                λ stored. absurd (ground arith),
              )
          | inl same ↦
              let stored = store_data iface bytes s addr value in
              let e : run ≡ bind stored (λ t _. done t true) =
                rw (atomic_store_conditional_data, held, same) refl in
              let (s1, r, e1, f) = bind-done stored (λ t _. done t true) s' success (sym e ∙ h) in
              (
                subst (λ (t : MemState B). holds t.memory ≡ false) (done_inj f).0
                    (store_data-holds bytes addr value r s s1 e1),
                λ answer. (held, (==_iff addr s.memory.lr_addr).0 same),
              )
        ]
      ]

  -- The walk, the load and the update of a stale leaf, on a bus that the hart has locked.
  finish_leaf-holds :
      (type : MemoryAccessType) (vaddr ptshift pte_paddr pte paddr : ℕ) (s s' : BusState B)
      → iface.core.page_fault_on_ad ≡ false
      → (bit_and pte (accessed_dirty type) != accessed_dirty type) ≡ true
      → finish_leaf (mmu_memory iface) iface.core type vaddr ptshift pte_paddr pte s ≡ done s' paddr
      → holds s' ≡ false
  unfolding finish_leaf mmu_memory
  finish_leaf-holds type vaddr ptshift pte_paddr pte paddr s s' update stale h =
      let value = u32 (bit_or pte (accessed_dirty type)) in
      let write = raw_store_data iface 4 s pte_paddr value in
      elim (Access-cases write) [
        | inl (s1, r, e) ↦
            let out = leaf_paddr ptshift pte vaddr in
            let ran : finish_leaf (mmu_memory iface) iface.core type vaddr ptshift pte_paddr pte s
                ≡ done s1 out =
              rw (finish_leaf, stale, update, e) refl in
            subst (λ (t : BusState B). holds t ≡ false) (done_inj (sym ran ∙ h)).0
              (raw_store_data-holds 4 pte_paddr value r s s1 e)
        | inr (inl (s1, trap, e)) ↦
            absurd (raised_ne_done {s = s1} {e = trap} (rw (finish_leaf, stale, update, e) refl) h)
        | inr (inr e) ↦ absurd (stop_ne_done (rw (finish_leaf, stale, update, e) refl) h)
      ]

-- A load misses the TLB, and the walk finds a leaf for it that has no A bit.
abbrev pub IsStaleMiss : {B : Type 0} → Interface B → MemState B → ℕ → Type 0
IsStaleMiss {B = B} iface s addr =
    let c = iface.core in
    let mode = effective_mode c load in
    (c.satp_mode ≢ satp_mode_bare)
    × (mode ≢ machine_mode)
    × ((s.tlb mode load (addr / 2 ^ 12 % 256)).vpn ≢ addr / 2 ^ 12)
    × ((vm : VmInfo) × (decode_vm_info c ≡ scheme vm)
        × (check_vaddr_extension c addr vm ≡ some true)
        × ((ptshift : ℕ) × (pte_paddr : ℕ) × (pte : ℕ) × (s1 : BusState B) × Leads
              (mmu_memory iface) c vm load (mode == supervisor_mode) addr vm.levels vm.ptbase
              s.memory ptshift pte_paddr pte s1
            × ((bit_and pte (accessed_dirty load) != accessed_dirty load) ≡ true)))

v2p-holds :
    {B : Type 0} (iface : Interface B) (addr paddr : ℕ) (s s' : MemState B)
    → iface.mmu ≡ true
    → iface.core.page_fault_on_ad ≡ false
    → IsStaleMiss iface s addr
    → v2p iface s addr load ≡ done s' paddr
    → holds iface s'.memory ≡ false
unfolding v2p translate_virtual_to_physical_addr walk
v2p-holds {B = B} iface addr paddr s s' has_mmu update stale h =
    let c = iface.core in
    let mode = effective_mode c load in
    let (bare, machine, miss, (vm, known, fits, (ptshift, pte_paddr, pte, s1, leads, no_a))) =
      stale in
    let virtual = ==_ne c.satp_mode satp_mode_bare bare in
    let lower = ==_ne mode machine_mode machine in
    let absent = ==_ne (s.tlb mode load (addr / 2 ^ 12 % 256)).vpn (addr / 2 ^ 12) miss in
    let entries : has_entries mode ≡ true = elim (Bool-cases (has_entries mode)) [
      | inl e ↦ e
      | inr no_entries ↦
          let stops : v2p iface s addr load ≡ stop =
            rw (v2p, has_mmu, translate_virtual_to_physical_addr, virtual, lower, no_entries)
              refl in
          absurd (stop_ne_done stops h)
    ] in
    let walked_lem : v2p iface s addr load ≡ walk_and_fill (mmu_memory iface) c addr load mode s =
      rw (v2p, has_mmu, translate_virtual_to_physical_addr, virtual, lower, entries, absent) refl in
    let (m, walked, state) =
      walk_and_fill-done (mmu_memory iface) c addr load mode s s' paddr (sym walked_lem ∙ h) in
    let run = Leads-walk_levels (mmu_memory iface) c vm load (mode == supervisor_mode) addr leads in
    let ran : walk (mmu_memory iface) c addr load mode s.memory
        ≡ finish_leaf (mmu_memory iface) c load addr ptshift pte_paddr pte s1 =
      rw (walk, known, fits) run in
    let free =
      finish_leaf-holds iface load addr ptshift pte_paddr pte paddr s1 m update no_a
        (sym ran ∙ walked) in
    subst (λ (t : MemState B). holds iface t.memory ≡ false) (sym state) free

-- An atomic load that misses the TLB and whose walk sets the A bit of its leaf, with the MMU there
-- and no fault on A and D bits, does not hold the bus lock when it returns: the store of the walk
-- has released it.
pub atomic_load_data-IsStaleMiss :
    {B : Type 0} (iface : Interface B) (bytes addr value : ℕ) (s s0 s' : MemState B)
    → iface.mmu ≡ true
    → iface.core.page_fault_on_ad ≡ false
    → locked iface s ≡ some s0
    → IsStaleMiss iface s0 addr
    → atomic_load_data iface bytes s addr ≡ done s' value
    → holds iface s'.memory ≡ false
unfolding atomic_load_data load_data lock
atomic_load_data-IsStaleMiss iface bytes addr value s s0 s' has_mmu update takes stale h =
    let opened : atomic_load_data iface bytes s addr ≡ load_data iface bytes s0 addr =
      rw (atomic_load_data, takes) refl in
    let (s1, paddr, e, f) = bind-done (v2p iface s0 addr load) _ s' value (sym opened ∙ h) in
    let free = v2p-holds iface addr paddr s0 s1 has_mmu update stale e in
    let kept =
      raw_load_data-bus_lock iface bytes paddr value s1.memory s'.memory
        (with_tlb-done s1 s' (raw_load_data iface bytes s1.memory paddr) value f) in
    subst (λ (b : BusLock). is_locked b iface.hart_id ≡ false) (sym kept) free
