-- ===== src/Mmu/Buffer.antt =====
-- The TLB in front of the walk.
use riscv_vp_plusplus.Base.{
  ℕ, ◌-◌, ◌/◌, ◌%◌, ◌^◌, ◌<◌, true, false, ◌≡◌, ◌≢◌, refl, sym, ap, ◌∙◌, inl, inr, ◌⊎◌, ◌↔◌, arith,
  not, ◌==◌, ◌&&◌, if-both, Bool-cases, ==_ne, ==_iff,
}
use mathlib.Core.Path.{subst}
use riscv_vp_plusplus.Rv32.State.{machine_mode}
use riscv_vp_plusplus.Mmu.{
  MmuCore, MemoryAccessType, MmuMemory, Access, done, stop, walk, satp_mode_bare,
}
use riscv_vp_plusplus.Mmu.Tlb.{
  TlbState, TlbEntry, Tlb, flush_tlb, set_tlb, fill_tlb, is_type, effective_mode, has_entries,
  walk_and_fill, translate_virtual_to_physical_addr,
}
use riscv_vp_plusplus.Mmu.Page.{page_of, at_offset, walk_page}
use riscv_vp_plusplus.Mmu.Walk.{raised_ne_done, stop_ne_done, Access-cases}

-- An entry is empty, or the walk of some address of its page returns now, with its frame.
abbrev pub IsCurrent :
    {S : Type 0} → MmuMemory S → MmuCore → S → ℕ → MemoryAccessType → TlbEntry → Type 0
IsCurrent {S = S} mem c s mode type entry =
    (entry.vpn ≡ 2 ^ 64 - 1)
    ⊎ ((vaddr : ℕ) × (s' : S) × (paddr : ℕ) × (entry.vpn ≡ vaddr / 2 ^ 12)
        × (walk mem c vaddr type mode s ≡ done s' paddr)
        × (entry.ppn ≡ page_of paddr))

abbrev pub IsCoherent : {S : Type 0} → MmuMemory S → MmuCore → TlbState S → Type 0
IsCoherent mem c s =
    (mode : ℕ) (type : MemoryAccessType) (idx : ℕ)
    → IsCurrent mem c s.memory mode type (s.tlb mode type idx)

pub done_inj : {S A : Type 0} {s s' : S} {a a' : A} → done s a ≡ done s' a' → (s ≡ s') × (a ≡ a')
done_inj h = ground arith

module _ {S : Type 0} (mem : MmuMemory S) (c : MmuCore) where
  hit :
      (vaddr : ℕ) (type : MemoryAccessType) (mode : ℕ) (s : S) (entry : TlbEntry)
      → vaddr < 2 ^ 64
      → IsCurrent mem c s mode type entry
      → entry.vpn ≡ vaddr / 2 ^ 12
      → (s' : S) × (walk mem c vaddr type mode s ≡ done s' (at_offset entry.ppn vaddr))
  hit vaddr type mode s entry lt (inl empty) h = absurd (omega arith)
  hit vaddr type mode s entry lt (inr (va, s', paddr, page, walked, ppn)) h =
      (s', rw ppn (walk_page va vaddr (sym page ∙ h) mem c type mode s s' paddr walked))

  abbrev pub filled : ℕ → MemoryAccessType → ℕ → TlbState S → S → ℕ → TlbState S
  filled vaddr type mode s m paddr = record {
    memory = m;
    tlb = fill_tlb s.tlb vaddr type mode paddr;
  }

  -- The walk behind a miss, in both directions.
  walk_and_fill-walk :
      (vaddr : ℕ) (type : MemoryAccessType) (mode : ℕ) (s : TlbState S) (m : S) (paddr : ℕ)
      → walk mem c vaddr type mode s.memory ≡ done m paddr
      → walk_and_fill mem c vaddr type mode s ≡ done (filled vaddr type mode s m paddr) paddr
  unfolding walk_and_fill
  walk_and_fill-walk vaddr type mode s m paddr e = rw (walk_and_fill, e) refl

  pub walk_and_fill-done :
      (vaddr : ℕ) (type : MemoryAccessType) (mode : ℕ) (s s' : TlbState S) (paddr : ℕ)
      → walk_and_fill mem c vaddr type mode s ≡ done s' paddr
      → (m : S) × (walk mem c vaddr type mode s.memory ≡ done m paddr)
        × (s' ≡ filled vaddr type mode s m paddr)
  unfolding walk_and_fill
  walk_and_fill-done vaddr type mode s s' paddr h =
      elim (Access-cases (walk mem c vaddr type mode s.memory)) [
        | inl (m, p, e) ↦
            let (state, value) = done_inj (sym (walk_and_fill-walk vaddr type mode s m p e) ∙ h) in
            (m, e ∙ ap (done m) value, sym state ∙ ap (filled vaddr type mode s m) value)
        | inr (inl (m, trap, e)) ↦ absurd (
            raised_ne_done {s = record { memory = m; tlb = s.tlb }} {e = trap}
              (rw (walk_and_fill, e) refl) h)
        | inr (inr e) ↦ absurd (stop_ne_done (rw (walk_and_fill, e) refl) h)
      ]

has_entries_some : (mode : ℕ) → has_entries mode ≡ true → mode < 2
has_entries_some mode h = ground arith

has_entries_none : (mode : ℕ) → has_entries mode ≡ false → ¬ mode < 2
has_entries_none mode h lt = ground arith

-- With translation on, in a mode below the machine's and with a TLB whose entries are empty or
-- those of a walk that returns now, a translation of a 64-bit address returns exactly the
-- addresses that the walk alone returns where the mode is user or supervisor, and in mode 2 it
-- does not return.
pub translate_virtual_to_physical_addr-walk :
    {S : Type 0} (mem : MmuMemory S) (c : MmuCore) (vaddr : ℕ) (type : MemoryAccessType)
    (s : TlbState S) (paddr : ℕ)
    → vaddr < 2 ^ 64
    → c.satp_mode ≢ satp_mode_bare
    → effective_mode c type ≢ machine_mode
    → IsCoherent mem c s
    → ((s' : TlbState S) × (translate_virtual_to_physical_addr mem c vaddr type s ≡ done s' paddr))
      ↔ ((effective_mode c type < 2)
          × ((m : S) × (walk mem c vaddr type (effective_mode c type) s.memory ≡ done m paddr)))
unfolding translate_virtual_to_physical_addr walk_and_fill
translate_virtual_to_physical_addr-walk mem c vaddr type s paddr lt bare machine coherent =
    let mode = effective_mode c type in
    let vpn = vaddr / 2 ^ 12 in
    let entry = s.tlb mode type (vpn % 256) in
    let virtual : (c.satp_mode == satp_mode_bare) ≡ false = ==_ne c.satp_mode satp_mode_bare bare in
    let lower : (mode == machine_mode) ≡ false = ==_ne mode machine_mode machine in
    elim (Bool-cases (has_entries mode)) [
      | inr no_entries ↦
          let stops : translate_virtual_to_physical_addr mem c vaddr type s ≡ stop =
            rw (translate_virtual_to_physical_addr, virtual, lower, no_entries) refl in
          (
            (λ r. absurd (stop_ne_done stops r.1)),
            (λ r. absurd (has_entries_none mode no_entries r.0)),
          )
      | inl entries ↦ elim (Bool-cases (entry.vpn == vpn)) [
        | inl present ↦
            let page : entry.vpn ≡ vpn = (==_iff entry.vpn vpn).0 present in
            let (m, walked) =
              hit mem c vaddr type mode s.memory entry lt (coherent mode type (vpn % 256)) page in
            let found : translate_virtual_to_physical_addr mem c vaddr type s
                ≡ done s (at_offset entry.ppn vaddr) =
              rw (translate_virtual_to_physical_addr, virtual, lower, entries, present) refl in
            (
              (λ r. (
                has_entries_some mode entries,
                (m, walked ∙ ap (done m) (done_inj (sym found ∙ r.1)).1),
              )),
              (λ r. (s, found ∙ ap (done s) (done_inj (sym walked ∙ r.1.1)).1)),
            )
        | inr absent ↦
            let missed : translate_virtual_to_physical_addr mem c vaddr type s
                ≡ walk_and_fill mem c vaddr type mode s =
              rw (translate_virtual_to_physical_addr, virtual, lower, entries, absent) refl in
            (
              (λ r.
                  let (m, walked, state) =
                    walk_and_fill-done mem c vaddr type mode s r.0 paddr (sym missed ∙ r.1) in
                  (has_entries_some mode entries, (m, walked))),
              (λ r. (_, missed ∙ walk_and_fill-walk mem c vaddr type mode s r.1.0 paddr r.1.1)),
            )
      ]
    ]

-- The empty TLB has no entry that could be stale.
pub flush_tlb-IsCoherent :
    {S : Type 0} (mem : MmuMemory S) (c : MmuCore) (m : S)
    → IsCoherent mem c (record { memory = m; tlb = flush_tlb })
unfolding flush_tlb
flush_tlb-IsCoherent mem c m mode type idx = inl refl

is_type_same : (type type' : MemoryAccessType) → is_type type type' ≡ true → type ≡ type'
is_type_same type type' h = ground arith

module _ {S : Type 0} (mem : MmuMemory S) (c : MmuCore) where
  set_tlb-IsCurrent :
      (tlb : Tlb) (m : S) (mode mode' : ℕ) (type type' : MemoryAccessType) (idx idx' : ℕ)
      (entry : TlbEntry)
      → IsCurrent mem c m mode type entry
      → IsCurrent mem c m mode' type' (tlb mode' type' idx')
      → IsCurrent mem c m mode' type' (set_tlb tlb mode type idx entry mode' type' idx')
  unfolding set_tlb
  set_tlb-IsCurrent tlb m mode mode' type type' idx idx' entry new old =
      elim (Bool-cases (mode == mode' && (is_type type type' && idx == idx'))) [
        | inr other ↦ rw (set_tlb, other) old
        | inl here ↦
            let same_mode : mode ≡ mode' = ground arith in
            let same_type : type ≡ type' = is_type_same type type' (ground arith) in
            rw (set_tlb, here, sym same_mode, sym same_type) new
      ]

  -- A translation walks, or leaves everything as it is, or stops.
  pub translate_cases :
      (vaddr : ℕ) (type : MemoryAccessType) (s : TlbState S)
      → let r = translate_virtual_to_physical_addr mem c vaddr type s in
        ((paddr : ℕ) × (r ≡ done s paddr))
        ⊎ (r ≡ walk_and_fill mem c vaddr type (effective_mode c type) s)
        ⊎ (r ≡ stop)
  unfolding translate_virtual_to_physical_addr
  translate_cases vaddr type s =
      let mode = effective_mode c type in
      let entry = s.tlb mode type (vaddr / 2 ^ 12 % 256) in
      let P : Access (TlbState S) ℕ → Type 0 = λ r.
        ((paddr : ℕ) × (r ≡ done s paddr))
        ⊎ (r ≡ walk_and_fill mem c vaddr type mode s)
        ⊎ (r ≡ stop) in
      if-both P (c.satp_mode == satp_mode_bare) _ _ (inl (vaddr, refl)) (
        if-both P (mode == machine_mode) _ _ (inl (vaddr, refl)) (
          if-both P (not (has_entries mode)) _ _ (inr (inr refl)) (
            if-both P (entry.vpn == vaddr / 2 ^ 12) _ _ (inl (at_offset entry.ppn vaddr, refl))
              (inr (inl refl)))))

-- A translation that returns, and whose walk, where that returns, leaves memory as it is, leaves a
-- TLB whose entries are empty or those of a walk that returns now, if it was one.
pub translate_virtual_to_physical_addr-IsCoherent :
    {S : Type 0} (mem : MmuMemory S) (c : MmuCore) (vaddr : ℕ) (type : MemoryAccessType)
    (s s' : TlbState S) (paddr : ℕ)
    → ((m : S) (found : ℕ)
        → walk mem c vaddr type (effective_mode c type) s.memory ≡ done m found
        → m ≡ s.memory)
    → IsCoherent mem c s
    → translate_virtual_to_physical_addr mem c vaddr type s ≡ done s' paddr
    → IsCoherent mem c s'
unfolding fill_tlb
translate_virtual_to_physical_addr-IsCoherent {S = S} mem c vaddr type s s' paddr frozen coherent
      h =
    let mode = effective_mode c type in
    elim (translate_cases mem c vaddr type s) [
      | inl (p, e) ↦ subst (IsCoherent mem c) (done_inj (sym e ∙ h)).0 coherent
      | inr (inr e) ↦ absurd (stop_ne_done e h)
      | inr (inl e) ↦
          let (m, walked, state) =
            walk_and_fill-done mem c vaddr type mode s s' paddr (sym e ∙ h) in
          let same = frozen m paddr walked in
          let now =
            subst (λ (t : S). walk mem c vaddr type mode t ≡ done m paddr) (sym same) walked in
          let filled_lem : IsCoherent mem c (filled mem c vaddr type mode s m paddr) =
            λ mode' type' idx.
              set_tlb-IsCurrent mem c s.tlb m mode mode' type type' (vaddr / 2 ^ 12 % 256) idx _
                (inr (vaddr, m, paddr, refl, now, refl))
                (subst (λ (t : S). IsCurrent mem c t mode' type' (s.tlb mode' type' idx)) (sym same)
                  (coherent mode' type' idx)) in
          subst (IsCoherent mem c) (sym state) filled_lem
    ]
