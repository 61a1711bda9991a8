-- ===== src/Bus/Laws.antt =====
-- The bus sends an access to the first port that maps its address, and the lock has one owner.
use mathlib.Core.Path.{subst}
use riscv_vp_plusplus.Base.{
  ℕ, zero, suc, ◌+◌, ◌-◌, ◌≡◌, ◌≢◌, ◌≤◌, refl, sym, ap, ◌∙◌, inl, inr, arith, true, false, none,
  some, some_inj, List, [], ◌∷◌, get_elem?, Bool-cases, Option-cases,
}
use riscv_vp_plusplus.Bus.{
  PortMapping, contains, global_to_local, decode_from, decode, transport, BusLock, lock, unlock,
  is_locked,
}

-- Port `id` contains the address, and no port before it does.
pub data First (addr : ℕ) : List PortMapping → ℕ → Type 0 where
  here :
      {p : PortMapping} {ports : List PortMapping}
      → contains p addr ≡ true
      → First addr (p ∷ ports) 0
  there :
      {p : PortMapping} {ports : List PortMapping} {id : ℕ}
      → contains p addr ≡ false
      → First addr ports id
      → First addr (p ∷ ports) (suc id)

decode_from-First :
    (ports : List PortMapping) (i addr id : ℕ)
    → decode_from i ports addr ≡ some id
    → (k : ℕ) × (id ≡ i + k) × First addr ports k
unfolding decode_from
decode_from-First [] i addr id e = absurd (ground arith)
decode_from-First (p ∷ ports) i addr id e = elim (Bool-cases (contains p addr)) [
  | inl inside ↦ (0, some_inj (sym (rw inside at e)) ∙ omega arith, here inside)
  | inr outside ↦
      let (k, place, first) = decode_from-First ports (suc i) addr id (rw outside at e) in
      (suc k, omega arith, there outside first)
]

-- The port that `decode` names contains the address, and no port before it does.
pub decode-First :
    (ports : List PortMapping) (addr id : ℕ) → decode ports addr ≡ some id → First addr ports id
unfolding decode
decode-First ports addr id e =
    let (k, place, first) = decode_from-First ports 0 addr id e in
    let same : k ≡ id = omega arith in subst (First addr ports) same first

First-get_elem? :
    (ports : List PortMapping) (addr id : ℕ)
    → First addr ports id
    → (p : PortMapping) × (get_elem? ports id ≡ some p) × (contains p addr ≡ true)
First-get_elem? [] addr id f = elim f [ ]
First-get_elem? (p ∷ ports) addr zero (here inside) = (p, refl, inside)
First-get_elem? (p ∷ ports) addr (suc id) (there outside first) =
    First-get_elem? ports addr id first

transport-found :
    (ports : List PortMapping) (addr k : ℕ) (p : PortMapping)
    → decode ports addr ≡ some k
    → get_elem? ports k ≡ some p
    → transport ports addr ≡ some (k, global_to_local p addr)
unfolding transport
transport-found ports addr k p found elem = rw (transport, found, elem) refl

transport-missed :
    (ports : List PortMapping) (addr : ℕ) → decode ports addr ≡ none → transport ports addr ≡ none
unfolding transport
transport-missed ports addr miss = rw (transport, miss) refl

-- `transport` sends an access to the first port that contains its address, and the address that it
-- sends is the offset from the start of that port.
transport-local :
    (ports : List PortMapping) (addr id local : ℕ)
    → transport ports addr ≡ some (id, local)
    → First addr ports id
      × ((p : PortMapping) × (get_elem? ports id ≡ some p)
          × (p.start + local ≡ addr)
          × (addr ≤ p.end))
unfolding global_to_local contains
transport-local ports addr id local e = elim (Option-cases (decode ports addr)) [
  | inl miss ↦ absurd (ground (arith, transport-missed ports addr miss))
  | inr (k, found) ↦
      let first = decode-First ports addr k found in
      let (p, elem, inside) = First-get_elem? ports addr k first in
      let inside_le : (p.start ≤ addr) × (addr ≤ p.end) = (ground arith, ground arith) in
      let sent : (k, addr - p.start) ≡ (id, local) =
        some_inj (sym (transport-found ports addr k p found elem) ∙ e) in
      let id_lem : k ≡ id = ap (λ (x : ℕ × ℕ). x.0) sent in
      let local_lem : addr - p.start ≡ local = ap (λ (x : ℕ × ℕ). x.1) sent in
      (
        subst (First addr ports) id_lem first,
        (p, subst (λ (n : ℕ). get_elem? ports n ≡ some p) id_lem elem, omega arith, inside_le.1),
      )
]

decode_from-none :
    (ports : List PortMapping) (i addr k : ℕ) (p : PortMapping)
    → decode_from i ports addr ≡ none
    → get_elem? ports k ≡ some p
    → contains p addr ≡ false
unfolding decode_from
decode_from-none [] i addr k p e h = absurd (ground arith)
decode_from-none (q ∷ ports) i addr zero p e h = ground arith
decode_from-none (q ∷ ports) i addr (suc k) p e h = elim (Bool-cases (contains q addr)) [
  | inl inside ↦ absurd (ground arith)
  | inr outside ↦ decode_from-none ports (suc i) addr k p (rw outside at e) h
]

-- Where `decode` names no port, no port of the bus contains the address.
pub decode-none :
    (ports : List PortMapping) (addr k : ℕ) (p : PortMapping)
    → decode ports addr ≡ none
    → get_elem? ports k ≡ some p
    → contains p addr ≡ false
unfolding decode
decode-none ports addr k p e h = decode_from-none ports 0 addr k p e h

-- After a hart has taken the bus lock it holds it, any other hart waits, an unlock by another hart
-- changes nothing, and after its own unlock another hart can take it.
pub lock-exclusive :
    (b b' : BusLock) (hart_id other : ℕ)
    → other ≢ hart_id
    → lock b hart_id ≡ some b'
    → (is_locked b' hart_id ≡ true)
      × (lock b' other ≡ none)
      × (unlock b' other ≡ b')
      × (lock (unlock b' hart_id) other ≢ none)
unfolding lock unlock is_locked
lock-exclusive b b' hart_id other ne e = ground arith
