-- ===== src/Mmu/Pte.antt =====
-- Page table entries as the privileged architecture describes them, and the guards of `walk`.
use riscv_vp_plusplus.Base.{
  ℕ, ◌-◌, ◌/◌, ◌%◌, ◌^◌, bit_and, Bool, true, false, ◌==◌, ◌!=◌, ◌≡◌, ◌≢◌, inl, inr, ◌⊎◌, ◌↔◌,
  arith, bit_at, bit_test, bit_set, bit_clear, bit_and_ones,
}
use riscv_vp_plusplus.Mmu.{
  MmuCore, MemoryAccessType, fetch, load, store, check_pte, check_bits, pte_v, pte_r, pte_w, pte_x,
  pte_u, leaf, descend,
}

-- A pointer to the next table: V alone of V, R, W and X.
abbrev pub IsPointer : ℕ → Type 0
IsPointer pte = (bit_at 0 pte ≡ 1) × (bit_at 1 pte ≡ 0) × (bit_at 2 pte ≡ 0) × (bit_at 3 pte ≡ 0)

-- The entry grants the access.
abbrev pub IsGranted : MmuCore → MemoryAccessType → ℕ → Type 0
IsGranted c fetch pte = bit_at 3 pte ≡ 1
IsGranted c load pte = (bit_at 1 pte ≡ 1) ⊎ ((c.mxr ≡ true) × (bit_at 3 pte ≡ 1))
IsGranted c store pte = bit_at 2 pte ≡ 1

-- A supervisor may use a user page for data where SUM is set; a user may use user pages only.
abbrev pub IsReachable : MmuCore → MemoryAccessType → Bool → ℕ → Type 0
IsReachable c type true pte = (bit_at 4 pte ≡ 0) ⊎ ((c.sum ≡ true) × (type ≢ fetch))
IsReachable c type false pte = bit_at 4 pte ≡ 1

-- A valid leaf that grants the access, reachable in the mode, and aligned to the size of its page.
abbrev pub IsLeafFor : MmuCore → MemoryAccessType → Bool → ℕ → ℕ → Type 0
IsLeafFor c type s_mode ptshift pte =
    (bit_at 0 pte ≡ 1)
    × ((bit_at 1 pte ≡ 1) ⊎ ((bit_at 2 pte ≡ 0) × (bit_at 3 pte ≡ 1)))
    × IsGranted c type pte
    × IsReachable c type s_mode pte
    × (pte / 2 ^ 10 % 2 ^ ptshift ≡ 0)

-- What the guards test, as arithmetic.
pte_tests :
    (ptshift pte : ℕ)
    → ((bit_and pte (2 ^ 0) != 0) ≡ (bit_at 0 pte == 1))
      × ((bit_and pte (2 ^ 1) != 0) ≡ (bit_at 1 pte == 1))
      × ((bit_and pte (2 ^ 2) != 0) ≡ (bit_at 2 pte == 1))
      × ((bit_and pte (2 ^ 3) != 0) ≡ (bit_at 3 pte == 1))
      × ((bit_and pte (2 ^ 4) != 0) ≡ (bit_at 4 pte == 1))
      × (bit_and (pte / 2 ^ 10) (2 ^ ptshift - 1) ≡ pte / 2 ^ 10 % 2 ^ ptshift)
pte_tests ptshift pte = (
  bit_test 0 pte,
  bit_test 1 pte,
  bit_test 2 pte,
  bit_test 3 pte,
  bit_test 4 pte,
  bit_and_ones ptshift (pte / 2 ^ 10),
)

abbrev IsGrantedBits : MmuCore → MemoryAccessType → (r w x : Bool) → Type 0
IsGrantedBits c fetch r w x = x ≡ true
IsGrantedBits c load r w x = (r ≡ true) ⊎ ((c.mxr ≡ true) × (x ≡ true))
IsGrantedBits c store r w x = w ≡ true

abbrev IsReachableBits : MmuCore → MemoryAccessType → (s_mode u : Bool) → Type 0
IsReachableBits c type true u = (u ≡ false) ⊎ ((c.sum ≡ true) × (type ≢ fetch))
IsReachableBits c type false u = u ≡ true

-- The same of the bits.
abbrev IsLeafBits : MmuCore → MemoryAccessType → Bool → (v r w x u misaligned : Bool) → Type 0
IsLeafBits c type s_mode v r w x u misaligned =
    (v ≡ true)
    × ((r ≡ true) ⊎ ((w ≡ false) × (x ≡ true)))
    × IsGrantedBits c type r w x
    × IsReachableBits c type s_mode u
    × (misaligned ≡ false)

check_bits-leaf :
    (c : MmuCore) (type : MemoryAccessType) (s_mode v r w x u misaligned : Bool)
    → check_bits c type s_mode v r w x u misaligned ≡ leaf
    → IsLeafBits c type s_mode v r w x u misaligned
unfolding check_bits
check_bits-leaf c fetch true v r w x u misaligned h = ground arith
check_bits-leaf c fetch false v r w x u misaligned h = ground arith
check_bits-leaf c load true v r w x u misaligned h = ground arith
check_bits-leaf c load false v r w x u misaligned h = ground arith
check_bits-leaf c store true v r w x u misaligned h = ground arith
check_bits-leaf c store false v r w x u misaligned h = ground arith

readable_bits :
    (pte : ℕ)
    → (pte_r pte ≡ true) ⊎ ((pte_w pte ≡ false) × (pte_x pte ≡ true))
    → (bit_at 1 pte ≡ 1) ⊎ ((bit_at 2 pte ≡ 0) × (bit_at 3 pte ≡ 1))
readable_bits pte (inl r) = inl (bit_set 1 pte r)
readable_bits pte (inr (w, x)) = inr (bit_clear 2 pte w, bit_set 3 pte x)

IsGrantedBits-IsGranted :
    (c : MmuCore) (type : MemoryAccessType) (pte : ℕ)
    → IsGrantedBits c type (pte_r pte) (pte_w pte) (pte_x pte)
    → IsGranted c type pte
IsGrantedBits-IsGranted c fetch pte x = bit_set 3 pte x
IsGrantedBits-IsGranted c load pte (inl r) = inl (bit_set 1 pte r)
IsGrantedBits-IsGranted c load pte (inr (mxr, x)) = inr (mxr, bit_set 3 pte x)
IsGrantedBits-IsGranted c store pte w = bit_set 2 pte w

IsReachableBits-IsReachable :
    (c : MmuCore) (type : MemoryAccessType) (s_mode : Bool) (pte : ℕ)
    → IsReachableBits c type s_mode (pte_u pte)
    → IsReachable c type s_mode pte
IsReachableBits-IsReachable c type true pte (inl u) = inl (bit_clear 4 pte u)
IsReachableBits-IsReachable c type true pte (inr sum) = inr sum
IsReachableBits-IsReachable c type false pte u = bit_set 4 pte u

-- The tests of an entry as tests of its bits.
module _ (c : MmuCore) (ptshift pte : ℕ) where
  pub check_pte-leaf :
      (type : MemoryAccessType) (s_mode : Bool)
      → check_pte c type s_mode ptshift pte ≡ leaf
      → IsLeafFor c type s_mode ptshift pte
  unfolding check_pte
  check_pte-leaf type s_mode h =
      let (valid, readable, granted, reachable, aligned) =
        check_bits-leaf c type s_mode (pte_v pte) (pte_r pte) (pte_w pte) (pte_x pte) (pte_u pte)
          (bit_and (pte / 2 ^ 10) (2 ^ ptshift - 1) != 0) h in
      (
        bit_set 0 pte valid,
        readable_bits pte readable,
        IsGrantedBits-IsGranted c type pte granted,
        IsReachableBits-IsReachable c type s_mode pte reachable,
        let low = bit_and_ones ptshift (pte / 2 ^ 10) in ground arith,
      )

  pub leaf_found :
      (type : MemoryAccessType) (s_mode : Bool)
      → IsLeafFor c type s_mode ptshift pte
      → check_pte c type s_mode ptshift pte ≡ leaf
  unfolding check_pte
  leaf_found type s_mode h = ground (arith, pte_tests ptshift pte)

  pub check_pte-descend :
      (type : MemoryAccessType) (s_mode : Bool)
      → (check_pte c type s_mode ptshift pte ≡ descend) ↔ IsPointer pte
  unfolding check_pte
  check_pte-descend type s_mode = ground (arith, pte_tests ptshift pte)
