-- ===== src/Rv32/Csrs/Access/Laws.antt =====
-- What a write of a CSR can change, and which accesses are refused.
use riscv_vp_plusplus.Base.{
  ℕ, ◌≡◌, ◌≢◌, ◌<◌, ◌≤◌, ◌^◌, ◌%◌, ◌/◌, refl, ap, ◌⊎◌, inl, inr, arith, Bool, false, some, bit_and,
  bit_at, bit_at-bit_and, bit_at-bit_or, bit_at-complement, bit_at-ext, bit_and_field, bit_and_comm,
}
use riscv_vp_plusplus.Rv32.Csrs.{
  Csrs, default_write32, mie_mask, sie_mask, uie_mask, sstatus_write_mask,
}
use riscv_vp_plusplus.Rv32.State.{Core, bit_not}
use riscv_vp_plusplus.Rv32.Trap.Interrupts.{IsMasked}
use riscv_vp_plusplus.Rv32.Csrs.Access.{is_invalid_csr_access, write, write_csr, set_csr_value}

write-bit :
    (i reg value mask : ℕ)
    → i < 32
    → mask < 2 ^ 32
    → ((bit_at i mask ≡ 0) × (bit_at i (write reg value mask) ≡ bit_at i reg))
      ⊎ ((bit_at i mask ≡ 1) × (bit_at i (write reg value mask) ≡ bit_at i value))
unfolding write
write-bit i reg value mask h hm =
    let keep = bit_at-bit_and i reg (bit_not mask) in
    let take = bit_at-bit_and i value mask in
    let both = bit_at-bit_or i (bit_and reg (bit_not mask)) (bit_and value mask) in
    let clear = bit_at-complement i 32 mask h hm in ground arith

default_write32-mie :
    (r r' : Csrs) (addr value : ℕ)
    → addr ≢ 0x304
    → default_write32 r addr value ≡ some r'
    → r'.mie ≡ r.mie
unfolding default_write32
default_write32-mie r r' addr value h e = ground arith

write_csr-mie :
    (c : Core) (r : Csrs) (addr value : ℕ)
    → write_csr c addr value ≡ some r
    → (r.mie ≡ c.csrs.mie)
      ⊎ ((r.mie ≡ write c.csrs.mie value mie_mask)
          ⊎ ((r.mie ≡ write c.csrs.mie value sie_mask) ⊎ (r.mie ≡ write c.csrs.mie value uie_mask)))
unfolding write_csr
write_csr-mie c r addr value e = ground (arith, default_write32-mie c.csrs r addr value)

write-IsMasked :
    (reg value mask : ℕ)
    → IsMasked reg
    → bit_and mask mie_mask ≡ mask
    → IsMasked (write reg value mask)
unfolding write
write-IsMasked reg value mask h m =
    bit_at-ext (bit_and (write reg value mask) mie_mask) (write reg value mask) (λ i. omega (
      arith,
      bit_at-bit_and i reg mie_mask,
      bit_at-bit_and i mask mie_mask,
      ap (bit_at i) h,
      ap (bit_at i) m,
      bit_at-bit_and i reg (bit_not mask),
      bit_at-bit_and i value mask,
      bit_at-bit_or i (bit_and reg (bit_not mask)) (bit_and value mask),
      bit_at-bit_and i (write reg value mask) mie_mask,
    ))

pub set_csr_value-csrs :
    (c c' : Core) (addr value : ℕ)
    → set_csr_value c addr value ≡ some c'
    → write_csr c addr value ≡ some c'.csrs
unfolding set_csr_value
set_csr_value-csrs c c' addr value e = ground arith

-- A write of any CSR that does not trap leaves mie within its mask, if it was.
pub set_csr_value-IsMasked :
    (c c' : Core) (addr value : ℕ)
    → IsMasked c.csrs.mie
    → set_csr_value c addr value ≡ some c'
    → IsMasked c'.csrs.mie
set_csr_value-IsMasked c c' addr value h e =
    elim (write_csr-mie c c'.csrs addr value (set_csr_value-csrs c c' addr value e)) [
      | inl keep ↦ rw keep h
      | inr (inl x) ↦ rw x (write-IsMasked c.csrs.mie value mie_mask h refl)
      | inr (inr (inl x)) ↦ rw x (write-IsMasked c.csrs.mie value sie_mask h refl)
      | inr (inr (inr x)) ↦ rw x (write-IsMasked c.csrs.mie value uie_mask h refl)
    ]

write_csr-sstatus :
    (c : Core) (r : Csrs) (value : ℕ)
    → write_csr c 0x100 value ≡ some r
    → r.mstatus ≡ write c.csrs.mstatus value sstatus_write_mask
unfolding write_csr
write_csr-sstatus c r value e = ground arith

-- A write of sstatus gives each of the 32 bits of mstatus that the supervisor's mask selects the
-- bit of the value, and leaves each other bit as it was.
pub sstatus_write :
    (c c' : Core) (value i : ℕ)
    → i < 32
    → set_csr_value c 0x100 value ≡ some c'
    → (bit_at i sstatus_write_mask ≡ 0 × (bit_at i c'.csrs.mstatus ≡ bit_at i c.csrs.mstatus))
      ⊎ (bit_at i sstatus_write_mask ≡ 1 × (bit_at i c'.csrs.mstatus ≡ bit_at i value))
sstatus_write c c' value i h e =
    let mstatus : c'.csrs.mstatus ≡ write c.csrs.mstatus value sstatus_write_mask =
      write_csr-sstatus c c'.csrs value (set_csr_value-csrs c c' 0x100 value e) in
    rw mstatus (write-bit i c.csrs.mstatus value sstatus_write_mask h (omega arith))

csr_prv_lem : (x : ℕ) → bit_and 0x300 x / 2 ^ 8 ≡ x / 2 ^ 8 % 4
csr_prv_lem x = omega (arith, bit_and_comm 0x300 x, bit_and_field 2 8 x)

csr_readonly_lem : (x : ℕ) → bit_and 0xC00 x / 2 ^ 10 ≡ x / 2 ^ 10 % 4
csr_readonly_lem x = omega (arith, bit_and_comm 0xC00 x, bit_and_field 2 10 x)

-- A CSR access that `is_invalid_csr_access` lets through has the privilege that bits 9:8 of the
-- address ask for, and is no write of a register that bits 11:10 mark as read-only.
pub is_invalid_csr_access-allowed :
    (c : Core) (csr_addr : ℕ) (is_write : Bool)
    → is_invalid_csr_access c csr_addr is_write ≡ some false
    → (csr_addr / 2 ^ 8 % 4 ≤ c.prv) × ((is_write ≡ false) ⊎ (csr_addr / 2 ^ 10 % 4 ≢ 3))
unfolding is_invalid_csr_access
is_invalid_csr_access-allowed c csr_addr is_write e =
    ground (arith, csr_prv_lem csr_addr, csr_readonly_lem csr_addr)
