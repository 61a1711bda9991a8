-- ===== src/Rv32/Step/CsrsKept.antt =====
-- vp/src/core/rv32/iss_ctemplate.cpp, `get_csr_value` and `set_csr_value`: the CSR instructions keep
-- the core well formed.
use riscv_vp_plusplus.Base.{
  ℕ, ◌≡◌, ◌≢◌, ◌%◌, arith, some, ◌⊎◌, inl, inr, bit_and, bit_at-bit_and, bit_at-bit_or,
}
use riscv_vp_plusplus.Rv32.Csrs.{Csrs, set_field, default_write32}
use riscv_vp_plusplus.Rv32.State.{Core, bit_not}
use riscv_vp_plusplus.Rv32.Csrs.Access.{
  Clocks, get_csr_value, set_csr_value, write_csr, write, pc_alignment_mask,
}
use riscv_vp_plusplus.Rv32.Csrs.Access.Laws.{set_csr_value-IsMasked, set_csr_value-csrs}
use riscv_vp_plusplus.Rv32.Step.WellFormed.{IsWellFormed}

write_even : (reg value mask : ℕ) → reg % 2 ≡ 0 → mask % 2 ≡ 0 → write reg value mask % 2 ≡ 0
unfolding write
write_even reg value mask h m = omega (
  arith,
  bit_at-bit_or 0 (bit_and reg (bit_not mask)) (bit_and value mask),
  bit_at-bit_and 0 reg (bit_not mask),
  bit_at-bit_and 0 value mask,
)

pc_alignment_mask_even : (c : Core) → pc_alignment_mask c % 2 ≡ 0
pc_alignment_mask_even c = ground arith

default_write32-mepc :
    (r r' : Csrs) (addr value : ℕ)
    → addr ≢ 0x341
    → default_write32 r addr value ≡ some r'
    → r'.mepc ≡ r.mepc
unfolding default_write32
default_write32-mepc r r' addr value h e = ground arith

write_csr-mepc :
    (c : Core) (r : Csrs) (addr value : ℕ)
    → write_csr c addr value ≡ some r
    → (r.mepc ≡ c.csrs.mepc) ⊎ (r.mepc ≡ write c.csrs.mepc value (pc_alignment_mask c))
unfolding write_csr
write_csr-mepc c r addr value e = ground (arith, default_write32-mepc c.csrs r addr value)

default_write32-sepc :
    (r r' : Csrs) (addr value : ℕ)
    → addr ≢ 0x141
    → default_write32 r addr value ≡ some r'
    → r'.sepc ≡ r.sepc
unfolding default_write32
default_write32-sepc r r' addr value h e = ground arith

write_csr-sepc :
    (c : Core) (r : Csrs) (addr value : ℕ)
    → write_csr c addr value ≡ some r
    → (r.sepc ≡ c.csrs.sepc) ⊎ (r.sepc ≡ write c.csrs.sepc value (pc_alignment_mask c))
unfolding write_csr
write_csr-sepc c r addr value e = ground (arith, default_write32-sepc c.csrs r addr value)

default_write32-uepc :
    (r r' : Csrs) (addr value : ℕ)
    → addr ≢ 0x041
    → default_write32 r addr value ≡ some r'
    → r'.uepc ≡ r.uepc
unfolding default_write32
default_write32-uepc r r' addr value h e = ground arith

write_csr-uepc :
    (c : Core) (r : Csrs) (addr value : ℕ)
    → write_csr c addr value ≡ some r
    → (r.uepc ≡ c.csrs.uepc) ⊎ (r.uepc ≡ write c.csrs.uepc value (pc_alignment_mask c))
unfolding write_csr
write_csr-uepc c r addr value e = ground (arith, default_write32-uepc c.csrs r addr value)

written_even :
    (c : Core) (before after value : ℕ)
    → before % 2 ≡ 0
    → (after ≡ before) ⊎ (after ≡ write before value (pc_alignment_mask c))
    → after % 2 ≡ 0
written_even c before after value h (inl e) = rw e h
written_even c before after value h (inr e) =
    rw e (write_even before value (pc_alignment_mask c) h (pc_alignment_mask_even c))

set_csr_value-prv :
    (c c' : Core) (addr value : ℕ)
    → set_csr_value c addr value ≡ some c'
    → (c'.prv ≡ c.prv) × (c'.pc ≡ c.pc)
unfolding set_csr_value
set_csr_value-prv c c' addr value e = ground arith

pub set_csr_value-IsWellFormed :
    (c c' : Core) (addr value : ℕ)
    → IsWellFormed c
    → set_csr_value c addr value ≡ some c'
    → IsWellFormed c'
set_csr_value-IsWellFormed c c' addr value (prv, pc, (m, s, u), mask) e =
    let w = set_csr_value-csrs c c' addr value e in
    let (same_prv, same_pc) = set_csr_value-prv c c' addr value e in
    (
      rw same_prv prv,
      rw same_pc pc,
      (
        written_even c c.csrs.mepc c'.csrs.mepc value m (write_csr-mepc c c'.csrs addr value w),
        written_even c c.csrs.sepc c'.csrs.sepc value s (write_csr-sepc c c'.csrs addr value w),
        written_even c c.csrs.uepc c'.csrs.uepc value u (write_csr-uepc c c'.csrs addr value w),
      ),
      set_csr_value-IsMasked c c' addr value mask e,
    )

-- A read leaves the core as it is, or with a clock or the mirrored vector register brought up to date.
pub get_csr_value-cases :
    (P : Core → Type 0) (k : Clocks) (c : Core) (addr : ℕ) (r : ℕ × Core)
    → P c
    → P (record c { csrs = record c.csrs { time = k.mtime } })
    → P (record c { csrs = record c.csrs { cycle = k.cycles } })
    → P (record c {
      csrs = record c.csrs {
        vcsr = set_field 0 1 c.csrs.vxsat (set_field 1 2 c.csrs.vxrm c.csrs.vcsr);
      };
    })
    → get_csr_value k c addr ≡ some r
    → P r.1
unfolding get_csr_value
get_csr_value-cases P k c addr r same time cycle vcsr e = ground arith steps 10000000

pub get_csr_value-IsWellFormed :
    (k : Clocks) (c : Core) (addr : ℕ) (r : ℕ × Core)
    → IsWellFormed c
    → get_csr_value k c addr ≡ some r
    → IsWellFormed r.1
get_csr_value-IsWellFormed k c addr r h = get_csr_value-cases IsWellFormed k c addr r h h h h
