-- ===== src/Rv32/Csrs/Access/Machine.antt =====
-- A register of machine mode is written at its own address only.
use riscv_vp_plusplus.Base.{ℕ, ◌≡◌, ◌⊎◌, arith, some}
use riscv_vp_plusplus.Rv32.Csrs.{Csrs, default_write32}
use riscv_vp_plusplus.Rv32.Csrs.Access.{write_csr}
use riscv_vp_plusplus.Rv32.State.{Core}

-- A write leaves `register`, unless it is at the address of the register.
abbrev pub IsOnlyAt : (Csrs → ℕ) → ℕ → Type 0
IsOnlyAt register own =
    (c : Core) (r : Csrs) (addr value : ℕ)
    → write_csr c addr value ≡ some r
    → (addr ≡ own) ⊎ (register r ≡ register c.csrs)

abbrev IsDefaultOnlyAt : (Csrs → ℕ) → ℕ → Type 0
IsDefaultOnlyAt register own =
    (r r' : Csrs) (addr value : ℕ)
    → default_write32 r addr value ≡ some r'
    → (addr ≡ own) ⊎ (register r' ≡ register r)

default_write32-mtvec : IsDefaultOnlyAt (λ r. r.mtvec) 0x305
unfolding default_write32
default_write32-mtvec r r' addr value e = ground arith

pub write_csr-mtvec : IsOnlyAt (λ r. r.mtvec) 0x305
unfolding write_csr
write_csr-mtvec c r addr value e = ground (arith, default_write32-mtvec c.csrs r addr value)

default_write32-medeleg : IsDefaultOnlyAt (λ r. r.medeleg) 0x302
unfolding default_write32
default_write32-medeleg r r' addr value e = ground arith

pub write_csr-medeleg : IsOnlyAt (λ r. r.medeleg) 0x302
unfolding write_csr
write_csr-medeleg c r addr value e = ground (arith, default_write32-medeleg c.csrs r addr value)

default_write32-mideleg : IsDefaultOnlyAt (λ r. r.mideleg) 0x303
unfolding default_write32
default_write32-mideleg r r' addr value e = ground arith

pub write_csr-mideleg : IsOnlyAt (λ r. r.mideleg) 0x303
unfolding write_csr
write_csr-mideleg c r addr value e = ground (arith, default_write32-mideleg c.csrs r addr value)

default_write32-mcounteren : IsDefaultOnlyAt (λ r. r.mcounteren) 0x306
unfolding default_write32
default_write32-mcounteren r r' addr value e = ground arith

pub write_csr-mcounteren : IsOnlyAt (λ r. r.mcounteren) 0x306
unfolding write_csr
write_csr-mcounteren c r addr value e =
    ground (arith, default_write32-mcounteren c.csrs r addr value)

default_write32-mscratch : IsDefaultOnlyAt (λ r. r.mscratch) 0x340
unfolding default_write32
default_write32-mscratch r r' addr value e = ground arith

pub write_csr-mscratch : IsOnlyAt (λ r. r.mscratch) 0x340
unfolding write_csr
write_csr-mscratch c r addr value e = ground (arith, default_write32-mscratch c.csrs r addr value)

default_write32-mepc : IsDefaultOnlyAt (λ r. r.mepc) 0x341
unfolding default_write32
default_write32-mepc r r' addr value e = ground arith

pub write_csr-mepc : IsOnlyAt (λ r. r.mepc) 0x341
unfolding write_csr
write_csr-mepc c r addr value e = ground (arith, default_write32-mepc c.csrs r addr value)

default_write32-mcause : IsDefaultOnlyAt (λ r. r.mcause) 0x342
unfolding default_write32
default_write32-mcause r r' addr value e = ground arith

pub write_csr-mcause : IsOnlyAt (λ r. r.mcause) 0x342
unfolding write_csr
write_csr-mcause c r addr value e = ground (arith, default_write32-mcause c.csrs r addr value)

default_write32-mtval : IsDefaultOnlyAt (λ r. r.mtval) 0x343
unfolding default_write32
default_write32-mtval r r' addr value e = ground arith

pub write_csr-mtval : IsOnlyAt (λ r. r.mtval) 0x343
unfolding write_csr
write_csr-mtval c r addr value e = ground (arith, default_write32-mtval c.csrs r addr value)

default_write32-mhartid : IsDefaultOnlyAt (λ r. r.mhartid) 0xF14
unfolding default_write32
default_write32-mhartid r r' addr value e = ground arith

pub write_csr-mhartid : IsOnlyAt (λ r. r.mhartid) 0xF14
unfolding write_csr
write_csr-mhartid c r addr value e = ground (arith, default_write32-mhartid c.csrs r addr value)
