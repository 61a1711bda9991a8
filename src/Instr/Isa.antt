-- ===== src/Instr/Isa.antt =====
-- vp/src/core/common/core_defs.h: the architecture and the ISA configuration that the decoder asks.
use riscv_vp_plusplus.Base.{ℕ, ◌^◌, ◌==◌, bit_and, if◌then◌else◌}
use riscv_vp_plusplus.Instr.OpId.{OpId}

-- RV128 has no instance in the repository: every test in the decoder is `arch == RV32`.
pub data Architecture : Type 0 where
  rv32 rv64 : Architecture

-- `if (arch == RV32) a else b`.
abbrev pub by_arch {ℓ} : {A : Type ℓ} → Architecture → A → A → A
by_arch rv32 a b = a
by_arch rv64 a b = b

abbrev pub misa_a : ℕ
misa_a = 1

abbrev pub misa_c : ℕ
misa_c = 2 ^ 2

abbrev pub misa_d : ℕ
misa_d = 2 ^ 3

abbrev pub misa_e : ℕ
misa_e = 2 ^ 4

abbrev pub misa_f : ℕ
misa_f = 2 ^ 5

abbrev pub misa_m : ℕ
misa_m = 2 ^ 12

abbrev pub misa_s : ℕ
misa_s = 2 ^ 18

abbrev pub misa_u : ℕ
misa_u = 2 ^ 20

abbrev pub misa_zfh : ℕ
misa_zfh = 2 ^ 32

-- REQUIRE_ISA: `isa` is `isa_config.cfg`.
abbrev pub require_isa : ℕ → ℕ → OpId → OpId
require_isa isa ext op = if bit_and isa ext == 0 then OpId.unsup else op
