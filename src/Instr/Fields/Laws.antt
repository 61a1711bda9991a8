-- ===== src/Instr/Fields/Laws.antt =====
-- The fields of an instruction word as quotients and remainders.
use riscv_vp_plusplus.Base.{ℕ, ◌/◌, ◌%◌, ◌^◌, ◌≡◌, arith}
use riscv_vp_plusplus.Util.Laws.{bit_range_lem, bit_slice_lem}
use riscv_vp_plusplus.Instr.Fields.{
  c_opcode, c_rs2, c_f2_high, c_f2_low, csr, zimm, shamt, funct3, funct12, funct7, funct6, funct5,
  opcode, rs1, rs2, rd,
}

pub csr_lem : (i : ℕ) → csr i ≡ i / 2 ^ 20 % 2 ^ 12
unfolding csr
csr_lem i = omega (arith, bit_range_lem i 31 20)

pub zimm_lem : (i : ℕ) → zimm i ≡ i / 2 ^ 15 % 2 ^ 5
unfolding zimm
zimm_lem i = omega (arith, bit_range_lem i 19 15)

pub shamt_lem : (i : ℕ) → shamt i ≡ i / 2 ^ 20 % 2 ^ 6
unfolding shamt
shamt_lem i = omega (arith, bit_range_lem i 25 20)

pub funct3_lem : (i : ℕ) → funct3 i ≡ i / 2 ^ 12 % 2 ^ 3
unfolding funct3
funct3_lem i = omega (arith, bit_range_lem i 14 12)

pub funct12_lem : (i : ℕ) → funct12 i ≡ i / 2 ^ 20 % 2 ^ 12
unfolding funct12
funct12_lem i = omega (arith, bit_range_lem i 31 20)

pub funct7_lem : (i : ℕ) → funct7 i ≡ i / 2 ^ 25 % 2 ^ 7
unfolding funct7
funct7_lem i = omega (arith, bit_range_lem i 31 25)

pub funct6_lem : (i : ℕ) → funct6 i ≡ i / 2 ^ 26 % 2 ^ 6
unfolding funct6
funct6_lem i = omega (arith, bit_range_lem i 31 26)

pub funct5_lem : (i : ℕ) → funct5 i ≡ i / 2 ^ 27 % 2 ^ 5
unfolding funct5
funct5_lem i = omega (arith, bit_range_lem i 31 27)

pub opcode_lem : (i : ℕ) → opcode i ≡ i / 2 ^ 0 % 2 ^ 7
unfolding opcode
opcode_lem i = omega (arith, bit_range_lem i 6 0)

pub rs1_lem : (i : ℕ) → rs1 i ≡ i / 2 ^ 15 % 2 ^ 5
unfolding rs1
rs1_lem i = omega (arith, bit_range_lem i 19 15)

pub rs2_lem : (i : ℕ) → rs2 i ≡ i / 2 ^ 20 % 2 ^ 5
unfolding rs2
rs2_lem i = omega (arith, bit_range_lem i 24 20)

pub rd_lem : (i : ℕ) → rd i ≡ i / 2 ^ 7 % 2 ^ 5
unfolding rd
rd_lem i = omega (arith, bit_range_lem i 11 7)

pub c_opcode_lem : (i : ℕ) → c_opcode i ≡ i / 2 ^ 13 % 2 ^ 3
unfolding c_opcode
c_opcode_lem i = bit_slice_lem i 15 13

pub c_rs2_lem : (i : ℕ) → c_rs2 i ≡ i / 2 ^ 2 % 2 ^ 5
unfolding c_rs2
c_rs2_lem i = bit_slice_lem i 6 2

pub c_f2_high_lem : (i : ℕ) → c_f2_high i ≡ i / 2 ^ 10 % 2 ^ 2
unfolding c_f2_high
c_f2_high_lem i = bit_slice_lem i 11 10

pub c_f2_low_lem : (i : ℕ) → c_f2_low i ≡ i / 2 ^ 5 % 2 ^ 2
unfolding c_f2_low
c_f2_low_lem i = bit_slice_lem i 6 5
