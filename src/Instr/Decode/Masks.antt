-- ===== src/Instr/Decode/Masks.antt =====
-- The masks of the decoder, one for each format: what they keep are the fields that the format fixes.
use riscv_vp_plusplus.Base.{
  ℕ, ◌+◌, ◌*◌, ◌/◌, ◌%◌, ◌^◌, ◌≡◌, arith, bit_and, bit_and_ones, bit_and_cut, bit_and_field,
}

pub mask_opcode : (i : ℕ) → bit_and i 0x7f ≡ i % 128
mask_opcode i = bit_and_ones 7 i

pub mask_funct3 : (i : ℕ) → bit_and i 0x707f ≡ i / 4096 % 8 * 4096 + i % 128
mask_funct3 i = omega (
  arith,
  bit_and_cut 12 i 7 0x7f (omega arith),
  bit_and_ones 3 (i / 4096),
  bit_and_ones 7 (i % 4096),
)

pub mask_funct7 :
    (i : ℕ) → bit_and i 0xfe00707f ≡ i / 2 ^ 25 % 128 * 2 ^ 25 + i / 4096 % 8 * 4096 + i % 128
mask_funct7 i = omega (
  arith,
  bit_and_cut 15 i 0x1fc00 0x707f (omega arith),
  mask_funct3 (i % 2 ^ 15),
  bit_and_field 7 10 (i / 2 ^ 15),
)

pub mask_funct6 :
    (i : ℕ) → bit_and i 0xfc00707f ≡ i / 2 ^ 26 % 64 * 2 ^ 26 + i / 4096 % 8 * 4096 + i % 128
mask_funct6 i = omega (
  arith,
  bit_and_cut 15 i 0x1f800 0x707f (omega arith),
  mask_funct3 (i % 2 ^ 15),
  bit_and_field 6 11 (i / 2 ^ 15),
)

pub mask_word : (i : ℕ) → bit_and i 0xffffffff ≡ i % 2 ^ 32
mask_word i = bit_and_ones 32 i
