-- ===== src/Util.antt =====
-- vp/src/util/common.h: the bit manipulation macros, on 32-bit patterns. Where the upper bit of a
-- field is 31 and the operand is signed, the shift down is arithmetic: the source then shifts a
-- BIT_RANGE or BIT_SINGLE itself, and the model says `sar`.
pub mod Laws
pub mod MemoryMap
use riscv_vp_plusplus.Base.{ℕ, ◌+◌, ◌-◌, ◌*◌, ◌/◌, ◌^◌, bit_and, sar}

-- instr & (((1 << (upper - lower + 1)) - 1) << lower)
unfoldable pub bit_range : ℕ → ℕ → ℕ → ℕ
bit_range x upper lower = bit_and x ((2 ^ (upper - lower + 1) - 1) * 2 ^ lower)

unfoldable pub bit_slice : ℕ → ℕ → ℕ → ℕ
unfolding bit_range
bit_slice x upper lower = bit_range x upper lower / 2 ^ lower

-- instr & (1 << pos)
unfoldable pub bit_single : ℕ → ℕ → ℕ
bit_single x pos = bit_and x (2 ^ pos)

unfoldable pub bit_single_p1 : ℕ → ℕ → ℕ
unfolding bit_single
bit_single_p1 x pos = bit_single x pos / 2 ^ pos

unfoldable pub bit_single_pn : ℕ → ℕ → ℕ → ℕ
unfolding bit_single
bit_single_pn x pos new_pos = bit_single x pos / 2 ^ pos * 2 ^ new_pos

-- Bit `pos` of an `int32_t`, copied to all bits from `new_pos` up.
unfoldable pub extract_sign_bit : ℕ → ℕ → ℕ → ℕ
unfolding bit_single_p1
extract_sign_bit x pos new_pos = sar (bit_single_p1 x pos * 2 ^ 31) (31 - new_pos)
