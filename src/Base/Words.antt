-- ===== src/Base/Words.antt =====
-- 32-bit words as native numbers: a value of a C type of 32 bits, signed or not, is its bit pattern
-- below 2 ^ 32.
use Prim.Native.Nat.{ℕ, ◌+◌, ◌-◌, ◌/◌, ◌%◌, ◌^◌}
use riscv_vp_plusplus.Base.Tests.{ltb, if◌then◌else◌}

abbrev pub u32 : ℕ → ℕ
u32 n = n % 2 ^ 32

-- `x >> k` on an `int32_t`, for `k` of at most 31.
abbrev pub sar : ℕ → ℕ → ℕ
sar x k = if ltb x (2 ^ 31) then x / 2 ^ k else x / 2 ^ k + (2 ^ 32 - 2 ^ (32 - k))

-- The pattern of the `k` low bits of `x`, read as a signed number and widened to 32 bits.
abbrev pub sign_extend : ℕ → ℕ → ℕ
sign_extend k x = if ltb (x % 2 ^ k) (2 ^ (k - 1)) then x % 2 ^ k else x % 2 ^ k + (2 ^ 32 - 2 ^ k)
