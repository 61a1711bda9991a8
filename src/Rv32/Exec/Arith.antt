-- ===== src/Rv32/Exec/Arith.antt =====
-- vp/src/core/rv32/iss_ctemplate.cpp, `exec_steps`: the C operators that its integer cases apply to
-- the registers. An `int32_t` is its 32-bit pattern, and an `int64_t` its 64-bit pattern.
pub mod Laws
use riscv_vp_plusplus.Base.{
  ℕ, ◌+◌, ◌-◌, ◌*◌, ◌/◌, ◌%◌, ◌^◌, Bool, true, false, ◌==◌, ◌&&◌, ltb, bit_and, u32, if◌then◌else◌,
}

abbrev pub is_negative : ℕ → Bool
is_negative a = if ltb a (2 ^ 31) then false else true

abbrev pub negate : ℕ → ℕ
negate a = u32 (2 ^ 32 - a)

-- The difference of two 32-bit patterns.
abbrev pub sub32 : ℕ → ℕ → ℕ
sub32 a b = u32 (a + (2 ^ 32 - b))

-- The magnitude of an `int32_t`.
abbrev pub magnitude : ℕ → ℕ
magnitude a = if ltb a (2 ^ 31) then a else 2 ^ 32 - a

-- `<` on `int32_t`.
abbrev pub signed_lt : ℕ → ℕ → Bool
signed_lt a b =
    if is_negative a
    then (if is_negative b then ltb a b else true)
    else if is_negative b
    then false
    else ltb a b

-- `/` and `%` on `int32_t`, which C rounds towards zero.
abbrev pub signed_div : ℕ → ℕ → ℕ
signed_div a b =
    let q = magnitude a / magnitude b in
    if is_negative a
    then (if is_negative b then q else negate q)
    else if is_negative b
    then negate q
    else q

abbrev pub signed_mod : ℕ → ℕ → ℕ
signed_mod a b = let r = magnitude a % magnitude b in if is_negative a then negate r else r

-- `(int64_t)` of an `int32_t`.
abbrev pub to_int64 : ℕ → ℕ
to_int64 a = if ltb a (2 ^ 31) then a else a + (2 ^ 64 - 2 ^ 32)

-- OP_CASE(DIV).
unfoldable pub div : ℕ → ℕ → ℕ
div a b =
    if b == 0 then 2 ^ 32 - 1 else if a == 2 ^ 31 && b == 2 ^ 32 - 1 then a else signed_div a b

-- OP_CASE(REM).
unfoldable pub rem : ℕ → ℕ → ℕ
rem a b = if b == 0 then a else if a == 2 ^ 31 && b == 2 ^ 32 - 1 then 0 else signed_mod a b

-- OP_CASE(DIVU).
unfoldable pub divu : ℕ → ℕ → ℕ
divu a b = if b == 0 then 2 ^ 32 - 1 else a / b

-- OP_CASE(REMU).
unfoldable pub remu : ℕ → ℕ → ℕ
remu a b = if b == 0 then a else a % b

-- OP_CASE(MUL).
unfoldable pub mul : ℕ → ℕ → ℕ
mul a b = bit_and (to_int64 a * to_int64 b % 2 ^ 64) 0xFFFFFFFF

-- OP_CASE(MULH).
unfoldable pub mulh : ℕ → ℕ → ℕ
mulh a b = bit_and (to_int64 a * to_int64 b % 2 ^ 64) 0xFFFFFFFF00000000 / 2 ^ 32

-- OP_CASE(MULHU).
unfoldable pub mulhu : ℕ → ℕ → ℕ
mulhu a b = bit_and (a * b % 2 ^ 64) 0xFFFFFFFF00000000 / 2 ^ 32

-- OP_CASE(MULHSU).
unfoldable pub mulhsu : ℕ → ℕ → ℕ
mulhsu a b = bit_and (to_int64 a * b % 2 ^ 64) 0xFFFFFFFF00000000 / 2 ^ 32
