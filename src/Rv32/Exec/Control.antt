-- ===== src/Rv32/Exec/Control.antt =====
-- Where the pc goes: it stays aligned.
use riscv_vp_plusplus.Base.{
  ℕ, Bool, ◌≡◌, ◌%◌, ◌^◌, ◌-◌, arith, bit_or, bit_and, bit_at-bit_or, bit_at-bit_and,
}
use riscv_vp_plusplus.Util.Laws.{bit_range_lem, bit_single_lem}
use riscv_vp_plusplus.Instr.OpId.{OpId}
use riscv_vp_plusplus.Instr.Fields.{b_imm, j_imm}
use riscv_vp_plusplus.Rv32.Exec.{Hart, next, exec_op, jalr_target}

or_even : (x y : ℕ) → x % 2 ≡ 0 → y % 2 ≡ 0 → bit_or x y % 2 ≡ 0
or_even x y hx hy = omega (arith, bit_at-bit_or 0 x y)

b_imm-even : (i : ℕ) → b_imm i % 2 ≡ 0
unfolding b_imm
b_imm-even i =
    or_even _ _
      (or_even _ _
        (or_even _ _ (ground (arith, bit_single_lem i 31)) (ground (arith, bit_single_lem i 7)))
        (ground (arith, bit_range_lem i 30 25)))
      (ground (arith, bit_range_lem i 11 8))

j_imm-even : (i : ℕ) → j_imm i % 2 ≡ 0
unfolding j_imm
j_imm-even i =
    or_even _ _
      (or_even _ _
        (or_even _ _ (ground (arith, bit_single_lem i 31)) (ground (arith, bit_range_lem i 19 12)))
        (ground (arith, bit_single_lem i 20)))
      (ground (arith, bit_range_lem i 30 21))

and_even : (x : ℕ) → bit_and x (2 ^ 32 - 2) % 2 ≡ 0
and_even x = omega (arith, bit_at-bit_and 0 x (2 ^ 32 - 2))

jalr_target-even : (i : ℕ) (h : Hart) → jalr_target i h % 2 ≡ 0
jalr_target-even i h = and_even _

-- From an even pc and an even instruction address, each integer case that returns leaves an even
-- pc.
pub exec_op-pc_even :
    (has_c : Bool) (i : ℕ) (h h' : Hart) (op : OpId)
    → h.pc % 2 ≡ 0
    → h.last_pc % 2 ≡ 0
    → exec_op has_c i h op ≡ next h'
    → h'.pc % 2 ≡ 0
unfolding exec_op
exec_op-pc_even has_c i h h' op p l e =
    let b = b_imm-even i in let j = j_imm-even i in let d = jalr_target-even i h in ground arith
