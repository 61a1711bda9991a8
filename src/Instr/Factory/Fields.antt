-- ===== src/Instr/Factory/Fields.antt =====
-- What the decoder reads from each word of the factory: its opcode, its function fields, and what
-- each mask of the decoder keeps of it.
use riscv_vp_plusplus.Base.{ℕ, ◌+◌, ◌*◌, ◌%◌, ◌^◌, ◌<◌, ◌≡◌, arith, bit_and}
use riscv_vp_plusplus.Instr.Fields.{opcode, funct3, funct6, funct7, rd}
use riscv_vp_plusplus.Instr.Fields.Laws.{opcode_lem, funct3_lem, funct6_lem, funct7_lem, rd_lem}
use riscv_vp_plusplus.Instr.Decode.Masks.{mask_opcode, mask_funct3, mask_funct7, mask_funct6}
use riscv_vp_plusplus.Instr.Factory.{r_type, i_type, s_type, shift_type, b_type, jal, lui}
use riscv_vp_plusplus.Instr.Factory.Words.{
  r_type_lem, i_type_lem, s_type_lem, shift_type_lem, b_type_lem, jal_lem, lui_lem,
}

pub r_type_fields :
    (op f3 f7 rd rs1 rs2 : ℕ)
    → op < 128
    → f3 < 8
    → f7 < 128
    → (opcode (r_type op f3 f7 rd rs1 rs2) ≡ op)
      × (funct3 (r_type op f3 f7 rd rs1 rs2) ≡ f3)
      × (funct7 (r_type op f3 f7 rd rs1 rs2) ≡ f7)
      × (bit_and (r_type op f3 f7 rd rs1 rs2) 0xfe00707f ≡ f7 * 2 ^ 25 + f3 * 4096 + op)
r_type_fields op f3 f7 rd rs1 rs2 h1 h2 h3 =
    let w = r_type op f3 f7 rd rs1 rs2 in
    let e = r_type_lem op f3 f7 rd rs1 rs2 h1 h2 h3 in
    (
      omega (arith, e, opcode_lem w),
      omega (arith, e, funct3_lem w),
      omega (arith, e, funct7_lem w),
      omega (arith, e, mask_funct7 w),
    )

pub shift_type_fields :
    (f3 f6 rd rs1 shamt : ℕ)
    → f3 < 8
    → f6 < 64
    → (opcode (shift_type f3 (f6 * 2) rd rs1 shamt) ≡ 19)
      × (funct3 (shift_type f3 (f6 * 2) rd rs1 shamt) ≡ f3)
      × (funct6 (shift_type f3 (f6 * 2) rd rs1 shamt) ≡ f6)
      × (bit_and (shift_type f3 (f6 * 2) rd rs1 shamt) 0xfc00707f ≡ f6 * 2 ^ 26 + f3 * 4096 + 19)
shift_type_fields f3 f6 rd rs1 shamt h1 h2 =
    let w = shift_type f3 (f6 * 2) rd rs1 shamt in
    let e = shift_type_lem f3 f6 rd rs1 shamt h1 h2 in
    (
      omega (arith, e, opcode_lem w),
      omega (arith, e, funct3_lem w),
      omega (arith, e, funct6_lem w),
      omega (arith, e, mask_funct6 w),
    )

-- On RV32 the mask also covers the upper bit of the shift amount.
pub shift_type_mask_32 :
    (f3 f6 rd rs1 shamt : ℕ)
    → f3 < 8
    → f6 < 64
    → shamt < 32
    → bit_and (shift_type f3 (f6 * 2) rd rs1 shamt) 0xfe00707f ≡ f6 * 2 ^ 26 + f3 * 4096 + 19
shift_type_mask_32 f3 f6 rd rs1 shamt h1 h2 h3 = omega (
  arith,
  shift_type_lem f3 f6 rd rs1 shamt h1 h2,
  mask_funct7 (shift_type f3 (f6 * 2) rd rs1 shamt),
)

pub i_type_fields :
    (op f3 rd rs1 imm : ℕ)
    → op < 128
    → f3 < 8
    → (opcode (i_type op f3 rd rs1 imm) ≡ op)
      × (funct3 (i_type op f3 rd rs1 imm) ≡ f3)
      × (bit_and (i_type op f3 rd rs1 imm) 0x707f ≡ f3 * 4096 + op)
i_type_fields op f3 rd rs1 imm h1 h2 =
    let w = i_type op f3 rd rs1 imm in
    let e = i_type_lem op f3 rd rs1 imm h1 h2 in
    (
      omega (arith, e, opcode_lem w),
      omega (arith, e, funct3_lem w),
      omega (arith, e, mask_funct3 w),
    )

pub s_type_fields :
    (op f3 rs1 rs2 imm : ℕ)
    → op < 128
    → f3 < 8
    → (opcode (s_type op f3 rs1 rs2 imm) ≡ op)
      × (funct3 (s_type op f3 rs1 rs2 imm) ≡ f3)
      × (bit_and (s_type op f3 rs1 rs2 imm) 0x707f ≡ f3 * 4096 + op)
s_type_fields op f3 rs1 rs2 imm h1 h2 =
    let w = s_type op f3 rs1 rs2 imm in
    let e = s_type_lem op f3 rs1 rs2 imm h1 h2 in
    (
      omega (arith, e, opcode_lem w),
      omega (arith, e, funct3_lem w),
      omega (arith, e, mask_funct3 w),
    )

pub b_type_fields :
    (f3 rs1 rs2 imm : ℕ)
    → f3 < 8
    → (opcode (b_type f3 rs1 rs2 imm) ≡ 99)
      × (funct3 (b_type f3 rs1 rs2 imm) ≡ f3)
      × (bit_and (b_type f3 rs1 rs2 imm) 0x707f ≡ f3 * 4096 + 99)
b_type_fields f3 rs1 rs2 imm h =
    let w = b_type f3 rs1 rs2 imm in
    let e = b_type_lem f3 rs1 rs2 imm h in
    (
      omega (arith, e, opcode_lem w),
      omega (arith, e, funct3_lem w),
      omega (arith, e, mask_funct3 w),
    )

pub jal_fields :
    (rd' imm : ℕ)
    → (opcode (jal rd' imm) ≡ 111)
      × (bit_and (jal rd' imm) 0x7f ≡ 111)
      × (rd (jal rd' imm) ≡ rd' % 32)
jal_fields rd' imm =
    let w = jal rd' imm in
    let e = jal_lem rd' imm in
    (omega (arith, e, opcode_lem w), omega (arith, e, mask_opcode w), omega (arith, e, rd_lem w))

pub lui_fields : (rd imm : ℕ) → (opcode (lui rd imm) ≡ 55) × (bit_and (lui rd imm) 0x7f ≡ 55)
lui_fields rd imm =
    let w = lui rd imm in
    let e = lui_lem rd imm in (omega (arith, e, opcode_lem w), omega (arith, e, mask_opcode w))

pub rd-i_type :
    (op f3 rd' rs1 imm : ℕ) → op < 128 → f3 < 8 → rd (i_type op f3 rd' rs1 imm) ≡ rd' % 32
rd-i_type op f3 rd' rs1 imm h1 h2 =
    omega (arith, i_type_lem op f3 rd' rs1 imm h1 h2, rd_lem (i_type op f3 rd' rs1 imm))

pub rd-r_type :
    (op f3 f7 rd' rs1 rs2 : ℕ)
    → op < 128
    → f3 < 8
    → f7 < 128
    → rd (r_type op f3 f7 rd' rs1 rs2) ≡ rd' % 32
rd-r_type op f3 f7 rd' rs1 rs2 h1 h2 h3 =
    omega (arith, r_type_lem op f3 f7 rd' rs1 rs2 h1 h2 h3, rd_lem (r_type op f3 f7 rd' rs1 rs2))
