-- ===== src/Instr/Factory.antt =====
-- vp/src/core/common/instr.cpp, `struct InstructionFactory`: the words that compressed instructions
-- expand to. The members of one format differ in their opcode, funct3 and funct7 literals only, and
-- are instances of one function here.
pub mod Words
pub mod Fields
use riscv_vp_plusplus.Base.{ℕ, ◌*◌, ◌/◌, ◌^◌, bit_and, bit_or}

unfoldable pub r_type : ℕ → ℕ → ℕ → ℕ → ℕ → ℕ → ℕ
r_type op f3 f7 rd rs1 rs2 =
    bit_or
      (bit_or
        (bit_or
          (bit_or (bit_or (bit_and rd 0x1f * 2 ^ 7) (bit_and rs1 0x1f * 2 ^ 15))
            (bit_and rs2 0x1f * 2 ^ 20))
          op)
        (f3 * 2 ^ 12))
      (f7 * 2 ^ 25)

unfoldable pub i_type : ℕ → ℕ → ℕ → ℕ → ℕ → ℕ
i_type op f3 rd rs1 imm =
    bit_or
      (bit_or
        (bit_or (bit_or (bit_and imm 4095 * 2 ^ 20) (bit_and rd 0x1f * 2 ^ 7))
          (bit_and rs1 0x1f * 2 ^ 15))
        op)
      (f3 * 2 ^ 12)

unfoldable pub s_type : ℕ → ℕ → ℕ → ℕ → ℕ → ℕ
s_type op f3 rs1 rs2 imm =
    bit_or
      (bit_or
        (bit_or
          (bit_or (bit_or (bit_and imm 0b11111 * 2 ^ 7) (bit_and imm (0b1111111 * 2 ^ 5) * 2 ^ 20))
            (bit_and rs1 0x1f * 2 ^ 15))
          (bit_and rs2 0x1f * 2 ^ 20))
        op)
      (f3 * 2 ^ 12)

unfoldable pub shift_type : ℕ → ℕ → ℕ → ℕ → ℕ → ℕ
shift_type f3 f7 rd rs1 shamt =
    bit_or
      (bit_or
        (bit_or
          (bit_or (bit_or (bit_and rd 0x1f * 2 ^ 7) (bit_and rs1 0x1f * 2 ^ 15))
            (bit_and shamt 63 * 2 ^ 20))
          19)
        (f3 * 2 ^ 12))
      (f7 * 2 ^ 25)

unfoldable pub b_type : ℕ → ℕ → ℕ → ℕ → ℕ
b_type f3 rs1 rs2 imm =
    bit_or
      (bit_or
        (bit_or
          (bit_or
            (bit_or (bit_or (bit_and imm 0b11110 * 2 ^ 7) (bit_and imm (2 ^ 11) / 2 ^ 4))
              (bit_or (bit_and imm (0b111111 * 2 ^ 5) * 2 ^ 20) (bit_and imm (2 ^ 12) * 2 ^ 19)))
            (bit_and rs1 0x1f * 2 ^ 15))
          (bit_and rs2 0x1f * 2 ^ 20))
        99)
      (f3 * 2 ^ 12)

unfoldable pub jal : ℕ → ℕ → ℕ
jal rd imm = bit_or (bit_or 111 (bit_and rd 0x1f * 2 ^ 7)) (
    bit_or
      (bit_or (bit_or (bit_and imm (0b11111111 * 2 ^ 12)) (bit_and imm (2 ^ 11) * 2 ^ 9))
        (bit_and imm 0b11111111110 * 2 ^ 20))
      (bit_and imm (2 ^ 20) * 2 ^ 11))

unfoldable pub lui : ℕ → ℕ → ℕ
lui rd imm = bit_or (bit_or (bit_and imm (1048575 * 2 ^ 12)) (bit_and rd 0x1f * 2 ^ 7)) 55

abbrev pub ebreak : ℕ
ebreak = 1048691

abbrev pub add : ℕ → ℕ → ℕ → ℕ
add = r_type 51 0 0

abbrev pub and : ℕ → ℕ → ℕ → ℕ
and = r_type 51 7 0

abbrev pub or : ℕ → ℕ → ℕ → ℕ
or = r_type 51 6 0

abbrev pub xor : ℕ → ℕ → ℕ → ℕ
xor = r_type 51 4 0

abbrev pub sub : ℕ → ℕ → ℕ → ℕ
sub = r_type 51 0 32

-- `... | 0x3b`, and `... | 0x3b | 0x40000000`.
abbrev pub addw : ℕ → ℕ → ℕ → ℕ
addw = r_type 0x3b 0 0

abbrev pub subw : ℕ → ℕ → ℕ → ℕ
subw = r_type 0x3b 0 32

abbrev pub lw : ℕ → ℕ → ℕ → ℕ
lw = i_type 3 2

abbrev pub ld : ℕ → ℕ → ℕ → ℕ
ld = i_type 3 3

abbrev pub flw : ℕ → ℕ → ℕ → ℕ
flw = i_type 7 2

abbrev pub fld : ℕ → ℕ → ℕ → ℕ
fld = i_type 7 3

abbrev pub addi : ℕ → ℕ → ℕ → ℕ
addi = i_type 19 0

abbrev pub andi : ℕ → ℕ → ℕ → ℕ
andi = i_type 19 7

abbrev pub jalr : ℕ → ℕ → ℕ → ℕ
jalr = i_type 103 0

abbrev pub addiw : ℕ → ℕ → ℕ → ℕ
addiw = i_type 0x1b 0

abbrev pub sw : ℕ → ℕ → ℕ → ℕ
sw = s_type 35 2

abbrev pub sd : ℕ → ℕ → ℕ → ℕ
sd = s_type 35 3

abbrev pub fsw : ℕ → ℕ → ℕ → ℕ
fsw = s_type 39 2

abbrev pub fsd : ℕ → ℕ → ℕ → ℕ
fsd = s_type 39 3

abbrev pub srli : ℕ → ℕ → ℕ → ℕ
srli = shift_type 5 0

abbrev pub srai : ℕ → ℕ → ℕ → ℕ
srai = shift_type 5 32

abbrev pub slli : ℕ → ℕ → ℕ → ℕ
slli = shift_type 1 0

abbrev pub beq : ℕ → ℕ → ℕ → ℕ
beq = b_type 0

abbrev pub bne : ℕ → ℕ → ℕ → ℕ
bne = b_type 1
