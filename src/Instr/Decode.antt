-- ===== src/Instr/Decode.antt =====
-- vp/src/core/common/instr.cpp, `Instruction::decode_normal`: the cases of the integer, M, A, system
-- and scalar floating point load and store opcodes. Each `switch` is a chain of tests in its order.
pub mod Masks
use riscv_vp_plusplus.Base.{ℕ, Bool, Option, none, some, ◌||◌, ◌==◌, ◌!=◌, bit_and, if◌then◌else◌}
use riscv_vp_plusplus.Instr.OpId.{OpId}
use riscv_vp_plusplus.Instr.Isa.{
  Architecture, by_arch, misa_m, misa_a, misa_f, misa_d, misa_zfh, require_isa,
}
use riscv_vp_plusplus.Instr.Fields.{opcode, funct3, funct5, funct6, funct7, funct12, rd}

-- MATCH_AND_RETURN_INSTR2_OR_OPZERO.
unfoldable pub match_or_zero : ℕ → ℕ → ℕ → OpId → OpId → OpId
match_or_zero i mask encoding op op_zero =
    if bit_and i mask != encoding then OpId.undef else if rd i != 0 then op else op_zero

-- MATCH_AND_RETURN_INSTR.
abbrev pub match_instr : ℕ → ℕ → ℕ → OpId → OpId
match_instr i mask encoding op = match_or_zero i mask encoding op op

-- `case OP_BEQ`.
unfoldable pub decode_branch : ℕ → OpId
decode_branch i =
    if funct3 i == 0
    then match_instr i 0x707f 0x63 OpId.beq
    else if funct3 i == 1
    then match_instr i 0x707f 0x1063 OpId.bne
    else if funct3 i == 4
    then match_instr i 0x707f 0x4063 OpId.blt
    else if funct3 i == 5
    then match_instr i 0x707f 0x5063 OpId.bge
    else if funct3 i == 6
    then match_instr i 0x707f 0x6063 OpId.bltu
    else if funct3 i == 7
    then match_instr i 0x707f 0x7063 OpId.bgeu
    else OpId.undef

-- `case OP_LB`.
unfoldable pub decode_load : ℕ → OpId
decode_load i =
    if funct3 i == 0
    then match_instr i 0x707f 0x3 OpId.lb
    else if funct3 i == 1
    then match_instr i 0x707f 0x1003 OpId.lh
    else if funct3 i == 2
    then match_instr i 0x707f 0x2003 OpId.lw
    else if funct3 i == 4
    then match_instr i 0x707f 0x4003 OpId.lbu
    else if funct3 i == 5
    then match_instr i 0x707f 0x5003 OpId.lhu
    else if funct3 i == 6
    then match_instr i 0x707f 0x6003 OpId.lwu
    else if funct3 i == 3
    then match_instr i 0x707f 0x3003 OpId.ld
    else OpId.undef

-- `case OP_SB`.
unfoldable pub decode_store : ℕ → OpId
decode_store i =
    if funct3 i == 0
    then match_instr i 0x707f 0x23 OpId.sb
    else if funct3 i == 1
    then match_instr i 0x707f 0x1023 OpId.sh
    else if funct3 i == 2
    then match_instr i 0x707f 0x2023 OpId.sw
    else if funct3 i == 3
    then match_instr i 0x707f 0x3023 OpId.sd
    else OpId.undef

-- `case F3_SRLI` of `case OP_ADDI`.
unfoldable pub decode_shift_right_imm : Architecture → ℕ → OpId
decode_shift_right_imm arch i =
    if funct6 i == 0
    then by_arch arch (match_or_zero i 0xfe00707f 0x5013 OpId.srli OpId.srli_nop)
        (match_or_zero i 0xfc00707f 0x5013 OpId.srli OpId.srli_nop)
    else if funct6 i == 0b010000
    then by_arch arch (match_or_zero i 0xfe00707f 0x40005013 OpId.srai OpId.srai_nop)
        (match_or_zero i 0xfc00707f 0x40005013 OpId.srai OpId.srai_nop)
    else OpId.undef

-- `case OP_ADDI`.
unfoldable pub decode_op_imm : Architecture → ℕ → OpId
decode_op_imm arch i =
    if funct3 i == 0
    then match_or_zero i 0x707f 0x13 OpId.addi OpId.addi_nop
    else if funct3 i == 2
    then match_or_zero i 0x707f 0x2013 OpId.slti OpId.slti_nop
    else if funct3 i == 3
    then match_or_zero i 0x707f 0x3013 OpId.sltiu OpId.sltiu_nop
    else if funct3 i == 4
    then match_or_zero i 0x707f 0x4013 OpId.xori OpId.xori_nop
    else if funct3 i == 6
    then match_or_zero i 0x707f 0x6013 OpId.ori OpId.ori_nop
    else if funct3 i == 7
    then match_or_zero i 0x707f 0x7013 OpId.andi OpId.andi_nop
    else if funct3 i == 1
    then by_arch arch (match_or_zero i 0xfe00707f 0x1013 OpId.slli OpId.slli_nop)
        (match_or_zero i 0xfc00707f 0x1013 OpId.slli OpId.slli_nop)
    else if funct3 i == 5
    then decode_shift_right_imm arch i
    else OpId.undef

-- `case F3_SRLIW` of `case OP_ADDIW`.
unfoldable pub decode_shift_right_imm_w : ℕ → OpId
decode_shift_right_imm_w i =
    if funct7 i == 0
    then match_or_zero i 0xfe00707f 0x501b OpId.srliw OpId.srliw_nop
    else if funct7 i == 0b0100000
    then match_or_zero i 0xfe00707f 0x4000501b OpId.sraiw OpId.sraiw_nop
    else OpId.undef

-- `case OP_ADDIW`.
unfoldable pub decode_op_imm_w : ℕ → OpId
decode_op_imm_w i =
    if funct3 i == 0
    then match_or_zero i 0x707f 0x1b OpId.addiw OpId.addiw_nop
    else if funct3 i == 1
    then match_or_zero i 0xfe00707f 0x101b OpId.slliw OpId.slliw_nop
    else if funct3 i == 5
    then decode_shift_right_imm_w i
    else OpId.undef

-- `case F7_ADD` of `case OP_ADD`.
unfoldable pub decode_op_base : ℕ → OpId
decode_op_base i =
    if funct3 i == 0
    then match_or_zero i 0xfe00707f 0x33 OpId.add OpId.add_nop
    else if funct3 i == 1
    then match_or_zero i 0xfe00707f 0x1033 OpId.sll OpId.sll_nop
    else if funct3 i == 2
    then match_or_zero i 0xfe00707f 0x2033 OpId.slt OpId.slt_nop
    else if funct3 i == 3
    then match_or_zero i 0xfe00707f 0x3033 OpId.sltu OpId.sltu_nop
    else if funct3 i == 4
    then match_or_zero i 0xfe00707f 0x4033 OpId.xor OpId.xor_nop
    else if funct3 i == 5
    then match_or_zero i 0xfe00707f 0x5033 OpId.srl OpId.srl_nop
    else if funct3 i == 6
    then match_or_zero i 0xfe00707f 0x6033 OpId.or OpId.or_nop
    else if funct3 i == 7
    then match_or_zero i 0xfe00707f 0x7033 OpId.and OpId.and_nop
    else OpId.undef

-- `case F7_SUB` of `case OP_ADD`.
unfoldable pub decode_op_sub : ℕ → OpId
decode_op_sub i =
    if funct3 i == 0
    then match_or_zero i 0xfe00707f 0x40000033 OpId.sub OpId.sub_nop
    else if funct3 i == 5
    then match_or_zero i 0xfe00707f 0x40005033 OpId.sra OpId.sra_nop
    else OpId.undef

-- `case F7_MUL` of `case OP_ADD`.
unfoldable pub decode_op_mul : ℕ → ℕ → OpId
decode_op_mul isa i =
    if funct3 i == 0
    then require_isa isa misa_m (match_or_zero i 0xfe00707f 0x2000033 OpId.mul OpId.mul_nop)
    else if funct3 i == 1
    then require_isa isa misa_m (match_or_zero i 0xfe00707f 0x2001033 OpId.mulh OpId.mulh_nop)
    else if funct3 i == 2
    then require_isa isa misa_m (match_or_zero i 0xfe00707f 0x2002033 OpId.mulhsu OpId.mulhsu_nop)
    else if funct3 i == 3
    then require_isa isa misa_m (match_or_zero i 0xfe00707f 0x2003033 OpId.mulhu OpId.mulhu_nop)
    else if funct3 i == 4
    then require_isa isa misa_m (match_or_zero i 0xfe00707f 0x2004033 OpId.div OpId.div_nop)
    else if funct3 i == 5
    then require_isa isa misa_m (match_or_zero i 0xfe00707f 0x2005033 OpId.divu OpId.divu_nop)
    else if funct3 i == 6
    then require_isa isa misa_m (match_or_zero i 0xfe00707f 0x2006033 OpId.rem OpId.rem_nop)
    else if funct3 i == 7
    then require_isa isa misa_m (match_or_zero i 0xfe00707f 0x2007033 OpId.remu OpId.remu_nop)
    else OpId.undef

-- `case OP_ADD`.
unfoldable pub decode_op : ℕ → ℕ → OpId
decode_op isa i =
    if funct7 i == 0
    then decode_op_base i
    else if funct7 i == 0b0100000
    then decode_op_sub i
    else if funct7 i == 0b0000001
    then decode_op_mul isa i
    else OpId.undef

-- `case F7_ADDW` of `case OP_ADDW`.
unfoldable pub decode_op_base_w : ℕ → OpId
decode_op_base_w i =
    if funct3 i == 0
    then match_or_zero i 0xfe00707f 0x3b OpId.addw OpId.addw_nop
    else if funct3 i == 1
    then match_or_zero i 0xfe00707f 0x103b OpId.sllw OpId.sllw_nop
    else if funct3 i == 5
    then match_or_zero i 0xfe00707f 0x503b OpId.srlw OpId.srlw_nop
    else OpId.undef

-- `case F7_SUBW` of `case OP_ADDW`.
unfoldable pub decode_op_sub_w : ℕ → OpId
decode_op_sub_w i =
    if funct3 i == 0
    then match_or_zero i 0xfe00707f 0x4000003b OpId.subw OpId.subw_nop
    else if funct3 i == 5
    then match_or_zero i 0xfe00707f 0x4000503b OpId.sraw OpId.sraw_nop
    else OpId.undef

-- `case F7_MULW` of `case OP_ADDW`.
unfoldable pub decode_op_mul_w : ℕ → ℕ → OpId
decode_op_mul_w isa i =
    if funct3 i == 0
    then require_isa isa misa_m (match_or_zero i 0xfe00707f 0x200003b OpId.mulw OpId.mulw_nop)
    else if funct3 i == 4
    then require_isa isa misa_m (match_or_zero i 0xfe00707f 0x200403b OpId.divw OpId.divw_nop)
    else if funct3 i == 5
    then require_isa isa misa_m (match_or_zero i 0xfe00707f 0x200503b OpId.divuw OpId.divuw_nop)
    else if funct3 i == 6
    then require_isa isa misa_m (match_or_zero i 0xfe00707f 0x200603b OpId.remw OpId.remw_nop)
    else if funct3 i == 7
    then require_isa isa misa_m (match_or_zero i 0xfe00707f 0x200703b OpId.remuw OpId.remuw_nop)
    else OpId.undef

-- `case OP_ADDW`.
unfoldable pub decode_op_w : ℕ → ℕ → OpId
decode_op_w isa i =
    if funct7 i == 0
    then decode_op_base_w i
    else if funct7 i == 0b0100000
    then decode_op_sub_w i
    else if funct7 i == 0b0000001
    then decode_op_mul_w isa i
    else OpId.undef

-- `case OP_FENCE`.
unfoldable pub decode_fence : ℕ → OpId
decode_fence i =
    if funct3 i == 0
    then match_instr i 0x707f 0xf OpId.fence
    else if funct3 i == 1
    then match_instr i 0x707f 0x100f OpId.fence_i
    else OpId.undef

-- `case F3_SYS` of `case OP_ECALL`.
unfoldable pub decode_privileged : ℕ → OpId
decode_privileged i =
    if funct12 i == 0b000000000000
    then match_instr i 0xffffffff 0x73 OpId.ecall
    else if funct12 i == 0b000000000001
    then match_instr i 0xffffffff 0x100073 OpId.ebreak
    else if funct12 i == 0b000000000010
    then match_instr i 0xffffffff 0x200073 OpId.uret
    else if funct12 i == 0b000100000010
    then match_instr i 0xffffffff 0x10200073 OpId.sret
    else if funct12 i == 0b001100000010
    then match_instr i 0xffffffff 0x30200073 OpId.mret
    else if funct12 i == 0b000100000101
    then match_instr i 0xffffffff 0x10500073 OpId.wfi
    else match_instr i 0xfe007fff 0x12000073 OpId.sfence_vma

-- `case OP_ECALL`.
unfoldable pub decode_system : ℕ → OpId
decode_system i =
    if funct3 i == 0
    then decode_privileged i
    else if funct3 i == 1
    then match_instr i 0x707f 0x1073 OpId.csrrw
    else if funct3 i == 2
    then match_instr i 0x707f 0x2073 OpId.csrrs
    else if funct3 i == 3
    then match_instr i 0x707f 0x3073 OpId.csrrc
    else if funct3 i == 5
    then match_instr i 0x707f 0x5073 OpId.csrrwi
    else if funct3 i == 6
    then match_instr i 0x707f 0x6073 OpId.csrrsi
    else if funct3 i == 7
    then match_instr i 0x707f 0x7073 OpId.csrrci
    else OpId.undef

-- `case OP_AMO`: the doubleword form is taken when funct3 says so, else the word form.
unfoldable pub decode_amo : ℕ → ℕ → OpId
decode_amo isa i =
    if funct5 i == 0b00010
    then require_isa isa misa_a (
        if funct3 i == 0b011
        then match_instr i 0xf9f0707f 0x1000302f OpId.lr_d
        else match_instr i 0xf9f0707f 0x1000202f OpId.lr_w)
    else if funct5 i == 0b00011
    then require_isa isa misa_a (
        if funct3 i == 0b011
        then match_instr i 0xf800707f 0x1800302f OpId.sc_d
        else match_instr i 0xf800707f 0x1800202f OpId.sc_w)
    else if funct5 i == 0b00001
    then require_isa isa misa_a (
        if funct3 i == 0b011
        then match_instr i 0xf800707f 0x800302f OpId.amoswap_d
        else match_instr i 0xf800707f 0x800202f OpId.amoswap_w)
    else if funct5 i == 0b00000
    then require_isa isa misa_a (
        if funct3 i == 0b011
        then match_instr i 0xf800707f 0x302f OpId.amoadd_d
        else match_instr i 0xf800707f 0x202f OpId.amoadd_w)
    else if funct5 i == 0b00100
    then require_isa isa misa_a (
        if funct3 i == 0b011
        then match_instr i 0xf800707f 0x2000302f OpId.amoxor_d
        else match_instr i 0xf800707f 0x2000202f OpId.amoxor_w)
    else if funct5 i == 0b01100
    then require_isa isa misa_a (
        if funct3 i == 0b011
        then match_instr i 0xf800707f 0x6000302f OpId.amoand_d
        else match_instr i 0xf800707f 0x6000202f OpId.amoand_w)
    else if funct5 i == 0b01000
    then require_isa isa misa_a (
        if funct3 i == 0b011
        then match_instr i 0xf800707f 0x4000302f OpId.amoor_d
        else match_instr i 0xf800707f 0x4000202f OpId.amoor_w)
    else if funct5 i == 0b10000
    then require_isa isa misa_a (
        if funct3 i == 0b011
        then match_instr i 0xf800707f 0x8000302f OpId.amomin_d
        else match_instr i 0xf800707f 0x8000202f OpId.amomin_w)
    else if funct5 i == 0b10100
    then require_isa isa misa_a (
        if funct3 i == 0b011
        then match_instr i 0xf800707f 0xa000302f OpId.amomax_d
        else match_instr i 0xf800707f 0xa000202f OpId.amomax_w)
    else if funct5 i == 0b11000
    then require_isa isa misa_a (
        if funct3 i == 0b011
        then match_instr i 0xf800707f 0xc000302f OpId.amominu_d
        else match_instr i 0xf800707f 0xc000202f OpId.amominu_w)
    else if funct5 i == 0b11100
    then require_isa isa misa_a (
        if funct3 i == 0b011
        then match_instr i 0xf800707f 0xe000302f OpId.amomaxu_d
        else match_instr i 0xf800707f 0xe000202f OpId.amomaxu_w)
    else OpId.undef

-- The scalar cases of `case OP_FLW`; `none` is a vector width (0, 5, 6, 7), whose
-- cases are not modelled.
unfoldable pub decode_fp_load : ℕ → ℕ → Option OpId
decode_fp_load isa i =
    if funct3 i == 1
    then some (require_isa isa misa_zfh (match_instr i 0x707f 0x1007 OpId.flh))
    else if funct3 i == 2
    then some (require_isa isa misa_f (match_instr i 0x707f 0x2007 OpId.flw))
    else if funct3 i == 3
    then some (require_isa isa misa_d (match_instr i 0x707f 0x3007 OpId.fld))
    else if funct3 i == 4
    then some OpId.undef
    else none

-- The scalar cases of `case OP_FSW`; `none` is a vector width.
unfoldable pub decode_fp_store : ℕ → ℕ → Option OpId
decode_fp_store isa i =
    if funct3 i == 1
    then some (require_isa isa misa_zfh (match_instr i 0x707f 0x1027 OpId.fsh))
    else if funct3 i == 2
    then some (require_isa isa misa_f (match_instr i 0x707f 0x2027 OpId.fsw))
    else if funct3 i == 3
    then some (require_isa isa misa_d (match_instr i 0x707f 0x3027 OpId.fsd))
    else if funct3 i == 4
    then some OpId.undef
    else none

-- The opcodes of the floating point arithmetic and of the vector extension.
abbrev pub is_fp_or_vector_opcode : ℕ → Bool
is_fp_or_vector_opcode op =
    op == 0b1000011
    || op == 0b1010011
    || op == 0b1000111
    || op == 0b1001011
    || op == 0b1001111
    || op == 0b1010111

-- `Instruction::decode_normal`; `none` stands for the floating point and vector
-- cases that are not modelled.
unfoldable pub decode_normal : Architecture → ℕ → ℕ → Option OpId
decode_normal arch isa i =
    if opcode i == 0b0110111
    then some (match_or_zero i 0x7f 0x37 OpId.lui OpId.lui_nop)
    else if opcode i == 0b0010111
    then some (match_or_zero i 0x7f 0x17 OpId.auipc OpId.auipc_nop)
    else if opcode i == 0b1101111
    then some (match_or_zero i 0x7f 0x6f OpId.jal OpId.j)
    else if opcode i == 0b1100111
    then some (match_or_zero i 0x707f 0x67 OpId.jalr OpId.jr)
    else if opcode i == 0b1100011
    then some (decode_branch i)
    else if opcode i == 0b0000011
    then some (decode_load i)
    else if opcode i == 0b0100011
    then some (decode_store i)
    else if opcode i == 0b0010011
    then some (decode_op_imm arch i)
    else if opcode i == 0b0011011
    then some (decode_op_imm_w i)
    else if opcode i == 0b0110011
    then some (decode_op isa i)
    else if opcode i == 0b0111011
    then some (decode_op_w isa i)
    else if opcode i == 0b0001111
    then some (decode_fence i)
    else if opcode i == 0b1110011
    then some (decode_system i)
    else if opcode i == 0b0101111
    then some (decode_amo isa i)
    else if opcode i == 0b0000111
    then decode_fp_load isa i
    else if opcode i == 0b0100111
    then decode_fp_store isa i
    else if is_fp_or_vector_opcode (opcode i)
    then none
    else some OpId.undef
