-- ===== src/Instr/OpId.antt =====
-- The operations of core/common/instr.h: those of the I, M, A, Zicsr and privileged sets, and the
-- scalar floating point loads and stores. `…_nop` is an operation whose result goes to x0.
pub data OpId : Type 0 where
  undef unsup beq bne blt bge bltu bgeu : OpId
  lb lh lw lbu lhu lwu ld sb : OpId
  sh sw sd srli srli_nop srai srai_nop addi : OpId
  addi_nop slti slti_nop sltiu sltiu_nop xori xori_nop ori : OpId
  ori_nop andi andi_nop slli slli_nop srliw srliw_nop sraiw : OpId
  sraiw_nop addiw addiw_nop slliw slliw_nop add add_nop sll : OpId
  sll_nop slt slt_nop sltu sltu_nop xor xor_nop srl : OpId
  srl_nop or or_nop and and_nop sub sub_nop sra : OpId
  sra_nop mul mul_nop mulh mulh_nop mulhsu mulhsu_nop mulhu : OpId
  mulhu_nop div div_nop divu divu_nop rem rem_nop remu : OpId
  remu_nop addw addw_nop sllw sllw_nop srlw srlw_nop subw : OpId
  subw_nop sraw sraw_nop mulw mulw_nop divw divw_nop divuw : OpId
  divuw_nop remw remw_nop remuw remuw_nop fence fence_i ecall : OpId
  ebreak uret sret mret wfi sfence_vma csrrw csrrs : OpId
  csrrc csrrwi csrrsi csrrci lr_d lr_w sc_d sc_w : OpId
  amoswap_d amoswap_w amoadd_d amoadd_w amoxor_d amoxor_w amoand_d amoand_w : OpId
  amoor_d amoor_w amomin_d amomin_w amomax_d amomax_w amominu_d amominu_w : OpId
  amomaxu_d amomaxu_w flh flw fld fsh fsw fsd : OpId
  lui lui_nop auipc auipc_nop jal j jalr jr : OpId
