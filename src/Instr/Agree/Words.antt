-- ===== src/Instr/Agree/Words.antt =====
-- The normal decoder on each word of the factory: it reads back the operation that the word is made
-- for, or the form of it that writes x0.
use riscv_vp_plusplus.Base.{
  ℕ, ◌≡◌, ◌<◌, ◌%◌, refl, arith, ◌!=◌, ◌==◌, false, bit_and, if◌then◌else◌, some,
}
use riscv_vp_plusplus.Instr.OpId.{OpId}
use riscv_vp_plusplus.Instr.Isa.{Architecture, rv32, rv64, misa_f, misa_d}
use riscv_vp_plusplus.Instr.Fields.{rd, opcode, funct3, funct12}
use riscv_vp_plusplus.Instr.Factory
use riscv_vp_plusplus.Instr.Factory.Fields.{
  r_type_fields, i_type_fields, s_type_fields, shift_type_fields, shift_type_mask_32, b_type_fields,
  jal_fields, lui_fields, rd-i_type,
}
use riscv_vp_plusplus.Instr.Decode.{
  decode_normal, decode_op, decode_op_base, decode_op_sub, decode_op_w, decode_op_base_w,
  decode_op_sub_w, decode_load, decode_store, decode_fp_load, decode_fp_store, decode_op_imm,
  decode_shift_right_imm, decode_op_imm_w, decode_branch, decode_system, decode_privileged,
  match_or_zero,
}

module _ (arch : Architecture) (isa : ℕ) where
  pub decode-add :
      (a b c : ℕ)
      → decode_normal arch isa (Factory.add a b c)
        ≡ some (if rd (Factory.add a b c) != 0 then OpId.add else OpId.add_nop)
  unfolding decode_normal decode_op decode_op_base match_or_zero
  decode-add a b c =
      let f = r_type_fields 51 0 0 a b c (omega arith) (omega arith) (omega arith) in
      rw (f.0, f.1, f.2, f.3) refl

  pub decode-and :
      (a b c : ℕ)
      → decode_normal arch isa (Factory.and a b c)
        ≡ some (if rd (Factory.and a b c) != 0 then OpId.and else OpId.and_nop)
  unfolding decode_normal decode_op decode_op_base match_or_zero
  decode-and a b c =
      let f = r_type_fields 51 7 0 a b c (omega arith) (omega arith) (omega arith) in
      rw (f.0, f.1, f.2, f.3) refl

  pub decode-or :
      (a b c : ℕ)
      → decode_normal arch isa (Factory.or a b c)
        ≡ some (if rd (Factory.or a b c) != 0 then OpId.or else OpId.or_nop)
  unfolding decode_normal decode_op decode_op_base match_or_zero
  decode-or a b c =
      let f = r_type_fields 51 6 0 a b c (omega arith) (omega arith) (omega arith) in
      rw (f.0, f.1, f.2, f.3) refl

  pub decode-xor :
      (a b c : ℕ)
      → decode_normal arch isa (Factory.xor a b c)
        ≡ some (if rd (Factory.xor a b c) != 0 then OpId.xor else OpId.xor_nop)
  unfolding decode_normal decode_op decode_op_base match_or_zero
  decode-xor a b c =
      let f = r_type_fields 51 4 0 a b c (omega arith) (omega arith) (omega arith) in
      rw (f.0, f.1, f.2, f.3) refl

  pub decode-sub :
      (a b c : ℕ)
      → decode_normal arch isa (Factory.sub a b c)
        ≡ some (if rd (Factory.sub a b c) != 0 then OpId.sub else OpId.sub_nop)
  unfolding decode_normal decode_op decode_op_sub match_or_zero
  decode-sub a b c =
      let f = r_type_fields 51 0 32 a b c (omega arith) (omega arith) (omega arith) in
      rw (f.0, f.1, f.2, f.3) refl

  pub decode-addw :
      (a b c : ℕ)
      → decode_normal arch isa (Factory.addw a b c)
        ≡ some (if rd (Factory.addw a b c) != 0 then OpId.addw else OpId.addw_nop)
  unfolding decode_normal decode_op_w decode_op_base_w match_or_zero
  decode-addw a b c =
      let f = r_type_fields 59 0 0 a b c (omega arith) (omega arith) (omega arith) in
      rw (f.0, f.1, f.2, f.3) refl

  pub decode-subw :
      (a b c : ℕ)
      → decode_normal arch isa (Factory.subw a b c)
        ≡ some (if rd (Factory.subw a b c) != 0 then OpId.subw else OpId.subw_nop)
  unfolding decode_normal decode_op_w decode_op_sub_w match_or_zero
  decode-subw a b c =
      let f = r_type_fields 59 0 32 a b c (omega arith) (omega arith) (omega arith) in
      rw (f.0, f.1, f.2, f.3) refl

  pub decode-lw : (a b c : ℕ) → decode_normal arch isa (Factory.lw a b c) ≡ some OpId.lw
  unfolding decode_normal decode_load match_or_zero
  decode-lw a b c =
      let f = i_type_fields 3 2 a b c (omega arith) (omega arith) in
      rw (f.0, f.1, f.2) (ground arith)

  pub decode-ld : (a b c : ℕ) → decode_normal arch isa (Factory.ld a b c) ≡ some OpId.ld
  unfolding decode_normal decode_load match_or_zero
  decode-ld a b c =
      let f = i_type_fields 3 3 a b c (omega arith) (omega arith) in
      rw (f.0, f.1, f.2) (ground arith)

  pub decode-flw :
      (a b c : ℕ)
      → (bit_and isa misa_f == 0) ≡ false
      → decode_normal arch isa (Factory.flw a b c) ≡ some OpId.flw
  unfolding decode_normal decode_fp_load match_or_zero
  decode-flw a b c h =
      let f = i_type_fields 7 2 a b c (omega arith) (omega arith) in
      rw (f.0, f.1, f.2, h) (ground arith)

  pub decode-fld :
      (a b c : ℕ)
      → (bit_and isa misa_d == 0) ≡ false
      → decode_normal arch isa (Factory.fld a b c) ≡ some OpId.fld
  unfolding decode_normal decode_fp_load match_or_zero
  decode-fld a b c h =
      let f = i_type_fields 7 3 a b c (omega arith) (omega arith) in
      rw (f.0, f.1, f.2, h) (ground arith)

  pub decode-addi :
      (a b c : ℕ)
      → decode_normal arch isa (Factory.addi a b c)
        ≡ some (if rd (Factory.addi a b c) != 0 then OpId.addi else OpId.addi_nop)
  unfolding decode_normal decode_op_imm match_or_zero
  decode-addi a b c =
      let f = i_type_fields 19 0 a b c (omega arith) (omega arith) in rw (f.0, f.1, f.2) refl

  pub decode-andi :
      (a b c : ℕ)
      → decode_normal arch isa (Factory.andi a b c)
        ≡ some (if rd (Factory.andi a b c) != 0 then OpId.andi else OpId.andi_nop)
  unfolding decode_normal decode_op_imm match_or_zero
  decode-andi a b c =
      let f = i_type_fields 19 7 a b c (omega arith) (omega arith) in rw (f.0, f.1, f.2) refl

  pub decode-addiw :
      (a b c : ℕ)
      → decode_normal arch isa (Factory.addiw a b c)
        ≡ some (if rd (Factory.addiw a b c) != 0 then OpId.addiw else OpId.addiw_nop)
  unfolding decode_normal decode_op_imm_w match_or_zero
  decode-addiw a b c =
      let f = i_type_fields 27 0 a b c (omega arith) (omega arith) in rw (f.0, f.1, f.2) refl

  pub decode-sw : (a b c : ℕ) → decode_normal arch isa (Factory.sw a b c) ≡ some OpId.sw
  unfolding decode_normal decode_store match_or_zero
  decode-sw a b c =
      let f = s_type_fields 35 2 a b c (omega arith) (omega arith) in
      rw (f.0, f.1, f.2) (ground arith)

  pub decode-sd : (a b c : ℕ) → decode_normal arch isa (Factory.sd a b c) ≡ some OpId.sd
  unfolding decode_normal decode_store match_or_zero
  decode-sd a b c =
      let f = s_type_fields 35 3 a b c (omega arith) (omega arith) in
      rw (f.0, f.1, f.2) (ground arith)

  pub decode-fsw :
      (a b c : ℕ)
      → (bit_and isa misa_f == 0) ≡ false
      → decode_normal arch isa (Factory.fsw a b c) ≡ some OpId.fsw
  unfolding decode_normal decode_fp_store match_or_zero
  decode-fsw a b c h =
      let f = s_type_fields 39 2 a b c (omega arith) (omega arith) in
      rw (f.0, f.1, f.2, h) (ground arith)

  pub decode-fsd :
      (a b c : ℕ)
      → (bit_and isa misa_d == 0) ≡ false
      → decode_normal arch isa (Factory.fsd a b c) ≡ some OpId.fsd
  unfolding decode_normal decode_fp_store match_or_zero
  decode-fsd a b c h =
      let f = s_type_fields 39 3 a b c (omega arith) (omega arith) in
      rw (f.0, f.1, f.2, h) (ground arith)

  pub decode-beq : (a b c : ℕ) → decode_normal arch isa (Factory.beq a b c) ≡ some OpId.beq
  unfolding decode_normal decode_branch match_or_zero
  decode-beq a b c =
      let f = b_type_fields 0 a b c (omega arith) in rw (f.0, f.1, f.2) (ground arith)

  pub decode-bne : (a b c : ℕ) → decode_normal arch isa (Factory.bne a b c) ≡ some OpId.bne
  unfolding decode_normal decode_branch match_or_zero
  decode-bne a b c =
      let f = b_type_fields 1 a b c (omega arith) in rw (f.0, f.1, f.2) (ground arith)

  pub decode-lui :
      (a b : ℕ)
      → decode_normal arch isa (Factory.lui a b)
        ≡ some (if rd (Factory.lui a b) != 0 then OpId.lui else OpId.lui_nop)
  unfolding decode_normal match_or_zero
  decode-lui a b = let f = lui_fields a b in rw (f.0, f.1) refl

  pub decode-jal :
      (a b : ℕ)
      → decode_normal arch isa (Factory.jal a b) ≡ some (if a % 32 != 0 then OpId.jal else OpId.j)
  unfolding decode_normal match_or_zero
  decode-jal a b = let f = jal_fields a b in rw (f.0, f.1, f.2) refl

  pub decode-jalr :
      (a b c : ℕ)
      → decode_normal arch isa (Factory.jalr a b c)
        ≡ some (if a % 32 != 0 then OpId.jalr else OpId.jr)
  unfolding decode_normal match_or_zero
  decode-jalr a b c =
      let f = i_type_fields 103 0 a b c (omega arith) (omega arith) in
      rw (f.0, f.2, rd-i_type 103 0 a b c (omega arith) (omega arith)) refl

  pub decode-ebreak : decode_normal arch isa Factory.ebreak ≡ some OpId.ebreak
  unfolding decode_normal opcode decode_system funct3 decode_privileged funct12 match_or_zero rd
  decode-ebreak = refl

pub decode-slli_32 :
    (isa a b c : ℕ)
    → c < 32
    → decode_normal rv32 isa (Factory.slli a b c)
      ≡ some (if rd (Factory.slli a b c) != 0 then OpId.slli else OpId.slli_nop)
unfolding decode_normal decode_op_imm match_or_zero
decode-slli_32 isa a b c h =
    let f = shift_type_fields 1 0 a b c (omega arith) (omega arith) in
    rw (f.0, f.1, shift_type_mask_32 1 0 a b c (omega arith) (omega arith) h) refl

pub decode-slli_64 :
    (isa a b c : ℕ)
    → decode_normal rv64 isa (Factory.slli a b c)
      ≡ some (if rd (Factory.slli a b c) != 0 then OpId.slli else OpId.slli_nop)
unfolding decode_normal decode_op_imm match_or_zero
decode-slli_64 isa a b c =
    let f = shift_type_fields 1 0 a b c (omega arith) (omega arith) in rw (f.0, f.1, f.3) refl

pub decode-srli_32 :
    (isa a b c : ℕ)
    → c < 32
    → decode_normal rv32 isa (Factory.srli a b c)
      ≡ some (if rd (Factory.srli a b c) != 0 then OpId.srli else OpId.srli_nop)
unfolding decode_normal decode_op_imm decode_shift_right_imm match_or_zero
decode-srli_32 isa a b c h =
    let f = shift_type_fields 5 0 a b c (omega arith) (omega arith) in
    rw (f.0, f.1, f.2, shift_type_mask_32 5 0 a b c (omega arith) (omega arith) h) refl

pub decode-srli_64 :
    (isa a b c : ℕ)
    → decode_normal rv64 isa (Factory.srli a b c)
      ≡ some (if rd (Factory.srli a b c) != 0 then OpId.srli else OpId.srli_nop)
unfolding decode_normal decode_op_imm decode_shift_right_imm match_or_zero
decode-srli_64 isa a b c =
    let f = shift_type_fields 5 0 a b c (omega arith) (omega arith) in rw (f.0, f.1, f.2, f.3) refl

pub decode-srai_32 :
    (isa a b c : ℕ)
    → c < 32
    → decode_normal rv32 isa (Factory.srai a b c)
      ≡ some (if rd (Factory.srai a b c) != 0 then OpId.srai else OpId.srai_nop)
unfolding decode_normal decode_op_imm decode_shift_right_imm match_or_zero
decode-srai_32 isa a b c h =
    let f = shift_type_fields 5 16 a b c (omega arith) (omega arith) in
    rw (f.0, f.1, f.2, shift_type_mask_32 5 16 a b c (omega arith) (omega arith) h) refl

pub decode-srai_64 :
    (isa a b c : ℕ)
    → decode_normal rv64 isa (Factory.srai a b c)
      ≡ some (if rd (Factory.srai a b c) != 0 then OpId.srai else OpId.srai_nop)
unfolding decode_normal decode_op_imm decode_shift_right_imm match_or_zero
decode-srai_64 isa a b c =
    let f = shift_type_fields 5 16 a b c (omega arith) (omega arith) in rw (f.0, f.1, f.2, f.3) refl
