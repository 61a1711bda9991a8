-- ===== src/Instr/Agree/Expand.antt =====
-- Each expansion agrees with the normal decoder.
use riscv_vp_plusplus.Base.{
  ℕ, Bool, true, false, Option, none, some, ◌≡◌, ◌≢◌, ◌⊎◌, inl, inr, refl, ◌∙◌, arith, Bool-cases,
  some_inj, ◌==◌, ◌<◌, ltb, bit_and, if◌then◌else◌,
}
use mathlib.Core.Path.{subst}
use mathlib.Core.Option
use riscv_vp_plusplus.Instr.OpId.{OpId}
use riscv_vp_plusplus.Instr.Isa.{Architecture, rv32, rv64, misa_c, misa_d, misa_f}
use riscv_vp_plusplus.Instr.Fields.{rd, c_rd_small, c_rs2_small, c_rs2, c_imm, c_uimm}
use riscv_vp_plusplus.Instr.Factory.Fields.{rd-r_type}
use riscv_vp_plusplus.Instr.Decode.{decode_normal}
use riscv_vp_plusplus.Instr.Compressed.{
  COpId, c_addi4spn_nzuimm, c_lw_uimm, c_ld_uimm, c_sw_uimm, c_sd_uimm, c_jal_imm, c_addi16sp_nzimm,
  c_lui_nzimm, c_j_imm, c_branch_imm, c_lwsp_uimm, c_swsp_uimm, c_ldsp_uimm, c_sdsp_uimm,
  decode_compressed,
}
use riscv_vp_plusplus.Instr.Compressed.Expand.{
  Expanded, expanded, require_expanded, expand_compressed, decode_and_expand_compressed,
}
use riscv_vp_plusplus.Instr.Agree.Words

-- A rejected instruction, or one whose word decodes to its operation.
abbrev pub Agrees : Architecture → ℕ → Expanded → Type 0
Agrees arch isa r =
    ((r.op ≡ OpId.undef) ⊎ (r.op ≡ OpId.unsup)) ⊎ (decode_normal arch isa r.word ≡ some r.op)

Agrees-require :
    (arch : Architecture) (isa ext instr : ℕ) (r : Expanded)
    → ((bit_and isa ext == 0) ≡ false → Agrees arch isa r)
    → Agrees arch isa (require_expanded isa ext instr r)
Agrees-require arch isa ext instr r h = elim (Bool-cases (bit_and isa ext == 0)) [
  | inl e ↦ rw e (inl (inr refl))
  | inr e ↦ rw e (h e)
]

Agrees-unless :
    (arch : Architecture) (isa instr : ℕ) (b : Bool) (r : Expanded)
    → (b ≡ false → Agrees arch isa r)
    → Agrees arch isa (if b then expanded instr OpId.undef else r)
Agrees-unless arch isa instr true r h = inl (inl refl)
Agrees-unless arch isa instr false r h = h refl

Agrees-shift :
    (isa instr n : ℕ) (r : Expanded)
    → (n < 32 → Agrees rv32 isa r)
    → Agrees rv32 isa (if ltb 31 n then expanded instr OpId.undef else r)
Agrees-shift isa instr n r h = Agrees-unless rv32 isa instr (ltb 31 n) r (λ e. h (ground arith))

expand_compressed-Agrees :
    (arch : Architecture) (isa instr : ℕ) (c : COpId)
    → Agrees arch isa (expand_compressed arch isa instr c)
unfolding expand_compressed
expand_compressed-Agrees arch isa instr COpId.illegal = inl (inl refl)
expand_compressed-Agrees arch isa instr COpId.lq = inl (inl refl)
expand_compressed-Agrees arch isa instr COpId.lqsp = inl (inl refl)
expand_compressed-Agrees arch isa instr COpId.sq = inl (inl refl)
expand_compressed-Agrees arch isa instr COpId.sqsp = inl (inl refl)
expand_compressed-Agrees arch isa instr COpId.reserved = inl (inl refl)
expand_compressed-Agrees arch isa instr COpId.nop = inr (
    Words.decode-add arch isa 0 0 0
    ∙ rw (rd-r_type 51 0 0 0 0 0 (omega arith) (omega arith) (omega arith)) refl)
expand_compressed-Agrees arch isa instr COpId.add =
    inr (Words.decode-add arch isa (rd instr) (rd instr) (c_rs2 instr))
expand_compressed-Agrees arch isa instr COpId.mv =
    inr (Words.decode-add arch isa (rd instr) 0 (c_rs2 instr))
expand_compressed-Agrees arch isa instr COpId.and =
    inr (Words.decode-and arch isa (c_rd_small instr) (c_rd_small instr) (c_rs2_small instr))
expand_compressed-Agrees arch isa instr COpId.or =
    inr (Words.decode-or arch isa (c_rd_small instr) (c_rd_small instr) (c_rs2_small instr))
expand_compressed-Agrees arch isa instr COpId.xor =
    inr (Words.decode-xor arch isa (c_rd_small instr) (c_rd_small instr) (c_rs2_small instr))
expand_compressed-Agrees arch isa instr COpId.sub =
    inr (Words.decode-sub arch isa (c_rd_small instr) (c_rd_small instr) (c_rs2_small instr))
expand_compressed-Agrees arch isa instr COpId.addw =
    inr (Words.decode-addw arch isa (c_rd_small instr) (c_rd_small instr) (c_rs2_small instr))
expand_compressed-Agrees arch isa instr COpId.subw =
    inr (Words.decode-subw arch isa (c_rd_small instr) (c_rd_small instr) (c_rs2_small instr))
expand_compressed-Agrees arch isa instr COpId.lw =
    inr (Words.decode-lw arch isa (c_rs2_small instr) (c_rd_small instr) (c_lw_uimm instr))
expand_compressed-Agrees arch isa instr COpId.ld =
    inr (Words.decode-ld arch isa (c_rs2_small instr) (c_rd_small instr) (c_ld_uimm instr))
expand_compressed-Agrees arch isa instr COpId.flw = Agrees-require arch isa misa_f instr _ (λ h.
    inr (Words.decode-flw arch isa (c_rs2_small instr) (c_rd_small instr) (c_lw_uimm instr) h))
expand_compressed-Agrees arch isa instr COpId.fld = Agrees-require arch isa misa_d instr _ (λ h.
    inr (Words.decode-fld arch isa (c_rs2_small instr) (c_rd_small instr) (c_ld_uimm instr) h))
expand_compressed-Agrees arch isa instr COpId.sw =
    inr (Words.decode-sw arch isa (c_rd_small instr) (c_rs2_small instr) (c_sw_uimm instr))
expand_compressed-Agrees arch isa instr COpId.sd =
    inr (Words.decode-sd arch isa (c_rd_small instr) (c_rs2_small instr) (c_sd_uimm instr))
expand_compressed-Agrees arch isa instr COpId.fsw = Agrees-require arch isa misa_f instr _ (λ h.
    inr (Words.decode-fsw arch isa (c_rd_small instr) (c_rs2_small instr) (c_sw_uimm instr) h))
expand_compressed-Agrees arch isa instr COpId.fsd = Agrees-require arch isa misa_d instr _ (λ h.
    inr (Words.decode-fsd arch isa (c_rd_small instr) (c_rs2_small instr) (c_sd_uimm instr) h))
expand_compressed-Agrees arch isa instr COpId.addi4spn =
    Agrees-unless arch isa instr (c_addi4spn_nzuimm instr == 0) _
      (λ h. inr (Words.decode-addi arch isa (c_rs2_small instr) 2 (c_addi4spn_nzuimm instr)))
expand_compressed-Agrees arch isa instr COpId.addi =
    inr (Words.decode-addi arch isa (rd instr) (rd instr) (c_imm instr))
expand_compressed-Agrees arch isa instr COpId.jal =
    inr (Words.decode-jal arch isa 1 (c_jal_imm instr))
expand_compressed-Agrees arch isa instr COpId.addiw =
    Agrees-unless arch isa instr (rd instr == 0) _
      (λ h. inr (Words.decode-addiw arch isa (rd instr) (rd instr) (c_imm instr)))
expand_compressed-Agrees arch isa instr COpId.li =
    inr (Words.decode-addi arch isa (rd instr) 0 (c_imm instr))
expand_compressed-Agrees arch isa instr COpId.addi16sp =
    Agrees-unless arch isa instr (c_addi16sp_nzimm instr == 0) _
      (λ h. inr (Words.decode-addi arch isa 2 2 (c_addi16sp_nzimm instr)))
expand_compressed-Agrees arch isa instr COpId.lui =
    Agrees-unless arch isa instr (c_lui_nzimm instr == 0) _
      (λ h. inr (Words.decode-lui arch isa (rd instr) (c_lui_nzimm instr)))
expand_compressed-Agrees rv32 isa instr COpId.slli =
    Agrees-shift isa instr (c_uimm instr) _
      (λ h. inr (Words.decode-slli_32 isa (rd instr) (rd instr) (c_uimm instr) h))
expand_compressed-Agrees rv64 isa instr COpId.slli =
    inr (Words.decode-slli_64 isa (rd instr) (rd instr) (c_uimm instr))
expand_compressed-Agrees rv32 isa instr COpId.srli =
    Agrees-shift isa instr (c_uimm instr) _
      (λ h. inr (Words.decode-srli_32 isa (c_rd_small instr) (c_rd_small instr) (c_uimm instr) h))
expand_compressed-Agrees rv64 isa instr COpId.srli =
    inr (Words.decode-srli_64 isa (c_rd_small instr) (c_rd_small instr) (c_uimm instr))
expand_compressed-Agrees rv32 isa instr COpId.srai =
    Agrees-shift isa instr (c_uimm instr) _
      (λ h. inr (Words.decode-srai_32 isa (c_rd_small instr) (c_rd_small instr) (c_uimm instr) h))
expand_compressed-Agrees rv64 isa instr COpId.srai =
    inr (Words.decode-srai_64 isa (c_rd_small instr) (c_rd_small instr) (c_uimm instr))
expand_compressed-Agrees arch isa instr COpId.andi =
    inr (Words.decode-andi arch isa (c_rd_small instr) (c_rd_small instr) (c_imm instr))
expand_compressed-Agrees arch isa instr COpId.j = inr (Words.decode-jal arch isa 0 (c_j_imm instr))
expand_compressed-Agrees arch isa instr COpId.beqz =
    inr (Words.decode-beq arch isa (c_rd_small instr) 0 (c_branch_imm instr))
expand_compressed-Agrees arch isa instr COpId.bnez =
    inr (Words.decode-bne arch isa (c_rd_small instr) 0 (c_branch_imm instr))
expand_compressed-Agrees arch isa instr COpId.lwsp =
    Agrees-unless arch isa instr (rd instr == 0) _
      (λ h. inr (Words.decode-lw arch isa (rd instr) 2 (c_lwsp_uimm instr)))
expand_compressed-Agrees arch isa instr COpId.ldsp =
    Agrees-unless arch isa instr (rd instr == 0) _
      (λ h. inr (Words.decode-ld arch isa (rd instr) 2 (c_ldsp_uimm instr)))
expand_compressed-Agrees arch isa instr COpId.flwsp =
    Agrees-require arch isa misa_f instr _
      (λ h. inr (Words.decode-flw arch isa (rd instr) 2 (c_lwsp_uimm instr) h))
expand_compressed-Agrees arch isa instr COpId.fldsp =
    Agrees-require arch isa misa_d instr _
      (λ h. inr (Words.decode-fld arch isa (rd instr) 2 (c_ldsp_uimm instr) h))
expand_compressed-Agrees arch isa instr COpId.swsp =
    inr (Words.decode-sw arch isa 2 (c_rs2 instr) (c_swsp_uimm instr))
expand_compressed-Agrees arch isa instr COpId.sdsp =
    inr (Words.decode-sd arch isa 2 (c_rs2 instr) (c_sdsp_uimm instr))
expand_compressed-Agrees arch isa instr COpId.fswsp =
    Agrees-require arch isa misa_f instr _
      (λ h. inr (Words.decode-fsw arch isa 2 (c_rs2 instr) (c_swsp_uimm instr) h))
expand_compressed-Agrees arch isa instr COpId.fsdsp =
    Agrees-require arch isa misa_d instr _
      (λ h. inr (Words.decode-fsd arch isa 2 (c_rs2 instr) (c_sdsp_uimm instr) h))
expand_compressed-Agrees arch isa instr COpId.ebreak = inr (Words.decode-ebreak arch isa)
expand_compressed-Agrees arch isa instr COpId.jr =
    Agrees-unless arch isa instr (rd instr == 0) _
      (λ h. inr (Words.decode-jalr arch isa 0 (rd instr) 0))
expand_compressed-Agrees arch isa instr COpId.jalr = inr (Words.decode-jalr arch isa 1 (rd instr) 0)

accepted :
    (arch : Architecture) (isa : ℕ) (r : Expanded)
    → Agrees arch isa r
    → r.op ≢ OpId.undef
    → r.op ≢ OpId.unsup
    → decode_normal arch isa r.word ≡ some r.op
accepted arch isa r (inl (inl e)) h1 h2 = absurd (h1 e)
accepted arch isa r (inl (inr e)) h1 h2 = absurd (h2 e)
accepted arch isa r (inr e) h1 h2 = e

map-some :
    (arch : Architecture) (isa instr : ℕ) (o : Option COpId) (r : Expanded)
    → Option.map (expand_compressed arch isa instr) o ≡ some r
    → Agrees arch isa r
map-some arch isa instr none r e = cc
map-some arch isa instr (some c) r e =
    subst (Agrees arch isa) (some_inj e) (expand_compressed-Agrees arch isa instr c)

pub expanded-Agrees :
    (arch : Architecture) (isa instr : ℕ) (r : Expanded)
    → decode_and_expand_compressed arch isa instr ≡ some r
    → Agrees arch isa r
unfolding decode_and_expand_compressed
expanded-Agrees arch isa instr r e = elim (Bool-cases (bit_and isa misa_c == 0)) [
  | inl off ↦
      subst (Agrees arch isa) {x = expanded instr OpId.unsup} (some_inj (rw off at e))
        (inl (inr refl))
  | inr on ↦ map-some arch isa instr (decode_compressed arch instr) r (rw on at e)
]

-- Whenever the decoder of compressed instructions accepts a halfword, on either architecture and
-- under any ISA configuration, the operation that it returns is the one that the normal decoder
-- reads from the 32-bit word that it leaves behind.
pub expand-decode_normal :
    (arch : Architecture) (isa instr : ℕ) (r : Expanded)
    → decode_and_expand_compressed arch isa instr ≡ some r
    → r.op ≢ OpId.undef
    → r.op ≢ OpId.unsup
    → decode_normal arch isa r.word ≡ some r.op
expand-decode_normal arch isa instr r e = accepted arch isa r (expanded-Agrees arch isa instr r e)
