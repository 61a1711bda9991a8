-- ===== src/Rv32/Exec/System/Keeps.antt =====
-- What the system cases keep of the core, for any property of it that their parts keep.
use riscv_vp_plusplus.Base.{
  ℕ, ◌≡◌, ◌≢◌, ◌≤◌, ◌/◌, ◌%◌, ◌^◌, Bool, true, false, some, refl, inl, inr, arith, if-both,
  Bool-cases, Option-cases, ◌!=◌, bit_or, bit_and, if◌then◌else◌,
}
use riscv_vp_plusplus.Instr.OpId.{OpId}
use riscv_vp_plusplus.Instr.Fields.{rs1, rd, csr, zimm}
use riscv_vp_plusplus.Rv32.Csrs.Access.{Clocks, is_invalid_csr_access, get_csr_value, set_csr_value}
use riscv_vp_plusplus.Rv32.Csrs.Access.Laws.{is_invalid_csr_access-allowed}
use riscv_vp_plusplus.Rv32.State.{
  Core, bit_not, user_mode, supervisor_mode, machine_mode, ok, Result-cases,
  release_lr_sc_reservation,
}
use riscv_vp_plusplus.Rv32.Trap.{return_from_trap_handler}
use riscv_vp_plusplus.Rv32.Exec.{write_reg}
use riscv_vp_plusplus.Rv32.Exec.System.{
  SystemHart, SystemConfig, SystemOutcome, completed, tlb_flushed, faulted, waiting, failed,
  outside, commit_instructions, set_csr, return_to, exec_csr_write, exec_csr_modify, exec_ecall,
  exec_ebreak, exec_wfi, exec_sfence_vma, exec_uret, exec_sret, exec_mret, exec_system,
}

-- The address of a CSR that an instruction at privilege `level` may write.
abbrev pub IsWritable : ℕ → ℕ → Type 0
IsWritable level addr = (addr / 2 ^ 8 % 4 ≤ level) × (addr / 2 ^ 10 % 4 ≢ 3)

-- A property of the core that the parts of the system cases keep.
pub record KeptBySystem (level : ℕ) (P : Core → Type 0) : Type 0 where
  pub commits : (c : Core) (v : ℕ) → P c → P (record c { csrs = record c.csrs { instret = v } })
  pub reads :
      (k : Clocks) (c : Core) (addr : ℕ) (r : ℕ × Core)
      → P c
      → get_csr_value k c addr ≡ some r
      → P r.1
  pub writes :
      (c c' : Core) (addr value : ℕ)
      → IsWritable level addr
      → P c
      → set_csr_value c addr value ≡ some c'
      → P c'
  pub releases : (c : Core) → P c → P (release_lr_sc_reservation c)
  pub returns : (c c' : Core) (mode : ℕ) → P c → return_from_trap_handler c mode ≡ ok c' → P c'

-- The hart that a case leaves, where it leaves one, satisfies `P`.
abbrev pub Leaves : (SystemHart → Type 0) → SystemOutcome → Type 0
Leaves P (completed h) = P h
Leaves P (tlb_flushed h) = P h
Leaves P (faulted h e) = P h
Leaves P (waiting h) = P h
Leaves P failed = Unit
Leaves P outside = Unit

-- The address of the instruction stays, and the core has the property.
abbrev pub IsKept : (Core → Type 0) → ℕ → SystemHart → Type 0
IsKept P last_pc h = (h.last_pc ≡ last_pc) × P h.core

module _ (level : ℕ) (P : Core → Type 0) (kept : KeptBySystem level P) (last_pc : ℕ) where
  abbrev Good : SystemHart → Type 0
  Good = IsKept P last_pc

  pub commit_instructions-Good : (h : SystemHart) → Good h → Good (commit_instructions h)
  unfolding commit_instructions
  commit_instructions-Good h (pc, g) = (pc, if-both P _ h.core _ g (kept.commits h.core _ g))

  module _ (clocks : Clocks) (i : ℕ) where
    is_writable :
        (c : Core) (write : Bool)
        → c.prv ≡ level
        → write ≡ true
        → is_invalid_csr_access c (csr i) write ≡ some false
        → IsWritable level (csr i)
    is_writable c write same w e = ground (arith, is_invalid_csr_access-allowed c (csr i) write e)

    set_csr-Leaves :
        (value : ℕ) (h : SystemHart)
        → IsWritable level (csr i)
        → Good h
        → Leaves Good (set_csr clocks i value h)
    set_csr-Leaves value h writable (pc, g) =
        elim (Option-cases (set_csr_value h.core (csr i) value)) [
          | inl e ↦ rw (Leaves, e) (pc, g)
          | inr (c, e) ↦ rw (Leaves, e) (pc, kept.writes h.core c (csr i) value writable g e)
        ]

    exec_csr_write-Leaves :
        (h : SystemHart) (value : ℕ)
        → h.core.prv ≡ level
        → Good h
        → Leaves Good (exec_csr_write clocks i h value)
    unfolding exec_csr_write
    exec_csr_write-Leaves h value prv g =
        elim (Option-cases (is_invalid_csr_access h.core (csr i) true)) [
          | inl e ↦ rw (Leaves, e) g
          | inr (true, e) ↦ rw (Leaves, e) g
          | inr (false, e) ↦
              let writable = is_writable h.core true prv refl e in
              let h1 = commit_instructions h in
              let g1 = commit_instructions-Good h g in
              rw (Leaves, e)
                (if-both (Leaves Good) (rd i != 0) _ _
                  (elim (Option-cases (get_csr_value clocks h1.core (csr i))) [
                    | inl x ↦ rw (Leaves, x) g1
                    | inr ((v, c), x) ↦
                        rw (Leaves, x)
                          (set_csr-Leaves value
                            (record h1 { regs = write_reg (rd i) v h1.regs; core = c }) writable
                            (g1.0, kept.reads clocks h1.core (csr i) (v, c) g1.1 x))
                  ])
                  (set_csr-Leaves value h writable g))
        ]

    exec_csr_modify-Leaves :
        (h : SystemHart) (write : Bool) (operation : ℕ → ℕ)
        → h.core.prv ≡ level
        → Good h
        → Leaves Good (exec_csr_modify clocks i h write operation)
    unfolding exec_csr_modify
    exec_csr_modify-Leaves h write operation prv g =
        elim (Option-cases (is_invalid_csr_access h.core (csr i) write)) [
          | inl e ↦ rw (Leaves, e) g
          | inr (true, e) ↦ rw (Leaves, e) g
          | inr (false, e) ↦
              let h1 = commit_instructions h in
              let g1 = commit_instructions-Good h g in
              rw (Leaves, e)
                (elim (Option-cases (get_csr_value clocks h1.core (csr i))) [
                  | inl x ↦ rw (Leaves, x) g1
                  | inr ((v, c), x) ↦
                      let h2 = record h1 {
                        regs = if rd i != 0 then write_reg (rd i) v h1.regs else h1.regs;
                        core = c;
                      } in
                      let g2 : Good h2 = (g1.0, kept.reads clocks h1.core (csr i) (v, c) g1.1 x) in
                      rw (Leaves, x)
                        (elim (Bool-cases write) [
                          | inl w ↦
                              rw (Leaves, w)
                                (set_csr-Leaves (operation v) h2 (is_writable h.core write prv w e)
                                  g2)
                          | inr w ↦ rw (Leaves, w) g2
                        ])
                ])
        ]

  return_to-Leaves : (mode : ℕ) (h : SystemHart) → Good h → Leaves Good (return_to mode h)
  return_to-Leaves mode h (pc, g) = elim (Result-cases (return_from_trap_handler h.core mode)) [
    | inl e ↦ rw (Leaves, e) tt
    | inr (c, e) ↦ rw (Leaves, e) (pc, kept.returns h.core c mode g e)
  ]

  -- Every system case leaves a core with the property, whatever it ends with.
  pub exec_system-Leaves :
      (cfg : SystemConfig) (i : ℕ) (h : SystemHart) (op : OpId)
      → h.core.prv ≡ level
      → Good h
      → Leaves Good (exec_system cfg i h op)
  unfolding exec_system exec_ecall exec_ebreak exec_wfi exec_sfence_vma exec_uret exec_sret
      exec_mret
  exec_system-Leaves cfg i h op prv g =
      let write = exec_csr_write-Leaves cfg.clocks i h in
      let modify = exec_csr_modify-Leaves cfg.clocks i h in
      ground (
        arith,
        write (h.regs (rs1 i)) prv g,
        write (zimm i) prv g,
        modify (rs1 i != 0) (λ v. bit_or v (h.regs (rs1 i))) prv g,
        modify (rs1 i != 0) (λ v. bit_and v (bit_not (h.regs (rs1 i)))) prv g,
        modify (zimm i != 0) (λ v. bit_or v (zimm i)) prv g,
        modify (zimm i != 0) (λ v. bit_and v (bit_not (zimm i))) prv g,
        return_to-Leaves user_mode h g,
        return_to-Leaves supervisor_mode h g,
        return_to-Leaves machine_mode h g,
        kept.releases h.core g.1,
      )

pub Leaves-core :
    (P : Core → Type 0) (last_pc : ℕ) (r : SystemOutcome)
    → Leaves (IsKept P last_pc) r
    → Leaves (λ h. P h.core) r
Leaves-core P last_pc (completed h) w = w.1
Leaves-core P last_pc (tlb_flushed h) w = w.1
Leaves-core P last_pc (faulted h e) w = w.1
Leaves-core P last_pc (waiting h) w = w.1
Leaves-core P last_pc failed w = w
Leaves-core P last_pc outside w = w
