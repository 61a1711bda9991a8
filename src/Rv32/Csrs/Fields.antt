-- ===== src/Rv32/Csrs/Fields.antt =====
-- The fields of mstatus that a trap and the return from it work on.
use riscv_vp_plusplus.Base.{ℕ, ◌≡◌, ◌%◌, arith}
use riscv_vp_plusplus.Rv32.Csrs.{get_field, set_field}

pub get_field-mpp : (p s : ℕ) → get_field 11 2 (set_field 11 2 p s) ≡ p % 4
get_field-mpp p s = omega arith

pub mie-set_mpp : (p s : ℕ) → get_field 3 1 (set_field 11 2 p s) ≡ get_field 3 1 s
mie-set_mpp p s = omega arith

pub mpie-set_mpp : (p s : ℕ) → get_field 7 1 (set_field 11 2 p s) ≡ get_field 7 1 s
mpie-set_mpp p s = omega arith

pub mie-set_mpie : (p s : ℕ) → get_field 3 1 (set_field 7 1 p s) ≡ get_field 3 1 s
mie-set_mpie p s = omega arith

pub mpie-set_mie : (p s : ℕ) → get_field 7 1 (set_field 3 1 p s) ≡ get_field 7 1 s
mpie-set_mie p s = omega arith

pub get_field-mie : (p s : ℕ) → get_field 3 1 (set_field 3 1 p s) ≡ p % 2
get_field-mie p s = omega arith

pub get_field-mpie : (p s : ℕ) → get_field 7 1 (set_field 7 1 p s) ≡ p % 2
get_field-mpie p s = omega arith

-- The trap moves MIE to MPIE, and the return moves it back.
pub mie_restored :
    (s p q : ℕ) (t : ℕ)
    → t ≡ set_field 11 2 p (set_field 3 1 0 (set_field 7 1 (get_field 3 1 s) s))
    → get_field 3 1 (set_field 11 2 q (set_field 7 1 1 (set_field 3 1 (get_field 7 1 t) t)))
      ≡ get_field 3 1 s
mie_restored s p q t e =
    rw
      (
        mie-set_mpp q (set_field 7 1 1 (set_field 3 1 (get_field 7 1 t) t)),
        mie-set_mpie 1 (set_field 3 1 (get_field 7 1 t) t),
        get_field-mie (get_field 7 1 t) t,
        e,
        mpie-set_mpp p (set_field 3 1 0 (set_field 7 1 (get_field 3 1 s) s)),
        mpie-set_mie 0 (set_field 7 1 (get_field 3 1 s) s),
        get_field-mpie (get_field 3 1 s) s,
      )
      (omega arith)
