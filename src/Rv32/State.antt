-- ===== src/Rv32/State.antt =====
-- vp/src/core/rv32/iss_ctemplate.h: the part of `class ISS_CT` that traps and interrupts work on,
-- the trap that the ISS throws, and the result of a method that may throw something else.
use riscv_vp_plusplus.Base.{ℕ, ◌-◌, ◌^◌, Bool, ◌!=◌, bit_and, ◌≡◌, ◌⊎◌, inl, inr, refl}
use riscv_vp_plusplus.Bus.{BusLock, unlock}
use riscv_vp_plusplus.Instr.Isa.{misa_c, misa_s, misa_u}
use riscv_vp_plusplus.Rv32.Csrs.{Csrs, get_field}

-- core/common/irq_if.h.
abbrev pub machine_mode : ℕ
machine_mode = 0b11

abbrev pub supervisor_mode : ℕ
supervisor_mode = 0b01

abbrev pub user_mode : ℕ
user_mode = 0b00

abbrev pub none_mode : ℕ
none_mode = 2 ^ 32 - 1

-- core/common/trap.h: `reason` is the exception code.
pub record SimulationTrap : Type 0 where
  pub reason : ℕ
  pub mtval : ℕ

-- `error` is an exception that is no SimulationTrap: the simulation ends.
pub data Result {ℓ} (A : Type ℓ) : Type ℓ where
  ok : A → Result A
  error : Result A

pub record Core : Type 0 where
  pub prv : ℕ
  pub pc : ℕ
  pub csrs : Csrs
  pub lr_sc_counter : ℕ
  pub bus_lock : BusLock
  pub iss_slow_path : Bool
  pub error_on_zero_traphandler : Bool

abbrev pub bit_not : ℕ → ℕ
bit_not x = 2 ^ 32 - 1 - x

-- `csr_misa_32`: the extensions are its 26 low bits.
abbrev pub has_extension : ℕ → Core → Bool
has_extension ext c = bit_and (get_field 0 26 c.csrs.misa) ext != 0

abbrev pub has_user_mode_extension : Core → Bool
has_user_mode_extension = has_extension misa_u

abbrev pub has_supervisor_mode_extension : Core → Bool
has_supervisor_mode_extension = has_extension misa_s

abbrev pub has_c_extension : Core → Bool
has_c_extension = has_extension misa_c

-- `release_lr_sc_reservation`, with `atomic_unlock` of core/common/mem.h.
unfoldable pub release_lr_sc_reservation : Core → Core
unfolding unlock
release_lr_sc_reservation c = record c {
  lr_sc_counter = 0;
  bus_lock = unlock c.bus_lock c.csrs.mhartid;
}

pub Result-cases {ℓ} : {A : Type ℓ} (r : Result A) → (r ≡ error) ⊎ ((a : A) × (r ≡ ok a))
Result-cases (ok a) = inr (a, refl)
Result-cases error = inl refl

pub ok_inj {ℓ} : {A : Type ℓ} {a b : A} → ok a ≡ ok b → a ≡ b
ok_inj e = cc
