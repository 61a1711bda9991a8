-- ===== src/Rv32/Trap/Privilege.antt =====
-- Traps never lower the privilege, and what the handler finds in the registers.
use riscv_vp_plusplus.Base.{ℕ, ◌≡◌, ◌≤◌, ◌⊎◌, arith}
use riscv_vp_plusplus.Rv32.State.{
  Core, ok, SimulationTrap, machine_mode, supervisor_mode, user_mode,
}
use riscv_vp_plusplus.Rv32.Trap.{prepare_trap}

-- A mode of at least the privilege of the hart, and the hart with its pc at `last_pc`.
abbrev pub IsPrepared : Core → ℕ → ℕ × Core → Type 0
IsPrepared c last_pc r =
    ((r.0 ≡ machine_mode) ⊎ ((r.0 ≡ supervisor_mode) ⊎ (r.0 ≡ user_mode)))
    × (c.prv ≤ r.0)
    × (r.1.prv ≡ c.prv)
    × (r.1.pc ≡ last_pc)
    × (r.1.csrs.mstatus ≡ c.csrs.mstatus)

-- Where `prepare_trap` returns for a hart in one of the three modes, the mode that it returns is
-- one of them and at least the hart's; the hart keeps its mode and mstatus, and its pc is that of
-- the trap.
pub prepare_trap-IsPrepared :
    (c : Core) (e : SimulationTrap) (last_pc : ℕ) (r : ℕ × Core)
    → (c.prv ≡ machine_mode) ⊎ ((c.prv ≡ supervisor_mode) ⊎ (c.prv ≡ user_mode))
    → prepare_trap c e last_pc ≡ ok r
    → IsPrepared c last_pc r
unfolding prepare_trap
prepare_trap-IsPrepared c e last_pc r mode h = ground arith
