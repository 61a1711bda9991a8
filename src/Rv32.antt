-- ===== src/Rv32.antt =====
-- vp/src/core/rv32: the RV32 instruction set simulator.
pub mod Csrs
pub mod State
pub mod Trap
pub mod Exec
pub mod Step
