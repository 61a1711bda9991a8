-- ===== src/Instr/Agree.antt =====
pub mod Words
pub mod Expand
