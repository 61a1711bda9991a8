-- ===== src/Instr.antt =====
-- vp/src/core/common/instr.h and instr.cpp: the instruction word, its decoder, and the expansion of
-- compressed instructions.
pub mod OpId
pub mod Isa
pub mod Fields
pub mod Decode
pub mod Factory
pub mod Agree
pub mod Immediates
pub mod Compressed
