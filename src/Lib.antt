-- ===== src/Lib.antt =====
-- A model of the RISC-V virtual prototype's 32-bit core, its MMU, bus and interrupt controllers, and
-- what makes them correct.
--
-- The prototype runs guest programs on an instruction set simulator. A fetched word goes through the
-- decoder (vp/src/core/common/instr.cpp), whose operation selects a case of the executor
-- (vp/src/core/rv32/iss_ctemplate.cpp). Exceptions of a case, and interrupts between two of them, go
-- to the trap handling of the same file, which works on the CSRs (vp/src/core/rv32/csr.h). Loads and
-- stores go over the bus (vp/src/platform/common/bus.h) to the devices.
--
-- Base holds the numbers, tests, lists and the laws of the bitwise operations that all parts share.
-- Util is the macros of vp/src/util/common.h and the register ranges of Util/MemoryMap below.
-- Bus is vp/src/platform/common/bus.h: `decode`, `transport` and `BusLock`.
-- Instr/Fields is `struct Instruction` of vp/src/core/common/instr.h, and Instr/OpId its operations.
-- Instr/Decode is `Instruction::decode_normal`, Instr/Compressed `decode_compressed`,
--   Instr/Compressed/Expand `expand_compressed`, and Instr/Factory `struct InstructionFactory`, all of
--   vp/src/core/common/instr.cpp.
-- Rv32/Csrs is `struct csr_table` with the masks and fields of vp/src/core/rv32/csr.h, and
--   Rv32/Csrs/Access `is_invalid_csr_access`, `get_csr_value` and `set_csr_value`.
-- Rv32/Trap is `prepare_trap`, `compute_pending_interrupts`, `prepare_interrupt`,
--   `switch_to_trap_handler`, `handle_trap`, `handle_interrupt` and `return_from_trap_handler`, on the
--   state that Rv32/State declares; Rv32/Trap/Lines is the raise and clear of the interrupt lines.
-- Rv32/Exec is the integer cases of `exec_steps`, with the register file of
--   vp/src/core/common/regfile.h and the pc of `DBBCacheDummy_T` in vp/src/core/common/dbbcache.h.
-- Rv32/Exec/Memory is the loads, stores, LR/SC and AMOs of `exec_steps`, over `data_memory_if_T`.
-- Rv32/Exec/System is the CSR, environment, fence and privileged cases of `exec_steps`.
-- Rv32/Step is one turn of the loop of `exec_steps`: the slow path, the fetch, the case and the trap
--   handler; Rv32/Step/Environment adds what other parts do between two turns.
-- Mem is `CombinedMemoryInterface_T` of vp/src/core/common/mem.h, which implements that interface with
--   the MMU, the bus lock and the memory behind the bus, and `mmu_memory_if` for the page table walk.
-- Mmu is `MMU_T` of vp/src/core/common/mmu.h: the guards of an entry, `walk` and the TLB in
--   `translate_virtual_to_physical_addr`. Memory is a parameter, the interface `mmu_memory_if`.
-- Plic is `SIFIVE_PLIC` of vp/src/platform/common/sifive_plic.cpp, with the harts whose external
--   interrupt lines `run` raises.
-- Util/MemoryMap is vp/src/util/memory_map.h: register ranges with their callbacks, `route`, the views.
-- Clint is `CLINT` of vp/src/core/common/clint.h on these ranges, and Clint/Lightweight what differs in
--   `LWRT_CLINT` of vp/src/core/common/lwrt_clint.h; both drive the lines of Rv32/Trap/Lines.
-- Fe310 is `FE310_PLIC` of vp/src/platform/common/fe310_plic.h on the same ranges and lines.
-- Examples applies the theorems at concrete instructions, harts, page tables and port maps.
--
-- A 32-bit value is a natural number, and the wrap-around is written out; a signed value is its bit
-- pattern. A method that changes the core takes its state and returns it. An illegal instruction
-- trap of a CSR access is `none`; any other exception that ends the simulation is `error`; a memory
-- or pc trap of an executed case is `trap`. No definition needs fuel: each runs over its arguments,
-- over the list of ports, the levels of the page table or the numbers of the interrupts and harts.
--
-- Not modelled: floating point and vector instructions, whose decoder cases give `none`; system calls
-- that are intercepted, and debug mode; the caches of blocks and of host pages, which are in front of the
-- modelled code; the 64-bit and capability cores; the real-time CLINT and the devices. Statistics,
-- traces and cycle counts have no part in the state. The clocks that the CSRs show are arguments, and
-- the time and the events of SystemC are outside.
pub mod Base
pub mod Util
pub mod Bus
pub mod Instr
pub mod Rv32
pub mod Mmu
pub mod Mem
pub mod Plic
pub mod Clint
pub mod Fe310
pub mod Examples
