-- ===== src/Examples.antt =====
-- Concrete harts, CSR tables and port maps, and the theorems at them.
pub mod Decoding
pub mod Traps
pub mod Execution
pub mod Interconnect
pub mod Translation
pub mod Controllers
pub mod Memory
pub mod Machine
pub mod Clints
use riscv_vp_plusplus.Base.{ℕ, ◌+◌, ◌*◌, ◌^◌, false, true, List, [], ◌∷◌}
use riscv_vp_plusplus.Bus.{BusLock, PortMapping}
use riscv_vp_plusplus.Rv32.Csrs.{Csrs}
use riscv_vp_plusplus.Rv32.State.{Core, SimulationTrap}
use riscv_vp_plusplus.Rv32.Exec.{Hart}

abbrev zero_csrs : Csrs
zero_csrs = record {
  cycle = 0;
  time = 0;
  instret = 0;
  mvendorid = 0;
  marchid = 0;
  mimpid = 0;
  mhartid = 0;
  mstatus = 0;
  mstatush = 0;
  misa = 0;
  medeleg = 0;
  mideleg = 0;
  mie = 0;
  mtvec = 0;
  mcounteren = 0;
  mcountinhibit = 0;
  mscratch = 0;
  mepc = 0;
  mcause = 0;
  mtval = 0;
  mip = 0;
  sedeleg = 0;
  sideleg = 0;
  stvec = 0;
  scounteren = 0;
  sscratch = 0;
  sepc = 0;
  scause = 0;
  stval = 0;
  satp = 0;
  utvec = 0;
  uscratch = 0;
  uepc = 0;
  ucause = 0;
  utval = 0;
  fcsr = 0;
  vstart = 0;
  vxsat = 0;
  vxrm = 0;
  vcsr = 0;
  vtype = 0;
  vl = 0;
  vlenb = 0;
  pmpaddr = λ i. 0;
  pmpcfg = λ i. 0;
}

-- A hart in user mode, with page faults delegated to the supervisor and handlers installed. Its
-- machine timer interrupt and its delegated supervisor software interrupt are enabled and pending.
abbrev pub user_core : Core
user_core = record {
  prv = 0;
  pc = 0x1004;
  csrs = record zero_csrs {
    misa = 2 ^ 20 + 2 ^ 18;
    medeleg = 2 ^ 13;
    mideleg = 2;
    mie = 0x82;
    mip = 0x82;
    mtvec = 0x80000000;
    stvec = 0x80200000;
  };
  lr_sc_counter = 5;
  bus_lock = record { locked = true; owner = 0 };
  iss_slow_path = false;
  error_on_zero_traphandler = false;
}

-- The same with no interrupt pending.
abbrev pub quiet_core : Core
quiet_core = record user_core { prv = 3; csrs = record user_core.csrs { mip = 0x80 } }

-- In machine mode with MIE clear, and the external interrupt of machine mode enabled.
abbrev pub blocked_core : Core
blocked_core = record quiet_core { csrs = record quiet_core.csrs { mie = 0x800 } }

abbrev pub page_fault : SimulationTrap
page_fault = record { reason = 13; mtval = 0x2000 }

abbrev pub hart : Hart
hart = record { regs = λ i. 0; pc = 0x1004; last_pc = 0x1000 }

abbrev pub ports : List PortMapping
ports = record { start = 0; end = 0xFFF } ∷ record { start = 0x1000; end = 0x1FFF } ∷ []
