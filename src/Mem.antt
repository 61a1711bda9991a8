-- ===== src/Mem.antt =====
-- vp/src/core/common/mem.h: `CombinedMemoryInterface_T`, the data and instruction memory of a hart: it
-- translates an address with the MMU, waits for the bus lock, and sends the access to the bus. The
-- direct memory interface reaches the same memory as the bus.
pub mod Lock
pub mod Hold
pub mod Release
use riscv_vp_plusplus.Base.{
  ℕ, ◌+◌, ◌*◌, ◌/◌, ◌%◌, ◌^◌, bit_and, bit_or, Bool, true, false, not, ◌&&◌, ◌==◌, Option, none,
  some, if◌then◌else◌, sign_extend, u32,
}
use riscv_vp_plusplus.Bus.{BusLock, lock, unlock, is_locked}
use riscv_vp_plusplus.Mmu.{
  Access, done, raised, stop, MmuMemory, MmuCore, MemoryAccessType, fetch, load, store,
}
use riscv_vp_plusplus.Mmu.Tlb.{TlbState, flush_tlb, translate_virtual_to_physical_addr}
use riscv_vp_plusplus.Rv32.Exec.Memory.{DataMemory}

-- The memory behind the bus: reads and writes of a number of bytes; `none` is an error response.
pub record TargetMemory (B : Type 0) : Type 0 where
  pub read : ℕ → B → ℕ → Option (B × ℕ)
  pub write : ℕ → B → ℕ → ℕ → Option B

pub record BusState (B : Type 0) : Type 0 where
  pub target : B
  pub bus_lock : BusLock
  pub lr_addr : ℕ

-- What the interface of one hart is made with: `mmu` is false for a null pointer. The language leaves
-- the order of the operands of `|` to the compiler: `upper_half_first` is its choice in `load_instr`.
pub record Interface (B : Type 0) : Type 0 where
  pub memory : TargetMemory B
  pub hart_id : ℕ
  pub mmu : Bool
  pub core : MmuCore
  pub upper_half_first : Bool

abbrev pub MemState : Type 0 → Type 0
MemState B = TlbState (BusState B)

abbrev pub bind : {S A C : Type 0} → Access S A → (S → A → Access S C) → Access S C
bind r f = elim r [ done s a ↦ f s a | raised s e ↦ raised s e | stop ↦ stop ]

-- An access that does not touch the TLB.
abbrev pub with_tlb : {S A : Type 0} → TlbState S → Access S A → Access (TlbState S) A
with_tlb s r = elim r [
  | done m a ↦ done (record { memory = m; tlb = s.tlb }) a
  | raised m e ↦ raised (record { memory = m; tlb = s.tlb }) e
  | stop ↦ stop
]

-- `wait_for_access_rights` returns at once.
abbrev pub has_access_rights : BusLock → ℕ → Bool
has_access_rights b hart_id = not (b.locked && not (hart_id == b.owner))

module _ {B : Type 0} (iface : Interface B) where
  abbrev pub atomic_unlock : BusState B → BusState B
  atomic_unlock s = record s { bus_lock = unlock s.bus_lock iface.hart_id }

  unfoldable pub raw_load_data : ℕ → BusState B → ℕ → Access (BusState B) ℕ
  raw_load_data bytes s addr =
      if has_access_rights s.bus_lock iface.hart_id
      then elim (iface.memory.read bytes s.target addr) [
        | none ↦ raised s (record { reason = 13; mtval = addr })
        | some (target, value) ↦ done (record s { target = target }) value
      ]
      else stop

  unfoldable pub raw_store_data : ℕ → BusState B → ℕ → ℕ → Access (BusState B) ℕ
  unfolding unlock
  raw_store_data bytes s addr value =
      if has_access_rights s.bus_lock iface.hart_id
      then elim (iface.memory.write bytes s.target addr value) [
        | none ↦ raised s (record { reason = 15; mtval = addr })
        | some target ↦ done (atomic_unlock (record s { target = target })) 0
      ]
      else stop

  unfoldable pub mmu_memory : MmuMemory (BusState B)
  unfolding raw_load_data raw_store_data
  mmu_memory = record {
    mmu_load_pte64 = raw_load_data 8;
    mmu_load_pte32 = raw_load_data 4;
    mmu_store_pte32 = raw_store_data 4;
  }

  unfoldable pub v2p : MemState B → ℕ → MemoryAccessType → Access (MemState B) ℕ
  unfolding mmu_memory translate_virtual_to_physical_addr
  v2p s vaddr type =
      if iface.mmu
      then translate_virtual_to_physical_addr mmu_memory iface.core vaddr type s
      else done s vaddr

  unfoldable pub load_data : ℕ → MemState B → ℕ → Access (MemState B) ℕ
  unfolding v2p raw_load_data
  load_data bytes s addr =
      bind (v2p s addr load) (λ s' paddr. with_tlb s' (raw_load_data bytes s'.memory paddr))

  unfoldable pub store_data : ℕ → MemState B → ℕ → ℕ → Access (MemState B) ℕ
  unfolding v2p raw_store_data
  store_data bytes s addr value =
      bind (v2p s addr store) (λ s' paddr. with_tlb s' (raw_store_data bytes s'.memory paddr value))

  -- A fetch that crosses a page reads its halfwords one by one.
  unfoldable pub load_instr : MemState B → ℕ → Access (MemState B) ℕ
  unfolding v2p raw_load_data
  load_instr s addr =
      let fetch_data = λ (bytes : ℕ) (t : MemState B) (a : ℕ).
        bind (v2p t a fetch) (λ s' paddr. with_tlb s' (raw_load_data bytes s'.memory paddr)) in
      if bit_and addr 0xFFF == 0xFFE
      then if iface.upper_half_first
        then bind (fetch_data 2 s (addr + 2)) (λ s1 high.
          bind (fetch_data 2 s1 addr) (λ s2 low. done s2 (bit_or (u32 (high * 2 ^ 16)) low)))
        else bind (fetch_data 2 s addr) (λ s1 low.
          bind (fetch_data 2 s1 (addr + 2)) (λ s2 high. done s2 (bit_or (u32 (high * 2 ^ 16)) low)))
      else fetch_data 4 s addr

  -- `bus_lock->lock`, which waits while another hart has it.
  abbrev pub locked : MemState B → Option (MemState B)
  unfolding lock
  locked s = elim (lock s.memory.bus_lock iface.hart_id) [
    | none ↦ none
    | some b ↦ some (record s { memory = record s.memory { bus_lock = b } })
  ]

  unfoldable pub atomic_load_data : ℕ → MemState B → ℕ → Access (MemState B) ℕ
  unfolding lock load_data
  atomic_load_data bytes s addr = elim (locked s) [
    | none ↦ stop
    | some s' ↦ load_data bytes s' addr
  ]

  -- The warning about a bus that is not locked has no effect.
  unfoldable pub atomic_store_data : ℕ → MemState B → ℕ → ℕ → Access (MemState B) ℕ
  unfolding store_data
  atomic_store_data bytes s addr value = store_data bytes s addr value

  unfoldable pub atomic_load_reserved_data : ℕ → MemState B → ℕ → Access (MemState B) ℕ
  unfolding lock load_data
  atomic_load_reserved_data bytes s addr = elim (locked s) [
    | none ↦ stop
    | some s' ↦ load_data bytes (record s' { memory = record s'.memory { lr_addr = addr } }) addr
  ]

  unfoldable pub atomic_store_conditional_data : ℕ → MemState B → ℕ → ℕ → Access (MemState B) Bool
  unfolding store_data is_locked unlock
  atomic_store_conditional_data bytes s addr value =
      if is_locked s.memory.bus_lock iface.hart_id
      then if addr == s.memory.lr_addr
        then bind (store_data bytes s addr value) (λ s' _. done s' true)
        else done (record s { memory = atomic_unlock s.memory }) false
      else done s false

  -- `data_memory_if_T`.
  unfoldable pub data_memory : DataMemory (MemState B)
  unfolding load_data store_data atomic_load_data atomic_store_data atomic_load_reserved_data
      atomic_store_conditional_data
  data_memory = record {
    load_byte = λ s addr. bind (load_data 1 s addr) (λ s' v. done s' (sign_extend 8 v));
    load_half = λ s addr. bind (load_data 2 s addr) (λ s' v. done s' (sign_extend 16 v));
    load_word = load_data 4;
    load_ubyte = load_data 1;
    load_uhalf = load_data 2;
    store_byte = store_data 1;
    store_half = store_data 2;
    store_word = store_data 4;
    atomic_load_word = atomic_load_data 4;
    atomic_store_word = atomic_store_data 4;
    atomic_load_reserved_word = atomic_load_reserved_data 4;
    atomic_store_conditional_word = atomic_store_conditional_data 4;
  }
