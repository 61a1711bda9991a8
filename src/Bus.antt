-- ===== src/Bus.antt =====
-- vp/src/platform/common/bus.h: the address decoder of the bus, and the lock that LR/SC and the
-- atomic instructions take on it.
pub mod Laws
use riscv_vp_plusplus.Base.{
  ℕ, suc, ◌+◌, ◌-◌, Bool, true, false, Option, none, some, List, [], ◌∷◌, ◌==◌, ◌&&◌, leb,
  if◌then◌else◌, get_elem?,
}

-- `struct PortMapping`, without its module.
pub record PortMapping : Type 0 where
  pub start : ℕ
  pub end : ℕ

unfoldable pub contains : PortMapping → ℕ → Bool
contains p addr = leb p.start addr && leb addr p.end

unfoldable pub global_to_local : PortMapping → ℕ → ℕ
global_to_local p addr = addr - p.start

-- `SimpleBus::decode` from port `i` on; `none` is -1.
unfoldable pub decode_from : ℕ → List PortMapping → ℕ → Option ℕ
unfolding contains
decode_from i [] addr = none
decode_from i (p ∷ ports) addr = if contains p addr then some i else decode_from (suc i) ports addr

unfoldable pub decode : List PortMapping → ℕ → Option ℕ
unfolding decode_from
decode ports addr = decode_from 0 ports addr

-- The address that `transport` sends on, with the port; `none` is TLM_ADDRESS_ERROR_RESPONSE.
unfoldable pub transport : List PortMapping → ℕ → Option (ℕ × ℕ)
unfolding global_to_local
transport ports addr = elim (decode ports addr) [
  | none ↦ none
  | some id ↦ elim (get_elem? ports id) [ none ↦ none | some p ↦ some (id, global_to_local p addr) ]
]

-- `class BusLock`.
pub record BusLock : Type 0 where
  pub locked : Bool
  pub owner : ℕ

-- `lock`; `none` is the wait of a hart that finds the bus locked by another one.
unfoldable pub lock : BusLock → ℕ → Option BusLock
lock b hart_id =
    if b.locked && (if hart_id == b.owner then false else true)
    then none
    else some (record b { locked = true; owner = hart_id })

unfoldable pub unlock : BusLock → ℕ → BusLock
unlock b hart_id = if b.locked && b.owner == hart_id then record b { locked = false } else b

-- `is_locked(hart_id)`.
unfoldable pub is_locked : BusLock → ℕ → Bool
is_locked b hart_id = b.locked && b.owner == hart_id
