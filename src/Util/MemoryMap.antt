-- ===== src/Util/MemoryMap.antt =====
-- vp/src/util/memory_map.h: register ranges, the views on their bytes, and the choice of the range that
-- an access goes to. The host is little-endian. A failed `ensure` and a failed `assert` are `none`.
pub mod Laws
use riscv_vp_plusplus.Base.{
  ℕ, zero, suc, ◌+◌, ◌-◌, ◌*◌, ◌/◌, ◌%◌, ◌^◌, Bool, true, false, not, ◌&&◌, ◌==◌, ltb, leb, List,
  [], ◌∷◌, Option, none, some, if◌then◌else◌,
}

-- `RegisterRange`: the bytes of `mem` from 0 up to `size`.
pub record RegisterRange : Type 0 where
  pub start : ℕ
  pub size : ℕ
  pub mem : ℕ → ℕ
  pub readonly : Bool
  pub alignment : ℕ

abbrev pub range_contains : RegisterRange → ℕ → Bool
range_contains r addr = leb r.start addr && leb addr (r.start + r.size - 1)

abbrev pub to_local : RegisterRange → ℕ → ℕ
to_local r addr = addr - r.start

abbrev pub length : List ℕ → ℕ
length [] = 0
length (b ∷ bs) = suc (length bs)

abbrev pub assert_range : RegisterRange → ℕ → ℕ → Bool
assert_range r n local_addr = leb (local_addr + n) r.size

-- `memcpy`, into the range and out of it.
unfoldable pub copy_in : (ℕ → ℕ) → ℕ → List ℕ → ℕ → ℕ
copy_in mem local_addr [] j = mem j
copy_in mem local_addr (b ∷ bs) j = if j == local_addr then b else copy_in mem (suc local_addr) bs j

unfoldable pub copy_out : (ℕ → ℕ) → ℕ → (count : ℕ) → List ℕ
copy_out mem local_addr zero = []
copy_out mem local_addr (suc count) = mem local_addr ∷ copy_out mem (suc local_addr) count

-- The two commands of a transaction that a range answers: a read of a number of bytes, a write.
pub data Command : Type 0 where
  read_command : ℕ → Command
  write_command : List ℕ → Command

abbrev pub command_len : Command → ℕ
command_len (read_command n) = n
command_len (write_command bs) = length bs

-- A range within a device in the state `D`, with its callbacks, which are given the local address
-- and the length. One that is not set is the callback that changes nothing, and true.
pub record Register (D : Type 0) : Type 0 where
  pub range : D → RegisterRange
  pub with_range : D → RegisterRange → D
  pub pre_write : D → ℕ → ℕ → D × Bool
  pub post_write : D → ℕ → ℕ → D
  pub pre_read : D → ℕ → ℕ → D × Bool
  pub post_read : D → ℕ → ℕ → D

module _ {D : Type 0} (x : Register D) where
  unfoldable pub write_range : D → ℕ → List ℕ → Option (D × List ℕ)
  unfolding copy_in
  write_range d addr src =
      let r = x.range d in
      let local_addr = to_local r addr in
      if not (range_contains r addr && assert_range r (length src) local_addr)
      then none
      else (let (d1, allowed) = x.pre_write d local_addr (length src) in
          if not allowed
          then some (d1, [])
          else (let r1 = x.range d1 in
              let d2 = x.with_range d1 (record r1 { mem = copy_in r1.mem local_addr src }) in
              some (x.post_write d2 local_addr (length src), [])))

  -- A read that its callback refuses leaves the buffer as it was: no bytes.
  unfoldable pub read_range : D → ℕ → ℕ → Option (D × List ℕ)
  unfolding copy_out
  read_range d addr n =
      let r = x.range d in
      let local_addr = to_local r addr in
      if not (range_contains r addr && assert_range r n local_addr)
      then none
      else (let (d1, allowed) = x.pre_read d local_addr n in
          if not allowed
          then some (d1, [])
          else (let bytes = copy_out (x.range d1).mem local_addr n in
              some (x.post_read d1 local_addr n, bytes)))

  unfoldable pub process : D → ℕ → Command → Option (D × List ℕ)
  unfolding read_range write_range
  process d addr (read_command n) =
      let r = x.range d in
      if addr % r.alignment == 0 && n % r.alignment == 0 then read_range d addr n else none
  process d addr (write_command src) =
      let r = x.range d in
      if addr % r.alignment == 0 && length src % r.alignment == 0
      then if r.readonly then none else write_range d addr src
      else none

-- `vp::mm::route`.
unfoldable pub route : {D : Type 0} → List (Register D) → D → ℕ → Command → Option (D × List ℕ)
unfolding process
route [] d addr command = none
route (x ∷ xs) d addr command =
    if range_contains (x.range d) addr then process x d addr command else route xs d addr command

-- `IntegerView` and `ArrayView` of 32 and 64 bits.
unfoldable pub read_bytes : (ℕ → ℕ) → ℕ → (count : ℕ) → ℕ
read_bytes mem local_addr zero = 0
read_bytes mem local_addr (suc count) =
    mem local_addr % 2 ^ 8 + 2 ^ 8 * read_bytes mem (suc local_addr) count

unfoldable pub write_bytes : (ℕ → ℕ) → ℕ → (count : ℕ) → ℕ → ℕ → ℕ
write_bytes mem local_addr zero value j = mem j
write_bytes mem local_addr (suc count) value j =
    if j == local_addr
    then value % 2 ^ 8
    else write_bytes mem (suc local_addr) count (value / 2 ^ 8) j

abbrev pub view_64 : RegisterRange → ℕ → ℕ
unfolding read_bytes
view_64 r idx = read_bytes r.mem (idx * 8) 8

abbrev pub set_view_64 : RegisterRange → ℕ → ℕ → RegisterRange
unfolding write_bytes
set_view_64 r idx value = record r { mem = write_bytes r.mem (idx * 8) 8 value }

abbrev pub view_32 : RegisterRange → ℕ → ℕ
unfolding read_bytes
view_32 r idx = read_bytes r.mem (idx * 4) 4

abbrev pub set_view_32 : RegisterRange → ℕ → ℕ → RegisterRange
unfolding write_bytes
set_view_32 r idx value = record r { mem = write_bytes r.mem (idx * 4) 4 value }
