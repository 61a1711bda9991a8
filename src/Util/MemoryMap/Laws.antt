-- ===== src/Util/MemoryMap/Laws.antt =====
-- Round trips of the register ranges: bytes that are written are read again, and integers too.
use riscv_vp_plusplus.Base.{
  ℕ, zero, suc, ◌+◌, ◌*◌, ◌/◌, ◌%◌, ◌^◌, ◌≡◌, ◌<◌, ◌≤◌, ◌⊎◌, ◌==◌, refl, ap, ◌∙◌, arith, List, [],
  ◌∷◌, true, false, ◌&&◌, ==_ne, some, two_pow_split, two-pow-pos,
}
use riscv_vp_plusplus.Util.MemoryMap.{
  RegisterRange, Register, length, copy_in, copy_out, read_bytes, write_bytes, read_range,
  write_range, process, read_command, write_command, range_contains, to_local, assert_range,
}

copy_in-before : (mem : ℕ → ℕ) (a : ℕ) (bs : List ℕ) (j : ℕ) → j < a → copy_in mem a bs j ≡ mem j
unfolding copy_in
copy_in-before mem a [] j h = refl
copy_in-before mem a (b ∷ bs) j h =
    rw (==_ne j a (omega arith)) (copy_in-before mem (suc a) bs j (omega arith))

-- The byte at the front.
copy_in-here : (mem : ℕ → ℕ) (a b : ℕ) (bs : List ℕ) → copy_in mem a (b ∷ bs) a ≡ b
unfolding copy_in
copy_in-here mem a b bs = ground arith

copy_out-ext :
    (mem mem' : ℕ → ℕ) (a : ℕ) (count : ℕ)
    → ((j : ℕ) → a ≤ j → mem j ≡ mem' j)
    → copy_out mem a count ≡ copy_out mem' a count
unfolding copy_out
copy_out-ext mem mem' a zero h = refl
copy_out-ext mem mem' a (suc count) h =
    rw (h a (omega arith), copy_out-ext mem mem' (suc a) count (λ j le. h j (omega arith))) refl

copy_in-after :
    (mem : ℕ → ℕ) (a b : ℕ) (bs : List ℕ) (j : ℕ)
    → suc a ≤ j
    → copy_in mem a (b ∷ bs) j ≡ copy_in mem (suc a) bs j
unfolding copy_in
copy_in-after mem a b bs j h = rw (==_ne j a (omega arith)) refl

pub copy_out-copy_in :
    (mem : ℕ → ℕ) (a : ℕ) (bs : List ℕ) → copy_out (copy_in mem a bs) a (length bs) ≡ bs
unfolding copy_out
copy_out-copy_in mem a [] = refl
copy_out-copy_in mem a (b ∷ bs) =
    rw
      (
        copy_in-here mem a b bs,
        copy_out-ext (copy_in mem a (b ∷ bs)) (copy_in mem (suc a) bs) (suc a) (length bs)
            (copy_in-after mem a b bs),
        copy_out-copy_in mem (suc a) bs,
      )
      refl

read_bytes-ext :
    (mem mem' : ℕ → ℕ) (a : ℕ) (count : ℕ)
    → ((j : ℕ) → a ≤ j → mem j ≡ mem' j)
    → read_bytes mem a count ≡ read_bytes mem' a count
unfolding read_bytes
read_bytes-ext mem mem' a zero h = refl
read_bytes-ext mem mem' a (suc count) h =
    rw (h a (omega arith), read_bytes-ext mem mem' (suc a) count (λ j le. h j (omega arith))) refl

write_bytes-here :
    (mem : ℕ → ℕ) (a : ℕ) (count value : ℕ) → write_bytes mem a (suc count) value a ≡ value % 2 ^ 8
unfolding write_bytes
write_bytes-here mem a count value = ground arith

write_bytes-after :
    (mem : ℕ → ℕ) (a : ℕ) (count value j : ℕ)
    → suc a ≤ j
    → write_bytes mem a (suc count) value j ≡ write_bytes mem (suc a) count (value / 2 ^ 8) j
unfolding write_bytes
write_bytes-after mem a count value j h = rw (==_ne j a (omega arith)) refl

pub write_bytes-other :
    (mem : ℕ → ℕ) (a : ℕ) (count value j : ℕ)
    → (j < a) ⊎ (a + count ≤ j)
    → write_bytes mem a count value j ≡ mem j
unfolding write_bytes
write_bytes-other mem a zero value j h = refl
write_bytes-other mem a (suc count) value j h =
    rw (==_ne j a (omega arith))
      (write_bytes-other mem (suc a) count (value / 2 ^ 8) j (ground arith))

power_of_bytes : (count : ℕ) → 2 ^ (8 * suc count) ≡ 2 ^ 8 * 2 ^ (8 * count)
power_of_bytes count =
    let sum : 8 * suc count ≡ 8 + 8 * count = omega arith in
    ap (λ (k : ℕ). 2 ^ k) sum ∙ two_pow_split 8 (8 * count)

low_byte : (v p : ℕ) → 1 ≤ p → v % 2 ^ 8 % 2 ^ 8 + 2 ^ 8 * (v / 2 ^ 8 % p) ≡ v % (2 ^ 8 * p)
low_byte v p h = grind arith

-- An integer of `count` bytes that a view stores is read back, modulo its width.
pub read_bytes-write_bytes :
    (mem : ℕ → ℕ) (a : ℕ) (count value : ℕ)
    → read_bytes (write_bytes mem a count value) a count ≡ value % 2 ^ (8 * count)
unfolding read_bytes
read_bytes-write_bytes mem a zero value = ground arith
read_bytes-write_bytes mem a (suc count) value =
    rw
      (
        write_bytes-here mem a count value,
        read_bytes-ext (write_bytes mem a (suc count) value)
            (write_bytes mem (suc a) count (value / 2 ^ 8)) (suc a) count
            (write_bytes-after mem a count value),
        read_bytes-write_bytes mem (suc a) count (value / 2 ^ 8),
        power_of_bytes count,
      )
      (low_byte value (2 ^ (8 * count)) (two-pow-pos (8 * count)))

-- What a range answers with neither callback set to refuse.
module _ {D : Type 0} (x : Register D) where
  -- The callbacks of reads and of writes let every access through and do not touch the bytes.
  abbrev pub IsPlain : Type 0
  IsPlain =
      ((d : D) (a n : ℕ) → x.pre_write d a n ≡ (d, true))
      × ((d : D) (a n : ℕ) → x.pre_read d a n ≡ (d, true))
      × ((d : D) (a n : ℕ) → x.range (x.post_write d a n) ≡ x.range d)
      × ((d : D) (r : RegisterRange) → x.range (x.with_range d r) ≡ r)

  -- For a range that is not read-only and whose callbacks let every access pass and leave its
  -- bytes, a write of bytes within it, aligned in address and length, is accepted, and a read of
  -- as many bytes at the same address then returns these bytes.
  pub process-round_trip :
      (d : D) (addr : ℕ) (bytes : List ℕ)
      → IsPlain
      → (x.range d).readonly ≡ false
      → addr % (x.range d).alignment ≡ 0
      → length bytes % (x.range d).alignment ≡ 0
      → (range_contains (x.range d) addr
          && assert_range (x.range d) (length bytes) (to_local (x.range d) addr))
        ≡ true
      → (d' : D) × (process x d addr (write_command bytes) ≡ some (d', []))
        × (process x d' addr (read_command (length bytes))
            ≡ some (x.post_read d' (to_local (x.range d) addr) (length bytes), bytes))
  unfolding process read_range write_range
  process-round_trip d addr bytes (pw, pr, post, put) ro a l fits =
      let aligned : (addr % (x.range d).alignment == 0 && length bytes % (x.range d).alignment == 0)
          ≡ true =
        ground arith in
      let r = x.range d in
      let local_addr = to_local r addr in
      let r' = record r { mem = copy_in r.mem local_addr bytes } in
      let d' = x.post_write (x.with_range d r') local_addr (length bytes) in
      let same : x.range d' ≡ r' = post (x.with_range d r') local_addr (length bytes) ∙ put d r' in
      let back : copy_out (x.range d').mem local_addr (length bytes) ≡ bytes =
        ap (λ (t : RegisterRange). copy_out t.mem local_addr (length bytes)) same
        ∙ copy_out-copy_in r.mem local_addr bytes in
      (
        d',
        simp (aligned, ro, fits, pw),
        rw (same, aligned, fits, pr)
            (ap (λ (bs : List ℕ). some (x.post_read d' local_addr (length bytes), bs)) back),
      )
