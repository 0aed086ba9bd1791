-- ===== src/Shm/Layout/Access.antt =====
-- crates/shm/src/layout.rs `read_at` and `write_at` on a ring of a power of two, position by
-- position.
use Prim.Native.Nat.{bit_and}
use native.Mathlib.Nat.{mod-lt, one-le-pow}
use mathlib.Core.Path.{fun_ext}
use selium.Base.{
  ℕ, zero, suc, ◌+◌, ◌-◌, ◌%◌, ◌^◌, ◌≤◌, ◌<◌, min, ◌≡◌, refl, sym, ap, ◌∙◌, inl, inr, ◌≢◌, List, [],
  ◌∷◌, ◌++◌, true, false, arith, ltb, leb, nat_beq, length, take, drop, get_or, list_ext,
  length-take, length-drop, length-append, get_or-append_left, get_or-append_right, Bool-cases,
  lt→ltb, le→ltb,
}
use selium.Base.Bits.{bit_and_mask}
use selium.Base.Exec.{Result, ok}
use selium.Memory.Bytes.{Bytes, slice, patch, length-slice, get_or-slice}
use selium.Memory.Backend.{Backend, read, write}
use selium.Shm.Error.{Error, from_backend}
use selium.Shm.Layout.{data_offset}
use selium.Shm.Layout.Cursor.{wrapping_sub}
use selium.Shm.Layout.Data.{add64, read_at, write_at, write_part}
use selium.Shm.Layout.Window.{
  IsRing, offset_of, ring_byte, ring_slice, length-ring_slice, get_or-ring_slice, wrap_low,
  wrap_high, ring_patch,
}

pub read_in_range :
    (b : Backend) (offset len : ℕ)
    → offset + len ≤ b.size
    → b.size < 2 ^ 63
    → from_backend (read offset len) b ≡ (ok (slice b.bytes offset len), b)
unfolding read
read_in_range b offset len h p = ground arith

pub write_in_range :
    (b : Backend) (offset : ℕ) (xs : List ℕ)
    → offset + length xs ≤ b.size
    → b.size < 2 ^ 63
    → from_backend (write offset xs) b ≡ (ok tt, record b { bytes = patch b.bytes offset xs })
unfolding write
write_in_range b offset xs h p = ground arith

pub patch-nil : (bytes : Bytes) (offset : ℕ) → patch bytes offset [] ≡ bytes
patch-nil bytes offset = fun_ext λ i. ground arith

pub write_part_lem :
    (b : Backend) (offset : ℕ) (xs : List ℕ)
    → offset + length xs ≤ b.size
    → b.size < 2 ^ 63
    → write_part offset xs b ≡ (ok tt, record b { bytes = patch b.bytes offset xs })
unfolding write_part
write_part_lem b offset [] h p = λ i. (ok tt, record b { bytes = sym (patch-nil b.bytes offset) i })
write_part_lem b offset (x ∷ xs) h p =
    rw (lt→ltb 0 (suc (length xs)) (omega arith)) (write_in_range b offset (x ∷ xs) h p)

module _ (b : Backend) (capacity k pos : ℕ) (ring : IsRing b capacity k) where
  pub positive : 0 < capacity
  positive = rw (ring.power) (one-le-pow k 2 (omega arith))

  pub mask_mod : bit_and pos (capacity - 1) ≡ pos % capacity
  mask_mod = rw ring.power (bit_and_mask k pos)

  pub below : pos % capacity < capacity
  below = mod-lt pos positive

  pub bounds : (data_offset + capacity ≤ b.size) × (b.size < 2 ^ 63)
  bounds = (ring.room, ring.small)

  -- The sums and differences of `u64` do not wrap.
  pub start_fits : add64 data_offset (pos % capacity) ≡ offset_of capacity pos
  start_fits = omega (arith, below, bounds)

  start_fits' : add64 (pos % capacity) data_offset ≡ offset_of capacity pos
  start_fits' = omega (arith, below, bounds)

  pub end_fits : add64 data_offset capacity ≡ data_offset + capacity
  end_fits = omega (arith, bounds)

  pub tail_fits :
      wrapping_sub (data_offset + capacity) (offset_of capacity pos) ≡ capacity - pos % capacity
  tail_fits = omega (arith, below, bounds)

  -- A write at a position never fails, and changes the bytes of the positions it covers.
  pub write_at_lem :
      (xs : List ℕ)
      → length xs ≤ capacity
      → write_at pos xs (capacity - 1) capacity b
        ≡ (ok tt, record b { bytes = ring_patch b.bytes pos xs capacity })
  unfolding write_at
  write_at_lem xs h =
      let t : ℕ = min (length xs) (capacity - pos % capacity) in
      let mid : Backend = record b { bytes = patch b.bytes (offset_of capacity pos) (take t xs) } in
      rw (mask_mod, start_fits', end_fits, tail_fits, le→ltb capacity (length xs) h)
        (rw
          (write_part_lem b (offset_of capacity pos) (take t xs)
            (omega (arith, below, bounds, length-take t xs)) ring.small)
          (write_part_lem mid data_offset (drop t xs)
            (omega (arith, below, bounds, length-drop t xs)) ring.small))

  slice_low :
      (len : ℕ)
      → pos % capacity + len ≤ capacity
      → slice b.bytes (offset_of capacity pos) len ≡ ring_slice b.bytes capacity pos len
  slice_low len h =
      list_ext _ _ 0
        (length-slice b.bytes (offset_of capacity pos) len
          ∙ sym (length-ring_slice b.bytes capacity pos len))
        λ i p.
          let q : i < len = omega (arith, length-slice b.bytes (offset_of capacity pos) len) in
          let e : (pos + i) % capacity ≡ pos % capacity + i =
            wrap_low pos i capacity (omega arith) in
          let f : offset_of capacity pos + i ≡ data_offset + (pos % capacity + i) = omega arith in
          get_or-slice b.bytes (offset_of capacity pos) len i 0 q
          ∙ ap b.bytes (f ∙ sym (ap (λ j. data_offset + j) e))
          ∙ sym (get_or-ring_slice b.bytes capacity pos len i q)

  slice_wrap :
      (len : ℕ)
      → len ≤ capacity
      → capacity < pos % capacity + len
      → slice b.bytes (offset_of capacity pos) (capacity - pos % capacity)
          ++ slice b.bytes data_offset (len - (capacity - pos % capacity))
        ≡ ring_slice b.bytes capacity pos len
  slice_wrap len fits h =
      list_ext _ _ 0 (lengths ∙ sym (length-ring_slice b.bytes capacity pos len)) at
    where
      u : ℕ
      u = capacity - pos % capacity

      front : List ℕ
      front = slice b.bytes (offset_of capacity pos) u

      back : List ℕ
      back = slice b.bytes data_offset (len - u)

      front_length : length front ≡ u
      front_length = length-slice b.bytes (offset_of capacity pos) u

      lengths : length (front ++ back) ≡ len
      lengths = omega (
        arith,
        below,
        length-append front back,
        front_length,
        length-slice b.bytes data_offset (len - u),
      )

      entry : (i : ℕ) → i < len → get_or (front ++ back) i 0 ≡ ring_byte b.bytes capacity (pos + i)
      entry i q = elim (Bool-cases (ltb (pos % capacity + i) capacity)) [
        | inl p ↦
            let low : pos % capacity + i < capacity = ground arith in
            let e : (pos + i) % capacity ≡ pos % capacity + i = wrap_low pos i capacity low in
            let f : offset_of capacity pos + i ≡ data_offset + (pos % capacity + i) = omega arith in
            get_or-append_left front back i 0 (omega (arith, front_length))
            ∙ get_or-slice b.bytes (offset_of capacity pos) u i 0 (omega arith)
            ∙ ap b.bytes (f ∙ sym (ap (λ j. data_offset + j) e))
        | inr p ↦
            let high : capacity ≤ pos % capacity + i = ground arith in
            let e : (pos + i) % capacity ≡ pos % capacity + i - capacity =
              wrap_high pos i capacity positive (omega arith) high in
            let f : i ≡ length front + (i - u) = omega (arith, front_length, below) in
            let g : data_offset + (i - u) ≡ data_offset + (pos % capacity + i - capacity) =
              omega (arith, below) in
            ap (λ j. get_or (front ++ back) j 0) f
            ∙ get_or-append_right front back (i - u) 0
            ∙ get_or-slice b.bytes data_offset (len - u) (i - u) 0 (omega (arith, below))
            ∙ ap b.bytes (g ∙ sym (ap (λ j. data_offset + j) e))
      ]

      at :
          (i : ℕ)
          → i < length (front ++ back)
          → get_or (front ++ back) i 0 ≡ get_or (ring_slice b.bytes capacity pos len) i 0
      at i q =
          let r : i < len = omega (arith, lengths) in
          entry i r ∙ sym (get_or-ring_slice b.bytes capacity pos len i r)

  read_low :
      (len : ℕ)
      → len ≢ 0
      → len ≤ capacity
      → pos % capacity + len ≤ capacity
      → read_at pos len (capacity - 1) capacity b
        ≡ (ok (slice b.bytes (offset_of capacity pos) len), b)
  unfolding read_at
  read_low len n h p =
      let z : nat_beq len 0 ≡ false = ground arith in
      let s : add64 (offset_of capacity pos) len ≡ offset_of capacity pos + len =
        omega (arith, below, bounds) in
      let l : leb (offset_of capacity pos + len) (data_offset + capacity) ≡ true = ground arith in
      rw (mask_mod, start_fits, end_fits, tail_fits, z, le→ltb capacity len h, s, l)
        (read_in_range b (offset_of capacity pos) len (omega (arith, bounds)) ring.small)

  read_wrap :
      (len : ℕ)
      → len ≤ capacity
      → capacity < pos % capacity + len
      → read_at pos len (capacity - 1) capacity b ≡ (
        ok (
            slice b.bytes (offset_of capacity pos) (capacity - pos % capacity)
            ++ slice b.bytes data_offset (len - (capacity - pos % capacity))),
        b,
      )
  unfolding read_at
  read_wrap len h p =
      let z : nat_beq len 0 ≡ false = ground (arith, below) in
      let s : add64 (offset_of capacity pos) len ≡ offset_of capacity pos + len =
        omega (arith, below, bounds) in
      let l : leb (offset_of capacity pos + len) (data_offset + capacity) ≡ false = ground arith in
      let u : wrapping_sub len (capacity - pos % capacity) ≡ len - (capacity - pos % capacity) =
        omega (arith, below, bounds) in
      rw (mask_mod, start_fits, end_fits, tail_fits, z, le→ltb capacity len h, s, l, u)
        (rw
          (read_in_range b (offset_of capacity pos) (capacity - pos % capacity)
            (omega (arith, below, bounds)) ring.small)
          (rw
            (read_in_range b data_offset (len - (capacity - pos % capacity))
              (omega (arith, below, bounds)) ring.small)
            refl))

  -- A read at a position never fails, changes nothing, and returns the bytes of its positions.
  pub read_at_lem :
      (len : ℕ)
      → len ≤ capacity
      → read_at pos len (capacity - 1) capacity b ≡ (ok (ring_slice b.bytes capacity pos len), b)
  unfolding read_at
  read_at_lem zero h = refl
  read_at_lem (suc n) h = elim (Bool-cases (leb (pos % capacity + suc n) capacity)) [
    | inl p ↦
        let low : pos % capacity + suc n ≤ capacity = ground arith in
        read_low (suc n) (omega arith) h low
        ∙ ap (λ (l : List ℕ). let r : Result Error (List ℕ) × Backend = (ok l, b) in r)
            (slice_low (suc n) low)
    | inr p ↦
        let high : capacity < pos % capacity + suc n = ground arith in
        read_wrap (suc n) h high
        ∙ ap (λ (l : List ℕ). let r : Result Error (List ℕ) × Backend = (ok l, b) in r)
            (slice_wrap (suc n) h high)
  ]
