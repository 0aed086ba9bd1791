-- ===== src/Shm/Readers/Raw.antt =====
-- crates/shm/src/channels/reader.rs `read_raw` beside `read_at` of crates/shm/src/layout.rs.
use selium.Base.{
  ℕ, ◌+◌, ◌-◌, ◌%◌, ◌≤◌, ◌<◌, ◌≡◌, refl, ◌∙◌, inl, inr, true, arith, ltb, leb, Bool-cases, lt→ltb,
}
use selium.Base.Exec.{ok}
use selium.Memory.Backend.{Backend}
use selium.Shm.Layout.{data_offset}
use selium.Shm.Layout.Cursor.{wrapping_sub}
use selium.Shm.Layout.Data.{add64, read_at}
use selium.Shm.Layout.Window.{IsRing, offset_of, ring_slice}
use selium.Shm.Layout.Access.{mask_mod, start_fits, end_fits, tail_fits, below, bounds, read_at_lem}
use selium.Shm.Readers.{read_raw}

module _ (b : Backend) (capacity k pos : ℕ) (ring : IsRing b capacity k) where
  -- On a ring of a power of two the reader's copy of the routine is the routine of the layout,
  -- whatever the length, also beyond the capacity.
  pub read_raw-read_at :
      (len : ℕ)
      → read_raw capacity pos len (capacity - 1) b ≡ read_at pos len (capacity - 1) capacity b
  unfolding read_raw read_at
  read_raw-read_at len =
      let before = below b capacity k pos ring in
      let limits = bounds b capacity k pos ring in
      let some_tail : ltb 0 (data_offset + capacity - offset_of capacity pos) ≡ true =
        lt→ltb 0 (data_offset + capacity - offset_of capacity pos) (omega (arith, before)) in
      let same : data_offset + capacity - offset_of capacity pos ≡ capacity - pos % capacity =
        omega (arith, before) in
      rw
        (
          mask_mod b capacity k pos ring,
          start_fits b capacity k pos ring,
          end_fits b capacity k pos ring,
          tail_fits b capacity k pos ring,
          some_tail,
          same,
        )
        (elim (Bool-cases (ltb capacity len)) [
          | inl long ↦ rw long refl
          | inr fits ↦
              elim (Bool-cases
                (leb (add64 (offset_of capacity pos) len) (data_offset + capacity))) [
                  | inl whole ↦ rw (fits, whole) refl
                  | inr wraps ↦
                      let within : len ≤ capacity = ground arith in
                      let sum : add64 (offset_of capacity pos) len ≡ offset_of capacity pos + len =
                        omega (arith, before, limits) in
                      let beyond : capacity < pos % capacity + len = ground arith in
                      let some_head : ltb 0 (wrapping_sub len (capacity - pos % capacity)) ≡ true =
                        lt→ltb 0 (wrapping_sub len (capacity - pos % capacity))
                          (omega (arith, before, limits)) in
                      rw (fits, wraps, some_head) refl
                ]
        ])

  -- Within the capacity it returns the bytes of the positions it is asked for and changes nothing.
  pub read_raw_lem :
      (len : ℕ)
      → len ≤ capacity
      → read_raw capacity pos len (capacity - 1) b ≡ (ok (ring_slice b.bytes capacity pos len), b)
  read_raw_lem len h = read_raw-read_at len ∙ read_at_lem b capacity k pos ring len h
