-- ===== src/Shm/Layout/Commit.antt =====
-- What committing a frame at a reserved position leaves in the data area: `commit_frame`, the part
-- of `write_frame` of layout.rs behind the reservation.
use Prim.Native.Nat.{bit_and, bit_or}
use native.Mathlib.Nat.{add-mod_right}
use selium.Base.{
  ℕ, ◌+◌, ◌-◌, ◌%◌, ◌^◌, ◌≤◌, ◌<◌, ◌≡◌, refl, sym, ap, ◌∙◌, inr, List, Bool, true, not, some, arith,
  ltb, nat_beq, length, get_or, list_ext, le→ltb, lt→ltb, ◌&&◌,
}
use selium.Base.Bits.{all_below, all_below_sound}
use selium.Base.Exec.{ok}
use selium.Memory.Bytes.{Bytes, from_le, slice_ext}
use selium.Memory.Backend.{Backend, fetch_add_u64, word, set_word}
use selium.Memory.Backend.Words.{size-set_word, byte-set_word}
use selium.Memory.Frame.{FrameHeader, encoded_size, encode, frame_size, is_ready}
use selium.Memory.Frame.Codec.{IsHeader, decode-encode, length-encode}
use selium.Shm.Layout.{data_offset, generation_counter_offset}
use selium.Shm.Layout.Words.{bump_generation}
use selium.Shm.Layout.Window.{
  IsRing, offset_of, ring_byte, ring_slice, length-ring_slice, get_or-ring_slice, ring_patch,
  ring_patch_inside, ring_patch_outside, ring_patch_header,
}
use selium.Shm.Layout.Access.{positive, read_at_lem, write_at_lem}
use selium.Shm.Layout.Frames.{header_of, ready_flags, not_ready_flags, commit_frame, read_frame}

-- The flags of a committed frame fit a byte and have READY set.
abbrev ready_test : ℕ → Bool
ready_test f = ltb (bit_or f 1) 256 && not (nat_beq (bit_and (bit_or f 1) 1) 0)

ready_table : all_below 256 ready_test ≡ true
ready_table = refl

ready_flags-lt : (f : ℕ) → f < 256 → ready_flags f < 256
ready_flags-lt f h = ground (arith, all_below_sound 256 ready_test f ready_table h)

ready_flags-ready : (f : ℕ) → f < 256 → not (nat_beq (bit_and (ready_flags f) 1) 0) ≡ true
ready_flags-ready f h = ground (arith, all_below_sound 256 ready_test f ready_table h)

pub bump_lem :
    (b : Backend)
    → 8 ≤ b.size
    → bump_generation b ≡ (
      ok ((word b generation_counter_offset + 1) % 2 ^ 64),
      set_word b generation_counter_offset ((word b generation_counter_offset + 1) % 2 ^ 64),
    )
unfolding bump_generation fetch_add_u64
bump_lem b h = ground arith

pub IsRing-set_word :
    {capacity k : ℕ} (b : Backend) (o v : ℕ)
    → IsRing b capacity k
    → IsRing (set_word b o v) capacity k
IsRing-set_word b o v ring = record {
  power = ring.power;
  room = omega (arith, size-set_word b o v, ring.room);
  small = omega (arith, size-set_word b o v, ring.small);
}

module _ (payload : List ℕ) (tag flags capacity k pos : ℕ) (b : Backend)
    (ring : IsRing b capacity k) (fits : encoded_size + length payload ≤ capacity)
    (no_wrap : pos + encoded_size < 2 ^ 64) where
  placeholder : List ℕ
  placeholder = encode (header_of (length payload) tag (not_ready_flags flags))

  pub header_bytes : List ℕ
  header_bytes = encode (header_of (length payload) tag (ready_flags flags))

  abbrev bytes₁ : Bytes
  bytes₁ = ring_patch b.bytes pos placeholder capacity

  abbrev bytes₂ : Bytes
  bytes₂ = ring_patch bytes₁ (pos + encoded_size) payload capacity

  abbrev bytes₃ : Bytes
  bytes₃ = ring_patch bytes₂ pos header_bytes capacity

  -- The mapping after the commit.
  pub committed : Backend
  committed =
      let b₃ : Backend = record b { bytes = bytes₃ } in
      set_word b₃ generation_counter_offset ((word b₃ 0 + 1) % 2 ^ 64)

  placeholder-length : length placeholder ≡ 16
  unfolding placeholder
  placeholder-length = length-encode _

  header_length : length header_bytes ≡ 16
  unfolding header_bytes
  header_length = length-encode _

  -- Other bytes in a mapping of the same size are a ring too.
  same : (bytes : Bytes) → IsRing (record b { bytes = bytes }) capacity k
  same bytes = record { power = ring.power; room = ring.room; small = ring.small }

  room : data_offset + capacity ≤ b.size
  room = ring.room

  -- A commit never fails on a ring that holds the frame.
  pub commit_frame_lem :
      commit_frame payload tag flags capacity (capacity - 1) pos b ≡ (ok tt, committed)
  unfolding commit_frame committed placeholder header_bytes
  commit_frame_lem =
      let ring₁ : IsRing (record b { bytes = bytes₁ }) capacity k = same bytes₁ in
      let ring₂ : IsRing (record b { bytes = bytes₂ }) capacity k = same bytes₂ in
      rw (write_at_lem b capacity k pos ring placeholder (omega (arith, placeholder-length))) (
        rw (lt→ltb (pos + encoded_size) (2 ^ 64) no_wrap) (
          rw
            (write_at_lem (record b { bytes = bytes₁ }) capacity k (pos + encoded_size) ring₁
              payload (omega arith))
            (rw
              (write_at_lem (record b { bytes = bytes₂ }) capacity k pos ring₂ header_bytes
                (omega (arith, header_length)))
              (rw (bump_lem (record b { bytes = bytes₃ }) (omega (arith, room))) refl))))

  pub committed-IsRing : IsRing committed capacity k
  unfolding committed
  committed-IsRing = IsRing-set_word (record b { bytes = bytes₃ }) _ _ (same bytes₃)

  -- The generation word lies before the data area.
  generation_apart : (p : ℕ) → ring_byte committed.bytes capacity p ≡ ring_byte bytes₃ capacity p
  unfolding committed
  generation_apart p =
      let b₃ : Backend = record b { bytes = bytes₃ } in
      byte-set_word b₃ 0 ((word b₃ 0 + 1) % 2 ^ 64) (offset_of capacity p) (inr (omega arith))

  some_room : 0 < capacity
  some_room = positive b capacity k pos ring

  header_byte :
      (i : ℕ) → i < 16 → ring_byte committed.bytes capacity (pos + i) ≡ get_or header_bytes i 0
  header_byte i h =
      generation_apart (pos + i)
      ∙ ring_patch_inside bytes₂ capacity pos header_bytes some_room (omega (arith, header_length))
          i (omega (arith, header_length))

  behind_header :
      (d : ℕ)
      → 16 ≤ d
      → d < capacity
      → ring_byte committed.bytes capacity (pos + d) ≡ ring_byte bytes₂ capacity (pos + d)
  behind_header d h p =
      generation_apart (pos + d)
      ∙ ring_patch_outside bytes₂ capacity pos header_bytes some_room (omega (arith, header_length))
          d (omega (arith, header_length)) p

  payload_byte :
      (i : ℕ)
      → i < length payload
      → ring_byte committed.bytes capacity (pos + encoded_size + i) ≡ get_or payload i 0
  payload_byte i h =
      let e : pos + encoded_size + i ≡ pos + (encoded_size + i) = omega arith in
      ap (ring_byte committed.bytes capacity) e
      ∙ behind_header (encoded_size + i) (omega arith) (omega arith)
      ∙ ap (ring_byte bytes₂ capacity) (sym e)
      ∙ ring_patch_inside bytes₁ capacity (pos + encoded_size) payload some_room (omega arith) i h

  -- The window behind the frame keeps its bytes.
  pub behind_frame :
      (d : ℕ)
      → encoded_size + length payload ≤ d
      → d < capacity
      → ring_byte committed.bytes capacity (pos + d) ≡ ring_byte b.bytes capacity (pos + d)
  behind_frame d h p =
      let e : pos + d ≡ pos + encoded_size + (d - encoded_size) = omega arith in
      behind_header d (omega arith) p
      ∙ ap (ring_byte bytes₂ capacity) e
      ∙ ring_patch_outside bytes₁ capacity (pos + encoded_size) payload some_room (omega arith)
          (d - encoded_size) (omega arith) (omega arith)
      ∙ ap (ring_byte bytes₁ capacity) (sym e)
      ∙ ring_patch_outside b.bytes capacity pos placeholder some_room
          (omega (arith, placeholder-length)) d (omega (arith, placeholder-length)) p

  -- So do the positions before the frame, as far back as the window reaches.
  pub before_frame :
      (p : ℕ)
      → p < pos
      → pos + encoded_size + length payload ≤ p + capacity
      → ring_byte committed.bytes capacity p ≡ ring_byte b.bytes capacity p
  before_frame p h q =
      let e : pos + (p + capacity - pos) ≡ p + capacity = omega arith in
      let f : data_offset + p % capacity ≡ data_offset + (p + capacity) % capacity =
        ap (λ j. data_offset + j) (sym (add-mod_right p capacity)) in
      ap committed.bytes f
      ∙ ap (ring_byte committed.bytes capacity) (sym e)
      ∙ behind_frame (p + capacity - pos) (omega arith) (omega arith)
      ∙ ap (ring_byte b.bytes capacity) e
      ∙ ap b.bytes (sym f)

  -- The other words of the coordination header keep their values.
  pub word-committed : (o : ℕ) → 8 ≤ o → o + 8 ≤ data_offset → word committed o ≡ word b o
  unfolding committed word
  word-committed o h p =
      let b₃ : Backend = record b { bytes = bytes₃ } in
      ap from_le (
        slice_ext committed.bytes b.bytes o 8 λ i u v.
          byte-set_word b₃ 0 ((word b₃ 0 + 1) % 2 ^ 64) i (inr (omega arith))
          ∙ ring_patch_header bytes₂ capacity pos header_bytes some_room
              (omega (arith, header_length)) i (omega arith)
          ∙ ring_patch_header bytes₁ capacity (pos + encoded_size) payload some_room (omega arith) i
              (omega arith)
          ∙ ring_patch_header b.bytes capacity pos placeholder some_room
              (omega (arith, placeholder-length)) i (omega arith))

  header_slice : ring_slice committed.bytes capacity pos 16 ≡ header_bytes
  header_slice =
      list_ext _ _ 0 (length-ring_slice committed.bytes capacity pos 16 ∙ sym header_length) λ i p.
        let q : i < 16 = omega (arith, length-ring_slice committed.bytes capacity pos 16) in
        get_or-ring_slice committed.bytes capacity pos 16 i q ∙ header_byte i q

  payload_slice :
      ring_slice committed.bytes capacity (pos + encoded_size) (length payload) ≡ payload
  payload_slice =
      let m : length (ring_slice committed.bytes capacity (pos + encoded_size) (length payload))
          ≡ length payload =
        length-ring_slice committed.bytes capacity (pos + encoded_size) (length payload) in
      list_ext _ _ 0 m λ i p.
        let q : i < length payload = omega (arith, m) in
        get_or-ring_slice committed.bytes capacity (pos + encoded_size) (length payload) i q
        ∙ payload_byte i q

  -- The committed frame is read back, its length taken as a `u32` and READY set.
  pub read_committed :
      tag < 2 ^ 32
      → flags < 256
      → length payload < 2 ^ 32
      → read_frame pos (capacity - 1) capacity committed
        ≡ (ok (some (header_of (length payload) tag (ready_flags flags), payload)), committed)
  unfolding read_frame header_bytes header_of is_ready frame_size
  read_committed ht hf hl =
      let h : FrameHeader = header_of (length payload) tag (ready_flags flags) in
      let v : IsHeader h = record {
        len_fits = omega arith;
        tag_fits = ht;
        flags_fit = ready_flags-lt flags hf;
      } in
      let n : length payload % 2 ^ 32 ≡ length payload = omega arith in
      rw (read_at_lem committed capacity k pos committed-IsRing 16 (omega arith)) (
        rw header_slice (
          rw (decode-encode h v) (
            rw (ready_flags-ready flags hf) (
              rw n (
                rw (le→ltb capacity (encoded_size + length payload) fits) (
                  rw (lt→ltb (pos + encoded_size) (2 ^ 64) no_wrap) (
                    rw
                      (read_at_lem committed capacity k (pos + encoded_size) committed-IsRing
                        (length payload) (omega arith))
                      (rw payload_slice refl))))))))
