-- ===== src/Shm/Layout/Backpressure.antt =====
-- crates/shm/src/layout.rs: `write_frame` as a whole, the frame it leaves and the positions that
-- slots protect.
use selium.Base.{
  ℕ, suc, ◌+◌, ◌-◌, ◌*◌, ◌^◌, ◌≤◌, ◌<◌, ◌≡◌, refl, ◌∙◌, inr, Bool, true, false, Option, none, some,
  List, ◌∷◌, arith, u64_max, length, le→ltb,
}
use selium.Base.Exec.{ok}
use selium.Memory.Backend.{Backend, word, set_word}
use selium.Memory.Backend.Words.{byte-set_word, word-set_word_self}
use selium.Memory.Frame.{encoded_size}
use selium.Shm.Layout.{next_tail_offset, reader_slots_offset, max_reader_slots}
use selium.Shm.Layout.Reserve.{Round, quiet, reserve_tail_next}
use selium.Shm.Layout.Slots.{AtMost, fold_slots-AtMost}
use selium.Shm.Layout.Window.{IsRing, offset_of, ring_byte}
use selium.Shm.Layout.Frames.{header_of, ready_flags, write_frame, read_frame}
use selium.Shm.Layout.Alone.{readers, writers, next_of, reserve_tail_alone}
use selium.Shm.Layout.Commit.{
  committed, commit_frame_lem, read_committed, before_frame, word-committed, IsRing-set_word,
}

next_bounds :
    (tail len capacity : ℕ) (r w : Option ℕ) (pr pw : Bool) (next : ℕ)
    → reserve_tail_next tail len capacity r w pr pw ≡ ok next
    → (next ≡ tail + len) × (tail + len < u64_max) × (len ≤ capacity)
unfolding reserve_tail_next
next_bounds tail len capacity r w pr pw next h = ground arith

-- With readers protected, the new tail is within the capacity of every bound on the least reader.
next_protects :
    (tail len capacity : ℕ) (r w : Option ℕ) (pw : Bool) (next q : ℕ)
    → reserve_tail_next tail len capacity r w true pw ≡ ok next
    → AtMost r q
    → tail + len ≤ q + capacity
unfolding reserve_tail_next
next_protects tail len capacity none w pw next q h a = absurd a
next_protects tail len capacity (some m) w pw next q h a = ground arith

module _ (rs : List Round) (payload : List ℕ) (tag flags capacity k : ℕ) (pr pw : Bool)
    (b : Backend) (ring : IsRing b capacity k) {next : ℕ}
    (room : next_of (encoded_size + length payload) capacity pr pw b ≡ ok next) where
  tail : ℕ
  tail = word b next_tail_offset

  facts :
      (next ≡ tail + (encoded_size + length payload))
      × (tail + (encoded_size + length payload) < u64_max)
      × (encoded_size + length payload ≤ capacity)
  unfolding tail
  facts =
      next_bounds (word b next_tail_offset) (encoded_size + length payload) capacity (readers pr b)
        (writers pw b) pr pw next room

  moved : Backend
  moved = set_word b next_tail_offset next

  moved-IsRing : IsRing moved capacity k
  unfolding moved
  moved-IsRing = IsRing-set_word b next_tail_offset next ring

  no_wrap : word b next_tail_offset + encoded_size < 2 ^ 64
  unfolding tail
  no_wrap = omega (arith, facts)

  -- The mapping that the write leaves.
  pub written : Backend
  unfolding moved tail
  written =
      committed payload tag flags capacity k (word b next_tail_offset) moved moved-IsRing facts.2
        no_wrap

  pub write_frame_lem :
      write_frame (quiet ∷ rs) payload tag flags capacity (capacity - 1) pr pw b
      ≡ (ok (some tt), written)
  unfolding write_frame written moved tail
  write_frame_lem = rw (le→ltb capacity (encoded_size + length payload) facts.2) (
      rw
        (reserve_tail_alone false rs (encoded_size + length payload) capacity pr pw b
          (omega (arith, ring.room)) ring.small room)
        (rw
          (commit_frame_lem payload tag flags capacity k (word b next_tail_offset) moved
            moved-IsRing facts.2 no_wrap)
          refl))

  tail_moved :
      word written next_tail_offset ≡ word b next_tail_offset + (encoded_size + length payload)
  unfolding written moved tail
  tail_moved =
      word-committed payload tag flags capacity k (word b next_tail_offset) moved moved-IsRing
        facts.2 no_wrap next_tail_offset (omega arith) (omega arith)
      ∙ word-set_word_self b next_tail_offset next (omega (arith, facts))
      ∙ facts.0

  -- A participant alone, on a ring, whose reservation fits, with a tag, flags and a length in their
  -- machine words, writes its frame; the frame is then read back from the old tail, with its length,
  -- its tag and READY set, and the tail stands behind it.
  pub write_frame-read_frame :
      tag < 2 ^ 32
      → flags < 256
      → length payload < 2 ^ 32
      → (b' : Backend) × (write_frame (quiet ∷ rs) payload tag flags capacity (capacity - 1) pr pw b
          ≡ (ok (some tt), b'))
        × (read_frame (word b next_tail_offset) (capacity - 1) capacity b'
            ≡ (ok (some (header_of (length payload) tag (ready_flags flags), payload)), b'))
        × (word b' next_tail_offset ≡ word b next_tail_offset + (encoded_size + length payload))
  write_frame-read_frame ht hf hl = (written, write_frame_lem, back, tail_moved)
    where
      back :
          read_frame (word b next_tail_offset) (capacity - 1) capacity written
          ≡ (ok (some (header_of (length payload) tag (ready_flags flags), payload)), written)
      back =
          unfold written moved tail in
          read_committed payload tag flags capacity k (word b next_tail_offset) moved moved-IsRing
            facts.2 no_wrap ht hf hl

  -- The bytes between a bound and the old tail stay, if the new tail is within the capacity of the
  -- bound.
  pub written_keeps :
      (p : ℕ)
      → p < word b next_tail_offset
      → word b next_tail_offset + (encoded_size + length payload) ≤ p + capacity
      → ring_byte written.bytes capacity p ≡ ring_byte b.bytes capacity p
  unfolding written moved tail
  written_keeps p h q =
      before_frame payload tag flags capacity k (word b next_tail_offset) moved moved-IsRing facts.2
        no_wrap p h (omega arith)
      ∙ byte-set_word b next_tail_offset next (offset_of capacity p) (inr (omega arith))

-- With readers protected, a frame whose reservation fits is written by a participant alone, and it
-- leaves every byte from the position of a reader slot in use up to the old tail as it was.
pub write_frame-keeps_unread :
    (rs : List Round) (payload : List ℕ) (tag flags capacity k : ℕ) (pw : Bool) (b : Backend)
    (ring : IsRing b capacity k) (next slot position p : ℕ)
    → next_of (encoded_size + length payload) capacity true pw b ≡ ok next
    → slot < max_reader_slots
    → word b (reader_slots_offset + slot * 8) ≡ suc position
    → position ≤ p
    → p < word b next_tail_offset
    → (b' : Backend) × (write_frame (quiet ∷ rs) payload tag flags capacity (capacity - 1) true pw b
        ≡ (ok (some tt), b'))
      × (ring_byte b'.bytes capacity p ≡ ring_byte b.bytes capacity p)
write_frame-keeps_unread rs payload tag flags capacity k pw b ring next slot position p room
      in_range used from below =
    let bound : AtMost (readers true b) position =
      fold_slots-AtMost b max_reader_slots reader_slots_offset none slot position in_range used in
    let reach : word b next_tail_offset + (encoded_size + length payload) ≤ position + capacity =
      next_protects (word b next_tail_offset) (encoded_size + length payload) capacity
        (readers true b) (writers pw b) pw next position room bound in
    (
      written rs payload tag flags capacity k true pw b ring room,
      write_frame_lem rs payload tag flags capacity k true pw b ring room,
      written_keeps rs payload tag flags capacity k true pw b ring room p below (omega arith),
    )
