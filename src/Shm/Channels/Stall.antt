-- ===== src/Shm/Channels/Stall.antt =====
-- crates/shm/src/channels/writer.rs `BlockingWriter::new`, which registers its slot at position 0
-- whatever the tail is, and what a ring does behind such a slot.
use selium.Base.{
  ℕ, suc, ◌+◌, ◌-◌, ◌*◌, ◌%◌, ◌^◌, ◌≤◌, ◌<◌, ◌≡◌, refl, ◌∙◌, inl, inr, true, false, Option, none,
  some, List, ◌∷◌, ◌||◌, arith, ltb, leb, nat_beq, u64_max, length, le→ltb,
}
use selium.Base.Exec.{ok, err}
use selium.Memory.Backend.{Backend, word, set_word}
use selium.Memory.Backend.Words.{
  size-set_word, word-set_word_self, word-set_word_ne, add_in_range, store_in_range,
}
use selium.Shm.Error.{buffer_full}
use selium.Shm.Layout.{
  next_tail_offset, writer_slots_offset, data_offset, max_writer_slots, writer_slot_counter_offset,
  next_writer_id_offset, writer_count_offset,
}
use selium.Shm.Layout.Words.{
  increment_writer_count, allocate_writer_id, allocate_writer_slot, store_writer_slot,
  encode_writer_position,
}
use selium.Shm.Layout.Reserve.{Round, quiet, reserve_tail_next}
use selium.Shm.Layout.Slots.{AtMost, fold_slots-AtMost}
use selium.Shm.Layout.Window.{IsRing}
use selium.Shm.Layout.Alone.{readers, writers, next_of, reserve_tail_refused}
use selium.Shm.Layout.Commit.{IsRing-set_word}
use selium.Shm.Channels.{
  ChannelBackpressure, Writer, BlockingWriter, blocking_writer, or_uncount, settle, when_full,
  poll_write, poll_write_blocking,
}

-- A writer bound of at most `q` refuses what reaches beyond the capacity from `q`.
next_stalls :
    (tail len capacity : ℕ) (r w : Option ℕ) (q : ℕ)
    → (nat_beq len 0 || ltb capacity len) ≡ false
    → tail + len < u64_max
    → AtMost w q
    → q + capacity < tail + len
    → reserve_tail_next tail len capacity r w true true ≡ err buffer_full
unfolding reserve_tail_next
next_stalls tail len capacity r none q g h a p = absurd a
next_stalls tail len capacity none (some m) q g h a p = ground arith
next_stalls tail len capacity (some n) (some m) q g h a p = ground arith

module _ (rs : List Round) (capacity k slot q : ℕ) (buf : List ℕ) (b : Backend)
    (ring : IsRing b capacity k) (in_range : slot < max_writer_slots)
    (used : word b (writer_slots_offset + slot * 8) ≡ suc q) (some_bytes : 0 < length buf)
    (fits : length buf ≤ capacity) (no_wrap : word b next_tail_offset + length buf < u64_max)
    (beyond : q + capacity < word b next_tail_offset + length buf) where
  refused : next_of (length buf) capacity true true b ≡ err buffer_full
  refused =
      next_stalls (word b next_tail_offset) (length buf) capacity (readers true b) (writers true b)
        q (ground arith) no_wrap
        (fold_slots-AtMost b max_writer_slots writer_slots_offset none slot q in_range used) beyond

  -- A slot in use stalls every writer once the tail would pass its position by the capacity, the
  -- owner of the slot included: nothing is written and the owner cannot move the slot.
  pub slot_stalls :
      (w : Writer) (v : BlockingWriter)
      → (poll_write (quiet ∷ rs) capacity w buf b ≡ (ok (when_full w.backpressure (length buf)), b))
        × (poll_write_blocking (quiet ∷ rs) capacity v buf b
            ≡ (ok (when_full v.backpressure (length buf)), b))
  unfolding poll_write poll_write_blocking settle
  slot_stalls w v =
      let z : nat_beq (length buf) 0 ≡ false = ground arith in
      let g : (nat_beq (length buf) 0 || ltb capacity (length buf)) ≡ false = ground arith in
      let stop =
        reserve_tail_refused false rs (length buf) capacity true true b (omega (arith, ring.room))
          ring.small g refused in
      (
        rw z (rw (le→ltb capacity (length buf) fits) (rw stop refl)),
        rw z (rw (le→ltb capacity (length buf) fits) (rw stop refl)),
      )

-- Opening a blocking writer on a ring whose counters have room takes the next slot, at position 0.
module _ (capacity k : ℕ) (bp : ChannelBackpressure) (b : Backend) (ring : IsRing b capacity k)
    (ids : word b next_writer_id_offset < 2 ^ 32)
    (slots : word b writer_slot_counter_offset < max_writer_slots) where
  abbrev slot : ℕ
  slot = word b writer_slot_counter_offset

  counted : Backend
  counted = set_word b writer_count_offset ((word b writer_count_offset + 1) % 2 ^ 64)

  numbered : Backend
  numbered = set_word counted next_writer_id_offset ((word b next_writer_id_offset + 1) % 2 ^ 64)

  stepped : Backend
  stepped = set_word numbered writer_slot_counter_offset ((slot + 1) % 2 ^ 64)

  pub opened : Backend
  opened = set_word stepped (writer_slots_offset + slot * 8) 1

  pub opened-IsRing : IsRing opened capacity k
  unfolding opened stepped numbered counted
  opened-IsRing = IsRing-set_word _ (writer_slots_offset + slot * 8) 1 (
      IsRing-set_word _ writer_slot_counter_offset ((slot + 1) % 2 ^ 64) (
        IsRing-set_word _ next_writer_id_offset ((word b next_writer_id_offset + 1) % 2 ^ 64)
          (IsRing-set_word _ writer_count_offset ((word b writer_count_offset + 1) % 2 ^ 64) ring)))

  room : data_offset ≤ b.size
  room = omega (arith, ring.room)

  small : b.size < 2 ^ 64
  small = omega (arith, ring.small)

  counted_size : counted.size ≡ b.size
  unfolding counted
  counted_size = size-set_word b writer_count_offset ((word b writer_count_offset + 1) % 2 ^ 64)

  numbered_size : numbered.size ≡ b.size
  unfolding numbered
  numbered_size =
      size-set_word counted next_writer_id_offset ((word b next_writer_id_offset + 1) % 2 ^ 64)
      ∙ counted_size

  stepped_size : stepped.size ≡ b.size
  unfolding stepped
  stepped_size =
      size-set_word numbered writer_slot_counter_offset ((slot + 1) % 2 ^ 64) ∙ numbered_size

  id_kept : word counted next_writer_id_offset ≡ word b next_writer_id_offset
  unfolding counted
  id_kept =
      word-set_word_ne b writer_count_offset next_writer_id_offset
        ((word b writer_count_offset + 1) % 2 ^ 64) (inr (omega arith))

  slot_kept : word numbered writer_slot_counter_offset ≡ slot
  unfolding numbered counted
  slot_kept =
      word-set_word_ne counted next_writer_id_offset writer_slot_counter_offset
        ((word b next_writer_id_offset + 1) % 2 ^ 64) (inr (omega arith))
      ∙ word-set_word_ne b writer_count_offset writer_slot_counter_offset
          ((word b writer_count_offset + 1) % 2 ^ 64) (inr (omega arith))

  pub opened-slot : word opened (writer_slots_offset + slot * 8) ≡ 1
  unfolding opened
  opened-slot = word-set_word_self stepped (writer_slots_offset + slot * 8) 1 (omega arith)

  pub opened_tail : word opened next_tail_offset ≡ word b next_tail_offset
  unfolding opened stepped numbered counted
  opened_tail =
      word-set_word_ne stepped (writer_slots_offset + slot * 8) next_tail_offset 1
        (inl (omega arith))
      ∙ word-set_word_ne numbered writer_slot_counter_offset next_tail_offset ((slot + 1) % 2 ^ 64)
          (inl (omega arith))
      ∙ word-set_word_ne counted next_writer_id_offset next_tail_offset
          ((word b next_writer_id_offset + 1) % 2 ^ 64) (inl (omega arith))
      ∙ word-set_word_ne b writer_count_offset next_tail_offset
          ((word b writer_count_offset + 1) % 2 ^ 64) (inl (omega arith))

  pub handle : BlockingWriter
  handle = record {
    writer_id = word b next_writer_id_offset;
    writer_slot = slot;
    backpressure = bp;
    closed = false;
  }

  take_id : allocate_writer_id counted ≡ (ok (word b next_writer_id_offset), numbered)
  unfolding allocate_writer_id numbered
  take_id =
      rw
        (add_in_range counted next_writer_id_offset (omega (arith, counted_size, room))
          (omega (arith, counted_size, small)) 1)
        (rw id_kept (rw (le→ltb (2 ^ 32 - 1) (word b next_writer_id_offset) (omega arith)) refl))

  take_slot : allocate_writer_slot 0 numbered ≡ (ok slot, opened)
  unfolding allocate_writer_slot opened stepped store_writer_slot encode_writer_position
  take_slot =
      let l : leb max_writer_slots slot ≡ false = ground arith in
      rw
        (add_in_range numbered writer_slot_counter_offset (omega (arith, numbered_size, room))
          (omega (arith, numbered_size, small)) 1)
        (rw slot_kept (
          rw l (
            rw
              (store_in_range stepped (writer_slots_offset + slot * 8)
                (omega (arith, stepped_size, room)) (omega (arith, stepped_size, small)) 1)
              refl)))

  pub blocking_writer_lem : blocking_writer bp b ≡ (ok handle, opened)
  unfolding blocking_writer increment_writer_count or_uncount handle counted
  blocking_writer_lem =
      rw (add_in_range b writer_count_offset (omega (arith, room)) small 1)
        (rw take_id (rw take_slot refl))

  -- A blocking writer opened on a ring whose tail has reached the capacity, with a free writer slot
  -- and writer ids left, stalls the ring at once: the next `poll_write` in a quiet round, by any
  -- writer and by the new one itself, of a frame that is not empty, fits the capacity and does not
  -- overflow the tail, finds the ring full and leaves the mapping as it is.
  pub blocking_writer-stalls :
      (rs : List Round) (buf : List ℕ) (w : Writer)
      → capacity ≤ word b next_tail_offset
      → 0 < length buf
      → length buf ≤ capacity
      → word b next_tail_offset + length buf < u64_max
      → (v : BlockingWriter) × (b' : Backend) × (blocking_writer bp b ≡ (ok v, b'))
        × (poll_write (quiet ∷ rs) capacity w buf b'
            ≡ (ok (when_full w.backpressure (length buf)), b'))
        × (poll_write_blocking (quiet ∷ rs) capacity v buf b'
            ≡ (ok (when_full v.backpressure (length buf)), b'))
  blocking_writer-stalls rs buf w full some_bytes fits no_wrap =
      let stalls =
        slot_stalls rs capacity k slot 0 buf opened opened-IsRing slots opened-slot some_bytes fits
          (omega (arith, opened_tail)) (omega (arith, opened_tail)) w handle in
      (handle, opened, blocking_writer_lem, stalls.0, stalls.1)
