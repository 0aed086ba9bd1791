-- ===== src/Shm/Readers/Late.antt =====
-- crates/shm/src/channels: a blocking reader that is opened on a ring with a history.
use selium.Base.{ℕ, ◌<◌, ◌^◌, ◌≡◌, refl, true, false, arith, ltb, leb}
use selium.Base.Exec.{ok, err}
use selium.Memory.Backend.{Backend, word}
use selium.Memory.Backend.Words.{load_in_range}
use selium.Shm.Error.{overwritten}
use selium.Shm.Layout.{next_tail_offset, generation_counter_offset}
use selium.Shm.Layout.Cursor.{wrapping_sub}
use selium.Shm.Layout.Words.{load_next_tail, load_generation}
use selium.Shm.Layout.Window.{IsRing}
use selium.Shm.Readers.{new_blocking_reader, find_blocking, poll_read_blocking}

module _ (b : Backend) (capacity k : ℕ) (ring : IsRing b capacity k) where
  tail_loaded : load_next_tail b ≡ (ok (word b next_tail_offset), b)
  unfolding load_next_tail
  tail_loaded =
      rw (load_in_range b next_tail_offset (omega (arith, ring.room)) (omega (arith, ring.small)))
        refl

  generation_loaded : load_generation b ≡ (ok (word b generation_counter_offset), b)
  unfolding load_generation
  generation_loaded =
      rw
        (load_in_range b generation_counter_offset (omega (arith, ring.room))
          (omega (arith, ring.small)))
        refl

  -- A reader that was opened where a ring had seen more generations than its capacity has bytes
  -- never reads what is written after: each poll reports `Overwritten` and changes neither the
  -- reader nor the ring, although nothing was overwritten.
  pub poll_read_blocking-late :
      (room start reader_id : ℕ)
      → start < word b next_tail_offset
      → word b generation_counter_offset < 2 ^ 64
      → capacity < word b generation_counter_offset
      → poll_read_blocking capacity room (new_blocking_reader start reader_id) b
        ≡ (err overwritten, new_blocking_reader start reader_id, b)
  unfolding poll_read_blocking find_blocking
  poll_read_blocking-late room start reader_id unread bounded long =
      let more : leb (word b next_tail_offset) start ≡ false = ground arith in
      let delta : wrapping_sub (word b generation_counter_offset) 0
          ≡ word b generation_counter_offset =
        omega arith in
      let past : ltb capacity (word b generation_counter_offset) ≡ true = ground arith in
      rw (tail_loaded, more, generation_loaded, delta, past) refl
