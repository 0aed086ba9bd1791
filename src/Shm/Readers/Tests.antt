-- ===== src/Shm/Readers/Tests.antt =====
-- The theorems about readers at rings of 64 bytes.
use selium.Base.{ℕ, ◌≡◌, ◌≢◌, refl, List, [], ◌∷◌, ◌++◌, arith, take, drop, nat_beq, if◌then◌else◌}
use selium.Base.Exec.{ok, err}
use selium.Memory.Backend.{
  Backend, word, set_word, read, atomic_load_u64, fetch_add_u64, atomic_store_u64,
}
use selium.Shm.Error.{overwritten}
use selium.Shm.Layout.{
  next_tail_offset, writer_count_offset, generation_counter_offset, data_offset,
}
use selium.Shm.Layout.Words.{
  load_next_tail, load_generation, allocate_reader_slot, encode_reader_position, store_reader_slot,
}
use selium.Shm.Layout.Frames.{header_of}
use selium.Shm.Layout.Window.{IsRing}
use selium.Memory.Frame.{encode, decode, checksum, hash_byte, hash_bytes, is_ready, frame_size}
use selium.Memory.Bytes.{patch}
use selium.Shm.Channels.{park}
use selium.Shm.Readers.{
  find_frame, Reader, new_reader, new_blocking_reader, find, frame, read_raw, read_header,
  poll_read, poll_read_blocking, upgrade, ready, pending, unwrap_or_zero,
}
use selium.Shm.Readers.Polls.{reads, reads-frame}
use selium.Shm.Readers.Upgrade.{upgrade-loses}
use selium.Shm.Readers.Late.{poll_read_blocking-late}

abbrev fresh : Backend
fresh = record { size = 8192; bytes = λ i. 0 }

-- A ring with one unread byte behind a hundred generations.
abbrev old : Backend
old = set_word (set_word fresh next_tail_offset 1700) generation_counter_offset 100

old-IsRing : IsRing old 64 6
unfolding set_word
old-IsRing = record { power = refl; room = omega arith; small = omega arith }

old_tail : word old next_tail_offset ≡ 1700
unfolding set_word word
old_tail = refl

old_generation : word old generation_counter_offset ≡ 100
unfolding set_word word
old_generation = refl

poll_read_blocking-late_example :
    poll_read_blocking 64 16 (new_blocking_reader 1680 0) old
    ≡ (err overwritten, new_blocking_reader 1680 0, old)
poll_read_blocking-late_example =
    poll_read_blocking-late old 64 6 old-IsRing 16 1680 0 (omega (arith, old_tail))
      (omega (arith, old_generation)) (omega (arith, old_generation))

abbrev wire : List ℕ
wire = encode (header_of 2 42 1) ++ (104 ∷ 105 ∷ [])

abbrev written : Backend
written = set_word (record fresh { bytes = patch (λ i. 0) data_offset wire }) next_tail_offset 18

abbrev at_start : Reader
at_start = new_reader 0 park

written_found : find 64 at_start written ≡ (ok (frame wire 18), written)
unfolding find find_frame read_header read_raw load_next_tail atomic_load_u64 word set_word read
    decode encode header_of checksum hash_byte hash_bytes is_ready frame_size
written_found = refl

reads-frame_example : reads 64 (3 ∷ 5 ∷ 2 ∷ 20 ∷ []) at_start written ≡ (
  wire,
  record at_start {
    pos = 18;
    last_generation = unwrap_or_zero ((load_generation written).0);
    pending_frame = [];
    pending_offset = 0;
  },
  written,
)
unfolding encode
reads-frame_example =
    reads-frame 64 3 20 18 18 (5 ∷ 2 ∷ []) wire at_start written written refl (omega arith)
      written_found refl (omega arith) (omega arith)

-- The reader has read 9 of the 18 bytes of the frame.
abbrev halfway : Reader
halfway = (poll_read 64 9 at_start written).1

abbrev upgraded : Backend
upgraded = (upgrade halfway written).1

halfway-upgrade : upgrade halfway written ≡ (ok (new_blocking_reader 18 0), upgraded)
unfolding upgrade allocate_reader_slot fetch_add_u64 encode_reader_position store_reader_slot
    atomic_store_u64 word set_word poll_read find find_frame read_header read_raw load_next_tail
    load_generation atomic_load_u64 read decode encode header_of checksum hash_byte hash_bytes
    is_ready frame_size
halfway-upgrade = refl

upgraded_words :
    (upgraded.size ≡ 8192)
    × (word upgraded next_tail_offset ≡ 18)
    × (word upgraded writer_count_offset ≡ 0)
unfolding upgrade allocate_reader_slot fetch_add_u64 encode_reader_position store_reader_slot
    atomic_store_u64 word set_word poll_read find find_frame read_header read_raw load_next_tail
    load_generation atomic_load_u64 read decode encode header_of checksum hash_byte hash_bytes
    is_ready frame_size
upgraded_words = (refl, refl, refl)

upgrade-loses_example :
    ((poll_read 64 9 at_start written).0 ≡ ok (ready (take 9 wire)))
    × ((poll_read 64 20 halfway written).0 ≡ ok (ready (drop 9 wire)))
    × (drop 9 wire ≢ [])
    × (poll_read_blocking 64 20 (new_blocking_reader 18 0) upgraded ≡ (
      ok (if nat_beq (word upgraded writer_count_offset) 0 then ready [] else pending),
      new_blocking_reader 18 0,
      upgraded,
    ))
unfolding encode
upgrade-loses_example =
    upgrade-loses 64 9 20 20 18 18 wire at_start (new_blocking_reader 18 0) written written upgraded
      refl (omega arith) written_found refl (omega arith) (omega arith) halfway-upgrade
      (omega (arith, upgraded_words.0)) (omega (arith, upgraded_words.0))
      (omega (arith, upgraded_words.1))
