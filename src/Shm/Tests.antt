-- ===== src/Shm/Tests.antt =====
-- The theorems about the ring at small rings of 64 bytes.
use selium.Base.{
  ℕ, suc, ◌+◌, ◌*◌, ◌≤◌, ◌<◌, ◌^◌, ◌≡◌, refl, true, false, some, List, [], ◌∷◌, arith,
}
use selium.Base.Exec.{ok}
use selium.Memory.Backend.{Backend, word, set_word, atomic_load_u64, compare_exchange_u64}
use selium.Shm.Layout.{
  next_tail_offset, reader_slots_offset, data_offset, writer_slot_counter_offset,
  next_writer_id_offset,
}
use selium.Shm.Layout.Reserve.{
  Round, quiet, reserve_tail_next, reserve_tail, reserve_loop, reserve_round, load_positions,
  exchange_tail,
}
use selium.Shm.Layout.Slots.{fold_slots}
use selium.Shm.Layout.Words.{load_next_tail, cas_next_tail}
use selium.Shm.Layout.Window.{IsRing, ring_byte}
use selium.Shm.Layout.Frames.{header_of, ready_flags, write_frame, read_frame}
use selium.Shm.Layout.Alone.{weak, next_of}
use selium.Shm.Layout.Spurious.{reserve_tail-twice}
use selium.Shm.Layout.Exchange.{Granted, reserve_tail-Granted}
use selium.Shm.Layout.Backpressure.{write_frame-keeps_unread, write_frame-read_frame}
use selium.Shm.Channels.{
  Writer, BlockingWriter, park, drop_frames, blocking_writer, poll_write, poll_write_blocking,
  when_full,
}
use selium.Shm.Channels.Stall.{blocking_writer-stalls}

abbrev fresh : Backend
fresh = record { size = 8192; bytes = λ i. 0 }

fresh-IsRing : IsRing fresh 64 6
fresh-IsRing = record { power = refl; room = omega arith; small = omega arith }

abbrev hello : List ℕ
hello = 104 ∷ 101 ∷ 108 ∷ 108 ∷ 111 ∷ []

fresh_room : next_of 21 64 true true fresh ≡ ok 21
unfolding reserve_tail_next fold_slots word
fresh_room = refl

write_frame-read_frame_example :
    (b' : Backend) × (write_frame (quiet ∷ []) hello 42 0 64 63 true true fresh
      ≡ (ok (some tt), b'))
    × (read_frame (word fresh next_tail_offset) 63 64 b'
        ≡ (ok (some (header_of 5 42 (ready_flags 0), hello)), b'))
    × (word b' next_tail_offset ≡ word fresh next_tail_offset + 21)
write_frame-read_frame_example =
    write_frame-read_frame [] hello 42 0 64 6 true true fresh fresh-IsRing fresh_room (omega arith)
      (omega arith) (omega arith)

-- A reader at position 0 that has not read the 21 bytes before the tail.
abbrev behind : Backend
behind = set_word (set_word fresh next_tail_offset 21) reader_slots_offset 1

behind-IsRing : IsRing behind 64 6
unfolding set_word
behind-IsRing = record { power = refl; room = omega arith; small = omega arith }

behind_slot : word behind (reader_slots_offset + 0 * 8) ≡ suc 0
unfolding set_word word
behind_slot = refl

behind_tail : word behind next_tail_offset ≡ 21
unfolding set_word word
behind_tail = refl

behind_room : next_of 21 64 true false behind ≡ ok 42
unfolding reserve_tail_next fold_slots word set_word
behind_room = refl

write_frame-keeps_unread_example :
    (b' : Backend) × (write_frame (quiet ∷ []) hello 7 0 64 63 true false behind
      ≡ (ok (some tt), b'))
    × (ring_byte b'.bytes 64 20 ≡ ring_byte behind.bytes 64 20)
write_frame-keeps_unread_example =
    write_frame-keeps_unread [] hello 7 0 64 6 false behind behind-IsRing 42 0 0 20 behind_room
      (omega arith) behind_slot (omega arith) (omega (arith, behind_tail))

reserve_tail-twice_example :
    (b' : Backend) × (reserve_tail (weak ∷ []) 21 64 true true fresh
      ≡ (ok (some (word fresh next_tail_offset)), b'))
    × ((reserve_tail (quiet ∷ []) 21 64 true true b').0 ≡ ok (some (word fresh next_tail_offset)))
reserve_tail-twice_example =
    reserve_tail-twice [] [] 21 64 6 true true fresh 21 fresh-IsRing fresh_room

-- A first round that loses against another writer, and a second one that wins.
abbrev contended : List Round
contended = record quiet { before_exchange = λ b. set_word b next_tail_offset 32 } ∷ quiet ∷ []

abbrev contended_end : Backend
contended_end = set_word (set_word fresh next_tail_offset 32) next_tail_offset 48

contended_run : reserve_tail contended 16 64 false false fresh ≡ (ok (some 32), contended_end)
unfolding reserve_tail reserve_loop reserve_round load_positions exchange_tail load_next_tail
    cas_next_tail atomic_load_u64 compare_exchange_u64 reserve_tail_next word set_word
contended_run = refl

reserve_tail-Granted_example : Granted 16 64 false false contended 32 fresh contended_end
reserve_tail-Granted_example =
    reserve_tail-Granted 16 64 false false contended fresh contended_end 32 (refl, (refl, tt))
      contended_run

-- A ring whose tail has reached its capacity.
abbrev full : Backend
full = set_word fresh next_tail_offset 64

full-IsRing : IsRing full 64 6
unfolding set_word
full-IsRing = record { power = refl; room = omega arith; small = omega arith }

full_words :
    (word full next_tail_offset ≡ 64)
    × (word full next_writer_id_offset ≡ 0)
    × (word full writer_slot_counter_offset ≡ 0)
unfolding set_word word
full_words = (refl, refl, refl)

abbrev plain_writer : Writer
plain_writer = record { writer_id = 3; backpressure = park }

blocking_writer-stalls_example :
    (v : BlockingWriter) × (b' : Backend) × (blocking_writer drop_frames full ≡ (ok v, b'))
    × (poll_write (quiet ∷ []) 64 plain_writer hello b' ≡ (ok (when_full park 5), b'))
    × (poll_write_blocking (quiet ∷ []) 64 v hello b' ≡ (ok (when_full v.backpressure 5), b'))
blocking_writer-stalls_example =
    blocking_writer-stalls 64 6 drop_frames full full-IsRing (omega (arith, full_words))
      (omega (arith, full_words)) [] hello plain_writer (omega (arith, full_words)) (omega arith)
      (omega arith) (omega (arith, full_words))

-- With 21 unread bytes, 44 more do not fit the 64 bytes.
behind_header : data_offset ≤ behind.size
unfolding set_word
behind_header = omega arith

behind_small : behind.size < 2 ^ 63
unfolding set_word
behind_small = omega arith
