-- ===== src/Shm/Channels.antt =====
-- crates/shm/src/channels: the writers of a channel, over the region of its ring. A waker is
-- not modelled: a pending write is one that has registered for the next generation.
pub mod Stall
use Prim.Native.Nat.{bit_and, bit_or}
use selium.Base.{
  ℕ, zero, suc, ◌+◌, ◌-◌, ◌%◌, ◌^◌, min, Bool, true, false, Option, none, some, List, [], ◌∷◌, ltb,
  nat_beq, checked_add, u64_max, if◌then◌else◌, length, take, drop,
}
use selium.Base.Exec.{Result, ok, err, ok_or, Exec, pure, raise, lift, ◌>>=◌, ◌>>◌}
use selium.Memory.Backend.{Backend, write}
use selium.Memory.Frame.{FrameHeader, encoded_size, flag_ready, encode, decode}
use selium.Shm.Error.{Error, buffer_full, Op, from_backend}
use selium.Shm.Layout.{data_offset, max_writer_slots}
use selium.Shm.Layout.Cursor.{wrapping_sub}
use selium.Shm.Layout.Words.{
  increment_writer_count, decrement_writer_count, allocate_writer_id, allocate_writer_slot,
  update_writer_slot, release_writer_slot, bump_generation, load_generation,
}
use selium.Shm.Layout.Reserve.{Round, reserve_tail}
use selium.Shm.Layout.Data.{add64}

pub data ChannelBackpressure : Type 0 where
  park drop_frames : ChannelBackpressure

unfoldable pub to_u8 : ChannelBackpressure → ℕ
to_u8 park = 0
to_u8 drop_frames = 1

unfoldable pub from_u8 : ℕ → ChannelBackpressure
from_u8 value = if nat_beq value 1 then drop_frames else park

-- The fields of the writers beside the region.
pub record Writer : Type 0 where
  pub writer_id : ℕ
  pub backpressure : ChannelBackpressure

pub record BlockingWriter : Type 0 where
  pub writer_id : ℕ
  pub writer_slot : ℕ
  pub backpressure : ChannelBackpressure
  pub closed : Bool

-- On an error the writer count is taken back, and the error of that is dropped.
abbrev pub uncounted : {A : Type 0} → Result Error A × Backend → Result Error A × Backend
uncounted (ok a, b) = (ok a, b)
uncounted (err e, b) = (err e, (decrement_writer_count b).1)

unfoldable pub or_uncount : {A : Type 0} → Op A → Op A
or_uncount m b = uncounted (m b)

-- `BlockingWriter::new`
unfoldable pub blocking_writer : ChannelBackpressure → Op BlockingWriter
unfolding or_uncount
blocking_writer backpressure = do
  increment_writer_count
  writer_id ← or_uncount allocate_writer_id
  writer_slot ← or_uncount (allocate_writer_slot 0)
  pure (record {
    writer_id = writer_id;
    writer_slot = writer_slot;
    backpressure = backpressure;
    closed = false;
  })

-- `Writer::upgrade`
unfoldable pub upgrade : Writer → Op BlockingWriter
unfolding or_uncount
upgrade w = do
  increment_writer_count
  writer_slot ← or_uncount (allocate_writer_slot 0)
  pure (record {
    writer_id = w.writer_id;
    writer_slot = writer_slot;
    backpressure = w.backpressure;
    closed = false;
  })

-- The results of the three steps are dropped.
unfoldable pub release_writer_registration : BlockingWriter → Backend → Backend
release_writer_registration w b =
    (bump_generation (release_writer_slot w.writer_slot (decrement_writer_count b).1).1).1

-- `Drop for BlockingWriter`
unfoldable pub close : BlockingWriter → Backend → BlockingWriter × Backend
unfolding release_writer_registration
close w b =
    if w.closed then (w, b) else (record w { closed = true }, release_writer_registration w b)

-- `BlockingWriter::downgrade`
unfoldable pub downgrade : BlockingWriter → Backend → Writer × Backend
unfolding release_writer_registration
downgrade w b = (
  record { writer_id = w.writer_id; backpressure = w.backpressure },
  release_writer_registration w b,
)

write_some : ℕ → List ℕ → Op (Unit {0})
write_some offset bytes =
    if ltb 0 (length bytes) then from_backend (write offset bytes) else pure tt

unfoldable pub write_raw : ℕ → ℕ → List ℕ → ℕ → Op (Unit {0})
unfolding write_some
write_raw capacity pos bytes mask =
    let raw_start = bit_and pos mask in
    let tail = min (length bytes) (wrapping_sub capacity raw_start) in
    if ltb capacity (length bytes)
    then raise Error.buffer_full
    else write_some (add64 data_offset raw_start) (take tail bytes) >>= λ _.
        write_some data_offset (drop tail bytes)

-- The bytes are an encoded frame: its header is taken apart and committed with READY set.
unfoldable pub write_frame_bytes : ℕ → ℕ → List ℕ → Op (Unit {0})
unfolding write_raw
write_frame_bytes capacity pos buf = elim (decode (take encoded_size buf)) [
  | err e ↦ raise Error.invalid_frame
  | ok header ↦ do
    write_raw capacity pos
        (encode (record header { flags = bit_and header.flags (255 - flag_ready) })) (capacity - 1)
    payload_pos ← lift (ok_or (checked_add pos encoded_size) Error.invalid_frame)
    write_raw capacity payload_pos (drop encoded_size buf) (capacity - 1)
    write_raw capacity pos (encode (record header { flags = bit_or header.flags flag_ready }))
        (capacity - 1)
    bump_generation
    pure tt
]

-- `spinning`: the reservation still goes round when its schedule ends.
pub data Poll : Type 0 where
  ready : ℕ → Poll
  pending spinning : Poll

-- A full ring drops the frame on a Drop channel, and parks the writer on a Park channel.
unfoldable pub when_full : ChannelBackpressure → ℕ → Poll
when_full drop_frames len = ready len
when_full park len = pending

-- What follows the reservation of `len` bytes.
unfoldable pub settle :
    ChannelBackpressure
    → ℕ
    → (ℕ → Op (Unit {0}))
    → Result Error (Option ℕ) × Backend
    → Result Error Poll × Backend
unfolding when_full
settle backpressure len commit (ok none, b) = (ok spinning, b)
settle backpressure len commit (ok (some pos), b) = (commit pos >>= λ _. pure (ready len)) b
settle backpressure len commit (err buffer_full, b) = (ok (when_full backpressure len), b)
settle backpressure len commit (err e, b) = (err e, b)

-- `poll_write` of `Writer`
unfoldable pub poll_write : List Round → ℕ → Writer → List ℕ → Op Poll
unfolding settle write_frame_bytes
poll_write rounds capacity w buf b =
    if nat_beq (length buf) 0
    then (ok (ready 0), b)
    else if ltb capacity (length buf)
    then (err Error.buffer_full, b)
    else settle w.backpressure (length buf) (λ pos. write_frame_bytes capacity pos buf)
        (reserve_tail rounds (length buf) capacity true true b)

-- `poll_write` of `BlockingWriter` moves its slot to the reserved position first.
unfoldable pub poll_write_blocking : List Round → ℕ → BlockingWriter → List ℕ → Op Poll
unfolding settle write_frame_bytes
poll_write_blocking rounds capacity w buf b =
    if nat_beq (length buf) 0
    then (ok (ready 0), b)
    else if ltb capacity (length buf)
    then (err Error.buffer_full, b)
    else settle w.backpressure (length buf)
        (λ pos. update_writer_slot w.writer_slot pos >>= λ _. write_frame_bytes capacity pos buf)
        (reserve_tail rounds (length buf) capacity true true b)
