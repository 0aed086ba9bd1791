-- ===== src/Shm/Readers.antt =====
-- crates/shm/src/channels/reader.rs: the readers of a channel, over the region of its ring. A waker
-- is not modelled: a pending read is one that has registered for the next generation.
pub mod Polls
pub mod Upgrade
pub mod Raw
pub mod Late
mod Tests
use Prim.Native.Nat.{bit_and}
use selium.Base.{
  ℕ, ◌+◌, ◌-◌, min, Bool, true, false, not, Option, none, some, List, [], ◌++◌, ltb, leb, nat_beq,
  checked_add, if◌then◌else◌, length, take, drop,
}
use selium.Base.Exec.{Result, ok, err, pure, raise, ◌>>=◌}
use selium.Memory.Backend.{Backend, read}
use selium.Memory.Frame.{FrameHeader, encoded_size, decode, frame_size, is_ready}
use selium.Shm.Error.{Error, overwritten, Op, from_backend}
use selium.Shm.Layout.{data_offset}
use selium.Shm.Layout.Cursor.{wrapping_sub}
use selium.Shm.Layout.Words.{
  load_generation, load_next_tail, load_writer_count, allocate_reader_slot, update_reader_slot,
  release_reader_slot,
}
use selium.Shm.Layout.Data.{add64}
use selium.Shm.Layout.Frames.{decoded, drain_frames}
use selium.Shm.Channels.{ChannelBackpressure, park}

-- The fields beside the region.
pub record BlockingReader : Type 0 where
  pub pos : ℕ
  pub reader_id : ℕ
  pub terminated : Bool
  pub last_generation : ℕ
  pub pending_frame : List ℕ
  pub pending_offset : ℕ

pub record Reader : Type 0 where
  pub pos : ℕ
  pub backpressure : ChannelBackpressure
  pub terminated : Bool
  pub last_generation : ℕ
  pub pending_frame : List ℕ
  pub pending_offset : ℕ

pub record WeakReader : Type 0 where
  pub pos : ℕ

-- `BlockingReader::new` and `Reader::new`
abbrev pub new_blocking_reader : ℕ → ℕ → BlockingReader
new_blocking_reader start_pos reader_id = record {
  pos = start_pos;
  reader_id = reader_id;
  terminated = false;
  last_generation = 0;
  pending_frame = [];
  pending_offset = 0;
}

abbrev pub new_reader : ℕ → ChannelBackpressure → Reader
new_reader start_pos backpressure = record {
  pos = start_pos;
  backpressure = backpressure;
  terminated = false;
  last_generation = 0;
  pending_frame = [];
  pending_offset = 0;
}

-- `Channel::new_blocking_reader` and `Channel::blocking_reader_at`
unfoldable pub blocking_reader_from : ℕ → Op BlockingReader
blocking_reader_from start_pos =
    allocate_reader_slot start_pos >>= λ reader_id. pure (new_blocking_reader start_pos reader_id)

unfoldable pub blocking_reader : Op BlockingReader
unfolding blocking_reader_from
blocking_reader = load_next_tail >>= blocking_reader_from

abbrev pub unwrap_or_zero : Result Error ℕ → ℕ
unwrap_or_zero (ok n) = n
unwrap_or_zero (err e) = 0

unfoldable pub reader : ChannelBackpressure → Backend → Reader
reader backpressure b = new_reader (unwrap_or_zero ((load_next_tail b).0)) backpressure

abbrev pub weak_reader : WeakReader
weak_reader = record { pos = 0 }

unfoldable pub read_raw : ℕ → ℕ → ℕ → ℕ → Op (List ℕ)
read_raw capacity pos len mask =
    let raw_pos = add64 data_offset (bit_and pos mask) in
    let ring_end = add64 data_offset capacity in
    let tail_len = ring_end - raw_pos in
    let head_len = wrapping_sub len tail_len in
    if nat_beq len 0
    then pure []
    else if ltb capacity len
    then raise Error.invalid_frame
    else if leb (add64 raw_pos len) ring_end
    then from_backend (read raw_pos len)
    else (if ltb 0 tail_len then from_backend (read raw_pos tail_len) else pure []) >>= λ tail.
        (if ltb 0 head_len then from_backend (read data_offset head_len) else pure []) >>= λ head.
        pure (tail ++ head)

unfoldable pub read_header : ℕ → ℕ → ℕ → Op FrameHeader
unfolding read_raw
read_header capacity pos mask =
    read_raw capacity pos encoded_size mask >>= λ bytes. decoded pos (decode bytes)

-- What a reader finds at its position: no data and no writer, nothing yet, a tail that has
-- overtaken it, or the bytes of a frame.
pub data Found : Type 0 where
  eof waiting : Found
  overtaken : ℕ → Found
  frame : List ℕ → ℕ → Found

unfoldable pub find_idle : Op Found
find_idle = load_writer_count >>= λ writers. pure (if nat_beq writers 0 then eof else waiting)

unfoldable pub find_frame : ℕ → ℕ → Op Found
unfolding read_header read_raw
find_frame capacity pos = read_header capacity pos (capacity - 1) >>= λ header.
    if not (is_ready header)
    then pure waiting
    else if ltb capacity (frame_size header)
    then raise Error.invalid_frame
    else read_raw capacity pos (frame_size header) (capacity - 1) >>= λ bytes.
        pure (frame bytes (frame_size header))

unfoldable pub find_blocking : ℕ → BlockingReader → Op Found
unfolding find_idle find_frame
find_blocking capacity r = load_next_tail >>= λ tail.
    if leb tail r.pos
    then find_idle
    else load_generation >>= λ generation.
        if ltb capacity (wrapping_sub generation r.last_generation)
        then raise overwritten
        else find_frame capacity r.pos

unfoldable pub find : ℕ → Reader → Op Found
unfolding find_idle find_frame
find capacity r = load_next_tail >>= λ tail.
    if leb tail r.pos
    then find_idle
    else if ltb (add64 r.pos capacity) tail
    then pure (overtaken tail)
    else find_frame capacity r.pos

-- The bytes copied to the caller; no bytes are the end of the stream.
pub data Poll : Type 0 where
  ready : List ℕ → Poll
  pending : Poll

-- What a caller with room for some bytes gets of a buffered frame, and what stays buffered.
abbrev pub chunk : List ℕ → ℕ → ℕ → List ℕ
chunk bytes offset room = take (min (length bytes - offset) room) (drop offset bytes)

abbrev pub left_behind : List ℕ → ℕ → ℕ → List ℕ × ℕ
left_behind bytes offset room =
    let next = offset + min (length bytes - offset) room in
    if leb (length bytes) next then ([], 0) else (bytes, next)

-- Of a new frame, only one that did not fit is buffered.
abbrev pub kept : List ℕ → ℕ → List ℕ × ℕ → List ℕ × ℕ
kept bytes room before =
    if ltb (min (length bytes) room) (length bytes)
    then (bytes, min (length bytes) room)
    else before

-- `advance`: the position has moved when the store of the slot fails.
abbrev pub move_to :
    BlockingReader → Option ℕ → Backend → Result Error (Unit {0}) × BlockingReader × Backend
move_to r none b = (err Error.invalid_frame, r, b)
move_to r (some p) b =
    let (stored, b') = update_reader_slot r.reader_id p b in (stored, record r { pos = p }, b')

unfoldable pub advance :
    BlockingReader → ℕ → Backend → Result Error (Unit {0}) × BlockingReader × Backend
advance r size b = move_to r (checked_add r.pos size) b

abbrev pub hand_over :
    List ℕ
    → ℕ
    → Result Error (Unit {0}) × BlockingReader × Backend
    → Result Error Poll × BlockingReader × Backend
hand_over bytes room (err e, r, b) = (err e, r, b)
hand_over bytes room (ok u, r, b) =
    let left = kept bytes room (r.pending_frame, r.pending_offset) in
    (
      ok (ready (take (min (length bytes) room) bytes)),
      record r {
        last_generation = unwrap_or_zero ((load_generation b).0);
        pending_frame = left.0;
        pending_offset = left.1;
      },
      b,
    )

-- A blocking reader is never found overtaken.
abbrev pub settle_blocking :
    BlockingReader → ℕ → Result Error Found × Backend → Result Error Poll × BlockingReader × Backend
settle_blocking r room (err e, b) = (err e, r, b)
settle_blocking r room (ok eof, b) = (ok (ready []), r, b)
settle_blocking r room (ok waiting, b) = (ok pending, r, b)
settle_blocking r room (ok (overtaken tail), b) = (err overwritten, r, b)
settle_blocking r room (ok (frame bytes size), b) = hand_over bytes room (advance r size b)

-- `poll_read` of `BlockingReader`
unfoldable pub poll_read_blocking :
    ℕ → ℕ → BlockingReader → Backend → Result Error Poll × BlockingReader × Backend
poll_read_blocking capacity room r b =
    let left = left_behind r.pending_frame r.pending_offset room in
    if ltb r.pending_offset (length r.pending_frame)
    then (
      ok (ready (chunk r.pending_frame r.pending_offset room)),
      record r { pending_frame = left.0; pending_offset = left.1 },
      b,
    )
    else if r.terminated
    then (ok (ready []), r, b)
    else settle_blocking r room (find_blocking capacity r b)

abbrev pub take_frame :
    List ℕ → ℕ → Option ℕ → Reader → Backend → Result Error Poll × Reader × Backend
take_frame bytes room none r b = (err Error.invalid_frame, r, b)
take_frame bytes room (some p) r b =
    let left = kept bytes room (r.pending_frame, r.pending_offset) in
    (
      ok (ready (take (min (length bytes) room) bytes)),
      record r {
        pos = p;
        last_generation = unwrap_or_zero ((load_generation b).0);
        pending_frame = left.0;
        pending_offset = left.1;
      },
      b,
    )

abbrev pub settle : Reader → ℕ → Result Error Found × Backend → Result Error Poll × Reader × Backend
settle r room (err e, b) = (err e, r, b)
settle r room (ok eof, b) = (ok (ready []), r, b)
settle r room (ok waiting, b) = (ok pending, r, b)
settle r room (ok (overtaken tail), b) = (err overwritten, record r { pos = tail }, b)
settle r room (ok (frame bytes size), b) = take_frame bytes room (checked_add r.pos size) r b

-- `poll_read` of `Reader`
unfoldable pub poll_read : ℕ → ℕ → Reader → Backend → Result Error Poll × Reader × Backend
poll_read capacity room r b =
    let left = left_behind r.pending_frame r.pending_offset room in
    if ltb r.pending_offset (length r.pending_frame)
    then (
      ok (ready (chunk r.pending_frame r.pending_offset room)),
      record r { pending_frame = left.0; pending_offset = left.1 },
      b,
    )
    else if r.terminated
    then (ok (ready []), r, b)
    else settle r room (find capacity r b)

-- `BlockingReader::downgrade`: the result of the release is dropped.
unfoldable pub downgrade : BlockingReader → Backend → Reader × Backend
downgrade r b = (
  record {
    pos = r.pos;
    backpressure = park;
    terminated = r.terminated;
    last_generation = r.last_generation;
    pending_frame = r.pending_frame;
    pending_offset = r.pending_offset;
  },
  (release_reader_slot r.reader_id b).1,
)

-- `close`, which `drop` calls
unfoldable pub close : BlockingReader → Backend → BlockingReader × Backend
close r b =
    if not r.terminated
    then (record r { terminated = true }, (release_reader_slot r.reader_id b).1)
    else (r, b)

-- `Reader::upgrade`
unfoldable pub upgrade : Reader → Op BlockingReader
upgrade r = allocate_reader_slot r.pos >>= λ reader_id.
    pure (record (new_blocking_reader r.pos reader_id) { last_generation = r.last_generation })

abbrev pub drained :
    WeakReader
    → Result Error (List (List ℕ) × ℕ) × Backend
    → Result Error (List (List ℕ)) × WeakReader × Backend
drained r (err e, b) = (err e, r, b)
drained r (ok (frames, pos), b) = (ok frames, record r { pos = pos }, b)

unfoldable pub drain :
    ℕ → WeakReader → Backend → Result Error (List (List ℕ)) × WeakReader × Backend
drain capacity r b = drained r (drain_frames r.pos capacity b)
