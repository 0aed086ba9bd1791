-- ===== src/Shm/Layout/Frames.antt =====
-- layout.rs: writing and reading frames, the weak drain and its recovery of a frame boundary.
use Prim.Native.Nat.{bit_and, bit_or}
use selium.Base.{
  ℕ, zero, suc, ◌+◌, ◌-◌, ◌%◌, ◌^◌, Bool, true, false, not, Option, none, some, List, [], ◌∷◌, ltb,
  leb, checked_add, if◌then◌else◌, length,
}
use selium.Base.Exec.{Result, ok, err, ok_or, pure, raise, lift, ◌>>=◌, ◌>>◌}
use selium.Memory.Backend.{MemoryError}
use selium.Memory.Frame.{
  FrameHeader, encoded_size, flag_ready, encode, decode, frame_size, is_ready,
}
use selium.Shm.Error.{Error, torn_frame, Op}
use selium.Shm.Layout.Cursor.{mask_for_capacity}
use selium.Shm.Layout.Words.{load_next_tail, bump_generation}
use selium.Shm.Layout.Reserve.{Round, reserve_tail}
use selium.Shm.Layout.Data.{add64, read_at, write_at}

-- `payload.len() as u32` and the flags with READY set or cleared
unfoldable pub header_of : ℕ → ℕ → ℕ → FrameHeader
header_of len tag flags = record { len = len % 2 ^ 32; tag = tag; flags = flags }

abbrev pub not_ready_flags : ℕ → ℕ
not_ready_flags flags = bit_and flags (255 - flag_ready)

abbrev pub ready_flags : ℕ → ℕ
ready_flags flags = bit_or flags flag_ready

-- The frame at a reserved position: placeholder, payload, ready header, generation.
unfoldable pub commit_frame : List ℕ → ℕ → ℕ → ℕ → ℕ → ℕ → Op (Unit {0})
unfolding header_of
commit_frame payload tag flags capacity mask pos = do
  write_at pos (encode (header_of (length payload) tag (not_ready_flags flags))) mask capacity
  payload_pos ← lift (ok_or (checked_add pos encoded_size) Error.invalid_frame)
  write_at payload_pos payload mask capacity
  write_at pos (encode (header_of (length payload) tag (ready_flags flags))) mask capacity
  bump_generation
  pure tt

-- `none` is a reservation that still spins.
unfoldable pub write_frame :
    List Round → List ℕ → ℕ → ℕ → ℕ → ℕ → Bool → Bool → Op (Option (Unit {0}))
unfolding commit_frame
write_frame rounds payload tag flags capacity mask protect_readers protect_writers =
    if ltb capacity (encoded_size + length payload)
    then raise Error.capacity_exceeded
    else reserve_tail rounds (encoded_size + length payload) capacity protect_readers
        protect_writers
      >>= λ reserved. elim reserved [
        | none ↦ pure none
        | some pos ↦ commit_frame payload tag flags capacity mask pos >>= λ _. pure (some tt)
      ]

-- A checksum mismatch is a torn frame, any other error an invalid one.
abbrev pub decode_error : ℕ → MemoryError → Error
decode_error pos MemoryError.corrupted_header = Error.torn_frame pos
decode_error pos _ = Error.invalid_frame

abbrev pub decoded : ℕ → Result MemoryError FrameHeader → Op FrameHeader
decoded pos (ok header) = pure header
decoded pos (err e) = raise (decode_error pos e)

unfoldable pub read_frame_header : ℕ → ℕ → ℕ → Op FrameHeader
read_frame_header pos mask capacity =
    read_at pos encoded_size mask capacity >>= λ bytes. decoded pos (decode bytes)

unfoldable pub read_frame : ℕ → ℕ → ℕ → Op (Option (FrameHeader × List ℕ))
read_frame pos mask capacity = read_at pos encoded_size mask capacity >>= λ bytes.
    decoded pos (decode bytes) >>= λ header.
    if not (is_ready header)
    then pure none
    else if ltb capacity (frame_size header)
    then raise Error.invalid_frame
    else lift (ok_or (checked_add pos encoded_size) Error.invalid_frame) >>= λ payload_pos.
        read_at payload_pos header.len mask capacity >>= λ payload. pure (some (header, payload))

-- A probe of `resync_frame_boundary` at one position.
abbrev fits : ℕ → Result MemoryError FrameHeader → Bool
fits capacity (ok header) = leb (frame_size header) capacity
fits capacity (err e) = false

-- The scan of the `count` positions from `pos` on.
unfoldable pub resync_scan : ℕ → ℕ → ℕ → ℕ → Op (Option ℕ)
resync_scan zero pos mask capacity = pure none
resync_scan (suc count) pos mask capacity = read_at pos encoded_size mask capacity >>= λ bytes.
    elim (fits capacity (decode bytes)) [
      | true ↦ pure (some pos)
      | false ↦ resync_scan count (add64 pos 1) mask capacity
    ]

-- The positions above `start` and below `end`; `start` is below `end` where it is called.
unfoldable pub resync_frame_boundary : ℕ → ℕ → ℕ → ℕ → Op (Option ℕ)
unfolding resync_scan
resync_frame_boundary start end mask capacity =
    resync_scan (end - (start + 1)) (add64 start 1) mask capacity

-- What one round of the drain does: deliver a frame and go on, jump to a boundary, or stop.
pub data Step : Type 0 where
  deliver : List ℕ → ℕ → Step
  jump : ℕ → Step
  stop : Step

abbrev jump_to : ℕ → Option ℕ → Step
jump_to read_pos none = stop
jump_to read_pos (some boundary) = if ltb read_pos boundary then jump boundary else stop

delivered : ℕ → Option (FrameHeader × List ℕ) → Op Step
delivered read_pos none = pure stop
delivered read_pos (some (header, payload)) =
    lift (ok_or (checked_add read_pos (frame_size header)) Error.invalid_frame) >>= λ next.
    pure (deliver payload next)

recovered : ℕ → ℕ → ℕ → ℕ → Result Error (Option (FrameHeader × List ℕ)) → Op Step
recovered read_pos next_tail mask capacity (ok frame) = delivered read_pos frame
recovered read_pos next_tail mask capacity (err (torn_frame position)) =
    resync_frame_boundary read_pos next_tail mask capacity >>= λ boundary.
    pure (jump_to read_pos boundary)
recovered read_pos next_tail mask capacity (err e) = raise e

unfoldable pub drain_step : ℕ → ℕ → ℕ → ℕ → Op Step
unfolding delivered recovered
drain_step read_pos next_tail mask capacity b =
    let (r, b') = read_frame read_pos mask capacity b in
    recovered read_pos next_tail mask capacity r b'

-- The loop of the drain on fuel; every round but the last moves the position towards the tail.
unfoldable pub drain_loop : ℕ → ℕ → ℕ → ℕ → ℕ → Op (List (List ℕ) × ℕ)
drain_loop zero read_pos next_tail mask capacity = pure ([], read_pos)
drain_loop (suc fuel) read_pos next_tail mask capacity = elim (ltb read_pos next_tail) [
  | false ↦ pure ([], read_pos)
  | true ↦ drain_step read_pos next_tail mask capacity >>= λ step. elim step [
    | stop ↦ pure ([], read_pos)
    | jump boundary ↦ drain_loop fuel boundary next_tail mask capacity
    | deliver payload next ↦
        drain_loop fuel next next_tail mask capacity >>= λ rest. pure (payload ∷ rest.0, rest.1)
  ]
]

-- `next_tail - read_pos` rounds are enough.
unfoldable pub drain_frames : ℕ → ℕ → Op (List (List ℕ) × ℕ)
unfolding drain_loop
drain_frames read_pos capacity = lift (mask_for_capacity capacity) >>= λ mask.
    load_next_tail >>= λ next_tail.
    let start =
      if ltb (add64 read_pos capacity) next_tail then next_tail - capacity else read_pos in
    drain_loop (next_tail - start) start next_tail mask capacity
