-- ===== src/Wire/Writes.antt =====
-- crates/wire/src/framed.rs: the writes of `FramedWrite`. The buffered writer below it is one of a
-- library: what its `poll_ready` and `poll_flush` answer, and how many of the buffered bytes the
-- transport takes meanwhile, are arguments.
pub mod Once
use selium.Base.{
  ℕ, ◌+◌, ◌-◌, ◌^◌, Bool, true, false, List, [], ◌∷◌, ◌++◌, ltb, if◌then◌else◌, length, take, drop,
}
use selium.Base.Exec.{Result, ok, err}
use selium.Memory.Frame.{flag_ready}
use selium.Shm.Error.{Error, buffer_full, invalid_frame}
use selium.Wire.Framed.{Item, encode}
use selium.Wire.LiveTable.{Poll, ready, pending}

-- What the transport took, what is buffered for it, and `WriteState`.
pub record FramedWrite : Type 0 where
  pub sent : List ℕ
  pub buffered : List ℕ
  pub is_flushing : Bool

-- `poll_ready` and `poll_flush` of one poll. A pending flush may take some bytes.
pub record Answers : Type 0 where
  pub readiness : Poll (Result Error (Unit {0}))
  pub flush : Poll (Result Error (Unit {0}))
  pub taken : ℕ

abbrev flushed : Poll (Result Error (Unit {0})) → ℕ → FramedWrite → FramedWrite
flushed (ready (ok _)) taken w = record {
  sent = w.sent ++ w.buffered;
  buffered = [];
  is_flushing = false;
}
flushed (ready (err e)) taken w = record {
  sent = w.sent ++ take taken w.buffered;
  buffered = drop taken w.buffered;
  is_flushing = false;
}
flushed pending taken w = record {
  sent = w.sent ++ take taken w.buffered;
  buffered = drop taken w.buffered;
  is_flushing = true;
}

abbrev poll_flush : Answers → FramedWrite → Poll (Result Error (Unit {0})) × FramedWrite
poll_flush answers w = (answers.flush, flushed answers.flush answers.taken w)

abbrev start_send : Item → FramedWrite → FramedWrite
start_send item w = record w { buffered = encode item w.buffered }

abbrev when_ready :
    Poll (Result Error (Unit {0}))
    → Answers
    → Item
    → FramedWrite
    → Poll (Result Error (Unit {0})) × FramedWrite
when_ready pending answers item w = (pending, w)
when_ready (ready (err e)) answers item w = (ready (err e), w)
when_ready (ready (ok _)) answers item w = poll_flush answers (start_send item w)

unfoldable pub poll_write_frame_with_flags :
    Item → Answers → FramedWrite → Poll (Result Error (Unit {0})) × FramedWrite
unfolding encode
poll_write_frame_with_flags item answers w =
    if ltb (2 ^ 32 - 1) (length item.payload)
    then (ready (err invalid_frame), w)
    else if w.is_flushing
    then poll_flush answers (record w { is_flushing = false })
    else when_ready answers.readiness answers item w

abbrev or_full : Poll (Result Error (Unit {0})) → Result Error (Unit {0})
or_full (ready r) = r
or_full pending = err buffer_full

-- `write_frame_with_flags` and `write_frame`
unfoldable pub write_frame_with_flags :
    Item → Answers → FramedWrite → Result Error (Unit {0}) × FramedWrite
unfolding poll_write_frame_with_flags
write_frame_with_flags item answers w =
    let (result, w') = poll_write_frame_with_flags item answers w in (or_full result, w')

unfoldable pub write_frame :
    List ℕ → ℕ → Answers → FramedWrite → Result Error (Unit {0}) × FramedWrite
unfolding write_frame_with_flags
write_frame payload tag =
    write_frame_with_flags (record { payload = payload; tag = tag; flags = flag_ready })

abbrev polled_again :
    Poll (Result Error (Unit {0})) × FramedWrite
    → (FramedWrite → Poll (Result Error (Unit {0})) × FramedWrite)
    → Poll (Result Error (Unit {0})) × FramedWrite
polled_again (ready r, w) rest = (ready r, w)
polled_again (pending, w) rest = rest w

-- `write_frame_with_flags_async`: polled until it is ready, over the answers of its polls
unfoldable pub write_frame_async :
    Item → List Answers → FramedWrite → Poll (Result Error (Unit {0})) × FramedWrite
unfolding poll_write_frame_with_flags
write_frame_async item [] w = (pending, w)
write_frame_async item (answers ∷ polls) w =
    polled_again (poll_write_frame_with_flags item answers w) (write_frame_async item polls)
