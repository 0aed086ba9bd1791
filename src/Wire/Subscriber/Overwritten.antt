-- ===== src/Wire/Subscriber/Overwritten.antt =====
-- crates/wire/src/pubsub.rs: a subscriber that has fallen behind.
use selium.Base.{
  ℕ, ◌+◌, ◌-◌, ◌%◌, ◌^◌, ◌<◌, ◌≤◌, true, false, Option, some, List, [], ◌∷◌, ◌≡◌, refl, ap, arith,
  nat_beq, lt→ltb,
}
use selium.Base.Exec.{Result, err}
use selium.Shm.Error.{Error, overwritten}
use selium.Wire.LiveTable.{Poll, ready}
use selium.Wire.Subscriber.{Subscriber, is_overwritten, poll_all}
use selium.Wire.Topic.{Frame}

-- Generations, none below the one before.
abbrev pub Rises : ℕ → List ℕ → Type 0
Rises from [] = Unit
Rises from (generation ∷ generations) =
    (from ≤ generation) × (generation < 2 ^ 64) × Rises generation generations

abbrev pub all_overwritten : {T : Type 0} → List ℕ → List (Poll (Result Error T))
all_overwritten [] = []
all_overwritten (generation ∷ generations) = ready (err overwritten) ∷ all_overwritten generations

is_overwritten-late :
    (capacity last current : ℕ)
    → 0 < last
    → last + capacity < current
    → current < 2 ^ 64
    → is_overwritten (some capacity) current last ≡ true
unfolding is_overwritten
is_overwritten-late capacity last current some_read late small =
    let moved : (current + 2 ^ 64 - last) % 2 ^ 64 ≡ current - last = omega arith in
    let nonzero : nat_beq current 0 ≡ false = ground arith in
    let read : nat_beq last 0 ≡ false = ground arith in
    rw (nonzero, read, moved) (lt→ltb capacity (current - last) (omega arith))

-- A subscriber with an unread frame that is more generations behind than its capacity reports
-- Overwritten on every further poll, at whatever generations the ring then has, and neither reads
-- the frame nor moves its last generation. It has read before, and the generations do not wrap.
pub poll_all-stuck :
    {Payload T : Type 0} (decode : Payload → Option T) (frame : Frame Payload)
    (unread : List (Frame Payload)) (capacity last from : ℕ) (generations : List ℕ)
    → 0 < last
    → last + capacity < from
    → Rises from generations
    → poll_all decode generations
        (record { unread = frame ∷ unread; capacity = some capacity; last_generation = last })
      ≡ (
        all_overwritten generations,
        record { unread = frame ∷ unread; capacity = some capacity; last_generation = last },
      )
unfolding poll_all
poll_all-stuck decode frame unread capacity last from [] some_read late rises = refl
poll_all-stuck decode (payload, tag) unread capacity last from (generation ∷ generations) some_read
      late rises =
    let (above, small, more) = rises in
    let behind : last + capacity < generation = omega (arith, above, late) in
    rw (is_overwritten-late capacity last generation some_read behind small) (
      ap (λ (r : List (Poll (Result Error _)) × Subscriber _). (ready (err overwritten) ∷ r.0, r.1))
        (poll_all-stuck decode (payload, tag) unread capacity last generation generations some_read
          behind more))
