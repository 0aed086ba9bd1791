-- ===== src/Wire/Subscriber.antt =====
-- crates/wire/src/pubsub.rs: `Subscriber` as a stream, on a ring. A poll sees the frames that are not
-- read and the generation of the ring; the registration for the next generation is a pending result.
pub mod Overwritten
use selium.Base.{
  ℕ, ◌+◌, ◌-◌, ◌%◌, ◌^◌, Bool, not, false, ◌&&◌, Option, none, some, List, [], ◌∷◌, ltb, nat_beq,
  if◌then◌else◌,
}
use selium.Base.Exec.{Result, ok, err}
use selium.Shm.Error.{Error, serialization_failed, overwritten}
use selium.Wire.LiveTable.{Poll, ready, pending}
use selium.Wire.Topic.{Frame}

pub record Subscriber (Payload : Type 0) : Type 0 where
  pub unread : List (Frame Payload)
  pub capacity : Option ℕ
  pub last_generation : ℕ

-- `Subscriber::new`, on the frames that stand in the ring and its generation
abbrev pub new_subscriber :
    {Payload : Type 0} → List (Frame Payload) → Option ℕ → ℕ → Subscriber Payload
new_subscriber unread capacity generation = record {
  unread = unread;
  capacity = capacity;
  last_generation = generation;
}

-- Whether the generation has advanced by more than the capacity since the last read.
unfoldable pub is_overwritten : Option ℕ → ℕ → ℕ → Bool
is_overwritten none current last = false
is_overwritten (some capacity) current last =
    not (nat_beq current 0)
    && (not (nat_beq last 0) && ltb capacity ((current + 2 ^ 64 - last) % 2 ^ 64))

abbrev item_of : {T : Type 0} → Option T → Result Error T
item_of none = err serialization_failed
item_of (some value) = ok value

module _ {Payload T : Type 0} (decode : Payload → Option T) where
  abbrev next_frame :
      ℕ → List (Frame Payload) → Subscriber Payload → Poll (Result Error T) × Subscriber Payload
  next_frame generation [] s = (pending, s)
  next_frame generation ((payload, tag) ∷ unread) s =
      if is_overwritten s.capacity generation s.last_generation
      then (ready (err overwritten), s)
      else (
        ready (item_of (decode payload)),
        record s { unread = unread; last_generation = generation },
      )

  unfoldable pub poll_next : ℕ → Subscriber Payload → Poll (Result Error T) × Subscriber Payload
  poll_next generation s = next_frame generation s.unread s

  -- Polls at some generations: what they find, and the subscriber behind them.
  unfoldable pub poll_all :
      List ℕ → Subscriber Payload → List (Poll (Result Error T)) × Subscriber Payload
  unfolding poll_next
  poll_all [] s = ([], s)
  poll_all (generation ∷ generations) s =
      let (found, s') = poll_next generation s in
      let (more, s'') = poll_all generations s' in (found ∷ more, s'')
