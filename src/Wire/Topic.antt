-- ===== src/Wire/Topic.antt =====
-- crates/wire/src/pubsub.rs: publishers and subscribers of a topic. The transport behind them keeps
-- every frame it took, in order, and each subscriber has a position among them. The encoding of a
-- message and the answer of the transport to a write are parameters.
use selium.Base.{ℕ, ◌+◌, ◌%◌, ◌^◌, Option, none, some, List, [], ◌∷◌}
use selium.Base.Exec.{Result, ok, err}
use selium.Shm.Error.{Error, buffer_empty, serialization_failed}

-- A payload and the tag of its frame, which is the writer id of its publisher.
abbrev pub Frame : Type 0 → Type 0
Frame Payload = Payload × ℕ

pub record Publisher : Type 0 where
  pub writer_id : ℕ
  pub next_mutation_id : ℕ

-- `Publisher::new`
abbrev pub new_publisher : Publisher
new_publisher = record { writer_id = 0; next_mutation_id = 1 }

-- `set_writer_id`
unfoldable pub set_writer_id : ℕ → Publisher → Publisher
set_writer_id id publisher = record publisher { writer_id = id }

unfoldable pub allocate_mutation_id : Publisher → ℕ × Publisher
allocate_mutation_id publisher = (
  publisher.next_mutation_id,
  record publisher { next_mutation_id = (publisher.next_mutation_id + 1) % 2 ^ 64 },
)

module _ {Payload T : Type 0} (decode : Payload → Option T) where
  abbrev pub tagged : ℕ → Option T → Result Error (T × ℕ)
  tagged tag none = err serialization_failed
  tagged tag (some value) = ok (value, tag)

  -- `read_with_tag`, on the frames that the subscriber has not read.
  unfoldable pub read_with_tag : List (Frame Payload) → Result Error (T × ℕ)
  read_with_tag [] = err buffer_empty
  read_with_tag ((payload, tag) ∷ unread) = tagged tag (decode payload)
