-- ===== src/Wire/LiveTable.antt =====
-- crates/wire/src/tables.rs: the operations of `LiveTable`. The locks of its handles make an
-- operation one step on the table and the topic, but for what other publishers write to the topic
-- meanwhile, which is an argument. The encoding of messages and the answer of the transport to a
-- write are parameters.
pub mod Replica
pub mod Steps
pub mod Publishing
pub mod Agree
pub mod Versions
pub mod Races
pub mod Exclusion
pub mod Success
use selium.Base.{
  ℕ, ◌+◌, Bool, ◌&&◌, Option, none, some, List, [], ◌∷◌, ◌++◌, nat_beq, if◌then◌else◌, Eq, drop,
}
use selium.Base.Exec.{Result, ok, err, Exec, pure, raise, lift, gets, modify, continue, ◌>>=◌, ◌>>◌}
use selium.Base.Map.{lookup}
use selium.Shm.Error.{Error, buffer_empty, cas_conflict, serialization_failed}
use selium.Wire.Tables.{
  LiveTableMessage, ApplyOutcome, applied, deleted, conflict, Local, version_of, or_zero,
  apply_message_to, get_version,
}
use selium.Wire.Topic.{
  Frame, Publisher, new_publisher, set_writer_id, allocate_mutation_id, read_with_tag,
}

-- What an await finds.
pub data Poll (A : Type 0) : Type 0 where
  ready : A → Poll A
  pending : Poll A

-- A table, the frames it has read, and the topic that it shares.
pub record Shared (K V Payload : Type 0) : Type 0 where
  pub topic : List (Frame Payload)
  pub publisher : Publisher
  pub position : ℕ
  pub local : Local K V

-- The position and the map behind some reads, and what ended them.
abbrev Reads : Type 0 → Type 0 → Type 0 → Type 0
Reads A K V = A × ℕ × Local K V

abbrev pub cas_result : ℕ → ApplyOutcome → Result Error ℕ
cas_result expected (applied version) = ok version
cas_result expected (conflict actual) = err (cas_conflict expected actual)
cas_result expected (deleted version) = ok version

abbrev pub Op : Type 0 → Type 0 → Type 0 → Type 0 → Type 0
Op K V Payload A = Exec (Shared K V Payload) Error A

abbrev pub is_own : {K V : Type 0} → ℕ → ℕ → ℕ → LiveTableMessage K V → Bool
is_own id own tag msg = nat_beq tag own && nat_beq msg.mutation_id id

abbrev pub after :
    {K V Payload A : Type 0} → Shared K V Payload → Reads A K V → A × Shared K V Payload
after s (a, position, local) = (a, record s { position = position; local = local })

abbrev pub now : Poll (Result Error ApplyOutcome) → Result Error ApplyOutcome
now (ready r) = r
now pending = err buffer_empty

module _ {K V Payload : Type 0} ⦃e : Eq K⦄ (decode : Payload → Option (LiveTableMessage K V)) where
  -- The loop of `sync`, over the frames that are not read.
  unfoldable pub drain : List (Frame Payload) → ℕ → Local K V → Reads (Result Error (Unit {0})) K V
  unfolding read_with_tag
  drain [] position local = (ok tt, position, local)
  drain ((payload, tag) ∷ unread) position local = elim (decode payload) [
    | none ↦ (err serialization_failed, position + 1, local)
    | some msg ↦ drain unread (position + 1) (apply_message_to local msg).1
  ]

  -- The loops of `sync_until_own_mutation` and `poll_own_mutation`.
  unfoldable pub drain_until :
      ℕ → ℕ → List (Frame Payload) → ℕ → Local K V → Reads (Poll (Result Error ApplyOutcome)) K V
  drain_until id own [] position local = (pending, position, local)
  drain_until id own ((payload, tag) ∷ unread) position local = elim (decode payload) [
    | none ↦ (ready (err serialization_failed), position + 1, local)
    | some msg ↦
        let (outcome, local') = apply_message_to local msg in
        let rest = drain_until id own unread (position + 1) local' in
        if is_own id own tag msg then (ready (ok outcome), position + 1, local') else rest
  ]

  unfoldable pub sync : Op K V Payload (Unit {0})
  unfolding drain
  sync s = after s (drain (drop s.position s.topic) s.position s.local)

  unfoldable pub poll_own_mutation :
      ℕ → ℕ → Shared K V Payload → Poll (Result Error ApplyOutcome) × Shared K V Payload
  unfolding drain_until
  poll_own_mutation id own s =
      after s (drain_until id own (drop s.position s.topic) s.position s.local)

  -- A frame that does not decode or none ends it with the error of `read_with_tag`.
  unfoldable pub sync_until_own_mutation : ℕ → Op K V Payload ApplyOutcome
  unfolding poll_own_mutation
  sync_until_own_mutation id s =
      let (found, s') = poll_own_mutation id s.publisher.writer_id s in (now found, s')

  -- `LiveTable::new` on a topic
  unfoldable pub new_table :
      List (Frame Payload) → Publisher → Result Error (Unit {0}) × Shared K V Payload
  unfolding sync
  new_table topic publisher =
      sync (record { topic = topic; publisher = publisher; position = 0; local = [] })

  unfoldable pub unread_message :
      List (Frame Payload) → ℕ → Local K V → Reads (Poll (Result Error (Unit {0}))) K V
  unread_message [] position local = (pending, position, local)
  unread_message ((payload, tag) ∷ unread) position local = elim (decode payload) [
    | none ↦ (ready (err serialization_failed), position + 1, local)
    | some msg ↦ (ready (ok tt), position + 1, (apply_message_to local msg).1)
  ]

  -- Both ways in which the source reads a frame here take the next one.
  unfoldable pub poll_next_message :
      Shared K V Payload → Poll (Result Error (Unit {0})) × Shared K V Payload
  unfolding unread_message
  poll_next_message s = after s (unread_message (drop s.position s.topic) s.position s.local)

allocate : {K V Payload : Type 0} → Op K V Payload ℕ
unfolding allocate_mutation_id
allocate s =
    let (id, publisher') = allocate_mutation_id s.publisher in
    (ok id, record s { publisher = publisher' })

-- What other publishers write to the topic.
unfoldable pub overtake : {K V Payload : Type 0} → List (Frame Payload) → Op K V Payload (Unit {0})
overtake frames = modify (λ s. record s { topic = s.topic ++ frames })

module _ {K V Payload : Type 0} ⦃e : Eq K⦄ (encode : LiveTableMessage K V → Payload)
    (decode : Payload → Option (LiveTableMessage K V))
    (write : List (Frame Payload) → Result Error (Unit {0})) where
  -- `Publisher::publish`
  unfoldable pub publish : LiveTableMessage K V → Op K V Payload (Unit {0})
  publish msg = do
    s ← gets (λ s. s)
    lift (write s.topic)
    modify (λ s. record s { topic = s.topic ++ (encode msg, s.publisher.writer_id) ∷ [] })

  unfoldable pub publish_mutation : K → Option V → Option ℕ → Op K V Payload ℕ
  unfolding allocate publish
  publish_mutation key value expected = do
    id ← allocate
    publish (record { mutation_id = id; key = key; value = value; expected_version = expected })
    pure id

  -- `set` and `delete`
  unfoldable pub mutate : K → Option V → Op K V Payload (Unit {0})
  unfolding publish_mutation sync_until_own_mutation
  mutate key value = do
    id ← publish_mutation key value none
    sync_until_own_mutation decode id
    pure tt

  unfoldable pub set : K → V → Op K V Payload (Unit {0})
  unfolding mutate
  set key value = mutate key (some value)

  unfoldable pub delete : K → Op K V Payload (Unit {0})
  unfolding mutate
  delete key = mutate key none

  -- From the lock of the publisher on.
  unfoldable pub attempt : K → ℕ → V → Op K V Payload ℕ
  unfolding publish_mutation sync_until_own_mutation
  attempt key expected value = do
    id ← publish_mutation key (some value) (some expected)
    outcome ← sync_until_own_mutation decode id
    lift (cas_result expected outcome)

  -- The frames are those that others write between the check of the version and the own write.
  unfoldable pub compare_and_set : K → ℕ → V → List (Frame Payload) → Op K V Payload ℕ
  unfolding sync overtake attempt get_version
  compare_and_set key expected value racing = do
    sync decode
    actual ← gets (λ s. get_version key s.local)
    if nat_beq (or_zero actual) expected then pure tt else raise (cas_conflict expected actual)
    overtake racing
    attempt key expected value
