-- ===== src/Wire/LiveTable/Publishing.antt =====
-- crates/wire/src/tables.rs: the writes of a live table, as steps of a replica of its topic.
use selium.Base.{
  ℕ, Option, none, some, List, [], ◌∷◌, Bool-cases, inl, inr, if◌then◌else◌, Eq, nat_beq,
}
use selium.Base.Exec.{Result, continue, pure, raise, lift, ◌>>=◌, ◌>>◌}
use selium.Shm.Error.{Error, cas_conflict}
use selium.Wire.LiveTable.{
  Shared, Op, sync, sync_until_own_mutation, publish, publish_mutation, overtake, mutate,
  compare_and_set, attempt, allocate, cas_result,
}
use selium.Wire.LiveTable.Steps.{
  IsReplica, IsReplica-grown, continue-IsReplica, sync-IsReplica, own-IsReplica,
}
use selium.Wire.Tables.{ApplyOutcome, LiveTableMessage, get_version, or_zero}
use selium.Wire.Topic.{Frame}

abbrev pub message_of : {K V : Type 0} → K → Option V → Option ℕ → ℕ → LiveTableMessage K V
message_of key value expected id = record {
  mutation_id = id;
  key = key;
  value = value;
  expected_version = expected;
}

-- The same publisher and map, but for the topic and the next id.
allocate-IsReplica :
    {K V Payload : Type 0} ⦃e : Eq K⦄ (decode : Payload → Option (LiveTableMessage K V))
    (s : Shared K V Payload)
    → IsReplica decode s
    → IsReplica decode ((allocate s).1)
unfolding allocate
allocate-IsReplica decode s v = record {
  seen = v.seen;
  unread = v.unread;
  splits = v.splits;
  stands = v.stands;
  projected = v.projected;
}

module _ {K V Payload : Type 0} ⦃e : Eq K⦄ (encode : LiveTableMessage K V → Payload)
    (decode : Payload → Option (LiveTableMessage K V))
    (write : List (Frame Payload) → Result Error (Unit {0})) where
  publish-IsReplica :
      (msg : LiveTableMessage K V) (s : Shared K V Payload)
      → IsReplica decode s
      → IsReplica decode ((publish encode decode write msg s).1)
  unfolding publish
  publish-IsReplica msg s v =
      continue-IsReplica decode (write s.topic, s) _ v
        (λ _ s' v'. IsReplica-grown decode ((encode msg, s'.publisher.writer_id) ∷ []) v')

  publish_mutation-IsReplica :
      (key : K) (value : Option V) (expected : Option ℕ) (s : Shared K V Payload)
      → IsReplica decode s
      → IsReplica decode ((publish_mutation encode decode write key value expected s).1)
  unfolding publish_mutation
  publish_mutation-IsReplica key value expected s v =
      let msg = message_of key value expected in
      let behind : ℕ → Op K V Payload ℕ = λ id. publish encode decode write (msg id) >> pure id in
      continue-IsReplica decode (allocate s) behind (allocate-IsReplica decode s v) (λ id s' v'.
        let last : Unit → Op K V Payload ℕ = λ _. pure id in
        continue-IsReplica decode (publish encode decode write (msg id) s') last
          (publish-IsReplica (msg id) s' v') (λ _ s'' v''. v''))

  pub mutate-IsReplica :
      (key : K) (value : Option V) (s : Shared K V Payload)
      → IsReplica decode s
      → IsReplica decode ((mutate encode decode write key value s).1)
  unfolding mutate
  mutate-IsReplica key value s v =
      let behind : ℕ → Op K V Payload (Unit {0}) =
        λ id. sync_until_own_mutation decode id >> pure tt in
      continue-IsReplica decode (publish_mutation encode decode write key value none s) behind
        (publish_mutation-IsReplica key value none s v)
        (λ id s' v'.
          let last : ApplyOutcome → Op K V Payload (Unit {0}) = λ _. pure tt in
          continue-IsReplica decode (sync_until_own_mutation decode id s') last
            (own-IsReplica decode id s' v') (λ _ s'' v''. v''))

  attempt-IsReplica :
      (key : K) (expected : ℕ) (value : V) (s : Shared K V Payload)
      → IsReplica decode s
      → IsReplica decode ((attempt encode decode write key expected value s).1)
  unfolding attempt
  attempt-IsReplica key expected value s v =
      let last : ApplyOutcome → Op K V Payload ℕ = λ outcome. lift (cas_result expected outcome) in
      let behind : ℕ → Op K V Payload ℕ = λ id. sync_until_own_mutation decode id >>= last in
      continue-IsReplica decode
        (publish_mutation encode decode write key (some value) (some expected) s) behind
        (publish_mutation-IsReplica key (some value) (some expected) s v)
        (λ id s' v'.
          continue-IsReplica decode (sync_until_own_mutation decode id s') last
            (own-IsReplica decode id s' v') (λ _ s'' v''. v''))

  pub compare_and_set-IsReplica :
      (key : K) (expected : ℕ) (value : V) (racing : List (Frame Payload)) (s : Shared K V Payload)
      → IsReplica decode s
      → IsReplica decode ((compare_and_set encode decode write key expected value racing s).1)
  unfolding compare_and_set attempt overtake
  compare_and_set-IsReplica key expected value racing s v =
      let behind : Unit → Op K V Payload ℕ = λ _ s'.
        let actual = get_version key s'.local in
        continue
          ((if nat_beq (or_zero actual) expected
              then pure tt
              else raise (cas_conflict expected actual))
            s')
          (λ _. overtake racing >> attempt encode decode write key expected value) in
      continue-IsReplica decode (sync decode s) behind (sync-IsReplica decode s v) (λ _ s' v'.
        elim (Bool-cases (nat_beq (or_zero (get_version key s'.local)) expected)) [
          | inl same ↦
              rw same (attempt-IsReplica key expected value _ (IsReplica-grown decode racing v'))
          | inr other ↦ rw other v'
        ])
