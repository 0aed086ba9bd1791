-- ===== src/Wire/LiveTable/Agree.antt =====
-- crates/wire/src/tables.rs: several live tables on one topic, in any order of their operations.
use selium.Base.{
  ℕ, ◌+◌, Option, none, some, List, [], ◌∷◌, ◌≡◌, refl, sym, ap, ◌∙◌, Option-cases, inl, inr, Eq,
  drop,
}
use selium.Base.Exec.{Result, ok}
use selium.Shm.Error.{Error}
use selium.Wire.LiveTable.{
  Shared, drain, sync, poll_own_mutation, overtake, set, delete, compare_and_set, new_table,
  poll_next_message,
}
use selium.Wire.LiveTable.Publishing.{mutate-IsReplica, compare_and_set-IsReplica}
use selium.Wire.LiveTable.Replica.{replay_from}
use selium.Wire.LiveTable.Steps.{
  IsReplica, IsReplica-grown, sync-IsReplica, poll_own_mutation-IsReplica,
  poll_next_message-IsReplica, unread_of, replay_from-unread,
}
use selium.Wire.Tables.{LiveTableMessage, Local, apply_message_to}
use selium.Wire.Topic.{Frame, Publisher}

-- What befalls a table: an operation of its own, or frames that others write to the topic.
pub data Action (K V Payload : Type 0) : Type 0 where
  syncs polls : Action K V Payload
  awaits : ℕ → ℕ → Action K V Payload
  sets : K → V → Action K V Payload
  deletes : K → Action K V Payload
  compares : K → ℕ → V → List (Frame Payload) → Action K V Payload
  others : List (Frame Payload) → Action K V Payload

module _ {K V Payload : Type 0} ⦃e : Eq K⦄ (encode : LiveTableMessage K V → Payload)
    (decode : Payload → Option (LiveTableMessage K V))
    (write : List (Frame Payload) → Result Error (Unit {0})) where
  act : Action K V Payload → Shared K V Payload → Shared K V Payload
  act syncs s = (sync decode s).1
  act polls s = (poll_next_message decode s).1
  act (awaits id own) s = (poll_own_mutation decode id own s).1
  act (sets key value) s = (set encode decode write key value s).1
  act (deletes key) s = (delete encode decode write key s).1
  act (compares key expected value racing) s =
      (compare_and_set encode decode write key expected value racing s).1
  act (others frames) s = (overtake frames s).1

  unfoldable pub run : List (Action K V Payload) → Shared K V Payload → Shared K V Payload
  unfolding act
  run [] s = s
  run (action ∷ actions) s = run actions (act action s)

  act-IsReplica :
      (action : Action K V Payload) (s : Shared K V Payload)
      → IsReplica decode s
      → IsReplica decode (act action s)
  unfolding act set delete overtake
  act-IsReplica syncs s v = sync-IsReplica decode s v
  act-IsReplica polls s v = poll_next_message-IsReplica decode s v
  act-IsReplica (awaits id own) s v = poll_own_mutation-IsReplica decode id own s v
  act-IsReplica (sets key value) s v = mutate-IsReplica encode decode write key (some value) s v
  act-IsReplica (deletes key) s v = mutate-IsReplica encode decode write key none s v
  act-IsReplica (compares key expected value racing) s v =
      compare_and_set-IsReplica encode decode write key expected value racing s v
  act-IsReplica (others frames) s v = IsReplica-grown decode frames v

  run-IsReplica :
      (actions : List (Action K V Payload)) (s : Shared K V Payload)
      → IsReplica decode s
      → IsReplica decode (run actions s)
  unfolding run
  run-IsReplica [] s v = v
  run-IsReplica (action ∷ actions) s v =
      run-IsReplica actions (act action s) (act-IsReplica action s v)

  -- A drain that ends well took every frame.
  drain_whole :
      (unread : List (Frame Payload)) (position : ℕ) (local : Local K V)
      → (drain decode unread position local).0 ≡ ok tt
      → (drain decode unread position local).2 ≡ replay_from decode local unread
  unfolding drain replay_from
  drain_whole [] position local h = refl
  drain_whole ((payload, tag) ∷ unread) position local h = elim (Option-cases (decode payload)) [
    | inl garbled ↦ let refused = rw (drain, garbled) at h in cc
    | inr (msg, read) ↦
        rw (drain, replay_from, read)
          (drain_whole unread (position + 1) (apply_message_to local msg).1 (rw (drain, read) at h))
  ]

  start-IsReplica :
      (topic : List (Frame Payload)) (publisher : Publisher)
      → IsReplica decode ((new_table decode topic publisher).1)
  unfolding new_table replay_from
  start-IsReplica topic publisher =
      sync-IsReplica decode _
        (record { seen = []; unread = topic; splits = refl; stands = refl; projected = refl })

  sync-replay_from :
      (s : Shared K V Payload)
      → IsReplica decode s
      → (sync decode s).0 ≡ ok tt
      → ((sync decode s).1).local ≡ replay_from decode [] s.topic
  unfolding sync
  sync-replay_from s v h =
      drain_whole (drop s.position s.topic) s.position s.local h
      ∙ ap (λ l. replay_from decode s.local l) (unread_of decode v)
      ∙ replay_from-unread decode v

  -- A table opened on some frames of a topic, after some actions.
  abbrev pub reached :
      List (Frame Payload) → Publisher → List (Action K V Payload) → Shared K V Payload
  reached opened publisher actions = run actions ((new_table decode opened publisher).1)

  reached-IsReplica :
      (opened : List (Frame Payload)) (publisher : Publisher) (actions : List (Action K V Payload))
      → IsReplica decode (reached opened publisher actions)
  reached-IsReplica opened publisher actions =
      run-IsReplica actions _ (start-IsReplica opened publisher)

  -- After any operations of two tables that were opened on a topic, and any frames that others wrote
  -- meanwhile, a sync of each that succeeds leaves both with one map, if they share the topic in the
  -- end: the map that a replay of the whole topic makes.
  pub sync-agree :
      (opened opened' : List (Frame Payload)) (publisher publisher' : Publisher)
      (actions actions' : List (Action K V Payload))
      → (reached opened publisher actions).topic ≡ (reached opened' publisher' actions').topic
      → (sync decode (reached opened publisher actions)).0 ≡ ok tt
      → (sync decode (reached opened' publisher' actions')).0 ≡ ok tt
      → (((sync decode (reached opened publisher actions)).1).local
          ≡ replay_from decode [] (reached opened publisher actions).topic)
        × (((sync decode (reached opened' publisher' actions')).1).local
            ≡ ((sync decode (reached opened publisher actions)).1).local)
  sync-agree opened opened' publisher publisher' actions actions' shared h k =
      let first = sync-replay_from _ (reached-IsReplica opened publisher actions) h in
      let second = sync-replay_from _ (reached-IsReplica opened' publisher' actions') k in
      (first, second ∙ ap (replay_from decode []) (sym shared) ∙ sym first)
