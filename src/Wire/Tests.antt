-- ===== src/Wire/Tests.antt =====
-- crates/wire: the patterns on concrete topics.
use selium.Base.{
  ℕ, Option, none, some, List, [], ◌∷◌, ◌++◌, ◌≡◌, ◌≢◌, refl, arith, nat_eq, saturating_add,
}
use selium.Base.Exec.{Result, ok}
use selium.Shm.Error.{Error}
use selium.Wire.LiveTable.{Shared, sync, compare_and_set, new_table, set}
use selium.Wire.LiveTable.Agree.{Action, syncs, sets, compares, others, reached, run, sync-agree}
use selium.Wire.LiveTable.Exclusion.{compare_and_set-applied, compare_and_set-excludes}
use selium.Wire.LiveTable.Races.{own_message}
use selium.Wire.LiveTable.Replica.{replay_from}
use selium.Wire.LiveTable.Steps.{IsReplica}
use selium.Wire.LiveTable.Success.{compare_and_set-succeeds}
use selium.Wire.LiveTable.Versions.{version_at}
use selium.Base.Map.{lookup, insert}
use selium.Wire.Tables.{apply_message_to, LiveTableMessage, get, get_version}
use selium.Wire.Topic.{Frame, Publisher}

-- A payload is a message, or bytes that do not decode.
abbrev Payload : Type 0
Payload = Option (LiveTableMessage ℕ ℕ)

abbrev encode : LiveTableMessage ℕ ℕ → Payload
encode msg = some msg

abbrev decode : Payload → Option (LiveTableMessage ℕ ℕ)
decode payload = payload

abbrev write : List (Frame Payload) → Result Error (Unit {0})
write frames = ok tt

abbrev lossless : (msg : LiveTableMessage ℕ ℕ) → decode (encode msg) ≡ some msg
lossless msg = refl

abbrev first_writer : Publisher
first_writer = record { writer_id = 5; next_mutation_id = 1 }

abbrev second_writer : Publisher
second_writer = record { writer_id = 6; next_mutation_id = 1 }

abbrev message : ℕ → ℕ → ℕ → Option ℕ → LiveTableMessage ℕ ℕ
message id key value expected = record {
  mutation_id = id;
  key = key;
  value = some value;
  expected_version = expected;
}

-- Key 1 is set to 10, and then from version 1 to 20.
abbrev initial_write : Frame Payload
initial_write = (some (message 1 1 10 none), 5)

abbrev exchange_write : Frame Payload
exchange_write = (some (message 2 1 20 (some 1)), 5)

abbrev first_actions : List (Action ℕ ℕ Payload)
first_actions = sets 1 10 ∷ compares 1 1 20 [] ∷ []

abbrev second_actions : List (Action ℕ ℕ Payload)
second_actions = others (initial_write ∷ []) ∷ syncs ∷ others (exchange_write ∷ []) ∷ []

sync-agree_example :
    (((sync decode (reached encode decode write [] first_writer first_actions)).1).local
      ≡ replay_from decode [] (reached encode decode write [] first_writer first_actions).topic)
    × (((sync decode (reached encode decode write [] second_writer second_actions)).1).local
        ≡ ((sync decode (reached encode decode write [] first_writer first_actions)).1).local)
unfolding run new_table set compare_and_set lookup insert apply_message_to
sync-agree_example =
    sync-agree encode decode write [] [] first_writer second_writer first_actions second_actions
      refl refl refl

-- Two tables that have read the first write.
abbrev table_of : Publisher → List (Frame Payload) → Shared ℕ ℕ Payload
table_of publisher frames = record {
  topic = frames;
  publisher = publisher;
  position = 1;
  local = (1, record { value = some 10; version = 1 }) ∷ [];
}

abbrev first_table : Shared ℕ ℕ Payload
first_table = table_of (record { writer_id = 5; next_mutation_id = 2 }) (initial_write ∷ [])

abbrev second_table : Shared ℕ ℕ Payload
second_table = table_of second_writer (initial_write ∷ [])

table_of-IsReplica :
    (publisher : Publisher) → IsReplica decode (table_of publisher (initial_write ∷ []))
unfolding replay_from lookup insert apply_message_to
table_of-IsReplica publisher = record {
  seen = initial_write ∷ [];
  unread = [];
  splits = refl;
  stands = refl;
  projected = refl;
}

abbrev after_exchange : Shared ℕ ℕ Payload
after_exchange = record {
  topic = initial_write ∷ exchange_write ∷ [];
  publisher = record { writer_id = 5; next_mutation_id = 3 };
  position = 2;
  local = (1, record { value = some 20; version = 2 }) ∷ [];
}

exchange_done : compare_and_set encode decode write 1 1 20 [] first_table ≡ (ok 2, after_exchange)
unfolding compare_and_set lookup insert apply_message_to
exchange_done = refl

compare_and_set-applied_example :
    (version_at 1 (replay_from decode [] (first_table.topic ++ [])) ≡ 1)
    × (2 ≡ saturating_add 1 1)
    × (after_exchange.topic
        ≡ (first_table.topic ++ []) ++ (encode (own_message first_table 1 20 1), 5) ∷ [])
    × (after_exchange.local ≡ replay_from decode [] after_exchange.topic)
    × (get 1 after_exchange.local ≡ some 20)
    × (get_version 1 after_exchange.local ≡ some 2)
compare_and_set-applied_example =
    compare_and_set-applied encode decode write lossless 1 1 2 20 [] first_table after_exchange
      (table_of-IsReplica _) refl exchange_done

compare_and_set-excludes_example :
    compare_and_set encode decode write 1 1 30 (exchange_write ∷ []) second_table
    ≢ (ok 2, second_table)
compare_and_set-excludes_example =
    compare_and_set-excludes encode decode write lossless 1 1 2 20 30 [] (exchange_write ∷ []) []
      first_table after_exchange second_table second_table (table_of-IsReplica _)
      (table_of-IsReplica _) refl refl (omega arith) exchange_done refl 2

compare_and_set-succeeds_example :
    (compare_and_set encode decode write 1 1 20 [] first_table).0 ≡ ok (saturating_add 1 1)
unfolding replay_from lookup insert apply_message_to
compare_and_set-succeeds_example =
    compare_and_set-succeeds encode decode write lossless 1 1 20 [] first_table
      (table_of-IsReplica _) refl refl refl refl refl refl
