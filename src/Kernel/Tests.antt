-- ===== src/Kernel/Tests.antt =====
-- The theorems about the kernel's registries at concrete tables.
use selium.Base.{
  String, ℕ, ◌≤◌, ◌-◌, ◌≡◌, refl, Bool, true, false, none, some, List, [], ◌∷◌, arith, take, drop,
  u64_max, if◌then◌else◌, pair_eq, string_eq, nat_eq, ◌==◌,
}
use selium.Base.Map.{lookup}
use selium.Base.Exec.{ok, err}
use selium.Kernel.Error.{process_stopped, not_found}
use selium.Abi.Classes.{class_eq, shared_region}
use selium.Kernel.Quota.{Quotas, Key, entry, try_consume, release, used_by}
use selium.Kernel.Quota.Counters.{reserves, release-try_consume}
use selium.Kernel.Quota.Ceiling.{IsUnder, IsWithin, reserve, give_back, run, run-IsUnder}
use selium.Kernel.Queues.{HostQueueRegistry, host_queue_pending, Entry}
use selium.Kernel.Queues.Fifo.{send_all, recv_all, delivered, recv_all-send_all}
use selium.Kernel.Storage.{
  StorageRegistry, empty_log, empty_store, append_log, appended, replay_log, put_blob, get_blob,
  hex_id,
}
use selium.Kernel.Storage.Logs as Logs
use selium.Kernel.Storage.Logs.{IsLog, replay_log-append_log}
use selium.Kernel.Storage.Blobs as Blobs
use selium.Kernel.Storage.Blobs.{get_blob-put_blob, run-IsSound}
use selium.Kernel.Processes.{
  ProcessState, ProcessTable, stop_process, read_activity_from, stopped_event, reap_process,
  inspect_process, metering_observation,
}
use selium.Kernel.Processes.Lifecycle.{stop_process-reap_process}

-- A tenant that holds 3 of 10 regions.
abbrev table : Quotas
table = (("acme", shared_region), record { limit = 10; used = 3 }) ∷ []

abbrev acme : Key
acme = ("acme", shared_region)

table-IsUnder : IsUnder table
unfolding lookup
table-IsUnder key state h = choose (acme == key) h
  where
    choose :
        (b : Bool)
        → (if b then some (record { limit = 10; used = 3 }) else none) ≡ some state
        → IsWithin state
    choose true e = grind arith
    choose false e = grind arith

run-IsUnder_example : IsUnder (
    run
      (reserve "acme" shared_region 7
        ∷ reserve "acme" shared_region 1
        ∷ give_back "acme" shared_region 2
        ∷ [])
      table)
run-IsUnder_example =
    run-IsUnder
      (reserve "acme" shared_region 7
        ∷ reserve "acme" shared_region 1
        ∷ give_back "acme" shared_region 2
        ∷ [])
      table table-IsUnder

entry_limit : (entry acme table).limit ≤ u64_max
unfolding entry lookup
entry_limit = omega arith

entry_used : (entry acme table).used ≤ u64_max
unfolding entry lookup
entry_used = omega arith

granted : reserves "acme" shared_region 7 table ≡ true
unfolding entry lookup
granted = refl

release-try_consume_example :
    used_by "acme" shared_region
      (release "acme" shared_region 7 (try_consume "acme" shared_region 7 table).1)
    ≡ used_by "acme" shared_region table
release-try_consume_example =
    release-try_consume "acme" shared_region 7 table acme entry_limit entry_used granted

-- Two handles on one queue that holds an entry.
abbrev one_queue : HostQueueRegistry
one_queue = record {
  queues_by_shared = (9, (1, 5, []) ∷ []) ∷ [];
  local_queues = (3, 9) ∷ (4, 9) ∷ [];
}

abbrev sent : List Entry
sent = (2, 6, []) ∷ (2, 7, 1 ∷ []) ∷ []

recv_all-send_all_example :
    ((host_queue_pending 4 (send_all 3 sent one_queue)).0 ≡ ok 3)
    × ((recv_all 4 3 (send_all 3 sent one_queue)).0 ≡ delivered ((1, 5, []) ∷ sent))
    × ((host_queue_pending 4 (recv_all 4 3 (send_all 3 sent one_queue)).1).0 ≡ ok 0)
unfolding lookup
recv_all-send_all_example =
    recv_all-send_all sent ((1, 5, []) ∷ []) one_queue 3 4 9 (refl, refl) (refl, refl)

abbrev opened : StorageRegistry
opened = record {
  durable_logs_by_shared = (8, empty_log "audit") ∷ [];
  local_logs = (1, 8) ∷ (2, 8) ∷ [];
  blob_stores_by_shared = (6, empty_store "modules") ∷ [];
  local_blob_stores = (3, 6) ∷ (5, 6) ∷ [];
}

replay_log-append_log_example :
    ((append_log 1 77 [] (42 ∷ []) opened).0 ≡ ok 1)
    × IsLog (appended 77 [] (42 ∷ []) (empty_log "audit"))
    × Logs.Holds
        (append_log 1 77 [] (42 ∷ []) opened).1
        2
        8
        (appended 77 [] (42 ∷ []) (empty_log "audit"))
    × ((replay_log 2 (some 1) 5 (append_log 1 77 [] (42 ∷ []) opened).1).0
        ≡ ok (take 5 (drop (1 - 1) (appended 77 [] (42 ∷ []) (empty_log "audit")).records)))
unfolding lookup
replay_log-append_log_example =
    replay_log-append_log opened 1 2 8 (empty_log "audit") 77 [] (42 ∷ []) 1 5 (refl, refl)
      (refl, refl) (tt, refl)

-- A digest of two bytes.
abbrev short_digest : List ℕ → List ℕ
short_digest bytes = 18 ∷ 255 ∷ []

get_blob-put_blob_example :
    ((put_blob short_digest 3 (1 ∷ 2 ∷ []) opened).0 ≡ ok (hex_id (short_digest (1 ∷ 2 ∷ []))))
    × ((get_blob 5 "12ff" (put_blob short_digest 3 (1 ∷ 2 ∷ []) opened).1).0 ≡ (
        if hex_id (short_digest (1 ∷ 2 ∷ [])) == "12ff"
        then ok (some (1 ∷ 2 ∷ []))
        else (get_blob 5 "12ff" opened).0))
unfolding lookup
get_blob-put_blob_example =
    get_blob-put_blob short_digest opened 3 5 6 (empty_store "modules") (1 ∷ 2 ∷ []) "12ff"
      (refl, refl) (refl, refl)

opened-IsSound : Blobs.IsSound opened 3 6
unfolding lookup
opened-IsSound = (empty_store "modules", (refl, refl), λ name id h. absurd cc)

run-IsSound_example :
    Blobs.IsSound
      (Blobs.run short_digest 3 (Blobs.put (1 ∷ []) ∷ Blobs.name_blob "app" "12ff" ∷ []) opened)
      3
      6
run-IsSound_example =
    run-IsSound (Blobs.put (1 ∷ []) ∷ Blobs.name_blob "app" "12ff" ∷ []) short_digest opened 3 6
      opened-IsSound

-- A table with one running process.
abbrev web : ProcessState String
web = record { module_id = "web"; entrypoint = "main"; running = true; grants = "net" ∷ [] }

abbrev one_process : ProcessTable String
one_process = record {
  processes = (5, web) ∷ [];
  activity_log = [];
  guest_logs = [];
  metering = [];
}

stop_process-reap_process_example :
    (s : ProcessTable String) × (stop_process 5 one_process ≡ (ok tt, s))
    × (read_activity_from 0 s ≡ stopped_event 5 web ∷ [])
    × (stop_process 5 s ≡ (err (process_stopped 5), s))
    × ((reap_process 5 s).0 ≡ ok tt)
    × ((inspect_process 5 (reap_process 5 s).1).0 ≡ err not_found)
    × (metering_observation 5 (reap_process 5 s).1 ≡ none)
unfolding lookup
stop_process-reap_process_example = stop_process-reap_process one_process 5 web refl refl
