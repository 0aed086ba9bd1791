-- ===== src/Guests/Tests.antt =====
-- The theorems about the system guests at small states.
use mathlib.Core.Logic.{◌⊎◌}
use selium.Kernel.Processes.{MeteringObservation}
use selium.Guests.Accountant.Samples.{CumulativeCounters, ProcessSample, reduce_samples, reduce_all}
use selium.Guests.Accountant.Samples.Counted.{AreApart, is_listed, counted}
use selium.Guests.Accountant.Samples.Deltas.{TicksAreSteady, ticked, ticked-counted}
use selium.Base.{
  ◌+◌, ℕ, ◌*◌, ◌^◌, min, String, Bool, true, false, Option, none, some, List, [], ◌∷◌, ◌++◌, ◌≡◌,
  ◌≢◌, refl, arith, nat_eq, string_eq,
}
use selium.Base.Exec.{err}
use selium.Base.Map.{Map, lookup, insert}
use selium.Abi.Classes.{cpu}
use selium.Abi.Grants.{storage, CapabilityGrant}
use selium.Kernel.Error.{quota_exceeded}
use selium.Kernel.Quota.{try_consume}
use selium.Runtime.Delegation.{narrow_grants}
use selium.Guests.Accountant.{LedgerRecord, Account, new_account, author_quotas, author_narrowing}
use selium.Guests.Accountant.Book.{empty_book, rebuild_payloads}
use selium.Guests.Accountant.Enforced.{author-delinquent}
use selium.Guests.Accountant.Windows.{
  MeteringBucket, RollingWindow, Shared, mark_delinquent, bucket_second, window_complete,
}
use selium.Guests.Accountant.Windows.Replay.{
  Event, elapsed, arrived, controlled, IsReplay, handle_all, handle_all-IsReplay,
}
use selium.Guests.Accountant.Windows.Totals.{merge_all}
use selium.Guests.Accountant.Windows.Lost.{AreEarly, arrivals_of, handle_all-loses}
use selium.Guests.Scheduler.{
  HostPlacementInput, WorkloadSpec, SchedulerState, find_missing, find_host, has, submit_placement,
  rejected, no_host_satisfies, scheduled, status,
}
use selium.Guests.Scheduler.Placement.{AmongHosts, IsFit, submit_placement-decides}
use selium.Guests.Supervisor.{
  backoff, crashed, starting, ManagedProcess, SupervisorState, restart, classify_failure,
}
use selium.Guests.Supervisor.Recovery.{fail_times, classify_failure-backoff}

-- An account in debt.
abbrev debtor : Account
debtor = record new_account { delinquent = true }

abbrev log_grant : CapabilityGrant
log_grant = record { capability = storage; selectors = [] }

author-delinquent_example :
    ((try_consume "acme" cpu 1 (author_quotas "acme" debtor [])).0
      ≡ err (quota_exceeded "acme" cpu))
    × (narrow_grants (log_grant ∷ []) (author_narrowing debtor) ≡ [])
author-delinquent_example =
    author-delinquent "acme" debtor cpu 1 [] (log_grant ∷ []) refl refl (omega arith) refl

abbrev bucket_at : ℕ → MeteringBucket
bucket_at second = record {
  tenant = "acme";
  cpu_instructions = 5;
  memory_bytes = 10;
  storage_bytes = 0;
  bandwidth_bytes = 1;
  published_unix_s = second;
}

abbrev minute_one : RollingWindow
minute_one = record { start_s = 60; usage = [] }

-- Records that are stored as they are.
abbrev as_is : LedgerRecord → Option LedgerRecord
as_is r = some r

abbrev always : LedgerRecord → Bool
always r = true

abbrev at_minute_one : Shared LedgerRecord
at_minute_one = record {
  accounts = empty_book;
  ledger = [];
  quotas = [];
  narrowing = [];
  window = some minute_one;
}

at_minute_one-IsReplay :
    IsReplay as_is as_is always (λ r. (r, refl, refl)) (λ r. refl) at_minute_one
unfolding rebuild_payloads
at_minute_one-IsReplay = refl

abbrev events : List Event
events =
    arrived (some 61000000000) (bucket_at 61)
    ∷ controlled (mark_delinquent "acme")
    ∷ elapsed (some 120000000000)
    ∷ []

handle_all-IsReplay_example :
    IsReplay as_is as_is always
      (λ r. (r, refl, refl))
      (λ r. refl)
      (handle_all as_is always events at_minute_one)
handle_all-IsReplay_example =
    handle_all-IsReplay as_is as_is always (λ r. (r, refl, refl)) (λ r. refl) events at_minute_one
      at_minute_one-IsReplay

abbrev between_windows : Shared LedgerRecord
between_windows = record at_minute_one { window = none }

running :
    window_complete
      (some 63000000000)
      (record { start_s = bucket_second (bucket_at 61); usage = [] })
    ≡ false
unfolding window_complete bucket_second
running = refl

early : AreEarly (bucket_second (bucket_at 61)) ((some 62000000000, bucket_at 62) ∷ [])
unfolding window_complete bucket_second
early = (refl, refl, tt)

other_minute : bucket_second (bucket_at 59) ≢ bucket_second (bucket_at 61)
unfolding bucket_second
other_minute = λ e. omega (arith, e)

-- Two buckets of a minute, a late one of the minute before, and a rolled window.
handle_all-loses_example :
    (handle_all as_is always
        (arrivals_of ((some 61000000000, bucket_at 61) ∷ (some 62000000000, bucket_at 62) ∷ []))
        between_windows
      ≡ record between_windows {
        window = some (
            merge_all
              (bucket_at 61 ∷ bucket_at 62 ∷ [])
              (record { start_s = bucket_second (bucket_at 61); usage = [] }));
      })
    × (handle_all as_is always
          (arrivals_of ((some 61000000000, bucket_at 61) ∷ (some 62000000000, bucket_at 62) ∷ [])
            ++ arrived (some 63000000000) (bucket_at 59) ∷ elapsed (some 200000000000) ∷ [])
          between_windows
        ≡ handle_all as_is always
            (arrived (some 63000000000) (bucket_at 59) ∷ elapsed (some 200000000000) ∷ [])
            between_windows)
handle_all-loses_example =
    handle_all-loses as_is always ((some 62000000000, bucket_at 62) ∷ []) (some 61000000000)
      (some 63000000000) (bucket_at 61) (bucket_at 59) (elapsed (some 200000000000) ∷ [])
      between_windows refl early running other_minute

abbrev api : WorkloadSpec
api = record {
  workload_id = "api";
  tenant = "acme";
  cpu_millis = 250;
  memory_bytes = 512;
  dependencies = "db" ∷ [];
  isolation_key = none;
}

abbrev host_of : ℕ → HostPlacementInput
host_of free = record {
  host_id = "host-a";
  available = true;
  free_cpu_millis = free;
  free_memory_bytes = 1024;
  isolation_keys = [];
}

abbrev idle : SchedulerState
idle = record { desired = []; status = [] }

all_resolved : find_missing ("db" ∷ []) api.dependencies ≡ none
unfolding find_missing has
all_resolved = refl

submit_placement-decides_example :
    (((host : HostPlacementInput) × AmongHosts host (host_of 100 ∷ [])
        × IsFit host api
        × ((submit_placement api (host_of 100 ∷ []) ("db" ∷ []) idle).0.host_id ≡ some host.host_id)
        × ((submit_placement api (host_of 100 ∷ []) ("db" ∷ []) idle).0.accepted ≡ true))
      ⊎ ((find_host api (host_of 100 ∷ []) ≡ none)
          × ((submit_placement api (host_of 100 ∷ []) ("db" ∷ []) idle).0
              ≡ rejected "api" no_host_satisfies)))
    × (status "api" (submit_placement api (host_of 100 ∷ []) ("db" ∷ []) idle).1 ≡ some scheduled)
submit_placement-decides_example =
    submit_placement-decides api (host_of 100 ∷ []) ("db" ∷ []) idle all_resolved

abbrev worker : ManagedProcess
worker = record {
  process_id = 7;
  workload_id = "api";
  policy = backoff 100 1000;
  failures = 0;
  status = starting;
}

abbrev supervised : SupervisorState
supervised = record { processes = (7, worker) ∷ []; recovery = [] }

worker_found : lookup 7 supervised.processes ≡ some worker
unfolding lookup
worker_found = refl

classify_failure-backoff_example :
    ((classify_failure 7 crashed (fail_times 5 7 crashed supervised)).0
      ≡ some (restart "api" (min (100 * 2 ^ 5) 1000)))
    × ((classify_failure 7 crashed (fail_times 5 7 crashed supervised)).1.recovery
        ≡ (fail_times 5 7 crashed supervised).recovery
          ++ restart "api" (min (100 * 2 ^ 5) 1000) ∷ [])
classify_failure-backoff_example =
    classify_failure-backoff 5 7 100 1000 crashed worker supervised worker_found refl refl
      (omega arith) (omega arith)

abbrev no_counters : Map ℕ CumulativeCounters
no_counters = []

abbrev observed : ℕ → MeteringObservation
observed instructions = record {
  cpu_instructions = instructions;
  memory_bytes = 10;
  storage_bytes = 0;
  bandwidth_bytes = 0;
}

abbrev sampled : ℕ → String → ℕ → ProcessSample
sampled process_id t instructions = record {
  process_id = process_id;
  tenant = some t;
  observation = observed instructions;
}

-- Two processes of one tenant, one of which misses a tick, beside one of another.
abbrev ticks : List (List ProcessSample)
ticks =
    (sampled 7 "acme" 100 ∷ sampled 8 "acme" 300 ∷ [])
    ∷ (sampled 9 "zen" 50 ∷ sampled 7 "acme" 130 ∷ [])
    ∷ (sampled 8 "acme" 450 ∷ sampled 7 "acme" 130 ∷ [])
    ∷ []

ticks_steady : TicksAreSteady "acme" (7 ∷ 8 ∷ []) ticks no_counters
unfolding reduce_samples reduce_all lookup insert is_listed
ticks_steady = (
  (refl, omega arith, (refl, omega arith, tt)),
  (
    (refl, omega arith, (refl, omega arith, tt)),
    ((refl, omega arith, (refl, omega arith, tt)), tt),
  ),
)

ticks_end : counted (7 ∷ 8 ∷ []) (ticked "acme" ticks no_counters).1 ≡ 580
unfolding ticked counted reduce_samples reduce_all lookup insert
ticks_end = refl

apart : AreApart (7 ∷ 8 ∷ [])
unfolding is_listed
apart = (refl, (refl, tt))

ticked-counted_example :
    (ticked "acme" ticks no_counters).0 + counted (7 ∷ 8 ∷ []) no_counters
    ≡ counted (7 ∷ 8 ∷ []) (ticked "acme" ticks no_counters).1
ticked-counted_example =
    ticked-counted "acme" (7 ∷ 8 ∷ []) apart ticks no_counters ticks_steady
      (omega (arith, ticks_end))
