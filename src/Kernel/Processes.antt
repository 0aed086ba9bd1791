-- ===== src/Kernel/Processes.antt =====
-- crates/kernel/src/process.rs `ProcessTable`: the records of processes, the activity log, the
-- guest logs and the metering. A capability grant is of a type `G` that the table only stores.
pub mod Lifecycle
use Prim.Native.String.{◌++◌ as str_append}
use selium.Base.{
  ℕ, String, Bool, true, false, not, ◌||◌, Option, none, some, List, [], ◌∷◌, ◌++◌, ◌≡◌, length,
  drop, min, nat_beq, if◌then◌else◌, Eq, nat_eq, ◌==◌,
}
use selium.Base.Map.{Map, lookup, insert, remove}
use selium.Base.Exec.{Exec, Result, ok, err, ok_or, pure, raise, lift, gets, modify, ◌>>=◌, ◌>>◌}
use selium.Kernel.Error.{Error, not_found, process_stopped}

pub data ActivityKind : Type 0 where
  process_started guest_ready guest_bootstrapped stopped exited metering_observed : ActivityKind

pub record ActivityEvent : Type 0 where
  pub kind : ActivityKind
  pub process_id : Option ℕ
  pub message : String

pub record GuestLogEntry : Type 0 where
  pub process_id : Option ℕ
  pub level : String
  pub target : String
  pub message : String

pub record MeteringObservation : Type 0 where
  pub cpu_instructions : ℕ
  pub memory_bytes : ℕ
  pub storage_bytes : ℕ
  pub bandwidth_bytes : ℕ

pub record ProcessDescriptor : Type 0 where
  pub local_id : ℕ
  pub module_id : String
  pub entrypoint : String

-- The log channel of a process is left out.
pub record ProcessState (G : Type 0) : Type 0 where
  pub module_id : String
  pub entrypoint : String
  pub running : Bool
  pub grants : List G

pub record ProcessTable (G : Type 0) : Type 0 where
  pub processes : Map ℕ (ProcessState G)
  pub activity_log : List ActivityEvent
  pub guest_logs : List GuestLogEntry
  pub metering : Map ℕ MeteringObservation

-- `get(cursor.min(len)..)`
abbrev pub from_cursor : {A : Type 0} → ℕ → List A → List A
from_cursor cursor log = drop (min cursor (length log)) log

-- The text of an event, `process {module_id} {what}`.
abbrev pub process_text : String → String → String
process_text module_id what = str_append "process " (str_append module_id (str_append " " what))

abbrev pub Op : Type 0 → Type 0 → Type 0
Op G A = Exec (ProcessTable G) Error A

module _ {G : Type 0} where
  abbrev pub put_process : ℕ → ProcessState G → ProcessTable G → ProcessTable G
  put_process process_id state t = record {
    processes = insert process_id state t.processes;
    activity_log = t.activity_log;
    guest_logs = t.guest_logs;
    metering = t.metering;
  }

  unfoldable pub record_activity : ActivityEvent → ProcessTable G → ProcessTable G
  record_activity event t = record {
    processes = t.processes;
    activity_log = t.activity_log ++ (event ∷ []);
    guest_logs = t.guest_logs;
    metering = t.metering;
  }

  -- `local_id` is what `next_process_id` gave.
  unfoldable pub start_process :
      ℕ → String → String → List G → ProcessTable G → ProcessDescriptor × ProcessTable G
  start_process local_id module_id entrypoint grants t = (
    record { local_id = local_id; module_id = module_id; entrypoint = entrypoint },
    record_activity
        (record {
          kind = process_started;
          process_id = some local_id;
          message = process_text module_id "started";
        })
        (put_process local_id
          (record {
            module_id = module_id;
            entrypoint = entrypoint;
            running = true;
            grants = grants;
          })
          t),
  )

  unfoldable pub find_process : ℕ → Op G (ProcessState G)
  find_process process_id t = (ok_or (lookup process_id t.processes) not_found, t)

  abbrev pub stopped_event : ℕ → ProcessState G → ActivityEvent
  stopped_event process_id process = record {
    kind = stopped;
    process_id = some process_id;
    message = process_text process.module_id "stopped";
  }

  abbrev pub halted : ProcessState G → ProcessState G
  halted process = record {
    module_id = process.module_id;
    entrypoint = process.entrypoint;
    running = false;
    grants = process.grants;
  }

  unfoldable pub stop_process : ℕ → Op G (Unit {0})
  stop_process process_id = do
    process ← find_process process_id
    if not process.running
        then raise (process_stopped process_id)
        else (modify (put_process process_id (halted process))
            >> modify (record_activity (stopped_event process_id process)))

  unfoldable pub reap_process : ℕ → Op G (Unit {0})
  reap_process process_id = do
    process ← find_process process_id
    modify (λ t. record {
      processes = remove process_id t.processes;
      activity_log = t.activity_log;
      guest_logs = t.guest_logs;
      metering = remove process_id t.metering;
    })

  unfoldable pub inspect_process : ℕ → Op G ProcessDescriptor
  inspect_process process_id = do
    process ← find_process process_id
    pure (record {
      local_id = process_id;
      module_id = process.module_id;
      entrypoint = process.entrypoint;
    })

  unfoldable pub read_activity_from : ℕ → ProcessTable G → List ActivityEvent
  read_activity_from cursor t = from_cursor cursor t.activity_log

  unfoldable pub write_guest_log : GuestLogEntry → ProcessTable G → ProcessTable G
  write_guest_log entry t = record {
    processes = t.processes;
    activity_log = t.activity_log;
    guest_logs = t.guest_logs ++ (entry ∷ []);
    metering = t.metering;
  }

  unfoldable pub read_guest_logs_from : ℕ → ProcessTable G → List GuestLogEntry
  read_guest_logs_from cursor t = from_cursor cursor t.guest_logs

  unfoldable pub process_grants : ℕ → Op G (List G)
  process_grants process_id = do process ← find_process process_id; pure process.grants

  -- `describe` formats the numbers of the event's text.
  unfoldable pub observe_metering :
      (MeteringObservation → String) → ℕ → MeteringObservation → ProcessTable G → ProcessTable G
  observe_metering describe process_id observation t =
      record_activity
        (record {
          kind = metering_observed;
          process_id = some process_id;
          message = str_append "metering updated " (describe observation);
        })
        (record {
          processes = t.processes;
          activity_log = t.activity_log;
          guest_logs = t.guest_logs;
          metering = insert process_id observation t.metering;
        })

  unfoldable pub metering_observation : ℕ → ProcessTable G → Option MeteringObservation
  metering_observation process_id t = lookup process_id t.metering
