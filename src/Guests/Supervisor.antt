-- ===== src/Guests/Supervisor.antt =====
-- guests/supervisor/src/lib.rs: the health of processes and the recovery that is asked for.
pub mod Recovery
use selium.Base.{
  ℕ, zero, suc, ◌+◌, ◌-◌, ◌*◌, ◌^◌, min, u64_max, String, Bool, true, false, Option, none, some,
  List, [], ◌∷◌, ◌++◌, ◌≡◌, Eq, nat_eq, ◌==◌,
}
use selium.Base.Map.{Map, lookup, insert}

pub data RestartPolicy : Type 0 where
  never always on_failure : RestartPolicy
  backoff : ℕ → ℕ → RestartPolicy

pub data FailureClass : Type 0 where
  expected_stop unhealthy crashed : FailureClass

pub data HealthStatus : Type 0 where
  starting healthy : HealthStatus
  failed : FailureClass → HealthStatus

pub record ManagedProcess : Type 0 where
  pub process_id : ℕ
  pub workload_id : String
  pub policy : RestartPolicy
  pub failures : ℕ
  pub status : HealthStatus

pub data RecoveryIntent : Type 0 where
  restart : String → ℕ → RecoveryIntent
  reschedule : String → String → RecoveryIntent

pub record SupervisorState : Type 0 where
  pub processes : Map ℕ ManagedProcess
  pub recovery : List RecoveryIntent

unfoldable pub track : ManagedProcess → SupervisorState → SupervisorState
track process state = record state { processes = insert process.process_id process state.processes }

abbrev pub marked : Option ManagedProcess → ℕ → SupervisorState → Bool × SupervisorState
marked none process_id state = (false, state)
marked (some process) process_id state = (
  true,
  record state {
    processes = insert process_id (record process { status = healthy }) state.processes;
  },
)

unfoldable pub mark_healthy : ℕ → SupervisorState → Bool × SupervisorState
mark_healthy process_id state = marked (lookup process_id state.processes) process_id state

-- The doublings of the loop `for _ in 1..failures`.
unfoldable pub doubled : ℕ → ℕ → ℕ → ℕ
doubled zero delay max_delay_ms = delay
doubled (suc rounds) delay max_delay_ms =
    doubled rounds (min (min (delay * 2) u64_max) max_delay_ms) max_delay_ms

unfoldable pub backoff_delay : ℕ → ℕ → ℕ → ℕ
unfolding doubled
backoff_delay initial_delay_ms max_delay_ms failures =
    min (doubled (failures - 1) initial_delay_ms max_delay_ms) max_delay_ms

-- The match on the policy and the class of the failure, with the failures counted.
unfoldable pub intent_for : ManagedProcess → RestartPolicy → FailureClass → Option RecoveryIntent
unfolding backoff_delay
intent_for process never failure = none
intent_for process on_failure expected_stop = none
intent_for process on_failure unhealthy = some (restart process.workload_id 0)
intent_for process on_failure crashed = some (restart process.workload_id 0)
intent_for process always failure = some (restart process.workload_id 0)
intent_for process (backoff initial_delay_ms max_delay_ms) failure =
    some
      (restart process.workload_id (backoff_delay initial_delay_ms max_delay_ms process.failures))

-- `saturating_add(1)` on a `u32`
abbrev pub after_failure : ManagedProcess → FailureClass → ManagedProcess
after_failure process failure = record process {
  failures = min (process.failures + 1) (2 ^ 32 - 1);
  status = failed failure;
}

abbrev pub pushed : Option RecoveryIntent → List RecoveryIntent → List RecoveryIntent
pushed none recovery = recovery
pushed (some intent) recovery = recovery ++ intent ∷ []

abbrev pub classified :
    Option ManagedProcess
    → ℕ
    → FailureClass
    → SupervisorState
    → Option RecoveryIntent × SupervisorState
classified none process_id failure state = (none, state)
classified (some process) process_id failure state =
    let counted : ManagedProcess = after_failure process failure in
    let intent : Option RecoveryIntent = intent_for counted process.policy failure in
    (
      intent,
      record {
        processes = insert process_id counted state.processes;
        recovery = pushed intent state.recovery;
      },
    )

unfoldable pub classify_failure :
    ℕ → FailureClass → SupervisorState → Option RecoveryIntent × SupervisorState
unfolding intent_for
classify_failure process_id failure state =
    classified (lookup process_id state.processes) process_id failure state

abbrev pub requested : Option ManagedProcess → String → SupervisorState → Bool × SupervisorState
requested none reason state = (false, state)
requested (some process) reason state =
    (true, record state { recovery = state.recovery ++ reschedule process.workload_id reason ∷ [] })

unfoldable pub request_reschedule : ℕ → String → SupervisorState → Bool × SupervisorState
request_reschedule process_id reason state =
    requested (lookup process_id state.processes) reason state
