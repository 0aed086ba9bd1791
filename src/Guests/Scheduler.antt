-- ===== src/Guests/Scheduler.antt =====
-- guests/scheduler/src/lib.rs: the placement of workloads on hosts.
pub mod Placement
use selium.Base.{
  ℕ, String, Bool, true, false, not, ◌&&◌, ◌||◌, Option, none, some, List, [], ◌∷◌, ◌≡◌, leb,
  if◌then◌else◌, Eq, string_eq, ◌==◌,
}
use selium.Base.Map.{Map, lookup, insert}

-- Sets are lists of their members.
abbrev pub Names : Type 0
Names = List String

unfoldable pub has : Names → String → Bool
has [] name = false
has (x ∷ xs) name = (x == name) || has xs name

pub record HostPlacementInput : Type 0 where
  pub host_id : String
  pub available : Bool
  pub free_cpu_millis : ℕ
  pub free_memory_bytes : ℕ
  pub isolation_keys : Names

pub record WorkloadSpec : Type 0 where
  pub workload_id : String
  pub tenant : String
  pub cpu_millis : ℕ
  pub memory_bytes : ℕ
  pub dependencies : Names
  pub isolation_key : Option String

-- `format!("dependency not resolved: {missing}")` and "no host satisfies placement"
pub data Reason : Type 0 where
  dependency_not_resolved : String → Reason
  no_host_satisfies placement_accepted : Reason

pub data WorkloadStatus : Type 0 where
  pending scheduled running stopped : WorkloadStatus
  failed : Reason → WorkloadStatus

pub record PlacementDecision : Type 0 where
  pub workload_id : String
  pub host_id : Option String
  pub accepted : Bool
  pub reason : Reason

pub record SchedulerState : Type 0 where
  pub desired : Map String PlacementDecision
  pub status : Map String WorkloadStatus

-- `is_none_or(|key| !host.isolation_keys.contains(key))`
abbrev pub is_isolated : Names → Option String → Bool
is_isolated keys none = true
is_isolated keys (some key) = not (has keys key)

unfoldable pub host_satisfies : HostPlacementInput → WorkloadSpec → Bool
host_satisfies host spec =
    host.available
    && (leb spec.cpu_millis host.free_cpu_millis
        && (leb spec.memory_bytes host.free_memory_bytes
            && is_isolated host.isolation_keys spec.isolation_key))

abbrev pub rejected : String → Reason → PlacementDecision
rejected workload_id reason = record {
  workload_id = workload_id;
  host_id = none;
  accepted = false;
  reason = reason;
}

unfoldable pub reject : String → Reason → SchedulerState → PlacementDecision × SchedulerState
reject workload_id reason state =
    let decision : PlacementDecision = rejected workload_id reason in
    (
      decision,
      record {
        desired = insert workload_id decision state.desired;
        status = insert workload_id (failed reason) state.status;
      },
    )

-- `iter().find(..)`
unfoldable pub find_host : WorkloadSpec → List HostPlacementInput → Option HostPlacementInput
find_host spec [] = none
find_host spec (host ∷ hosts) =
    let rest = find_host spec hosts in if host_satisfies host spec then some host else rest

unfoldable pub find_missing : Names → Names → Option String
find_missing resolved [] = none
find_missing resolved (dependency ∷ dependencies) =
    let rest = find_missing resolved dependencies in
    if not (has resolved dependency) then some dependency else rest

-- `map_or_else`: without a host the placement is rejected.
abbrev pub decide :
    WorkloadSpec → Option HostPlacementInput → SchedulerState → PlacementDecision × SchedulerState
decide spec none state = reject spec.workload_id no_host_satisfies state
decide spec (some host) state = (
  record {
    workload_id = spec.workload_id;
    host_id = some host.host_id;
    accepted = true;
    reason = placement_accepted;
  },
  state,
)

-- Both maps are written whatever the decision.
abbrev pub record_decision : PlacementDecision × SchedulerState → PlacementDecision × SchedulerState
record_decision (decision, state) = (
  decision,
  record {
    desired = insert decision.workload_id decision state.desired;
    status = insert decision.workload_id scheduled state.status;
  },
)

abbrev pub place :
    Option String
    → WorkloadSpec
    → List HostPlacementInput
    → SchedulerState
    → PlacementDecision × SchedulerState
place (some missing) spec hosts state =
    reject spec.workload_id (dependency_not_resolved missing) state
place none spec hosts state = record_decision (decide spec (find_host spec hosts) state)

unfoldable pub submit_placement :
    WorkloadSpec
    → List HostPlacementInput
    → Names
    → SchedulerState
    → PlacementDecision × SchedulerState
unfolding reject find_host
submit_placement spec hosts resolved state =
    place (find_missing resolved spec.dependencies) spec hosts state

abbrev pub reconciled :
    Option PlacementDecision → String → SchedulerState → Option WorkloadStatus × SchedulerState
reconciled none workload_id state = (none, state)
reconciled (some decision) workload_id state = (
  lookup workload_id state.status,
  record state { status = insert workload_id running state.status },
)

-- The status before is returned.
unfoldable pub reconcile_running : String → SchedulerState → Option WorkloadStatus × SchedulerState
reconcile_running workload_id state =
    reconciled (lookup workload_id state.desired) workload_id state

unfoldable pub status : String → SchedulerState → Option WorkloadStatus
status workload_id state = lookup workload_id state.status
