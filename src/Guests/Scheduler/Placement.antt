-- ===== src/Guests/Scheduler/Placement.antt =====
-- guests/scheduler/src/lib.rs: what a submitted placement decides and what status it leaves.
use mathlib.Core.Path.{subst}
use mathlib.Core.Logic.{◌⊎◌}
use selium.Base.{
  ◌≤◌, true, Option, none, some, List, [], ◌∷◌, ◌≡◌, refl, ap, ◌∙◌, arith, Bool-cases, inl, inr,
  string_eq,
}
use selium.Base.Map.{lookup, lookup-insert, eq_self}
use selium.Guests.Scheduler.{
  Names, HostPlacementInput, WorkloadSpec, SchedulerState, scheduled, no_host_satisfies,
  host_satisfies, is_isolated, rejected, reject, find_host, find_missing, submit_placement, place,
  status,
}

some_injective : {a b : HostPlacementInput} → some a ≡ some b → a ≡ b
some_injective {a} e = ap (value_or a) e
  where
    value_or : HostPlacementInput → Option HostPlacementInput → HostPlacementInput
    value_or d none = d
    value_or d (some x) = x

-- A host of the list.
pub data AmongHosts (host : HostPlacementInput) : List HostPlacementInput → Type 0 where
  here : {hosts : List HostPlacementInput} → AmongHosts host (host ∷ hosts)
  there :
      {other : HostPlacementInput} {hosts : List HostPlacementInput}
      → AmongHosts host hosts
      → AmongHosts host (other ∷ hosts)

-- What makes a host fit for a workload.
pub record IsFit (host : HostPlacementInput) (spec : WorkloadSpec) : Type 0 where
  pub up : host.available ≡ true
  pub cpu : spec.cpu_millis ≤ host.free_cpu_millis
  pub memory : spec.memory_bytes ≤ host.free_memory_bytes
  pub isolated : is_isolated host.isolation_keys spec.isolation_key ≡ true

host_satisfies-IsFit :
    (host : HostPlacementInput) (spec : WorkloadSpec)
    → host_satisfies host spec ≡ true
    → IsFit host spec
unfolding host_satisfies
host_satisfies-IsFit host spec h = record {
  up = ground arith;
  cpu = ground arith;
  memory = ground arith;
  isolated = ground arith;
}

found :
    (spec : WorkloadSpec) (hosts : List HostPlacementInput) (host : HostPlacementInput)
    → find_host spec hosts ≡ some host
    → AmongHosts host hosts × IsFit host spec
unfolding find_host
found spec [] host h = cc
found spec (first ∷ hosts) host h = elim (Bool-cases (host_satisfies first spec)) [
  | inl fits ↦
      let same : some first ≡ some host = rw fits at h in
      let equal : first ≡ host = some_injective same in
      subst (λ (x : HostPlacementInput). AmongHosts x (first ∷ hosts) × IsFit x spec) equal
        (here, host_satisfies-IsFit first spec fits)
  | inr other ↦ let (among, fit) = found spec hosts host (rw other at h) in (there among, fit)
]

-- What a submission decides once the choice of a host is known.
decided :
    (spec : WorkloadSpec) (hosts : List HostPlacementInput) (state : SchedulerState)
    (choice : Option HostPlacementInput)
    → find_host spec hosts ≡ choice
    → (((host : HostPlacementInput) × AmongHosts host hosts
          × IsFit host spec
          × ((place none spec hosts state).0.host_id ≡ some host.host_id)
          × ((place none spec hosts state).0.accepted ≡ true))
        ⊎ ((find_host spec hosts ≡ none)
            × ((place none spec hosts state).0 ≡ rejected spec.workload_id no_host_satisfies)))
      × (lookup spec.workload_id (place none spec hosts state).1.status ≡ some scheduled)
unfolding reject
decided spec hosts state none e = (
  inr (e, rw e refl),
  rw e (
      lookup-insert spec.workload_id spec.workload_id scheduled _
      ∙ rw (eq_self spec.workload_id) refl),
)
decided spec hosts state (some host) e =
    let (among, fit) = found spec hosts host e in
    (
      inl (host, among, fit, rw e refl, rw e refl),
      rw e (
          lookup-insert spec.workload_id spec.workload_id scheduled _
          ∙ rw (eq_self spec.workload_id) refl),
    )

-- Where every dependency of a workload is resolved, its placement is accepted on a host of the list
-- that is available, has the processor time and the memory and does not hold the isolation key, or
-- it is rejected since no host was found; in both cases its status is `Scheduled`.
pub submit_placement-decides :
    (spec : WorkloadSpec) (hosts : List HostPlacementInput) (resolved : Names)
    (state : SchedulerState)
    → find_missing resolved spec.dependencies ≡ none
    → (((host : HostPlacementInput) × AmongHosts host hosts
          × IsFit host spec
          × ((submit_placement spec hosts resolved state).0.host_id ≡ some host.host_id)
          × ((submit_placement spec hosts resolved state).0.accepted ≡ true))
        ⊎ ((find_host spec hosts ≡ none)
            × ((submit_placement spec hosts resolved state).0
                ≡ rejected spec.workload_id no_host_satisfies)))
      × (status spec.workload_id (submit_placement spec hosts resolved state).1 ≡ some scheduled)
unfolding submit_placement status
submit_placement-decides spec hosts resolved state complete =
    rw complete (decided spec hosts state (find_host spec hosts) refl)
