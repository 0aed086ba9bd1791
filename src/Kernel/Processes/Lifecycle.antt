-- ===== src/Kernel/Processes/Lifecycle.antt =====
-- crates/kernel/src/process.rs: the states that a process goes through, and the activity log.
use selium.Base.{
  ℕ, true, false, none, some, List, [], ◌∷◌, ◌++◌, ◌≡◌, refl, ap, ◌∙◌, arith, length, drop, min,
  nat_eq,
}
use selium.Base.Map.{lookup, lookup-insert, lookup-remove, eq_self}
use selium.Base.Exec.{ok, err}
use selium.Kernel.Error.{not_found, process_stopped}
use selium.Kernel.Processes.{
  ProcessState, ProcessTable, from_cursor, put_process, record_activity, find_process,
  stopped_event, halted, stop_process, reap_process, inspect_process, read_activity_from,
  metering_observation,
}

-- Reading from the end of a log that has grown gives what was added.
from_cursor-append : {A : Type 0} (log new : List A) → from_cursor (length log) (log ++ new) ≡ new
from_cursor-append {A} log new = at_length (min (length log) (length (log ++ new))) (bounded log)
  where
    bounded : (l : List A) → min (length l) (length (l ++ new)) ≡ length l
    bounded [] = omega arith
    bounded (x ∷ l) = omega (arith, bounded l)

    go : (l : List A) → drop (length l) (l ++ new) ≡ new
    go [] = refl
    go (x ∷ l) = go l

    at_length : (k : ℕ) → k ≡ length log → drop k (log ++ new) ≡ new
    at_length k e = ap (λ n. drop n (log ++ new)) e ∙ go log

module _ {G : Type 0} where
  abbrev pub after_stop : ℕ → ProcessState G → ProcessTable G → ProcessTable G
  after_stop process_id process t =
      record_activity (stopped_event process_id process) (put_process process_id (halted process) t)

  stop_process_lem :
      (t : ProcessTable G) (process_id : ℕ) (process : ProcessState G)
      → lookup process_id t.processes ≡ some process
      → process.running ≡ true
      → stop_process process_id t ≡ (ok tt, after_stop process_id process t)
  unfolding stop_process find_process
  stop_process_lem t process_id process found runs = rw (found, runs)

  stop_process-stopped :
      (t : ProcessTable G) (process_id : ℕ) (process : ProcessState G)
      → lookup process_id t.processes ≡ some process
      → process.running ≡ false
      → stop_process process_id t ≡ (err (process_stopped process_id), t)
  unfolding stop_process find_process
  stop_process-stopped t process_id process found halts = rw (found, halts)

  after_stop-found :
      (t : ProcessTable G) (process_id : ℕ) (process : ProcessState G)
      → lookup process_id (after_stop process_id process t).processes ≡ some (halted process)
  unfolding record_activity
  after_stop-found t process_id process =
      lookup-insert process_id process_id (halted process) t.processes ∙ rw (eq_self process_id)

  reap_process_lem :
      (t : ProcessTable G) (process_id : ℕ) (process : ProcessState G)
      → lookup process_id t.processes ≡ some process
      → ((reap_process process_id t).0 ≡ ok tt)
        × (lookup process_id (reap_process process_id t).1.processes ≡ none)
        × (lookup process_id (reap_process process_id t).1.metering ≡ none)
  unfolding reap_process find_process
  reap_process_lem t process_id process found = (
    rw found,
    rw found (lookup-remove process_id process_id t.processes ∙ rw (eq_self process_id)),
    rw found (lookup-remove process_id process_id t.metering ∙ rw (eq_self process_id)),
  )

  -- A running process is stopped once: the first `stop_process` succeeds and adds one event, of
  -- this process, to the activity log, and a second one is refused and changes nothing. The process
  -- can then be reaped, and afterwards it has neither a record nor a metering observation.
  pub stop_process-reap_process :
      (t : ProcessTable G) (process_id : ℕ) (process : ProcessState G)
      → lookup process_id t.processes ≡ some process
      → process.running ≡ true
      → (s : ProcessTable G) × (stop_process process_id t ≡ (ok tt, s))
        × (read_activity_from (length t.activity_log) s ≡ stopped_event process_id process ∷ [])
        × (stop_process process_id s ≡ (err (process_stopped process_id), s))
        × ((reap_process process_id s).0 ≡ ok tt)
        × ((inspect_process process_id (reap_process process_id s).1).0 ≡ err not_found)
        × (metering_observation process_id (reap_process process_id s).1 ≡ none)
  unfolding read_activity_from inspect_process find_process metering_observation
  stop_process-reap_process t process_id process found runs =
      let s : ProcessTable G = after_stop process_id process t in
      let there = after_stop-found t process_id process in
      let gone = reap_process_lem s process_id (halted process) there in
      (
        s,
        stop_process_lem t process_id process found runs,
        logged,
        stop_process-stopped s process_id (halted process) there refl,
        gone.0,
        rw (gone.1) refl,
        gone.2,
      )
    where
      logged :
          from_cursor (length t.activity_log) (after_stop process_id process t).activity_log
          ≡ stopped_event process_id process ∷ []
      logged =
          unfold record_activity in
          from_cursor-append t.activity_log (stopped_event process_id process ∷ [])
