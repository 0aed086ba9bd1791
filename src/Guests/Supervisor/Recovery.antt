-- ===== src/Guests/Supervisor/Recovery.antt =====
-- guests/supervisor/src/lib.rs: the delay before a restart, and the failures of one process.
use native.Mathlib.Nat.{one-le-pow, le-mul_of_pos_right, mul_assoc, mul_comm, pow-suc}
use selium.Base.{
  nat_beq_refl, leb, Bool-cases, inl, inr, ℕ, zero, suc, ◌+◌, ◌-◌, ◌*◌, ◌^◌, ◌≤◌, ◌<◌, min, u64_max,
  String, some, [], ◌∷◌, ◌++◌, ◌≡◌, refl, sym, ap, ◌∙◌, arith, nat_eq,
}
use selium.Base.Map.{lookup, lookup-insert}
use selium.Guests.Supervisor.{
  backoff, FailureClass, ManagedProcess, restart, SupervisorState, doubled, backoff_delay,
  intent_for, after_failure, classify_failure,
}

capped : (a l k : ℕ) → 1 ≤ k → min (min a l * k) l ≡ min (a * k) l
capped a l k h =
    let wide : l ≤ l * k = le-mul_of_pos_right l (omega arith) in
    let grown : a ≤ a * k = le-mul_of_pos_right a (omega arith) in
    elim (Bool-cases (leb a l)) [
      | inl low ↦ let least : min a l ≡ a = ground arith in rw least refl
      | inr high ↦ let least : min a l ≡ l = ground arith in rw least (ground arith)
    ]

one_le_power : (n : ℕ) → 1 ≤ 2 ^ n
one_le_power n = one-le-pow n 2 (omega arith)

doubled_lem :
    (rounds delay limit : ℕ)
    → limit ≤ u64_max
    → min (doubled rounds delay limit) limit ≡ min (delay * 2 ^ rounds) limit
unfolding doubled
doubled_lem zero delay limit h = omega arith
doubled_lem (suc rounds) delay limit h =
    let below : min (min (delay * 2) u64_max) limit ≡ min (delay * 2) limit = omega (arith, h) in
    let power : delay * 2 * 2 ^ rounds ≡ delay * 2 ^ suc rounds =
      mul_assoc delay 2 (2 ^ rounds)
      ∙ ap (λ (m : ℕ). delay * m) (mul_comm 2 (2 ^ rounds) ∙ sym (pow-suc 2 rounds)) in
    rw below (
      doubled_lem rounds (min (delay * 2) limit) limit h
      ∙ capped (delay * 2) limit (2 ^ rounds) (one_le_power rounds)
      ∙ ap (λ (n : ℕ). min n limit) power)

-- The delay is the initial one, doubled with every failure after the first, up to the limit.
pub backoff_delay_lem :
    (initial limit failures : ℕ)
    → limit ≤ u64_max
    → backoff_delay initial limit failures ≡ min (initial * 2 ^ (failures - 1)) limit
unfolding backoff_delay
backoff_delay_lem initial limit failures h = doubled_lem (failures - 1) initial limit h

unfoldable pub fail_times : ℕ → ℕ → FailureClass → SupervisorState → SupervisorState
fail_times zero process_id failure state = state
fail_times (suc n) process_id failure state =
    fail_times n process_id failure (classify_failure process_id failure state).1

-- The process after so many failures.
abbrev pub failed_times : ℕ → FailureClass → ManagedProcess → ManagedProcess
failed_times zero failure process = process
failed_times (suc n) failure process = failed_times n failure (after_failure process failure)

once :
    (process_id : ℕ) (failure : FailureClass) (process : ManagedProcess) (state : SupervisorState)
    → lookup process_id state.processes ≡ some process
    → lookup process_id (classify_failure process_id failure state).1.processes
      ≡ some (after_failure process failure)
unfolding classify_failure
once process_id failure process state h = rw h (
    lookup-insert process_id process_id (after_failure process failure) state.processes
    ∙ rw (nat_beq_refl process_id) refl)

fail_times-lookup :
    (n process_id : ℕ) (failure : FailureClass) (process : ManagedProcess) (state : SupervisorState)
    → lookup process_id state.processes ≡ some process
    → lookup process_id (fail_times n process_id failure state).processes
      ≡ some (failed_times n failure process)
unfolding fail_times
fail_times-lookup zero process_id failure process state h = h
fail_times-lookup (suc n) process_id failure process state h =
    fail_times-lookup n process_id failure (after_failure process failure)
      (classify_failure process_id failure state).1 (once process_id failure process state h)

failed_times-fields :
    (n : ℕ) (failure : FailureClass) (process : ManagedProcess)
    → process.failures + n < 2 ^ 32
    → ((failed_times n failure process).failures ≡ process.failures + n)
      × ((failed_times n failure process).policy ≡ process.policy)
      × ((failed_times n failure process).workload_id ≡ process.workload_id)
failed_times-fields zero failure process h = (omega arith, refl, refl)
failed_times-fields (suc n) failure process h =
    let (f, p, w) = failed_times-fields n failure (after_failure process failure) (omega arith) in
    (omega (arith, f), p, w)

next_failure :
    (n process_id initial limit : ℕ) (failure : FailureClass) (q : ManagedProcess) (id : String)
    (state : SupervisorState)
    → lookup process_id state.processes ≡ some q
    → q.policy ≡ backoff initial limit
    → q.workload_id ≡ id
    → q.failures ≡ n
    → n + 1 < 2 ^ 32
    → limit ≤ u64_max
    → ((classify_failure process_id failure state).0
        ≡ some (restart id (min (initial * 2 ^ n) limit)))
      × ((classify_failure process_id failure state).1.recovery
          ≡ state.recovery ++ restart id (min (initial * 2 ^ n) limit) ∷ [])
unfolding classify_failure intent_for
next_failure n process_id initial limit failure q id state h policy name count few small =
    let counted : min (n + 1) (2 ^ 32 - 1) ≡ n + 1 = omega arith in
    let rounds : n + 1 - 1 ≡ n = omega arith in
    rw (h, policy, count, name, counted, backoff_delay_lem initial limit (n + 1) small, rounds)
      (refl, refl)

-- A process under the backoff policy that has failed so many times and fails again asks for a
-- restart of its workload after the delay doubled so many times, up to the limit, and the request
-- is the last of the list. The failures fit their word, and the limit its own.
pub classify_failure-backoff :
    (n process_id initial limit : ℕ) (failure : FailureClass) (process : ManagedProcess)
    (state : SupervisorState)
    → lookup process_id state.processes ≡ some process
    → process.policy ≡ backoff initial limit
    → process.failures ≡ 0
    → n + 1 < 2 ^ 32
    → limit ≤ u64_max
    → ((classify_failure process_id failure (fail_times n process_id failure state)).0
        ≡ some (restart process.workload_id (min (initial * 2 ^ n) limit)))
      × ((classify_failure process_id failure (fail_times n process_id failure state)).1.recovery
          ≡ (fail_times n process_id failure state).recovery
            ++ restart process.workload_id (min (initial * 2 ^ n) limit) ∷ [])
classify_failure-backoff n process_id initial limit failure process state h policy none_yet few
      small =
    let (f, p, w) = failed_times-fields n failure process (omega arith) in
    next_failure n process_id initial limit failure (failed_times n failure process)
      process.workload_id (fail_times n process_id failure state)
      (fail_times-lookup n process_id failure process state h) (p ∙ policy) w (omega (arith, f)) few
      small
