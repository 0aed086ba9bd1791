-- ===== src/Kernel/Storage/Logs.antt =====
-- crates/kernel/src/storage.rs: the numbering of the records of a durable log, and its replay.
use mathlib.Core.Path.{subst}
use selium.Base.{
  ℕ, zero, suc, ◌+◌, ◌-◌, String, true, false, Option, some, List, [], ◌∷◌, ◌++◌, ◌≡◌, refl, sym,
  ap, ◌∙◌, length, length-append, take, drop, leb, nat_eq, string_eq, arith, Bool-cases, inl, inr,
}
use selium.Base.Map.{lookup, lookup-insert, eq_self}
use selium.Base.Exec.{ok}
use selium.Kernel.Storage.{
  StorageRecord, DurableLogState, StorageRegistry, log_shared_id, log_state, put_log, appended,
  append_log, records_from, replay_log,
}

-- The records are numbered from `n` on without a gap.
abbrev pub AreNumbered : ℕ → List StorageRecord → Type 0
AreNumbered n [] = Unit
AreNumbered n (r ∷ rs) = (r.sequence ≡ n) × AreNumbered (suc n) rs

abbrev pub IsLog : DurableLogState → Type 0
IsLog log = AreNumbered 1 log.records × (log.next_sequence ≡ suc (length log.records))

AreNumbered-append :
    (n : ℕ) (rs : List StorageRecord) (r : StorageRecord)
    → AreNumbered n rs
    → r.sequence ≡ n + length rs
    → AreNumbered n (rs ++ (r ∷ []))
AreNumbered-append n [] r h e = (omega (arith, e), tt)
AreNumbered-append n (q ∷ rs) r h e =
    (h.0, AreNumbered-append (suc n) rs r (h.1) (omega (arith, e)))

appended-IsLog :
    (time : ℕ) (headers : List (String × String)) (payload : List ℕ) (log : DurableLogState)
    → IsLog log
    → IsLog (appended time headers payload log)
appended-IsLog time headers payload log well = (
  AreNumbered-append 1 log.records _ (well.0) (omega (arith, well.1)),
  omega (arith, well.1, length-append log.records (_ ∷ [])),
)

drop_nil : (k : ℕ) → drop {A = StorageRecord} k [] ≡ []
drop_nil zero = refl
drop_nil (suc k) = refl

records_from_lem :
    (n from : ℕ) (rs : List StorageRecord)
    → AreNumbered n rs
    → records_from (some from) rs ≡ drop (from - n) rs
unfolding records_from
records_from_lem n from [] h = sym (drop_nil (from - n))
records_from_lem n from (r ∷ rs) h = elim (Bool-cases (leb from r.sequence)) [
  | inl from_here ↦
      let z : from - n ≡ 0 = before n from r.sequence (h.0) from_here in
      let y : from - suc n ≡ 0 = omega (arith, z) in
      rw (from_here, z, records_from_lem (suc n) from rs (h.1), y)
  | inr later ↦
      let z : from - n ≡ suc (from - suc n) = after n from r.sequence (h.0) later in
      rw (later, z, records_from_lem (suc n) from rs (h.1))
]
  where
    before : (n from s : ℕ) → s ≡ n → leb from s ≡ true → from - n ≡ 0
    before n from s e h = ground arith

    after : (n from s : ℕ) → s ≡ n → leb from s ≡ false → from - n ≡ suc (from - suc n)
    after n from s e h = ground arith

-- The handle names the log.
abbrev pub Holds : StorageRegistry → ℕ → ℕ → DurableLogState → Type 0
Holds r local shared log =
    (lookup local r.local_logs ≡ some shared) × (lookup shared r.durable_logs_by_shared ≡ some log)

put_log-Holds :
    (r : StorageRegistry) (local shared : ℕ) (old new : DurableLogState)
    → Holds r local shared old
    → Holds (put_log shared new r) local shared new
unfolding put_log
put_log-Holds r local shared old new holds =
    (holds.0, lookup-insert shared shared new r.durable_logs_by_shared ∙ rw (eq_self shared))

append_log_lem :
    (r : StorageRegistry) (local shared : ℕ) (log : DurableLogState) (time : ℕ)
    (headers : List (String × String)) (payload : List ℕ)
    → Holds r local shared log
    → append_log local time headers payload r
      ≡ (ok log.next_sequence, put_log shared (appended time headers payload log) r)
unfolding append_log log_shared_id log_state
append_log_lem r local shared log time headers payload holds = rw (holds.0, holds.1)

replay_log_lem :
    (r : StorageRegistry) (local shared : ℕ) (log : DurableLogState) (from : Option ℕ) (limit : ℕ)
    → Holds r local shared log
    → replay_log local from limit r ≡ (ok (take limit (records_from from log.records)), r)
unfolding replay_log log_shared_id log_state
replay_log_lem r local shared log from limit holds = rw (holds.0, holds.1)

-- An append to a log numbered from one without a gap gives the record the number after the last,
-- and leaves a log that is numbered so. A replay from a sequence, through any handle on the log,
-- then gives the records from that number on, the new one the last, and no more than the limit.
pub replay_log-append_log :
    (r : StorageRegistry) (local reader shared : ℕ) (log : DurableLogState) (time : ℕ)
    (headers : List (String × String)) (payload : List ℕ) (from limit : ℕ)
    → Holds r local shared log
    → Holds r reader shared log
    → IsLog log
    → ((append_log local time headers payload r).0 ≡ ok (suc (length log.records)))
      × IsLog (appended time headers payload log)
      × Holds
          (append_log local time headers payload r).1
          reader
          shared
          (appended time headers payload log)
      × ((replay_log reader (some from) limit (append_log local time headers payload r).1).0
          ≡ ok (take limit (drop (from - 1) (appended time headers payload log).records)))
replay_log-append_log r local reader shared log time headers payload from limit writes reads well =
    let new : DurableLogState = appended time headers payload log in
    let numbered : IsLog new = appended-IsLog time headers payload log well in
    let step = append_log_lem r local shared log time headers payload writes in
    let holds = put_log-Holds r reader shared log new reads in
    let there = subst (λ p. Holds p.1 reader shared new) (sym step) holds in
    (
      ap (λ p. p.0) step ∙ ap (λ n. ok n) (well.1),
      numbered,
      there,
      ap (λ p. p.0) (replay_log_lem _ reader shared new (some from) limit there)
          ∙ ap (λ l. ok (take limit l)) (records_from_lem 1 from new.records (numbered.0)),
    )
