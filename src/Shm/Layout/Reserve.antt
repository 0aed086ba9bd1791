-- ===== src/Shm/Layout/Reserve.antt =====
-- layout.rs: reserving space at the write tail, against other participants that change the shared
-- words between the loads and the exchange.
use selium.Base.{
  ℕ, ◌+◌, ◌-◌, Bool, true, false, ◌||◌, Option, none, some, List, [], ◌∷◌, ltb, nat_beq, u64_max,
  if◌then◌else◌,
}
use selium.Base.Exec.{Result, ok, err, pure, raise, lift, modify, ◌>>=◌, ◌>>◌}
use selium.Memory.Backend.{Backend}
use selium.Shm.Error.{Error, Op}
use selium.Shm.Layout.Words.{
  load_next_tail, cas_next_tail, minimum_reader_position, minimum_writer_position,
}

-- `unwrap_or(tail)`
abbrev pub head_or : Option ℕ → ℕ → ℕ
head_or none tail = tail
head_or (some head) tail = head

-- `protect && next.saturating_sub(head) > capacity`
abbrev pub overruns : Bool → ℕ → ℕ → ℕ → Bool
overruns false next head capacity = false
overruns true next head capacity = ltb capacity (next - head)

unfoldable pub reserve_tail_next : ℕ → ℕ → ℕ → Option ℕ → Option ℕ → Bool → Bool → Result Error ℕ
reserve_tail_next tail len capacity min_reader min_writer protect_readers protect_writers =
    if nat_beq len 0 || ltb capacity len
    then err Error.capacity_exceeded
    else if ltb (tail + len) u64_max
    then (if overruns protect_readers (tail + len) (head_or min_reader tail) capacity
        then err Error.buffer_full
        else if overruns protect_writers (tail + len) (head_or min_writer tail) capacity
        then err Error.buffer_full
        else ok (tail + len))
    else err Error.capacity_exceeded

-- What happens around one round of the loop: the changes that other participants make between its
-- steps, and whether the exchange fails spuriously.
pub record Round : Type 0 where
  pub before_readers : Backend → Backend
  pub before_writers : Backend → Backend
  pub before_exchange : Backend → Backend
  pub spurious : Bool

-- A round in which nobody else acts and the exchange does not fail spuriously.
abbrev pub quiet : Round
quiet = record {
  before_readers = λ b. b;
  before_writers = λ b. b;
  before_exchange = λ b. b;
  spurious = false;
}

unfoldable pub when_protected : Bool → Op (Option ℕ) → Op (Option ℕ)
when_protected true m = m
when_protected false m = pure none

-- The tail, and the least positions that are protected.
unfoldable pub load_positions : Round → Bool → Bool → Op (ℕ × Option ℕ × Option ℕ)
unfolding when_protected
load_positions r protect_readers protect_writers = do
  tail ← load_next_tail
  modify r.before_readers
  min_reader ← when_protected protect_readers minimum_reader_position
  modify r.before_writers
  min_writer ← when_protected protect_writers minimum_writer_position
  pure (tail, min_reader, min_writer)

-- `prev == tail` is the source's test that the exchange took place.
unfoldable pub exchange_tail : Round → ℕ → ℕ → Op (Option ℕ)
exchange_tail r tail next = do
  modify r.before_exchange
  prev ← cas_next_tail r.spurious tail next
  pure (if nat_beq prev tail then some tail else none)

-- One round of the loop: `none` goes round again.
unfoldable pub reserve_round : Round → ℕ → ℕ → Bool → Bool → Op (Option ℕ)
reserve_round r len capacity protect_readers protect_writers =
    load_positions r protect_readers protect_writers >>= λ positions.
    lift (
      reserve_tail_next positions.0 len capacity positions.1 positions.2 protect_readers
        protect_writers)
    >>= λ next. exchange_tail r positions.0 next

-- The loop, one round of the schedule at a time: `none` is a loop that still spins when the
-- schedule ends. The back-off delay has no effect on the memory.
unfoldable pub reserve_loop : List Round → ℕ → ℕ → Bool → Bool → Op (Option ℕ)
reserve_loop [] len capacity protect_readers protect_writers = pure none
reserve_loop (r ∷ rs) len capacity protect_readers protect_writers =
    reserve_round r len capacity protect_readers protect_writers >>= λ granted. elim granted [
      | some pos ↦ pure (some pos)
      | none ↦ reserve_loop rs len capacity protect_readers protect_writers
    ]

unfoldable pub reserve_tail : List Round → ℕ → ℕ → Bool → Bool → Op (Option ℕ)
reserve_tail rounds len capacity protect_readers protect_writers =
    if nat_beq len 0 || ltb capacity len
    then raise Error.capacity_exceeded
    else reserve_loop rounds len capacity protect_readers protect_writers
