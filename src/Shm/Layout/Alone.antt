-- ===== src/Shm/Layout/Alone.antt =====
-- crates/shm/src/layout.rs: the reservation loop of a participant that runs alone.
use selium.Base.{
  ℕ, ◌^◌, ◌≤◌, ◌<◌, ◌≡◌, refl, inl, inr, Bool, true, false, ◌||◌, Option, none, some, List, ◌∷◌,
  arith, ltb, nat_beq, if◌then◌else◌, Bool-cases,
}
use selium.Base.Exec.{Result, ok, err}
use selium.Memory.Backend.{Backend, word, set_word}
use selium.Memory.Backend.Words.{load_in_range, exchange_in_range}
use selium.Shm.Error.{Error}
use selium.Shm.Layout.{
  next_tail_offset, reader_slots_offset, writer_slots_offset, data_offset, max_reader_slots,
  max_writer_slots,
}
use selium.Shm.Layout.Words.{
  load_next_tail, cas_next_tail, minimum_reader_position, minimum_writer_position,
}
use selium.Shm.Layout.Reserve.{
  Round, quiet, load_positions, exchange_tail, reserve_round, reserve_tail_next, reserve_loop,
  reserve_tail,
}
use selium.Shm.Layout.Slots.{fold_slots, scan_slots_lem}

-- A round alone whose exchange fails spuriously.
abbrev pub weak : Round
weak = record quiet { spurious = true }

abbrev pub readers : Bool → Backend → Option ℕ
readers true b = fold_slots b max_reader_slots reader_slots_offset none
readers false b = none

abbrev pub writers : Bool → Backend → Option ℕ
writers true b = fold_slots b max_writer_slots writer_slots_offset none
writers false b = none

minimum_reader_lem :
    (b : Backend)
    → data_offset ≤ b.size
    → b.size < 2 ^ 63
    → minimum_reader_position b ≡ (ok (readers true b), b)
unfolding minimum_reader_position
minimum_reader_lem b h s =
    scan_slots_lem b max_reader_slots reader_slots_offset none (omega arith) (omega arith)

minimum_writer_lem :
    (b : Backend)
    → data_offset ≤ b.size
    → b.size < 2 ^ 63
    → minimum_writer_position b ≡ (ok (writers true b), b)
unfolding minimum_writer_position
minimum_writer_lem b h s =
    scan_slots_lem b max_writer_slots writer_slots_offset none (omega arith) (omega arith)

load_positions_alone :
    (s : Bool) (pr pw : Bool) (b : Backend)
    → data_offset ≤ b.size
    → b.size < 2 ^ 63
    → load_positions (record quiet { spurious = s }) pr pw b
      ≡ (ok (word b next_tail_offset, readers pr b, writers pw b), b)
unfolding load_positions load_next_tail
load_positions_alone s true true b h k =
    rw (load_in_range b next_tail_offset (omega arith) (omega arith))
      (rw (minimum_reader_lem b h k) (rw (minimum_writer_lem b h k) refl))
load_positions_alone s true false b h k =
    rw (load_in_range b next_tail_offset (omega arith) (omega arith))
      (rw (minimum_reader_lem b h k) refl)
load_positions_alone s false true b h k =
    rw (load_in_range b next_tail_offset (omega arith) (omega arith))
      (rw (minimum_writer_lem b h k) refl)
load_positions_alone s false false b h k =
    rw (load_in_range b next_tail_offset (omega arith) (omega arith)) refl

exchange_alone :
    (s : Bool) (next : ℕ) (b : Backend)
    → data_offset ≤ b.size
    → b.size < 2 ^ 63
    → exchange_tail (record quiet { spurious = s }) (word b next_tail_offset) next b
      ≡ (ok (some (word b next_tail_offset)), if s then b else set_word b next_tail_offset next)
unfolding exchange_tail cas_next_tail
exchange_alone true next b h k =
    rw
      (exchange_in_range b next_tail_offset (omega arith) (omega arith) true
        (word b next_tail_offset) next)
      (ground arith)
exchange_alone false next b h k =
    rw
      (exchange_in_range b next_tail_offset (omega arith) (omega arith) false
        (word b next_tail_offset) next)
      (ground arith)

-- What `reserve_tail_next` answers to the shared words of a mapping.
abbrev pub next_of : ℕ → ℕ → Bool → Bool → Backend → Result Error ℕ
next_of len capacity pr pw b =
    reserve_tail_next (word b next_tail_offset) len capacity (readers pr b) (writers pw b) pr pw

granted_bounds :
    (tail len capacity : ℕ) (r w : Option ℕ) (pr pw : Bool) (next : ℕ)
    → reserve_tail_next tail len capacity r w pr pw ≡ ok next
    → (nat_beq len 0 || ltb capacity len) ≡ false
unfolding reserve_tail_next
granted_bounds tail len capacity r w pr pw next h = ground arith

module _ (s : Bool) (rs : List Round) (len capacity : ℕ) (pr pw : Bool) (b : Backend)
    (room : data_offset ≤ b.size) (small : b.size < 2 ^ 63) where
  -- A reservation that fits is granted in the first round.
  pub reserve_tail_alone :
      {next : ℕ}
      → next_of len capacity pr pw b ≡ ok next
      → reserve_tail (record quiet { spurious = s } ∷ rs) len capacity pr pw b
        ≡ (ok (some (word b next_tail_offset)), if s then b else set_word b next_tail_offset next)
  unfolding reserve_tail reserve_loop reserve_round
  reserve_tail_alone {next} h =
      rw
        (granted_bounds (word b next_tail_offset) len capacity (readers pr b) (writers pw b) pr pw
          next h)
        (rw (load_positions_alone s pr pw b room small)
          (rw h (rw (exchange_alone s next b room small) refl)))

  -- One that does not fit is refused, and nothing changes.
  pub reserve_tail_refused :
      {e : Error}
      → (nat_beq len 0 || ltb capacity len) ≡ false
      → next_of len capacity pr pw b ≡ err e
      → reserve_tail (record quiet { spurious = s } ∷ rs) len capacity pr pw b ≡ (err e, b)
  unfolding reserve_tail reserve_loop reserve_round
  reserve_tail_refused {e} g h = rw g (rw (load_positions_alone s pr pw b room small) (rw h refl))

-- What the loop makes of the decision of `reserve_tail_next`.
abbrev pub settled : Result Error ℕ → Backend → Result Error (Option ℕ) × Backend
settled (ok next) b = (ok (some (word b next_tail_offset)), set_word b next_tail_offset next)
settled (err e) b = (err e, b)

refused_length :
    (tail len capacity : ℕ) (r w : Option ℕ) (pr pw : Bool)
    → (nat_beq len 0 || ltb capacity len) ≡ true
    → reserve_tail_next tail len capacity r w pr pw ≡ err Error.capacity_exceeded
unfolding reserve_tail_next
refused_length tail len capacity r w pr pw h = rw h

reserve_tail-too_long :
    (rs : List Round) (len capacity : ℕ) (pr pw : Bool) (b : Backend)
    → (nat_beq len 0 || ltb capacity len) ≡ true
    → reserve_tail (quiet ∷ rs) len capacity pr pw b ≡ settled (next_of len capacity pr pw b) b
unfolding reserve_tail
reserve_tail-too_long rs len capacity pr pw b h =
    rw (
      h,
      refused_length (word b next_tail_offset) len capacity (readers pr b) (writers pw b) pr pw h,
    )

-- On a mapping that holds the header, the loop of a participant alone ends in its first round, as
-- `reserve_tail_next` decides at the tail and at the least positions of the protected slots: a
-- decision for a new tail grants the old one and moves it, and an error leaves the mapping as it is.
pub reserve_tail-reserve_tail_next :
    (rs : List Round) (len capacity : ℕ) (pr pw : Bool) (b : Backend)
    → data_offset ≤ b.size
    → b.size < 2 ^ 63
    → reserve_tail (quiet ∷ rs) len capacity pr pw b ≡ settled (next_of len capacity pr pw b) b
reserve_tail-reserve_tail_next rs len capacity pr pw b room small =
    decide (next_of len capacity pr pw b) refl
  where
    decide :
        (r : Result Error ℕ)
        → next_of len capacity pr pw b ≡ r
        → reserve_tail (quiet ∷ rs) len capacity pr pw b ≡ settled (next_of len capacity pr pw b) b
    decide (ok next) h = rw h (reserve_tail_alone false rs len capacity pr pw b room small h)
    decide (err e) h = elim (Bool-cases (nat_beq len 0 || ltb capacity len)) [
      | inl bad ↦ reserve_tail-too_long rs len capacity pr pw b bad
      | inr good ↦ rw h (reserve_tail_refused false rs len capacity pr pw b room small good h)
    ]
