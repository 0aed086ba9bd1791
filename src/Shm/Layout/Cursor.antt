-- ===== src/Shm/Layout/Cursor.antt =====
-- layout.rs: `Cursor`, the mask of a capacity and the rounding of a capacity.
use Prim.Native.Nat.{bit_and}
use selium.Base.{
  ℕ, zero, suc, ◌+◌, ◌-◌, ◌%◌, ◌^◌, min, max, Bool, false, ◌||◌, Option, none, some, leb, nat_beq,
  if◌then◌else◌,
}
use selium.Base.Exec.{Result, ok, err}
use selium.Shm.Error.{Error}

pub record Cursor : Type 0 where
  pub position : ℕ

-- Differences of `u64` wrap; a saturating one stops at 0, as `-` does.
abbrev pub wrapping_sub : ℕ → ℕ → ℕ
wrapping_sub a b = (a + 2 ^ 64 - b) % 2 ^ 64

unfoldable pub advance : Cursor → ℕ → Cursor
advance c delta = record { position = (c.position + delta) % 2 ^ 64 }

unfoldable pub readable : Cursor → ℕ → ℕ
readable c tail = tail - c.position

unfoldable pub writable : Cursor → ℕ → ℕ → ℕ
writable c head capacity = capacity - wrapping_sub c.position head

unfoldable pub masked : Cursor → ℕ → ℕ
masked c mask = bit_and c.position mask

unfoldable pub tail_segment_len : Cursor → ℕ → ℕ
unfolding masked
tail_segment_len c mask = wrapping_sub ((mask + 1) % 2 ^ 64) (masked c mask)

unfoldable pub split_wraparound : Cursor → ℕ → ℕ → ℕ × ℕ
unfolding tail_segment_len
split_wraparound c len mask =
    let tail_seg = min (tail_segment_len c mask) len in (tail_seg, wrapping_sub len tail_seg)

-- `u64::is_power_of_two`: the number is 2 ^ j for some j below the bound.
unfoldable pub is_power_below : ℕ → ℕ → Bool
is_power_below zero n = false
is_power_below (suc j) n = nat_beq n (2 ^ j) || is_power_below j n

abbrev pub is_power_of_two : ℕ → Bool
is_power_of_two n = is_power_below 64 n

unfoldable pub mask_for_capacity : ℕ → Result Error ℕ
mask_for_capacity capacity =
    if is_power_of_two capacity then ok (capacity - 1) else err Error.invalid_layout

-- `u64::checked_next_power_of_two`: the first 2 ^ j, for j from 64 - fuel on, that is not below n.
unfoldable pub next_power_from : ℕ → ℕ → ℕ → Option ℕ
next_power_from zero j n = none
next_power_from (suc fuel) j n =
    let rest = next_power_from fuel (j + 1) n in if leb n (2 ^ j) then some (2 ^ j) else rest

unfoldable pub checked_next_power_of_two : ℕ → Option ℕ
unfolding next_power_from
checked_next_power_of_two n = next_power_from 64 0 n

abbrev pub min_ring_capacity : ℕ
min_ring_capacity = 64

unfoldable pub round_capacity : ℕ → Result Error ℕ
unfolding checked_next_power_of_two
round_capacity capacity = elim (checked_next_power_of_two capacity) [
  | none ↦ err Error.capacity_exceeded
  | some rounded ↦ ok (max rounded min_ring_capacity)
]
