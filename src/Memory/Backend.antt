-- ===== src/Memory/Backend.antt =====
-- crates/memory/src/lib.rs: `MemoryError`, and `PointerBackend`, the mapping of a region into a
-- guest. A region is its size and its bytes. The size of a region is below 2 ^ 64.
pub mod Words
use selium.Base.{
  ℕ, ◌+◌, ◌*◌, ◌%◌, ◌^◌, ◌≤◌, ◌<◌, Bool, true, false, Option, none, some, List, ◌&&◌, not, ltb,
  nat_beq, checked_add, if◌then◌else◌, length,
}
use selium.Base.Exec.{Result, ok, err, Exec}
use selium.Memory.Bytes.{Bytes, from_le, to_le, slice, patch}

-- The message text of `Other` is dropped.
pub data MemoryError : Type 0 where
  capacity_exceeded index_out_of_bounds invalid_layout corrupted_header provider_not_set :
      MemoryError
  region_not_found : ℕ → MemoryError
  other : MemoryError

pub record Backend : Type 0 where
  pub size : ℕ
  pub bytes : Bytes

abbrev pub MemoryResult : Type 0 → Type 0
MemoryResult A = Result MemoryError A

-- `end > self.size`, where the end is a checked sum
unfoldable pub checked_range : ℕ → ℕ → ℕ → MemoryResult (Unit {0})
checked_range size offset len = elim (checked_add offset len) [
  | none ↦ err capacity_exceeded
  | some end ↦ if ltb size end then err index_out_of_bounds else ok tt
]

-- `offset + 8 > self.size`, where the sum is a plain `u64` sum
unfoldable pub word_range : ℕ → ℕ → MemoryResult (Unit {0})
word_range size offset = if ltb size ((offset + 8) % 2 ^ 64) then err index_out_of_bounds else ok tt

unfoldable pub read : ℕ → ℕ → Exec Backend MemoryError (List ℕ)
unfolding checked_range
read offset len b = elim (checked_range b.size offset len) [
  | err e ↦ (err e, b)
  | ok _ ↦ (ok (slice b.bytes offset len), b)
]

unfoldable pub write : ℕ → List ℕ → Exec Backend MemoryError (Unit {0})
unfolding checked_range
write offset bytes b = elim (checked_range b.size offset (length bytes)) [
  | err e ↦ (err e, b)
  | ok _ ↦ (ok tt, record b { bytes = patch b.bytes offset bytes })
]

-- The little-endian `u64` at an offset.
unfoldable pub word : Backend → ℕ → ℕ
word b offset = from_le (slice b.bytes offset 8)

unfoldable pub set_word : Backend → ℕ → ℕ → Backend
set_word b offset value = record b { bytes = patch b.bytes offset (to_le 8 value) }

unfoldable pub atomic_load_u64 : ℕ → Exec Backend MemoryError ℕ
unfolding word_range
atomic_load_u64 offset b = elim (word_range b.size offset) [
  | err e ↦ (err e, b)
  | ok _ ↦ (ok (word b offset), b)
]

unfoldable pub atomic_store_u64 : ℕ → ℕ → Exec Backend MemoryError (Unit {0})
unfolding word_range
atomic_store_u64 offset value b = elim (word_range b.size offset) [
  | err e ↦ (err e, b)
  | ok _ ↦ (ok tt, set_word b offset value)
]

-- The sum wraps, and the previous value is returned.
unfoldable pub fetch_add_u64 : ℕ → ℕ → Exec Backend MemoryError ℕ
unfolding word_range
fetch_add_u64 offset value b = elim (word_range b.size offset) [
  | err e ↦ (err e, b)
  | ok _ ↦ (ok (word b offset), set_word b offset ((word b offset + value) % 2 ^ 64))
]

-- `compare_exchange_weak` may fail although the values agree: `spurious` is that choice of the
-- processor. The source returns the loaded value on success and on failure alike.
unfoldable pub compare_exchange_u64 : Bool → ℕ → ℕ → ℕ → Exec Backend MemoryError ℕ
unfolding word_range
compare_exchange_u64 spurious offset current new b = elim (word_range b.size offset) [
  | err e ↦ (err e, b)
  | ok _ ↦ (
    ok (word b offset),
    if nat_beq (word b offset) current && not spurious then set_word b offset new else b,
  )
]
