-- ===== src/Shm/Layout/Words.antt =====
-- layout.rs: the words of the coordination header, and the slots of readers and writers.
use selium.Base.{
  ℕ, zero, suc, ◌+◌, ◌-◌, ◌*◌, ◌%◌, ◌^◌, min, Bool, Option, none, some, List, [], ◌∷◌, ltb, leb,
  u64_max, checked_add, if◌then◌else◌,
}
use selium.Base.Exec.{Result, ok_or, pure, raise, lift, ◌>>=◌, ◌>>◌}
use selium.Memory.Backend.{
  read, write, atomic_load_u64, atomic_store_u64, fetch_add_u64, compare_exchange_u64,
}
use selium.Shm.Error.{Error, Op, from_backend}
use selium.Shm.Layout.{
  generation_counter_offset, next_tail_offset, writer_count_offset, reader_slots_offset,
  next_writer_id_offset, reader_slot_counter_offset, backpressure_offset, shared_capacity_offset,
  writer_slots_offset, writer_slot_counter_offset, max_reader_slots, max_writer_slots,
}

unfoldable pub load_generation : Op ℕ
load_generation = from_backend (atomic_load_u64 generation_counter_offset)

-- `prev + 1` on `u64`
unfoldable pub bump_generation : Op ℕ
bump_generation = do
  prev ← from_backend (fetch_add_u64 generation_counter_offset 1)
  pure ((prev + 1) % 2 ^ 64)

unfoldable pub load_next_tail : Op ℕ
load_next_tail = from_backend (atomic_load_u64 next_tail_offset)

unfoldable pub cas_next_tail : Bool → ℕ → ℕ → Op ℕ
cas_next_tail spurious current new =
    from_backend (compare_exchange_u64 spurious next_tail_offset current new)

unfoldable pub load_writer_count : Op ℕ
load_writer_count = from_backend (atomic_load_u64 writer_count_offset)

unfoldable pub increment_writer_count : Op ℕ
increment_writer_count = from_backend (fetch_add_u64 writer_count_offset 1)

-- Adding `u64::MAX` takes one away.
unfoldable pub decrement_writer_count : Op (Unit {0})
decrement_writer_count = do
  from_backend (fetch_add_u64 writer_count_offset u64_max) >>= λ _. pure tt

unfoldable pub load_shared_capacity : Op ℕ
load_shared_capacity = from_backend (atomic_load_u64 shared_capacity_offset)

unfoldable pub store_shared_capacity : ℕ → Op (Unit {0})
store_shared_capacity capacity = from_backend (atomic_store_u64 shared_capacity_offset capacity)

-- `bytes.first()`
first_byte : List ℕ → Op ℕ
first_byte [] = raise Error.invalid_layout
first_byte (x ∷ xs) = pure x

unfoldable pub load_backpressure : Op ℕ
unfolding first_byte
load_backpressure = from_backend (read backpressure_offset 1) >>= first_byte

unfoldable pub store_backpressure : ℕ → Op (Unit {0})
store_backpressure value = from_backend (write backpressure_offset (value ∷ []))

-- A slot holds its position plus one; zero is a free slot.
unfoldable pub encode_reader_position : ℕ → Result Error ℕ
encode_reader_position position = ok_or (checked_add position 1) Error.capacity_exceeded

unfoldable pub encode_writer_position : ℕ → Result Error ℕ
encode_writer_position position = ok_or (checked_add position 1) Error.capacity_exceeded

unfoldable pub load_reader_slot : ℕ → Op ℕ
load_reader_slot slot =
    if leb max_reader_slots slot
    then raise Error.invalid_layout
    else from_backend (atomic_load_u64 (reader_slots_offset + slot * 8))

unfoldable pub store_reader_slot : ℕ → ℕ → Op (Unit {0})
store_reader_slot slot value =
    if leb max_reader_slots slot
    then raise Error.invalid_layout
    else from_backend (atomic_store_u64 (reader_slots_offset + slot * 8) value)

unfoldable pub load_writer_slot : ℕ → Op ℕ
load_writer_slot slot =
    if leb max_writer_slots slot
    then raise Error.invalid_layout
    else from_backend (atomic_load_u64 (writer_slots_offset + slot * 8))

unfoldable pub store_writer_slot : ℕ → ℕ → Op (Unit {0})
store_writer_slot slot value =
    if leb max_writer_slots slot
    then raise Error.invalid_layout
    else from_backend (atomic_store_u64 (writer_slots_offset + slot * 8) value)

unfoldable pub update_reader_slot : ℕ → ℕ → Op (Unit {0})
unfolding encode_reader_position store_reader_slot
update_reader_slot slot position =
    lift (encode_reader_position position) >>= λ encoded. store_reader_slot slot encoded

unfoldable pub update_writer_slot : ℕ → ℕ → Op (Unit {0})
unfolding encode_writer_position store_writer_slot
update_writer_slot slot position =
    lift (encode_writer_position position) >>= λ encoded. store_writer_slot slot encoded

unfoldable pub release_reader_slot : ℕ → Op (Unit {0})
unfolding store_reader_slot
release_reader_slot slot = store_reader_slot slot 0

unfoldable pub release_writer_slot : ℕ → Op (Unit {0})
unfolding store_writer_slot
release_writer_slot slot = store_writer_slot slot 0

unfoldable pub allocate_reader_slot : ℕ → Op ℕ
unfolding encode_reader_position store_reader_slot
allocate_reader_slot position = do
  slot_index ← from_backend (fetch_add_u64 reader_slot_counter_offset 1)
  if leb max_reader_slots slot_index then raise Error.capacity_exceeded else do
    encoded ← lift (encode_reader_position position)
    store_reader_slot slot_index encoded
    pure slot_index

-- `ChannelRegion::allocate_writer_slot` of region.rs
unfoldable pub allocate_writer_slot : ℕ → Op ℕ
unfolding encode_writer_position store_writer_slot
allocate_writer_slot position = do
  slot_index ← from_backend (fetch_add_u64 writer_slot_counter_offset 1)
  if leb max_writer_slots slot_index then raise Error.capacity_exceeded else do
    encoded ← lift (encode_writer_position position)
    store_writer_slot slot_index encoded
    pure slot_index

unfoldable pub allocate_writer_id : Op ℕ
allocate_writer_id = do
  id ← from_backend (fetch_add_u64 next_writer_id_offset 1)
  if ltb (2 ^ 32 - 1) id then raise Error.capacity_exceeded else pure id

-- One slot of the scan: a free slot is passed over.
abbrev pub lower : Option ℕ → ℕ → Option ℕ
lower minimum zero = minimum
lower none (suc position) = some position
lower (some current) (suc position) = some (min current position)

-- The scan of `count` slots from an offset on.
unfoldable pub scan_slots : ℕ → ℕ → Option ℕ → Op (Option ℕ)
scan_slots zero offset minimum = pure minimum
scan_slots (suc count) offset minimum = from_backend (atomic_load_u64 offset) >>= λ encoded.
    scan_slots count (offset + 8) (lower minimum encoded)

unfoldable pub minimum_reader_position : Op (Option ℕ)
minimum_reader_position = scan_slots max_reader_slots reader_slots_offset none

unfoldable pub minimum_writer_position : Op (Option ℕ)
minimum_writer_position = scan_slots max_writer_slots writer_slots_offset none

-- `count` words set to zero from an offset on
unfoldable pub clear_slots : ℕ → ℕ → Op (Unit {0})
clear_slots zero offset = pure tt
clear_slots (suc count) offset =
    from_backend (atomic_store_u64 offset 0) >>= λ _. clear_slots count (offset + 8)

unfoldable pub init_ring : Op (Unit {0})
init_ring = do
  from_backend (atomic_store_u64 generation_counter_offset 0)
  from_backend (atomic_store_u64 next_tail_offset 0)
  from_backend (atomic_store_u64 writer_count_offset 0)
  clear_slots max_reader_slots reader_slots_offset
  from_backend (atomic_store_u64 next_writer_id_offset 0)
  from_backend (atomic_store_u64 reader_slot_counter_offset 0)
  clear_slots max_writer_slots writer_slots_offset
  from_backend (atomic_store_u64 writer_slot_counter_offset 0)
