-- ===== src/Shm/Layout.antt =====
-- crates/shm/src/layout.rs: the shared-memory ring protocol. The offsets of the words that the
-- participants share, and the sizes.
pub mod Cursor
pub mod Words
pub mod Reserve
pub mod Data
pub mod Frames
pub mod Window
pub mod Access
pub mod Commit
pub mod Slots
pub mod Loads
pub mod Exchange
pub mod Alone
pub mod Spurious
pub mod Backpressure
use selium.Base.{ℕ, ◌*◌}

abbrev pub generation_counter_offset : ℕ
generation_counter_offset = 0

abbrev pub next_tail_offset : ℕ
next_tail_offset = 8

abbrev pub writer_count_offset : ℕ
writer_count_offset = 16

abbrev pub reader_slots_offset : ℕ
reader_slots_offset = 24

abbrev pub next_writer_id_offset : ℕ
next_writer_id_offset = 1048

abbrev pub reader_slot_counter_offset : ℕ
reader_slot_counter_offset = 1056

abbrev pub backpressure_offset : ℕ
backpressure_offset = 1064

abbrev pub shared_capacity_offset : ℕ
shared_capacity_offset = 1072

abbrev pub writer_slots_offset : ℕ
writer_slots_offset = 1080

abbrev pub writer_slot_counter_offset : ℕ
writer_slot_counter_offset = 2104

abbrev pub max_reader_slots : ℕ
max_reader_slots = 128

abbrev pub max_writer_slots : ℕ
max_writer_slots = 128

-- `RING_HEADER_SIZE`
abbrev pub data_offset : ℕ
data_offset = 4096

abbrev pub min_region_bytes : ℕ
min_region_bytes = data_offset * 2
