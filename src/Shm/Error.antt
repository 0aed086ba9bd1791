-- ===== src/Shm/Error.antt =====
-- crates/wire/src/error.rs: the errors of the ring protocol and the conversion of the errors of a
-- mapping. Message texts and the code of an ABI error are dropped.
use selium.Base.{ℕ, if◌then◌else◌, Bool, Option}
use selium.Base.Exec.{Exec, raise, pure, map_err}
use selium.Memory.Backend.{MemoryError, Backend, provider_not_set, region_not_found, other}

pub data Error : Type 0 where
  invalid_layout buffer_full buffer_empty reader_behind invalid_frame : Error
  torn_frame : ℕ → Error
  capacity_exceeded : Error
  cas_conflict : ℕ → Option ℕ → Error
  channel_closed connection_lost terminated serialization_failed invalid_region layout_mismatch :
      Error
  abi guest index_out_of_bounds overwritten backpressure_not_supported transport : Error

-- `From<MemoryError> for Error`
abbrev pub from_memory : MemoryError → Error
from_memory MemoryError.capacity_exceeded = Error.capacity_exceeded
from_memory MemoryError.index_out_of_bounds = Error.index_out_of_bounds
from_memory MemoryError.invalid_layout = Error.invalid_layout
from_memory MemoryError.corrupted_header = invalid_frame
from_memory provider_not_set = invalid_region
from_memory (region_not_found id) = invalid_region
from_memory other = guest

-- An operation of the ring protocol on a backend.
abbrev pub Op : Type 0 → Type 0
Op A = Exec Backend Error A

-- `map_err(Error::from)`
abbrev pub from_backend : {A : Type 0} → Exec Backend MemoryError A → Op A
from_backend m b = let (r, b') = m b in (map_err from_memory r, b')

abbrev pub guard : Bool → Error → Op (Unit {0})
guard holds e = if holds then pure tt else raise e
