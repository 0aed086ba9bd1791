-- ===== src/Shm/Layout/Data.antt =====
-- layout.rs: bytes of the ring data area at a logical position, with wraparound.
use Prim.Native.Nat.{bit_and}
use selium.Base.{
  ℕ, ◌+◌, ◌%◌, ◌^◌, min, List, [], ◌++◌, ltb, leb, nat_beq, if◌then◌else◌, length, take, drop,
}
use selium.Base.Exec.{pure, raise, ◌>>=◌}
use selium.Memory.Backend.{read, write}
use selium.Shm.Error.{Error, Op, from_backend}
use selium.Shm.Layout.{data_offset}
use selium.Shm.Layout.Cursor.{wrapping_sub}

-- Sums of `u64`.
abbrev pub add64 : ℕ → ℕ → ℕ
add64 a b = (a + b) % 2 ^ 64

unfoldable pub read_at : ℕ → ℕ → ℕ → ℕ → Op (List ℕ)
read_at pos len mask capacity =
    let raw_pos = add64 data_offset (bit_and pos mask) in
    let ring_end = add64 data_offset capacity in
    let tail_len = wrapping_sub ring_end raw_pos in
    if nat_beq len 0
    then pure []
    else if ltb capacity len
    then raise Error.invalid_frame
    else if leb (add64 raw_pos len) ring_end
    then from_backend (read raw_pos len)
    else from_backend (read raw_pos tail_len) >>= λ tail.
        from_backend (read data_offset (wrapping_sub len tail_len)) >>= λ head. pure (tail ++ head)

-- A write of no bytes is left out.
unfoldable pub write_part : ℕ → List ℕ → Op (Unit {0})
write_part offset bytes =
    if ltb 0 (length bytes) then from_backend (write offset bytes) else pure tt

unfoldable pub write_at : ℕ → List ℕ → ℕ → ℕ → Op (Unit {0})
unfolding write_part
write_at pos bytes mask capacity =
    let raw_start = add64 (bit_and pos mask) data_offset in
    let ring_end = add64 data_offset capacity in
    let tail = min (length bytes) (wrapping_sub ring_end raw_start) in
    if ltb capacity (length bytes)
    then raise Error.buffer_full
    else write_part raw_start (take tail bytes) >>= λ _. write_part data_offset (drop tail bytes)
