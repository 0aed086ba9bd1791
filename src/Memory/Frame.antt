-- ===== src/Memory/Frame.antt =====
-- crates/memory/src/frame.rs: the 16-byte frame header and its FNV-1a checksum. A `u32` and a `u8`
-- are numbers below 2 ^ 32 and 256.
pub mod Codec
pub mod Torn
use Prim.Native.Nat.{bit_and, bit_or, bit_xor}
use selium.Base.{
  ℕ, ◌+◌, ◌*◌, ◌%◌, ◌^◌, ◌<◌, Bool, List, [], ◌∷◌, ◌++◌, not, ltb, nat_beq, if◌then◌else◌, length,
  take, drop, get_or,
}
use selium.Base.Exec.{ok, err}
use selium.Memory.Bytes.{from_le, to_le}
use selium.Memory.Backend.{MemoryError, invalid_layout, corrupted_header, MemoryResult}

pub record FrameHeader : Type 0 where
  pub len : ℕ
  pub tag : ℕ
  pub flags : ℕ

abbrev pub encoded_size : ℕ
encoded_size = 16

abbrev pub flag_ready : ℕ
flag_ready = 1

abbrev pub flag_aborted : ℕ
flag_aborted = 2

abbrev pub flag_stream_item : ℕ
flag_stream_item = 4

abbrev pub flag_stream_end : ℕ
flag_stream_end = 8

abbrev pub flag_stream_cancel : ℕ
flag_stream_cancel = 16

abbrev pub flag_stream_error : ℕ
flag_stream_error = 32

-- One round of the loop of `checksum`.
unfoldable pub hash_byte : ℕ → ℕ → ℕ
hash_byte hash byte = bit_xor hash byte * 0x01000193 % 2 ^ 32

unfoldable pub hash_bytes : ℕ → List ℕ → ℕ
hash_bytes hash [] = hash
hash_bytes hash (byte ∷ bytes) = hash_bytes (hash_byte hash byte) bytes

unfoldable pub checksum : List ℕ → ℕ
unfolding hash_bytes hash_byte
checksum bytes = hash_bytes 0x811c9dc5 bytes

-- The 9 bytes that the checksum covers.
abbrev pub covered : FrameHeader → List ℕ
covered h = to_le 4 h.len ++ (to_le 4 h.tag ++ (h.flags ∷ []))

unfoldable pub encode : FrameHeader → List ℕ
encode h = covered h ++ (to_le 4 (checksum (covered h)) ++ (0 ∷ 0 ∷ 0 ∷ []))

-- Behind the test of the length every `get` of the source is within the buffer.
unfoldable pub decode : List ℕ → MemoryResult FrameHeader
decode bytes =
    if ltb (length bytes) encoded_size
    then err invalid_layout
    else if not (nat_beq (from_le (take 4 (drop 9 bytes))) (checksum (take 9 bytes)))
    then err corrupted_header
    else ok (record {
      len = from_le (take 4 bytes);
      tag = from_le (take 4 (drop 4 bytes));
      flags = get_or bytes 8 0;
    })

unfoldable pub frame_size : FrameHeader → ℕ
frame_size h = encoded_size + h.len

-- `flags & FLAG != 0`
abbrev has_flag : FrameHeader → ℕ → Bool
has_flag h flag = not (nat_beq (bit_and h.flags flag) 0)

unfoldable pub is_ready : FrameHeader → Bool
is_ready h = has_flag h flag_ready

unfoldable pub is_aborted : FrameHeader → Bool
is_aborted h = has_flag h flag_aborted

unfoldable pub is_stream_item : FrameHeader → Bool
is_stream_item h = has_flag h flag_stream_item

unfoldable pub is_stream_end : FrameHeader → Bool
is_stream_end h = has_flag h flag_stream_end

unfoldable pub is_stream_cancel : FrameHeader → Bool
is_stream_cancel h = has_flag h flag_stream_cancel

unfoldable pub is_stream_error : FrameHeader → Bool
is_stream_error h = has_flag h flag_stream_error
