-- ===== src/Wire/Framed.antt =====
-- crates/wire/src/framed.rs: the codec of frames over a stream of bytes. A buffer is the bytes that
-- have arrived and are not decoded.
pub mod Buffers
pub mod Chunks
use selium.Base.{
  ℕ, zero, suc, ◌+◌, ◌%◌, ◌^◌, Bool, not, Option, none, some, List, [], ◌∷◌, ◌++◌, ltb,
  if◌then◌else◌, length, take, drop,
}
use selium.Base.Exec.{Result, ok, err}
use selium.Memory.Backend.{MemoryError}
use selium.Memory.Frame.{FrameHeader, encoded_size, is_ready}
use selium.Memory.Frame
use selium.Shm.Error.{Error, from_memory}

-- `(payload, tag, flags)`
pub record Item : Type 0 where
  pub payload : List ℕ
  pub tag : ℕ
  pub flags : ℕ

-- The header of an item; the length is cast to a `u32`.
abbrev pub header_of : Item → FrameHeader
header_of item = record { len = length item.payload % 2 ^ 32; tag = item.tag; flags = item.flags }

-- `Encoder::encode`, onto what the buffer holds
unfoldable pub encode : Item → List ℕ → List ℕ
encode item dst = dst ++ (Frame.encode (header_of item) ++ item.payload)

-- The frame of a header, if the buffer holds it whole and it is committed.
abbrev pub frame_of : List ℕ → Result MemoryError FrameHeader → Result Error (Option Item) × List ℕ
frame_of src (err e) = (err (from_memory e), src)
frame_of src (ok header) =
    if ltb (length src) (encoded_size + header.len)
    then (ok none, src)
    else if not (is_ready header)
    then (ok none, src)
    else (
      ok (
          some (record {
            payload = take header.len (drop encoded_size src);
            tag = header.tag;
            flags = header.flags;
          })),
      drop (encoded_size + header.len) src,
    )

-- `Decoder::decode`: the result and the buffer that is left
unfoldable pub decode : List ℕ → Result Error (Option Item) × List ℕ
decode src =
    if ltb (length src) encoded_size
    then (ok none, src)
    else frame_of src (Frame.decode (take encoded_size src))
