-- ===== src/Abi/Framing.antt =====
-- crates/abi/src/lib.rs: the length prefix of a payload, and the status word of a host call.
pub mod Codec
use selium.Base.{
  ℕ, ◌+◌, ◌-◌, ◌*◌, ◌/◌, ◌%◌, ◌^◌, ◌≤◌, ◌<◌, Bool, true, false, not, Option, none, some, List, [],
  ◌∷◌, ◌++◌, ◌≡◌, refl, sym, ap, ◌∙◌, arith, ltb, nat_beq, nat_beq_refl, le→ltb, lt→ltb,
  if◌then◌else◌, length, take, drop, length-append, length-drop,
}
use selium.Base.Exec.{Result, ok, err}
use selium.Memory.Bytes.{IsBytes, from_le, to_le, from_le-to_le, length-to_le}

-- `AbiErrorCode`
pub data AbiErrorCode : Type 0 where
  invalid_handle detached_resource permission_denied quota_exceeded malformed_payload not_found
        timeout internal :
      AbiErrorCode

unfoldable pub frame_bytes : List ℕ → Result AbiErrorCode (List ℕ)
frame_bytes payload =
    if ltb (length payload) (2 ^ 32)
    then ok (to_le 4 (length payload) ++ payload)
    else err malformed_payload

-- A prefix of 4 bytes, a frame within the buffer, and nothing behind it.
unfoldable pub deframe_bytes : List ℕ → Result AbiErrorCode (List ℕ)
deframe_bytes payload =
    let len = from_le (take 4 payload) in
    if ltb (length payload) 4
    then err malformed_payload
    else if ltb (length payload) (4 + len)
    then err malformed_payload
    else if not (nat_beq (length payload) (len + 4))
    then err malformed_payload
    else ok (take len (drop 4 payload))

-- The status stands in the upper half, so that `|` is a sum.
unfoldable pub pack_hostcall_status : ℕ → ℕ → ℕ
pack_hostcall_status status value = status * 2 ^ 32 + value

unfoldable pub unpack_hostcall_status : ℕ → ℕ × ℕ
unpack_hostcall_status encoded = (encoded / 2 ^ 32 % 2 ^ 32, encoded % 2 ^ 32)
