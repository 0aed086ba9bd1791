-- ===== src/Memory/Frame/Codec.antt =====
-- crates/memory/src/frame.rs: the codec of the frame header.
use selium.Base.{ℕ, ◌^◌, ◌<◌, ◌≡◌, refl, List, [], ◌∷◌, arith, nat_beq_iff, length}
use selium.Base.Exec.{ok}
use selium.Memory.Bytes.{from_le-to_le}
use selium.Memory.Frame.{FrameHeader, covered, checksum, hash_bytes, hash_byte, encode, decode}

-- A header whose fields fit `u32`, `u32` and `u8`.
pub record IsHeader (h : FrameHeader) : Type 0 where
  pub len_fits : h.len < 2 ^ 32
  pub tag_fits : h.tag < 2 ^ 32
  pub flags_fit : h.flags < 256

hash_bytes-lt : (hash : ℕ) (bs : List ℕ) → hash < 2 ^ 32 → hash_bytes hash bs < 2 ^ 32
unfolding hash_bytes hash_byte
hash_bytes-lt hash [] h = h
hash_bytes-lt hash (b ∷ bs) h = hash_bytes-lt (hash_byte hash b) bs (omega arith)

pub checksum-lt : (bs : List ℕ) → checksum bs < 2 ^ 32
unfolding checksum
checksum-lt bs = hash_bytes-lt 0x811c9dc5 bs (omega arith)

pub length-encode : (h : FrameHeader) → length (encode h) ≡ 16
unfolding encode
length-encode h = refl

-- A header whose fields fit their machine words is read back from its 16 bytes.
pub decode-encode : (h : FrameHeader) → IsHeader h → decode (encode h) ≡ ok h
unfolding decode encode
decode-encode h v =
    rw
      (
        from_le-to_le 4 (checksum (covered h)) (checksum-lt (covered h)),
        (nat_beq_iff (checksum (covered h)) (checksum (covered h))).1 refl,
        from_le-to_le 4 h.len v.len_fits,
        from_le-to_le 4 h.tag v.tag_fits,
      )
      refl
