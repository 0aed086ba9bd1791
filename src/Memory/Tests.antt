-- ===== src/Memory/Tests.antt =====
-- The frame header's codec at a header.
use selium.Base.{◌≡◌, refl, arith, [], ◌∷◌, ◌++◌}
use selium.Base.Exec.{err}
use selium.Memory.Bytes.{to_le}
use selium.Memory.Backend.{corrupted_header}
use selium.Memory.Frame.{FrameHeader, decode, covered, checksum}
use selium.Memory.Frame.Torn.{decode-torn}

abbrev ready_header : FrameHeader
ready_header = record { len = 300; tag = 4000000000; flags = 5 }

-- The second byte of the tag is 41 where 40 was written.
decode-torn_example :
    decode (
      (44 ∷ 1 ∷ 0 ∷ 0 ∷ 0 ∷ 41 ∷ 107 ∷ 238 ∷ 5 ∷ [])
      ++ (to_le 4 (checksum (covered ready_header)) ++ (0 ∷ 0 ∷ 0 ∷ [])))
    ≡ err corrupted_header
decode-torn_example =
    decode-torn ready_header (44 ∷ 1 ∷ 0 ∷ 0 ∷ 0 ∷ []) (107 ∷ 238 ∷ 5 ∷ []) 40 41 refl
      (omega arith, (omega arith, (omega arith, tt))) (omega arith) (omega arith) (omega arith)
