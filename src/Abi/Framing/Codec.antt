-- ===== src/Abi/Framing/Codec.antt =====
-- crates/abi/src/lib.rs: what `deframe_bytes` makes of a frame, of a part of one and of one with
-- bytes behind it.
use selium.Base.{
  ℕ, zero, suc, ◌^◌, ◌<◌, false, List, [], ◌∷◌, ◌++◌, ◌≡◌, refl, ap, ◌∙◌, arith, nat_beq,
  nat_beq_refl, lt→ltb, if◌then◌else◌, length, take, drop, length-append, length-take,
}
use selium.Base.Exec.{ok, err}
use selium.Memory.Bytes.{from_le, to_le, from_le-to_le}
use selium.Abi.Framing.{malformed_payload, frame_bytes, deframe_bytes}

-- A buffer that starts with the length of a payload.
prefix_read :
    (n : ℕ) (rest : List ℕ)
    → n < 2 ^ 32
    → (from_le (take 4 (to_le 4 n ++ rest)) ≡ n) × (drop 4 (to_le 4 n ++ rest) ≡ rest)
prefix_read n rest h = (from_le-to_le 4 n h, refl)

-- What follows the prefix decides: too few bytes, too many, or the payload.
deframe_prefix :
    (n : ℕ) (rest : List ℕ)
    → n < 2 ^ 32
    → deframe_bytes (to_le 4 n ++ rest)
      ≡ (if nat_beq (length rest) n then ok (take n rest) else err malformed_payload)
unfolding deframe_bytes
deframe_prefix n rest h =
    let read : from_le (take 4 (to_le 4 n ++ rest)) ≡ n = (prefix_read n rest h).0 in
    rw read (ground arith)

take-whole : (xs : List ℕ) → take (length xs) xs ≡ xs
take-whole [] = refl
take-whole (x ∷ xs) = ap (λ l. x ∷ l) (take-whole xs)

deframe_bytes-take :
    (payload : List ℕ)
    → length payload < 2 ^ 32
    → (n : ℕ) → n < length (to_le 4 (length payload) ++ payload)
    → deframe_bytes (take n (to_le 4 (length payload) ++ payload)) ≡ err malformed_payload
unfolding deframe_bytes
deframe_bytes-take payload h zero short = refl
deframe_bytes-take payload h (suc zero) short = refl
deframe_bytes-take payload h (suc (suc zero)) short = refl
deframe_bytes-take payload h (suc (suc (suc zero))) short = refl
deframe_bytes-take payload h (suc (suc (suc (suc m)))) short =
    let fewer : nat_beq (length (take m payload)) (length payload) ≡ false =
      ground (arith, length-take m payload) in
    deframe_prefix (length payload) (take m payload) h ∙ rw fewer refl

deframe_bytes-longer :
    (payload : List ℕ)
    → length payload < 2 ^ 32
    → (x : ℕ) (xs : List ℕ)
    → deframe_bytes ((to_le 4 (length payload) ++ payload) ++ x ∷ xs) ≡ err malformed_payload
deframe_bytes-longer payload h x xs =
    let more : nat_beq (length (payload ++ x ∷ xs)) (length payload) ≡ false =
      ground (arith, length-append payload (x ∷ xs)) in
    deframe_prefix (length payload) (payload ++ x ∷ xs) h ∙ rw more refl

-- A frame is taken apart to its payload; a shorter part of the frame, and the frame
-- with bytes behind it, are refused as malformed. The length of the payload fits its prefix.
pub deframe_bytes-frame_bytes :
    (payload : List ℕ)
    → length payload < 2 ^ 32
    → (frame : List ℕ) × (frame_bytes payload ≡ ok frame)
      × (deframe_bytes frame ≡ ok payload)
      × ((n : ℕ) → n < length frame → deframe_bytes (take n frame) ≡ err malformed_payload)
      × ((x : ℕ) (xs : List ℕ) → deframe_bytes (frame ++ x ∷ xs) ≡ err malformed_payload)
unfolding frame_bytes
deframe_bytes-frame_bytes payload h = (
  to_le 4 (length payload) ++ payload,
  rw (lt→ltb (length payload) (2 ^ 32) h) refl,
  deframe_prefix (length payload) payload h
      ∙ rw (nat_beq_refl (length payload), take-whole payload) refl,
  deframe_bytes-take payload h,
  deframe_bytes-longer payload h,
)
