-- ===== src/Memory/Frame/Torn.antt =====
-- crates/memory/src/frame.rs: the checksum of a header of which a byte has changed.
use Prim.Native.Nat.{bit_xor}
use selium.Base.{
  ℕ, ◌*◌, ◌%◌, ◌^◌, ◌<◌, ◌≡◌, ◌≢◌, refl, sym, ap, ◌∙◌, false, List, [], ◌∷◌, ◌++◌, arith, nat_beq,
  length, take, drop, length-append, take-append, drop-append, le→ltb,
}
use selium.Base.Exec.{err}
use selium.Base.Xor.{xor_cancel_right, xor_cancel_left, bit_xor-lt}
use selium.Memory.Bytes.{IsBytes, to_le, from_le-to_le}
use selium.Memory.Backend.{corrupted_header}
use selium.Memory.Frame.{FrameHeader, covered, checksum, hash_bytes, hash_byte, decode}
use selium.Memory.Frame.Codec.{checksum-lt}

-- The prime is odd, so its product can be undone.
cancel_prime :
    (a b : ℕ) → a < 2 ^ 32 → b < 2 ^ 32 → a * 0x01000193 % 2 ^ 32 ≡ b * 0x01000193 % 2 ^ 32 → a ≡ b
cancel_prime a b p q h = omega arith

hash_byte-lt : (h b : ℕ) → hash_byte h b < 2 ^ 32
unfolding hash_byte
hash_byte-lt h b = omega arith

same_hash : (g h a : ℕ) → g < 2 ^ 32 → h < 2 ^ 32 → a < 256 → hash_byte g a ≡ hash_byte h a → g ≡ h
unfolding hash_byte
same_hash g h a p q r e = xor_cancel_right g h a (
    cancel_prime (bit_xor g a) (bit_xor h a) (bit_xor-lt 32 g a p (omega arith))
      (bit_xor-lt 32 h a q (omega arith)) e)

same_byte : (h a b : ℕ) → h < 2 ^ 32 → a < 256 → b < 256 → hash_byte h a ≡ hash_byte h b → a ≡ b
unfolding hash_byte
same_byte h a b p q r e = xor_cancel_left a b h (
    cancel_prime (bit_xor h a) (bit_xor h b) (bit_xor-lt 32 h a p (omega arith))
      (bit_xor-lt 32 h b p (omega arith)) e)

same_start :
    (xs : List ℕ) (g h : ℕ)
    → IsBytes xs
    → g < 2 ^ 32
    → h < 2 ^ 32
    → hash_bytes g xs ≡ hash_bytes h xs
    → g ≡ h
unfolding hash_bytes
same_start [] g h bytes p q e = e
same_start (x ∷ xs) g h bytes p q e = same_hash g h x p q (bytes.0) (
    same_start xs (hash_byte g x) (hash_byte h x) (bytes.1) (hash_byte-lt g x) (hash_byte-lt h x) e)

same_middle :
    (xs ys : List ℕ) (h a b : ℕ)
    → IsBytes ys
    → h < 2 ^ 32
    → a < 256
    → b < 256
    → hash_bytes h (xs ++ (a ∷ ys)) ≡ hash_bytes h (xs ++ (b ∷ ys))
    → a ≡ b
unfolding hash_bytes
same_middle [] ys h a b bytes p q r e =
    same_byte h a b p q r
      (same_start ys (hash_byte h a) (hash_byte h b) bytes (hash_byte-lt h a) (hash_byte-lt h b) e)
same_middle (x ∷ xs) ys h a b bytes p q r e =
    same_middle xs ys (hash_byte h x) a b bytes (hash_byte-lt h x) q r e

checksum-differs :
    (xs ys : List ℕ) (a b : ℕ)
    → IsBytes ys
    → a < 256
    → b < 256
    → a ≢ b
    → checksum (xs ++ (a ∷ ys)) ≢ checksum (xs ++ (b ∷ ys))
unfolding checksum
checksum-differs xs ys a b bytes p q differ e =
    differ (same_middle xs ys 0x811c9dc5 a b bytes (omega arith) p q e)

-- What `decode` makes of 9 bytes and the checksum behind them.
decode_body :
    (body : List ℕ) (c : ℕ)
    → length body ≡ 9
    → c < 2 ^ 32
    → c ≢ checksum body
    → decode (body ++ (to_le 4 c ++ (0 ∷ 0 ∷ 0 ∷ []))) ≡ err corrupted_header
unfolding decode
decode_body body c nine fits differ =
    rw
      (
        le→ltb (length (body ++ rest)) 16 (omega (arith, length-append body rest, nine)),
        ap (λ k. drop k (body ++ rest)) (sym nine) ∙ drop-append body rest,
        ap (λ k. take k (body ++ rest)) (sym nine) ∙ take-append body rest,
        from_le-to_le 4 c fits,
        unequal (checksum body) differ,
      )
      refl
  where
    rest : List ℕ
    rest = to_le 4 c ++ (0 ∷ 0 ∷ 0 ∷ [])

    unequal : (n : ℕ) → c ≢ n → nat_beq c n ≡ false
    unequal n d = ground arith

-- A header whose bytes are below 256 and of which one of the 9 bytes under the checksum is changed
-- to another byte is refused as corrupted.
pub decode-torn :
    (h : FrameHeader) (xs ys : List ℕ) (a b : ℕ)
    → covered h ≡ xs ++ (a ∷ ys)
    → IsBytes ys
    → a < 256
    → b < 256
    → a ≢ b
    → decode ((xs ++ (b ∷ ys)) ++ (to_le 4 (checksum (covered h)) ++ (0 ∷ 0 ∷ 0 ∷ [])))
      ≡ err corrupted_header
decode-torn h xs ys a b split bytes p q differ =
    decode_body (xs ++ (b ∷ ys)) (checksum (covered h)) nine (checksum-lt (covered h))
      (λ e. checksum-differs xs ys a b bytes p q differ (sym (ap checksum split) ∙ e))
  where
    nine : length (xs ++ (b ∷ ys)) ≡ 9
    nine =
        let e : 9 ≡ length (xs ++ (a ∷ ys)) = ap length split in
        omega (arith, e, length-append xs (a ∷ ys), length-append xs (b ∷ ys))
