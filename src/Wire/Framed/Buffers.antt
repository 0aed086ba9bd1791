-- ===== src/Wire/Framed/Buffers.antt =====
-- crates/wire/src/framed.rs: `decode` on a whole frame and on a part of one.
use mathlib.Core.List.{append_assoc}
use selium.Base.{
  ℕ, zero, suc, ◌+◌, ◌^◌, ◌<◌, ◌≤◌, true, none, some, List, [], ◌∷◌, ◌++◌, ltb, lt→ltb, le→ltb,
  length, take, drop, ◌≡◌, refl, sym, ap, ◌∙◌, arith, length-append, take-append, drop-append,
  Bool-cases, inl, inr,
}
use selium.Base.Exec.{ok}
use selium.Memory.Frame.{FrameHeader, encoded_size, is_ready}
use selium.Memory.Frame.Codec.{IsHeader, decode-encode, length-encode}
use selium.Memory.Frame
use selium.Wire.Framed.{Item, header_of, frame_of, decode}

-- An item whose fields fit their words and whose frame is committed.
pub record IsItem (item : Item) : Type 0 where
  pub length_fits : length item.payload < 2 ^ 32
  pub tag_fits : item.tag < 2 ^ 32
  pub flags_fit : item.flags < 256
  pub committed : is_ready (header_of item) ≡ true

abbrev pub bytes_of : Item → List ℕ
bytes_of item = Frame.encode (header_of item) ++ item.payload

pub length-bytes_of : (item : Item) → length (bytes_of item) ≡ 16 + length item.payload
length-bytes_of item = omega (
  arith,
  length-append (Frame.encode (header_of item)) item.payload,
  length-encode (header_of item),
)

len_of : (item : Item) → IsItem item → (header_of item).len ≡ length item.payload
len_of item v = omega (arith, v.length_fits)

header_of-IsHeader : (item : Item) → IsItem item → IsHeader (header_of item)
header_of-IsHeader item v = record {
  len_fits = omega arith;
  tag_fits = v.tag_fits;
  flags_fit = v.flags_fit;
}

-- The first bytes of a buffer that starts with a header.
take-header :
    (h : FrameHeader) (rest : List ℕ) → take encoded_size (Frame.encode h ++ rest) ≡ Frame.encode h
take-header h rest =
    ap (λ n. take n (Frame.encode h ++ rest)) (sym (length-encode h))
    ∙ take-append (Frame.encode h) rest

drop-header : (h : FrameHeader) (rest : List ℕ) → drop encoded_size (Frame.encode h ++ rest) ≡ rest
drop-header h rest =
    ap (λ n. drop n (Frame.encode h ++ rest)) (sym (length-encode h))
    ∙ drop-append (Frame.encode h) rest

-- A buffer that starts with the bytes of a header.
decode_header :
    (src : List ℕ) (h : FrameHeader)
    → encoded_size ≤ length src
    → take encoded_size src ≡ Frame.encode h
    → IsHeader h
    → decode src ≡ frame_of src (ok h)
unfolding decode
decode_header src h long starts v =
    rw (le→ltb (length src) encoded_size long, starts, decode-encode h v) refl

length-buffer :
    (item : Item) (rest : List ℕ)
    → length (bytes_of item ++ rest) ≡ 16 + length item.payload + length rest
length-buffer item rest = omega (arith, length-append (bytes_of item) rest, length-bytes_of item)

regroup :
    (item : Item) (rest : List ℕ)
    → bytes_of item ++ rest ≡ Frame.encode (header_of item) ++ (item.payload ++ rest)
regroup item rest = append_assoc (Frame.encode (header_of item)) item.payload rest

-- The payload and what is behind the frame.
payload_in :
    (item : Item) (rest : List ℕ)
    → take (length item.payload) (drop encoded_size (bytes_of item ++ rest)) ≡ item.payload
payload_in item rest =
    ap (λ l. take (length item.payload) (drop encoded_size l)) (regroup item rest)
    ∙ ap (take (length item.payload)) (drop-header (header_of item) (item.payload ++ rest))
    ∙ take-append item.payload rest

behind :
    (item : Item) (rest : List ℕ)
    → drop (encoded_size + length item.payload) (bytes_of item ++ rest) ≡ rest
behind item rest =
    ap (λ n. drop n (bytes_of item ++ rest)) (sym (length-bytes_of item))
    ∙ drop-append (bytes_of item) rest

frame_of_lem :
    (src payload rest : List ℕ) (h : FrameHeader)
    → encoded_size + h.len ≤ length src
    → is_ready h ≡ true
    → take h.len (drop encoded_size src) ≡ payload
    → drop (encoded_size + h.len) src ≡ rest
    → frame_of src (ok h)
      ≡ (ok (some (record { payload = payload; tag = h.tag; flags = h.flags })), rest)
frame_of_lem src payload rest h enough committed inside after =
    rw (le→ltb (length src) (encoded_size + h.len) enough, committed, inside, after) refl

frame_of-whole :
    (item : Item) (rest : List ℕ)
    → IsItem item
    → frame_of (bytes_of item ++ rest) (ok (header_of item)) ≡ (ok (some item), rest)
frame_of-whole item rest v =
    let src = bytes_of item ++ rest in
    frame_of_lem src item.payload rest (header_of item)
      (omega (arith, length-buffer item rest, len_of item v)) v.committed
      (ap (λ n. take n (drop encoded_size src)) (len_of item v) ∙ payload_in item rest)
      (ap (λ n. drop (encoded_size + n) src) (len_of item v) ∙ behind item rest)

frame_of-part :
    (src : List ℕ) (item : Item)
    → IsItem item
    → length src < length (bytes_of item)
    → frame_of src (ok (header_of item)) ≡ (ok none, src)
frame_of-part src item v short =
    let missing : ltb (length src) (encoded_size + length item.payload) ≡ true =
      lt→ltb _ _ (omega (arith, short, length-bytes_of item)) in
    rw (len_of item v, missing) refl

-- A whole frame is taken from the buffer.
pub decode-whole :
    (item : Item) (rest : List ℕ)
    → IsItem item
    → decode (bytes_of item ++ rest) ≡ (ok (some item), rest)
decode-whole item rest v =
    decode_header (bytes_of item ++ rest) (header_of item) (omega (arith, length-buffer item rest))
      (ap (take encoded_size) (regroup item rest)
        ∙ take-header (header_of item) (item.payload ++ rest))
      (header_of-IsHeader item v)
    ∙ frame_of-whole item rest v

-- A first part of some bytes.
take-part : (n : ℕ) (xs ys : List ℕ) → n ≤ length xs → take n xs ≡ take n (xs ++ ys)
take-part zero xs ys h = refl
take-part (suc n) [] ys h = absurd (omega arith)
take-part (suc n) (x ∷ xs) ys h = ap (λ l. x ∷ l) (take-part n xs ys (omega arith))

few_bytes : (src : List ℕ) → ltb (length src) encoded_size ≡ true → decode src ≡ (ok none, src)
unfolding decode
few_bytes src few = rw few refl

-- A part of a frame stays in the buffer.
pub decode_part :
    (item : Item) (src missing rest : List ℕ)
    → IsItem item
    → src ++ missing ≡ bytes_of item ++ rest
    → length src < length (bytes_of item)
    → decode src ≡ (ok none, src)
decode_part item src missing rest v e short = elim (Bool-cases (ltb (length src) encoded_size)) [
  | inl few ↦ few_bytes src few
  | inr enough ↦
      let long : encoded_size ≤ length src = ground arith in
      decode_header src (header_of item) long
        (take-part encoded_size src missing long
          ∙ ap (take encoded_size) (e ∙ regroup item rest)
          ∙ take-header (header_of item) (item.payload ++ rest))
        (header_of-IsHeader item v)
      ∙ frame_of-part src item v short
]
