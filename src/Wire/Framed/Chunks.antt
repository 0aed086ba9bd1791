-- ===== src/Wire/Framed/Chunks.antt =====
-- crates/wire/src/framed.rs: frames that arrive in chunks. The reader is one of a library: it calls
-- `decode` until there is no frame, and then waits for more bytes.
use selium.Base.{
  ℕ, zero, suc, ◌<◌, ◌≤◌, Option, none, some, List, [], ◌∷◌, ◌++◌, ◌≡◌, refl, sym, ap, ◌∙◌, arith,
  ltb, Bool-cases, inl, inr, length, length-append,
}
use mathlib.Core.List.{append_assoc, append-nil}
use mathlib.Core.Path.{subst}
use selium.Base.Exec.{Result, ok, err}
use selium.Shm.Error.{Error}
use selium.Wire.Framed.Buffers.{IsItem, bytes_of, length-bytes_of, decode-whole, decode_part}
use selium.Wire.Framed.{Item, encode, decode}

abbrev Frames : Type 0
Frames = Result Error (List Item) × List ℕ

abbrev prepend : List Item → Frames → Frames
prepend items (ok more, buffer) = (ok (items ++ more), buffer)
prepend items (err e, buffer) = (err e, buffer)

abbrev onward : Result Error (Option Item) × List ℕ → (List ℕ → Frames) → Frames
onward (ok none, buffer) rest = (ok [], buffer)
onward (ok (some item), buffer) rest = prepend (item ∷ []) (rest buffer)
onward (err e, buffer) rest = (err e, buffer)

-- The frames in a buffer. Each takes some bytes, so that more rounds than bytes are enough.
unfoldable pub take_frames : ℕ → List ℕ → Frames
take_frames zero buffer = (ok [], buffer)
take_frames (suc fuel) buffer = onward (decode buffer) (take_frames fuel)

unfoldable pub feed : List ℕ → List ℕ → Frames
unfolding take_frames
feed buffer chunk = take_frames (suc (length (buffer ++ chunk))) (buffer ++ chunk)

abbrev next_chunk : Frames → (List ℕ → Frames) → Frames
next_chunk (ok items, buffer) rest = prepend items (rest buffer)
next_chunk (err e, buffer) rest = (err e, buffer)

unfoldable pub feed_all : List ℕ → List (List ℕ) → Frames
unfolding feed
feed_all buffer [] = (ok [], buffer)
feed_all buffer (chunk ∷ chunks) = next_chunk (feed buffer chunk) (λ left. feed_all left chunks)

-- What a writer makes of some items.
unfoldable pub encode_all : List Item → List ℕ → List ℕ
encode_all [] dst = dst
encode_all (item ∷ items) dst = encode_all items (encode item dst)

abbrev pub AreItems : List Item → Type 0
AreItems [] = Unit
AreItems (item ∷ items) = IsItem item × AreItems items

stream_of : List Item → List ℕ
stream_of [] = []
stream_of (item ∷ items) = bytes_of item ++ stream_of items

abbrev pub concat : List (List ℕ) → List ℕ
concat [] = []
concat (chunk ∷ chunks) = chunk ++ concat chunks

encode_all-stream_of :
    (items : List Item) (dst : List ℕ) → encode_all items dst ≡ dst ++ stream_of items
unfolding encode_all stream_of encode
encode_all-stream_of [] dst = sym (append-nil dst)
encode_all-stream_of (item ∷ items) dst =
    encode_all-stream_of items (dst ++ bytes_of item)
    ∙ append_assoc dst (bytes_of item) (stream_of items)

-- Bytes that go on at least as far as the first part of others.
parted :
    (xs ys front tail : List ℕ)
    → xs ++ ys ≡ front ++ tail
    → length front ≤ length xs
    → (rest : List ℕ) × (xs ≡ front ++ rest) × (rest ++ ys ≡ tail)
parted xs ys [] tail e h = (xs, refl, e)
parted [] ys (f ∷ front) tail e h = absurd (omega arith)
parted (x ∷ xs) ys (f ∷ front) tail e h =
    let same : x ≡ f = cc in
    let (rest, first, second) = parted xs ys front tail (cc) (omega arith) in (rest, cc, second)

-- What the frames of a buffer are, where the missing bytes complete the items.
record Taken (items : List Item) (missing : List ℕ) (out : Frames) : Type 0 where
  got : List Item
  later : List Item
  left : List ℕ
  splits : items ≡ got ++ later
  gives : out ≡ (ok got, left)
  remains : left ++ missing ≡ stream_of later
  later_valid : AreItems later
  ends : missing ≡ [] → later ≡ []

decode_nil : decode [] ≡ (ok none, [])
unfolding decode
decode_nil = refl

-- A buffer that ends within its first item.
Taken-part :
    (item : Item) (items : List Item) (buffer missing : List ℕ) (fuel : ℕ)
    → AreItems (item ∷ items)
    → buffer ++ missing ≡ bytes_of item ++ stream_of items
    → length buffer < length (bytes_of item)
    → Taken (item ∷ items) missing (take_frames (suc fuel) buffer)
unfolding take_frames stream_of
Taken-part item items buffer missing fuel v e short = record {
  got = [];
  later = item ∷ items;
  left = buffer;
  splits = refl;
  gives =
      ap (λ r. onward r (take_frames fuel))
        (decode_part item buffer missing (stream_of items) (v.0) e short);
  remains = e;
  later_valid = v;
  ends = λ nothing. absurd (
      omega (
        arith,
        short,
        ap length e,
        ap length nothing,
        length-append buffer missing,
        length-append (bytes_of item) (stream_of items),
      ));
}

Taken-cons :
    (item : Item) (items : List Item) (rest missing : List ℕ) (fuel : ℕ)
    → IsItem item
    → Taken items missing (take_frames fuel rest)
    → Taken (item ∷ items) missing (take_frames (suc fuel) (bytes_of item ++ rest))
unfolding take_frames
Taken-cons item items rest missing fuel v t = record {
  got = item ∷ t.got;
  later = t.later;
  left = t.left;
  splits = ap (λ l. item ∷ l) t.splits;
  gives =
      ap (λ r. onward r (take_frames fuel)) (decode-whole item rest v)
      ∙ ap (prepend (item ∷ [])) t.gives;
  remains = t.remains;
  later_valid = t.later_valid;
  ends = t.ends;
}

take_frames-Taken :
    (items : List Item) (buffer missing : List ℕ) (fuel : ℕ)
    → AreItems items
    → buffer ++ missing ≡ stream_of items
    → length buffer < fuel
    → Taken items missing (take_frames fuel buffer)
unfolding take_frames stream_of
take_frames-Taken items buffer missing zero v e enough = absurd (omega arith)
take_frames-Taken [] [] missing (suc fuel) v e enough = record {
  got = [];
  later = [];
  left = [];
  splits = refl;
  gives = ap (λ r. onward r (take_frames fuel)) decode_nil;
  remains = e;
  later_valid = tt;
  ends = λ _. refl;
}
take_frames-Taken [] (b ∷ buffer) missing (suc fuel) v e enough = cc
take_frames-Taken (item ∷ items) buffer missing (suc fuel) v e enough =
    elim (Bool-cases (ltb (length buffer) (length (bytes_of item)))) [
      | inl short ↦ Taken-part item items buffer missing fuel v e (ground arith)
      | inr whole ↦
          let (rest, first, second) =
            parted buffer missing (bytes_of item) (stream_of items) e (ground arith) in
          let shorter : length rest < fuel = omega (
            arith,
            enough,
            ap length first,
            length-append (bytes_of item) rest,
            length-bytes_of item,
          ) in
          subst (λ (b : List ℕ). Taken (item ∷ items) missing (take_frames (suc fuel) b))
            (sym first)
            (Taken-cons item items rest missing fuel (v.0)
              (take_frames-Taken items rest missing fuel (v.1) second shorter))
    ]

feed_all-stream_of :
    (chunks : List (List ℕ)) (items : List Item) (buffer : List ℕ)
    → AreItems items
    → buffer ++ concat chunks ≡ stream_of items
    → (concat chunks ≡ [] → items ≡ [])
    → feed_all buffer chunks ≡ (ok items, [])
unfolding feed_all stream_of
feed_all-stream_of [] items buffer v e ends =
    let none_left : items ≡ [] = ends refl in
    let emptied : buffer ≡ [] = sym (append-nil buffer) ∙ e ∙ ap stream_of none_left in
    rw (none_left, emptied) refl
feed_all-stream_of (chunk ∷ chunks) items buffer v e ends =
    let t =
      take_frames-Taken items (buffer ++ chunk) (concat chunks) (suc (length (buffer ++ chunk))) v
        (append_assoc buffer chunk (concat chunks) ∙ e) (omega arith) in
    ap (λ r. next_chunk r (λ left. feed_all left chunks)) t.gives
    ∙ ap (prepend t.got) (feed_all-stream_of chunks t.later t.left t.later_valid t.remains t.ends)
    ∙ ap (λ (l : List Item). (ok l, [])) (sym t.splits)

no_items : (items : List Item) → stream_of items ≡ [] → items ≡ []
unfolding stream_of
no_items [] h = refl
no_items (item ∷ items) h = absurd (
    omega
      (arith, ap length h, length-append (bytes_of item) (stream_of items), length-bytes_of item))

-- Frames that a writer encoded one behind the other come out whole and in order, however the bytes
-- are cut into chunks, and no byte is left. The fields of each item fit their words, and its frame
-- is committed.
pub feed_all-encode_all :
    (items : List Item) (chunks : List (List ℕ))
    → AreItems items
    → concat chunks ≡ encode_all items []
    → feed_all [] chunks ≡ (ok items, [])
feed_all-encode_all items chunks v e =
    let stream = e ∙ encode_all-stream_of items [] in
    feed_all-stream_of chunks items [] v stream (λ nothing. no_items items (sym stream ∙ nothing))
