-- ===== src/Shm/Readers/Polls.antt =====
-- crates/shm/src/channels/reader.rs: a frame that is read by several polls.
use selium.Base.{
  ℕ, zero, suc, ◌+◌, ◌-◌, ◌≤◌, ◌<◌, min, ◌≡◌, refl, sym, ap, ◌∙◌, true, false, some, List, [], ◌∷◌,
  ◌++◌, arith, ltb, leb, checked_add, length, take, drop, take-append-drop, length-drop,
}
use selium.Base.Exec.{Result, ok, err}
use selium.Memory.Backend.{Backend}
use selium.Shm.Error.{Error}
use selium.Shm.Readers.{
  Reader, frame, find, Poll, ready, pending, poll_read, unwrap_or_zero, load_generation,
}

-- The bytes that a list of polls hands to a caller that has room for so many each time.
abbrev got : Result Error Poll → List ℕ
got (ok (ready bytes)) = bytes
got (ok pending) = []
got (err e) = []

unfoldable pub reads : ℕ → List ℕ → Reader → Backend → List ℕ × Reader × Backend
reads capacity [] r b = ([], r, b)
reads capacity (room ∷ rooms) r b =
    let (p, r1, b1) = poll_read capacity room r b in
    let (bytes, r2, b2) = reads capacity rooms r1 b1 in (got p ++ bytes, r2, b2)

abbrev pub sum : List ℕ → ℕ
sum [] = 0
sum (n ∷ ns) = n + sum ns

-- The bytes of a frame that the caller has not got yet.
abbrev pub unread : List ℕ → ℕ → List ℕ
unread bytes offset = drop offset bytes

take_all : (n : ℕ) (xs : List ℕ) → length xs ≤ n → take n xs ≡ xs
take_all zero [] h = refl
take_all zero (x ∷ xs) h = absurd (omega arith)
take_all (suc n) [] h = refl
take_all (suc n) (x ∷ xs) h = ap (λ l. x ∷ l) (take_all n xs (omega arith))

drop_nil : (m : ℕ) → drop {A = ℕ} m [] ≡ []
drop_nil zero = refl
drop_nil (suc m) = refl

append_nil : (xs : List ℕ) → xs ++ [] ≡ xs
append_nil [] = refl
append_nil (x ∷ xs) = ap (λ l. x ∷ l) (append_nil xs)

drop-drop : (m n : ℕ) (xs : List ℕ) → drop m (drop n xs) ≡ drop (n + m) xs
drop-drop m zero xs = ap (λ i. drop i xs) (omega arith)
drop-drop m (suc n) [] = drop_nil m ∙ sym (drop_nil (suc n + m))
drop-drop m (suc n) (x ∷ xs) =
    let e : suc (n + m) ≡ suc n + m = omega arith in drop-drop m n xs ∙ ap (λ i. drop i (x ∷ xs)) e

-- A poll within the buffered frame, and one that ends it.
poll_within :
    (capacity room : ℕ) (r : Reader) (b : Backend)
    → r.pending_offset + room < length r.pending_frame
    → poll_read capacity room r b ≡ (
      ok (ready (take room (unread r.pending_frame r.pending_offset))),
      record r { pending_offset = r.pending_offset + room },
      b,
    )
unfolding poll_read
poll_within capacity room r b h =
    let some_left : ltb r.pending_offset (length r.pending_frame) ≡ true = ground arith in
    let least : min (length r.pending_frame - r.pending_offset) room ≡ room = omega arith in
    let not_end : leb (length r.pending_frame) (r.pending_offset + room) ≡ false = ground arith in
    rw (some_left, least, not_end) refl

pub poll_end :
    (capacity room : ℕ) (r : Reader) (b : Backend)
    → r.pending_offset < length r.pending_frame
    → length r.pending_frame ≤ r.pending_offset + room
    → poll_read capacity room r b ≡ (
      ok (ready (unread r.pending_frame r.pending_offset)),
      record r { pending_frame = []; pending_offset = 0 },
      b,
    )
unfolding poll_read
poll_end capacity room r b h k =
    let some_left : ltb r.pending_offset (length r.pending_frame) ≡ true = ground arith in
    let least : min (length r.pending_frame - r.pending_offset) room
        ≡ length r.pending_frame - r.pending_offset =
      omega arith in
    let at_end : leb (length r.pending_frame)
          (r.pending_offset + (length r.pending_frame - r.pending_offset))
        ≡ true =
      ground arith in
    let all : take (length r.pending_frame - r.pending_offset)
          (unread r.pending_frame r.pending_offset)
        ≡ unread r.pending_frame r.pending_offset =
      take_all (length r.pending_frame - r.pending_offset) (unread r.pending_frame r.pending_offset)
        (omega (arith, length-drop r.pending_offset r.pending_frame)) in
    rw (some_left, least, at_end, all) refl

reads_buffered :
    (capacity : ℕ) (rooms : List ℕ) (last : ℕ) (r : Reader) (b : Backend)
    → r.pending_offset + sum rooms < length r.pending_frame
    → length r.pending_frame ≤ r.pending_offset + sum rooms + last
    → reads capacity (rooms ++ last ∷ []) r b ≡ (
      unread r.pending_frame r.pending_offset,
      record r { pending_frame = []; pending_offset = 0 },
      b,
    )
unfolding reads
reads_buffered capacity [] last r b h k =
    rw (poll_end capacity last r b (omega arith) (omega arith))
      (rw (append_nil (unread r.pending_frame r.pending_offset)) refl)
reads_buffered capacity (room ∷ rooms) last r b h k =
    rw (poll_within capacity room r b (omega arith)) (
      rw
        (
          reads_buffered capacity rooms last (record r { pending_offset = r.pending_offset + room })
              b (omega arith) (omega arith),
          sym (drop-drop room r.pending_offset r.pending_frame),
          take-append-drop room (unread r.pending_frame r.pending_offset),
        )
        refl)

pub poll_first :
    (capacity room size p : ℕ) (bytes : List ℕ) (r : Reader) (b b1 : Backend)
    → r.terminated ≡ false
    → length r.pending_frame ≤ r.pending_offset
    → find capacity r b ≡ (ok (frame bytes size), b1)
    → checked_add r.pos size ≡ some p
    → room < length bytes
    → poll_read capacity room r b ≡ (
      ok (ready (take room bytes)),
      record r {
        pos = p;
        last_generation = unwrap_or_zero ((load_generation b1).0);
        pending_frame = bytes;
        pending_offset = room;
      },
      b1,
    )
unfolding poll_read
poll_first capacity room size p bytes r b b1 live empty found moved short =
    let none_left : ltb r.pending_offset (length r.pending_frame) ≡ false = ground arith in
    let least : min (length bytes) room ≡ room = omega arith in
    let partly : ltb room (length bytes) ≡ true = ground arith in
    rw (none_left, found, live, moved, least, partly) refl

-- A frame that a reader without buffered bytes finds at its position and reads by several polls,
-- the last of which has room for what is left, comes out whole and in order; nothing stays
-- buffered, the position is behind the frame, and the polls after the first do not touch the ring.
pub reads-frame :
    (capacity first last size p : ℕ) (rooms bytes : List ℕ) (r : Reader) (b b1 : Backend)
    → r.terminated ≡ false
    → length r.pending_frame ≤ r.pending_offset
    → find capacity r b ≡ (ok (frame bytes size), b1)
    → checked_add r.pos size ≡ some p
    → first + sum rooms < length bytes
    → length bytes ≤ first + sum rooms + last
    → reads capacity (first ∷ rooms ++ last ∷ []) r b ≡ (
      bytes,
      record r {
        pos = p;
        last_generation = unwrap_or_zero ((load_generation b1).0);
        pending_frame = [];
        pending_offset = 0;
      },
      b1,
    )
unfolding reads
reads-frame capacity first last size p rooms bytes r b b1 live empty found moved short enough =
    rw (poll_first capacity first size p bytes r b b1 live empty found moved (omega arith)) (
      rw
        (
          reads_buffered capacity rooms last
              (record r {
                pos = p;
                last_generation = unwrap_or_zero ((load_generation b1).0);
                pending_frame = bytes;
                pending_offset = first;
              })
              b1 short enough,
          take-append-drop first bytes,
        )
        refl)
