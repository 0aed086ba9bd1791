-- ===== src/Dns/Wire/Names.antt =====
-- crates/proto-dns/src/wire.rs: an encoded name is parsed back.
use mathlib.Core.Path.{subst}
use selium.Base.{
  ℕ, zero, suc, ◌+◌, ◌*◌, ◌^◌, ◌≤◌, ◌<◌, Bool, true, false, some, List, [], ◌∷◌, ◌++◌, ◌≡◌, refl,
  sym, ap, ◌∙◌, arith, ltb, leb, nat_beq, Bool-cases, inl, inr, length, get_elem?, take, drop,
  take-append, length-append,
}
use selium.Base.Exec.{Result, ok, err}
use selium.Base.Text.{Text, split, join, trim_end}
use selium.Base.Text.Parts.{join-split}
use selium.Dns.Wire.{
  WireError, NameState, NameStep, done, go, require, name_step, name_loop, name_start, parse_name,
  encode_labels, encode_trimmed, encode_name, onto,
}

append_assoc : (xs ys zs : List ℕ) → (xs ++ ys) ++ zs ≡ xs ++ (ys ++ zs)
append_assoc [] ys zs = refl
append_assoc (x ∷ xs) ys zs = ap (λ l. x ∷ l) (append_assoc xs ys zs)

assoc : (xs ys zs : List Text) → (xs ++ ys) ++ zs ≡ xs ++ (ys ++ zs)
assoc [] ys zs = refl
assoc (x ∷ xs) ys zs = ap (λ l. x ∷ l) (assoc xs ys zs)

get_behind :
    (before : List ℕ) (x : ℕ) (rest : List ℕ)
    → get_elem? (before ++ x ∷ rest) (length before) ≡ some x
get_behind [] x rest = refl
get_behind (b ∷ before) x rest = get_behind before x rest

drop_behind :
    (before : List ℕ) (x : ℕ) (rest : List ℕ) → drop (length before + 1) (before ++ x ∷ rest) ≡ rest
drop_behind [] x rest = refl
drop_behind (b ∷ before) x rest =
    let e : suc (length before) + 1 ≡ suc (length before + 1) = omega arith in
    ap (λ n. drop n (b ∷ (before ++ x ∷ rest))) e ∙ drop_behind before x rest

-- Every label is one that a parser takes for text.
abbrev pub AreValid : (List ℕ → Bool) → List Text → Type 0
AreValid is_utf8 [] = Unit
AreValid is_utf8 (label ∷ labels) = (is_utf8 label ≡ true) × AreValid is_utf8 labels

-- Taking the encoding of a list of labels apart.
encoded_nil : (w : ℕ) (out : List ℕ) → encode_labels [] w ≡ ok out → out ≡ 0 ∷ []
unfolding encode_labels
encoded_nil w out h = elim (Bool-cases (leb 255 w)) [
  | inl long ↦ let refused = rw long at h in cc
  | inr fits ↦ let given = rw fits at h in cc
]

onto_ok :
    (bytes : List ℕ) (r : Result WireError (List ℕ)) (out : List ℕ)
    → onto bytes r ≡ ok out
    → (rest : List ℕ) × (r ≡ ok rest) × (out ≡ bytes ++ rest)
onto_ok bytes (ok rest) out h = (rest, refl, cc)
onto_ok bytes (err e) out h = cc

encoded_cons :
    (label : Text) (labels : List Text) (w : ℕ) (out : List ℕ)
    → encode_labels (label ∷ labels) w ≡ ok out
    → (rest : List ℕ) × (encode_labels labels (w + (1 + length label)) ≡ ok rest)
      × (out ≡ (length label ∷ label) ++ rest)
      × (0 < length label)
      × (length label ≤ 63)
unfolding encode_labels
encoded_cons label labels w out h = elim (Bool-cases (nat_beq (length label) 0)) [
  | inl empty ↦ let refused = rw empty at h in cc
  | inr some_bytes ↦ elim (Bool-cases (ltb 63 (length label))) [
    | inl long ↦ let refused = rw (some_bytes, long) at h in cc
    | inr fits ↦
        let (rest, inner, whole) =
          onto_ok (length label ∷ label) (encode_labels labels (w + (1 + length label))) out
            (rw (some_bytes, fits) at h) in
        (rest, inner, whole, ground arith, ground arith)
  ]
]

append_nil : (xs : List Text) → xs ++ [] ≡ xs
append_nil [] = refl
append_nil (x ∷ xs) = ap (λ l. x ∷ l) (append_nil xs)

-- The state of a loop that has not followed a pointer.
abbrev reading : List Text → ℕ → ℕ → NameState
reading labels pos end = record { labels = labels; pos = pos; end = end; jumped = false; jumps = 0 }

module _ (is_utf8 : List ℕ → Bool) where
  label_step :
      (before label tail : List ℕ) (acc : List Text) (end : ℕ)
      → 0 < length label
      → length label ≤ 63
      → is_utf8 label ≡ true
      → length (before ++ length label ∷ (label ++ tail)) < 2 ^ 64
      → name_step is_utf8
          (before ++ length label ∷ (label ++ tail))
          (reading acc (length before) end)
        ≡ go (reading (acc ++ label ∷ []) (length before + 1 + length label) end)
  unfolding name_step require
  label_step before label tail acc end some_bytes short valid small =
      let bytes = before ++ length label ∷ (label ++ tail) in
      let size : length bytes ≡ length before + suc (length label + length tail) =
        omega (
          arith,
          length-append before (length label ∷ (label ++ tail)),
          length-append label tail,
        ) in
      let z : nat_beq (length label) 0 ≡ false = ground arith in
      let p : leb 192 (length label) ≡ false = ground arith in
      let q : leb 64 (length label) ≡ false = ground arith in
      let fits : ltb (length before + 1 + length label) (2 ^ 64) ≡ true =
        ground (arith, size, small) in
      let inside : ltb (length bytes) (length before + 1 + length label) ≡ false =
        ground (arith, size) in
      let text : take (length label) (drop (length before + 1) bytes) ≡ label =
        ap (take (length label)) (drop_behind before (length label) (label ++ tail))
        ∙ take-append label tail in
      rw (get_behind before (length label) (label ++ tail), z, p, q, fits, inside, text, valid) refl

  last_step :
      (before tail : List ℕ) (acc : List Text) (end : ℕ)
      → name_step is_utf8 (before ++ 0 ∷ tail) (reading acc (length before) end)
        ≡ done (ok (acc, length before + 1))
  unfolding name_step
  last_step before tail acc end = rw (get_behind before 0 tail) refl

  loop_done :
      (fuel : ℕ) (bytes : List ℕ) (s : NameState) (r : Result WireError (List Text × ℕ))
      → name_step is_utf8 bytes s ≡ done r
      → name_loop is_utf8 (suc fuel) bytes s ≡ some r
  unfolding name_loop
  loop_done fuel bytes s r e =
      ap
        (λ (x : NameStep). elim x [ done q ↦ some q | go next ↦ name_loop is_utf8 fuel bytes next ])
        e

  loop_go :
      (fuel : ℕ) (bytes : List ℕ) (s next : NameState)
      → name_step is_utf8 bytes s ≡ go next
      → name_loop is_utf8 (suc fuel) bytes s ≡ name_loop is_utf8 fuel bytes next
  unfolding name_loop
  loop_go fuel bytes s next e =
      ap
        (λ (x : NameStep). elim x [
          | done q ↦ some q
          | go after ↦ name_loop is_utf8 fuel bytes after
        ])
        e

  name_loop-encode_labels :
      (labels : List Text) (w : ℕ) (out before after : List ℕ) (acc : List Text) (fuel end : ℕ)
      → encode_labels labels w ≡ ok out
      → AreValid is_utf8 labels
      → length (before ++ (out ++ after)) < 2 ^ 64
      → length labels < fuel
      → name_loop is_utf8 fuel (before ++ (out ++ after)) (reading acc (length before) end)
        ≡ some (ok (acc ++ labels, length before + length out))
  name_loop-encode_labels labels w out before after acc zero end h valid small enough =
      absurd (omega (arith, enough))
  name_loop-encode_labels [] w out before after acc (suc fuel) end h valid small enough =
      rw (encoded_nil w out h) (
        rw (append_nil acc) (
          loop_done fuel (before ++ 0 ∷ after) (reading acc (length before) end)
            (ok (acc, length before + 1)) (last_step before after acc end)))
  name_loop-encode_labels (label ∷ labels) w out before after acc (suc fuel) end h valid small
        enough =
      let (rest, inner, whole, some_bytes, short) = encoded_cons label labels w out h in
      let bytes : before ++ (out ++ after) ≡ before ++ length label ∷ (label ++ (rest ++ after)) =
        ap (λ o. before ++ (o ++ after)) whole
        ∙ ap (λ t. before ++ length label ∷ t) (append_assoc label rest after) in
      let shifted : before ++ length label ∷ (label ++ (rest ++ after))
          ≡ (before ++ length label ∷ label) ++ (rest ++ after) =
        sym (append_assoc before (length label ∷ label) (rest ++ after)) in
      let here : length (before ++ length label ∷ label) ≡ length before + 1 + length label =
        omega (arith, length-append before (length label ∷ label)) in
      let size : length (before ++ length label ∷ (label ++ (rest ++ after))) < 2 ^ 64 =
        subst (λ (l : List ℕ). length l < 2 ^ 64) bytes small in
      let total : length out ≡ suc (length label + length rest) =
        ap length whole ∙ ap suc (length-append label rest) in
      let sums : length before + length out
          ≡ length (before ++ length label ∷ label) + length rest =
        omega (arith, here, total) in
      let further =
        name_loop-encode_labels labels (w + (1 + length label)) rest
          (before ++ length label ∷ label) after (acc ++ label ∷ []) fuel end inner (valid.1)
          (subst (λ (l : List ℕ). length l < 2 ^ 64) shifted size) (omega (arith, enough)) in
      rw (bytes, sums)
        (loop_go fuel (before ++ length label ∷ (label ++ (rest ++ after)))
            (reading acc (length before) end)
            (reading (acc ++ label ∷ []) (length before + 1 + length label) end)
            (label_step before label (rest ++ after) acc end some_bytes short (valid.0) size)
          ∙ rw (shifted, sym here) (further ∙ rw (assoc acc (label ∷ []) labels) refl))

shorter :
    (labels : List Text) (w : ℕ) (out : List ℕ)
    → encode_labels labels w ≡ ok out
    → length labels < length out
shorter [] w out h = rw (encoded_nil w out h) (omega arith)
shorter (label ∷ labels) w out h =
    let (rest, inner, whole, some_bytes, short) = encoded_cons label labels w out h in
    omega (
      arith,
      shorter labels (w + (1 + length label)) rest inner,
      ap length whole,
      length-append label rest,
    )

-- The labels of a name without trailing dots.
abbrev pub labels_of : Text → List Text
labels_of [] = []
labels_of (c ∷ name) = split (c ∷ name) b'.'

join-labels_of : (name : Text) → join (labels_of name) (b'.' ∷ []) ≡ name
unfolding join
join-labels_of [] = refl
join-labels_of (c ∷ name) = join-split (c ∷ name) b'.'

encoded_labels :
    (name : Text) (out : List ℕ)
    → encode_trimmed name ≡ ok out
    → encode_labels (labels_of name) 0 ≡ ok out
unfolding encode_labels
encoded_labels [] out h = h
encoded_labels (c ∷ name) out h = h

-- What encode_name makes of a name is parsed back, wherever it stands in a message, to the name
-- without its trailing dots, and the parse ends behind it. The parts of the name between dots are
-- ones that the parser takes for text, and the message fits an address space.
pub parse_name-encode_name :
    (is_utf8 : List ℕ → Bool) (name : Text) (out before after : List ℕ)
    → encode_name name ≡ ok out
    → AreValid is_utf8 (labels_of (trim_end name b'.'))
    → length (before ++ (out ++ after)) < 2 ^ 64
    → parse_name is_utf8 (before ++ (out ++ after)) (length before)
      ≡ some (ok (trim_end name b'.', length before + length out))
unfolding encode_name parse_name
parse_name-encode_name is_utf8 name out before after h valid small =
    let labels = labels_of (trim_end name b'.') in
    let bytes = before ++ (out ++ after) in
    let encoded : encode_labels labels 0 ≡ ok out = encoded_labels (trim_end name b'.') out h in
    let few : length labels < 34 * (length bytes + 1) = omega (
      arith,
      shorter labels 0 out encoded,
      length-append before (out ++ after),
      length-append out after,
    ) in
    let parsed : name_loop is_utf8 (34 * (length bytes + 1)) bytes
          (name_start is_utf8 (length before))
        ≡ some (ok (labels, length before + length out)) =
      name_loop-encode_labels is_utf8 labels 0 out before after [] (34 * (length bytes + 1))
        (length before) encoded valid small few in
    rw parsed (rw (join-labels_of (trim_end name b'.')) refl)
