-- ===== src/Shm/Layout/Window.antt =====
-- The data area as a window over logical positions: what `read_at` and `write_at` of layout.rs do
-- to the byte of each position.
use native.Mathlib.Nat.{mod-lt, mod-eq_of_lt, mod-eq-sub-mod, mod-add-mod}
use selium.Base.{
  ℕ, zero, suc, ◌+◌, ◌-◌, ◌%◌, ◌^◌, ◌≤◌, ◌<◌, min, ◌≡◌, refl, sym, ap, ◌∙◌, ◌⊎◌, inl, inr, List, [],
  ◌∷◌, arith, ltb, length, take, drop, get_or, length-take, length-drop, get_or-take, get_or-drop,
  Bool-cases,
}
use selium.Memory.Bytes.{Bytes, patch, patch_inside, patch_outside}
use selium.Memory.Backend.{Backend}
use selium.Shm.Layout.{data_offset}

-- A mapping that holds the header and a data area of a power of two.
pub record IsRing (b : Backend) (capacity k : ℕ) : Type 0 where
  pub power : capacity ≡ 2 ^ k
  pub room : data_offset + capacity ≤ b.size
  pub small : b.size < 2 ^ 63

-- The offset of a logical position, and its byte.
abbrev pub offset_of : ℕ → ℕ → ℕ
offset_of capacity pos = data_offset + pos % capacity

abbrev pub ring_byte : Bytes → ℕ → ℕ → ℕ
ring_byte bytes capacity pos = bytes (offset_of capacity pos)

-- The bytes of the positions from `pos` on.
abbrev pub ring_slice : Bytes → ℕ → ℕ → ℕ → List ℕ
ring_slice bytes capacity pos zero = []
ring_slice bytes capacity pos (suc n) =
    ring_byte bytes capacity pos ∷ ring_slice bytes capacity (pos + 1) n

pub length-ring_slice :
    (bytes : Bytes) (capacity pos n : ℕ) → length (ring_slice bytes capacity pos n) ≡ n
length-ring_slice bytes capacity pos zero = refl
length-ring_slice bytes capacity pos (suc n) = ap suc (length-ring_slice bytes capacity (pos + 1) n)

pub get_or-ring_slice :
    (bytes : Bytes) (capacity pos n i : ℕ)
    → i < n
    → get_or (ring_slice bytes capacity pos n) i 0 ≡ ring_byte bytes capacity (pos + i)
get_or-ring_slice bytes capacity pos zero i h = absurd (omega arith)
get_or-ring_slice bytes capacity pos (suc n) zero h =
    let e : pos ≡ pos + 0 = omega arith in ap (ring_byte bytes capacity) e
get_or-ring_slice bytes capacity pos (suc n) (suc i) h =
    let e : pos + 1 + i ≡ pos + suc i = omega arith in
    get_or-ring_slice bytes capacity (pos + 1) n i (omega arith) ∙ ap (ring_byte bytes capacity) e

-- Positions of one window: the offset grows, and starts again at the end of the area.
pub wrap_low : (pos d c : ℕ) → pos % c + d < c → (pos + d) % c ≡ pos % c + d
wrap_low pos d c p = sym (mod-add-mod pos c d) ∙ mod-eq_of_lt p

pub wrap_high : (pos d c : ℕ) → 0 < c → d ≤ c → c ≤ pos % c + d → (pos + d) % c ≡ pos % c + d - c
wrap_high pos d c h q p =
    let below : pos % c < c = mod-lt pos h in
    sym (mod-add-mod pos c d) ∙ mod-eq-sub-mod p ∙ mod-eq_of_lt (omega arith)

-- The bytes after a write at a logical position: one part up to the end of the area, and the rest
-- from its start on.
abbrev pub ring_patch : Bytes → ℕ → List ℕ → ℕ → Bytes
ring_patch bytes pos xs capacity =
    let t = min (length xs) (capacity - pos % capacity) in
    patch (patch bytes (offset_of capacity pos) (take t xs)) data_offset (drop t xs)

module _ (bytes : Bytes) (capacity pos : ℕ) (xs : List ℕ) (some_room : 0 < capacity)
    (fits : length xs ≤ capacity) where
  abbrev t : ℕ
  t = min (length xs) (capacity - pos % capacity)

  abbrev mid : Bytes
  mid = patch bytes (offset_of capacity pos) (take t xs)

  first_length : length (take t xs) ≡ t
  first_length = omega (arith, length-take t xs)

  rest_length : length (drop t xs) ≡ length xs - t
  rest_length = omega (arith, length-drop t xs)

  first_part :
      (i : ℕ)
      → i < length xs
      → pos % capacity + i < capacity
      → ring_patch bytes pos xs capacity (data_offset + (pos % capacity + i)) ≡ get_or xs i 0
  first_part i h p =
      let e : data_offset + (pos % capacity + i) - offset_of capacity pos ≡ i = omega arith in
      patch_outside mid data_offset (drop t xs) (data_offset + (pos % capacity + i))
        (inr (omega (arith, rest_length)))
      ∙ patch_inside bytes (offset_of capacity pos) (take t xs) (data_offset + (pos % capacity + i))
          (omega arith) (omega (arith, first_length))
      ∙ ap (λ k. get_or (take t xs) k 0) e
      ∙ get_or-take t i xs 0 (omega arith)

  rest_part :
      (i : ℕ)
      → i < length xs
      → capacity ≤ pos % capacity + i
      → ring_patch bytes pos xs capacity (data_offset + (pos % capacity + i - capacity))
        ≡ get_or xs i 0
  rest_part i h p =
      let below : pos % capacity < capacity = mod-lt pos some_room in
      let e : data_offset + (pos % capacity + i - capacity) - data_offset ≡ i - t = omega arith in
      let f : t + (i - t) ≡ i = omega arith in
      patch_inside mid data_offset (drop t xs) (data_offset + (pos % capacity + i - capacity))
        (omega arith) (omega (arith, rest_length))
      ∙ ap (λ k. get_or (drop t xs) k 0) e
      ∙ get_or-drop t (i - t) xs 0
      ∙ ap (λ k. get_or xs k 0) f

  -- A written position holds its byte.
  pub ring_patch_inside :
      (i : ℕ)
      → i < length xs
      → ring_byte (ring_patch bytes pos xs capacity) capacity (pos + i) ≡ get_or xs i 0
  ring_patch_inside i h = elim (Bool-cases (ltb (pos % capacity + i) capacity)) [
    | inl p ↦
        let e : (pos + i) % capacity ≡ pos % capacity + i =
          wrap_low pos i capacity (ground arith) in
        ap (λ k. ring_patch bytes pos xs capacity (data_offset + k)) e
        ∙ first_part i h (ground arith)
    | inr p ↦
        let e : (pos + i) % capacity ≡ pos % capacity + i - capacity =
          wrap_high pos i capacity some_room (omega arith) (ground arith) in
        ap (λ k. ring_patch bytes pos xs capacity (data_offset + k)) e
        ∙ rest_part i h (ground arith)
  ]

  untouched :
      (q : ℕ)
      → (pos % capacity + length xs ≤ q)
        ⊎ ((q < pos % capacity) × (pos % capacity + length xs ≤ q + capacity))
      → ring_patch bytes pos xs capacity (data_offset + q) ≡ bytes (data_offset + q)
  untouched q (inl h) =
      patch_outside mid data_offset (drop t xs) (data_offset + q) (inr (omega (arith, rest_length)))
      ∙ patch_outside bytes (offset_of capacity pos) (take t xs) (data_offset + q)
          (inr (omega (arith, first_length)))
  untouched q (inr h) =
      patch_outside mid data_offset (drop t xs) (data_offset + q) (inr (omega (arith, rest_length)))
      ∙ patch_outside bytes (offset_of capacity pos) (take t xs) (data_offset + q)
          (inl (omega arith))

  -- A position of the window behind the write keeps its byte.
  pub ring_patch_outside :
      (d : ℕ)
      → length xs ≤ d
      → d < capacity
      → ring_byte (ring_patch bytes pos xs capacity) capacity (pos + d)
        ≡ ring_byte bytes capacity (pos + d)
  ring_patch_outside d h p = elim (Bool-cases (ltb (pos % capacity + d) capacity)) [
    | inl q ↦
        let e : (pos + d) % capacity ≡ pos % capacity + d =
          wrap_low pos d capacity (ground arith) in
        rw e (untouched (pos % capacity + d) (inl (omega arith)))
    | inr q ↦
        let below : pos % capacity < capacity = mod-lt pos some_room in
        let le : capacity ≤ pos % capacity + d = ground arith in
        let e : (pos + d) % capacity ≡ pos % capacity + d - capacity =
          wrap_high pos d capacity some_room (omega arith) le in
        rw e (untouched (pos % capacity + d - capacity) (inr (omega arith, omega arith)))
  ]

  -- The coordination header keeps its bytes.
  pub ring_patch_header : (i : ℕ) → i < data_offset → ring_patch bytes pos xs capacity i ≡ bytes i
  ring_patch_header i h =
      patch_outside mid data_offset (drop t xs) i (inl h)
      ∙ patch_outside bytes (offset_of capacity pos) (take t xs) i (inl (omega arith))
