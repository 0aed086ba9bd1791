-- ===== src/Memory/Bytes.antt =====
-- Bytes of a memory and of an integer: what `copy_nonoverlapping`, `to_le_bytes` and
-- `from_le_bytes` do. A byte is a number below 256.
use native.Mathlib.Nat.{pow-suc}
use selium.Base.{
  ℕ, zero, suc, ◌+◌, ◌-◌, ◌*◌, ◌/◌, ◌%◌, ◌^◌, ◌≤◌, ◌<◌, ◌≡◌, refl, ap, ◌∙◌, ◌⊎◌, inl, inr, List, [],
  ◌∷◌, ◌&&◌, arith, ltb, leb, if◌then◌else◌, length, get_or, list_ext,
}

-- The bytes of a slice are below 256.
abbrev pub IsBytes : List ℕ → Type 0
IsBytes [] = Unit
IsBytes (x ∷ xs) = (x < 256) × IsBytes xs

-- `from_le_bytes`, and `to_le_bytes` of an integer with the given number of bytes.
abbrev pub from_le : List ℕ → ℕ
from_le [] = 0
from_le (x ∷ xs) = x + 256 * from_le xs

abbrev pub to_le : ℕ → ℕ → List ℕ
to_le zero v = []
to_le (suc n) v = (v % 256) ∷ to_le n (v / 256)

pub length-to_le : (n v : ℕ) → length (to_le n v) ≡ n
length-to_le zero v = refl
length-to_le (suc n) v = ap suc (length-to_le n (v / 256))

pub to_le-IsBytes : (n v : ℕ) → IsBytes (to_le n v)
to_le-IsBytes zero v = tt
to_le-IsBytes (suc n) v = (omega arith, to_le-IsBytes n (v / 256))

pub from_le-to_le : (n v : ℕ) → v < 256 ^ n → from_le (to_le n v) ≡ v
from_le-to_le zero v h = omega arith
from_le-to_le (suc n) v h =
    omega (arith, pow-suc 256 n, from_le-to_le n (v / 256) (omega (arith, pow-suc 256 n)))

pub to_le-from_le : (xs : List ℕ) → IsBytes xs → to_le (length xs) (from_le xs) ≡ xs
to_le-from_le [] h = refl
to_le-from_le (x ∷ xs) h =
    let e : (x + 256 * from_le xs) % 256 ≡ x = omega arith in
    let d : (x + 256 * from_le xs) / 256 ≡ from_le xs = omega arith in
    rw (e, d, to_le-from_le xs h.1)

pub from_le-lt : (xs : List ℕ) → IsBytes xs → from_le xs < 256 ^ length xs
from_le-lt [] h = omega arith
from_le-lt (x ∷ xs) h = omega (arith, pow-suc 256 (length xs), from_le-lt xs h.1)

-- A memory gives the byte at each offset.
abbrev pub Bytes : Type 0
Bytes = ℕ → ℕ

-- The `len` bytes from an offset on.
abbrev pub slice : Bytes → ℕ → ℕ → List ℕ
slice b o zero = []
slice b o (suc n) = b o ∷ slice b (o + 1) n

-- The memory after a write of `xs` at an offset.
abbrev pub patch : Bytes → ℕ → List ℕ → Bytes
patch b o xs i = if leb o i && ltb i (o + length xs) then get_or xs (i - o) 0 else b i

pub length-slice : (b : Bytes) (o n : ℕ) → length (slice b o n) ≡ n
length-slice b o zero = refl
length-slice b o (suc n) = ap suc (length-slice b (o + 1) n)

pub get_or-slice : (b : Bytes) (o n i d : ℕ) → i < n → get_or (slice b o n) i d ≡ b (o + i)
get_or-slice b o zero i d h = absurd (omega arith)
get_or-slice b o (suc n) zero d h = let e : o ≡ o + 0 = omega arith in ap b e
get_or-slice b o (suc n) (suc i) d h =
    let e : o + 1 + i ≡ o + suc i = omega arith in
    get_or-slice b (o + 1) n i d (omega arith) ∙ ap b e

-- A slice depends on its own bytes alone.
pub slice_ext :
    (b c : Bytes) (o n : ℕ) → ((i : ℕ) → o ≤ i → i < o + n → b i ≡ c i) → slice b o n ≡ slice c o n
slice_ext b c o zero h = refl
slice_ext b c o (suc n) h = rw (
  h o (omega arith) (omega arith),
  slice_ext b c (o + 1) n (λ i p q. h i (omega arith) (omega arith)),
)

pub patch_inside :
    (b : Bytes) (o : ℕ) (xs : List ℕ) (i : ℕ)
    → o ≤ i
    → i < o + length xs
    → patch b o xs i ≡ get_or xs (i - o) 0
patch_inside b o xs i p q = ground arith

pub patch_outside :
    (b : Bytes) (o : ℕ) (xs : List ℕ) (i : ℕ) → (i < o) ⊎ (o + length xs ≤ i) → patch b o xs i ≡ b i
patch_outside b o xs i (inl p) = ground arith
patch_outside b o xs i (inr p) = ground arith

pub slice-patch_self : (b : Bytes) (o : ℕ) (xs : List ℕ) → slice (patch b o xs) o (length xs) ≡ xs
slice-patch_self b o xs = list_ext _ _ 0 (length-slice _ o (length xs)) λ i p.
    let q : i < length xs = omega (arith, length-slice (patch b o xs) o (length xs)) in
    let e : o + i - o ≡ i = omega arith in
    get_or-slice (patch b o xs) o (length xs) i 0 q
    ∙ patch_inside b o xs (o + i) (omega arith) (omega arith)
    ∙ ap (λ k. get_or xs k 0) e

pub slice-patch_ne :
    (b : Bytes) (o p n : ℕ) (xs : List ℕ)
    → (p + n ≤ o) ⊎ (o + length xs ≤ p)
    → slice (patch b o xs) p n ≡ slice b p n
slice-patch_ne b o p n xs (inl h) =
    slice_ext _ _ p n (λ i u v. patch_outside b o xs i (inl (omega arith)))
slice-patch_ne b o p n xs (inr h) =
    slice_ext _ _ p n (λ i u v. patch_outside b o xs i (inr (omega arith)))

-- A write of bytes into bytes leaves bytes.
abbrev pub AllBytes : Bytes → Type 0
AllBytes b = (i : ℕ) → b i < 256
