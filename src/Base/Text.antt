-- ===== src/Base/Text.antt =====
-- What the program uses of `str`, on the bytes of a text. Texts are ASCII, so that a character is a
-- byte and a change of case is that of ASCII.
pub mod Parts
use Prim.Native.Nat.{ℕ, ◌+◌, ◌-◌}
use Prim.Native.String.{String}
use Prim.Native.Char.{code}
use mathlib.Core.Path.{◌≡◌, refl}
use mathlib.Core.Logic.{◌↔◌}
use mathlib.Core.Bool.{Bool, true, false, ◌&&◌}
use mathlib.Core.Option.{Option, none, some}
use mathlib.Core.List.{List, [], ◌∷◌, ◌++◌, reverse}
use native.Mathlib.Omega.{arith}
use selium.Base.Tests.{leb, nat_beq, if◌then◌else◌, Eq, ◌==◌, nat_eq}
use selium.Base.Lists.{length, drop}

abbrev pub Text : Type 0
Text = List ℕ

-- The bytes of a literal.
abbrev pub codes : String → Text
codes String.[] = []
codes (String.◌∷◌ c s) = code c ∷ codes s

abbrev pub list_beq : {A : Type 0} ⦃e : Eq A⦄ → List A → List A → Bool
list_beq [] [] = true
list_beq [] (y ∷ ys) = false
list_beq (x ∷ xs) [] = false
list_beq (x ∷ xs) (y ∷ ys) = (x == y) && list_beq xs ys

pub list_beq_iff : {A : Type 0} ⦃e : Eq A⦄ (xs ys : List A) → (list_beq xs ys ≡ true) ↔ (xs ≡ ys)
list_beq_iff [] [] = ground arith
list_beq_iff [] (y ∷ ys) = ground arith
list_beq_iff (x ∷ xs) [] = ground arith
list_beq_iff ⦃e⦄ (x ∷ xs) (y ∷ ys) = ground (arith, e.beq_iff x y, list_beq_iff xs ys)

instance abbrev pub list_eq : {A : Type 0} ⦃e : Eq A⦄ → Eq (List A)
list_eq = record { beq = list_beq; beq_iff = list_beq_iff }

-- `starts_with`
unfoldable pub starts_with : Text → Text → Bool
starts_with s [] = true
starts_with [] (p ∷ ps) = false
starts_with (c ∷ s) (p ∷ ps) = nat_beq c p && starts_with s ps

pub starts_with_trans :
    (s p q : Text) → starts_with s p ≡ true → starts_with p q ≡ true → starts_with s q ≡ true
unfolding starts_with
starts_with_trans s p [] h k = refl
starts_with_trans s [] (c ∷ q) h k = cc
starts_with_trans [] (c ∷ p) (d ∷ q) h k = cc
starts_with_trans (b ∷ s) (c ∷ p) (d ∷ q) h k = ground (arith, starts_with_trans s p q)

-- `strip_prefix`
unfoldable pub strip_prefix : Text → Text → Option Text
strip_prefix s [] = some s
strip_prefix [] (p ∷ ps) = none
strip_prefix (c ∷ s) (p ∷ ps) = let rest = strip_prefix s ps in if nat_beq c p then rest else none

-- `strip_suffix` of a character
unfoldable pub strip_last : Text → ℕ → Option Text
strip_last [] c = none
strip_last (x ∷ []) c = if nat_beq x c then some [] else none
strip_last (x ∷ y ∷ s) c = elim (strip_last (y ∷ s) c) [ none ↦ none | some t ↦ some (x ∷ t) ]

-- `ends_with`
unfoldable pub ends_with : Text → Text → Bool
ends_with s suffix =
    leb (length suffix) (length s) && list_beq (drop (length s - length suffix) s) suffix

abbrev pub with_head : ℕ → Option (Text × Text) → Option (Text × Text)
with_head c none = none
with_head c (some (a, b)) = some (c ∷ a, b)

abbrev pub or_else : {A : Type 0} → Option A → Option A → Option A
or_else none other = other
or_else (some a) other = some a

abbrev pub found_rest : Option Text → Option (Text × Text)
found_rest none = none
found_rest (some rest) = some ([], rest)

-- `split_once`: what stands before and behind the first separator.
unfoldable pub split_once : Text → Text → Option (Text × Text)
split_once [] sep = found_rest (strip_prefix [] sep)
split_once (c ∷ s) sep =
    or_else (found_rest (strip_prefix (c ∷ s) sep)) (with_head c (split_once s sep))

-- `rsplit_once` at a character
unfoldable pub rsplit_once : Text → ℕ → Option (Text × Text)
rsplit_once [] sep = none
rsplit_once (c ∷ s) sep =
    or_else (with_head c (rsplit_once s sep)) (if nat_beq c sep then some ([], s) else none)

abbrev pub onto_first : ℕ → List Text → List Text
onto_first c [] = (c ∷ []) ∷ []
onto_first c (t ∷ ts) = (c ∷ t) ∷ ts

-- `split` at a character: one part more than there are separators.
unfoldable pub split : Text → ℕ → List Text
split [] sep = [] ∷ []
split (c ∷ s) sep =
    let parts = split s sep in if nat_beq c sep then [] ∷ parts else onto_first c parts

-- `join`
unfoldable pub join : List Text → Text → Text
join [] sep = []
join (t ∷ []) sep = t
join (t ∷ u ∷ ts) sep = t ++ (sep ++ join (u ∷ ts) sep)

-- `trim_start_matches` and `trim_end_matches` of a character, and `trim_matches`
unfoldable pub trim_start : Text → ℕ → Text
trim_start [] c = []
trim_start (x ∷ s) c = let rest = trim_start s c in if nat_beq x c then rest else x ∷ s

unfoldable pub trim_end : Text → ℕ → Text
trim_end s c = reverse (trim_start (reverse s) c)

unfoldable pub trim_matches : Text → ℕ → Text
trim_matches s c = trim_end (trim_start s c) c

-- `to_ascii_lowercase`
abbrev pub lower_byte : ℕ → ℕ
lower_byte c = if leb b'A' c && leb c b'Z' then c + 32 else c

unfoldable pub to_lowercase : Text → Text
to_lowercase [] = []
to_lowercase (c ∷ s) = lower_byte c ∷ to_lowercase s

-- `all` over the characters
unfoldable pub all_chars : (ℕ → Bool) → Text → Bool
all_chars p [] = true
all_chars p (c ∷ s) = p c && all_chars p s

abbrev pub is_digit : ℕ → Bool
is_digit c = leb b'0' c && leb c b'9'
