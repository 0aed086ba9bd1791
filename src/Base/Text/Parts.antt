-- ===== src/Base/Text/Parts.antt =====
-- The parts of a text between separators.
use selium.Base.Tests.{nat_beq, Bool-cases}
use selium.Base.Text.{Text, split, join, onto_first}
use Prim.Native.Nat.{ℕ}
use mathlib.Core.Path.{◌≡◌, refl, sym, ap, ◌∙◌}
use mathlib.Core.Logic.{inl, inr}
use mathlib.Core.List.{List, [], ◌∷◌}
use native.Mathlib.Omega.{arith}

join-onto_first :
    (c : ℕ) (t : Text) (ts : List Text) (sep : Text)
    → join (onto_first c (t ∷ ts)) sep ≡ c ∷ join (t ∷ ts) sep
unfolding join
join-onto_first c t [] sep = refl
join-onto_first c t (u ∷ ts) sep = refl

pub split_parts : (s : Text) (sep : ℕ) → (t : Text) × (ts : List Text) × (split s sep ≡ t ∷ ts)
unfolding split
split_parts [] sep = ([], [], refl)
split_parts (c ∷ s) sep =
    let (t, ts, parts) = split_parts s sep in
    elim (Bool-cases (nat_beq c sep)) [
      | inl same ↦ ([], t ∷ ts, rw (same, parts) refl)
      | inr other ↦ (c ∷ t, ts, rw (other, parts) refl)
    ]

-- The parts of a text, joined again.
pub join-split : (s : Text) (sep : ℕ) → join (split s sep) (sep ∷ []) ≡ s
unfolding split join
join-split [] sep = refl
join-split (c ∷ s) sep =
    let (t, ts, parts) = split_parts s sep in
    let rest : join (t ∷ ts) (sep ∷ []) ≡ s =
      ap (λ l. join l (sep ∷ [])) (sym parts) ∙ join-split s sep in
    elim (Bool-cases (nat_beq c sep)) [
      | inl same ↦
          let equal : c ≡ sep = ground arith in
          rw (same, parts) (rw rest (ap (λ x. x ∷ s) (sym equal)))
      | inr other ↦ rw (other, parts) (join-onto_first c t ts (sep ∷ []) ∙ ap (λ l. c ∷ l) rest)
    ]
