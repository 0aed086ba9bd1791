-- ===== src/Abi/Names/Projection.antt =====
-- crates/abi/src/uri.rs: a path, its labels and its wire name.
use mathlib.Core.List.{reverse, reverse-append, reverse-reverse}
use selium.Base.{
  Bool, false, not, Option, none, some, List, [], ◌∷◌, ◌++◌, ◌≡◌, refl, sym, ap, ◌∙◌, Bool-cases,
  inl, inr, neither_right,
}
use selium.Base.Text.Parts.{join-split, split_parts}
use selium.Base.Text.{Text, split, trim_matches}
use selium.Abi.Names.{
  accepted, is_reserved, is_unsafe, onto, labels_of_trimmed, labels_from_path, joined,
  path_from_labels,
}
use selium.Abi.Uri.{is_class_segment, is_dns_safe_label}

onto-eq-some :
    (label : Text) (rest : Option (List Text)) (out : List Text)
    → onto label rest ≡ some out
    → (labels : List Text) × (rest ≡ some labels) × (out ≡ label ∷ labels)
onto-eq-some label none out h = cc
onto-eq-some label (some labels) out h = (labels, refl, cc)

module _ (refused : Text → Bool) where
  pub accepted_cons :
      (label : Text) (labels out : List Text)
      → accepted refused (label ∷ labels) ≡ some out
      → (refused label ≡ false)
        × (rest : List Text) × (accepted refused labels ≡ some rest)
        × (out ≡ label ∷ rest)
  unfolding accepted
  accepted_cons label labels out h = elim (Bool-cases (refused label)) [
    | inl bad ↦ let failed = rw bad at h in cc
    | inr fine ↦
        let (rest, given, whole) =
          onto-eq-some label (accepted refused labels) out (rw fine at h) in
        (fine, rest, given, whole)
  ]

  -- What is accepted is the labels themselves; so are the parts of a list that is.
  pub accepted_same : (labels out : List Text) → accepted refused labels ≡ some out → out ≡ labels
  unfolding accepted
  accepted_same [] out h = cc
  accepted_same (label ∷ labels) out h =
      let (fine, rest, given, whole) = accepted_cons label labels out h in
      whole ∙ ap (λ l. label ∷ l) (accepted_same labels rest given)

  pub accepted-append :
      (before behind out : List Text)
      → accepted refused (before ++ behind) ≡ some out
      → (accepted refused before ≡ some before) × (accepted refused behind ≡ some behind)
  unfolding accepted
  accepted-append [] behind out h = (refl, h ∙ ap some (accepted_same behind out h))
  accepted-append (label ∷ before) behind out h =
      let (fine, rest, given, whole) = accepted_cons label (before ++ behind) out h in
      let (first, second) = accepted-append before behind rest given in
      (rw (fine, first) refl, second)

  pub accepted-reverse :
      (labels out : List Text)
      → accepted refused (reverse labels) ≡ some out
      → accepted refused labels ≡ some labels
  unfolding accepted
  accepted-reverse [] out h = refl
  accepted-reverse (label ∷ labels) out h =
      let (before, last) =
        accepted-append (reverse labels) (label ∷ []) out
          (sym (ap (accepted refused) (reverse-append (label ∷ []) labels)) ∙ h) in
      let (fine, _, _, _) = accepted_cons label [] (label ∷ []) last in
      rw (fine, accepted-reverse labels (reverse labels) before) refl

pub accepted_weaker :
    (labels out : List Text)
    → accepted is_reserved labels ≡ some out
    → accepted is_unsafe labels ≡ some labels
unfolding accepted
accepted_weaker [] out h = refl
accepted_weaker (label ∷ labels) out h =
    let (fine, rest, given, whole) = accepted_cons is_reserved label labels out h in
    rw
      (
        neither_right (is_class_segment label) (not (is_dns_safe_label label)) fine,
        accepted_weaker labels rest given,
      )
      refl

path_of :
    (t : Text) (ts labels : List Text)
    → reverse labels ≡ t ∷ ts
    → path_from_labels labels ≡ joined (accepted is_unsafe (reverse labels))
unfolding path_from_labels
path_of t ts [] h = cc
path_of t ts (label ∷ labels) h = refl

labels_joined :
    (path : Text) (labels : List Text)
    → labels_of_trimmed path ≡ some labels
    → path_from_labels labels ≡ some path
labels_joined [] labels h = cc
labels_joined (c ∷ path) labels h =
    let (t, ts, parts) = split_parts (c ∷ path) b'/' in
    let segments = split (c ∷ path) b'/' in
    let turned : reverse labels ≡ segments =
      ap reverse (accepted_same is_reserved (reverse segments) labels h)
      ∙ reverse-reverse segments in
    let safe = accepted_weaker segments segments (accepted-reverse is_reserved segments labels h) in
    path_of t ts labels (turned ∙ parts)
    ∙ ap (λ l. joined (accepted is_unsafe l)) turned
    ∙ ap joined safe
    ∙ ap some (join-split (c ∷ path) b'/')

-- A path that has labels is made of them again, without the slashes at its ends.
path_from_labels-labels_from_path :
    (path : Text) (labels : List Text)
    → labels_from_path path ≡ some labels
    → path_from_labels labels ≡ some (trim_matches path b'/')
unfolding labels_from_path path_from_labels
path_from_labels-labels_from_path path labels h = labels_joined (trim_matches path b'/') labels h
