-- ===== src/Abi/Names/Hosts.antt =====
-- crates/abi/src/uri.rs: hosts that `normalize_host` keeps.
use mathlib.Core.List.{reverse, reverse-append, reverse-reverse}
use selium.Base.{
  ℕ, Bool, true, false, ◌||◌, ◌&&◌, none, List, [], ◌∷◌, ◌++◌, ◌≡◌, refl, ap, ◌∙◌, arith, nat_beq,
  and_left, and_right, both,
}
use selium.Base.Text.{Text, all_chars, to_lowercase, lower_byte, strip_last, rsplit_once}
use selium.Abi.Uri.{is_dns_safe_label, is_label_char, normalize_host, trim, trim_spaces, is_space}

-- The characters of a wire name.
abbrev pub is_wire_char : ℕ → Bool
is_wire_char c = is_label_char c || nat_beq c b'.'

abbrev pub all_safe : List Text → Bool
all_safe [] = true
all_safe (label ∷ labels) = is_dns_safe_label label && all_safe labels

module _ (p : ℕ → Bool) where
  pub all_chars-append :
      (s t : Text) → all_chars p s ≡ true → all_chars p t ≡ true → all_chars p (s ++ t) ≡ true
  unfolding all_chars
  all_chars-append [] t h k = k
  all_chars-append (c ∷ s) t h k =
      both (p c) _ (and_left (p c) _ h) (all_chars-append s t (and_right (p c) _ h) k)

  pub all_chars-reverse : (s : Text) → all_chars p s ≡ true → all_chars p (reverse s) ≡ true
  unfolding all_chars
  all_chars-reverse [] h = refl
  all_chars-reverse (c ∷ s) h =
      let last : all_chars p (c ∷ []) ≡ true = both (p c) true (and_left (p c) _ h) refl in
      ap (all_chars p) (reverse-append (c ∷ []) s)
      ∙ all_chars-append (reverse s) (c ∷ []) (all_chars-reverse s (and_right (p c) _ h)) last

pub all_chars-weaker :
    (p q : ℕ → Bool) (s : Text)
    → ((c : ℕ) → p c ≡ true → q c ≡ true)
    → all_chars p s ≡ true
    → all_chars q s ≡ true
unfolding all_chars
all_chars-weaker p q [] w h = refl
all_chars-weaker p q (c ∷ s) w h =
    both (q c) _ (w c (and_left (p c) _ h)) (all_chars-weaker p q s w (and_right (p c) _ h))

-- Each step of `normalize_host` keeps such a text.
spaces_kept : (s : Text) → all_chars is_wire_char s ≡ true → trim_spaces s ≡ s
unfolding trim_spaces all_chars
spaces_kept [] h = refl
spaces_kept (c ∷ s) h =
    let wire = and_left (is_wire_char c) _ h in
    let no_space : is_space c ≡ false = ground arith in rw no_space refl

trim_kept : (s : Text) → all_chars is_wire_char s ≡ true → trim s ≡ s
unfolding trim
trim_kept s h =
    ap (λ t. reverse (trim_spaces (reverse t))) (spaces_kept s h)
    ∙ ap reverse (spaces_kept (reverse s) (all_chars-reverse is_wire_char s h))
    ∙ reverse-reverse s

lowercase_kept : (s : Text) → all_chars is_wire_char s ≡ true → to_lowercase s ≡ s
unfolding to_lowercase all_chars
lowercase_kept [] h = refl
lowercase_kept (c ∷ s) h =
    let wire = and_left (is_wire_char c) _ h in
    let kept : lower_byte c ≡ c = ground arith in
    rw (kept, lowercase_kept s (and_right (is_wire_char c) _ h)) refl

no_port : (s : Text) → all_chars is_wire_char s ≡ true → rsplit_once s b':' ≡ none
unfolding rsplit_once all_chars
no_port [] h = refl
no_port (c ∷ s) h =
    let wire = and_left (is_wire_char c) _ h in
    let other : nat_beq c b':' ≡ false = ground arith in
    rw (no_port s (and_right (is_wire_char c) _ h), other) refl

no_dot_last :
    (front : Text) (last : ℕ)
    → nat_beq last b'.' ≡ false
    → strip_last (front ++ last ∷ []) b'.' ≡ none
unfolding strip_last
no_dot_last [] last h = rw h refl
no_dot_last (c ∷ []) last h = rw (strip_last, h) refl
no_dot_last (c ∷ d ∷ front) last h = rw (no_dot_last (d ∷ front) last h) refl

pub normalize_host-kept :
    (front : Text) (last : ℕ)
    → all_chars is_wire_char (front ++ last ∷ []) ≡ true
    → nat_beq last b'.' ≡ false
    → normalize_host (front ++ last ∷ []) ≡ front ++ last ∷ []
unfolding normalize_host
normalize_host-kept front last h other =
    let s = front ++ last ∷ [] in
    let lower : to_lowercase (trim s) ≡ s = ap to_lowercase (trim_kept s h) ∙ lowercase_kept s h in
    rw (lower, no_dot_last front last other, no_port s h) refl
