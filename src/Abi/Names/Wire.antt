-- ===== src/Abi/Names/Wire.antt =====
-- crates/abi/src/uri.rs: the wire name of a service, under a domain.
use mathlib.Core.List.{reverse, reverse-reverse, append_assoc}
use selium.Base.{
  ℕ, suc, ◌+◌, Bool, true, false, not, none, some, List, [], ◌∷◌, ◌++◌, ◌≡◌, ◌≢◌, refl, sym, ap,
  ◌∙◌, arith, leb, nat_beq, nat_eq, and_left, and_right, both, or_left, length, take, take-append,
}
use selium.Base.Map.{lookup}
use selium.Base.Text.{
  ends_with, starts_with, Text, codes, list_eq, split, join, all_chars, trim_matches,
}
use selium.Abi.Names.Hosts.{
  all_safe, is_wire_char, all_chars-append, all_chars-weaker, normalize_host-kept,
}
use selium.Abi.Names.Projection.{accepted_weaker, accepted_same, accepted-reverse, accepted_cons}
use selium.Abi.Names.{
  accepted, is_reserved, is_unsafe, labels_of_trimmed, labels_from_path, domain_match,
  resolve_labels, resolve_host, resolve_wire_name, with_tenant,
}
use selium.Abi.Uri.{DomainTable, is_dns_safe_label, is_label_char, is_empty_text, normalize_host}

abbrev dot : Text
dot = codes "."

not-eq-false : (b : Bool) → not b ≡ false → b ≡ true
not-eq-false true h = refl
not-eq-false false h = cc

-- What a label is made of.
label_chars : (label : Text) → is_dns_safe_label label ≡ true → all_chars is_label_char label ≡ true
unfolding is_dns_safe_label
label_chars label h = and_right (not (ends_with label (codes "-"))) _ (
    and_right (not (starts_with label (codes "-"))) _
      (and_right (leb (length label) 63) _ (and_right (not (is_empty_text label)) _ h)))

label_cons :
    (label : Text) → is_dns_safe_label label ≡ true → (x : ℕ) × (s : Text) × (label ≡ x ∷ s)
unfolding is_dns_safe_label
label_cons [] h = cc
label_cons (x ∷ s) h = (x, s, refl)

label_char-wire : (c : ℕ) → is_label_char c ≡ true → is_wire_char c ≡ true
label_char-wire c h = or_left (is_label_char c) (nat_beq c b'.') h

label_char-dot : (c : ℕ) → is_label_char c ≡ true → nat_beq c b'.' ≡ false
label_char-dot c h = ground arith

split_label : (label : Text) → all_chars is_label_char label ≡ true → split label b'.' ≡ label ∷ []
unfolding split all_chars
split_label [] h = refl
split_label (c ∷ label) h =
    rw
      (
        label_char-dot c (and_left (is_label_char c) _ h),
        split_label label (and_right (is_label_char c) _ h),
      )
      refl

split-append :
    (label rest : Text)
    → all_chars is_label_char label ≡ true
    → split (label ++ b'.' ∷ rest) b'.' ≡ label ∷ split rest b'.'
unfolding split all_chars
split-append [] rest h = refl
split-append (c ∷ label) rest h =
    rw
      (
        label_char-dot c (and_left (is_label_char c) _ h),
        split-append label rest (and_right (is_label_char c) _ h),
      )
      refl

split-join :
    (label : Text) (labels : List Text)
    → all_safe (label ∷ labels) ≡ true
    → split (join (label ∷ labels) dot) b'.' ≡ label ∷ labels
unfolding join
split-join label [] h =
    split_label label (label_chars label (and_left (is_dns_safe_label label) _ h))
split-join label (next ∷ labels) h =
    split-append label (join (next ∷ labels) dot)
      (label_chars label (and_left (is_dns_safe_label label) _ h))
    ∙ ap (λ l. label ∷ l) (split-join next labels (and_right (is_dns_safe_label label) _ h))

-- The last character of a text with some.
snoc_of :
    (p : ℕ → Bool) (x : ℕ) (s : Text)
    → all_chars p (x ∷ s) ≡ true
    → (front : Text) × (last : ℕ) × (x ∷ s ≡ front ++ last ∷ []) × (p last ≡ true)
unfolding all_chars
snoc_of p x [] h = ([], x, refl, and_left (p x) true h)
snoc_of p x (y ∷ s) h =
    let (front, last, whole, holds) = snoc_of p y s (and_right (p x) _ h) in
    (x ∷ front, last, ap (λ t. x ∷ t) whole, holds)

all_chars-dot : all_chars is_wire_char dot ≡ true
unfolding all_chars
all_chars-dot = refl

-- A wire name: its characters, and its last one, which is no dot.
wire_name :
    (label : Text) (labels : List Text)
    → all_safe (label ∷ labels) ≡ true
    → (all_chars is_wire_char (join (label ∷ labels) dot) ≡ true)
      × (front : Text) × (last : ℕ) × (join (label ∷ labels) dot ≡ front ++ last ∷ [])
      × (nat_beq last b'.' ≡ false)
unfolding join
wire_name label [] h =
    let safe = and_left (is_dns_safe_label label) _ h in
    let chars = label_chars label safe in
    let (x, s, whole) = label_cons label safe in
    let (front, last, parts, holds) = snoc_of is_label_char x s (rw whole at chars) in
    (
      all_chars-weaker is_label_char is_wire_char label label_char-wire chars,
      front,
      last,
      whole ∙ parts,
      label_char-dot last holds,
    )
wire_name label (next ∷ labels) h =
    let chars = label_chars label (and_left (is_dns_safe_label label) _ h) in
    let (rest, front, last, parts, other) =
      wire_name next labels (and_right (is_dns_safe_label label) _ h) in
    let dotted : all_chars is_wire_char (b'.' ∷ join (next ∷ labels) dot) ≡ true =
      all_chars-append is_wire_char dot (join (next ∷ labels) dot) (all_chars-dot) rest in
    (
      all_chars-append is_wire_char label (b'.' ∷ join (next ∷ labels) dot)
          (all_chars-weaker is_label_char is_wire_char label label_char-wire chars) dotted,
      label ++ b'.' ∷ front,
      last,
      ap (λ t. label ++ b'.' ∷ t) parts ∙ sym (append_assoc label (b'.' ∷ front) (last ∷ [])),
      other,
    )

normalize_host-join :
    (label : Text) (labels : List Text)
    → all_safe (label ∷ labels) ≡ true
    → normalize_host (join (label ∷ labels) dot) ≡ join (label ∷ labels) dot
normalize_host-join label labels h =
    let (chars, front, last, parts, other) = wire_name label labels h in
    ap normalize_host parts ∙ normalize_host-kept front last (rw parts at chars) other ∙ sym parts

-- No domain of the table is a longer suffix of a name than the given one.
abbrev pub IsLongest : DomainTable → List Text → List Text → Type 0
IsLongest domains [] domain = Unit
IsLongest domains (label ∷ labels) domain =
    (lookup (join ((label ∷ labels) ++ domain) dot) domains ≡ none)
    × IsLongest domains labels domain

domain_match-longest :
    (domains : DomainTable) (labels : List Text) (d tenant : Text) (ds : List Text) (start : ℕ)
    → IsLongest domains labels (d ∷ ds)
    → lookup (join (d ∷ ds) dot) domains ≡ some tenant
    → domain_match domains (labels ++ d ∷ ds) start ≡ some (tenant, start + length labels)
unfolding domain_match
domain_match-longest domains [] d tenant ds start v h =
    let same : start ≡ start + 0 = omega arith in rw h (ap (λ n. some (tenant, n)) same)
domain_match-longest domains (label ∷ labels) d tenant ds start v h =
    let shift : start + 1 + length labels ≡ start + suc (length labels) = omega arith in
    rw (v.0) (
      domain_match-longest domains labels d tenant ds (start + 1) (v.1) h
      ∙ ap (λ n. some (tenant, n)) shift)

all_safe-append :
    (labels domain : List Text)
    → accepted is_unsafe labels ≡ some labels
    → all_safe domain ≡ true
    → all_safe (labels ++ domain) ≡ true
all_safe-append [] domain h k = k
all_safe-append (label ∷ labels) domain h k =
    let (fine, rest, given, whole) = accepted_cons is_unsafe label labels (label ∷ labels) h in
    let same = accepted_same is_unsafe labels rest given in
    both (is_dns_safe_label label) _ (not-eq-false (is_dns_safe_label label) fine)
      (all_safe-append labels domain (given ∙ ap some same) k)

-- The host of a name that is kept, with its labels.
resolve_host-labels :
    (domains : DomainTable) (name label : Text) (labels : List Text)
    → split name b'.' ≡ label ∷ labels
    → name ≢ []
    → resolve_host domains name ≡ resolve_labels domains (label ∷ labels)
resolve_host-labels domains [] label labels h ne = absurd (ne refl)
resolve_host-labels domains (c ∷ name) label labels h ne = ap (resolve_labels domains) h

resolve_labels-matched :
    (domains : DomainTable) (labels : List Text) (d tenant : Text) (ds : List Text)
    → IsLongest domains labels (d ∷ ds)
    → lookup (join (d ∷ ds) dot) domains ≡ some tenant
    → resolve_labels domains (labels ++ d ∷ ds)
      ≡ with_tenant tenant (accepted is_unsafe (reverse labels))
resolve_labels-matched domains labels d tenant ds v h =
    let first : 0 + length labels ≡ length labels = omega arith in
    let kept : take (0 + length labels) (labels ++ d ∷ ds) ≡ labels =
      ap (λ n. take n (labels ++ d ∷ ds)) first ∙ take-append labels (d ∷ ds) in
    rw (domain_match-longest domains labels d tenant ds 0 v h)
      (ap (λ l. with_tenant tenant (accepted is_unsafe (reverse l))) kept)

snoc-ne : (front : Text) (last : ℕ) → front ++ last ∷ [] ≢ []
snoc-ne [] last h = cc
snoc-ne (c ∷ front) last h = cc

resolve_host-join :
    (domains : DomainTable) (label : Text) (labels : List Text)
    → all_safe (label ∷ labels) ≡ true
    → resolve_host domains (normalize_host (join (label ∷ labels) dot))
      ≡ resolve_labels domains (label ∷ labels)
resolve_host-join domains label labels h =
    let (_, front, last, parts, _) = wire_name label labels h in
    ap (resolve_host domains) (normalize_host-join label labels h)
    ∙ resolve_host-labels domains (join (label ∷ labels) dot) label labels
        (split-join label labels h) (λ nothing. snoc-ne front last (sym parts ∙ nothing))

resolve_wire_name-join :
    (domains : DomainTable) (labels : List Text) (d tenant : Text) (ds : List Text)
    → all_safe (labels ++ d ∷ ds) ≡ true
    → IsLongest domains labels (d ∷ ds)
    → lookup (join (d ∷ ds) dot) domains ≡ some tenant
    → resolve_wire_name (join (labels ++ d ∷ ds) dot) domains
      ≡ with_tenant tenant (accepted is_unsafe (reverse labels))
unfolding resolve_wire_name
resolve_wire_name-join domains [] d tenant ds safe v h =
    resolve_host-join domains d ds safe ∙ resolve_labels-matched domains [] d tenant ds v h
resolve_wire_name-join domains (label ∷ labels) d tenant ds safe v h =
    resolve_host-join domains label (labels ++ d ∷ ds) safe
    ∙ resolve_labels-matched domains (label ∷ labels) d tenant ds v h

-- The labels of a path are safe, and turned round they are its segments.
labels_safe :
    (path : Text) (labels : List Text)
    → labels_of_trimmed path ≡ some labels
    → (accepted is_unsafe labels ≡ some labels)
      × (accepted is_unsafe (reverse labels) ≡ some (split path b'/'))
labels_safe [] labels h = cc
labels_safe (c ∷ path) labels h =
    let segments = split (c ∷ path) b'/' in
    let same = accepted_same is_reserved (reverse segments) labels h in
    let safe = accepted_weaker (reverse segments) labels h in
    let forward =
      accepted_weaker segments segments (accepted-reverse is_reserved segments labels h) in
    (
      ap (accepted is_unsafe) same ∙ safe ∙ ap some (sym same),
      ap (λ l. accepted is_unsafe (reverse l)) same
          ∙ ap (accepted is_unsafe) (reverse-reverse segments)
          ∙ forward,
    )

-- The wire name of a service resolves to it: where a path has labels, and a domain of DNS labels is
-- registered for a tenant, the labels and the domain joined by dots resolve to the tenant and the
-- segments of the path, if no longer suffix of the name is registered.
pub resolve_wire_name-labels_from_path :
    (domains : DomainTable) (path tenant d : Text) (labels ds : List Text)
    → labels_from_path path ≡ some labels
    → all_safe (d ∷ ds) ≡ true
    → lookup (join (d ∷ ds) dot) domains ≡ some tenant
    → IsLongest domains labels (d ∷ ds)
    → resolve_wire_name (join (labels ++ d ∷ ds) dot) domains
      ≡ some (tenant, split (trim_matches path b'/') b'/')
unfolding labels_from_path
resolve_wire_name-labels_from_path domains path tenant d labels ds h safe found longest =
    let (whole, turned) = labels_safe (trim_matches path b'/') labels h in
    resolve_wire_name-join domains labels d tenant ds (all_safe-append labels (d ∷ ds) whole safe)
      longest found
    ∙ ap (with_tenant tenant) turned
