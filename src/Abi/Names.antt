-- ===== src/Abi/Names.antt =====
-- crates/abi/src/uri.rs: the projection of the paths of services to wire names, and back.
pub mod Projection
pub mod Hosts
pub mod Wire
use mathlib.Core.List.{reverse}
use selium.Base.{
  ℕ, zero, suc, ◌+◌, ◌-◌, Bool, not, ◌||◌, Option, none, some, List, [], ◌∷◌, nat_eq, if◌then◌else◌,
  length, take,
}
use selium.Base.Map.{lookup}
use selium.Base.Text.{Text, codes, list_eq, split, join, trim_matches}
use selium.Abi.Uri.{DomainTable, normalize_host, is_class_segment, is_dns_safe_label}

abbrev pub onto : Text → Option (List Text) → Option (List Text)
onto label none = none
onto label (some labels) = some (label ∷ labels)

-- The labels up to the first one that is refused, which there must not be.
unfoldable pub accepted : (Text → Bool) → List Text → Option (List Text)
accepted refused [] = some []
accepted refused (label ∷ labels) =
    let rest = accepted refused labels in if refused label then none else onto label rest

abbrev pub is_unsafe : Text → Bool
is_unsafe label = not (is_dns_safe_label label)

abbrev pub is_reserved : Text → Bool
is_reserved segment = is_class_segment segment || not (is_dns_safe_label segment)

abbrev pub labels_of_trimmed : Text → Option (List Text)
labels_of_trimmed [] = none
labels_of_trimmed (c ∷ path) = accepted is_reserved (reverse (split (c ∷ path) b'/'))

unfoldable pub labels_from_path : Text → Option (List Text)
unfolding split trim_matches accepted
labels_from_path path = labels_of_trimmed (trim_matches path b'/')

abbrev pub joined : Option (List Text) → Option Text
joined none = none
joined (some segments) = some (join segments (codes "/"))

unfoldable pub path_from_labels : List Text → Option Text
unfolding accepted
path_from_labels [] = none
path_from_labels (label ∷ labels) = joined (accepted is_unsafe (reverse (label ∷ labels)))

-- The longest suffix of the labels that is a domain: its tenant and where it starts.
abbrev pub match_at : Option Text → ℕ → Option (Text × ℕ) → Option (Text × ℕ)
match_at none start shorter = shorter
match_at (some tenant) start shorter = some (tenant, start)

unfoldable pub domain_match : DomainTable → List Text → ℕ → Option (Text × ℕ)
domain_match domains [] start = none
domain_match domains (label ∷ labels) start =
    match_at (lookup (join (label ∷ labels) (codes ".")) domains) start
      (domain_match domains labels (start + 1))

-- The last label and how many stand before it.
last_label : Text → List Text → Text × ℕ
last_label label [] = (label, 0)
last_label label (next ∷ labels) =
    let (tenant, count) = last_label next labels in (tenant, count + 1)

-- Without a domain the last label is the tenant, if there are others.
unfoldable pub synthetic : List Text → Text × ℕ
unfolding last_label
synthetic [] = ([], 1)
synthetic (label ∷ []) = ([], 1)
synthetic (label ∷ next ∷ labels) = last_label label (next ∷ labels)

abbrev pub matched_or : List Text → Option (Text × ℕ) → Text × ℕ
matched_or labels none = synthetic labels
matched_or labels (some found) = found

abbrev pub with_tenant : Text → Option (List Text) → Option (Text × List Text)
with_tenant tenant none = none
with_tenant tenant (some path) = some (tenant, path)

abbrev pub resolve_labels : DomainTable → List Text → Option (Text × List Text)
resolve_labels domains labels =
    let (tenant, count) = matched_or labels (domain_match domains labels 0) in
    with_tenant tenant (accepted is_unsafe (reverse (take count labels)))

abbrev pub resolve_host : DomainTable → Text → Option (Text × List Text)
resolve_host domains [] = none
resolve_host domains (c ∷ name) = resolve_labels domains (split (c ∷ name) b'.')

unfoldable pub resolve_wire_name : Text → DomainTable → Option (Text × List Text)
unfolding domain_match synthetic accepted split
resolve_wire_name name domains = resolve_host domains (normalize_host name)
