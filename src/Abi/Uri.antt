-- ===== src/Abi/Uri.antt =====
-- crates/abi/src/uri.rs: the addresses of resources and services, and the wire names that services
-- are projected to.
pub mod Decimal
pub mod Typed
use mathlib.Core.List.{reverse}
use selium.Base.{
  ℕ, zero, suc, ◌+◌, ◌-◌, ◌*◌, ◌/◌, ◌%◌, ◌^◌, Bool, true, false, not, ◌&&◌, ◌||◌, Option, none,
  some, List, [], ◌∷◌, ◌++◌, ltb, leb, nat_beq, nat_eq, if◌then◌else◌, length, take,
}
use selium.Base.Map.{Map, lookup, insert}
use selium.Base.Text.{
  Text, codes, list_eq, starts_with, ends_with, strip_prefix, strip_last, split_once, rsplit_once,
  split, join, trim_end, trim_matches, to_lowercase, all_chars, is_digit, or_else,
}
use selium.Abi.Classes.{ResourceClass, uri_segment, from_uri_segment}

abbrev pub sel_prefix : Text
sel_prefix = codes "sel://"

abbrev pub is_some : {A : Type 0} → Option A → Bool
is_some none = false
is_some (some a) = true

abbrev pub is_empty_text : Text → Bool
is_empty_text [] = true
is_empty_text (c ∷ s) = false

-- `contains` of a character
abbrev pub contains : Text → ℕ → Bool
contains [] c = false
contains (x ∷ s) c = nat_beq x c || contains s c

abbrev pub text_or : Option Text → Text → Text
text_or none s = s
text_or (some t) s = t

-- `trim`, on the white space of ASCII
abbrev pub is_space : ℕ → Bool
is_space c = nat_beq c 32 || (leb 9 c && leb c 13)

unfoldable pub trim_spaces : Text → Text
trim_spaces [] = []
trim_spaces (c ∷ s) = let rest = trim_spaces s in if is_space c then rest else c ∷ s

unfoldable pub trim : Text → Text
unfolding trim_spaces
trim s = reverse (trim_spaces (reverse (trim_spaces s)))

abbrev pub without_port : Text → Option (Text × Text) → Text
without_port host none = host
without_port host (some (name, port)) =
    if all_chars is_digit port && not (is_empty_text name) then name else host

unfoldable pub normalize_host : Text → Text
unfolding trim to_lowercase strip_last rsplit_once all_chars
normalize_host host =
    let lower = to_lowercase (trim host) in
    let bare = text_or (strip_last lower b'.') lower in without_port bare (rsplit_once bare b':')

-- `DomainTable`
abbrev pub DomainTable : Type 0
DomainTable = Map Text Text

unfoldable pub seed : Text → Text → DomainTable → DomainTable
seed domain tenant domains = insert (normalize_host domain) tenant domains

unfoldable pub is_class_segment : Text → Bool
is_class_segment segment = is_some (from_uri_segment segment)

abbrev pub is_label_char : ℕ → Bool
is_label_char c = (leb b'a' c && leb c b'z') || (is_digit c || nat_beq c b'-')

unfoldable pub is_dns_safe_label : Text → Bool
unfolding starts_with ends_with all_chars
is_dns_safe_label segment =
    not (is_empty_text segment)
    && (leb (length segment) 63
        && (not (starts_with segment (codes "-"))
            && (not (ends_with segment (codes "-")) && all_chars is_label_char segment)))

abbrev pub or_whole : Text → Option (Text × Text) → Text × Text
or_whole rest none = (rest, [])
or_whole rest (some parts) = parts

abbrev pub trimmed : Text × Text → Text × Text
trimmed (tenant, path) = (tenant, trim_matches path b'/')

abbrev pub parse_rest : Option Text → Option (Text × Text)
parse_rest none = none
parse_rest (some rest) = some (trimmed (or_whole rest (split_once rest (codes "/"))))

unfoldable pub parse_sel : Text → Option (Text × Text)
unfolding strip_prefix
parse_sel uri = parse_rest (strip_prefix uri sel_prefix)

abbrev pub is_root : Option (Text × Text) → Bool
is_root none = false
is_root (some (tenant, path)) = is_empty_text tenant

unfoldable pub is_root_uri : Text → Bool
unfolding parse_sel
is_root_uri uri = is_root (parse_sel uri)

abbrev pub alias_of : Option (Text × Text) → Option (Text × Text)
alias_of none = none
alias_of (some (tenant, path)) =
    if is_empty_text path || contains path b'/'
    then none
    else if is_class_segment path
    then none
    else some (tenant, path)

unfoldable pub parse_alias : Text → Option (Text × Text)
unfolding parse_sel
parse_alias uri = alias_of (parse_sel uri)

-- `parse::<u64>`: decimal digits behind an optional plus sign, below 2 ^ 64.
unfoldable pub digits_value : Text → ℕ → ℕ
digits_value [] acc = acc
digits_value (c ∷ s) acc = digits_value s (acc * 10 + (c - b'0'))

abbrev digits_of : Text → Option ℕ
digits_of s =
    if is_empty_text s || not (all_chars is_digit s)
    then none
    else if ltb (digits_value s 0) (2 ^ 64)
    then some (digits_value s 0)
    else none

unfoldable pub parse_u64 : Text → Option ℕ
parse_u64 [] = none
parse_u64 (c ∷ s) = if nat_beq c b'+' then digits_of s else digits_of (c ∷ s)

-- The decimal digits of a number: 20 are enough for a u64.
unfoldable pub digits : ℕ → ℕ → Text → Text
digits zero n acc = acc
digits (suc fuel) n acc =
    let rest = digits fuel (n / 10) ((b'0' + n % 10) ∷ acc) in
    if ltb n 10 then (b'0' + n) ∷ acc else rest

abbrev pub show_u64 : ℕ → Text
show_u64 n = digits 20 n []

abbrev with_class : Text → Option ResourceClass → Option ℕ → Option (Text × ResourceClass × ℕ)
with_class tenant none id = none
with_class tenant (some class) none = none
with_class tenant (some class) (some id) = some (tenant, class, id)

abbrev pub typed_id : Text → Option (Text × Text) → Option (Text × ResourceClass × ℕ)
typed_id tenant none = none
typed_id tenant (some (segment, id)) =
    if is_empty_text id || contains id b'/'
    then none
    else with_class tenant (from_uri_segment segment) (parse_u64 id)

abbrev pub typed_path : Option (Text × Text) → Option (Text × ResourceClass × ℕ)
typed_path none = none
typed_path (some (tenant, path)) = typed_id tenant (split_once path (codes "/"))

unfoldable pub parse_typed : Text → Option (Text × ResourceClass × ℕ)
unfolding parse_sel
parse_typed uri = typed_path (parse_sel uri)

unfoldable pub resource_uri : Text → ResourceClass → ℕ → Text
resource_uri tenant class id =
    sel_prefix ++ (tenant ++ (codes "/" ++ (uri_segment class ++ (codes "/" ++ show_u64 id))))

-- `wildcard_prefix`
abbrev pub prefix_of : Option Text → Option Text
prefix_of none = none
prefix_of (some prefix) = some (trim_end prefix b'/')

unfoldable pub wildcard_prefix : Text → Option Text
unfolding trim_end strip_last
wildcard_prefix path = prefix_of (strip_last (trim_end path b'/') b'*')
