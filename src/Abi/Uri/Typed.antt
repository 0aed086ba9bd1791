-- ===== src/Abi/Uri/Typed.antt =====
-- crates/abi/src/uri.rs: the URI of a resource.
use mathlib.Core.List.{reverse, reverse-append, reverse-reverse, append_assoc}
use selium.Base.{
  nat_beq_refl, ℕ, ◌^◌, ◌<◌, true, false, ◌||◌, none, some, [], ◌∷◌, ◌++◌, ◌≡◌, refl, sym, ap, ◌∙◌,
  nat_beq, neither_left, neither_right, or_left, or_right, nat_eq,
}
use selium.Base.Text.{Text, list_eq, strip_prefix, split_once, trim_start, trim_end, trim_matches}
use selium.Abi.Classes.{
  ResourceClass, uri_segment, from_uri_segment, shared_region, shared_mapping, signal, tcp_listener,
  tcp_stream, udp_socket, durable_log, blob_store, process, activity_log, metering_stream,
  guest_log, host_queue, cpu,
}
use selium.Abi.Uri.Decimal.{show_u64-Shows}
use selium.Abi.Uri.{
  sel_prefix, trimmed, contains, is_empty_text, show_u64, parse_sel, parse_rest, or_whole,
  parse_typed, parse_alias, is_root_uri, resource_uri, typed_id, typed_path, alias_of, is_root,
}

abbrev slash : Text
slash = b'/' ∷ []

strip_prefix-append : (front tail : Text) → strip_prefix (front ++ tail) front ≡ some tail
unfolding strip_prefix
strip_prefix-append [] tail = refl
strip_prefix-append (c ∷ front) tail = rw (nat_beq_refl c) (strip_prefix-append front tail)

-- The first slash behind a text without one.
pub split_once-append :
    (front tail : Text)
    → contains front b'/' ≡ false
    → split_once (front ++ b'/' ∷ tail) slash ≡ some (front, tail)
unfolding split_once strip_prefix
split_once-append [] tail h = refl
split_once-append (c ∷ front) tail h =
    rw
      (
        neither_left (nat_beq c b'/') (contains front b'/') h,
        split_once-append front tail (neither_right (nat_beq c b'/') (contains front b'/') h),
      )
      refl

-- Trimming keeps a text that does not start and does not end with the character.
trim_start-cons : (x c : ℕ) (s : Text) → nat_beq x c ≡ false → trim_start (x ∷ s) c ≡ x ∷ s
unfolding trim_start
trim_start-cons x c s h = rw h refl

trim_end-snoc :
    (front : Text) (last c : ℕ)
    → nat_beq last c ≡ false
    → trim_end (front ++ last ∷ []) c ≡ front ++ last ∷ []
unfolding trim_end
trim_end-snoc front last c h =
    ap (λ s. reverse (trim_start s c)) (reverse-append front (last ∷ []))
    ∙ ap reverse (trim_start-cons last c (reverse front) h)
    ∙ reverse-append (last ∷ []) (reverse front)
    ∙ ap (λ s. s ++ last ∷ []) (reverse-reverse front)

-- The last character of a text.
last_of :
    (x c : ℕ) (s : Text)
    → contains (x ∷ s) c ≡ false
    → (front : Text) × (last : ℕ) × (x ∷ s ≡ front ++ last ∷ []) × (nat_beq last c ≡ false)
last_of x c [] h = ([], x, refl, neither_left (nat_beq x c) false h)
last_of x c (y ∷ s) h =
    let (front, last, whole, other) =
      last_of y c s (neither_right (nat_beq x c) (contains (y ∷ s) c) h) in
    (x ∷ front, last, ap (λ t. x ∷ t) whole, other)

class_lem :
    (class : ResourceClass)
    → (contains (uri_segment class) b'/' ≡ false)
      × (is_empty_text (uri_segment class) ≡ false)
      × (from_uri_segment (uri_segment class) ≡ some class)
unfolding uri_segment from_uri_segment
class_lem shared_region = (refl, refl, refl)
class_lem shared_mapping = (refl, refl, refl)
class_lem signal = (refl, refl, refl)
class_lem tcp_listener = (refl, refl, refl)
class_lem tcp_stream = (refl, refl, refl)
class_lem udp_socket = (refl, refl, refl)
class_lem durable_log = (refl, refl, refl)
class_lem blob_store = (refl, refl, refl)
class_lem process = (refl, refl, refl)
class_lem activity_log = (refl, refl, refl)
class_lem metering_stream = (refl, refl, refl)
class_lem guest_log = (refl, refl, refl)
class_lem host_queue = (refl, refl, refl)
class_lem cpu = (refl, refl, refl)

-- A path of two parts without slashes that are not empty is not trimmed.
trim_matches-path :
    (segment : Text) (x : ℕ) (rest : Text)
    → contains segment b'/' ≡ false
    → is_empty_text segment ≡ false
    → contains (x ∷ rest) b'/' ≡ false
    → trim_matches (segment ++ b'/' ∷ x ∷ rest) b'/' ≡ segment ++ b'/' ∷ x ∷ rest
unfolding trim_matches
trim_matches-path [] x rest h some_bytes k = cc
trim_matches-path (c ∷ segment) x rest h some_bytes k =
    let (front, last, whole, other) = last_of x b'/' rest k in
    let path : (c ∷ segment) ++ b'/' ∷ x ∷ rest ≡ ((c ∷ segment) ++ b'/' ∷ front) ++ last ∷ [] =
      ap (λ t. (c ∷ segment) ++ b'/' ∷ t) whole
      ∙ sym (append_assoc (c ∷ segment) (b'/' ∷ front) (last ∷ [])) in
    ap (λ s. trim_end s b'/')
      (trim_start-cons c b'/' (segment ++ b'/' ∷ x ∷ rest)
          (neither_left (nat_beq c b'/') (contains segment b'/') h)
        ∙ path)
    ∙ trim_end-snoc ((c ∷ segment) ++ b'/' ∷ front) last b'/' other
    ∙ sym path

contains-append : (front : Text) (c : ℕ) (tail : Text) → contains (front ++ c ∷ tail) c ≡ true
contains-append [] c tail = or_left (nat_beq c c) (contains tail c) (nat_beq_refl c)
contains-append (x ∷ front) c tail = or_right (nat_beq x c) _ (contains-append front c tail)

-- What parse_sel makes of a resource URI.
parse_sel-resource_uri :
    (tenant : Text) (class : ResourceClass) (id : ℕ)
    → contains tenant b'/' ≡ false
    → id < 2 ^ 64
    → parse_sel (resource_uri tenant class id)
      ≡ some (tenant, uri_segment class ++ b'/' ∷ show_u64 id)
unfolding parse_sel resource_uri
parse_sel-resource_uri tenant class id h small =
    let (no_slash, some_bytes, _) = class_lem class in
    let shown = show_u64-Shows id small in
    let path = uri_segment class ++ b'/' ∷ show_u64 id in
    let kept : trim_matches path b'/' ≡ path = rw shown.is_cons (
      trim_matches-path (uri_segment class) shown.first shown.rest no_slash some_bytes
        (rw shown.is_cons at shown.no_slash)) in
    ap parse_rest (strip_prefix-append sel_prefix (tenant ++ b'/' ∷ path))
    ∙ ap (λ o. some (trimmed (or_whole (tenant ++ b'/' ∷ path) o)))
        (split_once-append tenant path h)
    ∙ ap (λ p. some (tenant, p)) kept

-- The URI of a resource is parsed back to its tenant, class and id; it is no alias, and it is one of
-- the root tenant just where the tenant is empty. The tenant has no slash, and the id is a u64.
pub parse_typed-resource_uri :
    (tenant : Text) (class : ResourceClass) (id : ℕ)
    → contains tenant b'/' ≡ false
    → id < 2 ^ 64
    → (parse_typed (resource_uri tenant class id) ≡ some (tenant, class, id))
      × (parse_alias (resource_uri tenant class id) ≡ none)
      × (is_root_uri (resource_uri tenant class id) ≡ is_empty_text tenant)
unfolding parse_typed parse_alias is_root_uri
parse_typed-resource_uri tenant class id h small =
    let (no_slash, some_bytes, named) = class_lem class in
    let shown = show_u64-Shows id small in
    let parsed = parse_sel-resource_uri tenant class id h small in
    let parts = split_once-append (uri_segment class) (show_u64 id) no_slash in
    let filled : is_empty_text (show_u64 id) ≡ false = ap is_empty_text shown.is_cons in
    let slashed = contains-append (uri_segment class) b'/' (show_u64 id) in
    let refused : (is_empty_text (uri_segment class ++ b'/' ∷ show_u64 id)
          || contains (uri_segment class ++ b'/' ∷ show_u64 id) b'/')
        ≡ true =
      or_right (is_empty_text (uri_segment class ++ b'/' ∷ show_u64 id)) _ slashed in
    (
      ap typed_path parsed
          ∙ ap (typed_id tenant) parts
          ∙ rw (filled, shown.no_slash, named, shown.read) refl,
      ap alias_of parsed ∙ rw refused refl,
      ap is_root parsed,
    )
