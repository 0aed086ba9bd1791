-- ===== src/Abi/Grants.antt =====
-- crates/abi/src/lib.rs: capability grants and the selectors that narrow them. Texts are ASCII.
use selium.Base.{
  ℕ, Bool, true, false, ◌&&◌, ◌||◌, Option, none, some, List, [], ◌∷◌, nat_beq, ◌==◌, nat_eq,
}
use selium.Base.Text.{Text, list_eq, starts_with}
use selium.Abi.Classes.{ResourceClass, class_eq, tcp_listener, tcp_stream, udp_socket}
use selium.Abi.Endpoint
use selium.Abi.Endpoint.{NetworkEndpoint, prefix_matches}

pub data Capability : Type 0 where
  process_lifecycle shared_memory signal network storage session_lifecycle activity_read
        metering_read guest_log_read guest_log_write host_queue delegate_grants system_registration
        mint_certificate quota_write :
      Capability

abbrev pub capability_index : Capability → ℕ
capability_index process_lifecycle = 0
capability_index shared_memory = 1
capability_index signal = 2
capability_index network = 3
capability_index storage = 4
capability_index session_lifecycle = 5
capability_index activity_read = 6
capability_index metering_read = 7
capability_index guest_log_read = 8
capability_index guest_log_write = 9
capability_index host_queue = 10
capability_index delegate_grants = 11
capability_index system_registration = 12
capability_index mint_certificate = 13
capability_index quota_write = 14

-- The derived equality compares the variants.
abbrev pub same_capability : Capability → Capability → Bool
same_capability c d = nat_beq (capability_index c) (capability_index d)

pub data ResourceIdentity : Type 0 where
  local : ℕ → ResourceIdentity
  shared : ℕ → ResourceIdentity

abbrev pub same_identity : ResourceIdentity → ResourceIdentity → Bool
same_identity (local a) (local b) = nat_beq a b
same_identity (local a) (shared b) = false
same_identity (shared a) (local b) = false
same_identity (shared a) (shared b) = nat_beq a b

pub data LocalityScope : Type 0 where
  any cluster : LocalityScope
  host : Text → LocalityScope

pub data Namespace : Type 0 where
  root : Namespace
  tenant : Text → Namespace

pub record ScopeContext : Type 0 where
  pub tenant : Option Text
  pub uri : Option Text
  pub locality : LocalityScope
  pub resource_class : Option ResourceClass
  pub resource_id : Option ResourceIdentity

pub data ResourceSelector : Type 0 where
  tenant : Text → ResourceSelector
  namespace : Namespace → ResourceSelector
  uri_prefix : Text → ResourceSelector
  locality : LocalityScope → ResourceSelector
  resource_class : ResourceClass → ResourceSelector
  explicit_resource : ResourceIdentity → ResourceSelector
  children : ResourceSelector

pub record CapabilityGrant : Type 0 where
  pub capability : Capability
  pub selectors : List ResourceSelector

-- `LocalityScope::matches`
unfoldable pub locality_matches : LocalityScope → LocalityScope → Bool
locality_matches any actual = true
locality_matches cluster any = false
locality_matches cluster cluster = true
locality_matches cluster (host h) = true
locality_matches (host expected) any = false
locality_matches (host expected) cluster = false
locality_matches (host expected) (host actual) = actual == expected

-- `tenant == Some(expected)`, of an optional text
abbrev pub is_text : Option Text → Text → Bool
is_text none expected = false
is_text (some actual) expected = actual == expected

unfoldable pub matches_tenant : Namespace → Option Text → Bool
matches_tenant root none = true
matches_tenant root (some t) = false
matches_tenant (Namespace.tenant expected) t = is_text t expected

-- Component-aware where both texts are endpoints, a plain prefix where one of them is not.
abbrev pub uri_matches : Option NetworkEndpoint → Option NetworkEndpoint → Text → Text → Bool
uri_matches (some grant) (some context) prefix uri = prefix_matches grant context
uri_matches (some grant) none prefix uri = starts_with uri prefix
uri_matches none context prefix uri = starts_with uri prefix

unfoldable pub prefix_admits : Text → Option Text → Bool
prefix_admits prefix none = false
prefix_admits prefix (some uri) =
    uri_matches (Endpoint.parse prefix) (Endpoint.parse uri) prefix uri

abbrev pub is_class : Option ResourceClass → ResourceClass → Bool
is_class none expected = false
is_class (some actual) expected = actual == expected

abbrev pub is_identity : Option ResourceIdentity → ResourceIdentity → Bool
is_identity none expected = false
is_identity (some actual) expected = same_identity actual expected

-- `ResourceSelector::matches`
unfoldable pub selector_matches : ResourceSelector → ScopeContext → Bool
selector_matches (ResourceSelector.tenant expected) context = is_text context.tenant expected
selector_matches (namespace n) context = matches_tenant n context.tenant
selector_matches (uri_prefix prefix) context = prefix_admits prefix context.uri
selector_matches (locality expected) context = locality_matches expected context.locality
selector_matches (ResourceSelector.resource_class expected) context =
    is_class context.resource_class expected
selector_matches (explicit_resource expected) context = is_identity context.resource_id expected
selector_matches children context = false

-- `iter().all(..)` and `iter().any(..)`
unfoldable pub all_of : {A : Type 0} → (A → Bool) → List A → Bool
all_of p [] = true
all_of p (x ∷ xs) = p x && all_of p xs

unfoldable pub any_of : {A : Type 0} → (A → Bool) → List A → Bool
any_of p [] = false
any_of p (x ∷ xs) = p x || any_of p xs

-- `CapabilityGrant::allows`
unfoldable pub allows : CapabilityGrant → ScopeContext → Bool
allows grant context = all_of (λ s. selector_matches s context) grant.selectors

abbrev pub is_network_class : ResourceSelector → Bool
is_network_class (ResourceSelector.resource_class c) =
    (c == tcp_listener) || ((c == tcp_stream) || (c == udp_socket))
is_network_class other = false

unfoldable pub is_evaluatable : ResourceSelector → List ResourceSelector → Bool
is_evaluatable (uri_prefix prefix) selectors = any_of is_network_class selectors
is_evaluatable other selectors = true
