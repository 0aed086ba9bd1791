-- ===== src/Runtime/Delegation.antt =====
-- crates/runtime/src/hostcall.rs: what a process may confer on a child that it spawns, and the
-- tenant that the child runs under. Also `narrow_grants` of guests/bridge/src/lib.rs.
pub mod Attenuation
pub mod Escalation
pub mod Confinement
use selium.Base.{
  ℕ, zero, suc, ◌+◌, Bool, true, false, not, ◌&&◌, ◌||◌, Option, none, some, List, [], ◌∷◌, ◌++◌,
  ◌≡◌, nat_beq, if◌then◌else◌, Eq, nat_eq, ◌==◌,
}
use selium.Base.Exec.{Result, ok, err}
use selium.Base.Map.{Map, lookup}
use selium.Base.Text.{Text, list_eq, starts_with}
use selium.Abi.Classes.{ResourceClass, class_eq}
use selium.Abi.Framing.{AbiErrorCode, permission_denied, malformed_payload, invalid_handle}
use selium.Abi.Grants.{
  Capability, same_capability, ResourceIdentity, same_identity, LocalityScope, locality_matches,
  Namespace, ScopeContext, ResourceSelector, namespace, uri_prefix, locality, explicit_resource,
  children, CapabilityGrant, all_of, any_of, delegate_grants, mint_certificate, quota_write,
  is_text, any,
}
use selium.Runtime.Authority.{
  ProcessAuthority, Authorities, authorises, AdmissionError, validate_grants,
}

pub data DelegationScope : Type 0 where
  root : DelegationScope
  tenants : List Text → DelegationScope

unfoldable pub contains : List Text → Text → Bool
contains [] t = false
contains (x ∷ xs) t = (x == t) || contains xs t

unfoldable pub admits_tenant : DelegationScope → Text → Bool
admits_tenant DelegationScope.root t = true
admits_tenant (tenants ts) t = contains ts t

-- The tenants and the root that the selectors of the delegation grants name.
unfoldable pub tenants_in : List ResourceSelector → List Text
tenants_in [] = []
tenants_in (ResourceSelector.tenant t ∷ rest) = t ∷ tenants_in rest
tenants_in (namespace (Namespace.tenant t) ∷ rest) = t ∷ tenants_in rest
tenants_in (other ∷ rest) = tenants_in rest

abbrev pub is_root : ResourceSelector → Bool
is_root (namespace Namespace.root) = true
is_root other = false

unfoldable pub delegation_selectors : List CapabilityGrant → List ResourceSelector
delegation_selectors [] = []
delegation_selectors (grant ∷ grants) =
    let rest = delegation_selectors grants in
    if same_capability grant.capability delegate_grants then grant.selectors ++ rest else rest

abbrev pub tenants_scope : List Text → Option DelegationScope
tenants_scope [] = none
tenants_scope (t ∷ ts) = some (tenants (t ∷ ts))

unfoldable pub delegation_scope : List CapabilityGrant → Option DelegationScope
delegation_scope grants =
    if any_of is_root (delegation_selectors grants)
    then some DelegationScope.root
    else tenants_scope (tenants_in (delegation_selectors grants))

unfoldable pub namespace_covers : Namespace → Namespace → Bool
namespace_covers Namespace.root child = true
namespace_covers (Namespace.tenant t) Namespace.root = false
namespace_covers (Namespace.tenant t) (Namespace.tenant c) = c == t

-- Whether a selector of the child is within a selector of the parent.
unfoldable pub selector_covers : ResourceSelector → ResourceSelector → Bool
selector_covers (ResourceSelector.tenant t) (ResourceSelector.tenant c) = c == t
selector_covers (namespace n) (namespace c) = namespace_covers n c
selector_covers (namespace n) (ResourceSelector.tenant c) = namespace_covers n (Namespace.tenant c)
selector_covers (uri_prefix p) (uri_prefix c) = starts_with c p
selector_covers (locality l) (locality c) = locality_matches l c
selector_covers (ResourceSelector.resource_class k) (ResourceSelector.resource_class c) = c == k
selector_covers (explicit_resource i) (explicit_resource c) = same_identity c i
selector_covers children children = true
selector_covers parent child = false

unfoldable pub parent_grant_covers_child : CapabilityGrant → CapabilityGrant → Bool
parent_grant_covers_child parent child =
    same_capability parent.capability child.capability
    && all_of (λ s. any_of (selector_covers s) child.selectors) parent.selectors

-- A selector that puts a child's grant into a tenant.
abbrev pub names_tenant : ResourceSelector → Bool
names_tenant (ResourceSelector.tenant t) = true
names_tenant (namespace (Namespace.tenant t)) = true
names_tenant other = false

abbrev pub names_tenant_in : List Text → ResourceSelector → Bool
names_tenant_in ts (ResourceSelector.tenant t) = contains ts t
names_tenant_in ts (namespace (Namespace.tenant t)) = contains ts t
names_tenant_in ts other = false

unfoldable pub delegating : Option DelegationScope → List CapabilityGrant → Bool
delegating none grants = false
delegating (some DelegationScope.root) grants =
    all_of (λ (g : CapabilityGrant). any_of names_tenant g.selectors) grants
delegating (some (tenants ts)) grants =
    all_of (λ (g : CapabilityGrant). any_of (names_tenant_in ts) g.selectors) grants

abbrev pub has_capability : Capability → CapabilityGrant → Bool
has_capability capability grant = same_capability grant.capability capability

abbrev pub covered_by : List CapabilityGrant → CapabilityGrant → Bool
covered_by parents child = any_of (λ parent. parent_grant_covers_child parent child) parents

-- What follows the admission check, for a parent with these grants.
unfoldable pub check_child_grants :
    List CapabilityGrant → List CapabilityGrant → Result AbiErrorCode (Unit {0})
check_child_grants parents grants =
    if any_of (has_capability delegate_grants) grants
    then err permission_denied
    else if any_of (has_capability mint_certificate) grants
    then err permission_denied
    else if any_of (has_capability quota_write) grants
    then err permission_denied
    else if delegating (delegation_scope parents) grants
    then ok tt
    else if all_of (covered_by parents) grants
    then ok tt
    else err permission_denied

-- The parent's authority is looked up once the grants are well formed.
abbrev pub check_admitted :
    Result AdmissionError (Unit {0})
    → Option ProcessAuthority
    → List CapabilityGrant
    → Result AbiErrorCode (Unit {0})
check_admitted (err e) authority grants = err malformed_payload
check_admitted (ok u) none grants = err invalid_handle
check_admitted (ok u) (some authority) grants = check_child_grants authority.grants grants

unfoldable pub validate_child_grants :
    Authorities → ℕ → List CapabilityGrant → Result AbiErrorCode (Unit {0})
validate_child_grants authorities process_id grants =
    check_admitted (validate_grants grants) (lookup process_id authorities) grants

abbrev pub tenant_of : Option ProcessAuthority → Option Text
tenant_of none = none
tenant_of (some authority) = authority.tenant

unfoldable pub process_tenant : Authorities → ℕ → Option Text
process_tenant authorities process_id = tenant_of (lookup process_id authorities)

abbrev pub scope_admits : Option DelegationScope → Text → Bool
scope_admits none t = false
scope_admits (some scope) t = admits_tenant scope t

abbrev pub delegated_tenant : Option ProcessAuthority → Text → Result AbiErrorCode (Option Text)
delegated_tenant none requested = err invalid_handle
delegated_tenant (some authority) requested =
    if scope_admits (delegation_scope authority.grants) requested
    then ok (some requested)
    else err permission_denied

unfoldable pub resolve_spawn_tenant :
    Authorities → ℕ → Option Text → Result AbiErrorCode (Option Text)
resolve_spawn_tenant authorities process_id none = ok (process_tenant authorities process_id)
resolve_spawn_tenant authorities process_id (some requested) =
    if is_text (process_tenant authorities process_id) requested
    then ok (some requested)
    else delegated_tenant (lookup process_id authorities) requested

abbrev pub no_tenant : Option Text → Bool
no_tenant none = true
no_tenant (some t) = false

abbrev pub tenant_or_root : Option Text → Text
tenant_or_root none = []
tenant_or_root (some t) = t

-- A scope context that names a tenant and nothing else.
abbrev pub tenant_context : Text → ScopeContext
tenant_context t = record {
  tenant = some t;
  uri = none;
  locality = any;
  resource_class = none;
  resource_id = none;
}

unfoldable pub authorize_serving_tenant : Authorities → ℕ → Option Text → Result AbiErrorCode Text
authorize_serving_tenant authorities process_id none =
    ok (tenant_or_root (process_tenant authorities process_id))
authorize_serving_tenant authorities process_id (some requested) =
    if is_text (process_tenant authorities process_id) requested
      || no_tenant (process_tenant authorities process_id)
    then ok requested
    else if authorises authorities process_id delegate_grants (tenant_context requested)
    then ok requested
    else err permission_denied

unfoldable pub has_listed : List Capability → Capability → Bool
has_listed [] c = false
has_listed (x ∷ xs) c = same_capability x c || has_listed xs c

-- `narrow_grants` of the bridge: the grants whose capability is not subtracted.
unfoldable pub narrow_grants : List CapabilityGrant → List Capability → List CapabilityGrant
narrow_grants [] narrowing = []
narrow_grants (grant ∷ grants) narrowing =
    let rest = narrow_grants grants narrowing in
    if has_listed narrowing grant.capability then rest else grant ∷ rest
