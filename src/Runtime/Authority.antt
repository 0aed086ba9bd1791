-- ===== src/Runtime/Authority.antt =====
-- crates/runtime/src/process.rs `authorises`, `is_descendant_of` and `validate_grants`: the check of
-- a host call against the grants of the process that makes it.
pub mod Chains
use selium.Base.{
  ℕ, zero, suc, ◌+◌, Bool, true, false, not, ◌&&◌, ◌||◌, Option, none, some, List, [], ◌∷◌, ◌≡◌,
  nat_beq, if◌then◌else◌, Eq, nat_eq, ◌==◌, length,
}
use selium.Base.Exec.{Result, ok, err}
use selium.Base.Map.{Map, lookup}
use selium.Base.Text.{Text, list_eq}
use selium.Abi.Grants.{
  Capability, same_capability, ResourceIdentity, local, shared, ScopeContext, ResourceSelector,
  children, CapabilityGrant, selector_matches, all_of, any_of, is_evaluatable, delegate_grants,
  namespace,
}

-- The ids that discovery returned, which the checks below do not read, are left out.
pub record ProcessAuthority : Type 0 where
  pub grants : List CapabilityGrant
  pub tenant : Option Text
  pub parent : Option ℕ

abbrev pub Authorities : Type 0
Authorities = Map ℕ ProcessAuthority

abbrev pub parent_of : Option ProcessAuthority → Option ℕ
parent_of none = none
parent_of (some authority) = authority.parent

-- One round of the walk: the parent is the ancestor, or the walk goes on from it.
abbrev pub step_up : Option ℕ → ℕ → (ℕ → Bool) → Bool
step_up none ancestor further = false
step_up (some p) ancestor further = nat_beq p ancestor || further p

-- One round for each of the depths `0..=max_depth`.
unfoldable pub walk : ℕ → Authorities → ℕ → ℕ → Bool
walk zero authorities current ancestor = false
walk (suc rounds) authorities current ancestor =
    step_up (parent_of (lookup current authorities)) ancestor
      (λ p. walk rounds authorities p ancestor)

unfoldable pub is_descendant_of : Authorities → ℕ → ℕ → Bool
is_descendant_of authorities target ancestor =
    walk (suc (length authorities)) authorities target ancestor

unfoldable pub selector_matches_children : Authorities → ℕ → Option ResourceIdentity → Bool
selector_matches_children authorities grantee none = false
selector_matches_children authorities grantee (some (local target)) =
    is_descendant_of authorities target grantee
selector_matches_children authorities grantee (some (shared id)) = false

abbrev pub holds : Authorities → ℕ → ScopeContext → ResourceSelector → Bool
holds authorities process_id context children =
    selector_matches_children authorities process_id context.resource_id
holds authorities process_id context other = selector_matches other context

abbrev pub grant_admits : Authorities → ℕ → Capability → ScopeContext → CapabilityGrant → Bool
grant_admits authorities process_id capability context grant =
    same_capability grant.capability capability
    && all_of (holds authorities process_id context) grant.selectors

abbrev pub grants_of : Option ProcessAuthority → List CapabilityGrant
grants_of none = []
grants_of (some authority) = authority.grants

-- A process that has no authority has no grants.
unfoldable pub authorises : Authorities → ℕ → Capability → ScopeContext → Bool
authorises authorities process_id capability context =
    any_of (grant_admits authorities process_id capability context)
      (grants_of (lookup process_id authorities))

-- `InvalidGrant` and `UnevaluatableSelector`
pub data AdmissionError : Type 0 where
  invalid_grant unevaluatable_selector : Capability → AdmissionError

abbrev pub scopes_tenant : ResourceSelector → Bool
scopes_tenant (ResourceSelector.tenant t) = true
scopes_tenant (namespace n) = true
scopes_tenant other = false

unfoldable pub check_grant : CapabilityGrant → Result AdmissionError (Unit {0})
check_grant grant =
    if same_capability grant.capability delegate_grants
      && not (any_of scopes_tenant grant.selectors)
    then err (invalid_grant grant.capability)
    else if all_of (λ s. is_evaluatable s grant.selectors) grant.selectors
    then ok tt
    else err (unevaluatable_selector grant.capability)

unfoldable pub validate_grants : List CapabilityGrant → Result AdmissionError (Unit {0})
validate_grants [] = ok tt
validate_grants (grant ∷ grants) = elim (check_grant grant) [
  | ok u ↦ validate_grants grants
  | err e ↦ err e
]
