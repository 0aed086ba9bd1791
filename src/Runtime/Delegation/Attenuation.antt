-- ===== src/Runtime/Delegation/Attenuation.antt =====
-- crates/runtime/src/hostcall.rs: the contexts that a child's grant admits beside those that its
-- parent's admits.
use selium.Base.{
  true, Option, none, some, List, [], ◌∷◌, ◌≡◌, refl, arith, nat_eq, ◌==◌, Bool-cases, inl, inr,
}
use selium.Base.Text.{Text, list_eq, list_beq_iff, starts_with, starts_with_trans}
use selium.Abi.Classes.{ResourceClass, class_eq}
use selium.Abi.Endpoint
use selium.Abi.Endpoint.{NetworkEndpoint}
use selium.Abi.Grants.{
  same_capability, ResourceIdentity, same_identity, local, shared, LocalityScope, any, cluster,
  host, locality_matches, Namespace, ScopeContext, ResourceSelector, namespace, uri_prefix,
  locality, explicit_resource, children, CapabilityGrant, all_of, any_of, selector_matches,
  matches_tenant, prefix_admits, allows, is_text, is_class, is_identity,
}
use selium.Runtime.Delegation.{selector_covers, namespace_covers, parent_grant_covers_child}

-- A selector whose coverage by prefix and by namespace is that of its matches: no root namespace,
-- no prefix that is a network endpoint, and no selector of the grantee's descendants.
abbrev pub IsPlain : ResourceSelector → Type 0
IsPlain (namespace Namespace.root) = ⊥
IsPlain (uri_prefix p) = Endpoint.parse p ≡ none
IsPlain children = ⊥
IsPlain other = Unit

abbrev pub ArePlain : List ResourceSelector → Type 0
ArePlain [] = Unit
ArePlain (s ∷ ss) = IsPlain s × ArePlain ss

text_same :
    (a b : Text) (t : Option Text) → (b == a) ≡ true → is_text t b ≡ true → is_text t a ≡ true
text_same a b none h k = cc
text_same a b (some t) h k = ground (arith, list_beq_iff b a, list_beq_iff t b, list_beq_iff t a)

locality_within :
    (p c actual : LocalityScope)
    → locality_matches p c ≡ true
    → locality_matches c actual ≡ true
    → locality_matches p actual ≡ true
unfolding locality_matches
locality_within any c actual h k = refl
locality_within cluster any actual h k = cc
locality_within cluster cluster actual h k = k
locality_within cluster (host c) any h k = cc
locality_within cluster (host c) cluster h k = refl
locality_within cluster (host c) (host a) h k = refl
locality_within (host p) any actual h k = cc
locality_within (host p) cluster actual h k = cc
locality_within (host p) (host c) any h k = cc
locality_within (host p) (host c) cluster h k = cc
locality_within (host p) (host c) (host a) h k =
    ground (arith, list_beq_iff c p, list_beq_iff a c, list_beq_iff a p)

prefix_within :
    (p c : Text) (uri : Option Text)
    → Endpoint.parse p ≡ none
    → Endpoint.parse c ≡ none
    → starts_with c p ≡ true
    → prefix_admits c uri ≡ true
    → prefix_admits p uri ≡ true
unfolding prefix_admits
prefix_within p c none plain_p plain_c h k = cc
prefix_within p c (some uri) plain_p plain_c h k =
    rw plain_p (starts_with_trans uri c p (rw plain_c at k) h)

identity_within :
    (p c : ResourceIdentity) (t : Option ResourceIdentity)
    → same_identity c p ≡ true
    → is_identity t c ≡ true
    → is_identity t p ≡ true
identity_within p c none h k = cc
identity_within (local p) (local c) (some (local t)) h k = ground arith
identity_within (local p) (local c) (some (shared t)) h k = cc
identity_within (local p) (shared c) (some t) h k = cc
identity_within (shared p) (local c) (some t) h k = cc
identity_within (shared p) (shared c) (some (local t)) h k = cc
identity_within (shared p) (shared c) (some (shared t)) h k = ground arith

class_within :
    (p c : ResourceClass) (t : Option ResourceClass)
    → (c == p) ≡ true
    → is_class t c ≡ true
    → is_class t p ≡ true
class_within p c none h k = cc
class_within p c (some t) h k = ground arith

namespace_within :
    (n c : Namespace) (t : Option Text)
    → IsPlain (namespace n)
    → namespace_covers n c ≡ true
    → matches_tenant c t ≡ true
    → matches_tenant n t ≡ true
unfolding namespace_covers matches_tenant
namespace_within Namespace.root c t plain h k = absurd plain
namespace_within (Namespace.tenant n) Namespace.root t plain h k = cc
namespace_within (Namespace.tenant n) (Namespace.tenant c) t plain h k = text_same n c t h k

selector_within :
    (s c : ResourceSelector) (context : ScopeContext)
    → IsPlain s
    → IsPlain c
    → selector_covers s c ≡ true
    → selector_matches c context ≡ true
    → selector_matches s context ≡ true
unfolding selector_covers selector_matches
selector_within (ResourceSelector.tenant t) (ResourceSelector.tenant c) context ps pc h k =
    text_same t c context.tenant h k
selector_within (namespace n) (namespace c) context ps pc h k =
    namespace_within n c context.tenant ps h k
selector_within (namespace n) (ResourceSelector.tenant c) context ps pc h k =
    namespace_within n (Namespace.tenant c) context.tenant ps h
      (tenant_namespace c context.tenant k)
  where
    tenant_namespace :
        (c : Text) (t : Option Text)
        → is_text t c ≡ true
        → matches_tenant (Namespace.tenant c) t ≡ true
    tenant_namespace c t k = unfold matches_tenant in k
selector_within (uri_prefix p) (uri_prefix c) context ps pc h k =
    prefix_within p c context.uri ps pc h k
selector_within (locality l) (locality c) context ps pc h k =
    locality_within l c context.locality h k
selector_within (ResourceSelector.resource_class p) (ResourceSelector.resource_class c) context ps
      pc h k =
    class_within p c context.resource_class h k
selector_within (explicit_resource p) (explicit_resource c) context ps pc h k =
    identity_within p c context.resource_id h k
selector_within children children context ps pc h k = k
selector_within s c context ps pc h k = cc

-- A selector of the parent that one of the child's is within holds wherever all of the child's do.
one_within :
    (s : ResourceSelector) (cs : List ResourceSelector) (context : ScopeContext)
    → IsPlain s
    → ArePlain cs
    → any_of (selector_covers s) cs ≡ true
    → all_of (λ c. selector_matches c context) cs ≡ true
    → selector_matches s context ≡ true
unfolding any_of all_of
one_within s [] context ps pcs h k = cc
one_within s (c ∷ cs) context ps pcs h k = elim (Bool-cases (selector_covers s c)) [
  | inl covers ↦ selector_within s c context ps (pcs.0) covers (ground arith)
  | inr other ↦ one_within s cs context ps (pcs.1) (rw other at h) (ground arith)
]

all_within :
    (ss cs : List ResourceSelector) (context : ScopeContext)
    → ArePlain ss
    → ArePlain cs
    → all_of (λ s. any_of (selector_covers s) cs) ss ≡ true
    → all_of (λ c. selector_matches c context) cs ≡ true
    → all_of (λ s. selector_matches s context) ss ≡ true
unfolding all_of
all_within [] cs context pss pcs h k = refl
all_within (s ∷ ss) cs context pss pcs h k =
    let here : selector_matches s context ≡ true =
      one_within s cs context (pss.0) pcs (ground arith) k in
    let rest : all_of (λ s. selector_matches s context) ss ≡ true =
      all_within ss cs context (pss.1) pcs (ground arith) k in
    rw (here, rest)

-- A grant that a parent's grant covers has its capability, and admits no context that the parent's
-- does not, where the selectors of both are plain.
pub allows-covers :
    (parent child : CapabilityGrant) (context : ScopeContext)
    → ArePlain parent.selectors
    → ArePlain child.selectors
    → parent_grant_covers_child parent child ≡ true
    → allows child context ≡ true
    → (same_capability parent.capability child.capability ≡ true) × (allows parent context ≡ true)
unfolding parent_grant_covers_child allows
allows-covers parent child context pp pc h k =
    (ground arith, all_within parent.selectors child.selectors context pp pc (ground arith) k)
