-- ===== src/Runtime/Delegation/Confinement.antt =====
-- crates/runtime/src/hostcall.rs: the authority of a child whose grants `validate_child_grants`
-- accepted.
use selium.Base.{
  ℕ, nat_eq, Bool, true, false, ◌&&◌, Option, none, some, List, [], ◌∷◌, ◌≡◌, refl, sym, ◌∙◌, arith,
  nat_beq_iff, if◌then◌else◌, Bool-cases, and_left, and_right, both, or_left, or_right,
  neither_left, neither_right, inl, inr, ◌==◌,
}
use selium.Base.Exec.{Result, ok, err}
use selium.Base.Map.{lookup}
use selium.Base.Text.{Text, list_eq, list_beq_iff}
use selium.Abi.Framing.{permission_denied}
use selium.Abi.Grants.{
  Capability, same_capability, capability_index, ScopeContext, ResourceSelector, CapabilityGrant,
  all_of, any_of, delegate_grants, mint_certificate, quota_write, selector_matches, allows, is_text,
  children,
}
use selium.Runtime.Authority.{
  ProcessAuthority, Authorities, holds, grant_admits, authorises, validate_grants, AdmissionError,
}
use selium.Runtime.Delegation.{
  delegation_selectors, delegation_scope, tenants_in, parent_grant_covers_child, delegating,
  has_capability, covered_by, check_child_grants, validate_child_grants, check_admitted,
  delegated_tenant, process_tenant, resolve_spawn_tenant,
}
use selium.Runtime.Delegation.Attenuation.{IsPlain, ArePlain, allows-covers}

abbrev pub AllPlain : List CapabilityGrant → Type 0
AllPlain [] = Unit
AllPlain (g ∷ gs) = ArePlain g.selectors × AllPlain gs

holds_plain :
    (a : Authorities) (n : ℕ) (context : ScopeContext) (s : ResourceSelector)
    → IsPlain s
    → holds a n context s ≡ selector_matches s context
holds_plain a n context children plain = absurd plain
holds_plain a n context s plain = refl

all_holds_plain :
    (a : Authorities) (n : ℕ) (context : ScopeContext) (ss : List ResourceSelector)
    → ArePlain ss
    → all_of (holds a n context) ss ≡ all_of (λ s. selector_matches s context) ss
unfolding all_of
all_holds_plain a n context [] plain = refl
all_holds_plain a n context (s ∷ ss) plain =
    rw (holds_plain a n context s (plain.0), all_holds_plain a n context ss (plain.1))

grant_admits_plain :
    (a : Authorities) (n : ℕ) (capability : Capability) (context : ScopeContext)
    (g : CapabilityGrant)
    → ArePlain g.selectors
    → grant_admits a n capability context g
      ≡ (same_capability g.capability capability && allows g context)
unfolding allows
grant_admits_plain a n capability context g plain =
    rw (all_holds_plain a n context g.selectors plain)

same_through :
    (p c d : Capability)
    → same_capability p c ≡ true
    → same_capability c d ≡ true
    → same_capability p d ≡ true
same_through p c d h k = ground (
  arith,
  nat_beq_iff (capability_index p) (capability_index c),
  nat_beq_iff (capability_index c) (capability_index d),
  nat_beq_iff (capability_index p) (capability_index d),
)

admits_within :
    (a : Authorities) (parent child : ℕ) (capability : Capability) (context : ScopeContext)
    (g c : CapabilityGrant)
    → ArePlain g.selectors
    → ArePlain c.selectors
    → parent_grant_covers_child g c ≡ true
    → grant_admits a child capability context c ≡ true
    → grant_admits a parent capability context g ≡ true
admits_within a parent child capability context g c pg pc covers h =
    let k : (same_capability c.capability capability && allows c context) ≡ true =
      sym (grant_admits_plain a child capability context c pc) ∙ h in
    let allowed : allows c context ≡ true = and_right _ _ k in
    let within = allows-covers g c context pg pc covers allowed in
    let same : same_capability g.capability capability ≡ true =
      same_through g.capability c.capability capability (within.0) (and_left _ _ k) in
    grant_admits_plain a parent capability context g pg ∙ both _ _ same (within.1)

-- A grant that is covered by one of the parent's admits what the parent's grants admit.
covered_within :
    (a : Authorities) (parent child : ℕ) (capability : Capability) (context : ScopeContext)
    (gs : List CapabilityGrant) (c : CapabilityGrant)
    → AllPlain gs
    → ArePlain c.selectors
    → covered_by gs c ≡ true
    → grant_admits a child capability context c ≡ true
    → any_of (grant_admits a parent capability context) gs ≡ true
unfolding any_of
covered_within a parent child capability context [] c pgs pc covers h = cc
covered_within a parent child capability context (g ∷ gs) c pgs pc covers h =
    elim (Bool-cases (parent_grant_covers_child g c)) [
      | inl hit ↦ or_left _ _ (admits_within a parent child capability context g c (pgs.0) pc hit h)
      | inr other ↦
          or_right _ _ (
            covered_within a parent child capability context gs c (pgs.1) pc (rw other at covers) h)
    ]

all_within :
    (a : Authorities) (parent child : ℕ) (capability : Capability) (context : ScopeContext)
    (gs cs : List CapabilityGrant)
    → AllPlain gs
    → AllPlain cs
    → all_of (covered_by gs) cs ≡ true
    → any_of (grant_admits a child capability context) cs ≡ true
    → any_of (grant_admits a parent capability context) gs ≡ true
unfolding any_of all_of
all_within a parent child capability context gs [] pgs pcs covers h = cc
all_within a parent child capability context gs (c ∷ cs) pgs pcs covers h =
    elim (Bool-cases (grant_admits a child capability context c)) [
      | inl hit ↦
          covered_within a parent child capability context gs c pgs (pcs.0) (and_left _ _ covers)
            hit
      | inr other ↦
          all_within a parent child capability context gs cs pgs (pcs.1) (and_right _ _ covers)
            (rw other at h)
    ]

-- The branches of the check.
accepted :
    (d m q g c : Bool)
    → (if d
        then err permission_denied
        else if m
        then err permission_denied
        else if q
        then err permission_denied
        else if g
        then ok tt
        else if c
        then ok tt
        else err permission_denied)
      ≡ ok (tt {0})
    → (d ≡ false) × (m ≡ false) × (q ≡ false) × (g ≡ false → c ≡ true)
accepted true m q g c h = cc
accepted false true q g c h = cc
accepted false false true g c h = cc
accepted false false false true c h = (refl, refl, refl, λ e. cc)
accepted false false false false true h = (refl, refl, refl, λ e. refl)
accepted false false false false false h = cc

check_child_grants-accepted :
    (gs cs : List CapabilityGrant)
    → check_child_grants gs cs ≡ ok tt
    → (any_of (has_capability delegate_grants) cs ≡ false)
      × (any_of (has_capability mint_certificate) cs ≡ false)
      × (any_of (has_capability quota_write) cs ≡ false)
      × (delegating (delegation_scope gs) cs ≡ false → all_of (covered_by gs) cs ≡ true)
unfolding check_child_grants
check_child_grants-accepted gs cs h = accepted _ _ _ _ _ h

covers_all :
    (gs cs : List CapabilityGrant)
    → check_child_grants gs cs ≡ ok tt
    → delegating (delegation_scope gs) cs ≡ false
    → all_of (covered_by gs) cs ≡ true
covers_all gs cs h = let (d, m, q, covers) = check_child_grants-accepted gs cs h in covers

admitted :
    (r : Result AdmissionError (Unit {0})) (authority : ProcessAuthority)
    (cs : List CapabilityGrant)
    → check_admitted r (some authority) cs ≡ ok tt
    → check_child_grants authority.grants cs ≡ ok tt
admitted (ok u) authority cs h = h
admitted (err e) authority cs h = cc

validated :
    (a : Authorities) (n : ℕ) (authority : ProcessAuthority) (cs : List CapabilityGrant)
    → lookup n a ≡ some authority
    → validate_child_grants a n cs ≡ ok tt
    → check_child_grants authority.grants cs ≡ ok tt
unfolding validate_child_grants
validated a n authority cs at_n h = admitted (validate_grants cs) authority cs (rw at_n at h)

-- Where the parent's grants are no delegation of these, and the selectors of both are plain, a
-- process that was given grants which `validate_child_grants` accepted is authorised for nothing
-- that its parent is not.
pub authorises-validate_child_grants :
    (a : Authorities) (parent child : ℕ) (above below : ProcessAuthority) (capability : Capability)
    (context : ScopeContext)
    → lookup parent a ≡ some above
    → lookup child a ≡ some below
    → validate_child_grants a parent below.grants ≡ ok tt
    → delegating (delegation_scope above.grants) below.grants ≡ false
    → AllPlain above.grants
    → AllPlain below.grants
    → authorises a child capability context ≡ true
    → authorises a parent capability context ≡ true
unfolding authorises
authorises-validate_child_grants a parent child above below capability context at_parent at_child h
      k pa pb allowed =
    rw at_parent (
      all_within a parent child capability context above.grants below.grants pa pb
        (covers_all above.grants below.grants (validated a parent above below.grants at_parent h) k)
        (rw at_child at allowed))

-- A capability that no grant has is one that no grant admits.
none_admits :
    (a : Authorities) (n : ℕ) (context : ScopeContext) (c : Capability) (gs : List CapabilityGrant)
    → any_of (has_capability c) gs ≡ false
    → any_of (grant_admits a n c context) gs ≡ false
unfolding any_of
none_admits a n context c [] h = refl
none_admits a n context c (g ∷ gs) h =
    let here : same_capability g.capability c ≡ false = neither_left _ _ h in
    let rest : any_of (grant_admits a n c context) gs ≡ false =
      none_admits a n context c gs (neither_right _ _ h) in
    rw (here, rest) refl

-- No delegation follows from grants without the capability.
no_delegation :
    (gs : List CapabilityGrant)
    → any_of (has_capability delegate_grants) gs ≡ false
    → delegation_selectors gs ≡ []
unfolding any_of delegation_selectors
no_delegation [] h = refl
no_delegation (g ∷ gs) h =
    let here : same_capability g.capability delegate_grants ≡ false = neither_left _ _ h in
    let rest : delegation_selectors gs ≡ [] = no_delegation gs (neither_right _ _ h) in
    rw (here, rest) refl

no_scope :
    (gs : List CapabilityGrant)
    → any_of (has_capability delegate_grants) gs ≡ false
    → delegation_scope gs ≡ none
unfolding delegation_scope any_of tenants_in
no_scope gs h = rw (no_delegation gs h) refl

-- Grants that `validate_child_grants` accepted confer neither delegation, nor the minting of
-- certificates, nor the writing of quotas: whoever holds them is authorised for none of the three.
authorises-withheld :
    (a : Authorities) (parent child : ℕ) (above below : ProcessAuthority) (context : ScopeContext)
    → lookup parent a ≡ some above
    → lookup child a ≡ some below
    → validate_child_grants a parent below.grants ≡ ok tt
    → (authorises a child delegate_grants context ≡ false)
      × (authorises a child mint_certificate context ≡ false)
      × (authorises a child quota_write context ≡ false)
unfolding authorises
authorises-withheld a parent child above below context at_parent at_child h =
    let (d, m, q, covers) =
      check_child_grants-accepted above.grants below.grants
        (validated a parent above below.grants at_parent h) in
    rw at_child (
      none_admits a child context delegate_grants below.grants d,
      none_admits a child context mint_certificate below.grants m,
      none_admits a child context quota_write below.grants q,
    )

-- Without a scope of delegation the tenant of the process is all that can be asked for.
own_tenant :
    (mine : Option Text) (authority : ProcessAuthority) (t : Text) (r : Option Text)
    → delegation_scope authority.grants ≡ none
    → (if is_text mine t then ok (some t) else delegated_tenant (some authority) t) ≡ ok r
    → r ≡ mine
own_tenant none authority t r h k = let refused = rw h at k in cc
own_tenant (some m) authority t r h k = elim (Bool-cases (m == t)) [
  | inl same ↦
      let given : ok (some t) ≡ ok r = rw same at k in
      let equal : m ≡ t = (list_beq_iff m t).0 same in cc
  | inr other ↦ let refused = rw (other, h) at k in cc
]

-- A process whose grants `validate_child_grants` accepted spawns only into its own tenant.
resolve_spawn_tenant-confined :
    (a : Authorities) (parent child : ℕ) (above below : ProcessAuthority)
    (requested r : Option Text)
    → lookup parent a ≡ some above
    → lookup child a ≡ some below
    → validate_child_grants a parent below.grants ≡ ok tt
    → resolve_spawn_tenant a child requested ≡ ok r
    → r ≡ process_tenant a child
unfolding resolve_spawn_tenant process_tenant
resolve_spawn_tenant-confined a parent child above below none r at_parent at_child h k = cc
resolve_spawn_tenant-confined a parent child above below (some t) r at_parent at_child h k =
    let (d, m, q, covers) =
      check_child_grants-accepted above.grants below.grants
        (validated a parent above below.grants at_parent h) in
    rw at_child (own_tenant below.tenant below t r (no_scope below.grants d) (rw at_child at k))

-- A process whose grants `validate_child_grants` accepted spawns only into its own tenant, whatever
-- tenant it asks for, and is authorised neither to delegate, nor to mint certificates, nor to write
-- quotas, in whatever context.
pub validate_child_grants-confines :
    (a : Authorities) (parent child : ℕ) (above below : ProcessAuthority)
    (requested r : Option Text) (context : ScopeContext)
    → lookup parent a ≡ some above
    → lookup child a ≡ some below
    → validate_child_grants a parent below.grants ≡ ok tt
    → resolve_spawn_tenant a child requested ≡ ok r
    → (r ≡ process_tenant a child)
      × (authorises a child delegate_grants context ≡ false)
      × (authorises a child mint_certificate context ≡ false)
      × (authorises a child quota_write context ≡ false)
validate_child_grants-confines a parent child above below requested r context at_parent at_child h
      k =
    let (d, m, q) = authorises-withheld a parent child above below context at_parent at_child h in
    (
      resolve_spawn_tenant-confined a parent child above below requested r at_parent at_child h k,
      d,
      m,
      q,
    )
