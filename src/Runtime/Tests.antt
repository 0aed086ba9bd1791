-- ===== src/Runtime/Tests.antt =====
-- The theorems about authority at a parent and its child.
use selium.Base.{true, false, none, some, [], ◌∷◌, ◌≡◌, ◌↔◌, refl, nat_eq}
use selium.Base.Exec.{ok}
use selium.Base.Map.{lookup}
use selium.Base.Text.{Text, codes, strip_last, to_lowercase, all_chars}
use selium.Abi.Classes.{durable_log}
use selium.Abi.Endpoint.Ports.{is_number}
use selium.Abi.Endpoint.{bare_host}
use selium.Abi.Grants.{
  storage, delegate_grants, mint_certificate, quota_write, any, ScopeContext, ResourceSelector,
  all_of, any_of, selector_matches, allows, is_evaluatable,
}
use selium.Runtime.Authority.{
  ProcessAuthority, Authorities, authorises, check_grant, validate_grants, is_descendant_of,
}
use selium.Runtime.Authority.Chains.{Within, is_descendant_of-Chain}
use selium.Runtime.Delegation.{
  delegation_scope, delegation_selectors, tenants_in, delegating, selector_covers,
  parent_grant_covers_child, check_child_grants, validate_child_grants, process_tenant,
  resolve_spawn_tenant,
}
use selium.Runtime.Delegation.Escalation.{streams_under, stream_to, covers-longer_port}
use selium.Runtime.Delegation.Confinement.{
  authorises-validate_child_grants, validate_child_grants-confines,
}

abbrev acme : Text
acme = codes "acme"

abbrev parent_authority : ProcessAuthority
parent_authority = record {
  grants = record { capability = storage; selectors = ResourceSelector.tenant acme ∷ [] } ∷ [];
  tenant = some acme;
  parent = none;
}

abbrev child_authority : ProcessAuthority
child_authority = record {
  grants =
      record {
        capability = storage;
        selectors = ResourceSelector.resource_class durable_log ∷ ResourceSelector.tenant acme ∷ [];
      }
      ∷ [];
  tenant = some acme;
  parent = some 1;
}

abbrev family : Authorities
family = (1, parent_authority) ∷ (2, child_authority) ∷ []

abbrev acme_log : ScopeContext
acme_log = record {
  tenant = some acme;
  uri = none;
  locality = any;
  resource_class = some durable_log;
  resource_id = none;
}

at_parent : lookup 1 family ≡ some parent_authority
unfolding lookup
at_parent = refl

at_child : lookup 2 family ≡ some child_authority
unfolding lookup
at_child = refl

child_valid : validate_child_grants family 1 child_authority.grants ≡ ok tt
unfolding validate_child_grants validate_grants check_grant is_evaluatable lookup check_child_grants
    delegating delegation_scope delegation_selectors tenants_in any_of all_of
    parent_grant_covers_child selector_covers
child_valid = refl

not_delegating :
    delegating (delegation_scope parent_authority.grants) child_authority.grants ≡ false
unfolding delegating delegation_scope delegation_selectors tenants_in any_of
not_delegating = refl

child_may : authorises family 2 storage acme_log ≡ true
unfolding authorises lookup any_of all_of selector_matches
child_may = refl

authorises-validate_child_grants_example : authorises family 1 storage acme_log ≡ true
authorises-validate_child_grants_example =
    authorises-validate_child_grants family 1 2 parent_authority child_authority storage acme_log
      at_parent at_child child_valid not_delegating ((tt, tt), tt) ((tt, (tt, tt)), tt) child_may

spawns_here : resolve_spawn_tenant family 2 none ≡ ok (some acme)
unfolding resolve_spawn_tenant process_tenant lookup
spawns_here = refl

is_descendant_of-Chain_example : (is_descendant_of family 2 1 ≡ true) ↔ Within family 3 2 1
is_descendant_of-Chain_example = is_descendant_of-Chain family 2 1

db_host : bare_host (codes "db") ≡ codes "db"
unfolding strip_last to_lowercase
db_host = refl

port_80 : is_number (codes "80") ≡ true
unfolding all_chars
port_80 = refl

covers-longer_port_example :
    (parent_grant_covers_child
        (streams_under (codes "tcp://db:80"))
        (streams_under (codes "tcp://db:8080"))
      ≡ true)
    × (allows (streams_under (codes "tcp://db:8080")) (stream_to (codes "tcp://db:8080")) ≡ true)
    × (allows (streams_under (codes "tcp://db:80")) (stream_to (codes "tcp://db:8080")) ≡ false)
covers-longer_port_example =
    covers-longer_port (codes "db") (codes "80") (codes "80") db_host refl port_80 port_80

validate_child_grants-confines_example :
    (some acme ≡ process_tenant family 2)
    × (authorises family 2 delegate_grants acme_log ≡ false)
    × (authorises family 2 mint_certificate acme_log ≡ false)
    × (authorises family 2 quota_write acme_log ≡ false)
validate_child_grants-confines_example =
    validate_child_grants-confines family 1 2 parent_authority child_authority none (some acme)
      acme_log at_parent at_child child_valid spawns_here
