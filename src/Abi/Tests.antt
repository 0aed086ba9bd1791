-- ===== src/Abi/Tests.antt =====
-- crates/abi/src/uri.rs: addresses and wire names of concrete services.
use selium.Base.{none, some, List, [], ◌∷◌, ◌++◌, ◌≡◌, refl, arith, nat_eq}
use selium.Base.Map.{lookup}
use selium.Base.Text.{Text, codes, list_eq, split, join, trim_matches, trim_end, trim_start}
use selium.Abi.Classes.{shared_region, from_uri_segment}
use selium.Abi.Names.Wire.{resolve_wire_name-labels_from_path}
use selium.Abi.Names.{labels_from_path, resolve_wire_name}
use selium.Abi.Uri.Typed.{parse_typed-resource_uri}
use selium.Abi.Uri.{
  DomainTable, is_empty_text, parse_typed, parse_alias, is_root_uri, resource_uri, normalize_host,
  wildcard_prefix, is_dns_safe_label, is_class_segment,
}

parse_typed-resource_uri_example :
    (parse_typed (resource_uri (codes "acme") shared_region 7042)
      ≡ some (codes "acme", shared_region, 7042))
    × (parse_alias (resource_uri (codes "acme") shared_region 7042) ≡ none)
    × (is_root_uri (resource_uri (codes "acme") shared_region 7042) ≡ is_empty_text (codes "acme"))
parse_typed-resource_uri_example =
    parse_typed-resource_uri (codes "acme") shared_region 7042 refl (omega arith)

abbrev service_labels : List Text
service_labels = codes "prod" ∷ codes "http" ∷ []

labels_of_service : labels_from_path (codes "/http/prod") ≡ some service_labels
unfolding labels_from_path is_class_segment is_dns_safe_label from_uri_segment trim_end trim_start
labels_of_service = refl

abbrev domains : DomainTable
domains = (codes "example.com", codes "acme") ∷ (codes "com", codes "other") ∷ []

resolve_wire_name-labels_from_path_example :
    resolve_wire_name
      (join (service_labels ++ codes "example" ∷ codes "com" ∷ []) (codes "."))
      domains
    ≡ some (codes "acme", split (trim_matches (codes "/http/prod") b'/') b'/')
unfolding is_dns_safe_label lookup join
resolve_wire_name-labels_from_path_example =
    resolve_wire_name-labels_from_path domains (codes "/http/prod") (codes "acme") (codes "example")
      service_labels (codes "com" ∷ []) labels_of_service refl refl (refl, (refl, tt))

-- The cases of the unit tests of the source.
host_with_port : normalize_host (codes "Example.COM:443") ≡ codes "example.com"
unfolding normalize_host
host_with_port = refl

wildcard_of_class : wildcard_prefix (codes "region/*/") ≡ some (codes "region")
unfolding wildcard_prefix trim_start
wildcard_of_class = refl

synthetic_name :
    resolve_wire_name (codes "bridge.acme") [] ≡ some (codes "acme", codes "bridge" ∷ [])
unfolding resolve_wire_name normalize_host is_dns_safe_label lookup join
synthetic_name = refl

single_name : resolve_wire_name (codes "localhost") [] ≡ some ([], codes "localhost" ∷ [])
unfolding resolve_wire_name normalize_host is_dns_safe_label lookup join
single_name = refl

apex_name : resolve_wire_name (codes "example.com") domains ≡ some (codes "acme", [])
unfolding resolve_wire_name normalize_host is_dns_safe_label lookup join
apex_name = refl
