-- ===== src/Runtime/Delegation/Escalation.antt =====
-- crates/runtime/src/hostcall.rs `parent_grant_covers_child`: where the coverage of a prefix and of
-- a namespace is wider than their matches in crates/abi/src/lib.rs.
use mathlib.Core.List.{append_assoc}
use selium.Base.Map.{eq_self}
use selium.Abi.Endpoint.Ports.{
  tcp_uri, is_number, number-append, parse-tcp_uri, prefix_matches-tcp_at, longer,
}
use selium.Base.{
  true, false, none, some, [], ◌∷◌, ◌++◌, ◌≡◌, refl, sym, ap, and_left, nat_beq_refl, nat_eq, ◌∙◌,
  Bool-cases, inl, inr,
}
use selium.Base.Text.{Text, codes, list_eq, starts_with, all_chars, is_digit}
use selium.Abi.Classes.{class_eq, tcp_stream}
use selium.Abi.Endpoint
use selium.Abi.Endpoint.{NetworkEndpoint, bare_host, non_empty, prefix_matches}
use selium.Abi.Grants.{
  network, any, ScopeContext, ResourceSelector, uri_prefix, CapabilityGrant, all_of, any_of,
  selector_matches, prefix_admits, allows,
}
use selium.Runtime.Delegation.{selector_covers, parent_grant_covers_child}

-- Network access to TCP streams under a prefix.
abbrev pub streams_under : Text → CapabilityGrant
streams_under prefix = record {
  capability = network;
  selectors = uri_prefix prefix ∷ ResourceSelector.resource_class tcp_stream ∷ [];
}

abbrev pub stream_to : Text → ScopeContext
stream_to uri = record {
  tenant = none;
  uri = some uri;
  locality = any;
  resource_class = some tcp_stream;
  resource_id = none;
}

starts_with-append : (p x : Text) → starts_with (p ++ x) p ≡ true
unfolding starts_with
starts_with-append [] x = refl
starts_with-append (c ∷ p) x = rw (nat_beq_refl c, starts_with-append p x)

admits-parse :
    (p uri : Text) (e f : NetworkEndpoint)
    → Endpoint.parse p ≡ some e
    → Endpoint.parse uri ≡ some f
    → allows (streams_under p) (stream_to uri) ≡ prefix_matches e f
unfolding allows all_of selector_matches prefix_admits
admits-parse p uri e f h k =
    rw (h, k)
      (elim (Bool-cases (prefix_matches e f)) [ inl inside ↦ rw inside | inr outside ↦ rw outside ])

tcp_uri-append : (host port more : Text) → tcp_uri host (port ++ more) ≡ tcp_uri host port ++ more
tcp_uri-append host port more =
    ap (λ l. codes "tcp://" ++ l) (sym (append_assoc host (b':' ∷ port) more))

-- For a host in the form that parsing gives it and two ports of digits, of which one extends the
-- other, a grant of TCP streams under the endpoint with the shorter port covers one under the
-- endpoint with the longer port, which admits a connection to that endpoint; the first grant does
-- not admit it.
pub covers-longer_port :
    (host port more : Text)
    → bare_host host ≡ host
    → non_empty host ≡ true
    → is_number port ≡ true
    → is_number more ≡ true
    → (parent_grant_covers_child
          (streams_under (tcp_uri host port))
          (streams_under (tcp_uri host (port ++ more)))
        ≡ true)
      × (allows
            (streams_under (tcp_uri host (port ++ more)))
            (stream_to (tcp_uri host (port ++ more)))
          ≡ true)
      × (allows (streams_under (tcp_uri host port)) (stream_to (tcp_uri host (port ++ more)))
          ≡ false)
unfolding parent_grant_covers_child all_of any_of selector_covers
covers-longer_port host port more bare some_host number digits =
    let long = number-append port more number digits in
    let parsed = parse-tcp_uri host port bare some_host number in
    let parsed_long = parse-tcp_uri host (port ++ more) bare some_host long in
    let prefix : starts_with (tcp_uri host (port ++ more)) (tcp_uri host port) ≡ true =
      ap (λ l. starts_with l (tcp_uri host port)) (tcp_uri-append host port more)
      ∙ starts_with-append (tcp_uri host port) more in
    (
      rw prefix refl,
      admits-parse (tcp_uri host (port ++ more)) (tcp_uri host (port ++ more)) _ _ parsed_long
            parsed_long
          ∙ prefix_matches-tcp_at host (port ++ more) (port ++ more) long
          ∙ eq_self (port ++ more),
      admits-parse (tcp_uri host port) (tcp_uri host (port ++ more)) _ _ parsed parsed_long
          ∙ prefix_matches-tcp_at host port (port ++ more) number
          ∙ longer port more (and_left (non_empty more) (all_chars is_digit more) digits),
    )
