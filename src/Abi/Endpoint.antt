-- ===== src/Abi/Endpoint.antt =====
-- crates/abi/src/lib.rs `NetworkEndpoint`: `tcp://host:port` and `udp://host:port`, in grants with
-- wildcards. Texts are ASCII.
pub mod Ports
use selium.Base.{
  ℕ, ◌-◌, Bool, true, false, ◌&&◌, ◌||◌, Option, none, some, List, [], ◌∷◌, ltb, nat_beq,
  if◌then◌else◌, ◌==◌, nat_eq, length, get_elem?,
}
use selium.Base.Text.{
  Text, codes, list_eq, strip_prefix, strip_last, ends_with, split_once, rsplit_once, split,
  trim_matches, to_lowercase, all_chars, is_digit,
}

pub record NetworkEndpoint : Type 0 where
  pub scheme : Text
  pub host : Text
  pub port : Text

-- `c.is_ascii_digit() || c == ',' || c == ' '`
abbrev pub is_port_char : ℕ → Bool
is_port_char c = is_digit c || (nat_beq c b',' || nat_beq c b' ')

abbrev pub valid_port : Text → Bool
valid_port [] = false
valid_port (c ∷ port) = ((c ∷ port) == codes "*") || all_chars is_port_char (c ∷ port)

abbrev pub unwrap_or : {A : Type 0} → Option A → A → A
unwrap_or none a = a
unwrap_or (some b) a = b

-- The host without its trailing dot.
abbrev pub bare_host : Text → Text
bare_host host = unwrap_or (strip_last (to_lowercase host) b'.') (to_lowercase host)

abbrev pub non_empty : Text → Bool
non_empty [] = false
non_empty (c ∷ s) = true

abbrev pub endpoint_of : Text → Option (Text × Text) → Option NetworkEndpoint
endpoint_of scheme none = none
endpoint_of scheme (some (host, port)) =
    if valid_port port && non_empty (bare_host host)
    then some (record { scheme = scheme; host = bare_host host; port = port })
    else none

abbrev pub with_scheme : Option (Text × Text) → Option NetworkEndpoint
with_scheme none = none
with_scheme (some (scheme, rest)) =
    if (scheme == codes "tcp") || (scheme == codes "udp")
    then endpoint_of scheme (rsplit_once rest b':')
    else none

unfoldable pub parse : Text → Option NetworkEndpoint
parse uri = with_scheme (split_once uri (codes "://"))

-- Behind `*.`: the host is longer than the suffix, and a dot stands before it.
abbrev pub wildcard_matches : Option Text → Text → Bool
wildcard_matches none host = false
wildcard_matches (some suffix) host =
    ends_with host suffix
    && (ltb (length suffix) (length host)
        && elim (get_elem? host (length host - length suffix - 1)) [
          | none ↦ false
          | some c ↦ nat_beq c b'.'
        ])

unfoldable pub host_matches : Text → Text → Bool
host_matches grant_host context_host =
    (grant_host == context_host)
    || wildcard_matches (strip_prefix grant_host (codes "*.")) context_host

abbrev pub any_port : List Text → Text → Bool
any_port [] port = false
any_port (p ∷ ps) port = (trim_matches p b' ' == port) || any_port ps port

unfoldable pub port_matches : Text → Text → Bool
port_matches grant_port context_port =
    (grant_port == codes "*") || any_port (split grant_port b',') context_port

unfoldable pub prefix_matches : NetworkEndpoint → NetworkEndpoint → Bool
prefix_matches grant context =
    (grant.scheme == context.scheme)
    && (host_matches grant.host context.host && port_matches grant.port context.port)
