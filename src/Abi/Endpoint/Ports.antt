-- ===== src/Abi/Endpoint/Ports.antt =====
-- crates/abi/src/lib.rs `NetworkEndpoint`: TCP endpoints with a port of digits.
use mathlib.Core.List.{reverse, reverse-reverse}
use selium.Base.{
  ℕ, Bool, true, false, ◌&&◌, none, some, [], ◌∷◌, ◌++◌, ◌≡◌, refl, ap, ◌∙◌, arith, and_left,
  and_right, nat_beq, nat_beq_refl, ◌==◌, nat_eq,
}
use selium.Base.Map.{eq_self}
use selium.Base.Text.{
  Text, codes, list_eq, split, split_once, rsplit_once, strip_prefix, trim_start, trim_end,
  trim_matches, all_chars, is_digit,
}
use selium.Abi.Endpoint.{
  NetworkEndpoint, is_port_char, non_empty, bare_host, parse, host_matches, port_matches,
  prefix_matches,
}
use selium.Abi.Names.Hosts.{all_chars-reverse, all_chars-append, all_chars-weaker}

abbrev pub tcp_uri : Text → Text → Text
tcp_uri host port = codes "tcp://" ++ (host ++ (b':' ∷ port))

abbrev pub tcp_at : Text → Text → NetworkEndpoint
tcp_at host port = record { scheme = codes "tcp"; host = host; port = port }

abbrev pub is_number : Text → Bool
is_number port = non_empty port && all_chars is_digit port

digit_only : (c d : ℕ) → is_digit c ≡ true → is_digit d ≡ false → nat_beq c d ≡ false
digit_only c d h k = ground arith

rsplit_none : (port : Text) → all_chars is_digit port ≡ true → rsplit_once port b':' ≡ none
unfolding rsplit_once all_chars
rsplit_none [] h = refl
rsplit_none (c ∷ port) h =
    rw
      (
        rsplit_none port (and_right (is_digit c) _ h),
        digit_only c b':' (and_left (is_digit c) _ h) refl,
      )
      refl

rsplit_port :
    (host port : Text)
    → all_chars is_digit port ≡ true
    → rsplit_once (host ++ (b':' ∷ port)) b':' ≡ some (host, port)
unfolding rsplit_once
rsplit_port [] port h = rw (rsplit_none port h) refl
rsplit_port (c ∷ host) port h = rw (rsplit_port host port h) refl

split_none : (port : Text) → all_chars is_digit port ≡ true → split port b',' ≡ port ∷ []
unfolding split all_chars
split_none [] h = refl
split_none (c ∷ port) h =
    rw
      (
        split_none port (and_right (is_digit c) _ h),
        digit_only c b',' (and_left (is_digit c) _ h) refl,
      )
      refl

trim_start_none : (port : Text) → all_chars is_digit port ≡ true → trim_start port b' ' ≡ port
unfolding trim_start all_chars
trim_start_none [] h = refl
trim_start_none (c ∷ port) h = rw (digit_only c b' ' (and_left (is_digit c) _ h) refl) refl

trim_none : (port : Text) → all_chars is_digit port ≡ true → trim_matches port b' ' ≡ port
unfolding trim_matches trim_end
trim_none port h =
    ap (λ s. trim_end s b' ') (trim_start_none port h)
    ∙ ap reverse (trim_start_none (reverse port) (all_chars-reverse is_digit port h))
    ∙ reverse-reverse port

-- Such an endpoint is parsed to its host, in the form that parsing gives a host, and its port.
pub parse-tcp_uri :
    (host port : Text)
    → bare_host host ≡ host
    → non_empty host ≡ true
    → is_number port ≡ true
    → parse (tcp_uri host port) ≡ some (tcp_at host port)
unfolding parse split_once strip_prefix
parse-tcp_uri host [] bare some_host number = cc
parse-tcp_uri host (c ∷ port) bare some_host number =
    let chars : all_chars is_port_char (c ∷ port) ≡ true =
      all_chars-weaker is_digit is_port_char (c ∷ port) (λ d h. rw h refl) number in
    rw (rsplit_port host (c ∷ port) number, chars, bare, some_host) (ground arith)

number_star : (port : Text) → all_chars is_digit port ≡ true → (port == codes "*") ≡ false
unfolding all_chars
number_star [] h = refl
number_star (c ∷ port) h = rw (digit_only c b'*' (and_left (is_digit c) _ h) refl) refl

-- A port that is a number is matched by itself alone.
pub prefix_matches-tcp_at :
    (host port other : Text)
    → is_number port ≡ true
    → prefix_matches (tcp_at host port) (tcp_at host other) ≡ (port == other)
unfolding prefix_matches host_matches port_matches
prefix_matches-tcp_at host port other number =
    let digits = and_right (non_empty port) (all_chars is_digit port) number in
    rw (eq_self host, number_star port digits, split_none port digits, trim_none port digits)
      (ground arith)

-- A number with more digits is another one.
pub longer : (port more : Text) → non_empty more ≡ true → (port == (port ++ more)) ≡ false
longer [] [] h = cc
longer [] (c ∷ more) h = refl
longer (c ∷ port) more h = rw (nat_beq_refl c) (longer port more h)

pub number-append :
    (port more : Text)
    → is_number port ≡ true
    → is_number more ≡ true
    → is_number (port ++ more) ≡ true
number-append [] more h k = cc
number-append (c ∷ port) more h k =
    all_chars-append is_digit (c ∷ port) more h (and_right (non_empty more) _ k)
