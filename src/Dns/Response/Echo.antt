-- ===== src/Dns/Response/Echo.antt =====
-- crates/proto-dns/src/wire.rs: what `parse_response` reads in a message of `encode_query`.
use mathlib.Core.Path.{subst}
use selium.Base.{
  ℕ, ◌+◌, ◌*◌, ◌/◌, ◌%◌, ◌^◌, ◌<◌, Bool, true, false, some, List, [], ◌∷◌, ◌++◌, ◌≡◌, refl, arith,
  ltb, length, length-append,
}
use selium.Base.Exec.{Result, ok, err}
use selium.Base.Text.{trim_end}
use selium.Dns.Wire.{
  WireError, DnsQuery, success, header_len, to_be, as_wire, onto, and_then, require, encode_name,
  encode_query,
}
use selium.Dns.Wire.Names.{AreValid, labels_of, parse_name-encode_name}
use selium.Dns.Response.{outcome_of, skip_questions, parse_answers, parse_response}

-- The header of a query, and what stands behind the name.
abbrev header : ℕ → List ℕ
header txid = to_be txid ++ to_be 256 ++ to_be 1 ++ 0 ∷ 0 ∷ 0 ∷ 0 ∷ 0 ∷ 0 ∷ []

abbrev trailer : DnsQuery → List ℕ
trailer query = to_be (as_wire query.record_type) ++ to_be 1

encoded :
    (r : Result WireError (List ℕ)) (head tail message : List ℕ)
    → onto head (and_then r tail) ≡ ok message
    → (out : List ℕ) × (r ≡ ok out) × (message ≡ head ++ (out ++ tail))
encoded (ok out) head tail message h = (out, refl, cc)
encoded (err e) head tail message h = cc

require_exact :
    (bytes : List ℕ) (pos len : ℕ)
    → pos + len ≡ length bytes
    → length bytes < 2 ^ 64
    → require bytes pos len ≡ ok (pos + len)
unfolding require
require_exact bytes pos len e small =
    let fits : ltb (pos + len) (2 ^ 64) ≡ true = ground (arith, e, small) in
    let inside : ltb (length bytes) (pos + len) ≡ false = ground (arith, e) in
    rw (fits, inside) refl

-- A query that encode_query makes is read as a response with its id, no error and no address,
-- where the id is a `u16`, the parts of its name are text to the parser, and the message fits an
-- address space.
pub parse_response-encode_query :
    (is_utf8 : List ℕ → Bool) (query : DnsQuery) (txid : ℕ) (message : List ℕ)
    → encode_query query txid ≡ ok message
    → txid < 2 ^ 16
    → AreValid is_utf8 (labels_of (trim_end query.name b'.'))
    → length message < 2 ^ 64
    → parse_response is_utf8 message
      ≡ some (ok (record { txid = txid; outcome = success; addresses = [] }))
unfolding encode_query parse_response skip_questions parse_answers outcome_of
parse_response-encode_query is_utf8 query txid message h word valid small =
    let (out, name, whole) =
      encoded (encode_name query.name) (header txid) (trailer query) message h in
    let size : length (header txid ++ (out ++ trailer query)) < 2 ^ 64 =
      subst (λ (l : List ℕ). length l < 2 ^ 64) whole small in
    let named =
      parse_name-encode_name is_utf8 query.name out (header txid) (trailer query) name valid size in
    let end : require (header txid ++ (out ++ trailer query)) (12 + length out) 4
        ≡ ok (12 + length out + 4) =
      require_exact (header txid ++ (out ++ trailer query)) (12 + length out) 4
        (omega (arith, length-append out (trailer query))) size in
    let id : txid / 256 % 256 * 256 + txid % 256 ≡ txid = omega arith in
    let long : ltb (length (header txid ++ (out ++ trailer query))) header_len ≡ false =
      ground arith in
    rw (whole, named, end, id, long) refl
