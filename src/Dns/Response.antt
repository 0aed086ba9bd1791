-- ===== src/Dns/Response.antt =====
-- crates/proto-dns/src/wire.rs `parse_response`: `none` is a parse of a name that still runs when
-- its fuel ends.
pub mod Total
pub mod Echo
use selium.Base.{
  ℕ, zero, suc, ◌+◌, ◌-◌, ◌*◌, ◌/◌, ◌%◌, Bool, true, false, ◌&&◌, Option, none, some, List, [], ◌∷◌,
  ◌≡◌, ltb, nat_beq, if◌then◌else◌, length, take, drop, get_or,
}
use selium.Base.Exec.{Result, ok, err}
use selium.Base.Text.{Text}
use selium.Dns.Wire.{
  WireError, short, DnsOutcome, success, nx_domain, truncated, serv_fail, refused, upstream,
  ParsedResponse, header_len, from_be, require, parse_name,
}

abbrev pub Read : Type 0 → Type 0
Read A = Option (Result WireError A)

-- `?` behind a read
abbrev pub and_read : {A B : Type 0} → Read A → (A → Read B) → Read B
and_read none f = none
and_read (some (err e)) f = some (err e)
and_read (some (ok a)) f = f a

-- The big-endian `u16` at an offset that is known to lie within the bytes.
abbrev pub u16_at : List ℕ → ℕ → ℕ
u16_at bytes offset = from_be (get_or bytes offset 0) (get_or bytes (offset + 1) 0)

unfoldable pub outcome_of : ℕ → DnsOutcome
outcome_of flags =
    if nat_beq (flags / 512 % 2) 1
    then truncated
    else if nat_beq (flags % 16) 0
    then success
    else if nat_beq (flags % 16) 2
    then serv_fail
    else if nat_beq (flags % 16) 3
    then nx_domain
    else if nat_beq (flags % 16) 5
    then refused
    else upstream

-- The octets of an A or AAAA record, and no others.
unfoldable pub literal : ℕ → List ℕ → List (List ℕ)
literal rtype rdata =
    if nat_beq rtype 1 && nat_beq (length rdata) 4
    then rdata ∷ []
    else if nat_beq rtype 28 && nat_beq (length rdata) 16
    then rdata ∷ []
    else []

abbrev pub prepend : List (List ℕ) → Read (List (List ℕ)) → Read (List (List ℕ))
prepend here none = none
prepend here (some (err e)) = some (err e)
prepend here (some (ok rest)) = some (ok (append here rest))
  where
    append : List (List ℕ) → List (List ℕ) → List (List ℕ)
    append [] rest = rest
    append (x ∷ xs) rest = x ∷ append xs rest

module _ (is_utf8 : List ℕ → Bool) where
  -- The question section: a name, a type and a class each.
  unfoldable pub skip_questions : ℕ → List ℕ → ℕ → Read ℕ
  skip_questions zero bytes pos = some (ok pos)
  skip_questions (suc n) bytes pos =
      and_read (parse_name is_utf8 bytes pos)
        (λ named. and_read (some (require bytes (named.1) 4)) (λ next. skip_questions n bytes next))

  -- The answer section: a name, the ten bytes of a header, and the data each.
  unfoldable pub parse_answers : ℕ → List ℕ → ℕ → Read (List (List ℕ))
  parse_answers zero bytes pos = some (ok [])
  parse_answers (suc n) bytes pos = and_read (parse_name is_utf8 bytes pos) (λ named.
      and_read (some (require bytes (named.1) 10)) (λ start.
        and_read (some (require bytes start (u16_at bytes (start - 2)))) (λ end.
          prepend
            (literal (u16_at bytes (start - 10))
              (take (u16_at bytes (start - 2)) (drop start bytes)))
            (parse_answers n bytes end))))

  unfoldable pub parse_response : List ℕ → Read ParsedResponse
  unfolding skip_questions parse_answers outcome_of
  parse_response bytes =
      if ltb (length bytes) header_len
      then some (err short)
      else and_read (skip_questions (u16_at bytes 4) bytes header_len) (λ pos.
        and_read (parse_answers (u16_at bytes 6) bytes pos) (λ addresses. some (
          ok (record {
            txid = u16_at bytes 0;
            outcome = outcome_of (u16_at bytes 2);
            addresses = addresses;
          }))))
