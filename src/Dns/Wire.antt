-- ===== src/Dns/Wire.antt =====
-- crates/proto-dns/src/wire.rs: the DNS wire format. Whether the bytes of a label are UTF-8 is a
-- parameter; a literal address is its octets and not their text.
pub mod Termination
pub mod Names
use selium.Base.{
  ℕ, zero, suc, ◌+◌, ◌-◌, ◌*◌, ◌/◌, ◌%◌, ◌≤◌, ◌<◌, Bool, true, false, not, ◌&&◌, Option, none, some,
  List, [], ◌∷◌, ◌++◌, ◌≡◌, ltb, leb, nat_beq, if◌then◌else◌, length, take, drop, get_elem?,
  checked_add, Eq, nat_eq, ◌==◌,
}
use selium.Base.Exec.{Result, ok, err}
use selium.Base.Text.{Text, split, join, trim_end}

pub data DnsRecordType : Type 0 where
  a cname aaaa : DnsRecordType

pub data DnsOutcome : Type 0 where
  success nx_domain timeout truncated serv_fail refused upstream : DnsOutcome

pub record DnsQuery : Type 0 where
  pub name : Text
  pub record_type : DnsRecordType

pub data WireError : Type 0 where
  short name_too_long malformed compression_loop : WireError

pub record ParsedResponse : Type 0 where
  pub txid : ℕ
  pub outcome : DnsOutcome
  pub addresses : List (List ℕ)

abbrev pub header_len : ℕ
header_len = 12

abbrev pub as_wire : DnsRecordType → ℕ
as_wire a = 1
as_wire cname = 5
as_wire aaaa = 28

-- `to_be_bytes` and `from_be_bytes` of a `u16`
abbrev pub to_be : ℕ → List ℕ
to_be n = n / 256 % 256 ∷ n % 256 ∷ []

abbrev pub from_be : ℕ → ℕ → ℕ
from_be high low = high * 256 + low

abbrev pub onto : List ℕ → Result WireError (List ℕ) → Result WireError (List ℕ)
onto bytes (ok out) = ok (bytes ++ out)
onto bytes (err e) = err e

-- The labels from some point on, with the octets written before.
unfoldable pub encode_labels : List Text → ℕ → Result WireError (List ℕ)
encode_labels [] written = if leb 255 written then err name_too_long else ok (0 ∷ [])
encode_labels (label ∷ labels) written =
    let rest = encode_labels labels (written + (1 + length label)) in
    if nat_beq (length label) 0
    then err malformed
    else if ltb 63 (length label)
    then err name_too_long
    else onto (length label ∷ label) rest

abbrev pub encode_trimmed : Text → Result WireError (List ℕ)
encode_trimmed [] = ok (0 ∷ [])
encode_trimmed (c ∷ name) = encode_labels (split (c ∷ name) b'.') 0

unfoldable pub encode_name : Text → Result WireError (List ℕ)
unfolding encode_labels
encode_name name = encode_trimmed (trim_end name b'.')

abbrev pub and_then : Result WireError (List ℕ) → List ℕ → Result WireError (List ℕ)
and_then (ok out) more = ok (out ++ more)
and_then (err e) more = err e

-- The header with RD set and one question, and the question.
unfoldable pub encode_query : DnsQuery → ℕ → Result WireError (List ℕ)
unfolding encode_name
encode_query query txid =
    onto (to_be txid ++ to_be 256 ++ to_be 1 ++ 0 ∷ 0 ∷ 0 ∷ 0 ∷ 0 ∷ 0 ∷ [])
      (and_then (encode_name query.name) (to_be (as_wire query.record_type) ++ to_be 1))

abbrev pub checked_end : List ℕ → Option ℕ → Result WireError ℕ
checked_end bytes none = err short
checked_end bytes (some end) = if ltb (length bytes) end then err short else ok end

-- `require`: the end of a range that lies within the bytes.
unfoldable pub require : List ℕ → ℕ → ℕ → Result WireError ℕ
require bytes pos len = checked_end bytes (checked_add pos len)

-- The variables of the loop of `parse_name`.
pub record NameState : Type 0 where
  pub labels : List Text
  pub pos : ℕ
  pub end : ℕ
  pub jumped : Bool
  pub jumps : ℕ

pub data NameStep : Type 0 where
  done : Result WireError (List Text × ℕ) → NameStep
  go : NameState → NameStep

module _ (is_utf8 : List ℕ → Bool) where
  -- A compression pointer of six bits and a byte.
  abbrev pub follow : NameState → ℕ → Option ℕ → NameStep
  follow s len none = done (err short)
  follow s len (some next) =
      if ltb 32 (s.jumps + 1)
      then done (err compression_loop)
      else go (record s {
        pos = len % 64 * 256 + next;
        end = if s.jumped then s.end else s.pos + 2;
        jumped = true;
        jumps = s.jumps + 1;
      })

  abbrev pub take_label : List ℕ → NameState → ℕ → Result WireError ℕ → NameStep
  take_label bytes s len (err e) = done (err e)
  take_label bytes s len (ok label_end) =
      let label = take len (drop (s.pos + 1) bytes) in
      if is_utf8 label
      then go (record s { labels = s.labels ++ label ∷ []; pos = label_end })
      else done (err malformed)

  abbrev pub at_length : List ℕ → NameState → Option ℕ → NameStep
  at_length bytes s none = done (err short)
  at_length bytes s (some len) =
      if nat_beq len 0
      then done (ok (s.labels, if s.jumped then s.end else s.pos + 1))
      else if leb 192 len
      then follow s len (get_elem? bytes (s.pos + 1))
      else if leb 64 len
      then done (err malformed)
      else take_label bytes s len (require bytes (s.pos + 1) len)

  -- One round of the loop.
  unfoldable pub name_step : List ℕ → NameState → NameStep
  unfolding require
  name_step bytes s = at_length bytes s (get_elem? bytes s.pos)

  -- `none` is a loop that still runs when the fuel ends.
  unfoldable pub name_loop : ℕ → List ℕ → NameState → Option (Result WireError (List Text × ℕ))
  name_loop zero bytes s = none
  name_loop (suc fuel) bytes s = elim (name_step bytes s) [
    | done r ↦ some r
    | go next ↦ name_loop fuel bytes next
  ]

  abbrev pub joined :
      Option (Result WireError (List Text × ℕ)) → Option (Result WireError (Text × ℕ))
  joined none = none
  joined (some (err e)) = some (err e)
  joined (some (ok (labels, end))) = some (ok (join labels (b'.' ∷ []), end))

  abbrev pub name_start : ℕ → NameState
  name_start start = record { labels = []; pos = start; end = start; jumped = false; jumps = 0 }

  unfoldable pub parse_name : List ℕ → ℕ → Option (Result WireError (Text × ℕ))
  unfolding name_loop
  parse_name bytes start = joined (name_loop (34 * (length bytes + 1)) bytes (name_start start))
