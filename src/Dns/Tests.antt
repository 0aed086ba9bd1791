-- ===== src/Dns/Tests.antt =====
-- The theorems about DNS messages at small ones.
use selium.Base.{ℕ, ◌+◌, Bool, true, List, [], ◌∷◌, ◌++◌, some, ◌≡◌, refl, arith}
use selium.Base.Exec.{ok}
use selium.Base.Text.{Text, codes, split, trim_end, trim_start}
use selium.Dns.Wire.{DnsQuery, a, parse_name, encode_name, encode_labels}
use selium.Dns.Wire.Names.{AreValid, labels_of, parse_name-encode_name}
use selium.Dns.Response.{parse_response}
use selium.Dns.Response.Total.{Ends, parse_response-Ends}

-- Every label counts as text.
abbrev any_bytes : List ℕ → Bool
any_bytes bytes = true

abbrev name : Text
name = codes "ab.c."

abbrev wire : List ℕ
wire = 2 ∷ 97 ∷ 98 ∷ 1 ∷ 99 ∷ 0 ∷ []

name-wire : encode_name name ≡ ok wire
unfolding encode_name encode_labels trim_end trim_start split
name-wire = refl

name-AreValid : AreValid any_bytes (labels_of (trim_end name b'.'))
unfolding trim_end trim_start split
name-AreValid = (refl, (refl, tt))

parse_name-encode_name_example :
    parse_name any_bytes ((9 ∷ []) ++ (wire ++ (7 ∷ []))) 1 ≡ some (ok (trim_end name b'.', 1 + 6))
parse_name-encode_name_example =
    parse_name-encode_name any_bytes name wire (9 ∷ []) (7 ∷ []) name-wire name-AreValid
      (omega arith)

-- A name whose pointer leads to itself.
abbrev circle : List ℕ
circle = 0 ∷ 1 ∷ 0 ∷ 0 ∷ 0 ∷ 1 ∷ 0 ∷ 0 ∷ 0 ∷ 0 ∷ 0 ∷ 0 ∷ 192 ∷ 12 ∷ []

parse_response-Ends_example : Ends (parse_response any_bytes circle)
parse_response-Ends_example = parse_response-Ends any_bytes circle

abbrev query : DnsQuery
query = record { name = name; record_type = a }

abbrev message : List ℕ
message = 18 ∷ 52 ∷ 1 ∷ 0 ∷ 0 ∷ 1 ∷ 0 ∷ 0 ∷ 0 ∷ 0 ∷ 0 ∷ 0 ∷ (wire ++ 0 ∷ 1 ∷ 0 ∷ 1 ∷ [])
