-- ===== src/Kernel/Datagram.antt =====
-- crates/kernel/src/network.rs `encode_udp_frame` and `decode_udp_frame`: datagrams that a UDP
-- socket passes through a ring, `[1][family: 4|6][address: 4|16 bytes][port, little endian][payload]`.
use selium.Base.{
  take-append, drop-append, ℕ, zero, suc, ◌+◌, ◌^◌, ◌<◌, false, Option, none, some, List, [], ◌∷◌,
  ◌++◌, ◌≡◌, refl, sym, ap, ◌∙◌, arith, length, take, drop, length-append, ltb, nat_beq,
  if◌then◌else◌, le→ltb, ◌≤◌,
}
use selium.Memory.Bytes.{from_le, to_le, from_le-to_le, length-to_le}

-- `SocketAddr`: the octets of the address and the port. The flow label and the scope of an IPv6
-- address are not in the frame.
pub data SocketAddr : Type 0 where
  v4 : List ℕ → ℕ → SocketAddr
  v6 : List ℕ → ℕ → SocketAddr

unfoldable pub encode_udp_frame : SocketAddr → List ℕ → List ℕ
encode_udp_frame (v4 octets port) payload = 1 ∷ 4 ∷ (octets ++ (to_le 2 port ++ payload))
encode_udp_frame (v6 octets port) payload = 1 ∷ 6 ∷ (octets ++ (to_le 2 port ++ payload))

abbrev pub Decoded : Type 0
Decoded = Option (SocketAddr × List ℕ)

-- The address, the port and the payload after the version and the family.
abbrev pub split_v4 : List ℕ → SocketAddr × List ℕ
split_v4 rest = (v4 (take 4 rest) (from_le (take 2 (drop 4 rest))), drop 6 rest)

abbrev pub split_v6 : List ℕ → SocketAddr × List ℕ
split_v6 rest = (v6 (take 16 rest) (from_le (take 2 (drop 16 rest))), drop 18 rest)

abbrev pub decode_family : ℕ → ℕ → List ℕ → Decoded
decode_family len family rest =
    if nat_beq family 4
    then some (split_v4 rest)
    else if nat_beq family 6
    then if ltb len 20 then none else some (split_v6 rest)
    else none

abbrev pub decode_version : ℕ → List ℕ → Decoded
decode_version len (version ∷ family ∷ rest) =
    if nat_beq version 1 then decode_family len family rest else none
decode_version len other = none

unfoldable pub decode_udp_frame : List ℕ → Decoded
decode_udp_frame frame = if ltb (length frame) 8 then none else decode_version (length frame) frame

-- The octets of an address: 4 or 16 of them, and a port of 16 bits.
abbrev pub IsAddr : SocketAddr → Type 0
IsAddr (v4 octets port) = (length octets ≡ 4) × (port < 2 ^ 16)
IsAddr (v6 octets port) = (length octets ≡ 16) × (port < 2 ^ 16)

drop_nil : (k : ℕ) → drop {A = ℕ} k [] ≡ []
drop_nil zero = refl
drop_nil (suc k) = refl

drop_add : (n m : ℕ) (l : List ℕ) → drop (n + m) l ≡ drop m (drop n l)
drop_add zero m l = ap (λ k. drop k l) (omega arith)
drop_add (suc n) m [] = drop_nil (suc n + m) ∙ sym (drop_nil m)
drop_add (suc n) m (x ∷ l) =
    let e : suc n + m ≡ suc (n + m) = omega arith in ap (λ k. drop k (x ∷ l)) e ∙ drop_add n m l

-- The three parts of a frame's body, whose address has `n` octets.
body :
    (n : ℕ) (octets : List ℕ) (port : ℕ) (payload : List ℕ)
    → length octets ≡ n
    → port < 2 ^ 16
    → (take n (octets ++ (to_le 2 port ++ payload)) ≡ octets)
      × (from_le (take 2 (drop n (octets ++ (to_le 2 port ++ payload)))) ≡ port)
      × (drop (n + 2) (octets ++ (to_le 2 port ++ payload)) ≡ payload)
body n octets port payload e p = (
  ap (λ k. take k (octets ++ rest)) (sym e) ∙ take-append octets rest,
  ap (λ l. from_le (take 2 l)) after ∙ from_le-to_le 2 port (omega (arith, p)),
  drop_add n 2 (octets ++ rest) ∙ ap (λ l. drop 2 l) after,
)
  where
    rest : List ℕ
    rest = to_le 2 port ++ payload

    after : drop n (octets ++ rest) ≡ rest
    after = ap (λ k. drop k (octets ++ rest)) (sym e) ∙ drop-append octets rest

body_length :
    (octets : List ℕ) (port : ℕ) (payload : List ℕ) (n k : ℕ)
    → length octets ≡ n
    → k ≤ n + 4
    → ltb (suc (suc (length (octets ++ (to_le 2 port ++ payload))))) k ≡ false
body_length octets port payload n k e h = le→ltb _ k (
    omega (
      arith,
      length-append octets (to_le 2 port ++ payload),
      length-append (to_le 2 port) payload,
      length-to_le 2 port,
    ))

assemble :
    (f : List ℕ → ℕ → SocketAddr) (o q : List ℕ) (m n : ℕ) (l r : List ℕ)
    → o ≡ q
    → m ≡ n
    → l ≡ r
    → ◌≡◌ {A = Decoded} (some (f o m, l)) (some (f q n, r))
assemble f o q m n l r a b c = cc

-- A frame that `encode_udp_frame` made of an address, of 4 or 16 octets and a port of 16 bits, and a
-- payload is decoded to them.
pub decode_udp_frame-encode_udp_frame :
    (addr : SocketAddr) (payload : List ℕ)
    → IsAddr addr
    → decode_udp_frame (encode_udp_frame addr payload) ≡ some (addr, payload)
unfolding decode_udp_frame encode_udp_frame
decode_udp_frame-encode_udp_frame (v4 octets port) payload (four, p) =
    let parts = body 4 octets port payload four p in
    rw (body_length octets port payload 4 8 four (omega arith))
      (assemble v4 _ octets _ port _ payload (parts.0) (parts.1) (parts.2))
decode_udp_frame-encode_udp_frame (v6 octets port) payload (sixteen, p) =
    let parts = body 16 octets port payload sixteen p in
    rw
      (
        body_length octets port payload 16 8 sixteen (omega arith),
        body_length octets port payload 16 20 sixteen (omega arith),
      )
      (assemble v6 _ octets _ port _ payload (parts.0) (parts.1) (parts.2))
