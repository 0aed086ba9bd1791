-- ===== src/Dns/Wire/Termination.antt =====
-- crates/proto-dns/src/wire.rs `parse_name`: the loop ends on every input.
use native.Mathlib.Nat.{suc-mul}
use selium.Base.{
  ◌^◌, ℕ, zero, suc, ◌+◌, ◌-◌, ◌*◌, ◌≤◌, ◌<◌, Bool, Option, none, some, List, [], ◌∷◌, ◌≡◌, refl,
  ap, ◌∙◌, arith, ltb, leb, nat_beq, Bool-cases, inl, inr, length, get_elem?, checked_add, take,
  drop,
}
use selium.Base.Exec.{Result, ok, err}
use selium.Base.Text.{Text}
use selium.Dns.Wire.{
  WireError, NameState, NameStep, done, go, follow, take_label, at_length, require, checked_end,
  name_step, name_loop, joined, name_start, parse_name,
}

-- What is left of the jumps and of the bytes.
abbrev left : List ℕ → NameState → ℕ
left bytes s = (33 - s.jumps) * (length bytes + 1) + (length bytes - s.pos)

-- A step ends the loop or leaves less, with 32 jumps at most.
abbrev Shrinks : List ℕ → ℕ → NameStep → Type 0
Shrinks bytes n (done r) = Unit {0}
Shrinks bytes n (go next) = (left bytes next < n) × (next.jumps ≤ 32)

checked_end_lem :
    (bytes : List ℕ) (o : Option ℕ) (e : ℕ)
    → checked_end bytes o ≡ ok e
    → (o ≡ some e) × (e ≤ length bytes)
checked_end_lem bytes none e h = cc
checked_end_lem bytes (some x) e h = elim (Bool-cases (ltb (length bytes) x)) [
  | inl beyond ↦ let refused = rw beyond at h in cc
  | inr within ↦ let given = rw within at h in let equal : x ≡ e = cc in (cc, ground arith)
]

checked_add_lem : (a b e : ℕ) → checked_add a b ≡ some e → e ≡ a + b
checked_add_lem a b e h = elim (Bool-cases (ltb (a + b) (2 ^ 64))) [
  | inl fits ↦ let given = rw fits at h in cc
  | inr over ↦ let given = rw over at h in cc
]

require_lem :
    (bytes : List ℕ) (pos len e : ℕ)
    → require bytes pos len ≡ ok e
    → (e ≡ pos + len) × (e ≤ length bytes)
unfolding require
require_lem bytes pos len e h =
    let (found, within) = checked_end_lem bytes (checked_add pos len) e h in
    (checked_add_lem pos len e found, within)

in_bytes : (bytes : List ℕ) (pos len : ℕ) → get_elem? bytes pos ≡ some len → pos < length bytes
in_bytes [] pos len h = cc
in_bytes (b ∷ bytes) zero len h = omega arith
in_bytes (b ∷ bytes) (suc pos) len h = omega (arith, in_bytes bytes pos len h)

module _ (is_utf8 : List ℕ → Bool) where
  follow-Shrinks :
      (bytes : List ℕ) (s : NameState) (len : ℕ) (next : Option ℕ)
      → s.jumps ≤ 32
      → Shrinks bytes (left bytes s) (follow is_utf8 s len next)
  follow-Shrinks bytes s len none h = tt
  follow-Shrinks bytes s len (some next) h = elim (Bool-cases (ltb 32 (s.jumps + 1))) [
    | inl many ↦ rw many tt
    | inr few ↦
        let more : s.jumps + 1 ≤ 32 = ground arith in
        let same : 33 - s.jumps ≡ suc (32 - s.jumps) = omega (arith, h) in
        let product : (33 - s.jumps) * (length bytes + 1)
            ≡ (32 - s.jumps) * (length bytes + 1) + (length bytes + 1) =
          ap (λ (n : ℕ). n * (length bytes + 1)) same ∙ suc-mul (32 - s.jumps) (length bytes + 1) in
        let fewer : 33 - (s.jumps + 1) ≡ 32 - s.jumps = omega arith in
        rw (few, fewer) (omega (arith, product), more)
  ]

  take_label-Shrinks :
      (bytes : List ℕ) (s : NameState) (len : ℕ) (r : Result WireError ℕ)
      → s.jumps ≤ 32
      → s.pos < length bytes
      → ((e : ℕ) → r ≡ ok e → (e ≡ s.pos + 1 + len) × (e ≤ length bytes))
      → Shrinks bytes (left bytes s) (take_label is_utf8 bytes s len r)
  take_label-Shrinks bytes s len (err e) h inside end_of = tt
  take_label-Shrinks bytes s len (ok e) h inside end_of =
      elim (Bool-cases (is_utf8 (take len (drop (s.pos + 1) bytes)))) [
        | inl valid ↦
            let (at, within) = end_of e refl in rw valid (omega (arith, at, within, inside), h)
        | inr invalid ↦ rw invalid tt
      ]

  at_length-Shrinks :
      (bytes : List ℕ) (s : NameState) (found : Option ℕ)
      → s.jumps ≤ 32
      → get_elem? bytes s.pos ≡ found
      → Shrinks bytes (left bytes s) (at_length is_utf8 bytes s found)
  at_length-Shrinks bytes s none h e = tt
  at_length-Shrinks bytes s (some len) h e = elim (Bool-cases (nat_beq len 0)) [
    | inl last ↦ rw last tt
    | inr other ↦ elim (Bool-cases (leb 192 len)) [
      | inl pointer ↦
          rw (other, pointer) (follow-Shrinks bytes s len (get_elem? bytes (s.pos + 1)) h)
      | inr plain ↦ elim (Bool-cases (leb 64 len)) [
        | inl reserved ↦ rw (other, plain, reserved) tt
        | inr label ↦
            rw (other, plain, label)
              (take_label-Shrinks bytes s len (require bytes (s.pos + 1) len) h
                (in_bytes bytes s.pos len e) (λ x k. require_lem bytes (s.pos + 1) len x k))
      ]
    ]
  ]

  after_step :
      (fuel : ℕ) (bytes : List ℕ) (n : ℕ) (step : NameStep)
      → Shrinks bytes n step
      → n ≤ fuel
      → ((next : NameState)
          → next.jumps ≤ 32
          → left bytes next < fuel
          → (r : Result WireError (List Text × ℕ)) × (name_loop is_utf8 fuel bytes next ≡ some r))
      → (r : Result WireError (List Text × ℕ)) × ((elim step [
        | done r ↦ some r
        | go next ↦ name_loop is_utf8 fuel bytes next
      ])
          ≡ some r)
  after_step fuel bytes n (done r) h enough further = (r, refl)
  after_step fuel bytes n (go next) (less, few) enough further =
      further next few (omega (arith, less, enough))

  name_loop-ends :
      (fuel : ℕ) (bytes : List ℕ) (s : NameState)
      → s.jumps ≤ 32
      → left bytes s < fuel
      → (r : Result WireError (List Text × ℕ)) × (name_loop is_utf8 fuel bytes s ≡ some r)
  unfolding name_loop name_step
  name_loop-ends zero bytes s h enough = absurd (omega (arith, enough))
  name_loop-ends (suc fuel) bytes s h enough =
      after_step fuel bytes (left bytes s) (name_step is_utf8 bytes s)
        (at_length-Shrinks bytes s (get_elem? bytes s.pos) h refl) (omega (arith, enough))
        (λ next few less. name_loop-ends fuel bytes next few less)

  joined-ends :
      (o : Option (Result WireError (List Text × ℕ))) (r : Result WireError (List Text × ℕ))
      → o ≡ some r
      → (q : Result WireError (Text × ℕ)) × (joined is_utf8 o ≡ some q)
  joined-ends none r h = cc
  joined-ends (some (ok x)) r h = (_, refl)
  joined-ends (some (err e)) r h = (err e, refl)

  -- The loop of `parse_name` ends on every input and at every position, compression pointers that
  -- lead in a circle included, with a name or an error.
  pub parse_name-ends :
      (bytes : List ℕ) (start : ℕ)
      → (r : Result WireError (Text × ℕ)) × (parse_name is_utf8 bytes start ≡ some r)
  unfolding parse_name
  parse_name-ends bytes start =
      let (r, ended) =
        name_loop-ends (34 * (length bytes + 1)) bytes (name_start is_utf8 start) (omega arith)
          (omega arith) in
      joined-ends (name_loop is_utf8 (34 * (length bytes + 1)) bytes (name_start is_utf8 start)) r
        ended
