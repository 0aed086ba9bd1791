-- ===== src/Dns/Response/Total.antt =====
-- crates/proto-dns/src/wire.rs `parse_response`: it ends on every message.
use selium.Base.{
  ℕ, zero, suc, ◌-◌, Bool, none, some, List, [], ◌≡◌, refl, ltb, length, Bool-cases, inl, inr,
}
use selium.Base.Exec.{Result, ok, err}
use selium.Dns.Wire.{WireError, short, header_len, require, parse_name}
use selium.Dns.Wire.Termination.{parse_name-ends}
use selium.Dns.Response.{
  Read, and_read, u16_at, prepend, skip_questions, parse_answers, parse_response,
}

-- A read that has ended.
abbrev pub Ends : {A : Type 0} → Read A → Type 0
Ends {A} read = (r : Result WireError A) × (read ≡ some r)

and_read-Ends :
    {A B : Type 0} (read : Read A) (f : A → Read B)
    → Ends read
    → ((a : A) → Ends (f a))
    → Ends (and_read read f)
and_read-Ends none f (r, e) further = cc
and_read-Ends (some (err x)) f (r, e) further = (err x, refl)
and_read-Ends (some (ok a)) f (r, e) further = further a

prepend-Ends :
    (here : List (List ℕ)) (read : Read (List (List ℕ))) → Ends read → Ends (prepend here read)
prepend-Ends here none (r, e) = cc
prepend-Ends here (some (err x)) (r, e) = (err x, refl)
prepend-Ends here (some (ok rest)) (r, e) = (_, refl)

module _ (is_utf8 : List ℕ → Bool) where
  skip_questions-Ends :
      (n : ℕ) (bytes : List ℕ) (pos : ℕ) → Ends (skip_questions is_utf8 n bytes pos)
  unfolding skip_questions
  skip_questions-Ends zero bytes pos = (ok pos, refl)
  skip_questions-Ends (suc n) bytes pos =
      and_read-Ends (parse_name is_utf8 bytes pos) _ (parse_name-ends is_utf8 bytes pos) (λ named.
        and_read-Ends (some (require bytes (named.1) 4)) _ (require bytes (named.1) 4, refl)
          (λ next. skip_questions-Ends n bytes next))

  parse_answers-Ends : (n : ℕ) (bytes : List ℕ) (pos : ℕ) → Ends (parse_answers is_utf8 n bytes pos)
  unfolding parse_answers
  parse_answers-Ends zero bytes pos = (ok [], refl)
  parse_answers-Ends (suc n) bytes pos =
      and_read-Ends (parse_name is_utf8 bytes pos) _ (parse_name-ends is_utf8 bytes pos) (λ named.
        and_read-Ends (some (require bytes (named.1) 10)) _ (require bytes (named.1) 10, refl)
          (λ start.
            and_read-Ends (some (require bytes start (u16_at bytes (start - 2)))) _
              (require bytes start (u16_at bytes (start - 2)), refl)
              (λ end.
                prepend-Ends _ (parse_answers is_utf8 n bytes end)
                  (parse_answers-Ends n bytes end))))

  -- `parse_response` ends on every message with a response or an error, names whose compression
  -- pointers lead in a circle included.
  pub parse_response-Ends : (bytes : List ℕ) → Ends (parse_response is_utf8 bytes)
  unfolding parse_response
  parse_response-Ends bytes = elim (Bool-cases (ltb (length bytes) header_len)) [
    | inl few ↦ rw few (err short, refl)
    | inr enough ↦ rw enough (
        and_read-Ends (skip_questions is_utf8 (u16_at bytes 4) bytes header_len) _
          (skip_questions-Ends (u16_at bytes 4) bytes header_len)
          (λ pos.
            and_read-Ends (parse_answers is_utf8 (u16_at bytes 6) bytes pos) _
              (parse_answers-Ends (u16_at bytes 6) bytes pos) (λ addresses. (_, refl))))
  ]
