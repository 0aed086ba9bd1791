-- ===== src/Shm/Layout/Exchange.antt =====
-- The reservation loop `reserve_tail` of crates/shm/src/layout.rs under interference.
use mathlib.Core.Path.{subst}
use selium.Base.{
  ℕ, ◌+◌, ◌<◌, ◌≡◌, refl, sym, ap, ◌∙◌, inl, inr, Bool, false, ◌||◌, Option, none, some, List, [],
  ◌∷◌, ◌++◌, arith, ltb, nat_beq, u64_max, Bool-cases,
}
use selium.Base.Exec.{Result, ok, pure, continue-eq-ok}
use selium.Memory.Backend.{Backend, word, set_word, compare_exchange_u64}
use selium.Shm.Error.{Error, Op}
use selium.Shm.Layout.{next_tail_offset}
use selium.Shm.Layout.Words.{cas_next_tail}
use selium.Shm.Layout.Loads.{load_positions_inverse}
use selium.Shm.Layout.Reserve.{
  Round, load_positions, exchange_tail, reserve_round, reserve_tail_next, reserve_loop,
  reserve_tail,
}

-- No exchange of the schedule fails spuriously.
abbrev pub AreHonest : List Round → Type 0
AreHonest [] = Unit
AreHonest (r ∷ rs) = (r.spurious ≡ false) × AreHonest rs

-- What the other participants make of the memory in a round, up to the instant of its exchange, and
-- in whole rounds in which the loop itself changes nothing.
abbrev pub at_exchange : Round → Backend → Backend
at_exchange r b = r.before_exchange (r.before_writers (r.before_readers b))

abbrev pub interfered : List Round → Backend → Backend
interfered [] b = b
interfered (r ∷ rs) b = interfered rs (at_exchange r b)

exchange_inverse :
    (r : Round) (tail next pos : ℕ) (b b' : Backend)
    → r.spurious ≡ false
    → exchange_tail r tail next b ≡ (ok (some pos), b')
    → (word (r.before_exchange b) next_tail_offset ≡ pos)
      × (b' ≡ set_word (r.before_exchange b) next_tail_offset next)
      × (pos ≡ tail)
unfolding exchange_tail cas_next_tail compare_exchange_u64
exchange_inverse r tail next pos b b' h e = (ground arith, ground arith, ground arith)

-- An exchange that is lost changes nothing.
exchange_lost :
    (r : Round) (tail next : ℕ) (b b' : Backend)
    → exchange_tail r tail next b ≡ (ok none, b')
    → b' ≡ r.before_exchange b
unfolding exchange_tail cas_next_tail compare_exchange_u64
exchange_lost r tail next b b' e = ground arith

next_inverse :
    (tail len capacity : ℕ) (r w : Option ℕ) (pr pw : Bool) (next : ℕ)
    → reserve_tail_next tail len capacity r w pr pw ≡ ok next
    → (next ≡ tail + len) × (tail + len < u64_max)
unfolding reserve_tail_next
next_inverse tail len capacity r w pr pw next h = ground arith

module _ (len capacity : ℕ) (pr pw : Bool) where
  -- The round `r`, begun in the memory `b`, was granted the position.
  abbrev pub WonIn : Round → ℕ → Backend → Backend → Type 0
  WonIn r pos b b' =
      (word b next_tail_offset ≡ pos)
      × (word (at_exchange r b) next_tail_offset ≡ pos)
      × (b' ≡ set_word (at_exchange r b) next_tail_offset (pos + len))
      × (pos + len < u64_max)

  -- A round of the schedule was, begun in the memory that the rounds before it leave.
  abbrev pub Granted : List Round → ℕ → Backend → Backend → Type 0
  Granted rs pos b b' =
      (before : List Round) × (r : Round) × (after : List Round) × (rs ≡ before ++ r ∷ after)
      × WonIn r pos (interfered before b) b'

  round-WonIn :
      (r : Round) (b b' : Backend) (pos : ℕ)
      → r.spurious ≡ false
      → reserve_round r len capacity pr pw b ≡ (ok (some pos), b')
      → WonIn r pos b b'
  unfolding reserve_round
  round-WonIn r b b' pos h e =
      let (positions, b₁, e₁, f₁) = continue-eq-ok (load_positions r pr pw b) _ (some pos) b' e in
      let (loaded, same) = load_positions_inverse r pr pw positions b b₁ e₁ in
      let (next, b₂, e₂, f₂) =
        continue-eq-ok
          (reserve_tail_next positions.0 len capacity positions.1 positions.2 pr pw, b₁)
          (λ next. exchange_tail r positions.0 next) (some pos) b' f₁ in
      let (sum, below) =
        next_inverse positions.0 len capacity positions.1 positions.2 pr pw next
          (ap (λ (p : Result Error ℕ × Backend). p.0) e₂) in
      let still : b₂ ≡ b₁ = cc in
      let (at, moved, own) = exchange_inverse r positions.0 next pos b₂ b' h f₂ in
      let instant : r.before_exchange b₂ ≡ at_exchange r b = ap r.before_exchange (still ∙ same) in
      let sum' : next ≡ pos + len = omega (arith, sum, own) in
      (
        sym (own ∙ loaded),
        ap (λ m. word m next_tail_offset) (sym instant) ∙ at,
        moved ∙ (λ i. set_word (instant i) next_tail_offset (sum' i)),
        omega (arith, below, own),
      )

  round_lost :
      (r : Round) (b b' : Backend)
      → reserve_round r len capacity pr pw b ≡ (ok none, b')
      → b' ≡ at_exchange r b
  unfolding reserve_round
  round_lost r b b' e =
      let (positions, b₁, e₁, f₁) = continue-eq-ok (load_positions r pr pw b) _ none b' e in
      let (next, b₂, e₂, f₂) =
        continue-eq-ok
          (reserve_tail_next positions.0 len capacity positions.1 positions.2 pr pw, b₁)
          (λ next. exchange_tail r positions.0 next) none b' f₁ in
      let still : b₂ ≡ b₁ = cc in
      exchange_lost r positions.0 next b₂ b' f₂
      ∙ ap r.before_exchange (still ∙ (load_positions_inverse r pr pw positions b b₁ e₁).1)

  loop-Granted :
      (rs : List Round) (b b' : Backend) (pos : ℕ)
      → AreHonest rs
      → reserve_loop rs len capacity pr pw b ≡ (ok (some pos), b')
      → Granted rs pos b b'
  unfolding reserve_loop
  loop-Granted [] b b' pos h e = cc
  loop-Granted (r ∷ rs) b b' pos h e =
      let (got, b₁, e₁, f₁) =
        continue-eq-ok (reserve_round r len capacity pr pw b) _ (some pos) b' e in
      after got b₁ e₁ f₁ (loop-Granted rs b₁ b' pos h.1)
    where
      after :
          (got : Option ℕ) (b₁ : Backend)
          → reserve_round r len capacity pr pw b ≡ (ok got, b₁)
          → (let m : Op (Option ℕ) = elim got [
            | some p ↦ pure (some p)
            | none ↦ reserve_loop rs len capacity pr pw
          ] in
              m b₁)
            ≡ (ok (some pos), b')
          → (reserve_loop rs len capacity pr pw b₁ ≡ (ok (some pos), b') → Granted rs pos b₁ b')
          → Granted (r ∷ rs) pos b b'
      after none b₁ e₁ f₁ rec =
          let (before, won, behind, split, wins) = rec f₁ in
          (
            r ∷ before,
            won,
            behind,
            ap (λ l. r ∷ l) split,
            subst (λ m. WonIn won pos (interfered before m) b') (round_lost r b b₁ e₁) wins,
          )
      after (some p) b₁ e₁ f₁ rec =
          let q : p ≡ pos = cc in
          let t : b₁ ≡ b' = ap (λ (z : Result Error (Option ℕ) × Backend). z.1) f₁ in
          ([], r, rs, refl, round-WonIn r b b' pos h.0 (e₁ ∙ (λ i. (ok (some (q i)), t i))))

  -- Whatever the other participants do between the steps of the loop, a reservation that is granted
  -- at a position, in a schedule with no spurious failure, was granted by one round of the schedule:
  -- begun in the memory that the others made in the rounds before it, it loaded the tail at the
  -- position, the tail stood there still after all that the others did up to its exchange, and of the
  -- memory of that instant the exchange changed the tail alone, to the position past its length,
  -- without overflow.
  pub reserve_tail-Granted :
      (rs : List Round) (b b' : Backend) (pos : ℕ)
      → AreHonest rs
      → reserve_tail rs len capacity pr pw b ≡ (ok (some pos), b')
      → Granted rs pos b b'
  unfolding reserve_tail
  reserve_tail-Granted rs b b' pos h e = elim (Bool-cases (nat_beq len 0 || ltb capacity len)) [
    | inl bad ↦ cc (rw bad at e)
    | inr good ↦ loop-Granted rs b b' pos h (rw good at e)
  ]
