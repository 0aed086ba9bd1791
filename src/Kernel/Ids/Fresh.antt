-- ===== src/Kernel/Ids/Fresh.antt =====
-- crates/kernel/src/kernel.rs `hashed_id` and the loops that draw ids from it: the ids of different
-- counters, and the rounds of the loop.
use selium.Base.{
  ℕ, suc, ◌/◌, ◌^◌, ◌<◌, ◌≡◌, ◌≢◌, refl, sym, ◌∙◌, inl, inr, false, some, arith, nat_beq,
  nat_beq_iff, Bool-cases,
}
use selium.Base.Xor.{xor_shift, xor_shift-injective, bit_xor-lt}
use selium.Kernel.Ids.{add64, mul64, hashed_id, next_id_loop, next_id}

-- Both multipliers are odd, so a product can be undone.
cancel_first :
    (a b : ℕ)
    → a < 2 ^ 64
    → b < 2 ^ 64
    → mul64 a 0xBF58476D1CE4E5B9 ≡ mul64 b 0xBF58476D1CE4E5B9
    → a ≡ b
cancel_first a b p q h = omega arith

cancel_second :
    (a b : ℕ)
    → a < 2 ^ 64
    → b < 2 ^ 64
    → mul64 a 0x94D049BB133111EB ≡ mul64 b 0x94D049BB133111EB
    → a ≡ b
cancel_second a b p q h = omega arith

cancel_sum :
    (seed a b : ℕ) → seed < 2 ^ 64 → a < 2 ^ 64 → b < 2 ^ 64 → add64 seed a ≡ add64 seed b → a ≡ b
cancel_sum seed a b s p q h = omega arith

shifted : (k z : ℕ) → z < 2 ^ 64 → xor_shift (suc k) z < 2 ^ 64
unfolding xor_shift
shifted k z h = bit_xor-lt 64 z (z / 2 ^ suc k) h (below z (2 ^ suc k) h)
  where
    below : (z m : ℕ) → z < 2 ^ 64 → z / m < 2 ^ 64
    below z m h = grind arith

hashed_id_lem :
    (seed counter : ℕ)
    → hashed_id seed counter
      ≡ xor_shift 31 (
          mul64
            (xor_shift 27 (mul64 (xor_shift 30 (add64 seed counter)) 0xBF58476D1CE4E5B9))
            0x94D049BB133111EB)
unfolding hashed_id xor_shift
hashed_id_lem seed counter = refl

-- Two counters of 64 bits with one hash are one counter.
hashed_id-injective :
    (seed a b : ℕ)
    → seed < 2 ^ 64
    → a < 2 ^ 64
    → b < 2 ^ 64
    → hashed_id seed a ≡ hashed_id seed b
    → a ≡ b
hashed_id-injective seed a b s p q h =
    let za : ℕ = add64 seed a in
    let zb : ℕ = add64 seed b in
    let ya : ℕ = mul64 (xor_shift 30 za) 0xBF58476D1CE4E5B9 in
    let yb : ℕ = mul64 (xor_shift 30 zb) 0xBF58476D1CE4E5B9 in
    let ez : za ≡ zb =
      stages za zb (omega arith) (omega arith)
        (sym (hashed_id_lem seed a) ∙ h ∙ hashed_id_lem seed b) in
    cancel_sum seed a b s p q ez
  where
    stages :
        (za zb : ℕ)
        → za < 2 ^ 64
        → zb < 2 ^ 64
        → xor_shift 31
            (mul64 (xor_shift 27 (mul64 (xor_shift 30 za) 0xBF58476D1CE4E5B9)) 0x94D049BB133111EB)
          ≡ xor_shift 31
              (mul64 (xor_shift 27 (mul64 (xor_shift 30 zb) 0xBF58476D1CE4E5B9)) 0x94D049BB133111EB)
        → za ≡ zb
    stages za zb u v e =
        let ya : ℕ = mul64 (xor_shift 30 za) 0xBF58476D1CE4E5B9 in
        let yb : ℕ = mul64 (xor_shift 30 zb) 0xBF58476D1CE4E5B9 in
        xor_shift-injective 29 za zb (
          cancel_first (xor_shift 30 za) (xor_shift 30 zb) (shifted 29 za u) (shifted 29 zb v) (
            xor_shift-injective 26 ya yb (
              cancel_second (xor_shift 27 ya) (xor_shift 27 yb) (shifted 26 ya (omega arith))
                (shifted 26 yb (omega arith)) (xor_shift-injective 30 _ _ e))))

-- Different counters of 64 bits have different ids, under any seed of 64 bits.
pub hashed_id-distinct :
    (seed a b : ℕ)
    → seed < 2 ^ 64
    → a < 2 ^ 64
    → b < 2 ^ 64
    → a ≢ b
    → hashed_id seed a ≢ hashed_id seed b
hashed_id-distinct seed a b s p q differ same = differ (hashed_id-injective seed a b s p q same)

-- Two counters in a row do not both hash to zero.
not_both_zero :
    (seed counter : ℕ)
    → seed < 2 ^ 64
    → counter < 2 ^ 64
    → hashed_id seed counter ≡ 0
    → hashed_id seed (add64 counter 1) ≢ 0
not_both_zero seed counter s c first second =
    let next_lt : add64 counter 1 < 2 ^ 64 = omega arith in
    let same : counter ≡ add64 counter 1 =
      hashed_id-injective seed counter (add64 counter 1) s c next_lt (first ∙ sym second) in
    absurd (omega (arith, same))

-- The loop of `next_local_id`, `next_shared_id` and `next_process_id` ends in its second round at
-- the latest, and what it returns is not zero.
pub next_id_loop-next_id :
    (seed counter rounds : ℕ)
    → seed < 2 ^ 64
    → counter < 2 ^ 64
    → (next_id_loop (suc (suc rounds)) seed counter ≡ some (next_id seed counter))
      × ((next_id seed counter).0 ≢ 0)
unfolding next_id_loop next_id
next_id_loop-next_id seed counter rounds s c =
    elim (Bool-cases (nat_beq (hashed_id seed counter) 0)) [
      | inl zero_first ↦
          let second : hashed_id seed (add64 counter 1) ≢ 0 =
            not_both_zero seed counter s c
              ((nat_beq_iff (hashed_id seed counter) 0).0 zero_first) in
          let passes : nat_beq (hashed_id seed (add64 counter 1)) 0 ≡ false =
            is_false (hashed_id seed (add64 counter 1)) second in
          (rw (zero_first, passes), rw zero_first second)
      | inr first ↦ (rw first, rw first (is_nonzero (hashed_id seed counter) first))
    ]
  where
    is_false : (n : ℕ) → n ≢ 0 → nat_beq n 0 ≡ false
    is_false n h = ground arith

    is_nonzero : (n : ℕ) → nat_beq n 0 ≡ false → n ≢ 0
    is_nonzero n h = ground arith
