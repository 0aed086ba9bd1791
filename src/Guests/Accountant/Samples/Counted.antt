-- ===== src/Guests/Accountant/Samples/Counted.antt =====
-- guests/accountant/src/lib.rs `reduce_samples`: the retained counters of several processes together.
use mathlib.Core.Path.{subst}
use selium.Base.{
  ℕ, ◌+◌, Bool, true, false, ◌||◌, Option, some, List, [], ◌∷◌, ◌≡◌, refl, ap, ◌∙◌, arith, nat_beq,
  nat_eq, string_eq, if◌then◌else◌,
}
use selium.Base.Map.{Map, lookup, insert, lookup-insert}
use selium.Guests.Accountant.Samples.{CumulativeCounters, counters_or}

unfoldable pub is_listed : ℕ → List ℕ → Bool
is_listed p [] = false
is_listed p (q ∷ qs) = let rest = is_listed p qs in nat_beq p q || rest

abbrev pub AreApart : List ℕ → Type 0
AreApart [] = Unit
AreApart (p ∷ ps) = (is_listed p ps ≡ false) × AreApart ps

abbrev pub retained : ℕ → Map ℕ CumulativeCounters → ℕ
retained p counters = (counters_or (lookup p counters)).cpu_instructions

-- The retained instructions of some processes together.
unfoldable pub counted : List ℕ → Map ℕ CumulativeCounters → ℕ
counted [] counters = 0
counted (p ∷ ps) counters = retained p counters + counted ps counters

abbrev pub only : Bool → ℕ → ℕ
only true n = n
only false n = 0

module _ (p : ℕ) (v : CumulativeCounters) (counters : Map ℕ CumulativeCounters) where
  -- Retaining new counters of a process changes the sum where the process is one of these.
  abbrev pub IsRaised : Bool → ℕ → ℕ → Type 0
  IsRaised listed before after =
      after + only listed (retained p counters) ≡ before + only listed v.cpu_instructions

  cond_true :
      (q : ℕ)
      → nat_beq p q ≡ true
      → (o : Option CumulativeCounters) → (if nat_beq p q then some v else o) ≡ some v
  cond_true q same o = rw same refl

  cond_false :
      (q : ℕ)
      → nat_beq p q ≡ false
      → (o : Option CumulativeCounters) → (if nat_beq p q then some v else o) ≡ o
  cond_false q other o = rw other refl

  counted_step :
      (q : ℕ) (qs : List ℕ) (same : Bool)
      → nat_beq p q ≡ same
      → is_listed q qs ≡ false
      → IsRaised (is_listed p qs) (counted qs counters) (counted qs (insert p v counters))
      → IsRaised
          (nat_beq p q || is_listed p qs)
          (retained q counters + counted qs counters)
          (retained q (insert p v counters) + counted qs (insert p v counters))
  counted_step q qs true same new ih =
      let equal : p ≡ q = ground arith in
      let unlisted : is_listed p qs ≡ false = ap (λ r. is_listed r qs) equal ∙ new in
      let old : retained p counters ≡ retained q counters = ap (λ r. retained r counters) equal in
      let fresh : retained q (insert p v counters) ≡ v.cpu_instructions =
        ap (λ o. (counters_or o).cpu_instructions)
          (lookup-insert p q v counters ∙ cond_true q same (lookup q counters)) in
      let rest : counted qs (insert p v counters) + 0 ≡ counted qs counters + 0 =
        subst (λ c. IsRaised c (counted qs counters) (counted qs (insert p v counters))) unlisted
          ih in
      rw same (omega (arith, rest, old, fresh))
  counted_step q qs false other new ih =
      let kept : retained q (insert p v counters) ≡ retained q counters =
        ap (λ o. (counters_or o).cpu_instructions)
          (lookup-insert p q v counters ∙ cond_false q other (lookup q counters)) in
      rw other (omega (arith, ih, kept))

  pub counted-insert :
      (ps : List ℕ)
      → AreApart ps
      → IsRaised (is_listed p ps) (counted ps counters) (counted ps (insert p v counters))
  unfolding counted is_listed
  counted-insert [] apart = refl
  counted-insert (q ∷ qs) (new, apart) =
      counted_step q qs (nat_beq p q) refl new (counted-insert qs apart)
