-- ===== src/Runtime/Authority/Chains.antt =====
-- crates/runtime/src/process.rs `is_descendant_of`: the walk up the parents as a relation.
use selium.Base.{
  ℕ, zero, suc, ◌≤◌, true, Option, none, some, ◌≡◌, ◌↔◌, refl, ap, ◌∙◌, arith, nat_beq,
  nat_beq_refl, nat_eq, length, Bool-cases, inl, inr, or_left, or_right,
}
use selium.Base.Map.{lookup}
use selium.Runtime.Authority.{Authorities, parent_of, step_up, walk, is_descendant_of}

-- So many links from a process up to an ancestor.
pub data Chain (a : Authorities) : ℕ → ℕ → ℕ → Type 0 where
  link : {p q : ℕ} → parent_of (lookup p a) ≡ some q → Chain a p q 1
  above : {p q r n : ℕ} → parent_of (lookup p a) ≡ some q → Chain a q r n → Chain a p r (suc n)

abbrev pub Within : Authorities → ℕ → ℕ → ℕ → Type 0
Within a rounds p r = (n : ℕ) × (n ≤ rounds) × Chain a p r n

climb :
    (rounds : ℕ) (a : Authorities) (p r : ℕ) (found : Option ℕ)
    → parent_of (lookup p a) ≡ found
    → ((q : ℕ) → walk rounds a q r ≡ true → Within a rounds q r)
    → step_up found r (λ q. walk rounds a q r) ≡ true
    → Within a (suc rounds) p r
climb rounds a p r none e further h = cc
climb rounds a p r (some q) e further h = elim (Bool-cases (nat_beq q r)) [
  | inl same ↦ let equal : q ≡ r = ground arith in (1, omega arith, link (e ∙ ap some equal))
  | inr other ↦
      let (n, few, chain) = further q (rw other at h) in (suc n, omega arith, above e chain)
]

-- What the walk finds is an ancestor by that many links at most.
walk-Chain :
    (rounds : ℕ) (a : Authorities) (p r : ℕ) → walk rounds a p r ≡ true → Within a rounds p r
unfolding walk
walk-Chain zero a p r h = cc
walk-Chain (suc rounds) a p r h =
    climb rounds a p r (parent_of (lookup p a)) refl (λ q k. walk-Chain rounds a q r k) h

-- An ancestor by so many links is found by as many rounds, and by more.
Chain-walk :
    (n rounds : ℕ) (a : Authorities) (p r : ℕ)
    → Chain a p r n
    → n ≤ rounds
    → walk rounds a p r ≡ true
unfolding walk
Chain-walk n zero a p r (link e) h = absurd (omega arith)
Chain-walk n zero a p r (above e c) h = absurd (omega arith)
Chain-walk n (suc rounds) a p r (link e) h = rw e (or_left _ _ (nat_beq_refl r))
Chain-walk n (suc rounds) a p r (above {q = q} {n = m} e c) h =
    rw e (or_right (nat_beq q r) _ (Chain-walk m rounds a q r c (omega arith)))

-- A process descends from another exactly where a chain of parents leads from it to the other, of
-- at most one link more than there are authorities.
pub is_descendant_of-Chain :
    (a : Authorities) (target ancestor : ℕ)
    → (is_descendant_of a target ancestor ≡ true) ↔ Within a (suc (length a)) target ancestor
unfolding is_descendant_of
is_descendant_of-Chain a target ancestor = (
  walk-Chain (suc (length a)) a target ancestor,
  λ (n, few, chain). Chain-walk n (suc (length a)) a target ancestor chain few,
)
