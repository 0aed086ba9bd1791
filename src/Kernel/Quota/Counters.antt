-- ===== src/Kernel/Quota/Counters.antt =====
-- crates/kernel/src/quota.rs: what an operation does to the counter of every tenant and class.
use selium.Base.{
  saturating_add, ℕ, ◌-◌, ◌≤◌, String, Bool, true, false, ◌&&◌, Option, none, some, ◌≡◌, refl, sym,
  ap, ◌∙◌, arith, ltb, u64_max, if◌then◌else◌, pair_eq, string_eq, ◌==◌, Bool-cases, inl, inr,
}
use selium.Base.Map.{lookup, insert, lookup-insert, eq_self}
use selium.Abi.Classes.{ResourceClass, class_eq}
use selium.Kernel.Quota.{
  QuotaState, Key, Quotas, entry, is_platform, used_by, try_consume, release, charged, lowered,
  state_or, used_or_zero,
}

used_or_zero-state_or : (o : Option QuotaState) → (state_or o).used ≡ used_or_zero o
used_or_zero-state_or none = refl
used_or_zero-state_or (some state) = refl

used_by_lem :
    (tenant : String) (class : ResourceClass) (quotas : Quotas)
    → used_by tenant class quotas ≡ used_or_zero (lookup (tenant, class) quotas)
unfolding used_by
used_by_lem tenant class quotas = refl

-- The counters after an entry is replaced.
used_by-insert :
    (tenant : String) (class : ResourceClass) (state : QuotaState) (quotas : Quotas) (other : Key)
    → used_by other.0 other.1 (insert (tenant, class) state quotas)
      ≡ (if (tenant, class) == other then state.used else used_by other.0 other.1 quotas)
used_by-insert tenant class state quotas other =
    used_by_lem other.0 other.1 (insert (tenant, class) state quotas)
    ∙ ap used_or_zero (lookup-insert (tenant, class) other state quotas)
    ∙ choose ((tenant, class) == other)
    ∙ ap (λ n. if (tenant, class) == other then state.used else n)
        (sym (used_by_lem other.0 other.1 quotas))
  where
    choose :
        (b : Bool)
        → used_or_zero (if b then some state else lookup other quotas)
          ≡ (if b then state.used else used_or_zero (lookup other quotas))
    choose true = refl
    choose false = refl

-- A reservation that the ceiling allows is counted, the platform tenant's is not, and no other
-- outcome moves a counter.
abbrev pub reserves : String → ResourceClass → ℕ → Quotas → Bool
reserves tenant class amount quotas =
    if is_platform tenant
    then false
    else if ltb ((entry (tenant, class) quotas).limit - (entry (tenant, class) quotas).used) amount
    then false
    else true

used-entry :
    (key other : Key) (quotas : Quotas)
    → (key == other) ≡ true
    → (entry key quotas).used ≡ used_by other.0 other.1 quotas
unfolding entry
used-entry key other quotas same =
    used_or_zero-state_or (lookup key quotas)
    ∙ ap (λ k. used_or_zero (lookup k quotas)) ((pair_eq.beq_iff key other).0 same)
    ∙ sym (used_by_lem other.0 other.1 quotas)

used_by-unchanged :
    (tenant : String) (class : ResourceClass) (quotas : Quotas) (other : Key)
    → used_by other.0 other.1 (insert (tenant, class) (entry (tenant, class) quotas) quotas)
      ≡ used_by other.0 other.1 quotas
used_by-unchanged tenant class quotas other =
    used_by-insert tenant class (entry (tenant, class) quotas) quotas other
    ∙ (elim (Bool-cases ((tenant, class) == other)) [
      | inl same ↦ rw same (used-entry (tenant, class) other quotas same)
      | inr differ ↦ rw differ
    ])

-- `try_consume` of `amount` adds `amount`, held at `u64::MAX`, to the counter of its tenant and
-- class when it reserves, and leaves every counter alone otherwise.
pub used_by-try_consume :
    (tenant : String) (class : ResourceClass) (amount : ℕ) (quotas : Quotas) (other : Key)
    → used_by other.0 other.1 (try_consume tenant class amount quotas).1 ≡ (
        if reserves tenant class amount quotas && ((tenant, class) == other)
        then saturating_add (entry (tenant, class) quotas).used amount
        else used_by other.0 other.1 quotas)
unfolding try_consume
used_by-try_consume tenant class amount quotas other = elim (Bool-cases (is_platform tenant)) [
  | inl platform ↦ rw platform
  | inr named ↦
      elim (Bool-cases
        (ltb ((entry (tenant, class) quotas).limit - (entry (tenant, class) quotas).used) amount)) [
          | inl over ↦ rw (named, over) (used_by-unchanged tenant class quotas other)
          | inr under ↦
              rw (named, under)
                (used_by-insert tenant class (charged (entry (tenant, class) quotas) amount) quotas
                  other)
        ]
]

lowered-insert :
    (key : Key) (state : QuotaState) (amount : ℕ) (quotas : Quotas)
    → lowered key amount (lookup key (insert key state quotas)) (insert key state quotas)
      ≡ insert key
          (record { limit = state.limit; used = state.used - amount })
          (insert key state quotas)
lowered-insert key state amount quotas = rw (lookup-insert key key state quotas, eq_self key)

-- What a reservation took, a release of the same amount gives back: every counter is as before,
-- where the counter and its ceiling are `u64`s.
pub release-try_consume :
    (tenant : String) (class : ResourceClass) (amount : ℕ) (quotas : Quotas) (other : Key)
    → (entry (tenant, class) quotas).limit ≤ u64_max
    → (entry (tenant, class) quotas).used ≤ u64_max
    → reserves tenant class amount quotas ≡ true
    → used_by other.0 other.1
        (release tenant class amount (try_consume tenant class amount quotas).1)
      ≡ used_by other.0 other.1 quotas
unfolding try_consume release
release-try_consume tenant class amount quotas other limit_lt used_lt granted =
    let state : QuotaState = entry (tenant, class) quotas in
    elim (Bool-cases (is_platform tenant)) [
      | inl platform ↦ rw platform
      | inr named ↦ elim (Bool-cases (ltb (state.limit - state.used) amount)) [
        | inl over ↦ rw (named, over) (absurd (refused named over))
        | inr fits ↦
            rw (named, fits, lowered-insert (tenant, class) (charged state amount) amount quotas)
              (used_by-insert tenant class _ (insert (tenant, class) (charged state amount) quotas)
                  other
                ∙ restore fits)
      ]
    ]
  where
    refused :
        is_platform tenant ≡ false
        → ltb ((entry (tenant, class) quotas).limit - (entry (tenant, class) quotas).used) amount
          ≡ true
        → ⊥
    refused named over = cc

    exact :
        (state : QuotaState)
        → state.limit ≤ u64_max
        → state.used ≤ u64_max
        → ltb (state.limit - state.used) amount ≡ false
        → saturating_add state.used amount - amount ≡ state.used
    exact state p q fits = ground arith

    restore :
        ltb ((entry (tenant, class) quotas).limit - (entry (tenant, class) quotas).used) amount
          ≡ false
        → (if (tenant, class) == other
            then (charged (entry (tenant, class) quotas) amount).used - amount
            else used_by other.0 other.1
                (insert (tenant, class) (charged (entry (tenant, class) quotas) amount) quotas))
          ≡ used_by other.0 other.1 quotas
    restore fits = elim (Bool-cases ((tenant, class) == other)) [
      | inl same ↦ rw same (
          exact (entry (tenant, class) quotas) limit_lt used_lt fits
          ∙ used-entry (tenant, class) other quotas same)
      | inr differ ↦ rw differ (
          used_by-insert tenant class (charged (entry (tenant, class) quotas) amount) quotas other
          ∙ rw differ)
    ]
