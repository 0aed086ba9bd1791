-- ===== src/Kernel/Quota/Ceiling.antt =====
-- crates/kernel/src/quota.rs: the ceiling under sequences of reservations and releases.
use selium.Base.{
  ℕ, ◌-◌, ◌≤◌, String, Bool, true, false, Option, none, some, List, [], ◌∷◌, ◌≡◌, refl, sym, ◌∙◌,
  arith, ltb, if◌then◌else◌, pair_eq, string_eq, ◌==◌, Bool-cases, inl, inr,
}
use selium.Base.Map.{lookup, insert, lookup-insert}
use selium.Abi.Classes.{ResourceClass, class_eq}
use selium.Kernel.Quota.{
  QuotaState, Key, Quotas, entry, state_or, is_platform, try_consume, release, charged, lowered,
}

abbrev pub IsWithin : QuotaState → Type 0
IsWithin state = state.used ≤ state.limit

-- No counter stands above its ceiling.
abbrev pub IsUnder : Quotas → Type 0
IsUnder quotas = (key : Key) (state : QuotaState) → lookup key quotas ≡ some state → IsWithin state

insert-IsUnder :
    (key : Key) (state : QuotaState) (quotas : Quotas)
    → IsWithin state
    → IsUnder quotas
    → IsUnder (insert key state quotas)
insert-IsUnder key state quotas within under other found e =
    choose (key == other) (sym (lookup-insert key other state quotas) ∙ e)
  where
    choose :
        (b : Bool) → (if b then some state else lookup other quotas) ≡ some found → IsWithin found
    choose true h = cc-some h
      where
        cc-some : some state ≡ some found → IsWithin found
        cc-some h = grind (arith, within)
    choose false h = under other found h

state_or-IsWithin :
    (o : Option QuotaState) → ((s : QuotaState) → o ≡ some s → IsWithin s) → IsWithin (state_or o)
state_or-IsWithin none h = omega arith
state_or-IsWithin (some s) h = h s refl

entry-IsWithin : (key : Key) (quotas : Quotas) → IsUnder quotas → IsWithin (entry key quotas)
unfolding entry
entry-IsWithin key quotas under = state_or-IsWithin (lookup key quotas) (under key)

charged-IsWithin :
    (state : QuotaState) (amount : ℕ)
    → IsWithin state
    → ltb (state.limit - state.used) amount ≡ false
    → IsWithin (charged state amount)
charged-IsWithin state amount within fits = ground arith

try_consume-IsUnder :
    (tenant : String) (class : ResourceClass) (amount : ℕ) (quotas : Quotas)
    → IsUnder quotas
    → IsUnder (try_consume tenant class amount quotas).1
unfolding try_consume
try_consume-IsUnder tenant class amount quotas under =
    let state : QuotaState = entry (tenant, class) quotas in
    let within : IsWithin state = entry-IsWithin (tenant, class) quotas under in
    elim (Bool-cases (is_platform tenant)) [
      | inl platform ↦ rw platform under
      | inr named ↦ elim (Bool-cases (ltb (state.limit - state.used) amount)) [
        | inl over ↦ rw (named, over) (insert-IsUnder (tenant, class) state quotas within under)
        | inr fits ↦
            rw (named, fits)
              (insert-IsUnder (tenant, class) (charged state amount) quotas
                (charged-IsWithin state amount within fits) under)
      ]
    ]

release-IsUnder :
    (tenant : String) (class : ResourceClass) (amount : ℕ) (quotas : Quotas)
    → IsUnder quotas
    → IsUnder (release tenant class amount quotas)
unfolding release
release-IsUnder tenant class amount quotas under = elim (Bool-cases (is_platform tenant)) [
  | inl platform ↦ rw platform under
  | inr named ↦ rw named (lowered-IsUnder (lookup (tenant, class) quotas) (under (tenant, class)))
]
  where
    lowered-IsUnder :
        (o : Option QuotaState)
        → ((s : QuotaState) → o ≡ some s → IsWithin s)
        → IsUnder (lowered (tenant, class) amount o quotas)
    lowered-IsUnder none h = under
    lowered-IsUnder (some s) h =
        insert-IsUnder (tenant, class) _ quotas (omega (arith, h s refl)) under

-- A client's use of the table, in the order in which the lock admits it.
pub data Call : Type 0 where
  reserve : String → ResourceClass → ℕ → Call
  give_back : String → ResourceClass → ℕ → Call

unfoldable pub run : List Call → Quotas → Quotas
run [] quotas = quotas
run (reserve tenant class amount ∷ calls) quotas =
    run calls (try_consume tenant class amount quotas).1
run (give_back tenant class amount ∷ calls) quotas = run calls (release tenant class amount quotas)

-- From a table in which no counter stands above its ceiling, reservations and releases in any
-- number and order lead to such tables only.
pub run-IsUnder :
    (calls : List Call) (quotas : Quotas) → IsUnder quotas → IsUnder (run calls quotas)
unfolding run
run-IsUnder [] quotas under = under
run-IsUnder (reserve tenant class amount ∷ calls) quotas under =
    run-IsUnder calls (try_consume tenant class amount quotas).1
      (try_consume-IsUnder tenant class amount quotas under)
run-IsUnder (give_back tenant class amount ∷ calls) quotas under =
    run-IsUnder calls (release tenant class amount quotas)
      (release-IsUnder tenant class amount quotas under)
