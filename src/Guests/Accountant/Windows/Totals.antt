-- ===== src/Guests/Accountant/Windows/Totals.antt =====
-- guests/accountant/src/lib.rs: what a window holds of each tenant after the buckets of its minute.
use selium.Base.{
  ℕ, ◌+◌, ◌≤◌, min, max, u64_max, String, Bool, true, false, List, [], ◌∷◌, ◌≡◌, refl, ap, ◌∙◌,
  arith, if◌then◌else◌, Bool-cases, inl, inr, string_eq, ◌==◌,
}
use selium.Base.Map.{lookup, lookup-insert}
use selium.Guests.Accountant.{Usage, add_counters, merge_gauges}
use selium.Guests.Accountant.Windows.{
  MeteringBucket, RollingWindow, usage_or, counters_of, gauges_of, merge,
}

abbrev pub usage_at : String → RollingWindow → Usage
usage_at t w = usage_or (lookup t w.usage)

unfoldable pub merge_all : List MeteringBucket → RollingWindow → RollingWindow
merge_all [] w = w
merge_all (bucket ∷ buckets) w = merge_all buckets (merge bucket w)

-- The sum and the peak of a field over the buckets of one tenant.
unfoldable pub sum_for : String → (MeteringBucket → ℕ) → List MeteringBucket → ℕ
sum_for t field [] = 0
sum_for t field (bucket ∷ buckets) =
    let rest = sum_for t field buckets in if bucket.tenant == t then field bucket + rest else rest

unfoldable pub peak_for : String → (MeteringBucket → ℕ) → List MeteringBucket → ℕ
peak_for t field [] = 0
peak_for t field (bucket ∷ buckets) =
    let rest = peak_for t field buckets in
    if bucket.tenant == t then max (field bucket) rest else rest

usage_at-merge :
    (t : String) (bucket : MeteringBucket) (w : RollingWindow)
    → usage_at t (merge bucket w) ≡ (
        if bucket.tenant == t
        then merge_gauges (add_counters (usage_at t w) (counters_of bucket)) (gauges_of bucket)
        else usage_at t w)
unfolding merge
usage_at-merge t bucket w = elim (Bool-cases (bucket.tenant == t)) [
  | inl same ↦
      let equal : bucket.tenant ≡ t = (string_eq.beq_iff bucket.tenant t).0 same in
      rw
        (
          lookup-insert bucket.tenant t
              (merge_gauges (add_counters (usage_at bucket.tenant w) (counters_of bucket))
                (gauges_of bucket))
              w.usage,
          same,
          equal,
        )
        refl
  | inr other ↦
      rw
        (
          lookup-insert bucket.tenant t
              (merge_gauges (add_counters (usage_at bucket.tenant w) (counters_of bucket))
                (gauges_of bucket))
              w.usage,
          other,
        )
        refl
]

abbrev combined : MeteringBucket → Usage → Usage
combined bucket u = merge_gauges (add_counters u (counters_of bucket)) (gauges_of bucket)

after : String → List MeteringBucket → Usage → Usage
after t [] u = u
after t (bucket ∷ buckets) u = after t buckets (if bucket.tenant == t then combined bucket u else u)

usage_at-merge_all :
    (t : String) (buckets : List MeteringBucket) (w : RollingWindow)
    → usage_at t (merge_all buckets w) ≡ after t buckets (usage_at t w)
unfolding merge_all after
usage_at-merge_all t [] w = refl
usage_at-merge_all t (bucket ∷ buckets) w =
    usage_at-merge_all t buckets (merge bucket w) ∙ ap (after t buckets) (usage_at-merge t bucket w)

-- Usage `v` is `u` with these sums and peaks.
abbrev IsSum : Usage → Usage → ℕ → ℕ → ℕ → ℕ → Type 0
IsSum u v c b m s =
    (v.cpu_instructions ≡ min (u.cpu_instructions + c) u64_max)
    × (v.bandwidth_bytes ≡ min (u.bandwidth_bytes + b) u64_max)
    × (v.memory_bytes ≡ max u.memory_bytes m)
    × (v.storage_bytes ≡ max u.storage_bytes s)

-- Usage `v` is `u` with these buckets of a tenant.
abbrev pub IsTotal : String → List MeteringBucket → Usage → Usage → Type 0
IsTotal t buckets u v =
    IsSum u v (sum_for t (λ b. b.cpu_instructions) buckets)
      (sum_for t (λ b. b.bandwidth_bytes) buckets) (peak_for t (λ b. b.memory_bytes) buckets)
      (peak_for t (λ b. b.storage_bytes) buckets)

abbrev Fits : Usage → Type 0
Fits u = (u.cpu_instructions ≤ u64_max) × (u.bandwidth_bytes ≤ u64_max)

combined-Fits :
    (same : Bool) (bucket : MeteringBucket) (u : Usage)
    → Fits u
    → Fits (if same then combined bucket u else u)
unfolding add_counters merge_gauges
combined-Fits true bucket u h = (omega arith, omega arith)
combined-Fits false bucket u h = h

combined-IsSum :
    (same : Bool) (bucket : MeteringBucket) (u v : Usage) (c b m s : ℕ)
    → Fits u
    → IsSum (if same then combined bucket u else u) v c b m s
    → IsSum u v
        (if same then bucket.cpu_instructions + c else c)
        (if same then bucket.bandwidth_bytes + b else b)
        (if same then max bucket.memory_bytes m else m)
        (if same then max bucket.storage_bytes s else s)
unfolding add_counters merge_gauges
combined-IsSum true bucket u v c b m s h (i, j, k, l) =
    (omega (arith, i), omega (arith, j), omega (arith, k), omega (arith, l))
combined-IsSum false bucket u v c b m s h k = k

after-IsTotal :
    (t : String) (buckets : List MeteringBucket) (u : Usage)
    → Fits u
    → IsTotal t buckets u (after t buckets u)
unfolding after sum_for peak_for
after-IsTotal t [] u (h, k) = (omega (arith, h), omega (arith, k), omega arith, omega arith)
after-IsTotal t (bucket ∷ buckets) u h = combined-IsSum (bucket.tenant == t) bucket u _ _ _ _ _ h (
    after-IsTotal t buckets (if bucket.tenant == t then combined bucket u else u)
      (combined-Fits (bucket.tenant == t) bucket u h))

-- What the window holds of a tenant whose counters fit their words, after some buckets in some
-- order: the counters are the sums over the tenant's buckets up to the largest word, and the gauges
-- the peaks.
pub merge_all-IsTotal :
    (t : String) (buckets : List MeteringBucket) (w : RollingWindow)
    → (usage_at t w).cpu_instructions ≤ u64_max
    → (usage_at t w).bandwidth_bytes ≤ u64_max
    → IsTotal t buckets (usage_at t w) (usage_at t (merge_all buckets w))
merge_all-IsTotal t buckets w h k =
    rw (usage_at-merge_all t buckets w) (after-IsTotal t buckets (usage_at t w) (h, k))
