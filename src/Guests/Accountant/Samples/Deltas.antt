-- ===== src/Guests/Accountant/Samples/Deltas.antt =====
-- guests/accountant/src/lib.rs `reduce_samples`: what the buckets of a tenant hold together, tick by
-- tick, of the counters of its processes.
use selium.Base.{
  ℕ, ◌+◌, ◌-◌, ◌≤◌, min, u64_max, String, Bool, true, false, Option, none, some, List, [], ◌∷◌, ◌≡◌,
  refl, ap, ◌∙◌, arith, nat_eq, string_eq, ◌==◌, if◌then◌else◌,
}
use selium.Base.Map.{Map, lookup, insert, lookup-insert}
use selium.Kernel.Processes.{MeteringObservation}
use selium.Guests.Accountant.{Usage, add_counters, merge_gauges}
use selium.Guests.Accountant.Windows.{usage_or}
use selium.Guests.Accountant.Samples.Counted.{
  is_listed, AreApart, retained, counted, IsRaised, counted-insert,
}
use selium.Guests.Accountant.Samples.{
  CumulativeCounters, ProcessSample, Reduced, counters_or, added, reduce_one, reduce_all,
  reduce_samples,
}

-- The instructions in the bucket of a tenant.
abbrev pub held : String → Map String Usage → ℕ
held t buckets = (usage_or (lookup t buckets)).cpu_instructions

-- A process is sampled under the tenant just where it is one of these; its tenant may be unknown.
abbrev pub IsOwn : String → List ℕ → ℕ → Option String → Type 0
IsOwn t ps p none = Unit
IsOwn t ps p (some u) = (u == t) ≡ is_listed p ps

-- Samples of a tick of which each is so, with a counter that is not below the retained one.
abbrev pub AreSteady : String → List ℕ → List ProcessSample → Reduced → Type 0
AreSteady t ps [] reduced = Unit
AreSteady t ps (sample ∷ samples) reduced =
    IsOwn t ps sample.process_id sample.tenant
    × (retained sample.process_id reduced.0 ≤ sample.observation.cpu_instructions)
    × AreSteady t ps samples (reduce_one sample.process_id sample.tenant sample.observation reduced)

abbrev pub TicksAreSteady :
    String → List ℕ → List (List ProcessSample) → Map ℕ CumulativeCounters → Type 0
TicksAreSteady t ps [] counters = Unit
TicksAreSteady t ps (samples ∷ ticks) counters =
    AreSteady t ps samples (counters, [])
    × TicksAreSteady t ps ticks ((reduce_samples samples counters).0)

-- The instructions in the tenant's buckets over the ticks, and the counters retained in the end.
unfoldable pub ticked :
    String → List (List ProcessSample) → Map ℕ CumulativeCounters → ℕ × Map ℕ CumulativeCounters
ticked t [] counters = (0, counters)
ticked t (samples ∷ ticks) counters =
    let (next, buckets) = reduce_samples samples counters in
    let (sum, last) = ticked t ticks next in (held t buckets + sum, last)

abbrev counters_of_observation : MeteringObservation → CumulativeCounters
counters_of_observation o = record {
  cpu_instructions = o.cpu_instructions;
  bandwidth_bytes = o.bandwidth_bytes;
}

-- The bucket of a tenant behind a sample of a process of a tenant.
held-insert :
    (t u : String) (same : Bool) (o : MeteringObservation) (last : CumulativeCounters)
    (buckets : Map String Usage)
    → (u == t) ≡ same
    → held t (insert u (added o last (usage_or (lookup u buckets))) buckets) ≡ (
        if same
        then min (held t buckets + (o.cpu_instructions - last.cpu_instructions)) u64_max
        else held t buckets)
unfolding add_counters merge_gauges
held-insert t u true o last buckets same =
    let equal : u ≡ t = (string_eq.beq_iff u t).0 same in
    let found : lookup t (insert u (added o last (usage_or (lookup u buckets))) buckets)
        ≡ some (added o last (usage_or (lookup u buckets))) =
      lookup-insert u t (added o last (usage_or (lookup u buckets))) buckets ∙ rw same refl in
    ap (λ b. (usage_or b).cpu_instructions) found
    ∙ ap (λ w. (added o last (usage_or (lookup w buckets))).cpu_instructions) equal
    ∙ omega arith
held-insert t u false o last buckets other =
    let found : lookup t (insert u (added o last (usage_or (lookup u buckets))) buckets)
        ≡ lookup t buckets =
      lookup-insert u t (added o last (usage_or (lookup u buckets))) buckets ∙ rw other refl in
    ap (λ b. (usage_or b).cpu_instructions) found

module _ (t : String) (ps : List ℕ) (apart : AreApart ps) where
  -- A sample makes the sum of the counters of the tenant's processes no smaller, and the bucket of
  -- the tenant rises with the sum.
  one_rises :
      (p : ℕ) (owner : Option String) (o : MeteringObservation) (reduced : Reduced)
      → IsOwn t ps p owner
      → retained p reduced.0 ≤ o.cpu_instructions
      → counted ps reduced.0 ≤ counted ps (reduce_one p owner o reduced).0
  one_rises p none o (counters, buckets) own rising = omega arith
  one_rises p (some u) o (counters, buckets) own rising =
      by_listing (is_listed p ps) (counted-insert p (counters_of_observation o) counters ps apart)
    where
      by_listing :
          (listed : Bool)
          → IsRaised p
              (counters_of_observation o)
              counters
              listed
              (counted ps counters)
              (counted ps (insert p (counters_of_observation o) counters))
          → counted ps counters ≤ counted ps (insert p (counters_of_observation o) counters)
      by_listing true raised = omega (arith, raised, rising)
      by_listing false raised = omega (arith, raised)

  one_held :
      (p : ℕ) (owner : Option String) (o : MeteringObservation) (reduced : Reduced)
      → IsOwn t ps p owner
      → retained p reduced.0 ≤ o.cpu_instructions
      → counted ps (reduce_one p owner o reduced).0 ≤ u64_max
      → held t reduced.1 ≤ counted ps reduced.0
      → held t (reduce_one p owner o reduced).1 + counted ps reduced.0
        ≡ held t reduced.1 + counted ps (reduce_one p owner o reduced).0
  one_held p none o (counters, buckets) own rising fits below = refl
  one_held p (some u) o (counters, buckets) own rising fits below =
      by_listing (is_listed p ps) own
        (counted-insert p (counters_of_observation o) counters ps apart)
    where
      by_listing :
          (listed : Bool)
          → (u == t) ≡ listed
          → IsRaised p
              (counters_of_observation o)
              counters
              listed
              (counted ps counters)
              (counted ps (insert p (counters_of_observation o) counters))
          → held t (reduce_one p (some u) o (counters, buckets)).1 + counted ps counters
            ≡ held t buckets + counted ps (insert p (counters_of_observation o) counters)
      by_listing true same raised =
          let rose = held-insert t u true o (counters_or (lookup p counters)) buckets same in
          omega (arith, rose, raised, rising, fits, below)
      by_listing false other raised =
          let kept = held-insert t u false o (counters_or (lookup p counters)) buckets other in
          omega (arith, kept, raised)

  all_rise :
      (samples : List ProcessSample) (reduced : Reduced)
      → AreSteady t ps samples reduced
      → counted ps reduced.0 ≤ counted ps (reduce_all samples reduced).0
  unfolding reduce_all
  all_rise [] reduced steady = omega arith
  all_rise (s ∷ samples) reduced (own, rising, steady) =
      let next : Reduced = reduce_one s.process_id s.tenant s.observation reduced in
      omega (
        arith,
        one_rises s.process_id s.tenant s.observation reduced own rising,
        all_rise samples next steady,
      )

  all_held :
      (samples : List ProcessSample) (reduced : Reduced)
      → AreSteady t ps samples reduced
      → counted ps (reduce_all samples reduced).0 ≤ u64_max
      → held t reduced.1 ≤ counted ps reduced.0
      → held t (reduce_all samples reduced).1 + counted ps reduced.0
        ≡ held t reduced.1 + counted ps (reduce_all samples reduced).0
  unfolding reduce_all
  all_held [] reduced steady fits below = refl
  all_held (s ∷ samples) reduced (own, rising, steady) fits below =
      let next : Reduced = reduce_one s.process_id s.tenant s.observation reduced in
      let more = all_rise samples next steady in
      let first =
        one_held s.process_id s.tenant s.observation reduced own rising (omega (arith, more, fits))
          below in
      let rest = all_held samples next steady fits (
        omega (
          arith,
          first,
          below,
          one_rises s.process_id s.tenant s.observation reduced own rising,
        )) in
      omega (arith, first, rest)

  ticks_rise :
      (ticks : List (List ProcessSample)) (counters : Map ℕ CumulativeCounters)
      → TicksAreSteady t ps ticks counters
      → counted ps counters ≤ counted ps (ticked t ticks counters).1
  unfolding ticked reduce_samples
  ticks_rise [] counters steady = omega arith
  ticks_rise (samples ∷ ticks) counters (steady, later) = omega (
    arith,
    all_rise samples (counters, []) steady,
    ticks_rise ticks (reduce_samples samples counters).0 later,
  )

  -- Over any ticks, each with samples of any processes in any order, the buckets of a tenant hold
  -- together what the retained instruction counters of its processes rose by together, whatever
  -- ticks a process misses: nothing is counted twice and nothing is lost. The processes listed for
  -- the tenant are different ones, and a sample whose tenant is known is under this tenant just
  -- where its process is listed; no counter falls, and their sum in the end fits a u64.
  pub ticked-counted :
      (ticks : List (List ProcessSample)) (counters : Map ℕ CumulativeCounters)
      → TicksAreSteady t ps ticks counters
      → counted ps (ticked t ticks counters).1 ≤ u64_max
      → (ticked t ticks counters).0 + counted ps counters ≡ counted ps (ticked t ticks counters).1
  unfolding ticked reduce_samples lookup
  ticked-counted [] counters steady fits = omega arith
  ticked-counted (samples ∷ ticks) counters (steady, later) fits =
      let next = (reduce_samples samples counters).0 in
      let bucket =
        all_held samples (counters, []) steady (omega (arith, ticks_rise ticks next later, fits))
          (omega arith) in
      omega (arith, bucket, ticked-counted ticks next later fits)
