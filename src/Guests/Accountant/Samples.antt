-- ===== src/Guests/Accountant/Samples.antt =====
-- guests/accountant/src/lib.rs `reduce_samples`: the bookkeeper's buckets from the cumulative
-- counters of the processes.
pub mod Counted
pub mod Deltas
use selium.Base.{
  ℕ, ◌-◌, String, Option, none, some, List, [], ◌∷◌, ◌≡◌, Eq, nat_eq, string_eq, ◌==◌,
}
use selium.Base.Map.{Map, lookup, insert}
use selium.Kernel.Processes.{MeteringObservation}
use selium.Guests.Accountant.{Usage, no_usage, add_counters, merge_gauges}
use selium.Guests.Accountant.Windows.{usage_or}

pub record CumulativeCounters : Type 0 where
  pub cpu_instructions : ℕ
  pub bandwidth_bytes : ℕ

pub record ProcessSample : Type 0 where
  pub process_id : ℕ
  pub tenant : Option String
  pub observation : MeteringObservation

abbrev pub counters_or : Option CumulativeCounters → CumulativeCounters
counters_or none = record { cpu_instructions = 0; bandwidth_bytes = 0 }
counters_or (some counters) = counters

-- The retained counters of the processes, and the buckets of the tenants.
abbrev pub Reduced : Type 0
Reduced = Map ℕ CumulativeCounters × Map String Usage

-- What a sample adds to the bucket of its tenant.
abbrev pub added : MeteringObservation → CumulativeCounters → Usage → Usage
added observation last bucket =
    merge_gauges
      (add_counters bucket (record no_usage {
        cpu_instructions = observation.cpu_instructions - last.cpu_instructions;
        bandwidth_bytes = observation.bandwidth_bytes - last.bandwidth_bytes;
      }))
      (record no_usage {
        memory_bytes = observation.memory_bytes;
        storage_bytes = observation.storage_bytes;
      })

-- A process without a known tenant is dropped, and its counters are not retained.
abbrev pub reduce_one : ℕ → Option String → MeteringObservation → Reduced → Reduced
reduce_one process_id none observation (last_counters, buckets) = (last_counters, buckets)
reduce_one process_id (some tenant) observation (last_counters, buckets) = (
  insert process_id
      (record {
        cpu_instructions = observation.cpu_instructions;
        bandwidth_bytes = observation.bandwidth_bytes;
      })
      last_counters,
  insert tenant
      (added observation (counters_or (lookup process_id last_counters))
        (usage_or (lookup tenant buckets)))
      buckets,
)

unfoldable pub reduce_all : List ProcessSample → Reduced → Reduced
reduce_all [] reduced = reduced
reduce_all (sample ∷ samples) reduced =
    reduce_all samples (reduce_one sample.process_id sample.tenant sample.observation reduced)

-- The buckets start empty with every call.
unfoldable pub reduce_samples : List ProcessSample → Map ℕ CumulativeCounters → Reduced
unfolding reduce_all
reduce_samples samples last_counters = reduce_all samples (last_counters, [])
