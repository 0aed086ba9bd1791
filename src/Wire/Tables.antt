-- ===== src/Wire/Tables.antt =====
-- crates/wire/src/tables.rs: the live table. It publishes its writes to a topic and keeps a map that
-- it projects from what it reads of the topic. Here: the messages, the records and the map.
use selium.Base.{
  ℕ, Bool, true, false, not, Option, none, some, [], ◌∷◌, nat_beq, if◌then◌else◌, Eq, nat_eq, take,
  saturating_add,
}
use selium.Base.Map.{Map, lookup, insert}

pub record LiveTableMessage (K V : Type 0) : Type 0 where
  pub mutation_id : ℕ
  pub key : K
  pub value : Option V
  pub expected_version : Option ℕ

pub record LiveTableRecord (V : Type 0) : Type 0 where
  pub value : Option V
  pub version : ℕ

pub data ApplyOutcome : Type 0 where
  applied deleted : ℕ → ApplyOutcome
  conflict : Option ℕ → ApplyOutcome

-- `Option::map(|record| record.version)`, and `unwrap_or(0)`
abbrev pub version_of : {V : Type 0} → Option (LiveTableRecord V) → Option ℕ
version_of none = none
version_of (some entry) = some entry.version

abbrev pub or_zero : Option ℕ → ℕ
or_zero none = 0
or_zero (some n) = n

-- Whether the version in the map is the one that a message expects.
abbrev pub is_expected : Option ℕ → ℕ → Bool
is_expected none actual = true
is_expected (some expected) actual = nat_beq actual expected

abbrev pub outcome_of : {V : Type 0} → Option V → ℕ → ApplyOutcome
outcome_of none version = deleted version
outcome_of (some value) version = applied version

abbrev pub Local : Type 0 → Type 0 → Type 0
Local K V = Map K (LiveTableRecord V)

abbrev pub value_of : {V : Type 0} → Option (LiveTableRecord V) → Option V
value_of none = none
value_of (some entry) = entry.value

abbrev pub is_live : {A : Type 0} → Option A → Bool
is_live none = false
is_live (some a) = true

module _ {K V : Type 0} ⦃e : Eq K⦄ where
  unfoldable pub apply_message_to : Local K V → LiveTableMessage K V → ApplyOutcome × Local K V
  apply_message_to local msg =
      let found = version_of (lookup msg.key local) in
      let version = saturating_add (or_zero found) 1 in
      if not (is_expected msg.expected_version (or_zero found)) then (conflict found, local) else (
        outcome_of msg.value version,
        insert msg.key (record { value = msg.value; version = version }) local,
      )

  -- `get`, `get_version` and `scan`, from the local map.
  unfoldable pub get : K → Local K V → Option V
  get key local = value_of (lookup key local)

  unfoldable pub get_version : K → Local K V → Option ℕ
  get_version key local = version_of (lookup key local)

  live_entries : Local K V → Local K V
  live_entries [] = []
  live_entries ((key, entry) ∷ entries) =
      let rest = live_entries entries in if is_live entry.value then (key, entry) ∷ rest else rest

  unfoldable pub scan_entries : Local K V → ℕ → Local K V
  unfolding live_entries
  scan_entries local limit = take limit (live_entries local)
