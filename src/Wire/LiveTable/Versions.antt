-- ===== src/Wire/LiveTable/Versions.antt =====
-- crates/wire/src/tables.rs: the versions that a live table gives to its records.
use selium.Base.{
  ℕ, ◌≤◌, true, false, Option, none, some, List, [], ◌∷◌, ◌≡◌, refl, sym, ap, ◌∙◌, arith, inl, inr,
  Bool-cases, Option-cases, if◌then◌else◌, Eq, ◌==◌, saturating_add, u64_max,
}
use selium.Base.Map.{lookup, insert, lookup-insert, eq_self}
use selium.Wire.LiveTable.Replica.{replay_from}
use selium.Wire.Tables.{
  LiveTableMessage, ApplyOutcome, applied, conflict, Local, version_of, or_zero, is_expected,
  outcome_of, apply_message_to, get_version, get,
}
use selium.Wire.Topic.{Frame}

applied_version :
    {V : Type 0} (value : Option V) (n version : ℕ)
    → outcome_of value n ≡ applied version
    → version ≡ n
applied_version none n version h = cc
applied_version (some value) n version h = cc

module _ {K V : Type 0} ⦃e : Eq K⦄ where
  -- The version of a key, 0 for none.
  abbrev pub version_at : K → Local K V → ℕ
  version_at key local = or_zero (version_of (lookup key local))

  -- What `apply_message_to` makes of a message that it does not refuse.
  abbrev accepted : Local K V → LiveTableMessage K V → ApplyOutcome × Local K V
  accepted local msg =
      let version = saturating_add (version_at msg.key local) 1 in
      (
        outcome_of msg.value version,
        insert msg.key (record { value = msg.value; version = version }) local,
      )

  accepted_lem :
      (local : Local K V) (msg : LiveTableMessage K V)
      → is_expected msg.expected_version (version_at msg.key local) ≡ true
      → apply_message_to local msg ≡ accepted local msg
  unfolding apply_message_to
  accepted_lem local msg h = rw (apply_message_to, h) refl

  refused_lem :
      (local : Local K V) (msg : LiveTableMessage K V)
      → is_expected msg.expected_version (version_at msg.key local) ≡ false
      → apply_message_to local msg ≡ (conflict (version_of (lookup msg.key local)), local)
  unfolding apply_message_to
  refused_lem local msg h = rw (apply_message_to, h) refl

  lookup-accepted :
      (key : K) (local : Local K V) (msg : LiveTableMessage K V)
      → lookup key ((accepted local msg).1) ≡ (
          if msg.key == key
          then some
              (record { value = msg.value; version = saturating_add (version_at msg.key local) 1 })
          else lookup key local)
  lookup-accepted key local msg = lookup-insert msg.key key _ local

  pub applied_lem :
      (local : Local K V) (msg : LiveTableMessage K V) (version : ℕ)
      → (apply_message_to local msg).0 ≡ applied version
      → (is_expected msg.expected_version (version_at msg.key local) ≡ true)
        × (version ≡ saturating_add (version_at msg.key local) 1)
        × (get_version msg.key ((apply_message_to local msg).1) ≡ some version)
        × (get msg.key ((apply_message_to local msg).1) ≡ msg.value)
  unfolding apply_message_to get get_version
  applied_lem local msg version h =
      elim (Bool-cases (is_expected msg.expected_version (version_at msg.key local))) [
        | inl fits ↦
            let whole = accepted_lem local msg fits in
            let is_version : version ≡ saturating_add (version_at msg.key local) 1 =
              applied_version msg.value _ version (rw whole at h) in
            let found = rw (eq_self msg.key) at (lookup-accepted msg.key local msg) in
            (
              fits,
              is_version,
              rw whole (rw found (ap some (sym is_version))),
              rw whole (rw found refl),
            )
        | inr other ↦ let refused = rw (refused_lem local msg other) at h in cc
      ]

  -- A message with a value that finds the version it expects is applied.
  pub applies :
      (local : Local K V) (msg : LiveTableMessage K V) (value : V)
      → is_expected msg.expected_version (version_at msg.key local) ≡ true
      → msg.value ≡ some value
      → (apply_message_to local msg).0 ≡ applied (saturating_add (version_at msg.key local) 1)
  applies local msg value h k = ap (λ p. p.0) (accepted_lem local msg h) ∙ rw k refl

  pub apply_message_to-version_at :
      (key : K) (local : Local K V) (msg : LiveTableMessage K V)
      → version_at key local ≤ u64_max
      → (version_at key local ≤ version_at key ((apply_message_to local msg).1))
        × (version_at key ((apply_message_to local msg).1) ≤ u64_max)
  unfolding apply_message_to
  apply_message_to-version_at key local msg h =
      elim (Bool-cases (is_expected msg.expected_version (version_at msg.key local))) [
        | inl fits ↦
            let found = lookup-accepted key local msg in
            rw (accepted_lem local msg fits) (rw found (ground (arith, e.beq_iff msg.key key)))
        | inr other ↦ rw (refused_lem local msg other) (omega arith, h)
      ]

  module _ {Payload : Type 0} (decode : Payload → Option (LiveTableMessage K V)) where
    -- A replay lowers no version.
    pub replay_from-version_at :
        (key : K) (local : Local K V) (frames : List (Frame Payload))
        → version_at key local ≤ u64_max
        → (version_at key local ≤ version_at key (replay_from decode local frames))
          × (version_at key (replay_from decode local frames) ≤ u64_max)
    unfolding replay_from
    replay_from-version_at key local [] h = (omega arith, h)
    replay_from-version_at key local ((payload, tag) ∷ frames) h =
        elim (Option-cases (decode payload)) [
          | inl garbled ↦ rw (replay_from, garbled) (replay_from-version_at key local frames h)
          | inr (msg, read) ↦
              let (up, fits) = apply_message_to-version_at key local msg h in
              let (more, small) =
                replay_from-version_at key (apply_message_to local msg).1 frames fits in
              rw (replay_from, read) (omega (arith, up, more), small)
        ]
