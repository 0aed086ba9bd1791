-- ===== src/Wire/LiveTable/Exclusion.antt =====
-- crates/wire/src/tables.rs: of two tables that compare and set one version of a key.
use mathlib.Core.Path.{subst}
use selium.Base.{
  ℕ, ◌≤◌, ◌<◌, true, Option, some, List, [], ◌∷◌, ◌++◌, ◌≡◌, ◌≢◌, refl, sym, ap, ◌∙◌, arith,
  Bool-cases, inl, inr, if◌then◌else◌, Eq, nat_beq, nat_beq_iff, saturating_add, u64_max,
}
use selium.Base.Exec.{Result, ok, continue, continue-eq-ok, pure, raise, ◌>>◌}
use selium.Shm.Error.{Error, cas_conflict}
use selium.Wire.LiveTable.{Shared, Op, sync, attempt, overtake, compare_and_set}
use selium.Wire.LiveTable.Races.{all_foreign, all_foreign-append, attempt-applied, own_message}
use selium.Wire.LiveTable.Replica.{replay_from, replay_from-append}
use selium.Wire.LiveTable.Steps.{IsReplica, IsReplica-grown, sync-IsReplica}
use selium.Wire.LiveTable.Versions.{version_at, applied_lem, replay_from-version_at}
use selium.Wire.Tables.{LiveTableMessage, apply_message_to, get_version, get, or_zero}
use selium.Wire.Topic.{Frame}

-- The table that has read what the topic held, when others have written further.
abbrev pub overtaken :
    {K V Payload : Type 0} → List (Frame Payload) → Shared K V Payload → Shared K V Payload
overtaken racing s = record s { topic = s.topic ++ racing }

module _ {K V Payload : Type 0} ⦃e : Eq K⦄ (encode : LiveTableMessage K V → Payload)
    (decode : Payload → Option (LiveTableMessage K V))
    (write : List (Frame Payload) → Result Error (Unit {0}))
    (lossless : (msg : LiveTableMessage K V) → decode (encode msg) ≡ some msg) where
  compare_and_set-attempt :
      (key : K) (expected version : ℕ) (value : V) (racing : List (Frame Payload))
      (s s' : Shared K V Payload)
      → compare_and_set encode decode write key expected value racing s ≡ (ok version, s')
      → attempt encode decode write key expected value (overtaken racing ((sync decode s).1))
        ≡ (ok version, s')
  unfolding compare_and_set overtake
  compare_and_set-attempt key expected version value racing s s' h =
      let behind : Unit → Op K V Payload ℕ = λ _ t.
        let actual = get_version key t.local in
        continue
          ((if nat_beq (or_zero actual) expected
              then pure tt
              else raise (cas_conflict expected actual))
            t)
          (λ _. overtake racing >> attempt encode decode write key expected value) in
      let (_, t, synced, told) = continue-eq-ok (sync decode s) behind version s' h in
      let read : (sync decode s).1 ≡ t = ap (λ p. p.1) synced in
      let behind_check : attempt encode decode write key expected value (overtaken racing t)
          ≡ (ok version, s') =
        elim (Bool-cases (nat_beq (or_zero (get_version key t.local)) expected)) [
          | inl same ↦ rw same at told
          | inr other ↦ let refused = rw other at told in cc
        ] in
      subst
        (λ (u : Shared K V Payload).
          attempt encode decode write key expected value (overtaken racing u) ≡ (ok version, s'))
        (sym read) behind_check

  -- The topic and the publisher are those before the sync.
  pub overtaken-IsReplica :
      (racing : List (Frame Payload)) (s : Shared K V Payload)
      → IsReplica decode s
      → IsReplica decode (overtaken racing ((sync decode s).1))
  overtaken-IsReplica racing s v = IsReplica-grown decode racing (sync-IsReplica decode s v)

  overtaken-topic :
      (racing : List (Frame Payload)) (s : Shared K V Payload)
      → (overtaken racing ((sync decode s).1)).topic ≡ s.topic ++ racing
  unfolding sync
  overtaken-topic racing s = refl

  -- A compare_and_set that reports a version found the expected version of the key at the end of the
  -- topic, behind what others wrote after its check. It reports the next version, its write follows
  -- at once in the topic, and the table holds what a replay of the topic makes, with the written
  -- value under the key at the reported version. The table has read a part of the topic, messages
  -- decode to what was encoded, and no frame carries the writer id with the next mutation id.
  pub compare_and_set-applied :
      (key : K) (expected version : ℕ) (value : V) (racing : List (Frame Payload))
      (s s' : Shared K V Payload)
      → IsReplica decode s
      → all_foreign decode s.publisher.next_mutation_id s.publisher.writer_id (s.topic ++ racing)
        ≡ true
      → compare_and_set encode decode write key expected value racing s ≡ (ok version, s')
      → (version_at key (replay_from decode [] (s.topic ++ racing)) ≡ expected)
        × (version ≡ saturating_add expected 1)
        × (s'.topic
            ≡ (s.topic ++ racing)
              ++ (encode (own_message s key value expected), s.publisher.writer_id) ∷ [])
        × (s'.local ≡ replay_from decode [] s'.topic)
        × (get key s'.local ≡ some value)
        × (get_version key s'.local ≡ some version)
  unfolding sync replay_from
  compare_and_set-applied key expected version value racing s s' v f h =
      let t = overtaken racing ((sync decode s).1) in
      let w = overtaken-IsReplica racing s v in
      let unread =
        all_foreign-append decode s.publisher.next_mutation_id s.publisher.writer_id w.seen w.unread
          (rw w.splits at f) in
      let msg = own_message s key value expected in
      let before = replay_from decode [] (s.topic ++ racing) in
      let (topic, outcome, local) =
        attempt-applied encode decode write lossless key expected version value t s' w unread
          (compare_and_set-attempt key expected version value racing s s' h) in
      let (fits, next, known, held) = applied_lem before msg version outcome in
      let found : version_at key before ≡ expected =
        (nat_beq_iff (version_at key before) expected).0 fits in
      let replayed : replay_from decode []
            ((s.topic ++ racing) ++ (encode msg, s.publisher.writer_id) ∷ [])
          ≡ (apply_message_to before msg).1 =
        replay_from-append decode [] (s.topic ++ racing) ((encode msg, s.publisher.writer_id) ∷ [])
        ∙ rw (replay_from, lossless msg) refl in
      (
        found,
        next ∙ ap (λ n. saturating_add n 1) found,
        topic,
        local ∙ sym replayed ∙ ap (replay_from decode []) (sym topic),
        ap (get key) local ∙ held,
        ap (get_version key) local ∙ known,
      )

  -- Two tables on a topic cannot both report a version for the same key and expected version: behind
  -- a compare_and_set that did, one whose topic goes on from there reports none, however its check
  -- and the two writes were interleaved. The expected version is below the largest word; both tables
  -- have read a part of the topic, messages decode to what was encoded, and no frame carries the
  -- writer id of a table with its next mutation id.
  pub compare_and_set-excludes :
      (key : K) (expected version : ℕ) (value value' : V)
      (racing racing' more : List (Frame Payload)) (s s' t t' : Shared K V Payload)
      → IsReplica decode s
      → IsReplica decode t
      → all_foreign decode s.publisher.next_mutation_id s.publisher.writer_id (s.topic ++ racing)
        ≡ true
      → all_foreign decode t.publisher.next_mutation_id t.publisher.writer_id (t.topic ++ racing')
        ≡ true
      → expected < u64_max
      → compare_and_set encode decode write key expected value racing s ≡ (ok version, s')
      → t.topic ++ racing' ≡ s'.topic ++ more
      → (version' : ℕ)
      → compare_and_set encode decode write key expected value' racing' t ≢ (ok version', t')
  unfolding replay_from get_version
  compare_and_set-excludes key expected version value value' racing racing' more s s' t t' v w f g
        small h shared version' k =
      let (found, next, topic, local, held, known) =
        compare_and_set-applied key expected version value racing s s' v f h in
      let (again, _, _, _, _, _) =
        compare_and_set-applied key expected version' value' racing' t t' w g k in
      let at : version_at key s'.local ≡ version = ap or_zero known in
      let before : version_at key (replay_from decode [] (s.topic ++ racing)) ≡ expected = found in
      let fits : version_at key s'.local ≤ u64_max = omega (arith, at, next) in
      let up = (replay_from-version_at decode key s'.local more fits).0 in
      let whole : replay_from decode [] (t.topic ++ racing') ≡ replay_from decode s'.local more =
        ap (replay_from decode []) shared
        ∙ replay_from-append decode [] s'.topic more
        ∙ ap (λ l. replay_from decode l more) (sym local) in
      let same : version_at key (replay_from decode s'.local more) ≡ expected =
        ap (version_at key) (sym whole) ∙ again in
      omega (arith, at, next, up, same)
