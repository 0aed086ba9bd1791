-- ===== src/Wire/LiveTable/Success.antt =====
-- crates/wire/src/tables.rs: when `compare_and_set` goes through.
use selium.Base.{
  ℕ, ◌+◌, Bool, true, false, ◌&&◌, Option, some, List, [], ◌∷◌, ◌++◌, ◌≡◌, refl, ap, ◌∙◌,
  Option-cases, inl, inr, if◌then◌else◌, Eq, and_left, and_right, both, nat_beq, nat_beq_refl,
  nat_beq_iff, saturating_add,
}
use selium.Base.Exec.{Result, ok, err, Exec, continue, pure, raise, ◌>>◌}
use selium.Shm.Error.{Error, cas_conflict}
use selium.Wire.LiveTable.{
  Shared, ready, drain, drain_until, is_own, sync, poll_own_mutation, sync_until_own_mutation,
  publish, publish_mutation, allocate, attempt, overtake, compare_and_set, Op,
}
use selium.Wire.LiveTable.Exclusion.{overtaken, overtaken-IsReplica}
use selium.Wire.LiveTable.Races.{all_foreign, all_foreign-append, own_message, not-eq-true}
use selium.Wire.LiveTable.Replica.{replay_from}
use selium.Wire.LiveTable.Steps.{IsReplica, unread_of, unread-grown, replay_from-unread}
use selium.Wire.LiveTable.Versions.{version_at, applies}
use selium.Wire.Tables.{
  LiveTableMessage, applied, Local, apply_message_to, is_live, get_version, or_zero,
}
use selium.Wire.Topic.{Frame, allocate_mutation_id}

continue-ok :
    {S E A B : Type 0} (r : Result E A × S) (f : A → Exec S E B) (a : A)
    → r.0 ≡ ok a
    → continue r f ≡ f a (r.1)
continue-ok (ok b, s) f a h = let same : b ≡ a = cc in ap (λ c. f c s) same
continue-ok (err x, s) f a h = cc

module _ {K V Payload : Type 0} ⦃e : Eq K⦄ (decode : Payload → Option (LiveTableMessage K V)) where
  -- Every frame decodes.
  abbrev pub all_read : List (Frame Payload) → Bool
  all_read [] = true
  all_read ((payload, tag) ∷ frames) = is_live (decode payload) && all_read frames

  all_read-append :
      (before behind : List (Frame Payload))
      → all_read (before ++ behind) ≡ true
      → all_read behind ≡ true
  all_read-append [] behind h = h
  all_read-append ((payload, tag) ∷ before) behind h =
      all_read-append before behind (and_right (is_live (decode payload)) _ h)

  drain-all_read :
      (unread : List (Frame Payload)) (position : ℕ) (local : Local K V)
      → all_read unread ≡ true
      → ((drain decode unread position local).0 ≡ ok tt)
        × ((drain decode unread position local).2 ≡ replay_from decode local unread)
  unfolding drain replay_from
  drain-all_read [] position local h = (refl, refl)
  drain-all_read ((payload, tag) ∷ unread) position local h = elim (Option-cases (decode payload)) [
    | inl garbled ↦ let refused = rw garbled at h in cc
    | inr (msg, read) ↦
        rw (drain, replay_from, read)
          (drain-all_read unread (position + 1) (apply_message_to local msg).1
            (and_right (is_live (decode payload)) _ h))
  ]

  drain_until-all_read :
      (id own : ℕ) (payload : Payload) (tag : ℕ) (msg : LiveTableMessage K V)
      (unread : List (Frame Payload)) (position : ℕ) (local : Local K V)
      → decode payload ≡ some msg
      → is_own id own tag msg ≡ true
      → all_foreign decode id own unread ≡ true
      → all_read unread ≡ true
      → (drain_until decode id own (unread ++ (payload, tag) ∷ []) position local).0
        ≡ ready (ok (apply_message_to (replay_from decode local unread) msg).0)
  unfolding drain_until replay_from
  drain_until-all_read id own payload tag msg [] position local d o f h =
      rw (drain_until, d, o) refl
  drain_until-all_read id own payload tag msg ((other, from) ∷ unread) position local d o f h =
      elim (Option-cases (decode other)) [
        | inl garbled ↦ let refused = rw garbled at h in cc
        | inr (their, read) ↦
            let strange : is_own id own from their ≡ false =
              not-eq-true _ (and_left _ (all_foreign decode id own unread) (rw read at f)) in
            rw (drain_until, replay_from, read, strange)
              (drain_until-all_read id own payload tag msg unread (position + 1)
                (apply_message_to local their).1 d o
                (and_right _ (all_foreign decode id own unread) (rw read at f))
                (and_right (is_live (decode other)) _ h))
      ]

module _ {K V Payload : Type 0} ⦃e : Eq K⦄ (encode : LiveTableMessage K V → Payload)
    (decode : Payload → Option (LiveTableMessage K V))
    (write : List (Frame Payload) → Result Error (Unit {0}))
    (lossless : (msg : LiveTableMessage K V) → decode (encode msg) ≡ some msg) where
  attempt-succeeds :
      (key : K) (expected : ℕ) (value : V) (t : Shared K V Payload) (w : IsReplica decode t)
      → all_foreign decode t.publisher.next_mutation_id t.publisher.writer_id w.unread ≡ true
      → all_read decode w.unread ≡ true
      → write t.topic ≡ ok tt
      → version_at key (replay_from decode [] t.topic) ≡ expected
      → (attempt encode decode write key expected value t).0 ≡ ok (saturating_add expected 1)
  unfolding attempt publish_mutation publish allocate sync_until_own_mutation poll_own_mutation
      allocate_mutation_id
  attempt-succeeds key expected value t w f r taken current =
      let msg = own_message t key value expected in
      let own : Payload × ℕ = (encode msg, t.publisher.writer_id) in
      let found =
        drain_until-all_read decode t.publisher.next_mutation_id t.publisher.writer_id (encode msg)
          t.publisher.writer_id msg w.unread t.position t.local (lossless msg)
          (both _ _ (nat_beq_refl t.publisher.writer_id)
            (nat_beq_refl t.publisher.next_mutation_id))
          f r in
      let fits =
        (nat_beq_iff (version_at key (replay_from decode [] t.topic)) expected).1 current in
      let outcome =
        applies (replay_from decode [] t.topic) msg value fits refl
        ∙ ap (λ n. applied (saturating_add n 1)) current in
      rw (taken, unread-grown decode (own ∷ []) w, found, replay_from-unread decode w, outcome) refl

  sync-all_read :
      (s : Shared K V Payload) (v : IsReplica decode s)
      → all_read decode s.topic ≡ true
      → ((sync decode s).0 ≡ ok tt) × (((sync decode s).1).local ≡ replay_from decode [] s.topic)
  unfolding sync
  sync-all_read s v r =
      let unread = unread_of decode v in
      let (fine, whole) =
        drain-all_read decode v.unread s.position s.local
          (all_read-append decode v.seen v.unread (rw v.splits at r)) in
      rw unread (fine, whole ∙ replay_from-unread decode v)

  -- A compare_and_set goes through where the table has read a part of the topic, every frame decodes,
  -- the version of the key is the expected one at its check and still is behind what others wrote
  -- since, and the transport takes the write. Messages decode to what was encoded, and no frame
  -- carries the writer id with the next mutation id.
  pub compare_and_set-succeeds :
      (key : K) (expected : ℕ) (value : V) (racing : List (Frame Payload)) (s : Shared K V Payload)
      → IsReplica decode s
      → all_read decode (s.topic ++ racing) ≡ true
      → all_read decode s.topic ≡ true
      → all_foreign decode s.publisher.next_mutation_id s.publisher.writer_id (s.topic ++ racing)
        ≡ true
      → version_at key (replay_from decode [] s.topic) ≡ expected
      → version_at key (replay_from decode [] (s.topic ++ racing)) ≡ expected
      → write (s.topic ++ racing) ≡ ok tt
      → (compare_and_set encode decode write key expected value racing s).0
        ≡ ok (saturating_add expected 1)
  unfolding compare_and_set overtake sync get_version
  compare_and_set-succeeds key expected value racing s v r q f at_check behind taken =
      let w = overtaken-IsReplica encode decode write lossless racing s v in
      let (fine, whole) = sync-all_read s v q in
      let fits : nat_beq (or_zero (get_version key ((sync decode s).1).local)) expected ≡ true =
        (nat_beq_iff _ expected).1 (ap (version_at key) whole ∙ at_check) in
      let steps : Unit → Op K V Payload ℕ = λ _ t.
        let actual = get_version key t.local in
        continue
          ((if nat_beq (or_zero actual) expected
              then pure tt
              else raise (cas_conflict expected actual))
            t)
          (λ _. overtake racing >> attempt encode decode write key expected value) in
      ap (λ p. p.0) (continue-ok (sync decode s) steps tt fine)
      ∙ rw fits (
          attempt-succeeds key expected value (overtaken racing ((sync decode s).1)) w
            (all_foreign-append decode s.publisher.next_mutation_id s.publisher.writer_id w.seen
              w.unread (rw w.splits at f))
            (all_read-append decode w.seen w.unread (rw w.splits at r)) taken behind)
