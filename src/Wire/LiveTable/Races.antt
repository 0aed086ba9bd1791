-- ===== src/Wire/LiveTable/Races.antt =====
-- crates/wire/src/tables.rs: `compare_and_set` of several tables on one topic.
use selium.Base.{
  ℕ, ◌+◌, Bool, true, false, not, ◌&&◌, Option, none, some, List, [], ◌∷◌, ◌++◌, ◌≡◌, refl, sym, ap,
  ◌∙◌, arith, Option-cases, inl, inr, Eq, and_left, and_right, ◌⊎◌, nat_beq_refl, both,
}
use selium.Base.Exec.{Result, ok, err, continue, continue-eq-ok, lift}
use selium.Shm.Error.{Error}
use selium.Wire.LiveTable.{
  Shared, drain_until, now, is_own, poll_own_mutation, sync_until_own_mutation, publish,
  publish_mutation, allocate, attempt, cas_result,
}
use selium.Wire.LiveTable.Publishing.{message_of}
use selium.Wire.LiveTable.Replica.{replay_from}
use selium.Wire.LiveTable.Steps.{IsReplica, replay_from-unread, unread-grown}
use selium.Wire.Tables.{LiveTableMessage, ApplyOutcome, applied, Local, apply_message_to}
use selium.Wire.Topic.{Frame, allocate_mutation_id}

Result-cases : {E A : Type 0} (r : Result E A) → ((a : A) × (r ≡ ok a)) ⊎ ((x : E) × (r ≡ err x))
Result-cases (ok a) = inl (a, refl)
Result-cases (err x) = inr (x, refl)

abbrev is_foreign : {K V : Type 0} → ℕ → ℕ → ℕ → Option (LiveTableMessage K V) → Bool
is_foreign id own tag none = true
is_foreign id own tag (some msg) = not (is_own id own tag msg)

pub not-eq-true : (b : Bool) → not b ≡ true → b ≡ false
not-eq-true true h = cc
not-eq-true false h = refl

module _ {K V Payload : Type 0} ⦃e : Eq K⦄ (decode : Payload → Option (LiveTableMessage K V)) where
  -- No frame is one that a publisher wrote under a mutation id.
  abbrev pub all_foreign : ℕ → ℕ → List (Frame Payload) → Bool
  all_foreign id own [] = true
  all_foreign id own ((payload, tag) ∷ frames) =
      is_foreign id own tag (decode payload) && all_foreign id own frames

  pub all_foreign-append :
      (id own : ℕ) (before behind : List (Frame Payload))
      → all_foreign id own (before ++ behind) ≡ true
      → all_foreign id own behind ≡ true
  all_foreign-append id own [] behind h = h
  all_foreign-append id own ((payload, tag) ∷ before) behind h =
      all_foreign-append id own before behind
        (and_right (is_foreign id own tag (decode payload)) _ h)

  -- The loop ends at the own frame behind foreign ones.
  drain_until-own :
      (id own : ℕ) (payload : Payload) (tag : ℕ) (msg : LiveTableMessage K V)
      (outcome : ApplyOutcome) (unread : List (Frame Payload)) (position : ℕ) (local : Local K V)
      → decode payload ≡ some msg
      → is_own id own tag msg ≡ true
      → all_foreign id own unread ≡ true
      → now ((drain_until decode id own (unread ++ (payload, tag) ∷ []) position local).0)
        ≡ ok outcome
      → (outcome ≡ (apply_message_to (replay_from decode local unread) msg).0)
        × ((drain_until decode id own (unread ++ (payload, tag) ∷ []) position local).2
            ≡ (apply_message_to (replay_from decode local unread) msg).1)
  unfolding drain_until replay_from
  drain_until-own id own payload tag msg outcome [] position local d o f h =
      let given = rw (drain_until, d, o) at h in (cc, rw (drain_until, d, o) refl)
  drain_until-own id own payload tag msg outcome ((other, from) ∷ unread) position local d o f h =
      elim (Option-cases (decode other)) [
        | inl garbled ↦ let refused = rw (drain_until, garbled) at h in cc
        | inr (their, read) ↦
            let strange : is_own id own from their ≡ false =
              not-eq-true _ (and_left _ (all_foreign id own unread) (rw read at f)) in
            rw (drain_until, replay_from, read, strange)
              (drain_until-own id own payload tag msg outcome unread (position + 1)
                (apply_message_to local their).1 d o
                (and_right (is_foreign id own from (decode other)) _ f)
                (rw (drain_until, read, strange) at h))
      ]

-- What `attempt` publishes.
abbrev pub own_message :
    {K V Payload : Type 0} → Shared K V Payload → K → V → ℕ → LiveTableMessage K V
own_message s key value expected =
    message_of key (some value) (some expected) s.publisher.next_mutation_id

-- The outcome that `compare_and_set` reports as a version is that of an applied message.
cas_applied :
    {K V : Type 0} ⦃e : Eq K⦄ (local : Local K V) (key : K) (value : V) (expected id version : ℕ)
    (outcome : ApplyOutcome)
    → outcome ≡ (apply_message_to local (message_of key (some value) (some expected) id)).0
    → cas_result expected outcome ≡ ok version
    → outcome ≡ applied version
unfolding apply_message_to
cas_applied local key value expected id version outcome o h = ground arith

module _ {K V Payload : Type 0} ⦃e : Eq K⦄ (encode : LiveTableMessage K V → Payload)
    (decode : Payload → Option (LiveTableMessage K V))
    (write : List (Frame Payload) → Result Error (Unit {0}))
    (lossless : (msg : LiveTableMessage K V) → decode (encode msg) ≡ some msg) where
  -- The table behind its write.
  abbrev pub published : LiveTableMessage K V → Shared K V Payload → Shared K V Payload
  published msg s = record s {
    publisher = (allocate_mutation_id s.publisher).1;
    topic = s.topic ++ (encode msg, s.publisher.writer_id) ∷ [];
  }

  attempt-published :
      (key : K) (expected version : ℕ) (value : V) (s s' : Shared K V Payload)
      → attempt encode decode write key expected value s ≡ (ok version, s')
      → continue
          (sync_until_own_mutation decode s.publisher.next_mutation_id
            (published (own_message s key value expected) s))
          (λ outcome. lift (cas_result expected outcome))
        ≡ (ok version, s')
  unfolding attempt publish_mutation publish allocate allocate_mutation_id
  attempt-published key expected version value s s' h = elim (Result-cases (write s.topic)) [
    | inl (_, taken) ↦ rw taken at h
    | inr (x, refused) ↦ let failed = rw refused at h in cc
  ]

  -- The table that found its own write: the write was applied to the map of the topic before it.
  settled :
      (key : K) (expected version : ℕ) (value : V) (s s2 : Shared K V Payload)
      (outcome : ApplyOutcome)
      → (v : IsReplica decode s)
      → all_foreign decode s.publisher.next_mutation_id s.publisher.writer_id v.unread ≡ true
      → sync_until_own_mutation decode s.publisher.next_mutation_id
          (published (own_message s key value expected) s)
        ≡ (ok outcome, s2)
      → cas_result expected outcome ≡ ok version
      → (s2.topic
          ≡ s.topic ++ (encode (own_message s key value expected), s.publisher.writer_id) ∷ [])
        × ((apply_message_to (replay_from decode [] s.topic) (own_message s key value expected)).0
            ≡ applied version)
        × (s2.local
            ≡ (apply_message_to
                (replay_from decode [] s.topic)
                (own_message s key value expected)).1)
  unfolding sync_until_own_mutation poll_own_mutation allocate_mutation_id
  settled key expected version value s s2 outcome v f found told =
      let msg = own_message s key value expected in
      let own : Payload × ℕ = (encode msg, s.publisher.writer_id) in
      let unread = unread-grown decode (own ∷ []) v in
      let (told_outcome, moved) =
        drain_until-own decode s.publisher.next_mutation_id s.publisher.writer_id (encode msg)
          s.publisher.writer_id msg outcome v.unread s.position s.local (lossless msg)
          (both _ _ (nat_beq_refl s.publisher.writer_id)
            (nat_beq_refl s.publisher.next_mutation_id))
          f (rw unread at (ap (λ p. p.0) found)) in
      let map : s2.local ≡ (apply_message_to (replay_from decode s.local v.unread) msg).1 =
        sym (rw unread at (ap (λ p. (p.1).local) found)) ∙ moved in
      let base = replay_from-unread decode v in
      let is_applied =
        cas_applied (replay_from decode s.local v.unread) key value expected
          s.publisher.next_mutation_id version outcome told_outcome told in
      (
        sym (ap (λ p. (p.1).topic) found),
        rw base at (sym told_outcome ∙ is_applied),
        rw base at map,
      )

  pub attempt-applied :
      (key : K) (expected version : ℕ) (value : V) (s s' : Shared K V Payload)
      → (v : IsReplica decode s)
      → all_foreign decode s.publisher.next_mutation_id s.publisher.writer_id v.unread ≡ true
      → attempt encode decode write key expected value s ≡ (ok version, s')
      → (s'.topic
          ≡ s.topic ++ (encode (own_message s key value expected), s.publisher.writer_id) ∷ [])
        × ((apply_message_to (replay_from decode [] s.topic) (own_message s key value expected)).0
            ≡ applied version)
        × (s'.local
            ≡ (apply_message_to
                (replay_from decode [] s.topic)
                (own_message s key value expected)).1)
  attempt-applied key expected version value s s' v f h =
      let (outcome, s2, found, told) =
        continue-eq-ok
          (sync_until_own_mutation decode s.publisher.next_mutation_id
            (published (own_message s key value expected) s))
          (λ outcome. lift (cas_result expected outcome)) version s'
          (attempt-published key expected version value s s' h) in
      let (topic, is_applied, map) =
        settled key expected version value s s2 outcome v f found (ap (λ p. p.0) told) in
      let same = ap (λ p. p.1) told in
      (
        sym (ap (λ (t : Shared K V Payload). t.topic) same) ∙ topic,
        is_applied,
        sym (ap (λ (t : Shared K V Payload). t.local) same) ∙ map,
      )
