-- ===== src/Wire/LiveTable/Steps.antt =====
-- crates/wire/src/tables.rs: the reads of a live table, as steps of a replica of its topic.
use mathlib.Core.List.{append_assoc}
use selium.Base.{
  ℕ, ◌+◌, Option, List, [], ◌∷◌, ◌++◌, ◌≡◌, sym, ap, ◌∙◌, arith, Option-cases, inl, inr, Eq, length,
  drop, drop-append, length-append,
}
use selium.Base.Exec.{Result, ok, err, continue}
use selium.Shm.Error.{Error}
use selium.Wire.LiveTable.{
  Shared, Op, sync, poll_own_mutation, sync_until_own_mutation, poll_next_message, unread_message,
}
use selium.Wire.LiveTable.Replica.{
  replay_from, replay_from-append, Took, Took-nothing, Took-message, Took-garbled, drain-Took,
  drain_until-Took,
}
use selium.Wire.Tables.{LiveTableMessage, Local, apply_message_to}
use selium.Wire.Topic.{Frame}

module _ {K V Payload : Type 0} ⦃e : Eq K⦄ (decode : Payload → Option (LiveTableMessage K V)) where
  -- The table has read a first part of the topic, and its map is what a replay of that part makes.
  pub record IsReplica (s : Shared K V Payload) : Type 0 where
    pub seen : List (Frame Payload)
    pub unread : List (Frame Payload)
    pub splits : s.topic ≡ seen ++ unread
    pub stands : s.position ≡ length seen
    pub projected : s.local ≡ replay_from decode [] seen

  pub unread_of : {s : Shared K V Payload} (v : IsReplica s) → drop s.position s.topic ≡ v.unread
  unread_of v = rw (v.splits, v.stands) (drop-append v.seen v.unread)

  -- What is not read yet makes the map of the whole topic.
  pub replay_from-unread :
      {s : Shared K V Payload} (v : IsReplica s)
      → replay_from decode s.local v.unread ≡ replay_from decode [] s.topic
  replay_from-unread v =
      ap (λ l. replay_from decode l v.unread) v.projected
      ∙ sym (replay_from-append decode [] v.seen v.unread)
      ∙ ap (replay_from decode []) (sym v.splits)

  pub IsReplica-Took :
      {s : Shared K V Payload} (position' : ℕ) (local' : Local K V)
      → IsReplica s
      → Took decode (drop s.position s.topic) s.position s.local position' local'
      → IsReplica (record s { position = position'; local = local' })
  IsReplica-Took {s} position' local' v t = record {
    seen = v.seen ++ t.read;
    unread = t.rest;
    splits =
        v.splits
        ∙ ap (λ l. v.seen ++ l) (sym (unread_of v) ∙ t.splits)
        ∙ sym (append_assoc v.seen t.read t.rest);
    stands = omega (arith, t.moved, v.stands, length-append v.seen t.read);
    projected =
        t.projected
        ∙ ap (λ l. replay_from decode l t.read) v.projected
        ∙ sym (replay_from-append decode [] v.seen t.read);
  }

  pub IsReplica-grown :
      {s : Shared K V Payload} (frames : List (Frame Payload))
      → IsReplica s
      → IsReplica (record s { topic = s.topic ++ frames })
  IsReplica-grown frames v = record {
    seen = v.seen;
    unread = v.unread ++ frames;
    splits = ap (λ l. l ++ frames) v.splits ∙ append_assoc v.seen v.unread frames;
    stands = v.stands;
    projected = v.projected;
  }

  pub unread-grown :
      {s : Shared K V Payload} (frames : List (Frame Payload)) (v : IsReplica s)
      → drop s.position (s.topic ++ frames) ≡ v.unread ++ frames
  unfolding IsReplica-grown
  unread-grown frames v = unread_of (IsReplica-grown frames v)

  pub continue-IsReplica :
      {A B : Type 0} (r : Result Error A × Shared K V Payload) (f : A → Op K V Payload B)
      → IsReplica (r.1)
      → ((a : A) (s : Shared K V Payload) → IsReplica s → IsReplica ((f a s).1))
      → IsReplica ((continue r f).1)
  continue-IsReplica (ok a, s) f v h = h a s v
  continue-IsReplica (err x, s) f v h = v

  pub sync-IsReplica : (s : Shared K V Payload) → IsReplica s → IsReplica ((sync decode s).1)
  unfolding sync
  sync-IsReplica s v =
      IsReplica-Took _ _ v (drain-Took decode (drop s.position s.topic) s.position s.local)

  pub poll_own_mutation-IsReplica :
      (id own : ℕ) (s : Shared K V Payload)
      → IsReplica s
      → IsReplica ((poll_own_mutation decode id own s).1)
  unfolding poll_own_mutation
  poll_own_mutation-IsReplica id own s v =
      IsReplica-Took _ _ v
        (drain_until-Took decode id own (drop s.position s.topic) s.position s.local)

  pub own-IsReplica :
      (id : ℕ) (s : Shared K V Payload)
      → IsReplica s
      → IsReplica ((sync_until_own_mutation decode id s).1)
  unfolding sync_until_own_mutation
  own-IsReplica id s v = poll_own_mutation-IsReplica id s.publisher.writer_id s v

  unread_message-Took :
      (unread : List (Frame Payload)) (position : ℕ) (local : Local K V)
      → let r = unread_message decode unread position local in
        Took decode unread position local (r.1) (r.2)
  unfolding unread_message
  unread_message-Took [] position local = Took-nothing decode [] position local
  unread_message-Took ((payload, tag) ∷ unread) position local =
      elim (Option-cases (decode payload)) [
        | inl garbled ↦
            rw (unread_message, garbled)
              (Took-garbled decode payload tag unread position (position + 1) local local garbled
                (Took-nothing decode unread (position + 1) local))
        | inr (msg, read) ↦
            rw (unread_message, read)
              (Took-message decode payload tag msg unread position _ local _ read
                (Took-nothing decode unread (position + 1) (apply_message_to local msg).1))
      ]

  pub poll_next_message-IsReplica :
      (s : Shared K V Payload) → IsReplica s → IsReplica ((poll_next_message decode s).1)
  unfolding poll_next_message
  poll_next_message-IsReplica s v =
      IsReplica-Took _ _ v (unread_message-Took (drop s.position s.topic) s.position s.local)
