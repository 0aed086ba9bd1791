-- ===== src/Wire/LiveTable/Replica.antt =====
-- crates/wire/src/tables.rs: the map of a live table and the topic that it is projected from.
use selium.Base.{
  ℕ, ◌+◌, Option, none, some, List, [], ◌∷◌, ◌++◌, ◌≡◌, refl, ap, arith, Bool-cases, Option-cases,
  inl, inr, Eq, length,
}
use selium.Wire.LiveTable.{drain, drain_until, is_own}
use selium.Wire.Tables.{LiveTableMessage, Local, apply_message_to}
use selium.Wire.Topic.{Frame}

module _ {K V Payload : Type 0} ⦃e : Eq K⦄ (decode : Payload → Option (LiveTableMessage K V)) where
  -- The map that the messages of some frames make of another, in their order. A frame that does not
  -- decode is passed over.
  unfoldable pub replay_from : Local K V → List (Frame Payload) → Local K V
  replay_from local [] = local
  replay_from local ((payload, tag) ∷ frames) = elim (decode payload) [
    | none ↦ replay_from local frames
    | some msg ↦ replay_from (apply_message_to local msg).1 frames
  ]

  pub replay_from-append :
      (local : Local K V) (before behind : List (Frame Payload))
      → replay_from local (before ++ behind) ≡ replay_from (replay_from local before) behind
  unfolding replay_from
  replay_from-append local [] behind = refl
  replay_from-append local ((payload, tag) ∷ before) behind = elim (Option-cases (decode payload)) [
    | inl garbled ↦ rw (replay_from, garbled) (replay_from-append local before behind)
    | inr (msg, read) ↦
        rw (replay_from, read) (replay_from-append (apply_message_to local msg).1 before behind)
  ]

  -- Some reads of unread frames: they took a first part of them and projected it.
  pub record Took (unread : List (Frame Payload)) (position : ℕ) (local : Local K V) (position' : ℕ)
      (local' : Local K V) : Type 0 where
    pub read : List (Frame Payload)
    pub rest : List (Frame Payload)
    pub splits : unread ≡ read ++ rest
    pub moved : position' ≡ position + length read
    pub projected : local' ≡ replay_from local read

  pub Took-nothing :
      (unread : List (Frame Payload)) (position : ℕ) (local : Local K V)
      → Took unread position local position local
  unfolding replay_from
  Took-nothing unread position local = record {
    read = [];
    rest = unread;
    splits = refl;
    moved = omega arith;
    projected = refl;
  }

  pub Took-garbled :
      (payload : Payload) (tag : ℕ) (unread : List (Frame Payload)) (position position' : ℕ)
      (local local' : Local K V)
      → decode payload ≡ none
      → Took unread (position + 1) local position' local'
      → Took ((payload, tag) ∷ unread) position local position' local'
  unfolding replay_from
  Took-garbled payload tag unread position position' local local' garbled t = record {
    read = (payload, tag) ∷ t.read;
    rest = t.rest;
    splits = ap (λ l. (payload, tag) ∷ l) t.splits;
    moved = omega (arith, t.moved);
    projected = rw (replay_from, garbled) t.projected;
  }

  pub Took-message :
      (payload : Payload) (tag : ℕ) (msg : LiveTableMessage K V) (unread : List (Frame Payload))
      (position position' : ℕ) (local local' : Local K V)
      → decode payload ≡ some msg
      → Took unread (position + 1) (apply_message_to local msg).1 position' local'
      → Took ((payload, tag) ∷ unread) position local position' local'
  unfolding replay_from
  Took-message payload tag msg unread position position' local local' read t = record {
    read = (payload, tag) ∷ t.read;
    rest = t.rest;
    splits = ap (λ l. (payload, tag) ∷ l) t.splits;
    moved = omega (arith, t.moved);
    projected = rw (replay_from, read) t.projected;
  }

  pub drain-Took :
      (unread : List (Frame Payload)) (position : ℕ) (local : Local K V)
      → let r = drain decode unread position local in Took unread position local (r.1) (r.2)
  unfolding drain
  drain-Took [] position local = Took-nothing [] position local
  drain-Took ((payload, tag) ∷ unread) position local = elim (Option-cases (decode payload)) [
    | inl garbled ↦
        rw (drain, garbled)
          (Took-garbled payload tag unread position (position + 1) local local garbled
            (Took-nothing unread (position + 1) local))
    | inr (msg, read) ↦
        rw (drain, read)
          (Took-message payload tag msg unread position _ local _ read
            (drain-Took unread (position + 1) (apply_message_to local msg).1))
  ]

  pub drain_until-Took :
      (id own : ℕ) (unread : List (Frame Payload)) (position : ℕ) (local : Local K V)
      → let r = drain_until decode id own unread position local in
        Took unread position local (r.1) (r.2)
  unfolding drain_until
  drain_until-Took id own [] position local = Took-nothing [] position local
  drain_until-Took id own ((payload, tag) ∷ unread) position local =
      elim (Option-cases (decode payload)) [
        | inl garbled ↦
            rw (drain_until, garbled)
              (Took-garbled payload tag unread position (position + 1) local local garbled
                (Took-nothing unread (position + 1) local))
        | inr (msg, read) ↦
            let local' = (apply_message_to local msg).1 in
            elim (Bool-cases (is_own id own tag msg)) [
              | inl same ↦
                  rw (drain_until, read, same)
                    (Took-message payload tag msg unread position _ local _ read
                      (Took-nothing unread (position + 1) local'))
              | inr other ↦
                  rw (drain_until, read, other)
                    (Took-message payload tag msg unread position _ local _ read
                      (drain_until-Took id own unread (position + 1) local'))
            ]
      ]
