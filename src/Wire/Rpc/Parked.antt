-- ===== src/Wire/Rpc/Parked.antt =====
-- crates/wire/src/rpc.rs: the loop of `request` on a ring, behind the reply of an abandoned request.
use selium.Base.{ℕ, zero, suc, false, Option, List, ◌∷◌, ◌≡◌, refl, ap, ◌∙◌, nat_beq, nat_beq_refl}
use selium.Wire.LiveTable.{ready, pending}
use selium.Wire.Rpc.{
  Inbox, request_round, request_rounds, go_on, try_read_reply, await_reply_via_waker, decoded,
}
use selium.Wire.Topic.{Frame}

module _ {Rep Payload : Type 0} (decode : Payload → Option Rep) (correlation : ℕ) where
  idle_round :
      (inbox : Inbox Payload)
      → inbox.peer_closed ≡ false
      → request_round decode correlation inbox.generation inbox ≡ (pending, inbox.generation, inbox)
  unfolding request_round
  idle_round inbox open_peer = rw (nat_beq_refl inbox.generation, open_peer) refl

  -- Rounds at the generation that was seen read nothing.
  idle :
      (wakes : ℕ) (inbox : Inbox Payload)
      → inbox.peer_closed ≡ false
      → request_rounds decode correlation wakes inbox.generation inbox
        ≡ (pending, inbox.generation, inbox)
  unfolding request_rounds
  idle zero inbox open_peer = idle_round inbox open_peer
  idle (suc wakes) inbox open_peer =
      ap (λ r. go_on r (request_rounds decode correlation wakes)) (idle_round inbox open_peer)
      ∙ idle wakes inbox open_peer

  -- With the reply of another request before the own one in a ring, the loop reads the first and then
  -- waits, however often it is woken, as long as the generation stays and the peer has not gone; its
  -- reply stays unread, while the loop for sockets gives it from the same frames.
  pub request_rounds-parks :
      (wakes last stale : ℕ) (other own : Payload) (later : List (Frame Payload)) (generation : ℕ)
      → nat_beq generation last ≡ false
      → nat_beq stale correlation ≡ false
      → (request_rounds decode correlation (suc wakes) last (record {
        unread = (other, stale) ∷ (own, correlation) ∷ later;
        generation = generation;
        peer_closed = false;
      })
          ≡ (
            pending,
            generation,
            record {
              unread = (own, correlation) ∷ later;
              generation = generation;
              peer_closed = false;
            },
          ))
        × (await_reply_via_waker decode correlation
              ((other, stale) ∷ (own, correlation) ∷ later)
              false
            ≡ (ready (decoded (decode own)), later))
  unfolding request_rounds request_round try_read_reply await_reply_via_waker
  request_rounds-parks wakes last stale other own later generation moved strange =
      let first : request_round decode correlation last (record {
        unread = (other, stale) ∷ (own, correlation) ∷ later;
        generation = generation;
        peer_closed = false;
      })
          ≡ (
            pending,
            generation,
            record {
              unread = (own, correlation) ∷ later;
              generation = generation;
              peer_closed = false;
            },
          ) =
        rw (moved, strange) refl in
      (
        ap (λ r. go_on r (request_rounds decode correlation wakes)) first
            ∙ idle wakes
                (record {
                  unread = (own, correlation) ∷ later;
                  generation = generation;
                  peer_closed = false;
                })
                refl,
        rw (strange, nat_beq_refl correlation) refl,
      )
