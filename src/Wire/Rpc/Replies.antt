-- ===== src/Wire/Rpc/Replies.antt =====
-- crates/wire/src/rpc.rs `await_reply_via_waker`: the reply that a client gets from a server over a
-- transport without a ring.
use selium.Base.{
  ℕ, ◌+◌, ◌%◌, ◌^◌, ◌<◌, false, Option, none, some, List, [], ◌∷◌, ◌++◌, ◌≡◌, refl, ◌∙◌, arith,
  nat_beq, nat_beq_refl, length,
}
use selium.Base.Exec.{Result, ok, err}
use selium.Wire.LiveTable.{ready}
use selium.Wire.Rpc.{
  RpcError, RpcClient, RpcRequest, send_request, recv, payload_of, reply, await_reply_via_waker,
}
use selium.Wire.Topic.{Frame}

module _ {Req Payload : Type 0} (encode_request : Req → Payload) where
  -- The frames of several requests, and the client behind them.
  unfoldable pub send_all : List Req → RpcClient → List (Frame Payload) × RpcClient
  unfolding send_request
  send_all [] client = ([], client)
  send_all (payload ∷ payloads) client =
      let (frame, client') = send_request encode_request payload client in
      let (frames, client'') = send_all payloads client' in (frame ∷ frames, client'')

module _ {Req Rep Payload : Type 0} (decode_request : Payload → Option Req)
    (encode_reply : Rep → Payload) (handler : Req → Rep) where
  abbrev answer : RpcRequest Payload → Result RpcError Req → List (Frame Payload)
  answer request (ok payload) = reply encode_reply request (handler payload) ∷ []
  answer request (err e) = []

  -- A server that receives each request and replies to those that decode.
  unfoldable pub serve : List (Frame Payload) → List (Frame Payload)
  unfolding recv payload_of reply
  serve [] = []
  serve (frame ∷ frames) = elim (recv (frame ∷ frames)) [
    | none ↦ []
    | some (request, rest) ↦ answer request (payload_of decode_request request) ++ serve frames
  ]

module _ {Req Rep Payload : Type 0} (encode_request : Req → Payload)
    (decode_request : Payload → Option Req) (encode_reply : Rep → Payload)
    (decode_reply : Payload → Option Rep) (handler : Req → Rep)
    (requests : (payload : Req) → decode_request (encode_request payload) ≡ some payload)
    (replies : (response : Rep) → decode_reply (encode_reply response) ≡ some response) where
  -- The replies of abandoned requests are passed over.
  skipped :
      (abandoned : List Req) (client : RpcClient) (correlation : ℕ) (frames : List (Frame Payload))
      → client.next_correlation < 2 ^ 32
      → length abandoned < 2 ^ 32
      → correlation ≡ (client.next_correlation + length abandoned) % 2 ^ 32
      → await_reply_via_waker decode_reply correlation
          (serve decode_request encode_reply handler ((send_all encode_request abandoned client).0)
            ++ frames)
          false
        ≡ await_reply_via_waker decode_reply correlation frames false
  unfolding serve send_all await_reply_via_waker
  skipped [] client correlation frames small few h = refl
  skipped (payload ∷ payloads) client correlation frames small few h =
      let client' = (send_request encode_request payload client).1 in
      let fits : client'.next_correlation < 2 ^ 32 = omega arith in
      let last : correlation ≡ (client'.next_correlation + length payloads) % 2 ^ 32 =
        omega (arith, h) in
      let other : nat_beq client.next_correlation correlation ≡ false = ground (arith, h) in
      rw (requests payload, other)
        (skipped payloads client' correlation frames fits (omega (arith, few)) last)

  last_client :
      (abandoned : List Req) (client : RpcClient)
      → client.next_correlation < 2 ^ 32
      → ((send_all encode_request abandoned client).1).next_correlation
        ≡ (client.next_correlation + length abandoned) % 2 ^ 32
  unfolding send_all
  last_client [] client small = omega arith
  last_client (payload ∷ payloads) client small =
      let client' = (send_request encode_request payload client).1 in
      let fits : client'.next_correlation < 2 ^ 32 = omega arith in
      omega (arith, last_client payloads client' fits)

  -- The loop for transports without a ring, on a transport that has not closed, gives a request the
  -- reply of the handler to its own payload, behind the replies of fewer than 2 ^ 32 requests that
  -- the client sent before and abandoned; the frames behind its reply stay unread. The correlation
  -- fits its word, and what is encoded decodes.
  pub await_reply-serve :
      (abandoned : List Req) (payload : Req) (client : RpcClient) (later : List (Frame Payload))
      → client.next_correlation < 2 ^ 32
      → length abandoned < 2 ^ 32
      → await_reply_via_waker decode_reply
          ((send_all encode_request abandoned client).1).next_correlation
          (serve decode_request encode_reply handler ((send_all encode_request abandoned client).0)
            ++ (serve decode_request encode_reply handler (
                  (send_request encode_request payload
                    ((send_all encode_request abandoned client).1)).0
                  ∷ [])
                ++ later))
          false
        ≡ (ready (ok (handler payload)), later)
  unfolding serve await_reply_via_waker send_request
  await_reply-serve abandoned payload client later small few =
      let correlation = ((send_all encode_request abandoned client).1).next_correlation in
      skipped abandoned client correlation _ small few (last_client abandoned client small)
      ∙ rw (requests payload, nat_beq_refl correlation, replies (handler payload)) refl
