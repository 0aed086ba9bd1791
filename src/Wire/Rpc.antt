-- ===== src/Wire/Rpc.antt =====
-- crates/wire/src/rpc.rs: requests and replies over a pair of transports. What a client can read of
-- the replies is the inbox below: the frames that it has not read, the generation of the ring they
-- stand in, and whether the peer has gone. The encoding of requests and replies is a parameter.
pub mod Replies
pub mod Parked
use selium.Base.{
  ℕ, zero, suc, ◌+◌, ◌%◌, ◌^◌, Bool, true, false, not, Option, none, some, List, [], ◌∷◌, ◌++◌,
  nat_beq, if◌then◌else◌,
}
use selium.Base.Exec.{Result, ok, err}
use selium.Shm.Error.{Error, invalid_layout, connection_lost, channel_closed, terminated}
use selium.Wire.LiveTable.{Poll, ready, pending}
use selium.Wire.Topic.{Frame}

pub data RpcError : Type 0 where
  connection_closed invalid_region layout_mismatch buffer_full buffer_empty serialization remote :
      RpcError

-- `From<Error> for RpcError`
unfoldable pub from_error : Error → RpcError
from_error Error.buffer_full = RpcError.buffer_full
from_error Error.buffer_empty = RpcError.buffer_empty
from_error invalid_layout = RpcError.invalid_region
from_error Error.invalid_region = RpcError.invalid_region
from_error connection_lost = connection_closed
from_error channel_closed = connection_closed
from_error terminated = connection_closed
from_error _ = serialization

pub record Inbox (Payload : Type 0) : Type 0 where
  pub unread : List (Frame Payload)
  pub generation : ℕ
  pub peer_closed : Bool

pub record RpcClient : Type 0 where
  pub next_correlation : ℕ

-- `RpcClient::new`
abbrev pub new_client : RpcClient
new_client = record { next_correlation = 1 }

-- What a client writes for a request: its frame.
unfoldable pub send_request :
    {Req Payload : Type 0} → (Req → Payload) → Req → RpcClient → Frame Payload × RpcClient
send_request encode payload client = (
  (encode payload, client.next_correlation),
  record { next_correlation = (client.next_correlation + 1) % 2 ^ 32 },
)

-- `RpcRequest`: the payload and the correlation that its reply is written under.
pub record RpcRequest (Payload : Type 0) : Type 0 where
  pub payload_bytes : Payload
  pub correlation : ℕ

-- `recv`, of a request that stands at the head of the transport
unfoldable pub recv :
    {Payload : Type 0} → List (Frame Payload) → Option (RpcRequest Payload × List (Frame Payload))
recv [] = none
recv ((payload, tag) ∷ frames) =
    some (record { payload_bytes = payload; correlation = tag }, frames)

abbrev pub decoded : {A : Type 0} → Option A → Result RpcError A
decoded none = err serialization
decoded (some a) = ok a

-- `payload` and `reply`
unfoldable pub payload_of :
    {Req Payload : Type 0} → (Payload → Option Req) → RpcRequest Payload → Result RpcError Req
payload_of decode request = decoded (decode request.payload_bytes)

unfoldable pub reply :
    {Rep Payload : Type 0} → (Rep → Payload) → RpcRequest Payload → Rep → Frame Payload
reply encode request response = (encode response, request.correlation)

abbrev pub go_on :
    {A Payload : Type 0}
    → Poll A × ℕ × Inbox Payload
    → (ℕ → Inbox Payload → Poll A × ℕ × Inbox Payload)
    → Poll A × ℕ × Inbox Payload
go_on (ready a, last, inbox) rest = (ready a, last, inbox)
go_on (pending, last, inbox) rest = rest last inbox

module _ {Rep Payload : Type 0} (decode : Payload → Option Rep) (correlation : ℕ) where
  -- `await_reply_via_waker`, on what the socket has delivered; a closed socket ends the frames.
  unfoldable pub await_reply_via_waker :
      List (Frame Payload) → Bool → Poll (Result RpcError Rep) × List (Frame Payload)
  await_reply_via_waker [] true = (ready (err connection_closed), [])
  await_reply_via_waker [] false = (pending, [])
  await_reply_via_waker ((payload, tag) ∷ unread) closed =
      let rest = await_reply_via_waker unread closed in
      if nat_beq tag correlation then (ready (decoded (decode payload)), unread) else rest

  -- `try_read_reply`
  abbrev pub some_reply : Result RpcError Rep → Result RpcError (Option Rep)
  some_reply (ok value) = ok (some value)
  some_reply (err e) = err e

  unfoldable pub try_read_reply :
      List (Frame Payload) → Result RpcError (Option Rep) × List (Frame Payload)
  try_read_reply [] = (ok none, [])
  try_read_reply ((payload, tag) ∷ unread) =
      (if nat_beq tag correlation then some_reply (decoded (decode payload)) else ok none, unread)

  -- One round of the loop of `request` on a ring: a reply, or a wait for the next generation.
  abbrev pub settle : Bool → Result RpcError (Option Rep) → Poll (Result RpcError Rep)
  settle closed (ok (some value)) = ready (ok value)
  settle closed (ok none) = if closed then ready (err connection_closed) else pending
  settle closed (err RpcError.buffer_empty) =
      if closed then ready (err connection_closed) else pending
  settle closed (err e) = ready (err e)

  -- The last generation that the loop has seen comes first.
  unfoldable pub request_round : ℕ → Inbox Payload → Poll (Result RpcError Rep) × ℕ × Inbox Payload
  unfolding try_read_reply
  request_round last inbox =
      let (reply, unread) = try_read_reply inbox.unread in
      if nat_beq inbox.generation last
      then (settle inbox.peer_closed (ok none), last, inbox)
      else (settle inbox.peer_closed reply, inbox.generation, record inbox { unread = unread })

  -- The rounds that spurious wakes give the loop: it leaves them with a result, or goes on.
  unfoldable pub request_rounds :
      ℕ → ℕ → Inbox Payload → Poll (Result RpcError Rep) × ℕ × Inbox Payload
  request_rounds zero last inbox = request_round last inbox
  request_rounds (suc wakes) last inbox = go_on (request_round last inbox) (request_rounds wakes)
