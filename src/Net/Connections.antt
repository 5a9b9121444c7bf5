-- ===== src/Net/Connections.antt =====
-- Connections of src/net/Connections.h and Connections.cc: the channels of a node by the endpoints
-- at their other ends. A channel (src/net/Channel.h) is an interface: its queue of messages is
-- modelled, `M` is what it carries.
pub mod Delivery
mod Tests
use universal_db.Base.{Bool, Option, none, some, List, [], ◌∷◌, ◌++◌, map}
use universal_db.Base.Assoc.{find, has, insert, assign, remove}
use universal_db.Base.Result.{Result, ok, thrown, assertion}
use universal_db.Net.EndpointId.{EndpointId, endpoint_eq}
use universal_db.Net.Sent.{Sent}
use universal_db.Net.Sent

-- The messages that `queue_send` was given, in order.
abbrev pub Channels : Type 0 → Type 0
Channels M = List (EndpointId × List M)

module _ {M : Type 0} where
  unfoldable pub queue_send : EndpointId → M → List M → Channels M → Channels M
  queue_send endpoint_id message queue channels =
      assign endpoint_id (queue ++ message ∷ []) channels

  -- A channel to an endpoint that has one already is dropped.
  unfoldable pub add_channel : EndpointId → Channels M → Channels M
  add_channel endpoint_id channels = insert endpoint_id [] channels

  -- The close callback.
  unfoldable pub close_channel : EndpointId → Channels M → Result (Channels M)
  close_channel endpoint_id channels = elim (find endpoint_id channels) [
    | none ↦ thrown assertion
    | some _ ↦ ok (remove endpoint_id channels)
  ]

  unfoldable pub get_channel : EndpointId → Channels M → Option (List M)
  get_channel endpoint_id channels = find endpoint_id channels

  unfoldable pub send : EndpointId → M → Channels M → Channels M
  unfolding queue_send
  send endpoint_id message channels = elim (find endpoint_id channels) [
    | none ↦ channels
    | some queue ↦ queue_send endpoint_id message queue channels
  ]

  -- The loop over the endpoints: its body is that of `send`.
  unfoldable pub broadcast : List EndpointId → M → Channels M → Channels M
  unfolding send
  broadcast [] message channels = channels
  broadcast (endpoint ∷ endpoints) message channels =
      broadcast endpoints message (send endpoint message channels)

  unfoldable pub get_all_endpoints : Channels M → List EndpointId
  get_all_endpoints channels = map (λ c. c.0) channels

  unfoldable pub has_channel : EndpointId → Channels M → Bool
  has_channel endpoint_id channels = has endpoint_id channels

  -- The calls that a handler makes, in order.
  unfoldable pub deliver : List (Sent M) → Channels M → Channels M
  unfolding send broadcast
  deliver [] channels = channels
  deliver (Sent.broadcast endpoints message ∷ sent) channels =
      deliver sent (broadcast endpoints message channels)
  deliver (Sent.send endpoint message ∷ sent) channels =
      deliver sent (send endpoint message channels)
