-- ===== src/Net/Sent.antt =====
-- What a handler asks Connections (src/net/Connections.cc) to send, in the order of the calls.
-- Serialisation is the protobuf library's, so a message stands for its bytes. The wrapper that a
-- component puts around its messages (a function that it is given) is put on by `wrap_all`.
use universal_db.Base.{List, map}
use universal_db.Net.EndpointId.{EndpointId}

pub data Sent (M : Type 0) : Type 0 where
  -- Connections::broadcast
  broadcast : List EndpointId → M → Sent M
  -- Connections::send, and queue_send on the channel of the endpoint
  send : EndpointId → M → Sent M

module _ {M N : Type 0} where
  unfoldable pub wrap_sent : (M → N) → Sent M → Sent N
  wrap_sent wrapper (broadcast endpoints message) = broadcast endpoints (wrapper message)
  wrap_sent wrapper (send endpoint message) = send endpoint (wrapper message)

  unfoldable pub wrap_all : (M → N) → List (Sent M) → List (Sent N)
  unfolding wrap_sent
  wrap_all wrapper = map (wrap_sent wrapper)
