-- ===== src/Slave/IncomingMessageHandler/Replica.antt =====
-- A tablet as a replica: its state under the messages of src/slave/IncomingMessageHandler.cc.
use universal_db.Base.{ℕ, List, [], ◌∷◌, All}
use universal_db.Base.Result.{Result, ok, ◌>>=◌, Ensures, Ensures-ok, Ensures-bind}
use universal_db.Net.IncomingMessage.{IncomingMessage}
use universal_db.Paxos.Multi.Placed.{AllPlaced, ProvidesPlaced}
use universal_db.Paxos.Multi.Derived.{IsDerived}
use universal_db.Paxos.Single.{SinglePaxosHandler}
use universal_db.Slave.ClientRequestHandler.{TabletState}
use universal_db.Slave.IncomingMessageHandler.{TabletServer, handle}
use universal_db.Paxos.Multi.Derived.{set_entry-IsDerived}
use universal_db.Slave.IncomingMessageHandler.Keeping.{MessageNarrow, handle_wrapper-Keeps}

-- The instances stand under their indices, the log is well formed, and the state is what its callbacks make of
-- its contiguous entries.
abbrev pub IsReplica : TabletState → TabletServer → Type 0
IsReplica start t = AllPlaced t.tablet.multi × IsDerived start t.tablet.log t.tablet.state

-- The messages that come in at a tablet, one after the other.
unfoldable pub handle_all :
    (ℕ → TabletState → Result SinglePaxosHandler)
    → List IncomingMessage
    → TabletServer
    → Result TabletServer
handle_all instance_provider [] t = ok t
handle_all instance_provider (m ∷ ms) t =
    handle instance_provider m t >>= λ t'. handle_all instance_provider ms t'

-- A tablet stays a replica under all messages that its handler takes, Paxos messages, requests
-- and responses of syncing and requests of clients, in any order and with no task run between
-- them: unless something throws, its log stays well formed and its key-value store and its
-- request ids stay what the callbacks make of the contiguous entries of the log. The indices in
-- messages are those of a uint32, and the instances that are provided have the index that
-- is asked for.
pub handle_all-IsReplica :
    (instance_provider : ℕ → TabletState → Result SinglePaxosHandler) (start : TabletState)
    (ms : List IncomingMessage) (t : TabletServer)
    → ProvidesPlaced instance_provider
    → All (λ m. MessageNarrow m.message) ms
    → IsReplica start t
    → Ensures (IsReplica start) (handle_all instance_provider ms t)
unfolding handle_all handle
handle_all-IsReplica instance_provider start [] t provides w v = v
handle_all-IsReplica instance_provider start (m ∷ ms) t provides w v =
    Ensures-bind _ (handle instance_provider m t) _ λ t' e.
      handle_all-IsReplica instance_provider start ms t' provides w.1 (
        Ensures-ok (IsReplica start) (handle instance_provider m t)
          (handle_wrapper-Keeps (IsDerived start) (set_entry-IsDerived start) instance_provider
            provides m.endpoint_id m.message t w.0 v)
          e)
