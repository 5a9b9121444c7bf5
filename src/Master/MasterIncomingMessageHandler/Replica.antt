-- ===== src/Master/MasterIncomingMessageHandler/Replica.antt =====
-- A master as a replica: its state under the messages of
-- src/master/MasterIncomingMessageHandler.cc.
use universal_db.Base.{ℕ, List, [], ◌∷◌, All}
use universal_db.Base.Result.{Result, ok, ◌>>=◌, Ensures, Ensures-ok, Ensures-bind}
use universal_db.Net.IncomingMessage.{IncomingMessage}
use universal_db.Paxos.Multi.Placed.{AllPlaced, ProvidesPlaced}
use universal_db.Paxos.Multi.Derived.{IsDerived}
use universal_db.Paxos.Single.{SinglePaxosHandler}
use universal_db.Master.KeySpaceManager.{MasterState}
use universal_db.Master.MasterIncomingMessageHandler.{MasterServer, handle}
use universal_db.Paxos.Multi.Derived.{set_entry-IsDerived}
use universal_db.Master.MasterIncomingMessageHandler.Keeping.{MessageNarrow, handle_wrapper-Keeps}

-- The instances stand under their indices, the log is well formed, and the state is what its callbacks make of
-- its contiguous entries.
abbrev pub IsReplica : MasterState → MasterServer → Type 0
IsReplica start s = AllPlaced s.node.multi × IsDerived start s.node.log s.node.state

-- The messages that come in at a master, one after the other.
unfoldable pub handle_all :
    (ℕ → MasterState → Result SinglePaxosHandler)
    → List IncomingMessage
    → MasterServer
    → Result MasterServer
handle_all instance_provider [] s = ok s
handle_all instance_provider (m ∷ ms) s =
    handle instance_provider m s >>= λ s'. handle_all instance_provider ms s'

-- A master stays a replica under all messages that its handler takes, in any order and with no
-- task run between them: unless something throws, its log stays well formed, and the ranges of
-- the groups with the announcements to the slaves stay what the callbacks make of the contiguous
-- entries of the log. The indices in messages are those of a uint32, and the instances that are
-- provided have the index that is asked for.
pub master_handle_all-IsReplica :
    (instance_provider : ℕ → MasterState → Result SinglePaxosHandler) (start : MasterState)
    (ms : List IncomingMessage) (s : MasterServer)
    → ProvidesPlaced instance_provider
    → All (λ m. MessageNarrow m.message) ms
    → IsReplica start s
    → Ensures (IsReplica start) (handle_all instance_provider ms s)
unfolding handle_all handle
master_handle_all-IsReplica instance_provider start [] s provides w v = v
master_handle_all-IsReplica instance_provider start (m ∷ ms) s provides w v =
    Ensures-bind _ (handle instance_provider m s) _ λ s' e.
      master_handle_all-IsReplica instance_provider start ms s' provides w.1 (
        Ensures-ok (IsReplica start) (handle instance_provider m s)
          (handle_wrapper-Keeps (IsDerived start) (set_entry-IsDerived start) instance_provider
            provides m.endpoint_id m.message s w.0 v)
          e)
