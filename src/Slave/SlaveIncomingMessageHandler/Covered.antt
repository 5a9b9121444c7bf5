-- ===== src/Slave/SlaveIncomingMessageHandler/Covered.antt =====
-- The tablets of a slave under the messages of src/slave/SlaveIncomingMessageHandler.cc.
use universal_db.Base.{ℕ, ◌∙◌, List, [], ◌∷◌, All}
use universal_db.Base.Eq.{nat_eq}
use universal_db.Base.Result.{Result, ok, ◌>>=◌, Ensures, Ensures-ok, Ensures-bind}
use universal_db.Net.EndpointId.{EndpointId}
use universal_db.Net.IncomingMessage.{IncomingMessage}
use universal_db.Paxos.Log.Keeping.{Holds, set_entry-Holds}
use universal_db.Paxos.Multi.Placed.{ProvidesPlaced}
use universal_db.Paxos.Single.{SinglePaxosHandler}
use universal_db.Slave.SlaveIncomingMessageHandler.{SlaveServer, handle}
use universal_db.Server.KeySpaceRange.{KeySpaceRange, range_eq}
use universal_db.Slave.SlaveKeySpaceManager.{SlaveState}
use universal_db.Slave.SlaveIncomingMessageHandler.Tablets.{
  HasTablets, slave_callbacks, message-has, invoke-HasTablets,
}
use universal_db.Slave.SlaveIncomingMessageHandler.Keeping.{MessageNarrow, Keeps, handle-Keeps}

-- The instances stand under their indices, the log has the callbacks, and each range of the key
-- space has a tablet.
abbrev pub IsCovered : {P : Type 0} → (KeySpaceRange → P) → List EndpointId → SlaveServer P → Type 0
IsCovered tp_provider masters = Keeps (Holds HasTablets (slave_callbacks tp_provider masters))

module _ {P : Type 0} (tp_provider : KeySpaceRange → P) (masters : List EndpointId)
    (queue_message : IncomingMessage → P → P)
    (instance_provider : ℕ → SlaveState P → Result SinglePaxosHandler)
    (provides : ProvidesPlaced instance_provider) where
  handle-IsCovered :
      (incoming : IncomingMessage) (s : SlaveServer P)
      → MessageNarrow incoming.message
      → IsCovered tp_provider masters s
      → Ensures (IsCovered tp_provider masters) (handle queue_message instance_provider incoming s)
  handle-IsCovered incoming s w v =
      handle-Keeps queue_message instance_provider provides
        (Holds HasTablets (slave_callbacks tp_provider masters))
        (λ index entry l s _.
          set_entry-Holds HasTablets (slave_callbacks tp_provider masters)
            (invoke-HasTablets tp_provider masters) index entry l s)
        (λ _. Unit {0})
        (λ incoming l s _ q. (
          q.0,
          λ range c.
              message-has queue_message incoming.endpoint_id incoming.message s.participants range
              ∙ q.1 range c,
        ))
        incoming.endpoint_id incoming.message s w tt v

-- The messages that come in at a slave, one after the other.
unfoldable pub handle_all :
    {P : Type 0}
    → (IncomingMessage → P → P)
    → (ℕ → SlaveState P → Result SinglePaxosHandler)
    → List IncomingMessage
    → SlaveServer P
    → Result (SlaveServer P)
handle_all queue_message instance_provider [] s = ok s
handle_all queue_message instance_provider (m ∷ ms) s =
    handle queue_message instance_provider m s >>= λ s'.
    handle_all queue_message instance_provider ms s'

-- A slave whose log has the callback of SlaveKeySpaceManager has a tablet for each range of its
-- key space, and this stays so under all messages that its handler takes, in any order, unless
-- something throws. The indices in messages are those of a uint32, and the instances that are
-- provided have the index that is asked for.
pub slave_handle_all-IsCovered :
    {P : Type 0}
    → (tp_provider : KeySpaceRange → P) (masters : List EndpointId)
      (queue_message : IncomingMessage → P → P)
      (instance_provider : ℕ → SlaveState P → Result SinglePaxosHandler) (ms : List IncomingMessage)
      (s : SlaveServer P)
    → ProvidesPlaced instance_provider
    → All (λ m. MessageNarrow m.message) ms
    → IsCovered tp_provider masters s
    → Ensures (IsCovered tp_provider masters) (handle_all queue_message instance_provider ms s)
unfolding handle_all
slave_handle_all-IsCovered tp_provider masters queue_message instance_provider [] s provides w v = v
slave_handle_all-IsCovered tp_provider masters queue_message instance_provider (m ∷ ms) s provides w
      v =
    Ensures-bind _ (handle queue_message instance_provider m s) _ λ s' e.
      slave_handle_all-IsCovered tp_provider masters queue_message instance_provider ms s' provides
        w.1
        (Ensures-ok (IsCovered tp_provider masters) (handle queue_message instance_provider m s)
          (handle-IsCovered tp_provider masters queue_message instance_provider provides m s w.0 v)
          e)
