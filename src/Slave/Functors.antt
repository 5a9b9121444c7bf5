-- ===== src/Slave/Functors.antt =====
-- The functors of src/slave/functors.h, and the wrappers that src/slave/TabletParticipant.cc gives
-- to the components of a tablet.
use universal_db.Proto.Client.{ClientResponse, response}
use universal_db.Proto.Paxos.{PaxosMessage}
use universal_db.Proto.Sync.{SyncMessage}
use universal_db.Proto.Wrapper.{MessageWrapper, client_message, slave_message, tablet_message}
use universal_db.Proto.Wrapper
use universal_db.Server.KeySpaceRange.{KeySpaceRange, build_range}

-- SendPaxos
unfoldable pub send_paxos : PaxosMessage → MessageWrapper
send_paxos m = slave_message (Wrapper.SlaveMessage.paxos_message m)

-- SendSync
unfoldable pub send_sync : SyncMessage → MessageWrapper
send_sync m = slave_message (Wrapper.SlaveMessage.sync_message m)

-- ClientRespond
unfoldable pub client_respond : ClientResponse → MessageWrapper
client_respond r = client_message (response r)

unfoldable pub tablet_paxos : KeySpaceRange → PaxosMessage → MessageWrapper
tablet_paxos tablet_id m =
    tablet_message
      (record { range = build_range tablet_id; content = Wrapper.TabletContent.paxos_message m })

unfoldable pub tablet_sync : KeySpaceRange → SyncMessage → MessageWrapper
tablet_sync tablet_id m =
    tablet_message
      (record { range = build_range tablet_id; content = Wrapper.TabletContent.sync_message m })
