-- ===== src/Master/Functors.antt =====
-- The functors of src/master/functors.h: the wrappers that a master gives to its components.
use universal_db.Proto.Client.{FindKeyRangeResponse, find_key_range_response}
use universal_db.Proto.Paxos.{PaxosMessage}
use universal_db.Proto.Sync.{SyncMessage}
use universal_db.Proto.Wrapper.{MessageWrapper, client_message, master_message}
use universal_db.Proto.Wrapper

-- SendFindKeyRangeResponse
unfoldable pub send_find_key_range_response : FindKeyRangeResponse → MessageWrapper
send_find_key_range_response r = client_message (find_key_range_response r)

-- SendPaxos
unfoldable pub send_paxos : PaxosMessage → MessageWrapper
send_paxos m = master_message (Wrapper.MasterMessage.paxos_message m)

-- SendSync
unfoldable pub send_sync : SyncMessage → MessageWrapper
send_sync m = master_message (Wrapper.MasterMessage.sync_message m)
