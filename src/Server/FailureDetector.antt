-- ===== src/Server/FailureDetector.antt =====
-- FailureDetector of src/server/FailureDetector.h and FailureDetector.cc: the repeated job that sends
-- heartbeats and ends a period of the HeartbeatTracker.
use universal_db.Base.{List, [], ◌∷◌}
use universal_db.Net.EndpointId.{EndpointId}
use universal_db.Net.Sent.{Sent, broadcast}
use universal_db.Proto.Wrapper.{MessageWrapper, slave_message, heartbeat}
use universal_db.Server.HeartbeatTracker.{Counts, increment_counts}

-- `_message`, which the constructor builds.
abbrev pub heartbeat_message : MessageWrapper
heartbeat_message = slave_message heartbeat

-- The job; `endpoints` is what `_get_endpoints` returns.
unfoldable pub send_heartbeat : List EndpointId → Counts → Counts × List (Sent MessageWrapper)
send_heartbeat endpoints counts =
    (increment_counts counts, broadcast endpoints heartbeat_message ∷ [])
