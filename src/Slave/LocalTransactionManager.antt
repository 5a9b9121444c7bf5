-- ===== src/Slave/LocalTransactionManager.antt =====
-- LocalTransactionManager of src/slave/LocalTransactionManager.h and LocalTransactionManager.cc: a
-- slave as it is built, with its tablets, and what happens at it. Each tablet works on a thread of
-- its own: a message that is passed on to it waits in the queue of its scheduler.
pub mod Tablets
pub mod Covered
mod Tests
use universal_db.Base.{ℕ, ◌+◌, Option, none, some, List, [], ◌∷◌, ◌++◌}
use universal_db.Base.Assoc.{find, assign}
use universal_db.Base.Result.{Result, ok, ◌>>=◌}
use universal_db.Net.EndpointId.{EndpointId}
use universal_db.Net.IncomingMessage.{IncomingMessage}
use universal_db.Net.Sent.{wrap_all}
use universal_db.Async.Queue.{new_queue, fire}
use universal_db.Paxos.Config.{new_config_manager, on_reconfig_started, latest_config}
use universal_db.Paxos.Log.{PaxosLog, Callback, new_log, add_callback}
use universal_db.Paxos.Provider.{provide}
use universal_db.Paxos.Single.{SinglePaxosHandler}
use universal_db.Server.FailureDetector.{send_heartbeat}
use universal_db.Server.KeySpaceRange.{KeySpaceRange, range_eq}
use universal_db.Server.LogSyncer.{sync}
use universal_db.Slave.Functors.{send_paxos, send_sync}
use universal_db.Slave.IncomingMessageHandler.{TabletServer}
use universal_db.Slave.SlaveIncomingMessageHandler.{SlaveServer, handle}
use universal_db.Slave.SlaveKeySpaceManager.{SlaveState, register, change_task}
use universal_db.Slave.TabletParticipant
use universal_db.Slave.TabletParticipant.{new_participant}

-- A tablet with the messages that wait in its scheduler.
pub record Participant : Type 0 where
  pub server : TabletServer
  pub inbox : List IncomingMessage

-- AsyncScheduler::queue_message of the tablet.
unfoldable pub queue_message : IncomingMessage → Participant → Participant
queue_message incoming p = record p { inbox = p.inbox ++ incoming ∷ [] }

-- The TPProvider; `endpoints` is what `get_all_endpoints` of the slave connections returns.
unfoldable pub tp_provider : List EndpointId → KeySpaceRange → Participant
tp_provider endpoints range = record { server = new_participant range endpoints; inbox = [] }

-- The callback of PaxosConfigManager.
unfoldable pub on_reconfig : Callback (SlaveState Participant)
on_reconfig =
    on_reconfig_started (λ s. s.paxos_config_manager) (λ m s. record s { paxos_config_manager = m })

-- The constructor. 6 is kReconfigStarted.
unfoldable pub slave_log : List EndpointId → List EndpointId → PaxosLog (SlaveState Participant)
unfolding on_reconfig
slave_log endpoints masters =
    register (tp_provider endpoints) masters (add_callback 6 on_reconfig new_log)

unfoldable pub new_slave :
    List EndpointId → List EndpointId → List EndpointId → SlaveServer Participant
unfolding slave_log
new_slave config_endpoints endpoints masters = record {
  node = record {
    multi = record { paxos_instances = [] };
    log = slave_log endpoints masters;
    state = record {
      paxos_config_manager = new_config_manager 0 config_endpoints;
      key_space = record { ranges = []; generation = 0 };
      participants = record { tp_map = [] };
      replies = [];
    };
    drawn = 0;
    sent = [];
  };
  heartbeat_count = [];
  async_queue = new_queue;
  out = [];
  responses = [];
}

-- What the schedulers and the timers of the slave and of its tablets call.
pub data Event : Type 0 where
  message : IncomingMessage → Event
  queue_timer : Event
  sync_timer : Event
  heartbeat_timer : Event
  tablet_message : KeySpaceRange → Event
  tablet_queue_timer : KeySpaceRange → Event
  tablet_sync_timer : KeySpaceRange → Event

-- Something happens at the tablet of a range.
unfoldable pub at_tablet :
    KeySpaceRange
    → (Participant → Result Participant)
    → SlaveServer Participant
    → Result (SlaveServer Participant)
at_tablet range call s = elim (find range s.node.state.participants.tp_map) [
  | none ↦ ok s
  | some p ↦ call p >>= λ p'. ok (record s {
    node = record s.node {
      state = record s.node.state {
        participants = record { tp_map = assign range p' s.node.state.participants.tp_map };
      };
    };
  })
]

module _ (num_slave_servers : ℕ) (random : ℕ → ℕ) (tablet_random : KeySpaceRange → ℕ → ℕ) where
  unfoldable pub instance_provider : ℕ → SlaveState Participant → Result SinglePaxosHandler
  instance_provider = provide num_slave_servers (λ s. s.paxos_config_manager)

  -- An event at the tablet itself.
  unfoldable pub tablet_step :
      KeySpaceRange → TabletParticipant.Event → Participant → Result Participant
  tablet_step range e p =
      TabletParticipant.step num_slave_servers (tablet_random range) e p.server >>= λ t.
      ok (record p { server = t })

  -- The scheduler of the tablet takes the oldest message.
  unfoldable pub take_message : KeySpaceRange → Participant → Result Participant
  unfolding tablet_step
  take_message range p = elim p.inbox [
    | [] ↦ ok p
    | m ∷ ms ↦ tablet_step range (TabletParticipant.message m) (record p { inbox = ms })
  ]

  unfoldable pub run_queue : SlaveServer Participant → Result (SlaveServer Participant)
  unfolding instance_provider
  run_queue s =
      fire (change_task instance_provider random) s.async_queue (record s.node { sent = [] })
      >>= λ r.
          ok (record s {
            async_queue = r.0;
            node = r.1;
            out = s.out ++ wrap_all send_paxos r.1.sent;
          })

  -- The repeated jobs of LogSyncer and of FailureDetector.
  unfoldable pub run_sync : SlaveServer Participant → Result (SlaveServer Participant)
  run_sync s = do
    endpoints ← latest_config s.node.state.paxos_config_manager
    sent ← sync endpoints s.node.log
    ok (record s { out = s.out ++ wrap_all send_sync sent })

  unfoldable pub run_heartbeat : SlaveServer Participant → Result (SlaveServer Participant)
  run_heartbeat s = do
    endpoints ← latest_config s.node.state.paxos_config_manager
    let r = send_heartbeat endpoints s.heartbeat_count
    ok (record s { heartbeat_count = r.0; out = s.out ++ r.1 })

  unfoldable pub step : Event → SlaveServer Participant → Result (SlaveServer Participant)
  unfolding run_queue run_sync run_heartbeat at_tablet take_message
  step (message incoming) s = handle queue_message instance_provider incoming s
  step queue_timer s = run_queue s
  step sync_timer s = run_sync s
  step heartbeat_timer s = run_heartbeat s
  step (tablet_message range) s = at_tablet range (take_message range) s
  step (tablet_queue_timer range) s =
      at_tablet range (tablet_step range TabletParticipant.queue_timer) s
  step (tablet_sync_timer range) s =
      at_tablet range (tablet_step range TabletParticipant.sync_timer) s

  unfoldable pub run : List Event → SlaveServer Participant → Result (SlaveServer Participant)
  unfolding step
  run [] s = ok s
  run (e ∷ es) s = step e s >>= λ s'. run es s'
