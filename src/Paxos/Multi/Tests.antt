-- ===== src/Paxos/Multi/Tests.antt =====
-- The theorems on an instance under any messages, at two messages.
use universal_db.Base.{ℕ, ◌≡◌, false, refl, List, [], ◌∷◌, arith, to_u32, All}
use universal_db.Base.Result.{ok}
use universal_db.Net.EndpointId.{EndpointId}
use universal_db.Net.Sent.{Sent, broadcast, send}
use universal_db.Proto.Paxos.{PaxosLogEntry, reconfig_finished, not_set, PaxosMessage, PaxosContent}
use universal_db.Proto.Paxos
use universal_db.Paxos.Log.{PaxosLog}
use universal_db.Paxos.Single
use universal_db.Paxos.Single.{SinglePaxosHandler, Setting, new_handler}
use universal_db.Paxos.Multi.{dispatch}
use universal_db.Paxos.Multi.Acceptor.{
  run, promise_kept, IsOrdered, Grows, SentFrom, SentTo, AllAllowed,
}

abbrev peer : EndpointId
peer = record { ip_string = 49 ∷ []; port = 80 }

abbrev fresh : SinglePaxosHandler
fresh = record {
  setting = record { num_slave_servers = 3; paxos_log_index = 4; config_endpoints = peer ∷ [] };
  proposer = record { latest = 0; proposal = []; prepare_state = [] };
  acceptor = record { rnd = 2; vrnd = 0; vval = not_set };
  learner = record { learned = false; learned_value = [] };
}

abbrev accepted : SinglePaxosHandler
accepted = record fresh { acceptor = record { rnd = 6; vrnd = 6; vval = reconfig_finished } }

abbrev log : PaxosLog ℕ
log = record { log = []; available_indices = 0 ∷ []; callbacks = [] }

-- The Prepare message of round 1 comes late.
abbrev messages : List (EndpointId × PaxosContent)
messages =
    (peer, Paxos.prepare (record { rnd = 5 }))
    ∷ (peer, Paxos.accept (record { vrnd = 6; vval = reconfig_finished }))
    ∷ (peer, Paxos.prepare (record { rnd = 1 }))
    ∷ []

abbrev sent : List (Sent PaxosMessage)
sent =
    send peer (record {
      paxos_index = 4;
      content = Paxos.promise (record { rnd = 5; vrnd = 0; vval = not_set });
    })
    ∷ broadcast (peer ∷ []) (record {
      paxos_index = 4;
      content = Paxos.learn (record { vrnd = 6; vval = reconfig_finished });
    })
    ∷ []

messages-run : run messages fresh log 3 ≡ ok (accepted, log, 3, sent)
unfolding run dispatch Single.prepare Single.accept Single.message_of to_u32
messages-run = refl

promise_kept_example :
    IsOrdered accepted.acceptor
    × Grows fresh.acceptor accepted.acceptor
    × All (SentFrom fresh.acceptor) sent
    × All (SentTo accepted.acceptor) sent
    × AllAllowed sent
promise_kept_example =
    promise_kept messages fresh accepted log log 3 3 sent (omega arith) messages-run
