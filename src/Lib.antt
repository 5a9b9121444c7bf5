-- ===== src/Lib.antt =====
-- UniversalDB is a distributed database of master servers and groups of slave servers. A group
-- keeps a replicated log by MultiPaxos, and so does each tablet, a range of the keys, that the
-- slaves of a group hold. A node derives all of its other state from its logs: callbacks are
-- called on the entries in the order of their indices. The parts, with the files that model them:
--
-- - src/proto/*.proto: the messages, records and data types in Proto. A `oneof` has a constructor
--   for the unset case. The wire format is the protobuf library's, so a message stands for its
--   bytes.
-- - src/net: addresses in Net/EndpointId, what is sent in Net/Sent, what comes in in
--   Net/IncomingMessage. A handler returns the list of its calls of Connections::broadcast and
--   Connections::send, in order; Net/Connections has the channels of a node and what these calls
--   do to them, Delivery what each channel gets.
-- - src/paxos/PaxosLog.cc: Paxos/Log. The log, its missing indices, and its callbacks, which are
--   functions on a state `S` that `set_entry` passes on. Indices has the lists of missing
--   indices, Invariant the representation, Delivery what the callbacks see, Keeping what they
--   keep of the state, Replicas what two replicas with parts of one global log have in common.
-- - src/paxos/SinglePaxosHandler.cc: Paxos/Single, one instance of Paxos, with Proposer and
--   Learner. The random number of a proposal is an argument. src/paxos/MultiPaxosHandler.cc:
--   Paxos/Multi, the map of the instances, with Acceptor; Placed has the indices of the
--   instances, Keeping what every entry of the log keeps, Derived the state that the callbacks
--   make of a log, Shadowed a state beside that one. `instance_provider` is a parameter, and
--   Paxos/Provider the one that the nodes give.
-- - src/paxos/PaxosConfigManager.cc: Paxos/Config, the configurations of a group, with Governing.
-- - src/paxos/ProposerQueue.cc: Paxos/ProposerQueue, a queue of tasks that nothing uses. The
--   callbacks of a task are functions on the state. run_task and try_proposal call one another,
--   so try_proposal_then takes the call of run_task as an argument. Runs has runs of a queue,
--   Proposals what is proposed, Waiting what its job waits for.
-- - src/server/LogSyncer.cc: Server/LogSyncer. Request and Response say what the two messages
--   hold, Round what one exchange of them does to a log, Derived what it leaves of the state.
-- - src/server/HeartbeatTracker.cc: Server/HeartbeatTracker. Sorted, Counts, Age and Leader.
-- - src/server/FailureDetector.cc: Server/FailureDetector, the job that sends heartbeats.
-- - src/server/KeySpaceRange.cc: Server/KeySpaceRange.
-- - src/async/AsyncQueue.cc: Async/Queue. A task is data, what its lambda captures, and is called
--   with the state that it works on; Order has runs of a queue, Keeping what its jobs keep.
-- - src/slave/KVStore.cc: Slave/KvStore, the multi-version store of a tablet. Search has the
--   binary search, Invariant the order of the versions, Snapshot repeated reads, Absent reads
--   without a version, Raised stores that differ by what was read.
-- - src/slave/ClientRequestHandler.cc: Slave/ClientRequestHandler. Calls has one call of the task
--   of a request, Attempts its calls one after the other, Duplicate requests that are in the log
--   twice.
-- - src/slave/IncomingMessageHandler.cc: Slave/IncomingMessageHandler, one tablet under its
--   messages, with Keeping and Replica; Slave/Functors has the wrappers of src/slave/functors.h
--   and TabletParticipant.cc.
-- - src/slave/TabletParticipant.cc: Slave/TabletParticipant, a tablet as it is built, and all
--   that happens at it: messages, the jobs of its queue and of its LogSyncer, in any order. Its
--   state is not quite what the callbacks make of its log, since the answer of a read raises the
--   last access time: Shadow and Steps compare the two, Agreement compares two replicas.
-- - src/slave/TabletParticipantManager.cc: Slave/TabletParticipantManager, with Routing.
-- - src/slave/SlaveKeySpaceManager.cc: Slave/SlaveKeySpaceManager, with Generations.
-- - src/slave/SlaveIncomingMessageHandler.cc: Slave/SlaveIncomingMessageHandler, a slave under
--   its messages, with Tablets, Keeping and Covered.
-- - src/slave/LocalTransactionManager.cc: Slave/LocalTransactionManager, a slave as it is built,
--   with its tablets in full, and all that happens at it and at them. A message that is passed on
--   to a tablet waits in the tablet's scheduler, so that it is taken in some later step. Tablets
--   and Covered have what all steps keep.
-- - src/master/GroupConfigManager.cc: Master/GroupConfigManager, with Groups.
-- - src/master/KeySpaceManager.cc: Master/KeySpaceManager: the callbacks, with Phases; and in
--   FindKey its tasks, with Scans and Answers.
-- - src/master/MasterIncomingMessageHandler.cc: Master/MasterIncomingMessageHandler, a master
--   under its messages, with Keeping and Replica; Master/Functors has the wrappers of
--   src/master/functors.h.
-- - src/master/DataMaster.cc: Master/DataMaster, a master as it is built, and all that happens at
--   it. Its state differs from what the callbacks make of its log by the selections that a task
--   announces again: Groups, Callbacks, Tracked, Tasks and Steps compare the two, Agreement
--   compares two masters.
--
-- Base has what the C++ standard library stands for. A call that may throw returns a Result;
-- nothing catches an exception. Undefined behaviour that the code does not exclude, such as the
-- first element of an empty vector, is a result of its own. An unordered map is an association
-- list, and the theorems hold for every order of it. uint32_t and uint64_t are natural numbers;
-- the operations that can wrap take the remainder. The only loop on fuel is the binary search of
-- `KVStore::read`: it halves an interval of the versions, and has one unit of fuel more than
-- there are versions.
--
-- Threads are interleavings: a run of a node is a list of the calls that its schedulers and
-- timers make, in any order, so a timer may fire at any time. What the connections'
-- `get_all_endpoints` returns is fixed in a run of a node, and each tablet has a function of
-- random numbers of its own.
--
-- Not modelled: threads, sockets, timers and the random device (src/async/impl, src/net/impl,
-- src/random/impl), the main functions and ProductionContext (master.cc, slave.cc, testclient.cc,
-- src/slave/impl), the simulated clock and network of the tests, the functions that print,
-- SlaveConfigManager, whose one method is called by nothing, and Channel with SelfChannel.
pub mod Base
pub mod Proto
pub mod Net
pub mod Async
pub mod Paxos
pub mod Server
pub mod Slave
pub mod Master
