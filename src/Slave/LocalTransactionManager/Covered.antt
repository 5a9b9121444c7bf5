-- ===== src/Slave/LocalTransactionManager/Covered.antt =====
-- A slave (src/slave/LocalTransactionManager.cc) and its tablets under whatever happens at them.
use universal_db.Base.{
  ℕ, refl, List, [], ◌∷◌, arith, All, ltb, inc32, Option-cases, inl, inr, if_cases,
}
use universal_db.Base.Eq.{◌==◌, nat_eq}
use universal_db.Base.Assoc.{find, find-assign}
use universal_db.Base.AssocValues.{assign-AllValues, find-AllValues}
use universal_db.Base.Result.{Result, Ensures, Ensures-ok, Ensures-bind}
use universal_db.Net.EndpointId.{EndpointId}
use universal_db.Net.Sent.{Sent}
use universal_db.Proto.Paxos.{PaxosMessage}
use universal_db.Async.Queue.{Wait, fire}
use universal_db.Async.Queue.Keeping.{fire-keeps}
use universal_db.Paxos.Config.{latest_config}
use universal_db.Paxos.Log.Keeping.{Holds, set_entry-Holds}
use universal_db.Paxos.Multi
use universal_db.Paxos.Multi.{MultiPaxosHandler}
use universal_db.Paxos.Multi.Placed.{AllPlaced, propose-AllPlaced}
use universal_db.Paxos.Provider.{provide-ProvidesPlaced}
use universal_db.Server.KeySpaceRange.{KeySpaceRange, range_eq}
use universal_db.Server.LogSyncer.{sync}
use universal_db.Slave.IncomingMessageHandler.Keeping
use universal_db.Slave.SlaveKeySpaceManager.{
  SlaveNode, ChangeTask, change_task, propose_change, changed_entry, reply,
}
use universal_db.Slave.SlaveIncomingMessageHandler.{SlaveServer}
use universal_db.Slave.SlaveIncomingMessageHandler.Keeping.{Keeps, handle-Keeps}
use universal_db.Slave.SlaveIncomingMessageHandler.Keeping as SlaveKeeping
use universal_db.Slave.TabletParticipant
use universal_db.Slave.LocalTransactionManager.{
  Participant, Event, message, queue_timer, sync_timer, heartbeat_timer, tablet_message,
  tablet_queue_timer, tablet_sync_timer, queue_message, slave_log, new_slave, at_tablet,
  instance_provider, tablet_step, take_message, run_queue, run_sync, run_heartbeat, step, run,
}
use universal_db.Slave.LocalTransactionManager.Tablets.{
  IsSound, IsServed, passed-IsServed, invoke-IsServed, tablet_step-IsSound, take_message-IsSound,
}

-- The indices in messages are uint32.
abbrev pub EventNarrow : Event → Type 0
EventNarrow (message incoming) =
    SlaveKeeping.MessageNarrow incoming.message × Keeping.MessageNarrow incoming.message
EventNarrow _ = Unit {0}

-- The instances stand under their indices, the log has its callbacks, each range of the key space
-- has a tablet, and the data of each tablet are those of its log.
abbrev pub IsCovered : List EndpointId → List EndpointId → SlaveServer Participant → Type 0
IsCovered endpoints masters =
    Keeps (Holds (IsServed endpoints) (slave_log endpoints masters).callbacks)

module _ (endpoints masters : List EndpointId) (num_slave_servers : ℕ) (random : ℕ → ℕ)
    (tablet_random : KeySpaceRange → ℕ → ℕ) where
  abbrev NodeKept : SlaveNode Participant → Type 0
  NodeKept n =
      AllPlaced n.multi
      × Holds (IsServed endpoints) (slave_log endpoints masters).callbacks n.log n.state

  -- The tablets after something that keeps each of them sound.
  at_tablet-IsCovered :
      (range : KeySpaceRange) (call : Participant → Result Participant)
      (s : SlaveServer Participant)
      → ((p : Participant) → IsSound endpoints p → Ensures (IsSound endpoints) (call p))
      → IsCovered endpoints masters s
      → Ensures (IsCovered endpoints masters) (at_tablet range call s)
  unfolding at_tablet
  at_tablet-IsCovered range call s keeps h =
      elim (Option-cases (find range s.node.state.participants.tp_map)) [
        | inl absent ↦ rw (absent, at_tablet) h
        | inr (p, there) ↦
            rw (there, at_tablet)
              (Ensures-bind _ (call p) _ λ q e.
                let tps = s.node.state.participants.tp_map in
                let sound =
                  Ensures-ok (IsSound endpoints) (call p)
                    (keeps p (find-AllValues (IsSound endpoints) range p tps h.1.1.1 there)) e in
                (
                  h.0,
                  (
                    h.1.0,
                    (
                      λ r c. ground (arith, find-assign range r q tps, h.1.1.0 r c),
                      assign-AllValues (IsSound endpoints) range q tps sound h.1.1.1,
                    ),
                  ),
                ))
      ]

  propose_change-keeps :
      (t : ChangeTask) (n : SlaveNode Participant)
      → NodeKept n
      → Ensures
          (λ r. NodeKept r.1)
          (propose_change (instance_provider num_slave_servers random tablet_random) random t n)
  unfolding propose_change instance_provider
  propose_change-keeps t n h =
      let provider = instance_provider num_slave_servers random tablet_random in
      let once =
        Multi.propose provider (changed_entry t.message) (random n.drawn) n.multi n.log n.state in
      Ensures-bind _ once _ λ r e. (
        Ensures-ok (λ (r : MultiPaxosHandler × List (Sent PaxosMessage)). AllPlaced r.0) once
            (propose-AllPlaced provider
              (provide-ProvidesPlaced num_slave_servers (λ s. s.paxos_config_manager))
              (changed_entry t.message) (random n.drawn) n.multi n.log n.state h.0)
            e,
        h.1,
      )

  change_task-keeps :
      (t : ChangeTask) (n : SlaveNode Participant)
      → NodeKept n
      → Ensures
          (λ r. NodeKept r.1)
          (change_task (instance_provider num_slave_servers random tablet_random) random t n)
  unfolding change_task reply
  change_task-keeps t n h =
      let generation = n.state.key_space.generation in
      if_cases Kept (ltb (inc32 generation) t.message.generation) _ _ (λ _. h)
        (λ _.
          if_cases Kept (inc32 generation == t.message.generation) _ _
            (λ _. propose_change-keeps t n h)
            (λ _. if_cases Kept (generation == t.message.generation) _ _ (λ _. h) (λ _. h)))
    where
      Kept : Result (ChangeTask × SlaveNode Participant × Wait) → Type 0
      Kept = Ensures (λ r. NodeKept r.1)

  run_queue-IsCovered :
      (s : SlaveServer Participant)
      → IsCovered endpoints masters s
      → Ensures (IsCovered endpoints masters) (run_queue num_slave_servers random tablet_random s)
  unfolding run_queue
  run_queue-IsCovered s h =
      let task = change_task (instance_provider num_slave_servers random tablet_random) random in
      let job = fire task s.async_queue (record s.node { sent = [] }) in
      Ensures-bind _ job _ λ r e.
        Ensures-ok _ job
          (fire-keeps NodeKept task change_task-keeps s.async_queue (record s.node { sent = [] }) h)
          e

  step-IsCovered :
      (e : Event) (s : SlaveServer Participant)
      → EventNarrow e
      → IsCovered endpoints masters s
      → Ensures (IsCovered endpoints masters) (step num_slave_servers random tablet_random e s)
  unfolding step run_sync run_heartbeat instance_provider
  step-IsCovered (message incoming) s w h =
      handle-Keeps queue_message (instance_provider num_slave_servers random tablet_random)
        (provide-ProvidesPlaced num_slave_servers (λ s. s.paxos_config_manager))
        (Holds (IsServed endpoints) (slave_log endpoints masters).callbacks)
        (λ index entry l t _.
          set_entry-Holds (IsServed endpoints) (slave_log endpoints masters).callbacks
            (invoke-IsServed endpoints masters) index entry l t)
        (λ m. Keeping.MessageNarrow m.message)
        (λ m l t narrow q. (q.0, passed-IsServed endpoints m t narrow q.1)) incoming.endpoint_id
        incoming.message s w.0 w.1 h
  step-IsCovered queue_timer s w h = run_queue-IsCovered s h
  step-IsCovered sync_timer s w h =
      Ensures-bind _ (latest_config s.node.state.paxos_config_manager) _
        λ peers _. Ensures-bind _ (sync peers s.node.log) _ λ _ _. h
  step-IsCovered heartbeat_timer s w h =
      Ensures-bind _ (latest_config s.node.state.paxos_config_manager) _ λ _ _. h
  step-IsCovered (tablet_message range) s w h =
      at_tablet-IsCovered range (take_message num_slave_servers random tablet_random range) s
        (take_message-IsSound endpoints num_slave_servers random tablet_random range) h
  step-IsCovered (tablet_queue_timer range) s w h =
      at_tablet-IsCovered range
        (tablet_step num_slave_servers random tablet_random range TabletParticipant.queue_timer) s
        (λ p v.
          tablet_step-IsSound endpoints num_slave_servers random tablet_random range
            TabletParticipant.queue_timer p tt v)
        h
  step-IsCovered (tablet_sync_timer range) s w h =
      at_tablet-IsCovered range
        (tablet_step num_slave_servers random tablet_random range TabletParticipant.sync_timer) s
        (λ p v.
          tablet_step-IsSound endpoints num_slave_servers random tablet_random range
            TabletParticipant.sync_timer p tt v)
        h

  run-IsCovered :
      (es : List Event) (s : SlaveServer Participant)
      → All EventNarrow es
      → IsCovered endpoints masters s
      → Ensures (IsCovered endpoints masters) (run num_slave_servers random tablet_random es s)
  unfolding run
  run-IsCovered [] s w h = h
  run-IsCovered (e ∷ es) s w h =
      Ensures-bind _ (step num_slave_servers random tablet_random e s) _ λ s' q.
        run-IsCovered es s' w.1 (
          Ensures-ok (IsCovered endpoints masters) (step num_slave_servers random tablet_random e s)
            (step-IsCovered e s w.0 h) q)

-- Whatever happens at a slave from its construction on, messages, calls of its tasks, rounds of
-- syncing, heartbeats, and at its tablets the messages that are passed on to them, calls of their
-- tasks and rounds of syncing, in any order: unless something throws, each range of its key space
-- has a tablet, and the versions, request ids and configurations of each of its tablets are what
-- the callbacks make of the contiguous entries of the tablet's own log, which is well formed. The
-- indices in messages are those of a uint32.
pub slave_run-IsCovered :
    (config_endpoints endpoints masters : List EndpointId) (num_slave_servers : ℕ) (random : ℕ → ℕ)
    (tablet_random : KeySpaceRange → ℕ → ℕ) (es : List Event)
    → All EventNarrow es
    → Ensures (IsCovered endpoints masters) (
        run num_slave_servers random tablet_random es
          (new_slave config_endpoints endpoints masters))
unfolding new_slave
slave_run-IsCovered config_endpoints endpoints masters n random tablet_random es w =
    run-IsCovered endpoints masters n random tablet_random es
      (new_slave config_endpoints endpoints masters) w
      (tt, (refl, (λ range c. absurd (ground (arith, c)), tt)))
