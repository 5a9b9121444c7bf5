-- ===== src/Slave/TabletParticipant/Steps.antt =====
-- The log and the state of a tablet (src/slave/TabletParticipant.cc) under whatever happens at it.
use universal_db.Base.{
  ltb, not, ◌&&◌, ℕ, ◌+◌, ◌<◌, ◌≡◌, refl, List, [], ◌∷◌, arith, All, u64_mod, Option-cases, inl,
  inr, if_cases,
}
use universal_db.Base.Eq.{◌==◌, nat_eq, contains}
use universal_db.Base.Bytes.{bytes_eq}
use universal_db.Base.Assoc.{find, has, assign}
use universal_db.Base.Result.{Result, Ensures, Ensures-ok, Ensures-bind}
use universal_db.Net.EndpointId.{EndpointId}
use universal_db.Net.Sent.{Sent}
use universal_db.Proto.Client.{RequestType, read_type, write_type, unset_type, other_type}
use universal_db.Proto.Paxos.{PaxosLogEntry, PaxosMessage, string_value, uint64_value}
use universal_db.Async.Queue.{Wait, fire}
use universal_db.Async.Queue.Keeping.{fire-keeps}
use universal_db.Paxos.Config.{latest_config}
use universal_db.Paxos.Log.{PaxosLog, set_entry, get_entry, invoke_from, new_log, add_callback}
use universal_db.Paxos.Log.Invariant.{IsValid}
use universal_db.Paxos.Multi
use universal_db.Paxos.Multi.{MultiPaxosHandler}
use universal_db.Paxos.Multi.Placed.{AllPlaced, propose-AllPlaced}
use universal_db.Paxos.Multi.Shadowed.{IsShadowed, set_entry-IsShadowed}
use universal_db.Paxos.Provider.{provide-ProvidesPlaced}
use universal_db.Server.KeySpaceRange.{KeySpaceRange}
use universal_db.Server.LogSyncer.{sync}
use universal_db.Slave.KvStore
use universal_db.Slave.KvStore.Raised.{IsRaised-refl}
use universal_db.Slave.KvStore.Raised.Reads.{read-IsRaised}
use universal_db.Slave.ClientRequestHandler.{
  TabletState, Tablet, RequestTask, request_task, answer, propose_entry, log_entry, respond,
  is_illegal, is_write, read_of, retry_limit, register,
}
use universal_db.Slave.IncomingMessageHandler.{TabletServer, handle}
use universal_db.Slave.IncomingMessageHandler.Keeping.{Keeps, MessageNarrow, handle_wrapper-Keeps}
use universal_db.Slave.TabletParticipant.{
  Event, message, queue_timer, sync_timer, instance_provider, run_queue, run_sync, step, run,
  new_state, new_participant, tablet_log,
}
use universal_db.Slave.TabletParticipant.Shadow.{IsAhead, invoke-Alike}

-- The log is well formed, and the state is ahead of what the callbacks make of its contiguous
-- entries by the reads of the tasks alone.
abbrev pub IsTracked : List EndpointId → PaxosLog TabletState → TabletState → Type 0
IsTracked endpoints = IsShadowed IsAhead tablet_log.callbacks (new_state endpoints)

abbrev TabletKept : List EndpointId → Tablet → Type 0
TabletKept endpoints m = AllPlaced m.multi × IsTracked endpoints m.log m.state

set_entry-IsTracked :
    (endpoints : List EndpointId) (index : ℕ) (entry : PaxosLogEntry) (l : PaxosLog TabletState)
    (s : TabletState)
    → index + 1 < u64_mod
    → IsTracked endpoints l s
    → Ensures (λ r. IsTracked endpoints r.0 r.1) (set_entry index entry l s)
set_entry-IsTracked endpoints =
    set_entry-IsShadowed IsAhead tablet_log.callbacks (new_state endpoints) invoke-Alike

answer-keeps :
    (endpoints : List EndpointId) (type : RequestType) (index : ℕ) (t : RequestTask) (m : Tablet)
    → TabletKept endpoints m
    → Ensures (λ r. TabletKept endpoints r.1) (answer type index t m)
unfolding answer respond
answer-keeps endpoints read_type index t m h = elim (Option-cases (get_entry index m.log)) [
  | inl absent ↦ rw (absent, answer) tt
  | inr (entry, there) ↦
      rw (there, answer)
        (let key = string_value (read_of entry).key in
          let timestamp = uint64_value (read_of entry).timestamp in
          Ensures-bind _ (KvStore.read key timestamp m.state.kvstore) _ λ r e.
            let (_, _, _, _, raised) =
              Ensures-ok _ (KvStore.read key timestamp m.state.kvstore)
                (read-IsRaised key timestamp m.state.kvstore h.1.shadow.kvstore h.1.related.raised)
                e in
            (
              h.0,
              record {
                same_callbacks = h.1.same_callbacks;
                shadow = h.1.shadow;
                derived = h.1.derived;
                related = record {
                  same_configs = h.1.related.same_configs;
                  same_requests = h.1.related.same_requests;
                  raised = raised;
                };
              },
            ))
]
answer-keeps endpoints write_type index t m h = h
answer-keeps endpoints unset_type index t m h = tt
answer-keeps endpoints other_type index t m h = tt

-- The indices in messages are uint32.
abbrev pub EventNarrow : Event → Type 0
EventNarrow (message incoming) = MessageNarrow incoming.message
EventNarrow _ = Unit {0}

tablet_log-agree : (j : ℕ) → has j tablet_log.log ≡ (ltb j 0 && not (contains j []))
unfolding tablet_log register add_callback new_log find assign
tablet_log-agree j = ground arith

abbrev tablet_log-IsValid : IsValid tablet_log
unfolding tablet_log register add_callback new_log find assign
tablet_log-IsValid = record {
  init = [];
  top = 0;
  shape = refl;
  ascending = tt;
  below = tt;
  agree = tablet_log-agree;
}

pub new_participant-Keeps :
    (endpoints : List EndpointId) (tablet_id : KeySpaceRange)
    → Keeps (IsTracked endpoints) (new_participant tablet_id endpoints)
unfolding new_participant tablet_log register add_callback new_log find assign invoke_from
new_participant-Keeps endpoints tablet_id = (
  tt,
  record {
    same_callbacks = refl;
    shadow = new_state endpoints;
    derived = record { valid = tablet_log-IsValid; derived = refl };
    related = record {
      same_configs = refl;
      same_requests = refl;
      raised = IsRaised-refl (new_state endpoints).kvstore;
    };
  },
)

module _ (endpoints : List EndpointId) (num_slave_servers : ℕ) (random : ℕ → ℕ) where
  propose_entry-keeps :
      (t : RequestTask) (m : Tablet)
      → TabletKept endpoints m
      → Ensures
          (λ r. TabletKept endpoints r.1)
          (propose_entry (instance_provider num_slave_servers random) random t m)
  unfolding propose_entry instance_provider
  propose_entry-keeps t m h = Ensures-bind _ (log_entry t.message) _ λ entry _.
      let once =
        Multi.propose (instance_provider num_slave_servers random) entry (random m.drawn) m.multi
          m.log m.state in
      Ensures-bind _ once _ λ r e. (
        Ensures-ok (λ (r : MultiPaxosHandler × List (Sent PaxosMessage)). AllPlaced r.0) once
            (propose-AllPlaced (instance_provider num_slave_servers random)
              (provide-ProvidesPlaced num_slave_servers (λ s. s.paxos_config_manager)) entry
              (random m.drawn) m.multi m.log m.state h.0)
            e,
        h.1,
      )

  request_task-keeps :
      (t : RequestTask) (m : Tablet)
      → TabletKept endpoints m
      → Ensures
          (λ r. TabletKept endpoints r.1)
          (request_task (instance_provider num_slave_servers random) random t m)
  unfolding request_task respond
  request_task-keeps t m h =
      elim (Option-cases (find t.message.request_id m.state.request_id_map)) [
        | inr (index, there) ↦
            rw (there, request_task) (answer-keeps endpoints t.message.request_type index t m h)
        | inl absent ↦
            let proposed = propose_entry-keeps t m h in
            rw (absent, request_task)
              (if_cases Kept (t.retry_count == retry_limit) _ _ (λ _. h)
                (λ _.
                  if_cases Kept (is_write t.message.request_type) _ _
                    (λ _.
                      if_cases Kept (is_illegal t.message m.state.kvstore) _ _ (λ _. h)
                        (λ _. proposed))
                    (λ _. proposed)))
      ]
    where
      Kept : Result (RequestTask × Tablet × Wait) → Type 0
      Kept = Ensures (λ r. TabletKept endpoints r.1)

  run_queue-Keeps :
      (t : TabletServer)
      → Keeps (IsTracked endpoints) t
      → Ensures (Keeps (IsTracked endpoints)) (run_queue num_slave_servers random t)
  unfolding run_queue
  run_queue-Keeps t h =
      let m = record t.tablet { sent = [] } in
      let job =
        fire (request_task (instance_provider num_slave_servers random) random) t.async_queue m in
      Ensures-bind _ job _ λ r e.
        Ensures-ok _ job
          (fire-keeps (TabletKept endpoints)
            (request_task (instance_provider num_slave_servers random) random) request_task-keeps
            t.async_queue m h)
          e

  pub step-Keeps :
      (e : Event) (t : TabletServer)
      → EventNarrow e
      → Keeps (IsTracked endpoints) t
      → Ensures (Keeps (IsTracked endpoints)) (step num_slave_servers random e t)
  unfolding step handle run_sync instance_provider
  step-Keeps (message incoming) t w h =
      handle_wrapper-Keeps (IsTracked endpoints) (set_entry-IsTracked endpoints)
        (instance_provider num_slave_servers random)
        (provide-ProvidesPlaced num_slave_servers (λ s. s.paxos_config_manager))
        incoming.endpoint_id incoming.message t w h
  step-Keeps queue_timer t w h = run_queue-Keeps t h
  step-Keeps sync_timer t w h =
      Ensures-bind _ (latest_config t.tablet.state.paxos_config_manager) _
        λ peers _. Ensures-bind _ (sync peers t.tablet.log) _ λ _ _. h

  pub run-Keeps :
      (es : List Event) (t : TabletServer)
      → All EventNarrow es
      → Keeps (IsTracked endpoints) t
      → Ensures (Keeps (IsTracked endpoints)) (run num_slave_servers random es t)
  unfolding run
  run-Keeps [] t w h = h
  run-Keeps (e ∷ es) t w h = Ensures-bind _ (step num_slave_servers random e t) _ λ t' q.
      run-Keeps es t' w.1 (
        Ensures-ok (Keeps (IsTracked endpoints)) (step num_slave_servers random e t)
          (step-Keeps e t w.0 h) q)
