-- ===== src/Slave/LocalTransactionManager/Tablets.antt =====
-- The tablets of a slave (src/slave/LocalTransactionManager.cc): what each of them keeps, and what
-- the slave does to the map of them.
use universal_db.Base.{
  ℕ, ◌∙◌, Bool, List, [], ◌∷◌, map, All, All-append, if_cases, Option-cases, inl, inr,
}
use universal_db.Base.Eq.{◌==◌, nat_eq}
use universal_db.Base.Assoc.{find, insert, assign}
use universal_db.Base.AssocValues.{AllValues, insert-AllValues}
use universal_db.Base.Result.{assert, Ensures, Ensures-ok, Ensures-bind}
use universal_db.Net.EndpointId.{EndpointId}
use universal_db.Net.IncomingMessage.{IncomingMessage}
use universal_db.Proto.Client.{ClientMessage, request}
use universal_db.Proto.Paxos
use universal_db.Proto.Paxos.{PaxosLogEntry, entry_content_case}
use universal_db.Proto.Wrapper.{
  MessageWrapper, client_message, tablet_message, master_message, slave_message,
}
use universal_db.Paxos.Config.{on_reconfig_started, reconfigure, urls_of}
use universal_db.Paxos.Log.{add_callback, new_log, call_all, invoke}
use universal_db.Server.KeySpaceRange.{KeySpaceRange, within_range, range_eq, convert}
use universal_db.Slave.IncomingMessageHandler.Keeping
use universal_db.Slave.SlaveKeySpaceManager.{
  SlaveState, on_key_space_changed, changed_of, reply, register,
}
use universal_db.Slave.SlaveIncomingMessageHandler.Keeping.{passed}
use universal_db.Slave.SlaveIncomingMessageHandler.Tablets.{
  HasTablets, message-has, on_key_space_changed-HasTablets,
}
use universal_db.Slave.TabletParticipant
use universal_db.Slave.TabletParticipant.Steps.{
  IsTracked, EventNarrow, step-Keeps, new_participant-Keeps,
}
use universal_db.Slave.TabletParticipantManager
use universal_db.Slave.TabletParticipantManager.{
  TabletParticipantManager, add_tablets, queue_at, handle_key_space_change,
}
use universal_db.Slave.LocalTransactionManager.{
  Participant, queue_message, tp_provider, on_reconfig, slave_log, tablet_step, take_message,
}

-- The data of the tablet are those of its log, and the indices in the messages that wait for it
-- are uint32.
abbrev pub IsSound : List EndpointId → Participant → Type 0
IsSound endpoints p =
    Keeping.Keeps (IsTracked endpoints) p.server
    × All (λ (m : IncomingMessage). Keeping.MessageNarrow m.message) p.inbox

abbrev pub AllSound : List EndpointId → List (KeySpaceRange × Participant) → Type 0
AllSound endpoints = AllValues (IsSound endpoints)

queue_at-AllSound :
    (endpoints : List EndpointId) (test : KeySpaceRange → Bool) (m : IncomingMessage)
    (tps : List (KeySpaceRange × Participant))
    → Keeping.MessageNarrow m.message
    → AllSound endpoints tps
    → AllSound endpoints (queue_at test (queue_message m) tps).0
unfolding queue_at queue_message
queue_at-AllSound endpoints test m [] w a = tt
queue_at-AllSound endpoints test m ((r, p) ∷ tps) w a =
    if_cases (λ (x : List (KeySpaceRange × Participant) × Bool). AllSound endpoints x.0) (test r) _
      _ (λ _. ((a.0.0, All-append _ p.inbox (m ∷ []) a.0.1 (w, tt)), a.1))
      (λ _. (a.0, queue_at-AllSound endpoints test m tps w a.1))

add_tablets-AllSound :
    (endpoints : List EndpointId) (ranges : List KeySpaceRange)
    (tps : List (KeySpaceRange × Participant))
    → AllSound endpoints tps
    → AllSound endpoints (add_tablets (tp_provider endpoints) ranges tps)
unfolding add_tablets tp_provider
add_tablets-AllSound endpoints [] tps a = a
add_tablets-AllSound endpoints (r ∷ rs) tps a = elim (Option-cases (find r tps)) [
  | inr (p, there) ↦ rw there (add_tablets-AllSound endpoints rs tps a)
  | inl absent ↦ rw absent (
      add_tablets-AllSound endpoints rs (insert r (tp_provider endpoints r) tps) (
        insert-AllValues (IsSound endpoints) r (tp_provider endpoints r) tps
          (new_participant-Keeps endpoints r, tt) a))
]

passed-AllSound :
    (endpoints : List EndpointId) (e : EndpointId) (message : MessageWrapper)
    (m : TabletParticipantManager Participant)
    → Keeping.MessageNarrow message
    → AllSound endpoints m.tp_map
    → AllSound endpoints
        (TabletParticipantManager.handle queue_message
          (record { endpoint_id = e; message = message })
          m).0.tp_map
unfolding TabletParticipantManager.handle TabletParticipantManager.handle_client_request
    TabletParticipantManager.handle_tablet_message
passed-AllSound endpoints e (client_message (request q)) m w a =
    queue_at-AllSound endpoints (λ r. within_range r q.database_id q.table_id q.key)
      (record { endpoint_id = e; message = client_message (request q) }) m.tp_map w a
passed-AllSound endpoints e (tablet_message t) m w a =
    queue_at-AllSound endpoints (λ r. r == convert t.range)
      (record { endpoint_id = e; message = tablet_message t }) m.tp_map w a
passed-AllSound endpoints e MessageWrapper.not_set m w a = a
passed-AllSound endpoints e (client_message ClientMessage.not_set) m w a = a
passed-AllSound endpoints e (client_message (ClientMessage.response _)) m w a = a
passed-AllSound endpoints e (client_message (ClientMessage.find_key_range_request _)) m w a = a
passed-AllSound endpoints e (client_message (ClientMessage.find_key_range_response _)) m w a = a
passed-AllSound endpoints e (master_message _) m w a = a
passed-AllSound endpoints e (slave_message _) m w a = a

-- Each range of the key space has a tablet, and all tablets are sound.
abbrev pub IsServed : List EndpointId → SlaveState Participant → Type 0
IsServed endpoints s = HasTablets s × AllSound endpoints s.participants.tp_map

pub passed-IsServed :
    (endpoints : List EndpointId) (incoming : IncomingMessage) (s : SlaveState Participant)
    → Keeping.MessageNarrow incoming.message
    → IsServed endpoints s
    → IsServed endpoints (passed queue_message incoming s)
passed-IsServed endpoints incoming s w h = (
  λ range c.
      message-has queue_message incoming.endpoint_id incoming.message s.participants range
      ∙ h.0 range c,
  passed-AllSound endpoints incoming.endpoint_id incoming.message s.participants w h.1,
)

module _ (endpoints masters : List EndpointId) where
  on_key_space_changed-AllSound :
      (peers : List EndpointId) (index : ℕ) (entry : PaxosLogEntry) (s : SlaveState Participant)
      → AllSound endpoints s.participants.tp_map
      → Ensures
          (λ t. AllSound endpoints t.participants.tp_map)
          (on_key_space_changed (tp_provider endpoints) peers index entry s)
  unfolding on_key_space_changed reply handle_key_space_change
  on_key_space_changed-AllSound [] index entry s a =
      Ensures-bind _ (assert ((changed_of entry).generation == _)) _ (λ _ _. tt)
  on_key_space_changed-AllSound (peer ∷ peers) index entry s a =
      Ensures-bind _ (assert ((changed_of entry).generation == _)) _ λ _ _.
        add_tablets-AllSound endpoints (map convert (changed_of entry).new_ranges)
          s.participants.tp_map a

  change-IsServed :
      (index : ℕ) (entry : PaxosLogEntry) (s : SlaveState Participant)
      → IsServed endpoints s
      → Ensures
          (IsServed endpoints)
          (call_all (on_key_space_changed (tp_provider endpoints) masters ∷ []) index entry s)
  unfolding call_all
  change-IsServed index entry s h =
      let call = on_key_space_changed (tp_provider endpoints) masters index entry s in
      Ensures-bind (IsServed endpoints) call _ λ t e. (
        Ensures-ok HasTablets call
            (on_key_space_changed-HasTablets (tp_provider endpoints) masters index entry s) e,
        Ensures-ok (λ (t : SlaveState Participant). AllSound endpoints t.participants.tp_map) call
            (on_key_space_changed-AllSound masters index entry s h.1) e,
      )

  reconfig-IsServed :
      (index : ℕ) (entry : PaxosLogEntry) (s : SlaveState Participant)
      → IsServed endpoints s
      → Ensures (IsServed endpoints) (call_all (on_reconfig ∷ []) index entry s)
  unfolding call_all on_reconfig on_reconfig_started
  reconfig-IsServed index entry s h = Ensures-bind _ (on_reconfig index entry s) _ λ t e.
      Ensures-ok (IsServed endpoints) (on_reconfig index entry s)
        (Ensures-bind _ (reconfigure index (urls_of entry) s.paxos_config_manager) _ λ _ _. h) e

  pub invoke-IsServed :
      (i : ℕ) (entry : PaxosLogEntry) (s : SlaveState Participant)
      → IsServed endpoints s
      → Ensures (IsServed endpoints) (invoke (slave_log endpoints masters).callbacks i entry s)
  unfolding invoke slave_log register add_callback new_log find assign entry_content_case
  invoke-IsServed i (Paxos.key_space_changed m) s h =
      change-IsServed i (Paxos.key_space_changed m) s h
  invoke-IsServed i (Paxos.reconfig_started m) s h =
      reconfig-IsServed i (Paxos.reconfig_started m) s h
  invoke-IsServed i Paxos.not_set s h = h
  invoke-IsServed i (Paxos.key_space_selected m) s h = h
  invoke-IsServed i (Paxos.key_space_commit m) s h = h
  invoke-IsServed i (Paxos.read m) s h = h
  invoke-IsServed i (Paxos.write m) s h = h
  invoke-IsServed i Paxos.reconfig_finished s h = h

module _ (endpoints : List EndpointId) (num_slave_servers : ℕ) (random : ℕ → ℕ)
    (tablet_random : KeySpaceRange → ℕ → ℕ) where
  pub tablet_step-IsSound :
      (range : KeySpaceRange) (e : TabletParticipant.Event) (p : Participant)
      → EventNarrow e
      → IsSound endpoints p
      → Ensures (IsSound endpoints) (tablet_step num_slave_servers random tablet_random range e p)
  unfolding tablet_step
  tablet_step-IsSound range e p w h =
      let call = TabletParticipant.step num_slave_servers (tablet_random range) e p.server in
      Ensures-bind _ call _ λ t q. (
        Ensures-ok (Keeping.Keeps (IsTracked endpoints)) call
            (step-Keeps endpoints num_slave_servers (tablet_random range) e p.server w h.0) q,
        h.1,
      )

  pub take_message-IsSound :
      (range : KeySpaceRange) (p : Participant)
      → IsSound endpoints p
      → Ensures (IsSound endpoints) (take_message num_slave_servers random tablet_random range p)
  unfolding take_message
  take_message-IsSound range p h = by_inbox p.inbox h.1
    where
      by_inbox :
          (inbox : List IncomingMessage)
          → All (λ (m : IncomingMessage). Keeping.MessageNarrow m.message) inbox
          → Ensures (IsSound endpoints) (
              take_message num_slave_servers random tablet_random range
                (record p { inbox = inbox }))
      by_inbox [] w = (h.0, tt)
      by_inbox (m ∷ ms) w =
          tablet_step-IsSound range (TabletParticipant.message m) (record p { inbox = ms }) w.0
            (h.0, w.1)
