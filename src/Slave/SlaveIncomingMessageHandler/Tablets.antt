-- ===== src/Slave/SlaveIncomingMessageHandler/Tablets.antt =====
-- The tablets of a slave for the ranges of its key space (src/slave/SlaveKeySpaceManager.cc,
-- src/slave/TabletParticipantManager.cc).
use universal_db.Base.{ℕ, ◌≡◌, refl, Bool, true, List, [], ◌∷◌, map, arith, Bool-cases, inl, inr}
use universal_db.Base.Eq.{◌==◌, nat_eq, contains}
use universal_db.Base.Assoc.{find, has}
use universal_db.Base.Result.{assert, Ensures, Ensures-ok, Ensures-bind}
use universal_db.Net.EndpointId.{EndpointId}
use universal_db.Net.IncomingMessage.{IncomingMessage}
use universal_db.Proto.Client.{ClientMessage, request}
use universal_db.Proto.Paxos.{PaxosLogEntry, entry_content_case}
use universal_db.Proto.Wrapper.{
  MessageWrapper, client_message, tablet_message, master_message, slave_message,
}
use universal_db.Paxos.Log.{Callback, invoke, call_all}
use universal_db.Server.KeySpaceRange.{KeySpaceRange, within_range, range_eq, convert}
use universal_db.Slave.TabletParticipantManager
use universal_db.Slave.TabletParticipantManager.{
  TabletParticipantManager, queue_at, handle_key_space_change,
}
use universal_db.Slave.TabletParticipantManager.Routing.{handle_key_space_change-find}
use universal_db.Slave.SlaveKeySpaceManager.{SlaveState, on_key_space_changed, changed_of, reply}

module _ {P : Type 0} where
  -- Each range of the key space has a tablet.
  abbrev pub HasTablets : SlaveState P → Type 0
  HasTablets s =
      (range : KeySpaceRange)
      → contains range s.key_space.ranges ≡ true
      → has range s.participants.tp_map ≡ true

  change-has :
      (tp_provider : KeySpaceRange → P) (ranges : List KeySpaceRange)
      (m : TabletParticipantManager P) (range : KeySpaceRange)
      → contains range ranges ≡ true
      → has range (handle_key_space_change tp_provider ranges m).tp_map ≡ true
  change-has tp_provider ranges m range c =
      ground (arith, handle_key_space_change-find tp_provider ranges m range, c)

  queue_at-has :
      (test : KeySpaceRange → Bool) (queue : P → P) (tps : List (KeySpaceRange × P))
      (range : KeySpaceRange)
      → has range (queue_at test queue tps).0 ≡ has range tps
  unfolding queue_at find
  queue_at-has test queue [] range = refl
  queue_at-has test queue ((r, tp) ∷ tps) range = ground (arith, queue_at-has test queue tps range)

  pub on_key_space_changed-HasTablets :
      (tp_provider : KeySpaceRange → P) (masters : List EndpointId) (index : ℕ)
      (entry : PaxosLogEntry) (s : SlaveState P)
      → Ensures HasTablets (on_key_space_changed tp_provider masters index entry s)
  unfolding on_key_space_changed reply
  on_key_space_changed-HasTablets tp_provider [] index entry s =
      Ensures-bind _ (assert ((changed_of entry).generation == _)) _ (λ _ _. tt)
  on_key_space_changed-HasTablets tp_provider (master ∷ masters) index entry s =
      Ensures-bind _ (assert ((changed_of entry).generation == _)) _
        λ _ _. change-has tp_provider (map convert (changed_of entry).new_ranges) s.participants

  pub message-has :
      (queue_message : IncomingMessage → P → P) (endpoint : EndpointId) (message : MessageWrapper)
      (m : TabletParticipantManager P) (range : KeySpaceRange)
      → has range
          (TabletParticipantManager.handle queue_message
            (record { endpoint_id = endpoint; message = message })
            m).0.tp_map
        ≡ has range m.tp_map
  unfolding TabletParticipantManager.handle TabletParticipantManager.handle_client_request
      TabletParticipantManager.handle_tablet_message
  message-has queue_message endpoint (client_message (request q)) m range =
      queue_at-has (λ r. within_range r q.database_id q.table_id q.key)
        (queue_message (record { endpoint_id = endpoint; message = client_message (request q) }))
        m.tp_map range
  message-has queue_message endpoint (tablet_message t) m range =
      queue_at-has (λ r. r == convert t.range)
        (queue_message (record { endpoint_id = endpoint; message = tablet_message t })) m.tp_map
        range
  message-has queue_message endpoint MessageWrapper.not_set m range = refl
  message-has queue_message endpoint (client_message ClientMessage.not_set) m range = refl
  message-has queue_message endpoint (client_message (ClientMessage.response _)) m range = refl
  message-has queue_message endpoint (client_message (ClientMessage.find_key_range_request _)) m
        range =
      refl
  message-has queue_message endpoint (client_message (ClientMessage.find_key_range_response _)) m
        range =
      refl
  message-has queue_message endpoint (master_message _) m range = refl
  message-has queue_message endpoint (slave_message _) m range = refl

-- What SlaveKeySpaceManager registers at the log.
abbrev pub slave_callbacks :
    {P : Type 0} → (KeySpaceRange → P) → List EndpointId → List (ℕ × List (Callback (SlaveState P)))
slave_callbacks tp_provider masters = (3, on_key_space_changed tp_provider masters ∷ []) ∷ []

module _ {P : Type 0} (tp_provider : KeySpaceRange → P) (masters : List EndpointId) where
  pub invoke-HasTablets :
      (i : ℕ) (entry : PaxosLogEntry) (s : SlaveState P)
      → HasTablets s
      → Ensures HasTablets (invoke (slave_callbacks tp_provider masters) i entry s)
  unfolding invoke call_all find
  invoke-HasTablets i entry s h = elim (Bool-cases (3 == entry_content_case entry)) [
    | inl here ↦
        rw (here, invoke)
          (Ensures-bind HasTablets (on_key_space_changed tp_provider masters i entry s) _ λ s' e.
            Ensures-ok HasTablets (on_key_space_changed tp_provider masters i entry s)
              (on_key_space_changed-HasTablets tp_provider masters i entry s) e)
    | inr other ↦ rw (other, invoke) h
  ]
