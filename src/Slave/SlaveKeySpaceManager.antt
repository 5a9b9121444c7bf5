-- ===== src/Slave/SlaveKeySpaceManager.antt =====
-- SlaveKeySpaceManager of src/slave/SlaveKeySpaceManager.h and SlaveKeySpaceManager.cc: the ranges
-- of the keys that a slave group holds, which change by entries of its log.
pub mod Generations
mod Tests
use universal_db.Base.{
  ℕ, ◌+◌, ◌%◌, Bool, true, false, Option, none, some, List, [], ◌∷◌, ◌++◌, map, ltb, inc32,
  if◌then◌else◌,
}
use universal_db.Base.Eq.{◌==◌, nat_eq}
use universal_db.Base.Result.{Result, ok, thrown, assertion, undefined, assert, ◌>>=◌, ◌>>◌}
use universal_db.Net.EndpointId.{EndpointId}
use universal_db.Net.Sent.{Sent, broadcast}
use universal_db.Proto.Paxos.{PaxosLogEntry, KeySpaceChanged, PaxosMessage}
use universal_db.Proto.Paxos
use universal_db.Proto.Wrapper.{KeySpaceSelection, SlaveMessage, key_space_changed}
use universal_db.Async.Queue.{AsyncQueue, Wait, terminate, again, add_task}
use universal_db.Paxos.Config.{PaxosConfigManager}
use universal_db.Paxos.Log.{PaxosLog, Callback, add_callback}
use universal_db.Paxos.Multi.{MultiPaxosHandler}
use universal_db.Paxos.Multi
use universal_db.Paxos.Single.{SinglePaxosHandler}
use universal_db.Server.KeySpaceRange.{KeySpaceRange, convert}
use universal_db.Slave.TabletParticipantManager.{
  TabletParticipantManager, handle_key_space_change as change_tablets,
}

abbrev pub wait_for_paxos : ℕ
wait_for_paxos = 100

-- SlaveKeySpaceManager::KeySpace
pub record KeySpace : Type 0 where
  pub ranges : List KeySpaceRange
  pub generation : ℕ

-- What the callback of the log works on, with the replies that it sends to the masters.
pub record SlaveState (P : Type 0) : Type 0 where
  pub paxos_config_manager : PaxosConfigManager
  pub key_space : KeySpace
  pub participants : TabletParticipantManager P
  pub replies : List (Sent SlaveMessage)

-- entry.key_space_changed() of another kind of entry is the default message.
unfoldable pub changed_of : PaxosLogEntry → KeySpaceChanged
changed_of (Paxos.key_space_changed m) = m
changed_of _ = record { new_ranges = []; generation = 0 }

module _ {P : Type 0} where
  unfoldable pub reply : List EndpointId → ℕ → SlaveState P → SlaveState P
  reply endpoints generation s = record s {
    replies = s.replies ++ broadcast endpoints (key_space_changed generation) ∷ [];
  }

  -- The callback on a KeySpaceChanged entry; `masters` is what `get_all_endpoints` of the master
  -- connections returns. An element of an empty vector is undefined.
  unfoldable pub on_key_space_changed :
      (KeySpaceRange → P) → List EndpointId → Callback (SlaveState P)
  unfolding changed_of reply
  on_key_space_changed tp_provider masters index entry s =
      let m = changed_of entry in
      let ranges = map convert m.new_ranges in
      assert (m.generation == inc32 s.key_space.generation) >> elim masters [
        | [] ↦ thrown undefined
        | master ∷ _ ↦ ok (
            reply (master ∷ []) m.generation (record s {
              key_space = record { ranges = ranges; generation = m.generation };
              participants = change_tablets tp_provider ranges s.participants;
            }))
      ]

-- The constructor: 3 is kKeySpaceChanged.
unfoldable pub register :
    {P : Type 0}
    → (KeySpaceRange → P)
    → List EndpointId
    → PaxosLog (SlaveState P)
    → PaxosLog (SlaveState P)
register tp_provider masters l = add_callback 3 (on_key_space_changed tp_provider masters) l

-- What the task works on.
pub record SlaveNode (P : Type 0) : Type 0 where
  pub multi : MultiPaxosHandler
  pub log : PaxosLog (SlaveState P)
  pub state : SlaveState P
  pub drawn : ℕ
  pub sent : List (Sent PaxosMessage)

-- What the lambda of `handle_key_space_change` captures.
pub record ChangeTask : Type 0 where
  pub endpoint_id : EndpointId
  pub message : KeySpaceSelection

-- The entry that is proposed: the ranges are copied field by field.
unfoldable pub changed_entry : KeySpaceSelection → PaxosLogEntry
changed_entry m =
    Paxos.key_space_changed (record { new_ranges = m.new_ranges; generation = m.generation })

module _ {P : Type 0} (instance_provider : ℕ → SlaveState P → Result SinglePaxosHandler)
    (random : ℕ → ℕ) where
  unfoldable pub propose_change :
      ChangeTask → SlaveNode P → Result (ChangeTask × SlaveNode P × Wait)
  propose_change t m = do
    (multi, sent) ←
        Multi.propose instance_provider (changed_entry t.message) (random m.drawn) m.multi m.log
          m.state
    ok (
      t,
      record m { multi = multi; drawn = m.drawn + 1; sent = m.sent ++ sent },
      again wait_for_paxos,
    )

  -- One call of the task.
  unfoldable pub change_task : ChangeTask → SlaveNode P → Result (ChangeTask × SlaveNode P × Wait)
  unfolding propose_change reply
  change_task t m =
      let generation = m.state.key_space.generation in
      let propose = propose_change t m in
      if ltb (inc32 generation) t.message.generation
      then ok (t, m, terminate)
      else if inc32 generation == t.message.generation
      then propose
      else if generation == t.message.generation
      then ok (
        t,
        record m { state = reply (t.endpoint_id ∷ []) t.message.generation m.state },
        terminate,
      )
      else ok (t, m, terminate)

unfoldable pub handle_key_space_change :
    EndpointId → KeySpaceSelection → AsyncQueue ChangeTask → AsyncQueue ChangeTask
handle_key_space_change endpoint_id message =
    add_task (record { endpoint_id = endpoint_id; message = message })
