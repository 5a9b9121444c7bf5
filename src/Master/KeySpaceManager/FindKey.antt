-- ===== src/Master/KeySpaceManager/FindKey.antt =====
-- The tasks of src/master/KeySpaceManager.cc: a client asks which group has a key, and a slave
-- reports that it has taken over a selection.
pub mod Scans
pub mod Answers
use universal_db.Base.{
  ℕ, ◌+◌, Bool, true, false, ◌||◌, Option, none, some, List, [], ◌∷◌, ◌++◌, map, inc32,
  if◌then◌else◌,
}
use universal_db.Base.Eq.{◌==◌, nat_eq}
use universal_db.Base.Bytes.{Bytes, bytes_eq}
use universal_db.Base.Assoc.{find, assign}
use universal_db.Base.Result.{Result, ok, ◌>>=◌}
use universal_db.Net.EndpointId.{EndpointId}
use universal_db.Net.Sent.{Sent}
use universal_db.Proto.Paxos.{PaxosMessage, PaxosLogEntry}
use universal_db.Proto.Paxos
use universal_db.Proto.Client.{FindKeyRangeRequest, FindKeyRangeResponse, unset, error}
use universal_db.Async.Queue.{AsyncQueue, Wait, terminate, again, add_task}
use universal_db.Paxos.Log.{PaxosLog}
use universal_db.Paxos.Multi.{MultiPaxosHandler}
use universal_db.Paxos.Multi
use universal_db.Paxos.Single.{SinglePaxosHandler}
use universal_db.Server.KeySpaceRange.{KeySpaceRange, within_range}
use universal_db.Master.GroupConfigManager.{SlaveGroupId, get_group_id}
use universal_db.Master.KeySpaceManager.{
  GroupRanges, key_space, new_key_space, MasterState, retry_limit, wait_time, announce,
  build_new_key_space_selected_paxos,
}

-- What the tasks work on. `responses` are what SendFindKeyRangeResponse is called with.
pub record MasterNode : Type 0 where
  pub multi : MultiPaxosHandler
  pub log : PaxosLog MasterState
  pub state : MasterState
  pub drawn : ℕ
  pub sent : List (Sent PaxosMessage)
  pub responses : List (EndpointId × FindKeyRangeResponse)

-- What the lambda of `handle_find_key` captures.
pub record FindTask : Type 0 where
  pub endpoint_id : EndpointId
  pub message : FindKeyRangeRequest
  pub retry_count : ℕ

-- Some range of the list has the key.
unfoldable pub any_within : FindKeyRangeRequest → List KeySpaceRange → Bool
any_within m [] = false
any_within m (r ∷ rs) = within_range r m.database_id m.table_id m.key || any_within m rs

-- How the loop over the groups ends: at a group that has the key, at one that is about to get it,
-- or at the end of the map.
pub data Scan : Type 0 where
  assigned : SlaveGroupId → Scan
  pending : SlaveGroupId → List KeySpaceRange → ℕ → Scan
  not_found : Scan

unfoldable pub scan : FindKeyRangeRequest → List (SlaveGroupId × GroupRanges) → Scan
unfolding any_within
scan m [] = not_found
scan m ((group_id, key_space ranges generation) ∷ groups) =
    let rest = scan m groups in if any_within m ranges then assigned group_id else rest
scan m ((group_id, new_key_space ranges new_ranges generation) ∷ groups) =
    let rest = scan m groups in
    if any_within m new_ranges then pending group_id new_ranges generation else rest

-- The first group in the steady state.
unfoldable pub first_free :
    List (SlaveGroupId × GroupRanges) → Option (SlaveGroupId × (List KeySpaceRange × ℕ))
first_free [] = none
first_free ((group_id, key_space ranges generation) ∷ groups) =
    some (group_id, (ranges, generation))
first_free ((group_id, new_key_space _ _ _) ∷ groups) = first_free groups

-- The entry that gives the whole table to the group.
unfoldable pub selection_of :
    FindKeyRangeRequest → SlaveGroupId → List KeySpaceRange → ℕ → PaxosLogEntry
unfolding build_new_key_space_selected_paxos
selection_of m group_id ranges generation = Paxos.key_space_selected (
    build_new_key_space_selected_paxos group_id
      (ranges
        ++ record {
          database_id = m.database_id;
          table_id = m.table_id;
          start_key = none;
          end_key = none;
        }
          ∷ [])
      (inc32 generation))

unfoldable pub respond : EndpointId → FindKeyRangeResponse → MasterNode → MasterNode
respond endpoint_id response n = record n {
  responses = n.responses ++ (endpoint_id, response) ∷ [];
}

module _ (instance_provider : ℕ → MasterState → Result SinglePaxosHandler) (random : ℕ → ℕ) where
  unfoldable pub propose : PaxosLogEntry → MasterNode → Result MasterNode
  propose entry n = do
    (multi, sent) ← Multi.propose instance_provider entry (random n.drawn) n.multi n.log n.state
    ok (record n { multi = multi; drawn = n.drawn + 1; sent = n.sent ++ sent })

  -- The end of the task of `handle_find_key`, when no group has the key or is about to get it.
  unfoldable pub select : FindTask → MasterNode → Result (FindTask × MasterNode × Wait)
  unfolding respond selection_of propose
  select t n =
      if t.retry_count == retry_limit
      then ok (
        t,
        respond t.endpoint_id (record { slave_group_id = []; error_code = error }) n,
        terminate,
      )
      else elim (first_free n.state.slave_group_ranges) [
        | none ↦ ok (t, n, again wait_time)
        | some free ↦ propose (selection_of t.message free.0 free.1.0 free.1.1) n >>= λ n'.
            ok (record t { retry_count = t.retry_count + 1 }, n', again wait_time)
      ]

  -- One call of the task of `handle_find_key`.
  unfoldable pub find_key_task : FindTask → MasterNode → Result (FindTask × MasterNode × Wait)
  unfolding respond select
  find_key_task t n = elim (scan t.message n.state.slave_group_ranges) [
    | assigned group_id ↦ ok (
      t,
      respond t.endpoint_id (record { slave_group_id = group_id; error_code = unset }) n,
      terminate,
    )
    | pending group_id new_ranges generation ↦
        announce group_id new_ranges generation n.state >>= λ s.
        ok (t, record n { state = s }, again wait_time)
    | not_found ↦ select t n
  ]

  -- `_slave_group_ranges[group_id]` makes a default KeySpace for a group that is not there. The
  -- task of `handle_key_space_changed` captures the endpoint and the generation.
  unfoldable pub commit_task :
      EndpointId × ℕ → MasterNode → Result ((EndpointId × ℕ) × MasterNode × Wait)
  unfolding propose
  commit_task (endpoint_id, generation) n = elim (get_group_id endpoint_id n.state.config_manager) [
    | none ↦ ok ((endpoint_id, generation), n, terminate)
    | some group_id ↦ elim (find group_id n.state.slave_group_ranges) [
      | none ↦ ok (
        (endpoint_id, generation),
        record n {
          state = record n.state {
            slave_group_ranges = assign group_id (key_space [] 0) n.state.slave_group_ranges;
          };
        },
        terminate,
      )
      | some (key_space _ _) ↦ ok ((endpoint_id, generation), n, terminate)
      | some (new_key_space _ _ current) ↦
          let commit =
            Paxos.key_space_commit
              (record { slave_group_id = group_id; generation = generation }) in
          let proposed = propose commit n in
          if current == generation
          then (proposed >>= λ n'. ok ((endpoint_id, generation), n', again wait_time))
          else ok ((endpoint_id, generation), n, terminate)
    ]
  ]

-- The message of a client, for `_async_queue`.
unfoldable pub handle_find_key :
    EndpointId → FindKeyRangeRequest → AsyncQueue FindTask → AsyncQueue FindTask
handle_find_key endpoint_id message =
    add_task (record { endpoint_id = endpoint_id; message = message; retry_count = 0 })

-- The message of a slave, for `_local_async_queue`.
unfoldable pub handle_key_space_changed :
    EndpointId → ℕ → AsyncQueue (EndpointId × ℕ) → AsyncQueue (EndpointId × ℕ)
handle_key_space_changed endpoint_id generation = add_task (endpoint_id, generation)
