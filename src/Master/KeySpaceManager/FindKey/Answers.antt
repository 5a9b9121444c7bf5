-- ===== src/Master/KeySpaceManager/FindKey/Answers.antt =====
-- What clients are told by src/master/KeySpaceManager.cc.
use universal_db.Base.{
  ℕ, false, none, map, inc32, All, ◌+◌, ◌≡◌, refl, List, [], ◌∷◌, ◌++◌, arith, if_cases,
  Option-cases, inl, inr,
}
use universal_db.Base.Eq.{◌==◌, nat_eq}
use universal_db.Base.Result.{Result, ok, thrown, Ensures, Ensures-bind, ◌>>=◌}
use universal_db.Proto.Client.{FindKeyRangeRequest, unset, error, Code}
use universal_db.Async.Queue.{Wait, terminate, again}
use universal_db.Proto.Paxos
use universal_db.Proto.Paxos.{PaxosLogEntry, PaxosMessage}
use universal_db.Net.Sent.{Sent}
use universal_db.Paxos.Multi.{MultiPaxosHandler}
use universal_db.Paxos.Multi
use universal_db.Paxos.Single.{SinglePaxosHandler}
use universal_db.Server.KeySpaceRange.{KeySpaceRange, build_range}
use universal_db.Master.GroupConfigManager.{SlaveGroupId}
use universal_db.Master.KeySpaceManager.{
  key_space, new_key_space, MasterState, retry_limit, wait_time, announce,
  build_new_key_space_selected_paxos,
}
use universal_db.Master.KeySpaceManager.FindKey.{
  MasterNode, FindTask, Scan, assigned, pending, not_found, scan, first_free, selection_of, respond,
  propose, select, find_key_task,
}
use universal_db.Master.KeySpaceManager.FindKey.Scans.{
  IsFirst, NoneCovers, IsChanging, IsFree, Found, scan-Found, first_free-none, first_free-IsFree,
}

-- The selection that gives the group the whole table, in the next generation.
abbrev pub whole_table : FindKeyRangeRequest → SlaveGroupId → List KeySpaceRange → ℕ → PaxosLogEntry
whole_table m g ranges generation = Paxos.key_space_selected (record {
  slave_group_id = g;
  new_ranges = map build_range (
      ranges
      ++ record {
        database_id = m.database_id;
        table_id = m.table_id;
        start_key = none;
        end_key = none;
      }
        ∷ []);
  generation = inc32 generation;
})

-- The node after an answer to the client.
abbrev pub answered : FindTask → SlaveGroupId → Code → MasterNode → MasterNode
answered t g code n = record n {
  responses = n.responses ++ (t.endpoint_id, record { slave_group_id = g; error_code = code }) ∷ [];
}

-- What one call of the task does. The first group that covers the key decides: the client is told
-- of it if it has the key, and the selection is announced to it again if it is about to have it.
-- If there is none, the client is told an error at the limit of the retries; else the first group
-- that is not in transition is proposed for the whole table, or the task waits if all are.
pub data Step (instance_provider : ℕ → MasterState → Result SinglePaxosHandler) (random : ℕ → ℕ)
    (t : FindTask) (n : MasterNode) (r : FindTask × MasterNode × Wait) : Type 0 where
  told :
      (g : SlaveGroupId) (ranges : List KeySpaceRange) (generation : ℕ)
      → IsFirst t.message (g, key_space ranges generation) n.state.slave_group_ranges
      → r ≡ (t, answered t g unset n, terminate)
      → Step instance_provider random t n r
  announced :
      (g : SlaveGroupId) (ranges new_ranges : List KeySpaceRange) (generation : ℕ) (s : MasterState)
      → IsFirst t.message (g, new_key_space ranges new_ranges generation) n.state.slave_group_ranges
      → announce g new_ranges generation n.state ≡ ok s
      → r ≡ (t, record n { state = s }, again wait_time)
      → Step instance_provider random t n r
  given_up :
      NoneCovers t.message n.state.slave_group_ranges
      → t.retry_count ≡ retry_limit
      → r ≡ (t, answered t [] error n, terminate)
      → Step instance_provider random t n r
  waited :
      NoneCovers t.message n.state.slave_group_ranges
      → (t.retry_count == retry_limit) ≡ false
      → All IsChanging n.state.slave_group_ranges
      → r ≡ (t, n, again wait_time)
      → Step instance_provider random t n r
  proposed :
      (g : SlaveGroupId) (ranges : List KeySpaceRange) (generation : ℕ) (multi : MultiPaxosHandler)
      (sent : List (Sent PaxosMessage))
      → NoneCovers t.message n.state.slave_group_ranges
      → (t.retry_count == retry_limit) ≡ false
      → IsFree g ranges generation n.state.slave_group_ranges
      → Multi.propose instance_provider
          (whole_table t.message g ranges generation)
          (random n.drawn)
          n.multi
          n.log
          n.state
        ≡ ok (multi, sent)
      → r ≡ (
        record t { retry_count = t.retry_count + 1 },
        record n { multi = multi; drawn = n.drawn + 1; sent = n.sent ++ sent },
        again wait_time,
      )
      → Step instance_provider random t n r

module _ (instance_provider : ℕ → MasterState → Result SinglePaxosHandler) (random : ℕ → ℕ) where
  abbrev IsStep : FindTask → MasterNode → Result (FindTask × MasterNode × Wait) → Type 0
  IsStep t n = Ensures (Step instance_provider random t n)

  propose-Step :
      (t : FindTask) (n : MasterNode) (g : SlaveGroupId) (ranges : List KeySpaceRange)
      (generation : ℕ)
      → NoneCovers t.message n.state.slave_group_ranges
      → (t.retry_count == retry_limit) ≡ false
      → IsFree g ranges generation n.state.slave_group_ranges
      → IsStep t n (
          propose instance_provider random (selection_of t.message g ranges generation) n >>= λ n'.
          ok (record t { retry_count = t.retry_count + 1 }, n', again wait_time))
  unfolding propose selection_of build_new_key_space_selected_paxos
  propose-Step t n g ranges generation h more free =
      by_result
        (Multi.propose instance_provider (whole_table t.message g ranges generation)
          (random n.drawn) n.multi n.log n.state)
        refl
    where
      by_result :
          (o : Result (MultiPaxosHandler × List (Sent PaxosMessage)))
          → Multi.propose instance_provider
              (whole_table t.message g ranges generation)
              (random n.drawn)
              n.multi
              n.log
              n.state
            ≡ o
          → IsStep t n (
              o
              >>= (λ q. ok (record n { multi = q.0; drawn = n.drawn + 1; sent = n.sent ++ q.1 }))
              >>= λ n'. ok (record t { retry_count = t.retry_count + 1 }, n', again wait_time))
      by_result (ok q) e = proposed g ranges generation q.0 q.1 h more free e refl
      by_result (thrown failure) e = tt

  select-Step :
      (t : FindTask) (n : MasterNode)
      → NoneCovers t.message n.state.slave_group_ranges
      → IsStep t n (select instance_provider random t n)
  unfolding select respond
  select-Step t n h =
      if_cases (IsStep t n) (t.retry_count == retry_limit) _ _
        (λ limit. given_up h (ground (arith, limit)) refl)
        λ more. elim (Option-cases (first_free n.state.slave_group_ranges)) [
          | inl none_free ↦
              rw none_free
                (waited h more (first_free-none n.state.slave_group_ranges none_free) refl)
          | inr (free, there) ↦ rw there (
              propose-Step t n free.0 free.1.0 free.1.1 h more
                (first_free-IsFree n.state.slave_group_ranges free there))
        ]

  -- Every call of the task of a client that asks for a key, if it throws nothing, is on each of
  -- its branches as `Step` says: the client is told of the first group that covers the key if that
  -- has a range with it.
  pub find_key_task-Step :
      (t : FindTask) (n : MasterNode)
      → Ensures (Step instance_provider random t n) (find_key_task instance_provider random t n)
  unfolding find_key_task respond
  find_key_task-Step t n =
      by_scan (scan t.message n.state.slave_group_ranges)
        (scan-Found t.message n.state.slave_group_ranges)
    where
      by_scan :
          (r : Scan)
          → Found t.message n.state.slave_group_ranges r
          → IsStep t n (elim r [
            | assigned group_id ↦ ok (
              t,
              respond t.endpoint_id (record { slave_group_id = group_id; error_code = unset }) n,
              terminate,
            )
            | pending group_id new_ranges generation ↦
                announce group_id new_ranges generation n.state >>= λ s.
                ok (t, record n { state = s }, again wait_time)
            | not_found ↦ select instance_provider random t n
          ])
      by_scan (assigned g) (ranges, generation, first) = told g ranges generation first refl
      by_scan (pending g rs k) (ranges, first) =
          Ensures-bind _ (announce g rs k n.state) _ λ s e. announced g ranges rs k s first e refl
      by_scan not_found h = select-Step t n h
