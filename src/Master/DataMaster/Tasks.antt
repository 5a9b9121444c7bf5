-- ===== src/Master/DataMaster/Tasks.antt =====
-- The tasks of a master (src/master/KeySpaceManager.cc): they change what is announced, and propose.
use universal_db.Base.{
  ℕ, ◌≡◌, sym, ap, ◌∙◌, subst, some, List, Bool-cases, Option-cases, inl, inr, if_cases,
}
use universal_db.Base.Eq.{◌==◌, nat_eq, contains}
use universal_db.Base.Bytes.{bytes_eq}
use universal_db.Base.Assoc.{find}
use universal_db.Base.Result.{Ensures, Ensures-ok, Ensures-bind}
use universal_db.Net.EndpointId.{EndpointId, endpoint_eq}
use universal_db.Net.Sent.{Sent}
use universal_db.Proto.Paxos.{PaxosLogEntry, PaxosMessage}
use universal_db.Proto.Paxos
use universal_db.Paxos.Multi
use universal_db.Paxos.Multi.{MultiPaxosHandler}
use universal_db.Paxos.Multi.Placed.{AllPlaced, propose-AllPlaced}
use universal_db.Paxos.Provider.{provide-ProvidesPlaced}
use universal_db.Master.GroupConfigManager.{get_group_id, group_of}
use universal_db.Master.KeySpaceManager.{
  GroupRanges, key_space, new_key_space, retry_limit, announce,
}
use universal_db.Master.KeySpaceManager.FindKey.{
  MasterNode, FindTask, scan, selection_of, first_free, respond, propose, select, find_key_task,
  commit_task,
}
use universal_db.Master.DataMaster.{group_id, instance_provider}
use universal_db.Master.DataMaster.Groups.{one_group, IsAlike}
use universal_db.Master.DataMaster.Tracked.{
  NodeKept, announced-IsAlike, scan_one, no_group, its_group, at_group,
}

module _ (slaves masters : List EndpointId) (num_slave_servers : ℕ) (random : ℕ → ℕ) where
  propose-keeps :
      (entry : PaxosLogEntry) (n : MasterNode)
      → NodeKept slaves masters n
      → Ensures
          (NodeKept slaves masters)
          (propose (instance_provider num_slave_servers random) random entry n)
  unfolding propose instance_provider
  propose-keeps entry n h =
      let once =
        Multi.propose (instance_provider num_slave_servers random) entry (random n.drawn) n.multi
          n.log n.state in
      Ensures-bind _ once _ λ r e. (
        Ensures-ok (λ (r : MultiPaxosHandler × List (Sent PaxosMessage)). AllPlaced r.0) once
            (propose-AllPlaced (instance_provider num_slave_servers random)
              (provide-ProvidesPlaced num_slave_servers (λ s. s.paxos_config_manager)) entry
              (random n.drawn) n.multi n.log n.state h.0)
            e,
        h.1,
      )

  select-keeps :
      (t : FindTask) (n : MasterNode)
      → NodeKept slaves masters n
      → Ensures
          (λ r. NodeKept slaves masters r.1)
          (select (instance_provider num_slave_servers random) random t n)
  unfolding select respond
  select-keeps t n h =
      if_cases (Ensures (λ r. NodeKept slaves masters r.1)) (t.retry_count == retry_limit) _ _
        (λ _. h)
        (λ _. elim (Option-cases (first_free n.state.slave_group_ranges)) [
          | inl taken ↦ rw (taken) h
          | inr (free, there) ↦ rw (there) (
              Ensures-bind _
                (propose (instance_provider num_slave_servers random) random
                  (selection_of t.message free.0 free.1.0 free.1.1) n)
                _
                λ n' e.
                  Ensures-ok (NodeKept slaves masters) _
                    (propose-keeps (selection_of t.message free.0 free.1.0 free.1.1) n h) e)
        ])

  pub find_key_task-keeps :
      (t : FindTask) (n : MasterNode)
      → NodeKept slaves masters n
      → Ensures
          (λ r. NodeKept slaves masters r.1)
          (find_key_task (instance_provider num_slave_servers random) random t n)
  unfolding find_key_task respond
  find_key_task-keeps t n h =
      let r = h.1.related in
      let one = one_group group_id slaves r.configs r.ranges r.announced in
      let ranges = ap (λ s. s.slave_group_ranges) r.first in
      elim (scan_one t.message group_id r.ranges) [
        | inl missing ↦
            rw (ap (scan t.message) ranges ∙ missing, find_key_task) (select-keeps t n h)
        | inr (inl found) ↦ rw (ap (scan t.message) ranges ∙ found, find_key_task) h
        | inr (inr (new_ranges, generation, soon)) ↦
            rw (ap (scan t.message) ranges ∙ soon, find_key_task)
              (Ensures-bind _ (announce group_id new_ranges generation n.state) _ λ s e. (
                h.0,
                record {
                  same_callbacks = h.1.same_callbacks;
                  shadow = h.1.shadow;
                  derived = h.1.derived;
                  related = subst (IsAlike group_id slaves s) (sym r.second) (
                      Ensures-ok _ (announce group_id new_ranges generation one)
                        (announced-IsAlike group_id slaves new_ranges generation r.configs r.ranges
                          r.announced r.announced')
                        (ap (announce group_id new_ranges generation) (sym r.first) ∙ e));
                },
              ))
      ]

  pub commit_task-keeps :
      (t : EndpointId × ℕ) (n : MasterNode)
      → NodeKept slaves masters n
      → Ensures
          (λ r. NodeKept slaves masters r.1)
          (commit_task (instance_provider num_slave_servers random) random t n)
  unfolding commit_task get_group_id
  commit_task-keeps (endpoint, generation) n h =
      let r = h.1.related in
      elim (Bool-cases (contains endpoint slaves)) [
        | inr other ↦
            rw
              (
                ap (λ s. group_of endpoint s.config_manager.slave_group_config) r.first
                    ∙ no_group endpoint slaves other,
                commit_task,
              )
              h
        | inl member ↦
            by_ranges r.ranges
              (ap (λ s. group_of endpoint s.config_manager.slave_group_config) r.first
                ∙ its_group endpoint slaves member)
              (ap (λ s. find group_id s.slave_group_ranges) r.first ∙ at_group r.ranges)
      ]
    where
      by_ranges :
          (ranges : GroupRanges)
          → group_of endpoint n.state.config_manager.slave_group_config ≡ some group_id
          → find group_id n.state.slave_group_ranges ≡ some ranges
          → Ensures
              (λ r. NodeKept slaves masters r.1)
              (commit_task
                (instance_provider num_slave_servers random)
                random
                (endpoint, generation)
                n)
      by_ranges (key_space _ _) its there = rw (its, there, commit_task) h
      by_ranges (new_key_space _ _ current) its there =
          let commit =
            Paxos.key_space_commit
              (record { slave_group_id = group_id; generation = generation }) in
          rw (its, there, commit_task)
            (if_cases (Ensures (λ r. NodeKept slaves masters r.1)) (current == generation) _ _
              (λ _.
                Ensures-bind _
                  (propose (instance_provider num_slave_servers random) random commit n) _
                  λ n' e. Ensures-ok (NodeKept slaves masters) _ (propose-keeps commit n h) e)
              (λ _. h))
