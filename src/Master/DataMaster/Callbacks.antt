-- ===== src/Master/DataMaster/Callbacks.antt =====
-- The callbacks on the log of a master (src/master/KeySpaceManager.cc and
-- src/paxos/PaxosConfigManager.cc) treat states alike that differ by what was announced.
use universal_db.Base.{ℕ, refl, sym, subst, List, map, inc32, Bool-cases, inl, inr}
use universal_db.Base.Eq.{◌==◌, nat_eq}
use universal_db.Base.Bytes.{bytes_eq}
use universal_db.Base.Assoc.{find, assign}
use universal_db.Base.Result.{Ensures-bind}
use universal_db.Net.EndpointId.{EndpointId}
use universal_db.Net.Sent.{Sent}
use universal_db.Proto.Paxos.{PaxosLogEntry, entry_content_case}
use universal_db.Proto.Paxos
use universal_db.Proto.Wrapper.{MasterMessage}
use universal_db.Paxos.Config.{PaxosConfigManager, on_reconfig_started, reconfigure, urls_of}
use universal_db.Paxos.Log.{add_callback, new_log, invoke}
use universal_db.Server.KeySpaceRange.{convert}
use universal_db.Master.GroupConfigManager.{SlaveGroupId}
use universal_db.Master.KeySpaceManager.{
  GroupRanges, key_space, new_key_space, MasterState, selected_of, commit_of, announce,
  on_key_space_selected, on_key_space_commit, register,
}
use universal_db.Master.DataMaster.{master_log, on_reconfig}
use universal_db.Master.DataMaster.Groups.{
  one_group, IsAlike, AlikeStates, alike, call_one-Alike, changed_state, changed-one_group,
  announce-Alike,
}

module _ (group : SlaveGroupId) (slaves : List EndpointId) where
  on_key_space_selected-Alike :
      (i : ℕ) (entry : PaxosLogEntry) (configs : PaxosConfigManager) (ranges : GroupRanges)
      (x x' : List (Sent MasterMessage))
      → AlikeStates group slaves
          (on_key_space_selected i entry (one_group group slaves configs ranges x))
          (on_key_space_selected i entry (one_group group slaves configs ranges x'))
  unfolding on_key_space_selected find
  on_key_space_selected-Alike i entry configs (new_key_space old new generation) x x' =
      elim (Bool-cases (group == (selected_of entry).slave_group_id)) [
        | inl here ↦ rw (here, on_key_space_selected, find) tt
        | inr other ↦ rw (other, on_key_space_selected, find) tt
      ]
  on_key_space_selected-Alike i entry configs (key_space old generation) x x' =
      let m = selected_of entry in
      let changed = new_key_space old (map convert m.new_ranges) m.generation in
      elim (Bool-cases (group == m.slave_group_id)) [
        | inr other ↦ rw (other, on_key_space_selected, find) tt
        | inl here ↦
            rw (here, on_key_space_selected, find)
              (elim (Bool-cases (inc32 generation == m.generation)) [
                | inr differs ↦ rw differs tt
                | inl next ↦
                    let named = announce m.slave_group_id (map convert m.new_ranges) m.generation in
                    let before = key_space old generation in
                    let eq =
                      changed-one_group group slaves m.slave_group_id configs before changed x
                        here in
                    let eq' =
                      changed-one_group group slaves m.slave_group_id configs before changed x'
                        here in
                    rw next (
                      subst
                        (λ t. AlikeStates group slaves (named t) (
                          named (
                            changed_state group slaves m.slave_group_id configs before changed x')))
                        (sym eq)
                        (subst
                          (λ t.
                            AlikeStates group slaves
                              (named (one_group group slaves configs changed x)) (named t))
                          (sym eq')
                          (announce-Alike group slaves m.slave_group_id (map convert m.new_ranges)
                            m.generation configs changed x x' here)))
              ])
      ]

  on_key_space_commit-Alike :
      (i : ℕ) (entry : PaxosLogEntry) (configs : PaxosConfigManager) (ranges : GroupRanges)
      (x x' : List (Sent MasterMessage))
      → AlikeStates group slaves
          (on_key_space_commit i entry (one_group group slaves configs ranges x))
          (on_key_space_commit i entry (one_group group slaves configs ranges x'))
  unfolding on_key_space_commit find
  on_key_space_commit-Alike i entry configs (key_space old generation) x x' =
      elim (Bool-cases (group == (commit_of entry).slave_group_id)) [
        | inl here ↦ rw (here, on_key_space_commit, find) tt
        | inr other ↦ rw (other, on_key_space_commit, find) tt
      ]
  on_key_space_commit-Alike i entry configs (new_key_space old new generation) x x' =
      let m = commit_of entry in
      elim (Bool-cases (group == m.slave_group_id)) [
        | inr other ↦ rw (other, on_key_space_commit, find) tt
        | inl here ↦
            rw (here, on_key_space_commit, find)
              (elim (Bool-cases (generation == m.generation)) [
                | inr differs ↦ rw differs tt
                | inl same ↦ rw same (
                  _,
                  refl,
                  record {
                    configs = configs;
                    ranges = key_space new generation;
                    announced = x;
                    announced' = x';
                    first =
                        changed-one_group group slaves m.slave_group_id configs
                          (new_key_space old new generation) (key_space new generation) x here;
                    second =
                        changed-one_group group slaves m.slave_group_id configs
                          (new_key_space old new generation) (key_space new generation) x' here;
                  },
                )
              ])
      ]

  on_reconfig-Alike :
      (i : ℕ) (entry : PaxosLogEntry) (configs : PaxosConfigManager) (ranges : GroupRanges)
      (x x' : List (Sent MasterMessage))
      → AlikeStates group slaves
          (on_reconfig i entry (one_group group slaves configs ranges x))
          (on_reconfig i entry (one_group group slaves configs ranges x'))
  unfolding on_reconfig on_reconfig_started
  on_reconfig-Alike i entry configs ranges x x' =
      Ensures-bind _ (reconfigure i (urls_of entry) configs) _
        λ m e. rw e (_, refl, alike group slaves m ranges x x')

  pub invoke-Alike :
      (i : ℕ) (entry : PaxosLogEntry) (s s' : MasterState)
      → IsAlike group slaves s s'
      → AlikeStates group slaves
          (invoke master_log.callbacks i entry s)
          (invoke master_log.callbacks i entry s')
  unfolding invoke master_log register add_callback new_log find assign entry_content_case
  invoke-Alike i (Paxos.key_space_selected m) s s' h =
      call_one-Alike group slaves on_key_space_selected i (Paxos.key_space_selected m)
        (on_key_space_selected-Alike i (Paxos.key_space_selected m)) s s' h
  invoke-Alike i (Paxos.key_space_commit m) s s' h =
      call_one-Alike group slaves on_key_space_commit i (Paxos.key_space_commit m)
        (on_key_space_commit-Alike i (Paxos.key_space_commit m)) s s' h
  invoke-Alike i (Paxos.reconfig_started m) s s' h =
      call_one-Alike group slaves on_reconfig i (Paxos.reconfig_started m)
        (on_reconfig-Alike i (Paxos.reconfig_started m)) s s' h
  invoke-Alike i Paxos.not_set s s' h = (s', refl, h)
  invoke-Alike i (Paxos.key_space_changed m) s s' h = (s', refl, h)
  invoke-Alike i (Paxos.read m) s s' h = (s', refl, h)
  invoke-Alike i (Paxos.write m) s s' h = (s', refl, h)
  invoke-Alike i Paxos.reconfig_finished s s' h = (s', refl, h)
