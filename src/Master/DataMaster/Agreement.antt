-- ===== src/Master/DataMaster/Agreement.antt =====
-- The masters (src/master/DataMaster.cc) beside one another.
use universal_db.Base.{ℕ, ◌≡◌, ap, sym, ◌∙◌, List, All}
use universal_db.Base.Result.{ok, Ensures-ok}
use universal_db.Net.EndpointId.{EndpointId}
use universal_db.Paxos.Log.{next_available_index}
use universal_db.Paxos.Multi.Shadowed.{SameEntries, same_shadow}
use universal_db.Master.KeySpaceManager.{MasterState, GroupRanges}
use universal_db.Master.GroupConfigManager.{SlaveGroupId, GroupConfigManager}
use universal_db.Paxos.Config.{PaxosConfigManager}
use universal_db.Master.MasterIncomingMessageHandler.{MasterServer}
use universal_db.Master.MasterIncomingMessageHandler.Keeping.{Keeps}
use universal_db.Master.DataMaster.{Event, run, new_master, new_state, master_log, group_id}
use universal_db.Master.DataMaster.Groups.{IsAlike}
use universal_db.Master.DataMaster.Tracked.{IsTracked}
use universal_db.Master.DataMaster.Steps.{EventNarrow, run-Keeps, new_master-Keeps}

-- The state, whatever has been announced.
pub record Groups : Type 0 where
  pub configs : PaxosConfigManager
  pub slaves : GroupConfigManager
  pub ranges : List (SlaveGroupId × GroupRanges)

unfoldable pub groups_of : MasterState → Groups
groups_of s = record {
  configs = s.paxos_config_manager;
  slaves = s.config_manager;
  ranges = s.slave_group_ranges;
}

IsAlike-groups_of :
    (group : SlaveGroupId) (slaves : List EndpointId) (s t : MasterState)
    → IsAlike group slaves s t
    → groups_of s ≡ groups_of t
unfolding groups_of
IsAlike-groups_of group slaves s t h = ap groups_of h.first ∙ sym (ap groups_of h.second)

-- Two masters that are built alike, and run on through any messages, any calls of their tasks and
-- any rounds of syncing, have the same configurations, the same slaves in the same groups and the
-- same ranges of the groups, whenever their least available indices are equal and their logs agree
-- where both have an entry. The indices in messages are those of a uint32.
pub masters_agree :
    (slaves masters : List EndpointId) (num_slave_servers : ℕ) (random random' : ℕ → ℕ)
    (es es' : List Event) (s t : MasterServer)
    → All EventNarrow es
    → All EventNarrow es'
    → run num_slave_servers random es (new_master slaves masters) ≡ ok s
    → run num_slave_servers random' es' (new_master slaves masters) ≡ ok t
    → SameEntries s.node.log t.node.log
    → next_available_index s.node.log ≡ next_available_index t.node.log
    → groups_of s.node.state ≡ groups_of t.node.state
masters_agree slaves masters n random random' es es' s t w w' ran ran' agree e =
    let r = tracked random es s w ran in
    let q = tracked random' es' t w' ran' in
    let shadows =
      same_shadow (IsAlike group_id slaves) master_log.callbacks (new_state slaves masters)
        s.node.log t.node.log s.node.state t.node.state r q agree e in
    IsAlike-groups_of group_id slaves s.node.state r.shadow r.related
    ∙ ap groups_of shadows
    ∙ sym (IsAlike-groups_of group_id slaves t.node.state q.shadow q.related)
  where
    tracked :
        (random : ℕ → ℕ) (es : List Event) (s : MasterServer)
        → All EventNarrow es
        → run n random es (new_master slaves masters) ≡ ok s
        → IsTracked slaves masters s.node.log s.node.state
    tracked random es s w ran =
        (Ensures-ok (Keeps (IsTracked slaves masters)) (run n random es (new_master slaves masters))
          (run-Keeps slaves masters n random es (new_master slaves masters) w
            (new_master-Keeps slaves masters))
          ran).1
