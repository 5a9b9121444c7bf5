-- ===== src/Master/GroupConfigManager/Groups.antt =====
-- The groups that src/master/GroupConfigManager.cc finds.
use universal_db.Base.{◌≡◌, refl, ◌∙◌, true, none, some, List, [], ◌∷◌, arith}
use universal_db.Base.Eq.{contains}
use universal_db.Base.Bytes.{bytes_eq, bytes_beq_refl}
use universal_db.Base.Assoc.{find, insert, find-insert}
use universal_db.Net.EndpointId.{EndpointId, endpoint_eq}
use universal_db.Master.GroupConfigManager.{
  SlaveGroupId, GroupConfig, GroupConfigManager, config, set_first_config, get_endpoints,
  get_group_id, group_of, slaves_of,
}

group_of-insert :
    (group_id : SlaveGroupId) (slaves : List EndpointId) (e : EndpointId)
    (groups : List (SlaveGroupId × GroupConfig))
    → find group_id groups ≡ none
    → group_of e groups ≡ none
    → contains e slaves ≡ true
    → group_of e (insert group_id (config slaves 0) groups) ≡ some group_id
unfolding group_of slaves_of find insert
group_of-insert group_id slaves e [] n g c = rw c refl
group_of-insert group_id slaves e ((j, state) ∷ groups) n g c =
    ground (arith, n, g, group_of-insert group_id slaves e groups)

-- A new group has the slaves that it is made with, and each of them that was in no group before is
-- found to be in it.
pub first_config_found :
    (group_id : SlaveGroupId) (slaves : List EndpointId) (e : EndpointId) (m : GroupConfigManager)
    → find group_id m.slave_group_config ≡ none
    → get_group_id e m ≡ none
    → contains e slaves ≡ true
    → (get_endpoints group_id (set_first_config group_id slaves m)
        ≡ (slaves, set_first_config group_id slaves m))
      × (get_group_id e (set_first_config group_id slaves m) ≡ some group_id)
unfolding get_endpoints set_first_config get_group_id slaves_of
first_config_found group_id slaves e m n g c =
    let there : find group_id (insert group_id (config slaves 0) m.slave_group_config)
        ≡ some (config slaves 0) =
      find-insert group_id group_id (config slaves 0) m.slave_group_config
      ∙ rw n (rw (bytes_beq_refl group_id) refl) in
    (rw (there, get_endpoints) refl, group_of-insert group_id slaves e m.slave_group_config n g c)
