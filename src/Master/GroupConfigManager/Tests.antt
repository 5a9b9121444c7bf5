-- ===== src/Master/GroupConfigManager/Tests.antt =====
-- The theorem on the groups of src/master/GroupConfigManager.cc, at one group.
use universal_db.Base.{◌≡◌, refl, some, [], ◌∷◌}
use universal_db.Base.Bytes.{bytes_beq, bytes_eq}
use universal_db.Base.Assoc.{find}
use universal_db.Net.EndpointId.{EndpointId, endpoint_eq, endpoint_beq}
use universal_db.Master.GroupConfigManager.{
  GroupConfigManager, set_first_config, get_endpoints, get_group_id, group_of,
}
use universal_db.Master.GroupConfigManager.Groups.{first_config_found}

abbrev slave : EndpointId
slave = record { ip_string = 49 ∷ []; port = 80 }

abbrev empty : GroupConfigManager
empty = record { slave_group_config = [] }

first_config_found_example :
    (get_endpoints (103 ∷ []) (set_first_config (103 ∷ []) (slave ∷ []) empty)
      ≡ (slave ∷ [], set_first_config (103 ∷ []) (slave ∷ []) empty))
    × (get_group_id slave (set_first_config (103 ∷ []) (slave ∷ []) empty) ≡ some (103 ∷ []))
unfolding find get_group_id group_of endpoint_beq bytes_beq
first_config_found_example = first_config_found (103 ∷ []) (slave ∷ []) slave empty refl refl refl
