-- ===== src/Master/GroupConfigManager.antt =====
-- GroupConfigManager of src/master/GroupConfigManager.h and GroupConfigManager.cc: the slaves of
-- each group. A SlaveGroupId (src/server/SlaveGroupId.h) is its string.
pub mod Groups
mod Tests
use universal_db.Base.{
  ℕ, ◌≡◌, refl, Bool, true, false, Option, none, some, List, [], ◌∷◌, ◌++◌, arith, if◌then◌else◌,
  Bool-cases, inl, inr, Option-cases,
}
use universal_db.Base.Eq.{contains}
use universal_db.Base.Bytes.{Bytes, bytes_eq}
use universal_db.Base.Assoc.{find, insert, assign}
use universal_db.Net.EndpointId.{EndpointId, endpoint_eq}

abbrev pub SlaveGroupId : Type 0
SlaveGroupId = Bytes

-- The variant of Config and NewConfig.
pub data GroupConfig : Type 0 where
  config : List EndpointId → ℕ → GroupConfig
  new_config : List EndpointId → List EndpointId → ℕ → GroupConfig

pub record GroupConfigManager : Type 0 where
  pub slave_group_config : List (SlaveGroupId × GroupConfig)

unfoldable pub set_first_config :
    SlaveGroupId → List EndpointId → GroupConfigManager → GroupConfigManager
set_first_config group_id slave_endpoints m = record {
  slave_group_config = insert group_id (config slave_endpoints 0) m.slave_group_config;
}

unfoldable pub slaves_of : GroupConfig → List EndpointId
slaves_of (config slaves generation) = slaves
slaves_of (new_config slaves new_slaves generation) = slaves

-- `_slave_group_config[group_id]` makes the default Config for a group that is not there.
unfoldable pub get_endpoints :
    SlaveGroupId → GroupConfigManager → List EndpointId × GroupConfigManager
unfolding slaves_of
get_endpoints group_id m = elim (find group_id m.slave_group_config) [
  | none ↦ ([], record { slave_group_config = assign group_id (config [] 0) m.slave_group_config })
  | some state ↦ (slaves_of state, m)
]

-- The loop over the groups.
unfoldable pub group_of : EndpointId → List (SlaveGroupId × GroupConfig) → Option SlaveGroupId
unfolding slaves_of
group_of endpoint_id [] = none
group_of endpoint_id ((group_id, state) ∷ groups) =
    let rest = group_of endpoint_id groups in
    if contains endpoint_id (slaves_of state) then some group_id else rest

unfoldable pub get_group_id : EndpointId → GroupConfigManager → Option SlaveGroupId
get_group_id endpoint_id m = group_of endpoint_id m.slave_group_config
