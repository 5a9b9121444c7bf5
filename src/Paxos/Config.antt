-- ===== src/Paxos/Config.antt =====
-- PaxosConfigManager of src/paxos/PaxosConfigManager.h and PaxosConfigManager.cc: which nodes form
-- the group at an index of the log.
pub mod Governing
mod Tests
use universal_db.Base.{
  ℕ, zero, suc, Bool, true, false, Option, none, some, List, [], ◌∷◌, ◌++◌, map, ltb, inc64, length,
  last, get_elem?,
}
use universal_db.Base.Bytes.{Bytes}
use universal_db.Base.Result.{Result, ok, thrown, assertion, undefined, assert, ◌>>=◌, ◌>>◌}
use universal_db.Net.EndpointId.{EndpointId}
use universal_db.Proto.Paxos.{PaxosLogEntry}
use universal_db.Proto.Paxos
use universal_db.Paxos.Log.{Callback}

pub record IndexAndConfig : Type 0 where
  pub index : ℕ
  pub slaves : List EndpointId

pub record PaxosConfigManager : Type 0 where
  pub config_timeline : List IndexAndConfig

unfoldable pub new_config_manager : ℕ → List EndpointId → PaxosConfigManager
new_config_manager index slaves = record {
  config_timeline = record { index = index; slaves = slaves } ∷ [];
}

-- `{slave.url(), 0}`
unfoldable pub slave_endpoint : Bytes → EndpointId
slave_endpoint url = record { ip_string = url; port = 0 }

-- The callback on a ReconfigStarted entry, given the urls in it. `back()` of an empty vector is
-- undefined.
unfoldable pub reconfigure : ℕ → List Bytes → PaxosConfigManager → Result PaxosConfigManager
unfolding slave_endpoint
reconfigure index urls m = elim m.config_timeline [
  | [] ↦ thrown undefined
  | first ∷ rest ↦ do
    assert (ltb (last first rest).index index)
    ok (record {
      config_timeline =
          (first ∷ rest) ++ record { index = inc64 index; slaves = map slave_endpoint urls } ∷ [];
    })
]

-- The loop of `config` and what follows it: `count` is `i + 1`.
unfoldable pub config_from : ℕ → ℕ → List IndexAndConfig → Result (List EndpointId)
config_from zero index timeline = thrown assertion
config_from (suc i) index timeline = elim (get_elem? timeline i) [
  | none ↦ thrown undefined
  | some c ↦ elim (ltb index c.index) [ true ↦ config_from i index timeline | false ↦ ok c.slaves ]
]

-- entry.reconfig_started() of another kind of entry has no slaves.
unfoldable pub urls_of : PaxosLogEntry → List Bytes
urls_of (Paxos.reconfig_started urls) = urls
urls_of _ = []

module _ {S : Type 0} (manager : S → PaxosConfigManager) where
  -- The callback of the constructor, in a node whose state holds the manager.
  unfoldable pub on_reconfig_started : (PaxosConfigManager → S → S) → Callback S
  unfolding urls_of
  on_reconfig_started put index entry s =
      reconfigure index (urls_of entry) (manager s) >>= λ m. ok (put m s)

unfoldable pub config : ℕ → PaxosConfigManager → Result (List EndpointId)
config index m = config_from (length m.config_timeline) index m.config_timeline

unfoldable pub latest_config : PaxosConfigManager → Result (List EndpointId)
latest_config m = elim m.config_timeline [
  | [] ↦ thrown undefined
  | first ∷ rest ↦ ok (last first rest).slaves
]
