-- ===== src/Paxos/Provider.antt =====
-- The instance providers of src/slave/TabletParticipant.cc, src/slave/LocalTransactionManager.cc and
-- src/master/DataMaster.cc, which are alike. `num_slave_servers` is that of the constants
-- (src/constants/constants.h), and `manager` is where the state of the node has its
-- PaxosConfigManager.
use universal_db.Base.{ℕ, refl}
use universal_db.Base.Result.{Result, ok, ◌>>=◌, Ensures-bind}
use universal_db.Paxos.Config.{PaxosConfigManager, config}
use universal_db.Paxos.Multi.Placed.{ProvidesPlaced}
use universal_db.Paxos.Single.{SinglePaxosHandler, new_handler}

module _ {S : Type 0} (num_slave_servers : ℕ) (manager : S → PaxosConfigManager) where
  unfoldable pub provide : ℕ → S → Result SinglePaxosHandler
  provide index s = config index (manager s) >>= λ endpoints. ok (
      new_handler (record {
        num_slave_servers = num_slave_servers;
        paxos_log_index = index;
        config_endpoints = endpoints;
      }))

  pub provide-ProvidesPlaced : ProvidesPlaced provide
  unfolding provide new_handler
  provide-ProvidesPlaced index s = Ensures-bind _ (config index (manager s)) _ λ _ _. refl
