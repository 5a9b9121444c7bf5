-- ===== src/Paxos/Config/Tests.antt =====
-- The theorems on the timeline, at a reconfiguration at index 3.
use universal_db.Base.{◌≡◌, refl, map, inc64, List, [], ◌∷◌, arith}
use universal_db.Base.Bytes.{Bytes}
use universal_db.Base.Result.{ok, thrown, assertion}
use universal_db.Paxos.Config.{PaxosConfigManager, reconfigure, slave_endpoint, config}
use universal_db.Paxos.Config.Governing.{
  governing, found, config-eq-governing, config-reconfigure, reconfigure_next,
}

abbrev urls : List Bytes
urls = (49 ∷ []) ∷ (50 ∷ []) ∷ []

abbrev first : PaxosConfigManager
first = record {
  config_timeline =
      record { index = 0; slaves = record { ip_string = 51 ∷ []; port = 80 } ∷ [] } ∷ [];
}

abbrev second : PaxosConfigManager
second = record {
  config_timeline =
      record { index = 0; slaves = record { ip_string = 51 ∷ []; port = 80 } ∷ [] }
      ∷ record {
        index = 4;
        slaves =
            record { ip_string = 49 ∷ []; port = 0 }
            ∷ record { ip_string = 50 ∷ []; port = 0 }
            ∷ [];
      }
      ∷ [];
}

reconfigured_first : reconfigure 3 urls first ≡ ok second
unfolding reconfigure slave_endpoint inc64
reconfigured_first = refl

config-eq-governing_example : config 4 second ≡ found (governing 4 second.config_timeline)
config-eq-governing_example = config-eq-governing 4 second

config-reconfigure_example : config 4 second ≡ ok (map slave_endpoint urls)
config-reconfigure_example =
    config-reconfigure 3 urls first second (omega arith) reconfigured_first 4

reconfigure_next_example : reconfigure 4 [] second ≡ thrown assertion
reconfigure_next_example = reconfigure_next 3 urls [] first second (omega arith) reconfigured_first
