-- ===== src/Master/DataMaster/Groups.antt =====
-- The state of a master (src/master/DataMaster.cc) beside what the callbacks of its log make of the
-- log alone: it has one group of slaves, and the tasks of src/master/KeySpaceManager.cc announce
-- selections to its slaves in between.
use universal_db.Base.{ℕ, ◌≡◌, refl, ap, true, List, [], ◌∷◌, arith}
use universal_db.Base.Eq.{◌==◌, nat_eq}
use universal_db.Base.Bytes.{bytes_eq}
use universal_db.Base.Assoc.{find, assign}
use universal_db.Base.Result.{Result, ok, Ensures, Ensures-ok, Ensures-bind}
use universal_db.Net.EndpointId.{EndpointId}
use universal_db.Net.Sent.{Sent}
use universal_db.Proto.Paxos.{PaxosLogEntry}
use universal_db.Proto.Wrapper.{MasterMessage}
use universal_db.Paxos.Config.{PaxosConfigManager}
use universal_db.Paxos.Log.{Callback, call_all}
use universal_db.Server.KeySpaceRange.{KeySpaceRange}
use universal_db.Master.GroupConfigManager.{SlaveGroupId, config, get_endpoints, slaves_of}
use universal_db.Master.KeySpaceManager.{GroupRanges, MasterState, announce, announce_to}

-- A state with one group.
abbrev pub one_group :
    SlaveGroupId
    → List EndpointId
    → PaxosConfigManager
    → GroupRanges
    → List (Sent MasterMessage)
    → MasterState
one_group group slaves configs ranges to_slaves = record {
  paxos_config_manager = configs;
  slave_group_ranges = (group, ranges) ∷ [];
  config_manager = record { slave_group_config = (group, config slaves 0) ∷ [] };
  to_slaves = to_slaves;
}

-- Two states with that group that differ by what was announced alone.
pub record IsAlike (group : SlaveGroupId) (slaves : List EndpointId) (s s' : MasterState)
    : Type 0 where
  pub configs : PaxosConfigManager
  pub ranges : GroupRanges
  pub announced : List (Sent MasterMessage)
  pub announced' : List (Sent MasterMessage)
  pub first : s ≡ one_group group slaves configs ranges announced
  pub second : s' ≡ one_group group slaves configs ranges announced'

module _ (group : SlaveGroupId) (slaves : List EndpointId) where
  abbrev pub AlikeStates : Result MasterState → Result MasterState → Type 0
  AlikeStates once again =
      Ensures (λ s. (s' : MasterState) × (again ≡ ok s') × IsAlike group slaves s s') once

  pub alike :
      (configs : PaxosConfigManager) (ranges : GroupRanges) (x x' : List (Sent MasterMessage))
      → IsAlike group slaves
          (one_group group slaves configs ranges x)
          (one_group group slaves configs ranges x')
  alike configs ranges x x' = record {
    configs = configs;
    ranges = ranges;
    announced = x;
    announced' = x';
    first = refl;
    second = refl;
  }

  -- A callback that treats the two explicit states alike treats all of them alike.
  pub call_one-Alike :
      (c : Callback MasterState) (i : ℕ) (entry : PaxosLogEntry)
      → ((configs : PaxosConfigManager) (ranges : GroupRanges) (x x' : List (Sent MasterMessage))
          → AlikeStates
              (c i entry (one_group group slaves configs ranges x))
              (c i entry (one_group group slaves configs ranges x')))
      → (s s' : MasterState) → IsAlike group slaves s s'
      → AlikeStates (call_all (c ∷ []) i entry s) (call_all (c ∷ []) i entry s')
  unfolding call_all
  call_one-Alike c i entry same s s' h =
      rw (h.first, h.second)
        (Ensures-bind _ (c i entry (one_group group slaves h.configs h.ranges h.announced)) _ λ r e.
          let (r', e', both) =
            Ensures-ok _ (c i entry (one_group group slaves h.configs h.ranges h.announced))
              (same h.configs h.ranges h.announced h.announced') e in
          rw e' (r', refl, both))

  assigned :
      (id : SlaveGroupId) (ranges changed : GroupRanges)
      → (group == id) ≡ true
      → assign id changed ((group, ranges) ∷ []) ≡ (group, changed) ∷ []
  unfolding assign
  assigned id ranges changed here = ground (arith, here)

  -- The state after the ranges of the group have changed.
  abbrev pub changed_state :
      SlaveGroupId
      → PaxosConfigManager
      → GroupRanges
      → GroupRanges
      → List (Sent MasterMessage)
      → MasterState
  changed_state id configs ranges changed x = record (one_group group slaves configs ranges x) {
    slave_group_ranges = assign id changed ((group, ranges) ∷ []);
  }

  pub changed-one_group :
      (id : SlaveGroupId) (configs : PaxosConfigManager) (ranges changed : GroupRanges)
      (x : List (Sent MasterMessage))
      → (group == id) ≡ true
      → changed_state id configs ranges changed x ≡ one_group group slaves configs changed x
  changed-one_group id configs ranges changed x here =
      ap (λ r. record (one_group group slaves configs changed x) { slave_group_ranges = r })
        (assigned id ranges changed here)

  -- An announcement to the group.
  pub announce-Alike :
      (id : SlaveGroupId) (new_ranges : List KeySpaceRange) (generation : ℕ)
      (configs : PaxosConfigManager) (ranges : GroupRanges) (x x' : List (Sent MasterMessage))
      → (group == id) ≡ true
      → AlikeStates
          (announce id new_ranges generation (one_group group slaves configs ranges x))
          (announce id new_ranges generation (one_group group slaves configs ranges x'))
  unfolding announce announce_to get_endpoints find slaves_of
  announce-Alike id new_ranges generation configs ranges x x' here =
      rw (here, announce, get_endpoints, find) (to_group slaves refl)
    where
      to_group :
          (endpoints : List EndpointId)
          → slaves ≡ endpoints
          → AlikeStates
              (announce_to endpoints new_ranges generation
                (one_group group slaves configs ranges x))
              (announce_to endpoints new_ranges generation
                (one_group group slaves configs ranges x'))
      to_group [] e = tt
      to_group (first ∷ more) e = (_, refl, alike configs ranges _ _)
