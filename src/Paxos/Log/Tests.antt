-- ===== src/Paxos/Log/Tests.antt =====
-- The theorems on the log at concrete logs. The state counts what the callbacks have seen.
use universal_db.Base.{ℕ, zero, suc, ◌≡◌, refl, List, [], ◌∷◌, arith, inc64, ltb, not, ◌&&◌}
use universal_db.Base.Eq.{nat_eq, contains}
use universal_db.Base.Assoc.{find, has, insert}
use universal_db.Base.Result.{ok}
use universal_db.Proto.Paxos.{PaxosLogEntry, reconfig_finished, entry_content_case}
use universal_db.Paxos.Log.{
  PaxosLog, Callback, set_entry, set_all, take_index, set_entry_at, next_available_index, invoke,
  invoke_from,
}
use universal_db.Paxos.Log.Invariant.{IsValid}
use universal_db.Paxos.Log.Delivery.{Kept, set_entry-Kept, set_entry_total, Replays}
use universal_db.Paxos.Config.{PaxosConfigManager, on_reconfig_started, reconfigure, urls_of}
use universal_db.Proto.Paxos.{reconfig_started}
use universal_db.Paxos.Log.Replicas.{with_callbacks, replicas_agree}

-- Writes down the indices in the order of the calls.
abbrev trace : Callback (List ℕ)
trace i entry s = ok (i ∷ s)

abbrev tracing : List (ℕ × List (Callback (List ℕ)))
tracing = (7, trace ∷ []) ∷ []

abbrev entry : PaxosLogEntry
entry = reconfig_finished

abbrev empty : PaxosLog (List ℕ)
empty = with_callbacks tracing

abbrev hole : PaxosLog (List ℕ)
hole = record empty { log = (1, entry) ∷ []; available_indices = 0 ∷ 2 ∷ [] }

abbrev filled : PaxosLog (List ℕ)
filled = record empty { log = (1, entry) ∷ (0, entry) ∷ []; available_indices = 2 ∷ [] }

abbrev straight : PaxosLog (List ℕ)
straight = record empty { log = (0, entry) ∷ (1, entry) ∷ []; available_indices = 2 ∷ [] }

hole_then_filled : set_entry 0 entry hole [] ≡ ok (filled, 1 ∷ 0 ∷ [])
unfolding set_entry set_entry_at take_index next_available_index invoke_from invoke find insert
    entry_content_case inc64
hole_then_filled = refl

backwards : set_all ((1, entry) ∷ (0, entry) ∷ []) empty [] ≡ ok (filled, 1 ∷ 0 ∷ [])
unfolding set_all set_entry set_entry_at take_index next_available_index invoke_from invoke find
    insert entry_content_case inc64
backwards = refl

forwards : set_all ((0, entry) ∷ (0, entry) ∷ (1, entry) ∷ []) empty [] ≡ ok (straight, 1 ∷ 0 ∷ [])
unfolding set_all set_entry set_entry_at take_index next_available_index invoke_from invoke find
    insert entry_content_case inc64
forwards = refl

hole-agree : (j : ℕ) → has j ((1, entry) ∷ []) ≡ (ltb j 2 && not (contains j (0 ∷ [])))
unfolding find
hole-agree j = ground arith

abbrev hole-IsValid : IsValid hole
hole-IsValid = record {
  init = 0 ∷ [];
  top = 2;
  shape = refl;
  ascending = (omega arith, tt);
  below = (omega arith, tt);
  agree = hole-agree;
}

set_entry-Kept_example : Kept 0 entry hole filled [] (1 ∷ 0 ∷ [])
unfolding invoke_from
set_entry-Kept_example =
    set_entry-Kept 0 entry hole hole-IsValid [] [] (1 ∷ 0 ∷ []) filled (omega arith) refl
      hole_then_filled

-- A log whose callback fails an assertion on some entries, with a reconfiguration at index 1.
abbrev reconfigured : PaxosLog PaxosConfigManager
reconfigured = record {
  log = (1, reconfig_started ((50 ∷ []) ∷ [])) ∷ [];
  available_indices = 0 ∷ 2 ∷ [];
  callbacks = (6, on_reconfig_started (λ m. m) (λ m _. m) ∷ []) ∷ [];
}

abbrev first_config : PaxosConfigManager
first_config = record { config_timeline = record { index = 0; slaves = [] } ∷ [] }

reconfigured-agree : (j : ℕ) → has j reconfigured.log ≡ (ltb j 2 && not (contains j (0 ∷ [])))
unfolding find
reconfigured-agree j = ground arith

abbrev reconfigured-IsValid : IsValid reconfigured
reconfigured-IsValid = record {
  init = 0 ∷ [];
  top = 2;
  shape = refl;
  ascending = (omega arith, tt);
  below = (omega arith, tt);
  agree = reconfigured-agree;
}

reconfigured-Replays :
    Replays first_config (record reconfigured { log = insert 0 reconfig_finished reconfigured.log })
unfolding invoke_from invoke find insert entry_content_case on_reconfig_started reconfigure urls_of
reconfigured-Replays zero there = (_, refl)
reconfigured-Replays (suc zero) there = (_, refl)
reconfigured-Replays (suc (suc zero)) there = (_, refl)
reconfigured-Replays (suc (suc (suc n))) there = absurd (ground (arith, there 2 (omega arith)))

set_entry_total_example :
    (r : PaxosLog PaxosConfigManager × PaxosConfigManager) × (set_entry 0 reconfig_finished
        reconfigured first_config
      ≡ ok r)
unfolding invoke_from
set_entry_total_example =
    set_entry_total 0 reconfig_finished reconfigured reconfigured-IsValid first_config first_config
      (omega arith) refl reconfigured-Replays

replicas_agree_example : ◌≡◌ {A = List ℕ} (1 ∷ 0 ∷ []) (1 ∷ 0 ∷ [])
unfolding next_available_index find
replicas_agree_example =
    replicas_agree (λ _. entry) tracing [] ((1, entry) ∷ (0, entry) ∷ [])
      ((0, entry) ∷ (0, entry) ∷ (1, entry) ∷ []) filled straight (1 ∷ 0 ∷ []) (1 ∷ 0 ∷ [])
      ((refl, omega arith), ((refl, omega arith), tt))
      ((refl, omega arith), ((refl, omega arith), ((refl, omega arith), tt))) backwards forwards
      refl
