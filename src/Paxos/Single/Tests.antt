-- ===== src/Paxos/Single/Tests.antt =====
-- The theorems on one instance, at an instance of three servers.
use universal_db.Base.{ℕ, ◌≡◌, ◌⊎◌, refl, inl, inr, true, some, List, [], ◌∷◌, arith, All}
use universal_db.Base.Eq.{nat_eq}
use universal_db.Base.Assoc.{find}
use universal_db.Base.Result.{ok}
use universal_db.Net.Sent.{Sent, broadcast}
use universal_db.Proto.Paxos.{
  PaxosLogEntry, reconfig_finished, not_set, Promise, Learn, PaxosMessage,
}
use universal_db.Proto.Paxos
use universal_db.Paxos.Log.{PaxosLog}
use universal_db.Paxos.Single.{
  SinglePaxosHandler, Setting, new_handler, majority_threshold, message_of, propose, promise,
  choose_value,
}
use universal_db.Paxos.Single.Proposer.{
  propose_repeats, choose_value_agree, promise_takes_last, promises, promises_one_accept,
  IsAccepting, vote_of, counted, accepting,
}

abbrev setting : Setting
setting = record {
  num_slave_servers = 3;
  paxos_log_index = 0;
  config_endpoints = record { ip_string = 49 ∷ []; port = 80 } ∷ [];
}

abbrev fresh : SinglePaxosHandler
fresh = new_handler setting

-- After a proposal with the number 7, and one promise that carries a value of round 9.
abbrev proposed : SinglePaxosHandler
proposed = record fresh {
  proposer = record {
    latest = 7;
    proposal = (7, reconfig_finished) ∷ [];
    prepare_state = (7, (9, not_set) ∷ []) ∷ [];
  };
}

propose_repeats_example :
    (find 7 (propose not_set 0 proposed).0.proposer.proposal ≡ some reconfig_finished)
    × (find 7 (propose not_set 0 proposed).0.proposer.prepare_state ≡ some ((9, not_set) ∷ []))
    × ((propose not_set 0 proposed).1
        ≡ broadcast setting.config_endpoints
            (message_of proposed (Paxos.prepare (record { rnd = 7 })))
          ∷ [])
unfolding find new_handler
propose_repeats_example =
    propose_repeats not_set reconfig_finished ((9, not_set) ∷ []) proposed (omega arith) refl refl

choose_value_agree_example :
    All (λ (p : ℕ × PaxosLogEntry). p.0 ≡ 0) ((0, not_set) ∷ (4, reconfig_finished) ∷ [])
    ⊎ (choose_value 0 not_set ((0, not_set) ∷ (4, reconfig_finished) ∷ []) ≡ reconfig_finished)
choose_value_agree_example =
    choose_value_agree not_set reconfig_finished ((0, not_set) ∷ (4, reconfig_finished) ∷ [])
      (inl refl, (inr refl, tt))

abbrev last_promise : Promise
last_promise = record { rnd = 7; vrnd = 3; vval = reconfig_finished }

-- The value of round 3 is sent for acceptance, not the one of round 9.
promise_takes_last_example :
    promise last_promise proposed
    ≡ ok (
      counted last_promise proposed ((9, not_set) ∷ []),
      accepting last_promise proposed ((9, not_set) ∷ []) reconfig_finished,
    )
unfolding find majority_threshold new_handler
promise_takes_last_example =
    promise_takes_last last_promise proposed ((9, not_set) ∷ []) reconfig_finished refl refl
      (omega arith) (omega arith)

promises_one_accept_example :
    (sent : List (Sent PaxosMessage)) × (promises (last_promise ∷ last_promise ∷ []) proposed
      ≡ ok sent)
    × IsAccepting 7 setting reconfig_finished
        ((9, not_set) ∷ vote_of last_promise ∷ vote_of last_promise ∷ [])
        sent
unfolding find majority_threshold new_handler
promises_one_accept_example =
    promises_one_accept 7 (last_promise ∷ last_promise ∷ []) proposed ((9, not_set) ∷ [])
      reconfig_finished (refl, (refl, tt)) refl refl

abbrev learn_message : Learn
learn_message = record { vrnd = 7; vval = reconfig_finished }

abbrev learned_handler : SinglePaxosHandler
learned_handler = record fresh {
  learner = record { learned = true; learned_value = (7, (reconfig_finished, 2)) ∷ [] };
}

abbrev empty_log : PaxosLog ℕ
empty_log = record { log = []; available_indices = 0 ∷ []; callbacks = [] }

abbrev full_log : PaxosLog ℕ
full_log = record { log = (0, reconfig_finished) ∷ []; available_indices = 1 ∷ []; callbacks = [] }

abbrev base : ℕ
base = 3
