-- ===== src/Paxos/ProposerQueue/Tests.antt =====
-- The theorems on the queue of proposals, for a node whose state counts the failures.
use universal_db.Base.{ℕ, ◌+◌, ◌≡◌, refl, arith, some, List, [], ◌∷◌, inl}
use universal_db.Base.Assoc.{find}
use universal_db.Base.Result.{Result, ok, Ensures}
use universal_db.Proto.Paxos
use universal_db.Paxos.Log.{PaxosLog, next_available_index}
use universal_db.Paxos.Single.{SinglePaxosHandler, new_handler}
use universal_db.Paxos.ProposerQueue.{InsertTask, Proposal, ProposerQueue}
use universal_db.Paxos.ProposerQueue.Runs.{
  Event, inserted, timer, tasks_of, run, IsFronted, run-IsFronted,
}
use universal_db.Paxos.ProposerQueue.Proposals.{Proposals}
use universal_db.Paxos.ProposerQueue.Waiting.{stalls}

abbrev provider : ℕ → ℕ → Result SinglePaxosHandler
provider index s =
    ok (
      new_handler
        (record { num_slave_servers = 3; paxos_log_index = index; config_endpoints = [] }))

abbrev task : InsertTask ℕ
task = record {
  try_callback = λ s. (some Paxos.reconfig_finished, s);
  success_callback = λ s. s;
  failure_callback = λ s. s + 1;
}

abbrev log_to : ℕ → PaxosLog ℕ
log_to index = record { log = []; available_indices = index ∷ []; callbacks = [] }

abbrev empty : ProposerQueue ℕ
empty = record {
  tasks = [];
  scheduled = [];
  multi = record { paxos_instances = [] };
  log = log_to 0;
  state = 0;
  drawn = 0;
  sent = [];
}

abbrev first : Proposal ℕ
first = record { task = task; index = 0; entry = Paxos.reconfig_finished; tries = 2 }

abbrev waiting : PaxosLog ℕ → ProposerQueue ℕ
waiting log = record empty { tasks = task ∷ task ∷ []; scheduled = first ∷ []; log = log }

abbrev events : List (Event ℕ)
events = inserted task ∷ inserted task ∷ timer ∷ timer ∷ timer ∷ timer ∷ []

run-IsFronted_example : Ensures IsFronted (run provider (λ n. n) events empty)
run-IsFronted_example = run-IsFronted provider (λ n. n) events empty (inl refl)

stalls_example :
    (q : ProposerQueue ℕ) × (run provider
        (λ n. n)
        (timer ∷ inserted task ∷ timer ∷ [])
        (waiting (log_to 1))
      ≡ ok q)
    × (q.tasks ≡ task ∷ task ∷ task ∷ [])
    × (q.scheduled ≡ [])
    × (q.sent ≡ [])
unfolding next_available_index find tasks_of
stalls_example =
    stalls provider (λ n. n) (inserted task ∷ timer ∷ []) (waiting (log_to 1)) first (task ∷ []) 1
      refl refl refl (omega arith)
