-- ===== src/Paxos/ProposerQueue.antt =====
-- ProposerQueue of src/paxos/ProposerQueue.h and ProposerQueue.cc: tasks that want an entry in the
-- log, of which the first is proposed again and again until the log has advanced or it has failed.
pub mod Runs
pub mod Proposals
pub mod Waiting
mod Tests
use universal_db.Base.{
  ℕ, zero, suc, ◌+◌, Option, none, some, List, [], ◌∷◌, ◌++◌, length, ltb, if◌then◌else◌,
}
use universal_db.Base.Eq.{◌==◌, nat_eq}
use universal_db.Base.Result.{Result, ok, thrown, undefined, ◌>>=◌}
use universal_db.Net.Sent.{Sent}
use universal_db.Proto.Paxos.{PaxosLogEntry, PaxosMessage}
use universal_db.Paxos.Log.{PaxosLog, next_available_index}
use universal_db.Paxos.Multi
use universal_db.Paxos.Multi.{MultiPaxosHandler}
use universal_db.Paxos.Single.{SinglePaxosHandler}

-- The callbacks of a task work on the state of the node.
pub record InsertTask (S : Type 0) : Type 0 where
  pub try_callback : S → Option PaxosLogEntry × S
  pub success_callback : S → S
  pub failure_callback : S → S

-- What the job of `try_proposal` captures.
pub record Proposal (S : Type 0) : Type 0 where
  pub task : InsertTask S
  pub index : ℕ
  pub entry : PaxosLogEntry
  pub tries : ℕ

-- The queue with what it refers to. `scheduled` has the jobs that wait in the scheduler, all for
-- PROPOSAL_WAIT_TIME.
pub record ProposerQueue (S : Type 0) : Type 0 where
  pub tasks : List (InsertTask S)
  pub scheduled : List (Proposal S)
  pub multi : MultiPaxosHandler
  pub log : PaxosLog S
  pub state : S
  pub drawn : ℕ
  pub sent : List (Sent PaxosMessage)

abbrev pub proposal_retries : ℕ
proposal_retries = 3

module _ {S : Type 0} where
  unfoldable pub remove_invalid_tasks :
      List (InsertTask S) → S → Option PaxosLogEntry × List (InsertTask S) × S
  remove_invalid_tasks [] s = (none, [], s)
  remove_invalid_tasks (task ∷ tasks) s =
      let (entry, s') = task.try_callback s in
      elim entry [ some e ↦ (some e, task ∷ tasks, s') | none ↦ remove_invalid_tasks tasks s' ]

  -- `_tasks.pop()`, which is undefined on an empty queue.
  unfoldable pub pop : ProposerQueue S → Result (ProposerQueue S)
  pop q = elim q.tasks [ [] ↦ thrown undefined | _ ∷ tasks ↦ ok (record q { tasks = tasks }) ]

  module _ (instance_provider : ℕ → S → Result SinglePaxosHandler) (random : ℕ → ℕ) where
    unfoldable pub propose : PaxosLogEntry → ProposerQueue S → Result (ProposerQueue S)
    propose entry q =
        Multi.propose instance_provider entry (random q.drawn) q.multi q.log q.state >>= λ r.
        ok (record q { multi = r.0; drawn = q.drawn + 1; sent = q.sent ++ r.1 })

    -- `try_proposal`, where `next` is the `run_task` that it calls in the end.
    unfoldable pub try_proposal_then :
        (ProposerQueue S → Result (ProposerQueue S))
        → InsertTask S
        → ℕ
        → PaxosLogEntry
        → ℕ
        → ProposerQueue S
        → Result (ProposerQueue S)
    unfolding propose pop
    try_proposal_then next task index entry zero q = next_available_index q.log >>= λ available.
        if ltb index available
        then ok q
        else pop (record q { state = task.failure_callback q.state }) >>= next
    try_proposal_then next task index entry (suc tries) q =
        next_available_index q.log >>= λ available.
        if ltb index available
        then ok q
        else propose entry q >>= λ q'. ok (record q' {
          scheduled =
              q'.scheduled
              ++ record { task = task; index = index; entry = entry; tries = tries } ∷ [];
        })

    -- With PROPOSAL_RETRIES tries left, `try_proposal` does not come to its call of `run_task`.
    unfoldable pub run_task : ProposerQueue S → Result (ProposerQueue S)
    unfolding remove_invalid_tasks try_proposal_then
    run_task q =
        let (entry, tasks, s) = remove_invalid_tasks q.tasks q.state in
        let q' = record q { tasks = tasks; state = s } in
        elim entry [
          | none ↦ ok q'
          | some e ↦ elim tasks [
            | [] ↦ thrown undefined
            | task ∷ _ ↦ next_available_index q'.log >>= λ index.
                try_proposal_then ok task index e proposal_retries q'
          ]
        ]

    unfoldable pub try_proposal :
        InsertTask S → ℕ → PaxosLogEntry → ℕ → ProposerQueue S → Result (ProposerQueue S)
    unfolding run_task
    try_proposal = try_proposal_then run_task

    unfoldable pub try_insert : InsertTask S → ProposerQueue S → Result (ProposerQueue S)
    unfolding run_task
    try_insert task q =
        let q' = record q { tasks = q.tasks ++ task ∷ [] } in
        if length q'.tasks == 1 then run_task q' else ok q'

    -- The scheduler runs the oldest job.
    unfoldable pub fire : ProposerQueue S → Result (ProposerQueue S)
    unfolding try_proposal
    fire q = elim q.scheduled [
      | [] ↦ ok q
      | p ∷ later ↦ try_proposal p.task p.index p.entry p.tries (record q { scheduled = later })
    ]
