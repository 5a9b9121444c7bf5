-- ===== src/Paxos/ProposerQueue/Runs.antt =====
-- Runs of a ProposerQueue (src/paxos/ProposerQueue.cc), and the jobs that are scheduled in them.
use universal_db.Base.{
  ◌⊎◌, ℕ, zero, suc, ◌≡◌, refl, ap, ◌∙◌, false, ltb, Option, none, some, List, [], ◌∷◌, ◌++◌, arith,
  length, inl, inr, if_cases,
}
use universal_db.Base.Eq.{◌==◌, nat_eq}
use universal_db.Base.Result.{
  Result, ok, thrown, undefined, ◌>>=◌, Ensures, Ensures-ok, Ensures-bind,
}
use universal_db.Proto.Paxos.{PaxosLogEntry}
use universal_db.Paxos.Log.{PaxosLog, next_available_index}
use universal_db.Paxos.Multi
use universal_db.Paxos.Multi.{MultiPaxosHandler, get_instance, put_instance}
use universal_db.Paxos.Single.{SinglePaxosHandler}
use universal_db.Paxos.ProposerQueue.{
  InsertTask, Proposal, ProposerQueue, propose, pop, remove_invalid_tasks, try_proposal_then,
  run_task, try_proposal, try_insert, fire, proposal_retries,
}

-- A task is inserted, the scheduler runs a job, or the node changes what the queue refers to, as
-- messages do.
pub data Event (S : Type 0) : Type 0 where
  inserted : InsertTask S → Event S
  timer : Event S
  changed : MultiPaxosHandler → PaxosLog S → S → Event S

module _ {S : Type 0} where
  unfoldable pub tasks_of : List (Event S) → List (InsertTask S)
  tasks_of [] = []
  tasks_of (inserted t ∷ es) = t ∷ tasks_of es
  tasks_of (timer ∷ es) = tasks_of es
  tasks_of (changed _ _ _ ∷ es) = tasks_of es

  unfoldable pub timers : ℕ → List (Event S)
  timers zero = []
  timers (suc n) = timer ∷ timers n

  -- A job waits for the front of the queue, or none does.
  abbrev pub IsFronted : ProposerQueue S → Type 0
  IsFronted q =
      (q.scheduled ≡ [])
      ⊎ ((p : Proposal S) × (later : List (InsertTask S)) × (q.tasks ≡ p.task ∷ later)
          × (q.scheduled ≡ p ∷ []))

  module _ (instance_provider : ℕ → S → Result SinglePaxosHandler) (random : ℕ → ℕ) where
    unfoldable pub step : Event S → ProposerQueue S → Result (ProposerQueue S)
    step (inserted task) q = try_insert instance_provider random task q
    step timer q = fire instance_provider random q
    step (changed multi log s) q = ok (record q { multi = multi; log = log; state = s })

    unfoldable pub run : List (Event S) → ProposerQueue S → Result (ProposerQueue S)
    unfolding step
    run [] q = ok q
    run (e ∷ es) q = step e q >>= λ q'. run es q'

    pub not_one :
        (t : InsertTask S) (ts : List (InsertTask S)) (task : InsertTask S)
        → (length ((t ∷ ts) ++ task ∷ []) == 1) ≡ false
    not_one t [] task = refl
    not_one t (u ∷ ts) task = ground arith

    -- What run_task calls for the front task is try_proposal.
    run_task-try_proposal :
        (task : InsertTask S) (index : ℕ) (entry : PaxosLogEntry) (q : ProposerQueue S)
        → try_proposal_then instance_provider random ok task index entry proposal_retries q
          ≡ try_proposal instance_provider random task index entry proposal_retries q
    unfolding try_proposal_then try_proposal
    run_task-try_proposal task index entry q = refl

    propose_same :
        (entry : PaxosLogEntry) (q : ProposerQueue S)
        → Ensures
            (λ q'. (q'.tasks ≡ q.tasks) × (q'.scheduled ≡ q.scheduled))
            (propose instance_provider random entry q)
    unfolding propose
    propose_same entry q =
        let once = Multi.propose instance_provider entry (random q.drawn) q.multi q.log q.state in
        Ensures-bind _ once _ λ r _. (refl, refl)

    -- What is done for the front task leaves one job, that task's, or the task is done with.
    try_proposal_then-IsFronted :
        (next : ProposerQueue S → Result (ProposerQueue S)) (task : InsertTask S) (index : ℕ)
        (entry : PaxosLogEntry) (tries : ℕ) (q : ProposerQueue S) (ts : List (InsertTask S))
        → q.tasks ≡ task ∷ ts
        → q.scheduled ≡ []
        → ((q' : ProposerQueue S) → q'.scheduled ≡ [] → Ensures IsFronted (next q'))
        → Ensures IsFronted
            (try_proposal_then instance_provider random next task index entry tries q)
    unfolding try_proposal_then pop propose
    try_proposal_then-IsFronted next task index entry zero q ts front idle then_next =
        Ensures-bind _ (next_available_index q.log) _ λ available _.
          if_cases (Ensures IsFronted) (ltb index available) _ _ (λ _. inl idle)
            (λ _. rw front (then_next _ idle))
    try_proposal_then-IsFronted next task index entry (suc tries) q ts front idle then_next =
        Ensures-bind _ (next_available_index q.log) _ λ available _.
          if_cases (Ensures IsFronted) (ltb index available) _ _ (λ _. inl idle)
            (λ _. Ensures-bind _ (propose instance_provider random entry q) _ λ q' e.
              let (tasks, scheduled) =
                Ensures-ok
                  (λ (q' : ProposerQueue S). (q'.tasks ≡ q.tasks) × (q'.scheduled ≡ q.scheduled))
                  (propose instance_provider random entry q) (propose_same entry q) e in
              let p : Proposal S = record {
                task = task;
                index = index;
                entry = entry;
                tries = tries;
              } in
              inr (p, ts, tasks ∙ front, ap (λ l. l ++ p ∷ []) (scheduled ∙ idle)))

    run_task-IsFronted :
        (q : ProposerQueue S)
        → q.scheduled ≡ []
        → Ensures IsFronted (run_task instance_provider random q)
    unfolding run_task
    run_task-IsFronted q idle =
        let (entry, tasks, s) = remove_invalid_tasks q.tasks q.state in by_result entry tasks s
      where
        by_result :
            (entry : Option PaxosLogEntry) (tasks : List (InsertTask S)) (s : S)
            → Ensures IsFronted (
                let q' = record q { tasks = tasks; state = s } in
                elim entry [
                  | none ↦ ok q'
                  | some e ↦ elim tasks [
                    | [] ↦ thrown undefined
                    | task ∷ _ ↦ next_available_index q'.log >>= λ index.
                        try_proposal_then instance_provider random ok task index e proposal_retries
                          q'
                  ]
                ])
        by_result none tasks s = inl idle
        by_result (some e) [] s = tt
        by_result (some e) (task ∷ ts) s = Ensures-bind _ (next_available_index q.log) _ λ index _.
            try_proposal_then-IsFronted ok task index e proposal_retries
              (record q { tasks = task ∷ ts; state = s }) ts refl idle (λ q' none. inl none)

    step-IsFronted :
        (e : Event S) (q : ProposerQueue S) → IsFronted q → Ensures IsFronted (step e q)
    unfolding step try_insert fire try_proposal
    step-IsFronted (changed multi log s) q h = h
    step-IsFronted timer q (inl idle) = rw idle (inl refl)
    step-IsFronted timer q (inr (p, ts, front, waiting)) = rw waiting (
        try_proposal_then-IsFronted (run_task instance_provider random) p.task p.index p.entry
          p.tries (record q { scheduled = [] }) ts front refl run_task-IsFronted)
    step-IsFronted (inserted task) q (inl idle) =
        let longer = record q { tasks = q.tasks ++ task ∷ [] } in
        if_cases (Ensures IsFronted) (length longer.tasks == 1) _ _
          (λ _. run_task-IsFronted longer idle) (λ _. inl idle)
    step-IsFronted (inserted task) q (inr (p, ts, front, waiting)) =
        let many : (length (q.tasks ++ task ∷ []) == 1) ≡ false =
          rw (front, not_one p.task ts task) refl in
        rw many (inr (p, ts ++ task ∷ [], ap (λ l. l ++ task ∷ []) front, waiting))

    -- At most one job is scheduled in any run of a queue that has no job at first, and it is one
    -- for the task at the front of the queue.
    pub run-IsFronted :
        (es : List (Event S)) (q : ProposerQueue S) → IsFronted q → Ensures IsFronted (run es q)
    unfolding run
    run-IsFronted [] q h = h
    run-IsFronted (e ∷ es) q h =
        Ensures-bind _ (step e q) _
          λ q' ran. run-IsFronted es q' (Ensures-ok IsFronted (step e q) (step-IsFronted e q h) ran)
