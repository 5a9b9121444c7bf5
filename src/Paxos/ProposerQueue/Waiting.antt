-- ===== src/Paxos/ProposerQueue/Waiting.antt =====
-- What the scheduled job of a ProposerQueue (src/paxos/ProposerQueue.cc) waits for, and where it
-- waits in vain.
use universal_db.Base.{
  ℕ, zero, suc, ◌<◌, ◌≡◌, refl, sym, ap, ◌∙◌, true, false, ltb, List, [], ◌∷◌, ◌++◌, arith, length,
  append_assoc, append-nil,
}
use universal_db.Base.Eq.{◌==◌, nat_eq}
use universal_db.Base.Result.{Result, ok}
use universal_db.Paxos.Log.{next_available_index}
use universal_db.Paxos.Single.{SinglePaxosHandler}
use universal_db.Paxos.ProposerQueue.{
  InsertTask, Proposal, ProposerQueue, try_proposal_then, run_task, try_proposal, try_insert, fire,
}
use universal_db.Paxos.ProposerQueue.Runs.{Event, inserted, timer, changed, tasks_of, run, not_one}
use universal_db.Paxos.ProposerQueue.Proposals.{Proposals}

module _ {S : Type 0} where
  module _ (instance_provider : ℕ → S → Result SinglePaxosHandler) (random : ℕ → ℕ) where
    -- A queue with tasks and without a job.
    stays_stalled :
        (es : List (Event S)) (q : ProposerQueue S) (t : InsertTask S) (ts : List (InsertTask S))
        → q.tasks ≡ t ∷ ts
        → q.scheduled ≡ []
        → (q' : ProposerQueue S) × (run instance_provider random es q ≡ ok q')
          × (q'.tasks ≡ (t ∷ ts) ++ tasks_of es)
          × (q'.scheduled ≡ [])
          × (q'.sent ≡ q.sent)
    unfolding run tasks_of try_insert fire
    stays_stalled [] q t ts front idle = (q, refl, front ∙ sym (append-nil (t ∷ ts)), idle, refl)
    stays_stalled (inserted task ∷ es) q t ts front idle =
        let longer = record q { tasks = q.tasks ++ task ∷ [] } in
        let many : (length (q.tasks ++ task ∷ []) == 1) ≡ false =
          rw (front, not_one instance_provider random t ts task) refl in
        let (q', ran, all, same, sent) =
          stays_stalled es longer t (ts ++ task ∷ []) (ap (λ l. l ++ task ∷ []) front) idle in
        (q', rw many ran, all ∙ append_assoc (t ∷ ts) (task ∷ []) (tasks_of es), same, sent)
    stays_stalled (timer ∷ es) q t ts front idle =
        rw idle (stays_stalled es (record q { scheduled = [] }) t ts front refl)
    stays_stalled (changed multi log s ∷ es) q t ts front idle =
        stays_stalled es (record q { multi = multi; log = log; state = s }) t ts front idle

    -- Once the job of the front task finds that the log has advanced beyond the index of its
    -- proposal, the queue never gets anywhere: whatever follows, it keeps all its tasks and those
    -- that are inserted, schedules nothing and sends nothing more.
    pub stalls :
        (es : List (Event S)) (q : ProposerQueue S) (p : Proposal S) (ts : List (InsertTask S))
        (available : ℕ)
        → q.tasks ≡ p.task ∷ ts
        → q.scheduled ≡ p ∷ []
        → next_available_index q.log ≡ ok available
        → p.index < available
        → (q' : ProposerQueue S) × (run instance_provider random (timer ∷ es) q ≡ ok q')
          × (q'.tasks ≡ (p.task ∷ ts) ++ tasks_of es)
          × (q'.scheduled ≡ [])
          × (q'.sent ≡ q.sent)
    unfolding run fire try_proposal try_proposal_then
    stalls es q p ts available front waiting next advanced =
        rw (waiting, exits p.tries)
          (stays_stalled es (record q { scheduled = [] }) p.task ts front refl)
      where
        late : ltb p.index available ≡ true
        late = ground (arith, advanced)

        exits :
            (tries : ℕ)
            → try_proposal_then instance_provider random
                (run_task instance_provider random)
                p.task
                p.index
                p.entry
                tries
                (record q { scheduled = [] })
              ≡ ok (record q { scheduled = [] })
        exits zero = rw (next, late, try_proposal_then) refl
        exits (suc tries) = rw (next, late, try_proposal_then) refl
