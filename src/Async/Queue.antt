-- ===== src/Async/Queue.antt =====
-- AsyncQueue of src/async/AsyncQueue.h and AsyncQueue.cc: tasks of which one at a time is run, and
-- run again after the time that it returns. A task is data, with what its callback has captured;
-- a call of it may change that.
pub mod Order
pub mod Keeping
mod Tests
use universal_db.Base.{
  ℕ, Bool, true, false, Option, none, some, List, [], ◌∷◌, ◌++◌, length, if◌then◌else◌,
}
use universal_db.Base.Eq.{◌==◌, nat_eq}
use universal_db.Base.Result.{Result, ok, thrown, undefined, ◌>>=◌}

-- What a callback returns: TERMINATE, which is -1, or the time to wait.
pub data Wait : Type 0 where
  terminate : Wait
  again : ℕ → Wait

-- `scheduled` has the timeouts of the jobs that wait in the scheduler to call `run_task`.
pub record AsyncQueue (T : Type 0) : Type 0 where
  pub callbacks : List T
  pub scheduled : List ℕ

module _ {T : Type 0} where
  unfoldable pub new_queue : AsyncQueue T
  new_queue = record { callbacks = []; scheduled = [] }

  unfoldable pub schedule_once : ℕ → AsyncQueue T → AsyncQueue T
  schedule_once timeout q = record q { scheduled = q.scheduled ++ timeout ∷ [] }

  unfoldable pub add_task : T → AsyncQueue T → AsyncQueue T
  unfolding schedule_once
  add_task task q =
      let q' = record q { callbacks = q.callbacks ++ task ∷ [] } in
      if length q'.callbacks == 1 then schedule_once 0 q' else q'

  unfoldable pub empty : AsyncQueue T → Bool
  empty q = elim q.callbacks [ [] ↦ true | _ ∷ _ ↦ false ]

  -- The rest of `run_task`, with the queue behind its front and what the callback returned.
  unfoldable pub after_call : T → List T → Wait → AsyncQueue T → AsyncQueue T
  unfolding schedule_once
  after_call task rest (again wait) q = schedule_once wait (record q { callbacks = task ∷ rest })
  after_call task [] terminate q = record q { callbacks = [] }
  after_call task (next ∷ rest) terminate q = schedule_once 0 (record q { callbacks = next ∷ rest })

  module _ {S : Type 0} (call : T → S → Result (T × S × Wait)) where
    -- The front of an empty queue is undefined.
    unfoldable pub run_task : AsyncQueue T → S → Result (AsyncQueue T × S)
    unfolding after_call
    run_task q s = elim q.callbacks [
      | [] ↦ thrown undefined
      | task ∷ rest ↦ call task s >>= λ r. ok (after_call r.0 rest r.2 q, r.1)
    ]

    -- The scheduler runs the first of the jobs that wait for the queue.
    unfoldable pub fire : AsyncQueue T → S → Result (AsyncQueue T × S)
    unfolding run_task
    fire q s = elim q.scheduled [
      | [] ↦ ok (q, s)
      | _ ∷ later ↦ run_task (record q { scheduled = later }) s
    ]
