-- ===== src/Async/Queue/Keeping.antt =====
-- What the jobs of an AsyncQueue (src/async/AsyncQueue.cc) keep of the state that the tasks work on.
use universal_db.Base.{ℕ, List, [], ◌∷◌}
use universal_db.Base.Result.{Result, Ensures, Ensures-ok, Ensures-bind}
use universal_db.Async.Queue.{AsyncQueue, Wait, run_task, fire}

module _ {T S : Type 0} (P : S → Type 0) (call : T → S → Result (T × S × Wait))
    (call-P : (task : T) (s : S) → P s → Ensures (λ r. P r.1) (call task s)) where
  run_task-keeps : (q : AsyncQueue T) (s : S) → P s → Ensures (λ r. P r.1) (run_task call q s)
  unfolding run_task
  run_task-keeps q s h = by_callbacks q.callbacks
    where
      by_callbacks :
          (callbacks : List T)
          → Ensures (λ r. P r.1) (run_task call (record q { callbacks = callbacks }) s)
      by_callbacks [] = tt
      by_callbacks (task ∷ rest) =
          Ensures-bind _ (call task s) _
            λ r e. Ensures-ok (λ (r : T × S × Wait). P r.1) (call task s) (call-P task s h) e

  -- What each call of a task keeps, a job of the queue keeps.
  pub fire-keeps : (q : AsyncQueue T) (s : S) → P s → Ensures (λ r. P r.1) (fire call q s)
  unfolding fire
  fire-keeps q s h = by_scheduled q.scheduled
    where
      by_scheduled :
          (scheduled : List ℕ)
          → Ensures (λ r. P r.1) (fire call (record q { scheduled = scheduled }) s)
      by_scheduled [] = h
      by_scheduled (t ∷ later) = run_task-keeps (record q { scheduled = later }) s h
