-- ===== src/Async/Queue/Order.antt =====
-- Runs of an AsyncQueue (src/async/AsyncQueue.cc), and the order of its tasks in them.
use universal_db.Base.{
  ℕ, suc, ◌≡◌, refl, sym, ap, ◌∙◌, false, List, [], ◌∷◌, ◌++◌, arith, length, map, append_assoc,
  append-nil, map-append,
}
use universal_db.Base.Eq.{◌==◌, nat_eq}
use universal_db.Base.Result.{
  Result, ok, thrown, ◌>>=◌, Ensures, Ensures-ok, Ensures-bind, Ensures-mono,
}
use universal_db.Async.Queue.{
  AsyncQueue, Wait, terminate, again, add_task, run_task, after_call, fire, schedule_once,
}

module _ {T : Type 0} where
  -- One job waits for a queue that has tasks, and none for one that has none.
  abbrev pub IsScheduled : List T → List ℕ → Type 0
  IsScheduled [] scheduled = scheduled ≡ []
  IsScheduled (_ ∷ _) scheduled = length scheduled ≡ 1

  abbrev pub IsValid : AsyncQueue T → Type 0
  IsValid q = IsScheduled q.callbacks q.scheduled

  add_task-IsValid :
      (task : T) (callbacks : List T) (scheduled : List ℕ)
      → IsScheduled callbacks scheduled
      → IsValid (add_task task (record { callbacks = callbacks; scheduled = scheduled }))
  unfolding add_task schedule_once
  add_task-IsValid task [] scheduled v = ground (arith, v)
  add_task-IsValid task (x ∷ []) scheduled v = v
  add_task-IsValid task (x ∷ y ∷ xs) scheduled v =
      let many : (suc (suc (length (xs ++ task ∷ []))) == 1) ≡ false = ground arith in rw many v

  callbacks-add_task :
      (task : T) (q : AsyncQueue T) → (add_task task q).callbacks ≡ q.callbacks ++ task ∷ []
  unfolding add_task schedule_once
  callbacks-add_task task q = ground arith

  after_call-IsValid :
      (task : T) (rest : List T) (wait : Wait) (q : AsyncQueue T)
      → q.scheduled ≡ []
      → IsValid (after_call task rest wait q)
  unfolding after_call schedule_once
  after_call-IsValid task rest (again n) q v = rw v refl
  after_call-IsValid task [] terminate q v = v
  after_call-IsValid task (x ∷ xs) terminate q v = rw v refl

  -- The task that is finished by a call, if any.
  abbrev done : T → Wait → List T
  done task terminate = task ∷ []
  done task (again _) = []

-- What happens to a queue: a task is added, or the scheduler runs a job of it.
pub data Event (T : Type 0) : Type 0 where
  added : T → Event T
  fired : Event T

unfoldable pub tasks_of : {T : Type 0} → List (Event T) → List T
tasks_of [] = []
tasks_of (added t ∷ es) = t ∷ tasks_of es
tasks_of (fired ∷ es) = tasks_of es

module _ {T S I : Type 0} (call : T → S → Result (T × S × Wait)) (name : T → I) where
  -- The task that is finished when the scheduler runs the job of the queue, if any.
  unfoldable pub finishes : AsyncQueue T → S → List T
  finishes q s = elim q.callbacks [
    | [] ↦ []
    | task ∷ _ ↦ elim (call task s) [ ok r ↦ done r.0 r.2 | thrown e ↦ [] ]
  ]

  -- A run, with the tasks that are finished in it.
  unfoldable pub run : List (Event T) → AsyncQueue T → S → Result (List T × AsyncQueue T × S)
  unfolding finishes
  run [] q s = ok ([], q, s)
  run (added task ∷ es) q s = run es (add_task task q) s
  run (fired ∷ es) q s =
      fire call q s >>= λ r. run es r.0 r.1 >>= λ z. ok (finishes q s ++ z.0, z.1, z.2)

  -- A call does not change the name of its task.
  abbrev pub KeepsName : Type 0
  KeepsName = (t t' : T) (s s' : S) (w : Wait) → call t s ≡ ok (t', s', w) → name t' ≡ name t

  names-after_call :
      (t u : T) (rest : List T) (w : Wait) (q : AsyncQueue T)
      → name u ≡ name t
      → map name (done u w) ++ map name (after_call u rest w q).callbacks ≡ name t ∷ map name rest
  unfolding after_call schedule_once
  names-after_call t u rest (again k) q n = ap (λ i. i ∷ map name rest) n
  names-after_call t u [] terminate q n = ap (λ i. i ∷ []) n
  names-after_call t u (x ∷ xs) terminate q n = ap (λ i. i ∷ map name (x ∷ xs)) n

  fire-keeps :
      KeepsName
      → (callbacks : List T) (scheduled : List ℕ) (s : S) → IsScheduled callbacks scheduled
      → Ensures
          (λ r.
            IsValid r.0
            × (map name (finishes (record { callbacks = callbacks; scheduled = scheduled }) s)
                  ++ map name r.0.callbacks
                ≡ map name callbacks))
          (fire call (record { callbacks = callbacks; scheduled = scheduled }) s)
  unfolding finishes fire run_task
  fire-keeps k [] [] s v = (refl, refl)
  fire-keeps k [] (n ∷ ns) s v = absurd (ground arith)
  fire-keeps k (x ∷ xs) [] s v = absurd (ground arith)
  fire-keeps k (x ∷ xs) (n ∷ m ∷ ns) s v = absurd (ground arith)
  fire-keeps k (x ∷ xs) (n ∷ []) s v = Ensures-bind _ (call x s) _ λ r e. (
    after_call-IsValid r.0 xs r.2 (record { callbacks = x ∷ xs; scheduled = [] }) refl,
    rw (e, finishes)
        (names-after_call x r.0 xs r.2 (record { callbacks = x ∷ xs; scheduled = [] })
          (k x r.0 s r.1 r.2 e)),
  )

  -- From a queue with one job scheduled exactly if it has tasks, whatever is added and however
  -- often the scheduler runs its job: unless a callback throws, the tasks that are finished and
  -- then those that wait are, in this order, the tasks that there were and those that were added,
  -- and a job is scheduled exactly if tasks are left.
  pub run_in_order :
      (es : List (Event T)) (q : AsyncQueue T) (s : S)
      → KeepsName
      → IsValid q
      → Ensures
          (λ r.
            IsValid r.1
            × (map name r.0 ++ map name r.1.callbacks
                ≡ map name q.callbacks ++ map name (tasks_of es)))
          (run es q s)
  unfolding run tasks_of
  run_in_order [] q s k v = (v, sym (append-nil (map name q.callbacks)))
  run_in_order (added task ∷ es) q s k v =
      Ensures-mono _ _ (run es (add_task task q) s)
        (run_in_order es (add_task task q) s k (add_task-IsValid task q.callbacks q.scheduled v))
        λ r h. (
          h.0,
          h.1
              ∙ ap (λ xs. map name xs ++ map name (tasks_of es)) (callbacks-add_task task q)
              ∙ ap (λ xs. xs ++ map name (tasks_of es)) (map-append name q.callbacks (task ∷ []))
              ∙ append_assoc (map name q.callbacks) (name task ∷ []) (map name (tasks_of es)),
        )
  run_in_order (fired ∷ es) q s k v = Ensures-bind _ (fire call q s) _ λ r e.
      let first = Ensures-ok _ (fire call q s) (fire-keeps k q.callbacks q.scheduled s v) e in
      Ensures-bind _ (run es r.0 r.1) _ λ z f.
        let rest = Ensures-ok _ (run es r.0 r.1) (run_in_order es r.0 r.1 k first.0) f in
        (
          rest.0,
          ap (λ xs. xs ++ map name z.1.callbacks) (map-append name (finishes q s) z.0)
              ∙ append_assoc (map name (finishes q s)) (map name z.0) (map name z.1.callbacks)
              ∙ ap (λ xs. map name (finishes q s) ++ xs) rest.1
              ∙ sym (
                  append_assoc (map name (finishes q s)) (map name r.0.callbacks)
                    (map name (tasks_of es)))
              ∙ ap (λ xs. xs ++ map name (tasks_of es)) first.1,
        )
