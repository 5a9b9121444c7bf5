-- ===== src/Async/Queue/Tests.antt =====
-- The theorem on the queue, with tasks that are numbers: a name, and how often to run again.
use universal_db.Base.{ℕ, zero, suc, ◌≡◌, ◌++◌, refl, sym, ap, List, [], ◌∷◌, map}
use universal_db.Base.Eq.{nat_eq}
use universal_db.Base.Result.{Result, ok, Ensures, ok-injective}
use universal_db.Async.Queue.{Wait, terminate, again, new_queue}
use universal_db.Async.Queue.Order.{
  Event, added, fired, tasks_of, run, IsValid, KeepsName, run_in_order,
}

abbrev Task : Type 0
Task = ℕ × ℕ

-- Counts its calls.
abbrev call : Task → ℕ → Result (Task × ℕ × Wait)
call (n, zero) s = ok ((n, zero), suc s, terminate)
call (n, suc k) s = ok ((n, k), suc s, again 100)

abbrev name : Task → ℕ
name t = t.0

call-KeepsName : KeepsName call name
call-KeepsName (n, zero) u s s' w e = sym (ap (λ (r : Task × ℕ × Wait). r.0.0) (ok-injective e))
call-KeepsName (n, suc j) u s s' w e = sym (ap (λ (r : Task × ℕ × Wait). r.0.0) (ok-injective e))

abbrev events : List (Event Task)
events = added (1, 1) ∷ added (2, 0) ∷ fired ∷ fired ∷ []

run_in_order_example :
    Ensures
      (λ r. IsValid r.1 × (map name r.0 ++ map name r.1.callbacks ≡ 1 ∷ 2 ∷ []))
      (run call name events new_queue 0)
unfolding new_queue tasks_of
run_in_order_example = run_in_order call name events new_queue 0 call-KeepsName refl
