-- ===== src/Paxos/Single/Learner.antt =====
-- The learner of an instance: `learn` of src/paxos/SinglePaxosHandler.cc.
use universal_db.Base.{ℕ, ◌+◌, ◌≤◌, ◌≡◌, true, false, none, some, List, [], ◌∷◌, if◌then◌else◌}
use universal_db.Base.Eq.{◌==◌, nat_eq}
use universal_db.Base.Assoc.{find}
use universal_db.Base.Result.{Result, ok, ◌>>=◌}
use universal_db.Proto.Paxos.{PaxosLogEntry, Learn}
use universal_db.Paxos.Log.{PaxosLog}
use universal_db.Paxos.Single.{SinglePaxosHandler, majority_threshold, learn}

-- The count of a round.
unfoldable pub count_of : ℕ → List (ℕ × (PaxosLogEntry × ℕ)) → ℕ
count_of n values = elim (find n values) [ none ↦ 0 | some it ↦ it.1 ]

-- How many of the messages are of the round.
unfoldable pub learns_of : ℕ → List Learn → ℕ
learns_of n [] = 0
learns_of n (m ∷ ms) = (if m.vrnd == n then 1 else 0) + learns_of n ms

-- With at most `received n` Learn messages of each round `n`: no count is above that, the log and
-- its state are untouched before a value is learned, and a learned value has a round of which a
-- majority of messages was received.
pub record Counted {S : Type 0} (threshold : ℕ) (received : ℕ → ℕ) (log₀ : PaxosLog S) (s₀ : S)
    (h : SinglePaxosHandler) (log : PaxosLog S) (s : S) : Type 0 where
  pub same : majority_threshold h ≡ threshold
  pub counts : (n : ℕ) → count_of n h.learner.learned_value ≤ received n
  pub majority : h.learner.learned ≡ true → (n : ℕ) × (threshold ≤ received n)
  pub untouched : h.learner.learned ≡ false → (log ≡ log₀) × (s ≡ s₀)

module _ {S : Type 0} (threshold : ℕ) (log₀ : PaxosLog S) (s₀ : S) where
  abbrev more : Learn → (ℕ → ℕ) → ℕ → ℕ
  more message received n = (if message.vrnd == n then 1 else 0) + received n

-- The Learn messages that come in, one after the other.
unfoldable pub learns :
    {S : Type 0}
    → List Learn
    → SinglePaxosHandler
    → PaxosLog S
    → S
    → Result (SinglePaxosHandler × PaxosLog S × S)
learns [] h log s = ok (h, log, s)
learns (m ∷ ms) h log s = learn m h log s >>= λ r. learns ms r.0 r.1 r.2
