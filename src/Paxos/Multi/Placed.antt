-- ===== src/Paxos/Multi/Placed.antt =====
-- The instances of src/paxos/MultiPaxosHandler.cc and the indices that they stand under.
use universal_db.Base.{
  ℕ, ◌≡◌, subst, some, List, [], ◌∷◌, arith, if_cases, All, Option-cases, Bool-cases, inl, inr,
  some_inj,
}
use universal_db.Base.Eq.{◌==◌, nat_eq}
use universal_db.Base.Assoc.{find, insert, assign}
use universal_db.Base.Result.{Result, Ensures, Ensures-ok, Ensures-bind}
use universal_db.Proto.Paxos.{PaxosLogEntry}
use universal_db.Paxos.Log.{PaxosLog}
use universal_db.Paxos.Single
use universal_db.Paxos.Single.{SinglePaxosHandler, Setting, majority_threshold}
use universal_db.Paxos.Multi.{MultiPaxosHandler, get_instance, put_instance}
use universal_db.Paxos.Multi.{propose}
use universal_db.Paxos.Log.{next_available_index}

-- An instance stands under its own index.
abbrev pub IsPlaced : ℕ × SinglePaxosHandler → Type 0
IsPlaced p = p.1.setting.paxos_log_index ≡ p.0

abbrev pub AllPlaced : MultiPaxosHandler → Type 0
AllPlaced m = All IsPlaced m.paxos_instances

-- What the owner of the instances promises: it makes each with its index.
abbrev pub ProvidesPlaced : {S : Type 0} → (ℕ → S → Result SinglePaxosHandler) → Type 0
ProvidesPlaced {S = S} instance_provider =
    (index : ℕ) (s : S) → Ensures (λ h. IsPlaced (index, h)) (instance_provider index s)

All-insert :
    (index : ℕ) (h : SinglePaxosHandler) (m : List (ℕ × SinglePaxosHandler))
    → IsPlaced (index, h)
    → All IsPlaced m
    → All IsPlaced (insert index h m)
unfolding insert
All-insert index h [] w a = (w, tt)
All-insert index h ((j, x) ∷ m) w a =
    if_cases (All IsPlaced) (j == index) _ _ (λ _. a) (λ _. (a.0, All-insert index h m w a.1))

pub All-assign :
    (index : ℕ) (h : SinglePaxosHandler) (m : List (ℕ × SinglePaxosHandler))
    → IsPlaced (index, h)
    → All IsPlaced m
    → All IsPlaced (assign index h m)
unfolding assign
All-assign index h [] w a = (w, tt)
All-assign index h ((j, x) ∷ m) w a =
    if_cases (All IsPlaced) (j == index) _ _ (λ e. (ground (arith, w, e), a.1))
      (λ _. (a.0, All-assign index h m w a.1))

All-find :
    (index : ℕ) (h : SinglePaxosHandler) (m : List (ℕ × SinglePaxosHandler))
    → All IsPlaced m
    → find index m ≡ some h
    → IsPlaced (index, h)
unfolding find
All-find index h [] a e = absurd (ground arith)
All-find index h ((j, x) ∷ m) a e = elim (Bool-cases (j == index)) [
  | inl here ↦
      let same : x ≡ h = some_inj (ground (arith, e, here)) in
      subst (λ y. IsPlaced (index, y)) same (ground (arith, a.0, here))
  | inr there ↦ All-find index h m a.1 (ground (arith, e, there))
]

module _ {S : Type 0} (instance_provider : ℕ → S → Result SinglePaxosHandler)
    (provides : ProvidesPlaced instance_provider) where
  pub get_instance-AllPlaced :
      (index : ℕ) (m : MultiPaxosHandler) (s : S)
      → AllPlaced m
      → Ensures
          (λ r. AllPlaced r.0 × IsPlaced (index, r.1))
          (get_instance instance_provider index m s)
  unfolding get_instance
  get_instance-AllPlaced index m s a = elim (Option-cases (find index m.paxos_instances)) [
    | inr (h, there) ↦ rw (there, get_instance) (a, All-find index h m.paxos_instances a there)
    | inl absent ↦
        rw (absent, get_instance)
          (Ensures-bind _ (instance_provider index s) _ λ h e.
            let w =
              Ensures-ok (λ x. IsPlaced (index, x)) (instance_provider index s) (provides index s)
                e in
            (All-insert index h m.paxos_instances w a, w))
  ]

  pub propose-AllPlaced :
      (entry : PaxosLogEntry) (random : ℕ) (m : MultiPaxosHandler) (l : PaxosLog S) (s : S)
      → AllPlaced m
      → Ensures (λ r. AllPlaced r.0) (propose instance_provider entry random m l s)
  unfolding propose put_instance Single.propose
  propose-AllPlaced entry random m l s a = Ensures-bind _ (next_available_index l) _ λ index _.
      Ensures-bind _ (get_instance instance_provider index m s) _ λ q e.
        let (b, w) =
          Ensures-ok
            (λ (r : MultiPaxosHandler × SinglePaxosHandler). AllPlaced r.0 × IsPlaced (index, r.1))
            (get_instance instance_provider index m s) (get_instance-AllPlaced index m s a) e in
        All-assign index (Single.propose entry random q.1).0 q.0.paxos_instances w b
