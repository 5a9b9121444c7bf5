-- ===== src/Base/AssocValues.antt =====
-- Association lists whose values all satisfy a predicate.
use universal_db.Base.{
  ◌≡◌, some, List, [], ◌∷◌, arith, All, if_cases, Bool-cases, inl, inr, some_inj, subst,
}
use universal_db.Base.Eq.{Eq, ◌==◌}
use universal_db.Base.Assoc.{find, insert, assign}

module _ {ℓ κ μ} {K : Type ℓ} {V : Type κ} ⦃e : Eq K⦄ (P : V → Type μ) where
  abbrev pub AllValues : List (K × V) → Type μ
  AllValues m = All (λ (p : K × V). P p.1) m

  pub insert-AllValues :
      (k : K) (v : V) (m : List (K × V)) → P v → AllValues m → AllValues (insert k v m)
  unfolding insert
  insert-AllValues k v [] w a = (w, tt)
  insert-AllValues k v ((j, x) ∷ m) w a =
      if_cases AllValues (j == k) _ _ (λ _. a) (λ _. (a.0, insert-AllValues k v m w a.1))

  pub assign-AllValues :
      (k : K) (v : V) (m : List (K × V)) → P v → AllValues m → AllValues (assign k v m)
  unfolding assign
  assign-AllValues k v [] w a = (w, tt)
  assign-AllValues k v ((j, x) ∷ m) w a =
      if_cases AllValues (j == k) _ _ (λ _. (w, a.1)) (λ _. (a.0, assign-AllValues k v m w a.1))

  pub find-AllValues : (k : K) (v : V) (m : List (K × V)) → AllValues m → find k m ≡ some v → P v
  unfolding find
  find-AllValues k v [] a h = absurd (ground arith)
  find-AllValues k v ((j, x) ∷ m) a h = elim (Bool-cases (j == k)) [
    | inl here ↦ subst P (some_inj (ground (arith, h, here))) a.0
    | inr there ↦ find-AllValues k v m a.1 (ground (arith, h, there))
  ]
