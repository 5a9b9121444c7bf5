-- ===== src/Base/Lists.antt =====
-- Vectors as lists, measured and indexed by native numbers, under the library's names.
use Prim.Native.Nat.{ℕ, zero, suc, ◌+◌, ◌-◌, ◌<◌}
use mathlib.Core.Path.{◌≡◌, refl}
use mathlib.Core.List.{List, [], ◌∷◌, ◌++◌}
use mathlib.Core.Option.{Option, none, some}
use native.Mathlib.Omega.{arith}

module _ {ℓ} {A : Type ℓ} where
  abbrev pub length : List A → ℕ
  length [] = 0
  length (x ∷ xs) = suc (length xs)

  abbrev pub get_elem? : List A → ℕ → Option A
  get_elem? [] i = none
  get_elem? (x ∷ xs) zero = some x
  get_elem? (x ∷ xs) (suc i) = get_elem? xs i

  -- The last element of a non-empty vector, given its first and the rest.
  abbrev pub last : A → List A → A
  last x [] = x
  last x (y ∷ ys) = last y ys

  pub length-append : (xs ys : List A) → length (xs ++ ys) ≡ length xs + length ys
  length-append [] ys = omega arith
  length-append (x ∷ xs) ys = omega (arith, length-append xs ys)

  pub last-append_one : (x : A) (xs : List A) (y : A) → last x (xs ++ y ∷ []) ≡ y
  last-append_one x [] y = refl
  last-append_one x (z ∷ xs) y = last-append_one z xs y

  pub get_elem?_total : (xs : List A) (i : ℕ) → i < length xs → (a : A) × (get_elem? xs i ≡ some a)
  get_elem?_total [] i h = elim h [ ]
  get_elem?_total (x ∷ xs) zero h = (x, refl)
  get_elem?_total (x ∷ xs) (suc i) h = get_elem?_total xs i (omega arith)

  pub get_elem?_cons :
      (x : A) (xs : List A) (i : ℕ) → 0 < i → get_elem? (x ∷ xs) i ≡ get_elem? xs (i - 1)
  get_elem?_cons x xs zero h = elim h [ ]
  get_elem?_cons x xs (suc i) h = rw suc-sub-one
    where
      suc-sub-one : suc i - 1 ≡ i
      suc-sub-one = omega arith

-- Every element satisfies the predicate.
abbrev pub All {ℓ κ} : {A : Type ℓ} (P : A → Type κ) (v : List A) → Type κ
All P [] = Unit
All P (first ∷ rest) = P first × All P rest

pub All-append {ℓ κ} :
    {A : Type ℓ} (P : A → Type κ) (v w : List A) → All P v → All P w → All P (v ++ w)
All-append P [] w _ k = k
All-append P (first ∷ rest) w (h, hs) k = (h, All-append P rest w hs k)
