-- ===== src/Paxos/Log/Indices.antt =====
-- `_available_indices` of PaxosLog (src/paxos/PaxosLog.cc): the missing indices below some `top`,
-- in ascending order, and then `top` itself.
use universal_db.Base.{
  ℕ, zero, suc, ◌+◌, ◌-◌, ◌≤◌, ◌<◌, ◌≡◌, refl, true, false, not, ◌&&◌, ◌||◌, List, [], ◌∷◌, ◌++◌,
  arith, ltb, leb, inc64_lem, u64_mod, last, last-append_one, All, All-append, Bool-cases,
  if◌then◌else◌, append_assoc, inl, inr,
}
use universal_db.Base.Eq.{◌==◌, nat_eq, contains, erase, contains-append}
use universal_db.Paxos.Log.{push_indices, take_index}

-- Strictly ascending, from `low` on.
abbrev pub Ascending : ℕ → List ℕ → Type 0
Ascending low [] = Unit {0}
Ascending low (x ∷ xs) = (low ≤ x) × Ascending (suc x) xs

abbrev pub Below : ℕ → List ℕ → Type 0
Below top = All (λ x. x < top)

-- The first element of `init ++ top ∷ []`.
abbrev pub first_of : List ℕ → ℕ → ℕ
first_of [] top = top
first_of (x ∷ xs) top = x

abbrev pub rest_of : List ℕ → ℕ → List ℕ
rest_of [] top = []
rest_of (x ∷ xs) top = xs ++ top ∷ []

pub first-rest : (init : List ℕ) (top : ℕ) → init ++ top ∷ [] ≡ first_of init top ∷ rest_of init top
first-rest [] top = refl
first-rest (x ∷ xs) top = refl

pub last-first-rest : (init : List ℕ) (top : ℕ) → last (first_of init top) (rest_of init top) ≡ top
last-first-rest [] top = refl
last-first-rest (x ∷ xs) top = last-append_one x xs top

pub contains_low :
    (low : ℕ) (xs : List ℕ) (j : ℕ) → Ascending low xs → j < low → contains j xs ≡ false
contains_low low [] j a h = refl
contains_low low (x ∷ xs) j a h = ground (arith, contains_low (suc x) xs j a.1)

pub contains_high : (top : ℕ) (xs : List ℕ) (j : ℕ) → Below top xs → top ≤ j → contains j xs ≡ false
contains_high top [] j b h = refl
contains_high top (x ∷ xs) j b h = ground (arith, contains_high top xs j b.1)

pub first_of-le : (init : List ℕ) (top : ℕ) → Below top init → first_of init top ≤ top
first_of-le [] top b = omega arith
first_of-le (x ∷ xs) top b = omega arith

pub contains_before_first :
    (init : List ℕ) (top j : ℕ) → Ascending 0 init → j < first_of init top → contains j init ≡ false
contains_before_first [] top j a h = refl
contains_before_first (x ∷ xs) top j a h = ground (arith, contains_low (suc x) xs j a.1)

pub Ascending-mono : (m n : ℕ) (xs : List ℕ) → m ≤ n → Ascending n xs → Ascending m xs
Ascending-mono m n [] h a = tt
Ascending-mono m n (x ∷ xs) h a = (omega arith, a.1)

pub Below-mono : (m n : ℕ) (xs : List ℕ) → m ≤ n → Below m xs → Below n xs
Below-mono m n [] h b = tt
Below-mono m n (x ∷ xs) h b = (omega arith, Below-mono m n xs h b.1)

pub erase-Ascending : (low i : ℕ) (xs : List ℕ) → Ascending low xs → Ascending low (erase i xs)
erase-Ascending low i [] a = tt
erase-Ascending low i (x ∷ xs) a =
    ground (arith, erase-Ascending (suc x) i xs a.1, Ascending-mono low (suc x) xs)

pub erase-Below : (top i : ℕ) (xs : List ℕ) → Below top xs → Below top (erase i xs)
erase-Below top i [] b = tt
erase-Below top i (x ∷ xs) b = ground (arith, erase-Below top i xs b.1)

-- Of an ascending list `erase` takes away just the one value.
pub contains-erase :
    (low i j : ℕ) (xs : List ℕ)
    → Ascending low xs
    → contains j (erase i xs) ≡ (contains j xs && not (i == j))
contains-erase low i j [] a = refl
contains-erase low i j (x ∷ xs) a =
    ground (arith, contains-erase (suc x) i j xs a.1, contains_low (suc x) xs j a.1)

pub erase-append :
    (i top : ℕ) (xs : List ℕ)
    → contains i xs ≡ true
    → erase i (xs ++ top ∷ []) ≡ erase i xs ++ top ∷ []
erase-append i top [] h = cc
erase-append i top (x ∷ xs) h = ground (arith, erase-append i top xs)

pub erase-append_top : (top : ℕ) (xs : List ℕ) → Below top xs → erase top (xs ++ top ∷ []) ≡ xs
erase-append_top top [] b = ground arith
erase-append_top top (x ∷ xs) b = ground (arith, erase-append_top top xs b.1)

pub contains-push_indices :
    (count from j : ℕ) → contains j (push_indices count from) ≡ (leb from j && ltb j (from + count))
unfolding push_indices
contains-push_indices zero from j = ground arith
contains-push_indices (suc count) from j = ground (arith, contains-push_indices count (from + 1) j)

pub Ascending-append :
    (low top : ℕ) (xs ys : List ℕ)
    → Ascending low xs
    → Below top xs
    → low ≤ top
    → Ascending top ys
    → Ascending low (xs ++ ys)
Ascending-append low top [] ys a b h c = Ascending-mono low top ys h c
Ascending-append low top (x ∷ xs) ys a b h c =
    (a.0, Ascending-append (suc x) top xs ys a.1 b.1 b.0 c)

pub push_indices-Ascending :
    (count from low : ℕ) → low ≤ from → Ascending low (push_indices count from)
unfolding push_indices
push_indices-Ascending zero from low h = tt
push_indices-Ascending (suc count) from low h =
    (h, push_indices-Ascending count (from + 1) (suc from) (omega arith))

pub push_indices-Below :
    (count from top : ℕ) → from + count ≤ top → Below top (push_indices count from)
unfolding push_indices
push_indices-Below zero from top h = tt
push_indices-Below (suc count) from top h =
    (omega arith, push_indices-Below count (from + 1) top (omega arith))

-- What `set_entry` leaves of the missing indices below the top, and the new top.
unfoldable pub init_after : ℕ → ℕ → List ℕ → List ℕ
init_after index top init =
    if ltb index top
    then erase index init
    else if index == top
    then init
    else init ++ (top ∷ push_indices (index - (top + 1)) (top + 1))

unfoldable pub top_after : ℕ → ℕ → ℕ
top_after index top = if ltb index top then top else index + 1

module _ (index top : ℕ) (init : List ℕ) where
  -- The three branches of `take_index`, for an index that is missing.
  pub take_index-split :
      index + 1 < u64_mod
      → Below top init
      → (ltb index top ≡ true → contains index init ≡ true)
      → take_index index top (init ++ top ∷ [])
        ≡ init_after index top init ++ top_after index top ∷ []
  unfolding take_index init_after top_after
  take_index-split w b missing = elim (Bool-cases (ltb index top)) [
    | inl below ↦ rw (below, take_index) (erase-append index top init (missing below))
    | inr above ↦ elim (Bool-cases (index == top)) [
      | inl same ↦
          let e : index ≡ top = ground arith in
          rw (above, same, take_index)
            (ground (arith, e, erase-append_top top init b, inc64_lem index w))
      | inr other ↦
          let h : top < index = ground arith in
          let k : top + 1 < u64_mod = omega arith in
          rw (above, other, take_index)
            (rw (inc64_lem index w, inc64_lem top k) (simp append_assoc))
    ]
  ]

  pub init_after-Ascending :
      Ascending 0 init → Below top init → Ascending 0 (init_after index top init)
  unfolding init_after
  init_after-Ascending a b = elim (Bool-cases (ltb index top)) [
    | inl below ↦ rw below (erase-Ascending 0 index init a)
    | inr above ↦ elim (Bool-cases (index == top)) [
      | inl same ↦ rw (above, same) a
      | inr other ↦
          rw (above, other)
            (Ascending-append 0 top init _ a b (omega arith) (
              omega arith,
              push_indices-Ascending (index - (top + 1)) (top + 1) (suc top) (omega arith),
            ))
    ]
  ]

  pub init_after-Below : Below top init → Below (top_after index top) (init_after index top init)
  unfolding init_after top_after
  init_after-Below b = elim (Bool-cases (ltb index top)) [
    | inl below ↦ rw below (erase-Below top index init b)
    | inr above ↦ elim (Bool-cases (index == top)) [
      | inl same ↦ rw (above, same) (Below-mono top (index + 1) init (ground arith) b)
      | inr other ↦
          let h : top < index = ground arith in
          rw (above, other)
            (All-append _ init _ (Below-mono top (index + 1) init (omega arith) b) (
              omega arith,
              push_indices-Below (index - (top + 1)) (top + 1) (index + 1) (omega arith),
            ))
    ]
  ]

  -- Exactly the index that was set is no longer missing.
  pub contains-init_after :
      (j : ℕ)
      → Ascending 0 init
      → Below top init
      → (ltb j (top_after index top) && not (contains j (init_after index top init)))
        ≡ ((ltb j top && not (contains j init)) || index == j)
  unfolding init_after top_after
  contains-init_after j a b = elim (Bool-cases (ltb index top)) [
    | inl below ↦ rw below (ground (arith, contains-erase 0 index j init a))
    | inr above ↦ elim (Bool-cases (index == top)) [
      | inl same ↦ rw (above, same) (ground (arith, contains_high top init j b))
      | inr other ↦
          rw (above, other)
            (ground (
              arith,
              contains_high top init j b,
              contains-append j init (top ∷ push_indices (index - (top + 1)) (top + 1)),
              contains-push_indices (index - (top + 1)) (top + 1) j,
            ))
    ]
  ]
