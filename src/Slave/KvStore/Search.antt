-- ===== src/Slave/KvStore/Search.antt =====
-- The binary search of `KVStore::read` (src/slave/KVStore.cc).
use universal_db.Base.{
  ℕ, zero, suc, ◌+◌, ◌-◌, ◌/◌, ◌≤◌, ◌<◌, ◌≡◌, refl, ◌⊎◌, inl, inr, Option, none, some, List, [],
  ◌∷◌, ◌++◌, arith, ltb, leb, length, get_elem?, get_elem?_total, get_elem?_cons, Bool-cases,
  if◌then◌else◌,
}
use universal_db.Base.Result.{ok}
use universal_db.Base.Bytes.{Bytes}
use universal_db.Slave.KvStore.{VersionEntry, search}

-- The versions stand in strictly ascending order of timestamps, from `low` on.
abbrev pub Ascending : ℕ → List VersionEntry → Type 0
Ascending low [] = Unit {0}
Ascending low (v ∷ vs) = (low ≤ v.timestamp) × Ascending (suc v.timestamp) vs

-- The reference: a scan for the last version that is not after the timestamp.
unfoldable pub latest : ℕ → List VersionEntry → Option Bytes
latest t [] = none
latest t (v ∷ vs) = elim (latest t vs) [
  | some x ↦ some x
  | none ↦ if leb v.timestamp t then some v.value else none
]

-- How many versions at the front are not after the timestamp.
unfoldable pub rank : ℕ → List VersionEntry → ℕ
rank t [] = 0
rank t (v ∷ vs) = if leb v.timestamp t then suc (rank t vs) else 0

pub rank-le : (t : ℕ) (vs : List VersionEntry) → rank t vs ≤ length vs
unfolding rank
rank-le t [] = omega arith
rank-le t (v ∷ vs) = ground (arith, rank-le t vs)

rank_late : (t low : ℕ) (vs : List VersionEntry) → Ascending low vs → t < low → rank t vs ≡ 0
unfolding rank
rank_late t low [] a h = refl
rank_late t low (v ∷ vs) a h = ground arith

-- In an ascending list the versions below the rank, and no others, are not after the timestamp.
get_elem?-rank :
    (t low : ℕ) (vs : List VersionEntry) (i : ℕ) (v : VersionEntry)
    → Ascending low vs
    → get_elem? vs i ≡ some v
    → leb v.timestamp t ≡ ltb i (rank t vs)
unfolding rank
get_elem?-rank t low [] i v a h = cc
get_elem?-rank t low (x ∷ vs) zero v a h = ground arith
get_elem?-rank t low (x ∷ vs) (suc i) v a h =
    ground
      (arith, get_elem?-rank t (suc x.timestamp) vs i v a.1 h, rank_late t (suc x.timestamp) vs a.1)

pub search-rank :
    (fuel : ℕ) (vs : List VersionEntry) (t low start end : ℕ)
    → Ascending low vs
    → start ≤ rank t vs
    → rank t vs ≤ end
    → end ≤ length vs
    → end - start < fuel
    → search fuel vs t start end ≡ ok (rank t vs)
unfolding search
search-rank zero vs t low start end a lo hi top f = elim f [ ]
search-rank (suc fuel) vs t low start end a lo hi top f = elim (Bool-cases (ltb start end)) [
  | inl more ↦
      let (v, e) =
        get_elem?_total vs ((start + end) / 2)
          (let h : start < end = ground arith in omega arith) in
      ground (
        arith,
        e,
        get_elem?-rank t low vs ((start + end) / 2) v a e,
        search-rank fuel vs t low ((start + end) / 2 + 1) end a,
        search-rank fuel vs t low start ((start + end) / 2) a,
      )
  | inr done ↦ ground arith
]

latest_late : (t low : ℕ) (vs : List VersionEntry) → Ascending low vs → t < low → latest t vs ≡ none
unfolding latest
latest_late t low [] a h = refl
latest_late t low (v ∷ vs) a h = ground (arith, latest_late t (suc v.timestamp) vs a.1)

-- The version just below the rank is the one that the scan finds.
pub latest-rank :
    (t low : ℕ) (vs : List VersionEntry)
    → Ascending low vs
    → ((rank t vs ≡ 0) × (latest t vs ≡ none))
      ⊎ ((v : VersionEntry) × (0 < rank t vs)
          × (get_elem? vs (rank t vs - 1) ≡ some v)
          × (latest t vs ≡ some v.value))
unfolding rank latest
latest-rank t low [] a = inl (refl, refl)
latest-rank t low (v ∷ vs) a = elim (Bool-cases (leb v.timestamp t)) [
  | inl early ↦ elim (latest-rank t (suc v.timestamp) vs a.1) [
    | inl (r, l) ↦ inr (v, ground arith, ground arith, ground arith)
    | inr (x, pos, g, l) ↦
        inr (x, ground arith, ground (arith, get_elem?_cons v vs (rank t vs)), ground arith)
  ]
  | inr late ↦ inl (ground arith, ground (arith, latest_late t (suc v.timestamp) vs a.1))
]

-- A version that is written after the timestamp does not change what the scan finds.
pub latest-append :
    (t : ℕ) (vs : List VersionEntry) (v : VersionEntry)
    → t < v.timestamp
    → latest t (vs ++ v ∷ []) ≡ latest t vs
unfolding latest
latest-append t [] v h = ground arith
latest-append t (x ∷ vs) v h = ground (arith, latest-append t vs v h)
