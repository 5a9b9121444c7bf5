-- ===== src/Slave/KvStore/Invariant.antt =====
-- The representation invariant of KVStore (src/slave/KVStore.h), and `read` against the scan.
use universal_db.Base.{
  ℕ, suc, ◌≤◌, ◌<◌, ◌≡◌, sym, ap, ◌∙◌, inl, inr, Option, none, some, List, [], ◌∷◌, ◌++◌, arith,
  ltb, ltb→lt, subst, some_inj, length, Bool-cases, Option-cases, All, All-append, if◌then◌else◌,
}
use universal_db.Base.Eq.{◌==◌, nat_eq}
use universal_db.Base.Bytes.{Bytes, bytes_eq}
use universal_db.Base.Assoc.{find, insert, assign, find-insert, find-assign}
use universal_db.Base.Result.{ok, ok-injective}
use universal_db.Slave.KvStore.{VersionEntry, MultiVersionEntry, KvStore, empty_store, write, read}
use universal_db.Slave.KvStore.Search.{Ascending, latest, rank-le, search-rank, latest-rank}

-- The first timestamp, if there is one, is not after the bound.
abbrev pub StartsBy : ℕ → List VersionEntry → Type 0
StartsBy bound [] = ⊥
StartsBy bound (v ∷ vs) = v.timestamp ≤ bound

-- There is a version, the timestamps ascend strictly, and none is after the last access.
pub record EntryIsValid (it : MultiVersionEntry) : Type 0 where
  pub ascending : Ascending 0 it.versions
  pub bounded : All (λ v. v.timestamp ≤ it.lat) it.versions
  pub started : StartsBy it.lat it.versions

pub record IsValid (s : KvStore) : Type 0 where
  pub at_key : (key : Bytes) (it : MultiVersionEntry) → find key s.mvkvs ≡ some it → EntryIsValid it

pub empty_store-IsValid : IsValid empty_store
unfolding find
empty_store-IsValid = record { at_key = λ key it h. cc }

Ascending-append :
    (low lat : ℕ) (vs : List VersionEntry) (v : VersionEntry)
    → Ascending low vs
    → All (λ x. x.timestamp ≤ lat) vs
    → low ≤ v.timestamp
    → lat < v.timestamp
    → Ascending low (vs ++ v ∷ [])
Ascending-append low lat [] v a b h k = (h, tt)
Ascending-append low lat (x ∷ vs) v a b h k =
    (a.0, Ascending-append (suc x.timestamp) lat vs v a.1 b.1 (omega arith) k)

All-le_mono :
    (m n : ℕ) (vs : List VersionEntry)
    → m ≤ n
    → All (λ x. x.timestamp ≤ m) vs
    → All (λ x. x.timestamp ≤ n) vs
All-le_mono m n [] h a = tt
All-le_mono m n (x ∷ vs) h a = (omega arith, All-le_mono m n vs h a.1)

StartsBy-mono : (m n : ℕ) (vs : List VersionEntry) → m ≤ n → StartsBy m vs → StartsBy n vs
StartsBy-mono m n [] h a = a
StartsBy-mono m n (x ∷ vs) h a = omega arith

StartsBy-append :
    (n : ℕ) (vs : List VersionEntry) (v : VersionEntry) → StartsBy n vs → StartsBy n (vs ++ v ∷ [])
StartsBy-append n [] v a = absurd a
StartsBy-append n (x ∷ vs) v a = a

-- A later access keeps an entry valid.
touched-EntryIsValid :
    (it : MultiVersionEntry) (t : ℕ)
    → it.lat ≤ t
    → EntryIsValid it
    → EntryIsValid (record it { lat = t })
touched-EntryIsValid it t h v = record {
  ascending = v.ascending;
  bounded = All-le_mono it.lat t it.versions h v.bounded;
  started = StartsBy-mono it.lat t it.versions h v.started;
}

-- A version past the last access keeps an entry valid.
pushed-EntryIsValid :
    (it : MultiVersionEntry) (v : VersionEntry)
    → it.lat < v.timestamp
    → EntryIsValid it
    → EntryIsValid (record { versions = it.versions ++ v ∷ []; lat = v.timestamp })
pushed-EntryIsValid it v h valid = record {
  ascending = Ascending-append 0 it.lat it.versions v valid.ascending valid.bounded (omega arith) h;
  bounded =
      All-append _ it.versions (v ∷ [])
        (All-le_mono it.lat v.timestamp it.versions (omega arith) valid.bounded) (omega arith);
  started =
      StartsBy-append v.timestamp it.versions v
        (StartsBy-mono it.lat v.timestamp it.versions (omega arith) valid.started);
}

assign-IsValid :
    (s : KvStore) (k : Bytes) (it : MultiVersionEntry)
    → EntryIsValid it
    → IsValid s
    → IsValid (record { mvkvs = assign k it s.mvkvs })
assign-IsValid s k it v h = record {
  at_key = λ key x e. elim (Bool-cases (k == key)) [
    | inl same ↦
        let p : some it ≡ some x = ground (arith, find-assign k key it s.mvkvs) in
        subst EntryIsValid (some_inj p) v
    | inr other ↦ h.at_key key x (ground (arith, find-assign k key it s.mvkvs))
  ];
}

insert-IsValid :
    (s : KvStore) (k : Bytes) (it : MultiVersionEntry)
    → EntryIsValid it
    → IsValid s
    → find k s.mvkvs ≡ none
    → IsValid (record { mvkvs = insert k it s.mvkvs })
insert-IsValid s k it v h absent = record {
  at_key = λ key x e. elim (Option-cases (find key s.mvkvs)) [
    | inr (y, old) ↦ h.at_key key x (ground (arith, find-insert k key it s.mvkvs))
    | inl new ↦
        let p : some it ≡ some x = ground (arith, find-insert k key it s.mvkvs) in
        subst EntryIsValid (some_inj p) v
  ];
}

-- A write that does not throw keeps the store valid.
pub write-IsValid :
    (key value : Bytes) (timestamp : ℕ) (s s' : KvStore)
    → IsValid s
    → write key value timestamp s ≡ ok s'
    → IsValid s'
unfolding write
write-IsValid key value timestamp s s' h e = elim (Option-cases (find key s.mvkvs)) [
  | inl absent ↦
      subst IsValid (ok-injective (rw (absent, write) at e))
        (insert-IsValid s key _ (omega arith) h absent)
  | inr (it, found) ↦ elim (Bool-cases (ltb it.lat timestamp)) [
    | inl later ↦ subst IsValid (ok-injective (rw (found, later, write) at e)) (
        assign-IsValid s key _
          (pushed-EntryIsValid it (record { timestamp = timestamp; value = value })
            (ltb→lt _ _ later) (h.at_key key it found))
          h)
    | inr stale ↦ ground arith
  ]
]

-- What `read` is to return, by the scan: the value, and the store with the last access raised if
-- there is a value.
unfoldable pub touch : Bytes → ℕ → MultiVersionEntry → Option Bytes → KvStore → KvStore
touch key t it none s = s
touch key t it (some x) s =
    if ltb it.lat t then record { mvkvs = assign key (record it { lat = t }) s.mvkvs } else s

unfoldable pub scan : Bytes → ℕ → KvStore → Option Bytes × KvStore
unfolding latest touch
scan key t s = elim (find key s.mvkvs) [
  | none ↦ (none, s)
  | some it ↦ (latest t it.versions, touch key t it (latest t it.versions) s)
]

touch-IsValid :
    (key : Bytes) (t : ℕ) (it : MultiVersionEntry) (r : Option Bytes) (s : KvStore)
    → find key s.mvkvs ≡ some it
    → IsValid s
    → IsValid (touch key t it r s)
unfolding touch
touch-IsValid key t it none s found h = h
touch-IsValid key t it (some x) s found h = elim (Bool-cases (ltb it.lat t)) [
  | inl later ↦
      let raised : it.lat ≤ t = omega (arith, ltb→lt it.lat t later) in
      rw later (assign-IsValid s key _ (touched-EntryIsValid it t raised (h.at_key key it found)) h)
  | inr same ↦ rw same h
]

-- On a valid store `read` returns, whatever the key and the timestamp, exactly what the scan for
-- the last version not after the timestamp finds, and raises the last access exactly if it
-- found a value and the timestamp is later.
pub read-eq-scan :
    (key : Bytes) (t : ℕ) (s : KvStore) → IsValid s → read key t s ≡ ok (scan key t s)
unfolding read scan
read-eq-scan key t s h = elim (Option-cases (find key s.mvkvs)) [
  | inl absent ↦ rw (absent, read, scan)
  | inr (it, found) ↦
      let v = h.at_key key it found in
      let e =
        search-rank (suc (length it.versions)) it.versions t 0 0 (length it.versions) v.ascending
          (omega arith) (rank-le t it.versions) (omega arith) (omega arith) in
      rw (found, read, scan) (rw e (ground (arith, latest-rank t 0 it.versions v.ascending)))
]

pub scan-IsValid : (key : Bytes) (t : ℕ) (s : KvStore) → IsValid s → IsValid (scan key t s).1
unfolding scan
scan-IsValid key t s h = elim (Option-cases (find key s.mvkvs)) [
  | inl absent ↦ rw (absent, scan) h
  | inr (it, found) ↦ rw (found, scan) (touch-IsValid key t it (latest t it.versions) s found h)
]

-- A read, with or without a value, keeps the store valid.
pub read-IsValid :
    (key : Bytes) (t : ℕ) (s s' : KvStore) (r : Option Bytes)
    → IsValid s
    → read key t s ≡ ok (r, s')
    → IsValid s'
read-IsValid key t s s' r h e =
    subst IsValid
      (ap (λ (x : Option Bytes × KvStore). x.1) (ok-injective (sym (read-eq-scan key t s h) ∙ e)))
      (scan-IsValid key t s h)
