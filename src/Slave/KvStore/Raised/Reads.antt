-- ===== src/Slave/KvStore/Raised/Reads.antt =====
-- Reads of two stores (src/slave/KVStore.cc) of which one has later last access times.
use universal_db.Base.{
  ℕ, suc, ◌-◌, ◌≤◌, ◌≡◌, refl, sym, ap, ◌∙◌, inl, inr, true, Option, none, some, arith, ltb, length,
  get_elem?, Bool-cases, Option-cases, if◌then◌else◌,
}
use universal_db.Base.Eq.{◌==◌, nat_eq}
use universal_db.Base.Bytes.{Bytes, bytes_eq}
use universal_db.Base.Assoc.{find, assign}
use universal_db.Base.Result.{Result, ok, Ensures, Ensures-bind}
use universal_db.Slave.KvStore.{MultiVersionEntry, KvStore, read, read_at, search}
use universal_db.Slave.KvStore.Raised.{
  IsRaised, touched-IsRaised, lagging-IsRaised, assign-IsRaised, Entries-cases,
}

-- What a read of the first store gives, beside the same read of the second one.
abbrev ReadAlike : Result (Option Bytes × KvStore) → KvStore → Option Bytes × KvStore → Type 0
ReadAlike again s' r =
    (r' : Option Bytes × KvStore) × (again ≡ ok r')
    × (r.0 ≡ r'.0)
    × IsRaised r.1 r'.1
    × IsRaised r.1 s'

-- The end of a read that has found a version.
abbrev touch : Bytes → ℕ → MultiVersionEntry → KvStore → KvStore
touch key t it s =
    if ltb it.lat t then record { mvkvs = assign key (record it { lat = t }) s.mvkvs } else s

touch-IsRaised :
    (key : Bytes) (t : ℕ) (it it' : MultiVersionEntry) (s s' : KvStore)
    → IsRaised s s'
    → find key s.mvkvs ≡ some it
    → find key s'.mvkvs ≡ some it'
    → it.versions ≡ it'.versions
    → it'.lat ≤ it.lat
    → IsRaised (touch key t it s) (touch key t it' s') × IsRaised (touch key t it s) s'
touch-IsRaised key t it it' s s' h found found' same le = elim (Bool-cases (ltb it.lat t)) [
  | inl later ↦
      let later' : ltb it'.lat t ≡ true = ground (arith, later, le) in
      rw (later, later')
        (
          assign-IsRaised key _ _ s s' h (same, omega arith),
          touched-IsRaised key it t s s' h found (ground (arith, later)),
        )
  | inr early ↦ rw early (
    elim (Bool-cases (ltb it'.lat t)) [
      | inl later' ↦
          rw later' (lagging-IsRaised key it it' t s s' h found found' same (ground (arith, early)))
      | inr early' ↦ rw early' h
    ],
    h,
  )
]

read_at-IsRaised :
    (key : Bytes) (t : ℕ) (it it' : MultiVersionEntry) (s s' : KvStore) (start : ℕ)
    → IsRaised s s'
    → find key s.mvkvs ≡ some it
    → find key s'.mvkvs ≡ some it'
    → it.versions ≡ it'.versions
    → it'.lat ≤ it.lat
    → Ensures (ReadAlike (read_at key t it' s' start) s') (read_at key t it s start)
unfolding read_at
read_at-IsRaised key t it it' s s' start h found found' same le = elim (Bool-cases (start == 0)) [
  | inl none_before ↦ rw (none_before, read_at) ((none, s'), refl, refl, h, h)
  | inr some_before ↦ elim (Option-cases (get_elem? it'.versions (start - 1))) [
    | inl absent ↦
        let absent' : get_elem? it.versions (start - 1) ≡ none =
          ap (λ vs. get_elem? vs (start - 1)) same ∙ absent in
        rw (some_before, absent', read_at) tt
    | inr (v, there) ↦
        let there' : get_elem? it.versions (start - 1) ≡ some v =
          ap (λ vs. get_elem? vs (start - 1)) same ∙ there in
        let (both, first) = touch-IsRaised key t it it' s s' h found found' same le in
        rw (some_before, there', there, read_at) (_, refl, refl, both, first)
  ]
]

-- A read of the first store finds what a read of the second one finds.
pub read-IsRaised :
    (key : Bytes) (timestamp : ℕ) (s s' : KvStore)
    → IsRaised s s'
    → Ensures (ReadAlike (read key timestamp s') s') (read key timestamp s)
unfolding read
read-IsRaised key timestamp s s' h = elim (Entries-cases key s s' h) [
  | inl (absent, absent') ↦ rw (absent, absent', read) ((none, s'), refl, refl, h, h)
  | inr (it, it', found, found', same, le) ↦
      let once : search (suc (length it'.versions)) it'.versions timestamp 0 (length it'.versions)
          ≡ search (suc (length it.versions)) it.versions timestamp 0 (length it.versions) =
        ap (λ vs. search (suc (length vs)) vs timestamp 0 (length vs)) (sym same) in
      rw (found, found', read)
        (rw once (
          Ensures-bind _
            (search (suc (length it.versions)) it.versions timestamp 0 (length it.versions)) _
            λ start e.
              rw e (read_at-IsRaised key timestamp it it' s s' start h found found' same le)))
]
