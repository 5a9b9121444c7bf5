-- ===== src/Slave/KvStore/Snapshot.antt =====
-- Snapshot reads: what the comment above the class in src/slave/KVStore.h promises.
use universal_db.Base.{
  ℕ, ◌≤◌, ◌<◌, ◌≡◌, refl, sym, ap, ◌∙◌, inl, inr, true, Option, none, some, List, [], ◌∷◌, arith,
  ltb, subst, some_inj, Bool-cases, Option-cases,
}
use universal_db.Base.Eq.{◌==◌, nat_eq}
use universal_db.Base.Bytes.{Bytes, bytes_eq, bytes_beq_iff}
use universal_db.Base.Assoc.{find, has, insert, assign, find-insert, find-assign}
use universal_db.Base.Result.{Result, ok, ok-injective, ◌>>=◌, >>=-eq-ok}
use universal_db.Slave.KvStore.{VersionEntry, MultiVersionEntry, KvStore, write, read}
use universal_db.Slave.KvStore.Search.{latest, latest-append}
use universal_db.Slave.KvStore.Invariant.{
  IsValid, EntryIsValid, StartsBy, write-IsValid, touch, scan, read-eq-scan, scan-IsValid,
  read-IsValid,
}

-- A call of a client of the store.
pub data Call : Type 0 where
  writes : Bytes → Bytes → ℕ → Call
  reads : Bytes → ℕ → Call

unfoldable pub step : KvStore → Call → Result KvStore
step s (writes key value timestamp) = write key value timestamp s
step s (reads key timestamp) = read key timestamp s >>= λ r. ok r.1

unfoldable pub run : KvStore → List Call → Result KvStore
run s [] = ok s
run s (c ∷ cs) = step s c >>= λ s'. run s' cs

-- The key has an entry in which the scan at `t` finds `r`, and `t` is not after its last access.
record Pinned (key : Bytes) (t : ℕ) (r : Option Bytes) (s : KvStore) : Type 0 where
  entry : MultiVersionEntry
  found : find key s.mvkvs ≡ some entry
  scanned : latest t entry.versions ≡ r
  accessed : t ≤ entry.lat

insert-Pinned :
    (key : Bytes) (t : ℕ) (r : Option Bytes) (k : Bytes) (it : MultiVersionEntry) (s : KvStore)
    → Pinned key t r s
    → Pinned key t r (record { mvkvs = insert k it s.mvkvs })
insert-Pinned key t r k it s p = record {
  entry = p.entry;
  found = ground (arith, find-insert k key it s.mvkvs, p.found);
  scanned = p.scanned;
  accessed = p.accessed;
}

-- An entry may be replaced by one with the same answer at `t` and a last access not before `t`.
assign-Pinned :
    (key : Bytes) (t : ℕ) (r : Option Bytes) (k : Bytes) (it : MultiVersionEntry) (s : KvStore)
    → Pinned key t r s
    → (k ≡ key → (latest t it.versions ≡ r) × (t ≤ it.lat))
    → Pinned key t r (record { mvkvs = assign k it s.mvkvs })
assign-Pinned key t r k it s p same = elim (Bool-cases (k == key)) [
  | inl eq ↦
      let (l, a) = same ((bytes_beq_iff k key).0 eq) in
      record {
        entry = it;
        found = ground (arith, find-assign k key it s.mvkvs);
        scanned = l;
        accessed = a;
      }
  | inr ne ↦ record {
    entry = p.entry;
    found = ground (arith, find-assign k key it s.mvkvs, p.found);
    scanned = p.scanned;
    accessed = p.accessed;
  }
]

write-Pinned :
    (key : Bytes) (t : ℕ) (r : Option Bytes) (k v : Bytes) (ts : ℕ) (s s' : KvStore)
    → Pinned key t r s
    → write k v ts s ≡ ok s'
    → Pinned key t r s'
unfolding write
write-Pinned key t r k v ts s s' p e = elim (Option-cases (find k s.mvkvs)) [
  | inl absent ↦
      subst (Pinned key t r) (ok-injective (rw (absent, write) at e))
        (insert-Pinned key t r k _ s p)
  | inr (it, found) ↦ elim (Bool-cases (ltb it.lat ts)) [
    | inl later ↦ subst (Pinned key t r) (ok-injective (rw (found, later, write) at e)) (
        assign-Pinned key t r k _ s p λ same.
          let entry : it ≡ p.entry =
            some_inj (sym found ∙ ap (λ x. find x s.mvkvs) same ∙ p.found) in
          let past : t < ts = ground (arith, p.accessed, entry) in
          (
            ground (
              arith,
              p.scanned,
              entry,
              latest-append t it.versions (record { timestamp = ts; value = v }),
            ),
            omega arith,
          ))
    | inr stale ↦ ground arith
  ]
]

touch-Pinned :
    (key : Bytes) (t : ℕ) (r : Option Bytes) (k : Bytes) (ts : ℕ) (it : MultiVersionEntry)
    (o : Option Bytes) (s : KvStore)
    → find k s.mvkvs ≡ some it
    → Pinned key t r s
    → Pinned key t r (touch k ts it o s)
unfolding touch
touch-Pinned key t r k ts it none s found p = p
touch-Pinned key t r k ts it (some x) s found p = elim (Bool-cases (ltb it.lat ts)) [
  | inl later ↦ rw later (
      assign-Pinned key t r k _ s p λ same.
        let entry : it ≡ p.entry = some_inj (sym found ∙ ap (λ x. find x s.mvkvs) same ∙ p.found) in
        (ground (arith, p.scanned, entry), ground (arith, p.accessed, entry)))
  | inr kept ↦ rw kept p
]

scan-Pinned :
    (key : Bytes) (t : ℕ) (r : Option Bytes) (k : Bytes) (ts : ℕ) (s : KvStore)
    → Pinned key t r s
    → Pinned key t r (scan k ts s).1
unfolding scan
scan-Pinned key t r k ts s p = elim (Option-cases (find k s.mvkvs)) [
  | inl absent ↦ rw (absent, scan) p
  | inr (it, found) ↦
      rw (found, scan) (touch-Pinned key t r k ts it (latest ts it.versions) s found p)
]

step-Pinned :
    (key : Bytes) (t : ℕ) (r : Option Bytes) (s s' : KvStore) (c : Call)
    → IsValid s
    → Pinned key t r s
    → step s c ≡ ok s'
    → IsValid s' × Pinned key t r s'
unfolding step
step-Pinned key t r s s' (writes k v ts) h p e =
    (write-IsValid k v ts s s' h e, write-Pinned key t r k v ts s s' p e)
step-Pinned key t r s s' (reads k ts) h p e =
    let eq = ok-injective (rw (read-eq-scan k ts s h) at e) in
    (
      subst IsValid eq (scan-IsValid k ts s h),
      subst (Pinned key t r) eq (scan-Pinned key t r k ts s p),
    )

run-Pinned :
    (key : Bytes) (t : ℕ) (r : Option Bytes) (s s' : KvStore) (cs : List Call)
    → IsValid s
    → Pinned key t r s
    → run s cs ≡ ok s'
    → IsValid s' × Pinned key t r s'
unfolding run
run-Pinned key t r s s' [] h p e =
    (subst IsValid (ok-injective e) h, subst (Pinned key t r) (ok-injective e) p)
run-Pinned key t r s s' (c ∷ cs) h p e =
    let (m, first, rest) = >>=-eq-ok (step s c) (λ x. run x cs) e in
    let (hm, pm) = step-Pinned key t r s m c h p first in run-Pinned key t r m s' cs hm pm rest

-- Where the scan finds nothing, the timestamp is before the first version.
latest_none :
    (t bound : ℕ) (vs : List VersionEntry) → StartsBy bound vs → latest t vs ≡ none → t ≤ bound
unfolding latest
latest_none t bound [] h e = absurd h
latest_none t bound (v ∷ vs) h e = ground arith

-- The state that a read leaves behind pins the value that it returned.
touch-pins :
    (key : Bytes) (t : ℕ) (it : MultiVersionEntry) (r : Option Bytes) (s : KvStore)
    → EntryIsValid it
    → find key s.mvkvs ≡ some it
    → latest t it.versions ≡ r
    → Pinned key t r (touch key t it r s)
unfolding touch
touch-pins key t it none s v found e = record {
  entry = it;
  found = found;
  scanned = e;
  accessed = latest_none t it.lat it.versions v.started e;
}
touch-pins key t it (some x) s v found e = elim (Bool-cases (ltb it.lat t)) [
  | inl later ↦ rw later (record {
    entry = record it { lat = t };
    found =
        ground (arith, find-assign key key (record it { lat = t }) s.mvkvs, bytes_beq_iff key key);
    scanned = e;
    accessed = omega arith;
  })
  | inr kept ↦ rw kept (record { entry = it; found = found; scanned = e; accessed = ground arith })
]

read-Pinned :
    (key : Bytes) (t : ℕ) (s s' : KvStore) (r : Option Bytes)
    → IsValid s
    → has key s.mvkvs ≡ true
    → read key t s ≡ ok (r, s')
    → Pinned key t r s'
unfolding scan
read-Pinned key t s s' r h present e = elim (Option-cases (find key s.mvkvs)) [
  | inl absent ↦ ground arith
  | inr (it, found) ↦
      let eq = ok-injective (rw (found, scan) at (sym (read-eq-scan key t s h) ∙ e)) in
      subst (λ (x : Option Bytes × KvStore). Pinned key t x.0 x.1) eq
        (touch-pins key t it (latest t it.versions) s (h.at_key key it found) found refl)
]

-- From a valid store, a read of a key that exists returns, at the same timestamp, the same
-- answer again, after any calls, reads and writes of any keys, that do not throw.
pub read_snapshot :
    (key : Bytes) (t : ℕ) (s s' u : KvStore) (r : Option Bytes) (cs : List Call)
    → IsValid s
    → has key s.mvkvs ≡ true
    → read key t s ≡ ok (r, s')
    → run s' cs ≡ ok u
    → (u' : KvStore) × (read key t u ≡ ok (r, u'))
unfolding scan
read_snapshot key t s s' u r cs h present first calls =
    let (hu, pu) =
      run-Pinned key t r s' u cs (read-IsValid key t s s' r h first)
        (read-Pinned key t s s' r h present first) calls in
    ((scan key t u).1, read-eq-scan key t u hu ∙ rw (pu.found, pu.scanned, scan) refl)
