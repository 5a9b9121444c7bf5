-- ===== src/Slave/KvStore/Raised.antt =====
-- Two stores of src/slave/KVStore.cc that differ by reads: the versions are the same, and the last
-- accesses of one are not before those of the other.
pub mod Reads
use universal_db.Base.{
  ℕ, suc, ◌-◌, ◌≤◌, ◌≡◌, refl, sym, ap, ◌∙◌, subst, ◌⊎◌, inl, inr, Bool, true, false, Option, none,
  some, [], ◌∷◌, ◌++◌, arith, ltb, length, get_elem?, Bool-cases, Option-cases, if◌then◌else◌,
  is_some,
}
use universal_db.Base.Eq.{◌==◌, nat_eq}
use universal_db.Base.Bytes.{Bytes, bytes_eq, bytes_beq_iff}
use universal_db.Base.Assoc.{find, insert, assign, find-insert, find-assign}
use universal_db.Base.Result.{Result, ok, Ensures, Ensures-bind}
use universal_db.Slave.KvStore.{MultiVersionEntry, KvStore, write, read, read_at, search}

abbrev pub Raised : Option MultiVersionEntry → Option MultiVersionEntry → Type 0
Raised none none = Unit {0}
Raised (some it) (some it') = (it.versions ≡ it'.versions) × (it'.lat ≤ it.lat)
Raised _ _ = ⊥

pub record IsRaised (s s' : KvStore) : Type 0 where
  pub at_key : (key : Bytes) → Raised (find key s.mvkvs) (find key s'.mvkvs)

pub IsRaised-refl : (s : KvStore) → IsRaised s s
IsRaised-refl s = record { at_key = λ key. same (find key s.mvkvs) }
  where
    same : (o : Option MultiVersionEntry) → Raised o o
    same none = tt
    same (some it) = (refl, omega arith)

-- The entry of a key changes on both sides.
pub assign-IsRaised :
    (key : Bytes) (it it' : MultiVersionEntry) (s s' : KvStore)
    → IsRaised s s'
    → Raised (some it) (some it')
    → IsRaised
        (record { mvkvs = assign key it s.mvkvs })
        (record { mvkvs = assign key it' s'.mvkvs })
assign-IsRaised key it it' s s' h r = record {
  at_key =
      λ k. rw (find-assign key k it s.mvkvs, find-assign key k it' s'.mvkvs) (by_test k (key == k));
}
  where
    by_test :
        (k : Bytes) (b : Bool)
        → Raised (if b then some it else find k s.mvkvs) (if b then some it' else find k s'.mvkvs)
    by_test k true = r
    by_test k false = h.at_key k

insert-IsRaised :
    (key : Bytes) (it : MultiVersionEntry) (s s' : KvStore)
    → IsRaised s s'
    → find key s.mvkvs ≡ none
    → find key s'.mvkvs ≡ none
    → IsRaised
        (record { mvkvs = insert key it s.mvkvs })
        (record { mvkvs = insert key it s'.mvkvs })
insert-IsRaised key it s s' h a b = record {
  at_key = λ k.
      rw (find-insert key k it s.mvkvs, find-insert key k it s'.mvkvs)
        (by_test k (key == k) (find k s.mvkvs) (find k s'.mvkvs) (h.at_key k));
}
  where
    by_test :
        (k : Bytes) (b : Bool) (o o' : Option MultiVersionEntry)
        → Raised o o'
        → Raised
            (if is_some o then o else if b then some it else none)
            (if is_some o' then o' else if b then some it else none)
    by_test k b (some _) (some _) r = r
    by_test k true none none r = (refl, omega arith)
    by_test k false none none r = tt
    by_test k b (some _) none r = absurd r
    by_test k b none (some _) r = absurd r

-- Only the first store sees a later access.
pub touched-IsRaised :
    (key : Bytes) (it : MultiVersionEntry) (t : ℕ) (s s' : KvStore)
    → IsRaised s s'
    → find key s.mvkvs ≡ some it
    → it.lat ≤ t
    → IsRaised (record { mvkvs = assign key (record it { lat = t }) s.mvkvs }) s'
touched-IsRaised key it t s s' h found le = record {
  at_key = λ k.
      rw (find-assign key k (record it { lat = t }) s.mvkvs) (elim (Bool-cases (key == k)) [
        | inl same ↦ rw same (
            later (find k s'.mvkvs)
              (subst (λ o. Raised o (find k s'.mvkvs)) (here k same) (h.at_key k)))
        | inr other ↦ rw other (h.at_key k)
      ]);
}
  where
    here : (k : Bytes) → (key == k) ≡ true → find k s.mvkvs ≡ some it
    here k same = ap (λ x. find x s.mvkvs) (sym ((bytes_beq_iff key k).0 same)) ∙ found

    later :
        (o : Option MultiVersionEntry)
        → Raised (some it) o
        → Raised (some (record it { lat = t })) o
    later none r = r
    later (some it') r = (r.0, omega (arith, r.1))

-- Only the second store sees an access, which is not after the last one of the first.
pub lagging-IsRaised :
    (key : Bytes) (it it' : MultiVersionEntry) (t : ℕ) (s s' : KvStore)
    → IsRaised s s'
    → find key s.mvkvs ≡ some it
    → find key s'.mvkvs ≡ some it'
    → it.versions ≡ it'.versions
    → t ≤ it.lat
    → IsRaised s (record { mvkvs = assign key (record it' { lat = t }) s'.mvkvs })
lagging-IsRaised key it it' t s s' h found found' same le = record {
  at_key = λ k.
      rw (find-assign key k (record it' { lat = t }) s'.mvkvs) (elim (Bool-cases (key == k)) [
        | inl here ↦
            rw here
              (subst (λ o. Raised o (some (record it' { lat = t }))) (sym (at k here)) (same, le))
        | inr other ↦ rw other (h.at_key k)
      ]);
}
  where
    at : (k : Bytes) → (key == k) ≡ true → find k s.mvkvs ≡ some it
    at k here = ap (λ x. find x s.mvkvs) (sym ((bytes_beq_iff key k).0 here)) ∙ found

-- What the two stores have of a key.
abbrev pub Entries : Bytes → KvStore → KvStore → Type 0
Entries key s s' =
    (it : MultiVersionEntry) × (it' : MultiVersionEntry) × (find key s.mvkvs ≡ some it)
    × (find key s'.mvkvs ≡ some it')
    × (it.versions ≡ it'.versions)
    × (it'.lat ≤ it.lat)

pub Entries-cases :
    (key : Bytes) (s s' : KvStore)
    → IsRaised s s'
    → ((find key s.mvkvs ≡ none) × (find key s'.mvkvs ≡ none)) ⊎ Entries key s s'
Entries-cases key s s' h = by_result (find key s.mvkvs) (find key s'.mvkvs) refl refl (h.at_key key)
  where
    by_result :
        (o o' : Option MultiVersionEntry)
        → find key s.mvkvs ≡ o
        → find key s'.mvkvs ≡ o'
        → Raised o o'
        → ((find key s.mvkvs ≡ none) × (find key s'.mvkvs ≡ none)) ⊎ Entries key s s'
    by_result none none e e' r = inl (e, e')
    by_result (some it) (some it') e e' r = inr (it, it', e, e', r.0, r.1)
    by_result (some _) none e e' r = absurd r
    by_result none (some _) e e' r = absurd r

-- Where a write to the first store does not throw, it does not throw at the second either.
pub write-IsRaised :
    (key value : Bytes) (timestamp : ℕ) (s s' : KvStore)
    → IsRaised s s'
    → Ensures
        (λ r. (r' : KvStore) × (write key value timestamp s' ≡ ok r') × IsRaised r r')
        (write key value timestamp s)
unfolding write
write-IsRaised key value timestamp s s' h = elim (Entries-cases key s s' h) [
  | inl (absent, absent') ↦
      rw (absent, absent', write) (_, refl, insert-IsRaised key _ s s' h absent absent')
  | inr (it, it', found, found', same, le) ↦
      rw (found, found', write)
        (elim (Bool-cases (ltb it.lat timestamp)) [
          | inr late ↦ rw late tt
          | inl later ↦
              let later' : ltb it'.lat timestamp ≡ true = ground (arith, later, le) in
              rw (later, later')
                (
                  _,
                  refl,
                  assign-IsRaised key _ _ s s' h (
                    ap (λ vs. vs ++ record { timestamp = timestamp; value = value } ∷ []) same,
                    omega arith,
                  ),
                )
        ])
]
