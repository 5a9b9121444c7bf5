-- ===== src/Slave/ClientRequestHandler/Duplicate.antt =====
-- A write whose entry is in the log twice (src/slave/ClientRequestHandler.cc, src/slave/KVStore.cc).
use universal_db.Base.{
  ℕ, ◌≡◌, refl, subst, false, some, [], ◌∷◌, ◌++◌, arith, ltb, ◌∙◌, Option-cases, inl, inr,
}
use universal_db.Base.Bytes.{Bytes, bytes_eq, bytes_beq_refl}
use universal_db.Base.Assoc.{find, find-insert, find-assign}
use universal_db.Base.Result.{
  ok, thrown, assertion, ok-injective, >>=-eq-ok, Ensures, Ensures-ok, Ensures-bind, assert,
}
use universal_db.Proto.Paxos.{PaxosLogEntry, string_value, uint64_value}
use universal_db.Slave.KvStore
use universal_db.Slave.KvStore.{KvStore, MultiVersionEntry}
use universal_db.Slave.ClientRequestHandler.{TabletState, on_write, write_of}

lat_after_write :
    (key value : Bytes) (timestamp : ℕ) (s : KvStore)
    → Ensures
        (λ s'. (it : MultiVersionEntry) × (find key s'.mvkvs ≡ some it) × (it.lat ≡ timestamp))
        (KvStore.write key value timestamp s)
unfolding KvStore.write
lat_after_write key value timestamp s = elim (Option-cases (find key s.mvkvs)) [
  | inl absent ↦
      rw (absent, KvStore.write)
        ((
          fresh,
          find-insert key key fresh s.mvkvs ∙ rw absent (rw (bytes_beq_refl key) refl),
          refl,
        ))
  | inr (it, there) ↦
      rw (there, KvStore.write)
        (Ensures-bind _ (assert (ltb it.lat timestamp)) _ λ _ _.
          (longer it, find-assign key key (longer it) s.mvkvs ∙ rw (bytes_beq_refl key) refl, refl))
]
  where
    fresh : MultiVersionEntry
    fresh = record {
      versions = record { timestamp = timestamp; value = value } ∷ [];
      lat = timestamp;
    }

    longer : MultiVersionEntry → MultiVersionEntry
    longer it = record {
      versions = it.versions ++ record { timestamp = timestamp; value = value } ∷ [];
      lat = timestamp;
    }

write_again :
    (key value : Bytes) (timestamp : ℕ) (s : KvStore) (it : MultiVersionEntry)
    → find key s.mvkvs ≡ some it
    → it.lat ≡ timestamp
    → KvStore.write key value timestamp s ≡ thrown assertion
unfolding KvStore.write
write_again key value timestamp s it there e =
    rw (there, KvStore.write)
      (let f : ltb it.lat timestamp ≡ false = ground (arith, e) in rw f refl)

-- A request that is proposed again before its first entry is learned can be in the log twice; the
-- callback on the second of the equal entries fails the assertion of `KVStore::write`.
pub on_write_twice :
    (index next : ℕ) (entry : PaxosLogEntry) (s s' : TabletState)
    → on_write index entry s ≡ ok s'
    → on_write next entry s' ≡ thrown assertion
unfolding on_write
on_write_twice index next entry s s' e =
    let m = write_of entry in
    let key = string_value m.key in
    let value = string_value m.value in
    let timestamp = uint64_value m.timestamp in
    let (kvs, wrote, done) = >>=-eq-ok (KvStore.write key value timestamp s.kvstore) _ e in
    let (it, there, lat) =
      Ensures-ok _ (KvStore.write key value timestamp s.kvstore)
        (lat_after_write key value timestamp s.kvstore) wrote in
    subst (λ (x : TabletState). on_write next entry x ≡ thrown assertion) (ok-injective done)
      (rw (write_again key value timestamp kvs it there lat) refl)
