-- ===== src/Slave/KvStore/Absent.antt =====
-- A read of a key that has no version (src/slave/KVStore.cc).
use universal_db.Base.{
  ℕ, ◌≤◌, ◌≡◌, refl, ◌∙◌, true, none, some, [], ◌∷◌, arith, ltb, leb, if◌then◌else◌,
}
use universal_db.Base.Bytes.{Bytes, bytes_eq, bytes_beq_refl}
use universal_db.Base.Assoc.{find, insert, find-insert, assign}
use universal_db.Base.Result.{ok}
use universal_db.Slave.KvStore.{KvStore, MultiVersionEntry, write, read, read_at, search}

-- The read leaves no trace: a later write may take a timestamp that is not above the one that was
-- read at, and then the same read, repeated, finds the value of that write.
pub read_absent_untraced :
    (key value : Bytes) (written read_timestamp : ℕ) (s : KvStore)
    → find key s.mvkvs ≡ none
    → written ≤ read_timestamp
    → (s' : KvStore) × (u : KvStore) × (read key read_timestamp s ≡ ok (none, s))
      × (write key value written s ≡ ok s')
      × (read key read_timestamp s' ≡ ok (some value, u))
unfolding read write search read_at
read_absent_untraced key value written t s absent h =
    let entry : MultiVersionEntry = record {
      versions = record { timestamp = written; value = value } ∷ [];
      lat = written;
    } in
    let s' : KvStore = record { mvkvs = insert key entry s.mvkvs } in
    let there : find key s'.mvkvs ≡ some entry =
      find-insert key key entry s.mvkvs ∙ rw absent (rw (bytes_beq_refl key) refl) in
    let earlier : leb written t ≡ true = ground arith in
    let found : search 2 entry.versions t 0 1 ≡ ok 1 = ground (arith, earlier) in
    (
      s',
      if ltb written t
          then record { mvkvs = assign key (record entry { lat = t }) s'.mvkvs }
          else s',
      rw (absent, read) refl,
      rw (absent, write) refl,
      rw (there, read) (rw found refl),
    )
