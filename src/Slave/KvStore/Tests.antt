-- ===== src/Slave/KvStore/Tests.antt =====
-- The theorems on the store at concrete stores (the first test of
-- testing/unit/slave/KVStoreTest.cc is close to `two_writes`).
use universal_db.Base.{◌≡◌, refl, none, some, arith, List, [], ◌∷◌}
use universal_db.Base.Bytes.{Bytes, bytes_eq, bytes_beq}
use universal_db.Base.Assoc.{find, insert, assign}
use universal_db.Base.Result.{ok}
use universal_db.Slave.KvStore.{KvStore, empty_store, write, read, search}
use universal_db.Slave.KvStore.Invariant.{
  IsValid, empty_store-IsValid, write-IsValid, read-eq-scan, scan,
}
use universal_db.Slave.KvStore.Absent.{read_absent_untraced}
use universal_db.Slave.KvStore.Snapshot.{Call, writes, reads, run, step, read_snapshot}

abbrev key : Bytes
key = 107 ∷ []

abbrev one_write : KvStore
one_write = record {
  mvkvs = (key, record { versions = record { timestamp = 2; value = 97 ∷ [] } ∷ []; lat = 2 }) ∷ [];
}

abbrev two_writes : KvStore
two_writes = record {
  mvkvs =
      (
        key,
        record {
          versions =
              record { timestamp = 2; value = 97 ∷ [] }
              ∷ record { timestamp = 5; value = 98 ∷ [] }
              ∷ [];
          lat = 5;
        },
      )
      ∷ [];
}

first_write : write key (97 ∷ []) 2 empty_store ≡ ok one_write
unfolding write find insert bytes_beq
first_write = refl

second_write : write key (98 ∷ []) 5 one_write ≡ ok two_writes
unfolding write find assign bytes_beq
second_write = refl

one_write-IsValid : IsValid one_write
one_write-IsValid =
    write-IsValid key (97 ∷ []) 2 empty_store one_write empty_store-IsValid first_write

two_writes-IsValid : IsValid two_writes
two_writes-IsValid =
    write-IsValid key (98 ∷ []) 5 one_write two_writes one_write-IsValid second_write

write-IsValid_example : IsValid two_writes
write-IsValid_example =
    write-IsValid key (98 ∷ []) 5 one_write two_writes one_write-IsValid second_write

read-eq-scan_example : read key 4 two_writes ≡ ok (scan key 4 two_writes)
read-eq-scan_example = read-eq-scan key 4 two_writes two_writes-IsValid

read_value : read key 4 two_writes ≡ ok (some (97 ∷ []), two_writes)
unfolding read search find bytes_beq
read_value = refl

abbrev later_calls : List Call
later_calls = writes key (99 ∷ []) 9 ∷ reads key 20 ∷ []

abbrev after_calls : KvStore
after_calls = record {
  mvkvs =
      (
        key,
        record {
          versions =
              record { timestamp = 2; value = 97 ∷ [] }
              ∷ record { timestamp = 5; value = 98 ∷ [] }
              ∷ record { timestamp = 9; value = 99 ∷ [] }
              ∷ [];
          lat = 20;
        },
      )
      ∷ [];
}

calls_run : run two_writes later_calls ≡ ok after_calls
unfolding run step write read search find assign bytes_beq
calls_run = refl

read_snapshot_example : (u : KvStore) × (read key 4 after_calls ≡ ok (some (97 ∷ []), u))
unfolding find bytes_beq
read_snapshot_example =
    read_snapshot key 4 two_writes two_writes after_calls (some (97 ∷ [])) later_calls
      two_writes-IsValid refl read_value calls_run

read_absent_untraced_example :
    (s : KvStore) × (u : KvStore) × (read key 9 empty_store ≡ ok (none, empty_store))
    × (write key (97 ∷ []) 5 empty_store ≡ ok s)
    × (read key 9 s ≡ ok (some (97 ∷ []), u))
unfolding find
read_absent_untraced_example = read_absent_untraced key (97 ∷ []) 5 9 empty_store refl (omega arith)
