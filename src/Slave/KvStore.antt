-- ===== src/Slave/KvStore.antt =====
-- KVStore of src/slave/KVStore.h and KVStore.cc. Timestamps are uint64_t that are only compared.
-- The map is read in order by `debug_string` alone, which is not modelled.
pub mod Search
pub mod Invariant
pub mod Snapshot
pub mod Absent
pub mod Raised
mod Tests
use universal_db.Base.{
  ℕ, zero, suc, ◌+◌, ◌-◌, ◌/◌, ◌≡◌, Bool, true, false, Option, none, some, List, [], ◌∷◌, ◌++◌, ltb,
  leb, length, get_elem?, if◌then◌else◌,
}
use universal_db.Base.Eq.{◌==◌, nat_eq}
use universal_db.Base.Bytes.{Bytes, bytes_eq}
use universal_db.Base.Assoc.{find, insert, assign}
use universal_db.Base.Result.{Result, ok, thrown, undefined, out_of_fuel, assert, ◌>>=◌, ◌>>◌}

pub record VersionEntry : Type 0 where
  pub timestamp : ℕ
  pub value : Bytes

pub record MultiVersionEntry : Type 0 where
  pub versions : List VersionEntry
  pub lat : ℕ

pub record KvStore : Type 0 where
  pub mvkvs : List (Bytes × MultiVersionEntry)

abbrev pub empty_store : KvStore
empty_store = record { mvkvs = [] }

unfoldable pub write : Bytes → Bytes → ℕ → KvStore → Result KvStore
write key value timestamp s = elim (find key s.mvkvs) [
  | none ↦ ok (record {
    mvkvs =
        insert key
          (record {
            versions = record { timestamp = timestamp; value = value } ∷ [];
            lat = timestamp;
          })
          s.mvkvs;
  })
  | some it ↦ do
    assert (ltb it.lat timestamp)
    ok (record {
      mvkvs =
          assign key
            (record {
              versions = it.versions ++ record { timestamp = timestamp; value = value } ∷ [];
              lat = timestamp;
            })
            s.mvkvs;
    })
]

-- The loop `while (start < end)` of `read`.
unfoldable pub search : ℕ → List VersionEntry → ℕ → ℕ → ℕ → Result ℕ
search zero versions timestamp start end = thrown out_of_fuel
search (suc fuel) versions timestamp start end = elim (ltb start end) [
  | false ↦ ok start
  | true ↦ elim (get_elem? versions ((start + end) / 2)) [
    | none ↦ thrown undefined
    | some v ↦ elim (leb v.timestamp timestamp) [
      | true ↦ search fuel versions timestamp ((start + end) / 2 + 1) end
      | false ↦ search fuel versions timestamp start ((start + end) / 2)
    ]
  ]
]

-- The rest of `read`, after the loop.
unfoldable pub read_at :
    Bytes → ℕ → MultiVersionEntry → KvStore → ℕ → Result (Option Bytes × KvStore)
read_at key timestamp it s start =
    if start == 0 then ok (none, s) else elim (get_elem? it.versions (start - 1)) [
      | none ↦ thrown undefined
      | some v ↦ ok (
        some v.value,
        if ltb it.lat timestamp
            then record { mvkvs = assign key (record it { lat = timestamp }) s.mvkvs }
            else s,
      )
    ]

unfoldable pub read : Bytes → ℕ → KvStore → Result (Option Bytes × KvStore)
unfolding read_at
read key timestamp s = elim (find key s.mvkvs) [
  | none ↦ ok (none, s)
  | some it ↦ do
    start ← search (suc (length it.versions)) it.versions timestamp 0 (length it.versions)
    read_at key timestamp it s start
]

unfoldable pub read_lat : Bytes → KvStore → Option ℕ
read_lat key s = elim (find key s.mvkvs) [ none ↦ none | some it ↦ some it.lat ]
