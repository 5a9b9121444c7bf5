-- ===== src/Server/HeartbeatTracker/Counts.antt =====
-- What the operations of src/server/HeartbeatTracker.cc do to the count of a peer.
use universal_db.Base.{
  ℕ, ◌≡◌, refl, Bool, true, false, ◌&&◌, ◌||◌, Option, none, some, List, [], ◌∷◌, arith, leb, inc32,
  if◌then◌else◌, is_some,
}
use universal_db.Net.EndpointId.{EndpointId, endpoint_lt}
use universal_db.Server.HeartbeatTracker.{
  Counts, find_count, insert_count, reset_count, increment_counts, handle_heartbeat,
  alive_endpoints, heartbeat_failure_count,
}
use universal_db.Server.HeartbeatTracker.Sorted.{
  same_ip, AllAfter, IsSorted, lt_trans, lt_same, lt_same_left, lt_same_right,
}

find_count_after :
    (d e : EndpointId) (m : Counts) → AllAfter d m → endpoint_lt d e ≡ false → find_count e m ≡ none
unfolding find_count
find_count_after d e [] a h = refl
find_count_after d e ((x, c) ∷ m) a h =
    ground (arith, find_count_after d e m a.1 h, lt_trans d x e, lt_same x e, lt_same_right d x e)

find_count-insert_count :
    (e j : EndpointId) (m : Counts)
    → find_count j (insert_count e m) ≡ (if same_ip e j then some 0 else find_count j m)
unfolding find_count insert_count
find_count-insert_count e j [] = ground (arith, lt_same e j)
find_count-insert_count e j ((d, c) ∷ m) = ground (
  arith,
  find_count-insert_count e j m,
  lt_same e j,
  lt_same d j,
  lt_trans d j e,
  lt_trans e j d,
  lt_same_right d e j,
  lt_same_left d j e,
)

find_count_same :
    (e j : EndpointId) (m : Counts) → same_ip e j ≡ true → find_count e m ≡ find_count j m
unfolding find_count
find_count_same e j [] h = refl
find_count_same e j ((d, c) ∷ m) h =
    ground (arith, find_count_same e j m h, lt_same_right d e j h, lt_same_left e j d h)

find_count-reset_count :
    (e j : EndpointId) (m : Counts)
    → find_count j (reset_count e m)
      ≡ (if same_ip e j && is_some (find_count j m) then some 0 else find_count j m)
unfolding find_count reset_count
find_count-reset_count e j [] = ground arith
find_count-reset_count e j ((d, c) ∷ m) = ground (
  arith,
  find_count-reset_count e j m,
  lt_same e j,
  lt_same d j,
  lt_same d e,
  lt_same_right d e j,
  lt_same_left d j e,
  lt_same_left e j d,
  lt_same_left d e j,
  lt_same_right j d e,
)

-- A heartbeat sets the count of its peer to 0 and leaves the others.
pub find_count-handle_heartbeat :
    (e j : EndpointId) (m : Counts)
    → find_count j (handle_heartbeat e m) ≡ (if same_ip e j then some 0 else find_count j m)
unfolding handle_heartbeat
find_count-handle_heartbeat e j m =
    ground
      (arith, find_count-insert_count e j m, find_count-reset_count e j m, find_count_same e j m)

pub find_count-increment_counts :
    (j : EndpointId) (m : Counts)
    → find_count j (increment_counts m)
      ≡ elim (find_count j m) [ none ↦ none | some c ↦ some (inc32 c) ]
unfolding find_count increment_counts
find_count-increment_counts j [] = refl
find_count-increment_counts j ((d, c) ∷ m) = ground (arith, find_count-increment_counts j m)

abbrev pub living : Option ℕ → Option ℕ
living none = none
living (some c) = if leb heartbeat_failure_count c then none else some c

-- What is kept in the map is what has a count below the limit.
pub find_count-alive_endpoints :
    (j : EndpointId) (m : Counts)
    → IsSorted m
    → find_count j (alive_endpoints m).1 ≡ living (find_count j m)
unfolding find_count alive_endpoints
find_count-alive_endpoints j [] s = refl
find_count-alive_endpoints j ((d, c) ∷ m) s =
    ground (arith, find_count-alive_endpoints j m s.1, find_count_after d j m s.0)

abbrev pub has_ip : EndpointId → List EndpointId → Bool
has_ip j [] = false
has_ip j (e ∷ es) = same_ip e j || has_ip j es

-- The peers that are alive are the ones with a count below the limit.
pub has_ip-alive_endpoints :
    (j : EndpointId) (m : Counts)
    → IsSorted m
    → has_ip j (alive_endpoints m).0 ≡ is_some (living (find_count j m))
unfolding find_count alive_endpoints
has_ip-alive_endpoints j [] s = refl
has_ip-alive_endpoints j ((d, c) ∷ m) s =
    ground (arith, has_ip-alive_endpoints j m s.1, find_count_after d j m s.0, lt_same d j)
