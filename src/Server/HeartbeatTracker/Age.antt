-- ===== src/Server/HeartbeatTracker/Age.antt =====
-- How long a peer counts as alive in src/server/HeartbeatTracker.cc.
use universal_db.Base.{
  ℕ, suc, ◌+◌, ◌≤◌, ◌<◌, ◌≡◌, refl, sym, ap, subst, ◌∙◌, false, Option, none, some, List, [], ◌∷◌,
  arith, ltb, inc32, inc32_lem, u32_mod, is_some,
}
use universal_db.Base.Bytes.{bytes_beq_refl}
use universal_db.Net.EndpointId.{EndpointId}
use universal_db.Server.HeartbeatTracker.{
  Counts, find_count, increment_counts, handle_heartbeat, alive_endpoints, leader_endpoint_id,
  heartbeat_failure_count,
}
use universal_db.Server.HeartbeatTracker.Sorted.{
  IsSorted, same_ip, handle_heartbeat-IsSorted, increment_counts-IsSorted, alive_endpoints-IsSorted,
}
use universal_db.Server.HeartbeatTracker.Counts.{
  find_count-handle_heartbeat, find_count-increment_counts, find_count-alive_endpoints, has_ip,
  has_ip-alive_endpoints, living,
}

-- What happens to a tracker: a period ends, a heartbeat comes in, or the peers are asked for.
pub data Event : Type 0 where
  period : Event
  heartbeat : EndpointId → Event
  asked leader_asked : Event

unfoldable pub step : Event → Counts → Counts
step period m = increment_counts m
step (heartbeat e) m = handle_heartbeat e m
step asked m = (alive_endpoints m).1
step leader_asked m = (leader_endpoint_id m).1

unfoldable pub run : List Event → Counts → Counts
run [] m = m
run (x ∷ xs) m = run xs (step x m)

-- The periods that end in a run.
unfoldable pub periods : List Event → ℕ
periods [] = 0
periods (period ∷ xs) = suc (periods xs)
periods (_ ∷ xs) = periods xs

-- No heartbeat is of the peer.
abbrev pub Silent : EndpointId → List Event → Type 0
Silent j [] = Unit {0}
Silent j (heartbeat e ∷ xs) = (same_ip e j ≡ false) × Silent j xs
Silent j (_ ∷ xs) = Silent j xs

pub step-IsSorted : (x : Event) (m : Counts) → IsSorted m → IsSorted (step x m)
unfolding step leader_endpoint_id
step-IsSorted period m s = increment_counts-IsSorted m s
step-IsSorted (heartbeat e) m s = handle_heartbeat-IsSorted e m s
step-IsSorted asked m s = alive_endpoints-IsSorted m s
step-IsSorted leader_asked m s = alive_endpoints-IsSorted m s

-- The count of a peer that was heard of `age` periods ago: it may be gone from the limit on.
abbrev Since : ℕ → Option ℕ → Type 0
Since age none = heartbeat_failure_count ≤ age
Since age (some c) = c ≡ age

Since-inc :
    (age : ℕ) (o : Option ℕ)
    → age + 1 < u32_mod
    → Since age o
    → Since (age + 1) (elim o [ none ↦ none | some c ↦ some (inc32 c) ])
Since-inc age none w h = omega arith
Since-inc age (some c) w h = ground (arith, inc32_lem c)

Since-living : (age : ℕ) (o : Option ℕ) → Since age o → Since age (living o)
Since-living age none h = h
Since-living age (some c) h = ground (arith, h)

living-Since :
    (age : ℕ) (o : Option ℕ) → Since age o → is_some (living o) ≡ ltb age heartbeat_failure_count
living-Since age none h = ground arith
living-Since age (some c) h = ground (arith, h)

run-Since :
    (xs : List Event) (j : EndpointId) (m : Counts) (age : ℕ)
    → IsSorted m
    → Silent j xs
    → age + periods xs < u32_mod
    → Since age (find_count j m)
    → Since (age + periods xs) (find_count j (run xs m)) × IsSorted (run xs m)
unfolding run step periods leader_endpoint_id
run-Since [] j m age s q w h = (subst (λ a. Since a (find_count j m)) (omega arith) h, s)
run-Since (period ∷ xs) j m age s q w h =
    let (r, t) =
      run-Since xs j (increment_counts m) (age + 1) (step-IsSorted period m s) q (omega arith) (
        subst (Since (age + 1)) (sym (find_count-increment_counts j m))
          (Since-inc age (find_count j m) (omega arith) h)) in
    (subst (λ a. Since a (find_count j (run xs (increment_counts m)))) (omega arith) r, t)
run-Since (heartbeat e ∷ xs) j m age s q w h =
    run-Since xs j (handle_heartbeat e m) age (step-IsSorted (heartbeat e) m s) q.1 w
      (subst (Since age) (sym (find_count-handle_heartbeat e j m)) (rw q.0 h))
run-Since (asked ∷ xs) j m age s q w h =
    run-Since xs j (alive_endpoints m).1 age (step-IsSorted asked m s) q w (
      subst (Since age) (sym (find_count-alive_endpoints j m s))
        (Since-living age (find_count j m) h))
run-Since (leader_asked ∷ xs) j m age s q w h =
    run-Since xs j (alive_endpoints m).1 age (step-IsSorted asked m s) q w (
      subst (Since age) (sym (find_count-alive_endpoints j m s))
        (Since-living age (find_count j m) h))

-- A peer is alive exactly if fewer than heartbeat_failure_count periods have ended since its last
-- heartbeat, whatever else has happened: the heartbeats of other addresses and the times that the
-- tracker was asked in between do not matter.
pub alive-eq-recent :
    (xs : List Event) (e : EndpointId) (m : Counts)
    → IsSorted m
    → Silent e xs
    → periods xs < u32_mod
    → has_ip e (alive_endpoints (run xs (handle_heartbeat e m))).0
      ≡ ltb (periods xs) heartbeat_failure_count
alive-eq-recent xs e m s q w =
    let (r, t) =
      run-Since xs e (handle_heartbeat e m) 0 (handle_heartbeat-IsSorted e m s) q (omega arith) (
        subst (Since 0) (sym (find_count-handle_heartbeat e e m))
          (rw (bytes_beq_refl e.ip_string) refl)) in
    has_ip-alive_endpoints e (run xs (handle_heartbeat e m)) t
    ∙ living-Since (0 + periods xs) (find_count e (run xs (handle_heartbeat e m))) r
    ∙ ap (λ n. ltb n heartbeat_failure_count) (omega arith)
