-- ===== src/Server/HeartbeatTracker/Leader.antt =====
-- The leader that `leader_endpoint_id` of src/server/HeartbeatTracker.cc finds.
use universal_db.Base.{
  ◌≡◌, refl, sym, ap, ◌∙◌, true, false, Option, none, some, List, [], ◌∷◌, arith, leb, if_cases,
}
use universal_db.Base.Bytes.{Bytes, bytes_beq_refl, bytes_lt_total}
use universal_db.Net.EndpointId.{EndpointId, endpoint_lt}
use universal_db.Server.HeartbeatTracker.{
  Counts, alive_endpoints, leader_endpoint_id, heartbeat_failure_count,
}
use universal_db.Server.HeartbeatTracker.Sorted.{
  IsSorted, AllAfter, lt_trans, lt_same, lt_same_right,
}
use universal_db.Server.HeartbeatTracker.Counts.{has_ip}

alive_after :
    (d j : EndpointId) (m : Counts)
    → AllAfter d m
    → has_ip j (alive_endpoints m).0 ≡ true
    → endpoint_lt d j ≡ true
unfolding alive_endpoints
alive_after d j [] a h = cc
alive_after d j ((x, c) ∷ m) a h = ground (arith, a.0, alive_after d j m a.1, lt_same_right d x j)

-- The leader is alive and no endpoint that is alive has a smaller address; there is none only if
-- no endpoint is alive.
abbrev pub LeaderOf : List EndpointId → Option EndpointId → Type 0
LeaderOf alive none = (j : EndpointId) → has_ip j alive ≡ false
LeaderOf alive (some e) =
    (has_ip e alive ≡ true) × ((j : EndpointId) → has_ip j alive ≡ true → endpoint_lt j e ≡ false)

leads :
    (x : EndpointId) (m : Counts) (j : EndpointId)
    → AllAfter x m
    → has_ip j (x ∷ (alive_endpoints m).0) ≡ true
    → endpoint_lt j x ≡ false
leads x m j a h = ground (
  arith,
  alive_after x j m a,
  lt_same x j,
  lt_trans x j x,
  lt_same x x,
  bytes_beq_refl x.ip_string,
)

-- The leader that is found is the endpoint with the smallest address of all that are alive.
pub leader_endpoint_id-LeaderOf :
    (m : Counts) → IsSorted m → LeaderOf (alive_endpoints m).0 (leader_endpoint_id m).0
unfolding leader_endpoint_id alive_endpoints
leader_endpoint_id-LeaderOf [] s = λ j. refl
leader_endpoint_id-LeaderOf ((x, c) ∷ m) s =
    if_cases
      (λ (r : List EndpointId × Counts).
        LeaderOf r.0 (elim r.0 [ [] ↦ none | first ∷ _ ↦ some first ]))
      (leb heartbeat_failure_count c) _ _ (λ _. leader_endpoint_id-LeaderOf m s.1)
      (λ _. (ground (arith, bytes_beq_refl x.ip_string), λ j h. leads x m j s.0 h))

-- The address of a leader.
abbrev pub address : Option EndpointId → Option Bytes
address none = none
address (some e) = some e.ip_string

same_leader :
    (a b : List EndpointId) (o p : Option EndpointId)
    → LeaderOf a o
    → LeaderOf b p
    → ((j : EndpointId) → has_ip j a ≡ has_ip j b)
    → address o ≡ address p
unfolding endpoint_lt
same_leader a b none none l k h = refl
same_leader a b none (some e) l k h = absurd (ground (arith, l e, k.0, h e))
same_leader a b (some d) none l k h = absurd (ground (arith, l.0, k d, h d))
same_leader a b (some d) (some e) l k h =
    ap some (bytes_lt_total d.ip_string e.ip_string (k.1 d (sym (h d) ∙ l.0)) (l.1 e (h e ∙ k.0)))

-- Two nodes that see the same addresses alive find a leader of the same address.
pub leaders_agree :
    (m n : Counts)
    → IsSorted m
    → IsSorted n
    → ((j : EndpointId) → has_ip j (alive_endpoints m).0 ≡ has_ip j (alive_endpoints n).0)
    → address (leader_endpoint_id m).0 ≡ address (leader_endpoint_id n).0
leaders_agree m n s t h =
    same_leader (alive_endpoints m).0 (alive_endpoints n).0 (leader_endpoint_id m).0
      (leader_endpoint_id n).0 (leader_endpoint_id-LeaderOf m s) (leader_endpoint_id-LeaderOf n t) h
