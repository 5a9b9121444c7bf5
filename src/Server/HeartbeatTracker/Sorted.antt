-- ===== src/Server/HeartbeatTracker/Sorted.antt =====
-- The order of the keys in the map of src/server/HeartbeatTracker.cc.
use universal_db.Base.{
  ◌≡◌, ap, ◌∙◌, Bool, true, not, ◌&&◌, none, List, [], ◌∷◌, arith, leb, All, Bool-cases, inl, inr,
  if_cases, Option-cases,
}
use universal_db.Base.Bytes.{
  bytes_beq, bytes_beq_iff, bytes_lt, bytes_lt_irrefl, bytes_lt_trans, bytes_lt_total,
}
use universal_db.Net.EndpointId.{EndpointId, endpoint_lt}
use universal_db.Server.HeartbeatTracker.{
  Counts, find_count, insert_count, reset_count, increment_counts, handle_heartbeat,
  alive_endpoints, heartbeat_failure_count,
}

abbrev pub same_ip : EndpointId → EndpointId → Bool
same_ip a b = bytes_beq a.ip_string b.ip_string

-- Every key is behind the endpoint.
abbrev pub AllAfter : EndpointId → Counts → Type 0
AllAfter e = All (λ p. endpoint_lt e p.0 ≡ true)

abbrev pub IsSorted : Counts → Type 0
IsSorted [] = Unit {0}
IsSorted (p ∷ m) = AllAfter p.0 m × IsSorted m

pub lt_trans :
    (a b c : EndpointId) → endpoint_lt a b ≡ true → endpoint_lt b c ≡ true → endpoint_lt a c ≡ true
unfolding endpoint_lt
lt_trans a b c = bytes_lt_trans a.ip_string b.ip_string c.ip_string

-- The order is one of the addresses without their ports.
pub lt_same : (a b : EndpointId) → same_ip a b ≡ (not (endpoint_lt a b) && not (endpoint_lt b a))
unfolding endpoint_lt
lt_same a b = elim (Bool-cases (same_ip a b)) [
  | inl same ↦
      let e = (bytes_beq_iff a.ip_string b.ip_string).0 same in
      ground (
        arith,
        same,
        ap (λ x. bytes_lt x b.ip_string) e ∙ bytes_lt_irrefl b.ip_string,
        ap (bytes_lt b.ip_string) e ∙ bytes_lt_irrefl b.ip_string,
      )
  | inr differ ↦
      ground (
        arith,
        differ,
        bytes_lt_total a.ip_string b.ip_string,
        bytes_beq_iff a.ip_string b.ip_string,
      )
]

pub lt_same_right : (a b c : EndpointId) → same_ip b c ≡ true → endpoint_lt a b ≡ endpoint_lt a c
unfolding endpoint_lt
lt_same_right a b c h = ap (bytes_lt a.ip_string) ((bytes_beq_iff b.ip_string c.ip_string).0 h)

pub lt_same_left : (a b c : EndpointId) → same_ip a b ≡ true → endpoint_lt a c ≡ endpoint_lt b c
unfolding endpoint_lt
lt_same_left a b c h =
    ap (λ x. bytes_lt x c.ip_string) ((bytes_beq_iff a.ip_string b.ip_string).0 h)

AllAfter-insert_count :
    (d e : EndpointId) (m : Counts)
    → AllAfter d m
    → endpoint_lt d e ≡ true
    → AllAfter d (insert_count e m)
unfolding insert_count
AllAfter-insert_count d e [] a h = (h, tt)
AllAfter-insert_count d e ((x, c) ∷ m) a h =
    if_cases (AllAfter d) (endpoint_lt x e) _ _ (λ _. (a.0, AllAfter-insert_count d e m a.1 h))
      (λ _. (h, a))

AllAfter-trans :
    (d e : EndpointId) (m : Counts) → endpoint_lt d e ≡ true → AllAfter e m → AllAfter d m
AllAfter-trans d e [] h a = tt
AllAfter-trans d e ((x, c) ∷ m) h a = (lt_trans d e x h a.0, AllAfter-trans d e m h a.1)

-- For a key that the map lacks.
insert_count-IsSorted :
    (e : EndpointId) (m : Counts) → IsSorted m → find_count e m ≡ none → IsSorted (insert_count e m)
unfolding insert_count find_count
insert_count-IsSorted e [] s n = (tt, tt)
insert_count-IsSorted e ((x, c) ∷ m) s n = elim (Bool-cases (endpoint_lt x e)) [
  | inl before ↦ rw before (
    AllAfter-insert_count x e m s.0 before,
    insert_count-IsSorted e m s.1 (ground (arith, before, n)),
  )
  | inr not_before ↦
      let after : endpoint_lt e x ≡ true = ground (arith, n, not_before) in
      rw not_before ((after, AllAfter-trans e x m after s.0), s)
]

AllAfter-reset_count : (d e : EndpointId) (m : Counts) → AllAfter d m → AllAfter d (reset_count e m)
unfolding reset_count
AllAfter-reset_count d e [] a = tt
AllAfter-reset_count d e ((x, c) ∷ m) a =
    if_cases (AllAfter d) (endpoint_lt x e) _ _ (λ _. (a.0, AllAfter-reset_count d e m a.1))
      (λ _. if_cases (AllAfter d) (endpoint_lt e x) _ _ (λ _. a) (λ _. (a.0, a.1)))

reset_count-IsSorted : (e : EndpointId) (m : Counts) → IsSorted m → IsSorted (reset_count e m)
unfolding reset_count
reset_count-IsSorted e [] s = tt
reset_count-IsSorted e ((x, c) ∷ m) s =
    if_cases IsSorted (endpoint_lt x e) _ _
      (λ _. (AllAfter-reset_count x e m s.0, reset_count-IsSorted e m s.1))
      (λ _. if_cases IsSorted (endpoint_lt e x) _ _ (λ _. s) (λ _. s))

pub handle_heartbeat-IsSorted :
    (e : EndpointId) (m : Counts) → IsSorted m → IsSorted (handle_heartbeat e m)
unfolding handle_heartbeat
handle_heartbeat-IsSorted e m s = elim (Option-cases (find_count e m)) [
  | inl absent ↦ rw (absent, handle_heartbeat) (insert_count-IsSorted e m s absent)
  | inr (c, there) ↦ rw (there, handle_heartbeat) (reset_count-IsSorted e m s)
]

AllAfter-increment_counts :
    (d : EndpointId) (m : Counts) → AllAfter d m → AllAfter d (increment_counts m)
unfolding increment_counts
AllAfter-increment_counts d [] a = tt
AllAfter-increment_counts d ((x, c) ∷ m) a = (a.0, AllAfter-increment_counts d m a.1)

pub increment_counts-IsSorted : (m : Counts) → IsSorted m → IsSorted (increment_counts m)
unfolding increment_counts
increment_counts-IsSorted [] s = tt
increment_counts-IsSorted ((x, c) ∷ m) s =
    (AllAfter-increment_counts x m s.0, increment_counts-IsSorted m s.1)

AllAfter-alive_endpoints :
    (d : EndpointId) (m : Counts) → AllAfter d m → AllAfter d (alive_endpoints m).1
unfolding alive_endpoints
AllAfter-alive_endpoints d [] a = tt
AllAfter-alive_endpoints d ((x, c) ∷ m) a =
    if_cases (λ (r : List EndpointId × Counts). AllAfter d r.1) (leb heartbeat_failure_count c) _ _
      (λ _. AllAfter-alive_endpoints d m a.1) (λ _. (a.0, AllAfter-alive_endpoints d m a.1))

pub alive_endpoints-IsSorted : (m : Counts) → IsSorted m → IsSorted (alive_endpoints m).1
unfolding alive_endpoints
alive_endpoints-IsSorted [] s = tt
alive_endpoints-IsSorted ((x, c) ∷ m) s =
    if_cases (λ (r : List EndpointId × Counts). IsSorted r.1) (leb heartbeat_failure_count c) _ _
      (λ _. alive_endpoints-IsSorted m s.1)
      (λ _. (AllAfter-alive_endpoints x m s.0, alive_endpoints-IsSorted m s.1))
