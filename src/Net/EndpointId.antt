-- ===== src/Net/EndpointId.antt =====
-- EndpointId of src/net/EndpointId.h and EndpointId.cc. The port, an int32_t, is only compared;
-- it stands as its bit pattern.
use universal_db.Base.{ℕ, ◌≡◌, Bool, true, ◌&&◌, ◌↔◌, arith, nat_beq, ap}
use universal_db.Base.Eq.{Eq}
use universal_db.Base.Bytes.{Bytes, bytes_beq, bytes_beq_iff, bytes_lt}

pub record EndpointId : Type 0 where
  pub ip_string : Bytes
  pub port : ℕ

-- operator==
unfoldable pub endpoint_beq : EndpointId → EndpointId → Bool
endpoint_beq a b = bytes_beq a.ip_string b.ip_string && nat_beq a.port b.port

-- operator<, which the ordered maps use: the port does not count.
unfoldable pub endpoint_lt : EndpointId → EndpointId → Bool
endpoint_lt a b = bytes_lt a.ip_string b.ip_string

pub endpoint_beq_iff : (a b : EndpointId) → (endpoint_beq a b ≡ true) ↔ (a ≡ b)
unfolding endpoint_beq
endpoint_beq_iff a b = (
  λ h. ground (arith, bytes_beq_iff a.ip_string b.ip_string),
  λ e. ground (
    arith,
    bytes_beq_iff a.ip_string b.ip_string,
    ap (λ (x : EndpointId). x.ip_string) e,
    ap (λ (x : EndpointId). x.port) e,
  ),
)

instance abbrev pub endpoint_eq : Eq EndpointId
endpoint_eq = record { beq = endpoint_beq; beq_iff = endpoint_beq_iff }
