-- ===== src/Server/KeySpaceRange.antt =====
-- KeySpaceRange of src/server/KeySpaceRange.h and KeySpaceRange.cc: a range of the keys of a table.
use universal_db.Base.{
  ◌≡◌, refl, ap, ◌↔◌, Bool, true, false, not, ◌&&◌, Option, none, some, arith, if◌then◌else◌,
  Bool-cases, inl, inr,
}
use universal_db.Base.Eq.{Eq}
use universal_db.Base.Bytes.{
  Bytes, bytes_beq, bytes_beq_iff, bytes_beq_refl, bytes_lt, bytes_lt_trans, bytes_lt_total,
}
use universal_db.Proto.Paxos

pub record KeySpaceRange : Type 0 where
  pub database_id : Bytes
  pub table_id : Bytes
  pub start_key : Option Bytes
  pub end_key : Option Bytes

-- == on a boost::optional<std::string>
unfoldable pub key_beq : Option Bytes → Option Bytes → Bool
key_beq none none = true
key_beq (some a) (some b) = bytes_beq a b
key_beq _ _ = false

unfoldable pub range_beq : KeySpaceRange → KeySpaceRange → Bool
unfolding key_beq
range_beq a b =
    bytes_beq a.database_id b.database_id
    && bytes_beq a.table_id b.table_id
    && key_beq a.start_key b.start_key
    && key_beq a.end_key b.end_key

-- The tests of `within_range` on the two keys; `a > b` is `b < a`, and `a <= b` its negation.
unfoldable pub start_admits : Option Bytes → Bytes → Bool
start_admits none key = true
start_admits (some start) key = not (bytes_lt key start)

unfoldable pub end_admits : Option Bytes → Bytes → Bool
end_admits none key = true
end_admits (some end) key = bytes_lt key end

-- For a message with a database_id, a table_id and a key.
unfoldable pub within_range : KeySpaceRange → Bytes → Bytes → Bytes → Bool
unfolding start_admits end_admits
within_range range database_id table_id key =
    if not (bytes_beq range.database_id database_id)
    then false
    else if not (bytes_beq range.table_id table_id)
    then false
    else if not (start_admits range.start_key key)
    then false
    else if not (end_admits range.end_key key)
    then false
    else true

-- From the message.
unfoldable pub convert : Paxos.KeySpaceRange → KeySpaceRange
convert p = record {
  database_id = p.database_id;
  table_id = p.table_id;
  start_key = p.start_key;
  end_key = p.end_key;
}

-- Into a new message.
unfoldable pub build_range : KeySpaceRange → Paxos.KeySpaceRange
build_range r = record {
  database_id = r.database_id;
  table_id = r.table_id;
  start_key = r.start_key;
  end_key = r.end_key;
}

key_beq_iff : (a b : Option Bytes) → (key_beq a b ≡ true) ↔ (a ≡ b)
unfolding key_beq
key_beq_iff none none = (λ _. refl, λ _. refl)
key_beq_iff none (some b) = (λ h. cc, λ h. cc)
key_beq_iff (some a) none = (λ h. cc, λ h. cc)
key_beq_iff (some a) (some b) =
    (λ h. ap some ((bytes_beq_iff a b).0 h), λ e. ground (arith, bytes_beq_iff a b, e))

pub range_beq_iff : (a b : KeySpaceRange) → (range_beq a b ≡ true) ↔ (a ≡ b)
unfolding range_beq
range_beq_iff a b = (
  λ h. ground (
    arith,
    bytes_beq_iff a.database_id b.database_id,
    bytes_beq_iff a.table_id b.table_id,
    key_beq_iff a.start_key b.start_key,
    key_beq_iff a.end_key b.end_key,
  ),
  λ e. ground (
    arith,
    bytes_beq_iff a.database_id b.database_id,
    bytes_beq_iff a.table_id b.table_id,
    key_beq_iff a.start_key b.start_key,
    key_beq_iff a.end_key b.end_key,
    ap (λ (x : KeySpaceRange). x.database_id) e,
    ap (λ (x : KeySpaceRange). x.table_id) e,
    ap (λ (x : KeySpaceRange). x.start_key) e,
    ap (λ (x : KeySpaceRange). x.end_key) e,
  ),
)

instance abbrev pub range_eq : Eq KeySpaceRange
range_eq = record { beq = range_beq; beq_iff = range_beq_iff }

-- The range of a split at a key: what is before the key, and what is from it on.
abbrev pub before : Bytes → KeySpaceRange → KeySpaceRange
before split range = record range { end_key = some split }

abbrev pub from : Bytes → KeySpaceRange → KeySpaceRange
from split range = record range { start_key = some split }

end_admits_before :
    (end : Option Bytes) (split key : Bytes)
    → end_admits end split ≡ true
    → bytes_lt key split ≡ true
    → end_admits end key ≡ true
unfolding end_admits
end_admits_before none split key h k = refl
end_admits_before (some end) split key h k = bytes_lt_trans key split end k h

start_admits_from :
    (start : Option Bytes) (split key : Bytes)
    → start_admits start split ≡ true
    → bytes_lt key split ≡ false
    → start_admits start key ≡ true
unfolding start_admits
start_admits_from none split key h k = refl
start_admits_from (some start) split key h k = elim (Bool-cases (bytes_lt start split)) [
  | inl less ↦ ground (arith, bytes_lt_trans key start split, less)
  | inr not_less ↦
      let e : start ≡ split = bytes_lt_total start split not_less (ground arith) in
      ground (arith, ap (bytes_lt key) e)
]

-- If a range is split at a key that is in it, each key of the range is in exactly one of the
-- parts, and a key that is not in it is in neither.
pub within_range_split :
    (split database_id table_id key : Bytes) (range : KeySpaceRange)
    → within_range range range.database_id range.table_id split ≡ true
    → within_range range database_id table_id key ≡ (
        if bytes_lt key split
        then within_range (before split range) database_id table_id key
          && not (within_range (from split range) database_id table_id key)
        else within_range (from split range) database_id table_id key
          && not (within_range (before split range) database_id table_id key))
unfolding within_range
within_range_split split database_id table_id key range h = ground (
  arith,
  bytes_beq_refl range.database_id,
  bytes_beq_refl range.table_id,
  end_admits_before range.end_key split key,
  start_admits_from range.start_key split key,
)
