-- ===== src/Slave/ClientRequestHandler/Calls.antt =====
-- One call of the task of a request (src/slave/ClientRequestHandler.cc), on each of its branches.
use universal_db.Base.{
  ℕ, ◌≤◌, ◌⊎◌, ◌+◌, ◌≡◌, refl, ap, true, false, Option, none, some, List, [], ◌∷◌, ◌++◌, arith,
  if_cases, Option-cases, inl, inr,
}
use universal_db.Base.Eq.{◌==◌, nat_eq}
use universal_db.Base.Bytes.{Bytes, bytes_eq}
use universal_db.Base.Assoc.{find}
use universal_db.Base.Result.{Result, ok, Ensures, Ensures-ok, Ensures-bind}
use universal_db.Proto.Paxos
use universal_db.Proto.Paxos.{PaxosLogEntry, PaxosMessage, string_value, uint64_value}
use universal_db.Net.Sent.{Sent}
use universal_db.Paxos.Multi.{MultiPaxosHandler}
use universal_db.Slave.KvStore.{KvStore, read_lat}
use universal_db.Proto.Client.{
  ClientRequest, RequestType, read_type, write_type, unset_type, other_type, success, error, Code,
}
use universal_db.Async.Queue.{Wait, terminate, again}
use universal_db.Paxos.Log.{get_entry}
use universal_db.Paxos.Multi
use universal_db.Paxos.Single.{SinglePaxosHandler}
use universal_db.Slave.KvStore
use universal_db.Slave.ClientRequestHandler.{
  Tablet, TabletState, RequestTask, read_response, retry_limit, wait_for_paxos, answer, read_of,
  propose_entry, request_task, respond, read_response, is_illegal, log_entry, is_write,
}

-- The entry that a request becomes.
abbrev pub IsEntryOf : ClientRequest → PaxosLogEntry → Type 0
IsEntryOf message entry =
    ((message.request_type ≡ write_type)
      × (entry
          ≡ Paxos.write (record {
            request_id = some message.request_id;
            key = some message.key;
            value = some (string_value message.value);
            timestamp = some (uint64_value message.timestamp);
          })))
    ⊎ ((message.request_type ≡ read_type)
        × (entry
            ≡ Paxos.read (record {
              request_id = some message.request_id;
              key = some message.key;
              timestamp = some (uint64_value message.timestamp);
            })))

-- A write that is not above the last access time of its key.
abbrev pub IsLate : ClientRequest → KvStore → Type 0
IsLate message kvs =
    (message.request_type ≡ write_type)
    × ((lat : ℕ) × (read_lat message.key kvs ≡ some lat) × (uint64_value message.timestamp ≤ lat))

-- The tablet after an answer.
abbrev pub answered : RequestTask → Option Bytes → Code → Tablet → Tablet
answered t value code m = record m {
  responses = m.responses ++ (t.endpoint_id, record { value = value; error_code = code }) ∷ [];
}

-- What one call of the task does. A write that is in the log is answered with success, and a read
-- with the value that the store has at the timestamp of its entry, or with an error if it has
-- none. A request that is not in the log is answered with an error at the limit of its retries,
-- and where it is a late write. Else its entry is proposed.
pub data Step (instance_provider : ℕ → TabletState → Result SinglePaxosHandler) (random : ℕ → ℕ)
    (t : RequestTask) (m : Tablet) (r : RequestTask × Tablet × Wait) : Type 0 where
  wrote :
      (index : ℕ)
      → find t.message.request_id m.state.request_id_map ≡ some index
      → t.message.request_type ≡ write_type
      → r ≡ (t, answered t none success m, terminate)
      → Step instance_provider random t m r
  has_read :
      (index : ℕ) (entry : PaxosLogEntry) (value : Option Bytes) (kvs : KvStore)
      → find t.message.request_id m.state.request_id_map ≡ some index
      → t.message.request_type ≡ read_type
      → get_entry index m.log ≡ some entry
      → KvStore.read
          (string_value (read_of entry).key)
          (uint64_value (read_of entry).timestamp)
          m.state.kvstore
        ≡ ok (value, kvs)
      → r ≡ (
        t,
        record (answered t value (elim value [ some _ ↦ success | none ↦ error ]) m) {
          state = record m.state { kvstore = kvs };
        },
        terminate,
      )
      → Step instance_provider random t m r
  given_up :
      find t.message.request_id m.state.request_id_map ≡ none
      → t.retry_count ≡ retry_limit
      → r ≡ (t, answered t none error m, terminate)
      → Step instance_provider random t m r
  rejected :
      find t.message.request_id m.state.request_id_map ≡ none
      → IsLate t.message m.state.kvstore
      → r ≡ (t, answered t none error m, terminate)
      → Step instance_provider random t m r
  proposed :
      (entry : PaxosLogEntry) (multi : MultiPaxosHandler) (sent : List (Sent PaxosMessage))
      → find t.message.request_id m.state.request_id_map ≡ none
      → (t.retry_count == retry_limit) ≡ false
      → ¬ IsLate t.message m.state.kvstore
      → IsEntryOf t.message entry
      → Multi.propose instance_provider entry (random m.drawn) m.multi m.log m.state
        ≡ ok (multi, sent)
      → r ≡ (
        record t { retry_count = t.retry_count + 1 },
        record m { multi = multi; drawn = m.drawn + 1; sent = m.sent ++ sent },
        again wait_for_paxos,
      )
      → Step instance_provider random t m r

log_entry-IsEntryOf :
    (type : RequestType) (message : ClientRequest)
    → message.request_type ≡ type
    → Ensures (IsEntryOf message) (log_entry message)
unfolding log_entry
log_entry-IsEntryOf write_type message e = rw (e, log_entry) (inl (refl, refl))
log_entry-IsEntryOf read_type message e = rw (e, log_entry) (inr (refl, refl))
log_entry-IsEntryOf unset_type message e = rw (e, log_entry) tt
log_entry-IsEntryOf other_type message e = rw (e, log_entry) tt

is_write-true : (type : RequestType) → is_write type ≡ true → type ≡ write_type
is_write-true write_type e = refl
is_write-true read_type e = absurd (ground (arith, e))
is_write-true unset_type e = absurd (ground (arith, e))
is_write-true other_type e = absurd (ground (arith, e))

is_illegal-IsLate :
    (message : ClientRequest) (kvs : KvStore)
    → is_write message.request_type ≡ true
    → is_illegal message kvs ≡ true
    → IsLate message kvs
unfolding is_illegal
is_illegal-IsLate message kvs writes late = elim (Option-cases (read_lat message.key kvs)) [
  | inl absent ↦ absurd (ground (arith, absent, late))
  | inr (lat, there) ↦
      (is_write-true message.request_type writes, (lat, there, ground (arith, there, late)))
]

is_illegal-timely :
    (message : ClientRequest) (kvs : KvStore)
    → is_illegal message kvs ≡ false
    → ¬ IsLate message kvs
unfolding is_illegal
is_illegal-timely message kvs timely (_, (lat, there, le)) =
    absurd (ground (arith, there, le, timely))

module _ (instance_provider : ℕ → TabletState → Result SinglePaxosHandler) (random : ℕ → ℕ) where
  abbrev IsStep : RequestTask → Tablet → Result (RequestTask × Tablet × Wait) → Type 0
  IsStep t m = Ensures (Step instance_provider random t m)

  answer-Step :
      (type : RequestType) (index : ℕ) (t : RequestTask) (m : Tablet)
      → t.message.request_type ≡ type
      → find t.message.request_id m.state.request_id_map ≡ some index
      → IsStep t m (answer type index t m)
  unfolding answer respond
  answer-Step read_type index t m e h = elim (Option-cases (get_entry index m.log)) [
    | inl absent ↦ rw (absent, answer) tt
    | inr (entry, there) ↦
        rw (there, answer)
          (Ensures-bind _
            (KvStore.read (string_value (read_of entry).key)
              (uint64_value (read_of entry).timestamp) m.state.kvstore)
            _ λ r f. has_read index entry r.0 r.1 h e there f (by_value r.0 r.1))
  ]
    where
      by_value :
          (value : Option Bytes) (kvs : KvStore)
          → ◌≡◌ {A = RequestTask × Tablet × Wait}
              (
                t,
                respond t.endpoint_id
                    (read_response value)
                    (record m { state = record m.state { kvstore = kvs } }),
                terminate,
              )
              (
                t,
                record (answered t value (elim value [ some _ ↦ success | none ↦ error ]) m) {
                  state = record m.state { kvstore = kvs };
                },
                terminate,
              )
      by_value none kvs = refl
      by_value (some value) kvs = refl
  answer-Step write_type index t m e h = wrote index h e refl
  answer-Step unset_type index t m e h = tt
  answer-Step other_type index t m e h = tt

  propose_entry-Step :
      (t : RequestTask) (m : Tablet)
      → find t.message.request_id m.state.request_id_map ≡ none
      → (t.retry_count == retry_limit) ≡ false
      → ¬ IsLate t.message m.state.kvstore
      → IsStep t m (propose_entry instance_provider random t m)
  unfolding propose_entry
  propose_entry-Step t m absent more timely = Ensures-bind _ (log_entry t.message) _ λ entry e.
      Ensures-bind _ (Multi.propose instance_provider entry (random m.drawn) m.multi m.log m.state)
        _
        λ r f.
          proposed entry r.0 r.1 absent more timely
            (Ensures-ok (IsEntryOf t.message) (log_entry t.message)
              (log_entry-IsEntryOf t.message.request_type t.message refl) e)
            f refl

  not_in_log-Step :
      (t : RequestTask) (m : Tablet)
      → find t.message.request_id m.state.request_id_map ≡ none
      → IsStep t m (request_task instance_provider random t m)
  unfolding request_task respond
  not_in_log-Step t m absent =
      rw (absent, request_task)
        (if_cases (IsStep t m) (t.retry_count == retry_limit) _ _
          (λ limit. given_up absent (ground (arith, limit)) refl)
          λ more.
            if_cases (IsStep t m) (is_write t.message.request_type) _ _
              (λ writes.
                if_cases (IsStep t m) (is_illegal t.message m.state.kvstore) _ _
                  (λ late.
                    rejected absent (is_illegal-IsLate t.message m.state.kvstore writes late) refl)
                  (λ timely.
                    propose_entry-Step t m absent more
                      (is_illegal-timely t.message m.state.kvstore timely)))
              (λ reads.
                propose_entry-Step t m absent more
                  (λ late. absurd (ground (arith, ap is_write late.0, reads)))))

  -- Every call of the task of a request that throws nothing is, on each of its branches, as `Step`
  -- says.
  pub request_task-Step :
      (t : RequestTask) (m : Tablet)
      → Ensures (Step instance_provider random t m) (request_task instance_provider random t m)
  unfolding request_task
  request_task-Step t m = elim (Option-cases (find t.message.request_id m.state.request_id_map)) [
    | inr (index, there) ↦
        rw (there, request_task) (answer-Step t.message.request_type index t m refl there)
    | inl absent ↦ not_in_log-Step t m absent
  ]
