-- ===== src/Paxos/Multi/Derived.antt =====
-- The log of a node, and the state that is derived from it, under the messages that
-- src/paxos/MultiPaxosHandler.cc handles.
use universal_db.Base.{ℕ, ◌+◌, ◌<◌, ◌≡◌, refl, u32_mod, u64_mod}
use universal_db.Base.Eq.{nat_eq}
use universal_db.Base.Result.{Result, ok, thrown, Ensures}
use universal_db.Net.EndpointId.{EndpointId}
use universal_db.Proto.Paxos.{PaxosLogEntry, PaxosMessage}
use universal_db.Paxos.Log.{PaxosLog, set_entry, invoke_from}
use universal_db.Paxos.Log.Invariant.{IsValid, least}
use universal_db.Paxos.Log.Delivery.{set_entry-Kept}
use universal_db.Paxos.Single.{SinglePaxosHandler}
use universal_db.Paxos.Multi.{MultiPaxosHandler, handle_incoming_message}
use universal_db.Paxos.Multi.Placed.{AllPlaced, ProvidesPlaced}
use universal_db.Paxos.Multi.Keeping.{handle_incoming_message-keeps}

-- The log is well formed, and the state is what its callbacks make of its contiguous entries.
pub record IsDerived {S : Type 0} (start : S) (l : PaxosLog S) (s : S) : Type 0 where
  pub valid : IsValid l
  pub derived : invoke_from (least valid) 0 l start ≡ ok s

module _ {S : Type 0} (start : S) where
  pub set_entry-IsDerived :
      (index : ℕ) (entry : PaxosLogEntry) (l : PaxosLog S) (s : S)
      → index + 1 < u64_mod
      → IsDerived start l s
      → Ensures (λ r. IsDerived start r.0 r.1) (set_entry index entry l s)
  set_entry-IsDerived index entry l s w d = by_result (set_entry index entry l s) refl
    where
      by_result :
          (r : Result (PaxosLog S × S))
          → set_entry index entry l s ≡ r
          → Ensures (λ q. IsDerived start q.0 q.1) r
      by_result (thrown _) e = tt
      by_result (ok q) e =
          let k = set_entry-Kept index entry l d.valid start s q.1 q.0 w d.derived e in
          record { valid = k.valid; derived = k.derived }

  -- Whatever Paxos message of a uint32 index comes in, and in whatever order: unless something
  -- throws, the log stays well formed, the state that a node derives stays what the callbacks make
  -- of the contiguous entries of the log, and the instances stay under
  -- their own indices.
  pub handle_incoming_message-IsDerived :
      (instance_provider : ℕ → S → Result SinglePaxosHandler) (endpoint : EndpointId)
      (message : PaxosMessage) (m : MultiPaxosHandler) (l : PaxosLog S) (s : S)
      → ProvidesPlaced instance_provider
      → message.paxos_index < u32_mod
      → AllPlaced m
      → IsDerived start l s
      → Ensures
          (λ r. AllPlaced r.0 × IsDerived start r.1 r.2)
          (handle_incoming_message instance_provider endpoint message m l s)
  handle_incoming_message-IsDerived =
      handle_incoming_message-keeps (IsDerived start) set_entry-IsDerived
