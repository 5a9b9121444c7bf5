-- ===== src/Paxos/Multi.antt =====
-- MultiPaxosHandler of src/paxos/MultiPaxosHandler.h and MultiPaxosHandler.cc: one Paxos instance
-- for each index of the log, made when it is first needed.
pub mod Acceptor
pub mod Placed
pub mod Keeping
pub mod Derived
pub mod Shadowed
mod Tests
use universal_db.Base.{ℕ, Option, none, some, List, [], ◌∷◌}
use universal_db.Base.Eq.{nat_eq}
use universal_db.Base.Assoc.{find, insert, assign}
use universal_db.Base.Result.{Result, ok, ◌>>=◌}
use universal_db.Net.EndpointId.{EndpointId}
use universal_db.Net.Sent.{Sent}
use universal_db.Proto.Paxos.{PaxosLogEntry, PaxosMessage, PaxosContent}
use universal_db.Proto.Paxos
use universal_db.Paxos.Log.{PaxosLog, next_available_index}
use universal_db.Paxos.Single
use universal_db.Paxos.Single.{SinglePaxosHandler}

pub record MultiPaxosHandler : Type 0 where
  pub paxos_instances : List (ℕ × SinglePaxosHandler)

unfoldable pub new_multi : MultiPaxosHandler
new_multi = record { paxos_instances = [] }

-- What a call on an instance leaves: the instance, the log, the state that is derived from the
-- log, and what it sends.
abbrev pub Outcome : Type 0 → Type 0 → Type 0
Outcome S H = Result (H × PaxosLog S × S × List (Sent PaxosMessage))

-- The instance is a reference into the map: its new state is put back there.
unfoldable pub put_instance : ℕ → SinglePaxosHandler → MultiPaxosHandler → MultiPaxosHandler
put_instance index h m = record { paxos_instances = assign index h m.paxos_instances }

module _ {S : Type 0} where
  -- The chain of `has_` tests in `handle_incoming_message`.
  unfoldable pub dispatch :
      EndpointId → PaxosContent → SinglePaxosHandler → PaxosLog S → S → Outcome S SinglePaxosHandler
  dispatch endpoint_id Paxos.content_not_set h log s = ok (h, log, s, [])
  dispatch endpoint_id (Paxos.prepare message) h log s =
      let (h', sent) = Single.prepare endpoint_id message h in ok (h', log, s, sent)
  dispatch endpoint_id (Paxos.promise message) h log s =
      Single.promise message h >>= λ r. ok (r.0, log, s, r.1)
  dispatch endpoint_id (Paxos.accept message) h log s =
      let (h', sent) = Single.accept message h in ok (h', log, s, sent)
  dispatch endpoint_id (Paxos.learn message) h log s =
      Single.learn message h log s >>= λ r. ok (r.0, r.1, r.2, [])

module _ {S : Type 0} (instance_provider : ℕ → S → Result SinglePaxosHandler) where
  unfoldable pub get_instance :
      ℕ → MultiPaxosHandler → S → Result (MultiPaxosHandler × SinglePaxosHandler)
  get_instance index m s = elim (find index m.paxos_instances) [
    | some h ↦ ok (m, h)
    | none ↦ instance_provider index s >>= λ h.
        ok (record { paxos_instances = insert index h m.paxos_instances }, h)
  ]

  -- `random` is the number that the instance draws.
  unfoldable pub propose :
      PaxosLogEntry
      → ℕ
      → MultiPaxosHandler
      → PaxosLog S
      → S
      → Result (MultiPaxosHandler × List (Sent PaxosMessage))
  unfolding get_instance put_instance
  propose entry random m log s = do
    index ← next_available_index log
    (m', h) ← get_instance index m s
    let (h', sent) = Single.propose entry random h
    ok (put_instance index h' m', sent)

  unfoldable pub handle_incoming_message :
      EndpointId → PaxosMessage → MultiPaxosHandler → PaxosLog S → S → Outcome S MultiPaxosHandler
  unfolding get_instance put_instance
  handle_incoming_message endpoint_id message m log s = do
    (m', h) ← get_instance message.paxos_index m s
    (h', log', s', sent) ← dispatch endpoint_id message.content h log s
    ok (put_instance message.paxos_index h' m', log', s', sent)
