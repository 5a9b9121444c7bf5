-- ===== src/Paxos/Single.antt =====
-- SinglePaxosHandler of src/paxos/SinglePaxosHandler.h and SinglePaxosHandler.cc: one instance of
-- the Paxos algorithm. What it sends is a list beside the new state.
pub mod Proposer
pub mod Learner
mod Tests
use universal_db.Base.{
  ℕ, zero, suc, ◌+◌, ◌/◌, ◌%◌, Bool, true, false, Option, none, some, List, [], ◌∷◌, ◌++◌, ltb, leb,
  length, inc32, to_u32, u32_mod, if◌then◌else◌,
}
use universal_db.Base.Eq.{◌==◌, nat_eq}
use universal_db.Base.Assoc.{find, insert, assign}
use universal_db.Base.Result.{Result, ok, thrown, assertion, ◌>>=◌}
use universal_db.Net.EndpointId.{EndpointId}
use universal_db.Net.Sent.{Sent, broadcast, send}
use universal_db.Proto.Paxos.{
  PaxosLogEntry, not_set, Prepare, Promise, Accept, Learn, PaxosMessage, PaxosContent,
}
use universal_db.Proto.Paxos
use universal_db.Paxos.Log.{PaxosLog, set_entry}

pub record ProposerState : Type 0 where
  pub latest : ℕ
  pub proposal : List (ℕ × PaxosLogEntry)
  pub prepare_state : List (ℕ × List (ℕ × PaxosLogEntry))

-- The tuple `accepted_state`.
pub record AcceptorState : Type 0 where
  pub rnd : ℕ
  pub vrnd : ℕ
  pub vval : PaxosLogEntry

pub record LearnerState : Type 0 where
  pub learned : Bool
  pub learned_value : List (ℕ × (PaxosLogEntry × ℕ))

-- What the constructor is given and does not change.
pub record Setting : Type 0 where
  pub num_slave_servers : ℕ
  pub paxos_log_index : ℕ
  pub config_endpoints : List EndpointId

pub record SinglePaxosHandler : Type 0 where
  pub setting : Setting
  pub proposer : ProposerState
  pub acceptor : AcceptorState
  pub learner : LearnerState

unfoldable pub new_handler : Setting → SinglePaxosHandler
new_handler setting = record {
  setting = setting;
  proposer = record { latest = 0; proposal = []; prepare_state = [] };
  acceptor = record { rnd = 0; vrnd = 0; vval = not_set };
  learner = record { learned = false; learned_value = [] };
}

-- `random` is what `_random.rand_uniform(0, 999)` returns.
unfoldable pub next_proposal_number : ℕ → SinglePaxosHandler → ℕ
next_proposal_number random h = (h.proposer.latest + random) % u32_mod

unfoldable pub majority_threshold : SinglePaxosHandler → ℕ
majority_threshold h = h.setting.num_slave_servers / 2 + 1

-- The message of this instance; `paxos_message_to_wrapper` is applied to it by its owner.
unfoldable pub message_of : SinglePaxosHandler → PaxosContent → PaxosMessage
message_of h content = record { paxos_index = to_u32 h.setting.paxos_log_index; content = content }

unfoldable pub propose :
    PaxosLogEntry → ℕ → SinglePaxosHandler → SinglePaxosHandler × List (Sent PaxosMessage)
propose entry random h =
    let proposal_number = next_proposal_number random h in
    (
      record h {
        proposer = record {
          latest = proposal_number;
          proposal = insert proposal_number entry h.proposer.proposal;
          prepare_state = insert proposal_number [] h.proposer.prepare_state;
        };
      },
      broadcast h.setting.config_endpoints
            (message_of h (Paxos.prepare (record { rnd = proposal_number })))
          ∷ [],
    )

unfoldable pub prepare :
    EndpointId → Prepare → SinglePaxosHandler → SinglePaxosHandler × List (Sent PaxosMessage)
prepare endpoint_id message h =
    if ltb h.acceptor.rnd message.rnd
    then (
      record h { acceptor = record h.acceptor { rnd = message.rnd } },
      send endpoint_id (
            message_of h (
              Paxos.promise
                (record { rnd = message.rnd; vrnd = h.acceptor.vrnd; vval = h.acceptor.vval })))
          ∷ [],
    )
    else (h, [])

-- The loop over the promises. `max_vrnd` is not assigned in it.
unfoldable pub choose_value : ℕ → PaxosLogEntry → List (ℕ × PaxosLogEntry) → PaxosLogEntry
choose_value max_vrnd proposal_value [] = proposal_value
choose_value max_vrnd proposal_value ((vrnd, vval) ∷ promises) =
    choose_value max_vrnd
      (if ltb 0 vrnd then (if ltb max_vrnd vrnd then vval else proposal_value) else proposal_value)
      promises

unfoldable pub promise :
    Promise → SinglePaxosHandler → Result (SinglePaxosHandler × List (Sent PaxosMessage))
promise message h = elim (find message.rnd h.proposer.prepare_state) [
  | none ↦ thrown assertion
  | some promises ↦
      if ltb (length promises) (majority_threshold h)
      then (let promises' = promises ++ (message.vrnd, message.vval) ∷ [] in
          let h' = record h {
            proposer = record h.proposer {
              prepare_state = assign message.rnd promises' h.proposer.prepare_state;
            };
          } in
          if length promises' == majority_threshold h
          then elim (find message.rnd h.proposer.proposal) [
            | none ↦ thrown assertion
            | some value ↦ ok (
              h',
              broadcast h.setting.config_endpoints (
                    message_of h (
                      Paxos.accept
                        (record { vrnd = message.rnd; vval = choose_value 0 value promises' })))
                  ∷ [],
            )
          ]
          else ok (h', []))
      else ok (h, [])
]

unfoldable pub accept : Accept → SinglePaxosHandler → SinglePaxosHandler × List (Sent PaxosMessage)
accept message h =
    if leb h.acceptor.rnd message.vrnd
    then (
      record h {
        acceptor = record { rnd = message.vrnd; vrnd = message.vrnd; vval = message.vval };
      },
      broadcast h.setting.config_endpoints
            (message_of h (Paxos.learn (record { vrnd = message.vrnd; vval = message.vval })))
          ∷ [],
    )
    else (h, [])

-- The entry of `learned_value` for the round, made on its first Learn message.
unfoldable pub learned_entry : Learn → SinglePaxosHandler → PaxosLogEntry × ℕ
learned_entry message h = elim (find message.vrnd h.learner.learned_value) [
  | none ↦ (message.vval, 0)
  | some it ↦ it
]

module _ {S : Type 0} where
  -- The rest of `learn`, with the entry of the round.
  unfoldable pub count_learn :
      Learn
      → PaxosLogEntry × ℕ
      → SinglePaxosHandler
      → PaxosLog S
      → S
      → Result (SinglePaxosHandler × PaxosLog S × S)
  count_learn message it h log s =
      let count = inc32 it.1 in
      let values = assign message.vrnd (it.0, count) h.learner.learned_value in
      if ltb it.1 (majority_threshold h)
      then (if count == majority_threshold h
          then (set_entry h.setting.paxos_log_index it.0 log s >>= λ r.
              ok (
                record h { learner = record { learned = true; learned_value = values } },
                r.0,
                r.1,
              ))
          else ok (record h { learner = record h.learner { learned_value = values } }, log, s))
      else ok (
        record h {
          learner = record h.learner {
            learned_value = insert message.vrnd it h.learner.learned_value;
          };
        },
        log,
        s,
      )

  unfoldable pub learn :
      Learn → SinglePaxosHandler → PaxosLog S → S → Result (SinglePaxosHandler × PaxosLog S × S)
  learn message h log s =
      if h.learner.learned
      then ok (h, log, s)
      else count_learn message (learned_entry message h) h log s
