-- ===== src/Paxos/ProposerQueue/Proposals.antt =====
-- The proposals that a ProposerQueue (src/paxos/ProposerQueue.cc) makes.
use universal_db.Base.{
  ℕ, zero, suc, ◌+◌, ◌≡◌, refl, List, [], ◌∷◌, ◌++◌, arith, Option-cases, inl, inr,
}
use universal_db.Base.Eq.{nat_eq}
use universal_db.Base.Assoc.{find}
use universal_db.Base.Result.{Result, ok}
use universal_db.Net.Sent.{Sent}
use universal_db.Proto.Paxos.{PaxosLogEntry, PaxosMessage}
use universal_db.Paxos.Log.{next_available_index}
use universal_db.Paxos.Multi
use universal_db.Paxos.Multi.{MultiPaxosHandler, get_instance, put_instance}
use universal_db.Paxos.Single.{SinglePaxosHandler}
use universal_db.Paxos.ProposerQueue.{ProposerQueue, propose}
use universal_db.Base.{◌⊎◌, to_u32, u32_mod, ◌%◌, none, some}
use universal_db.Base.Assoc.{insert, find-insert, find-assign}
use universal_db.Net.Sent.{broadcast}
use universal_db.Paxos.Single
use universal_db.Proto.Paxos

inserted_value :
    (round : ℕ) (entry : PaxosLogEntry) (values : List (ℕ × PaxosLogEntry))
    → find round (insert round entry values)
      ≡ some (elim (find round values) [ some old ↦ old | none ↦ entry ])
inserted_value round entry values = elim (Option-cases (find round values)) [
  | inr (old, there) ↦ rw there (ground (arith, there, find-insert round round entry values))
  | inl absent ↦ rw absent (ground (arith, absent, find-insert round round entry values))
]

module _ {S : Type 0} where
  module _ (instance_provider : ℕ → S → Result SinglePaxosHandler) (random : ℕ → ℕ) where
    -- One proposal at an index: the instance is there or is provided, its next round begins, with
    -- the entry unless the round has one, and the group is asked to promise.
    pub record Proposes (available : ℕ) (entry : PaxosLogEntry) (state : S) (drawn : ℕ)
        (multi multi' : MultiPaxosHandler) (sent : List (Sent PaxosMessage)) : Type 0 where
      pub before : SinglePaxosHandler
      pub after : SinglePaxosHandler
      pub instance_of :
          (find available multi.paxos_instances ≡ some before)
          ⊎ ((find available multi.paxos_instances ≡ none)
              × (instance_provider available state ≡ ok before))
      pub kept : find available multi'.paxos_instances ≡ some after
      pub round : after.proposer.latest ≡ (before.proposer.latest + random drawn) % u32_mod
      pub value :
          find after.proposer.latest after.proposer.proposal
          ≡ some (elim (find after.proposer.latest before.proposer.proposal) [
            | some old ↦ old
            | none ↦ entry
          ])
      pub asked :
          sent
          ≡ broadcast before.setting.config_endpoints (record {
            paxos_index = to_u32 before.setting.paxos_log_index;
            content = Paxos.prepare (record { rnd = after.proposer.latest });
          })
            ∷ []

    -- That many proposals, one after the other.
    abbrev pub Proposals :
        ℕ
        → ℕ
        → PaxosLogEntry
        → S
        → ℕ
        → MultiPaxosHandler
        → List (Sent PaxosMessage)
        → MultiPaxosHandler
        → List (Sent PaxosMessage)
        → Type 0
    Proposals zero available entry state drawn multi sent multi' sent' =
        (multi' ≡ multi) × (sent' ≡ sent)
    Proposals (suc count) available entry state drawn multi sent multi' sent' =
        (next : MultiPaxosHandler) × (more : List (Sent PaxosMessage)) × Proposes available entry
          state drawn multi next more
        × Proposals count available entry state (drawn + 1) next (sent ++ more) multi' sent'

    propose-Proposes :
        (available : ℕ) (entry : PaxosLogEntry) (q : ProposerQueue S) (before : SinglePaxosHandler)
        (instances : List (ℕ × SinglePaxosHandler))
        → (find available q.multi.paxos_instances ≡ some before)
          ⊎ ((find available q.multi.paxos_instances ≡ none)
              × (instance_provider available q.state ≡ ok before))
        → Proposes available entry q.state q.drawn q.multi
            (put_instance available
              (Single.propose entry (random q.drawn) before).0
              (record { paxos_instances = instances }))
            (Single.propose entry (random q.drawn) before).1
    unfolding put_instance Single.propose Single.message_of Single.next_proposal_number
    propose-Proposes available entry q before instances found =
        let round = (before.proposer.latest + random q.drawn) % u32_mod in
        record {
          before = before;
          after = (Single.propose entry (random q.drawn) before).0;
          instance_of = found;
          kept = ground (
            arith,
            find-assign available available (Single.propose entry (random q.drawn) before).0
                instances,
          );
          round = refl;
          value = inserted_value round entry before.proposer.proposal;
          asked = refl;
        }

    pub propose_total :
        (provides : (index : ℕ) (s : S)
          → (h : SinglePaxosHandler) × (instance_provider index s ≡ ok h))
        (entry : PaxosLogEntry) (available : ℕ) (q : ProposerQueue S)
        → next_available_index q.log ≡ ok available
        → (multi : MultiPaxosHandler) × (sent : List (Sent PaxosMessage)) × (propose
              instance_provider random entry q
            ≡ ok (record q { multi = multi; drawn = q.drawn + 1; sent = q.sent ++ sent }))
          × Proposes available entry q.state q.drawn q.multi multi sent
    unfolding propose Multi.propose get_instance
    propose_total provides entry available q next =
        elim (Option-cases (find available q.multi.paxos_instances)) [
          | inr (h, there) ↦ (
            _,
            _,
            rw (next, there, get_instance) refl,
            propose-Proposes available entry q h q.multi.paxos_instances (inl there),
          )
          | inl absent ↦
              let (h, made) = provides available q.state in
              (
                _,
                _,
                rw (next, absent, get_instance, made) refl,
                propose-Proposes available entry q h (insert available h q.multi.paxos_instances)
                    (inr (absent, made)),
              )
        ]
