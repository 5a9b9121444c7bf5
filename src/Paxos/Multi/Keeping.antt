-- ===== src/Paxos/Multi/Keeping.antt =====
-- What every change of the log keeps, under the messages that src/paxos/MultiPaxosHandler.cc
-- handles.
use universal_db.Base.{
  ap, ◌∙◌, ℕ, ◌+◌, ◌<◌, ◌≡◌, refl, List, arith, ltb, inc32, u32_mod, u64_mod, if_cases,
  Option-cases, inl, inr,
}
use universal_db.Base.Eq.{◌==◌, nat_eq}
use universal_db.Base.Assoc.{find}
use universal_db.Base.Result.{Result, Ensures, Ensures-ok, Ensures-bind}
use universal_db.Net.EndpointId.{EndpointId}
use universal_db.Net.Sent.{Sent}
use universal_db.Proto.Paxos.{PaxosLogEntry, PaxosMessage, PaxosContent, Learn}
use universal_db.Proto.Paxos
use universal_db.Paxos.Log.{PaxosLog, set_entry}
use universal_db.Paxos.Single
use universal_db.Paxos.Single.{SinglePaxosHandler, Setting, majority_threshold}
use universal_db.Paxos.Multi.{
  MultiPaxosHandler, dispatch, get_instance, put_instance, handle_incoming_message,
}
use universal_db.Paxos.Multi.Placed.{
  IsPlaced, AllPlaced, ProvidesPlaced, All-assign, get_instance-AllPlaced,
}

-- The index of the instance is not the last of the uint64_t.
abbrev IsBounded : SinglePaxosHandler → Type 0
IsBounded h = h.setting.paxos_log_index + 1 < u64_mod

module _ {S : Type 0} (Q : PaxosLog S → S → Type 0)
    (set_entry-Q : (index : ℕ) (entry : PaxosLogEntry) (l : PaxosLog S) (s : S)
      → index + 1 < u64_mod
      → Q l s
      → Ensures (λ r. Q r.0 r.1) (set_entry index entry l s)) where
  -- What a message leaves of an instance and of the log.
  abbrev Left : Setting → SinglePaxosHandler → PaxosLog S → S → Type 0
  Left setting h l s = (h.setting ≡ setting) × Q l s

  count_learn-Left :
      (m : Learn) (it : PaxosLogEntry × ℕ) (h : SinglePaxosHandler) (l : PaxosLog S) (s : S)
      → IsBounded h
      → Q l s
      → Ensures (λ r. Left h.setting r.0 r.1 r.2) (Single.count_learn m it h l s)
  unfolding Single.count_learn
  count_learn-Left m it h l s w d =
      if_cases (Ensures (λ r. Left h.setting r.0 r.1 r.2)) (ltb it.1 (majority_threshold h)) _ _
        (λ _.
          if_cases (Ensures (λ r. Left h.setting r.0 r.1 r.2)) (inc32 it.1 == majority_threshold h)
            _ _
            (λ _. Ensures-bind _ (set_entry h.setting.paxos_log_index it.0 l s) _ λ r e. (
              refl,
              Ensures-ok _ (set_entry h.setting.paxos_log_index it.0 l s)
                  (set_entry-Q h.setting.paxos_log_index it.0 l s w d) e,
            ))
            (λ _. (refl, d)))
        (λ _. (refl, d))

  promise-setting :
      (m : Paxos.Promise) (h : SinglePaxosHandler)
      → Ensures (λ r. r.0.setting ≡ h.setting) (Single.promise m h)
  unfolding Single.promise
  promise-setting m h = elim (Option-cases (find m.rnd h.proposer.prepare_state)) [
    | inl absent ↦ rw (absent, Single.promise) tt
    | inr (promises, found) ↦ elim (Option-cases (find m.rnd h.proposer.proposal)) [
      | inl absent ↦ rw (found, absent, Single.promise) (ground arith)
      | inr (value, proposed) ↦ rw (found, proposed, Single.promise) (ground arith)
    ]
  ]

  dispatch-Left :
      (endpoint : EndpointId) (content : PaxosContent) (h : SinglePaxosHandler) (l : PaxosLog S)
      (s : S)
      → IsBounded h
      → Q l s
      → Ensures (λ r. Left h.setting r.0 r.1 r.2) (dispatch endpoint content h l s)
  unfolding dispatch Single.prepare Single.accept Single.learn
  dispatch-Left endpoint Paxos.content_not_set h l s w d = (refl, d)
  dispatch-Left endpoint (Paxos.prepare m) h l s w d = (ground arith, d)
  dispatch-Left endpoint (Paxos.promise m) h l s w d = Ensures-bind _ (Single.promise m h) _ λ r e.
      (
        Ensures-ok (λ (q : SinglePaxosHandler × _). q.0.setting ≡ h.setting) (Single.promise m h)
            (promise-setting m h) e,
        d,
      )
  dispatch-Left endpoint (Paxos.accept m) h l s w d = (ground arith, d)
  dispatch-Left endpoint (Paxos.learn m) h l s w d = Ensures-bind _ (Single.learn m h l s) _ λ r e.
      Ensures-ok (λ (q : SinglePaxosHandler × PaxosLog S × S). Left h.setting q.0 q.1 q.2)
        (Single.learn m h l s)
        (if_cases (Ensures (λ q. Left h.setting q.0 q.1 q.2)) h.learner.learned _ _ (λ _. (refl, d))
          (λ _. count_learn-Left m (Single.learned_entry m h) h l s w d))
        e

  -- What every `set_entry` keeps, every Paxos message of a uint32 index keeps as well, unless
  -- something throws, and the instances stay under their indices.
  pub handle_incoming_message-keeps :
      (instance_provider : ℕ → S → Result SinglePaxosHandler) (endpoint : EndpointId)
      (message : PaxosMessage) (m : MultiPaxosHandler) (l : PaxosLog S) (s : S)
      → ProvidesPlaced instance_provider
      → message.paxos_index < u32_mod
      → AllPlaced m
      → Q l s
      → Ensures
          (λ r. AllPlaced r.0 × Q r.1 r.2)
          (handle_incoming_message instance_provider endpoint message m l s)
  unfolding handle_incoming_message put_instance
  handle_incoming_message-keeps instance_provider endpoint message m l s provides narrow a d =
      Ensures-bind _ (get_instance instance_provider message.paxos_index m s) _ λ q e.
        let (b, w) =
          Ensures-ok
            (λ (r : MultiPaxosHandler × SinglePaxosHandler).
              AllPlaced r.0 × IsPlaced (message.paxos_index, r.1))
            (get_instance instance_provider message.paxos_index m s)
            (get_instance-AllPlaced instance_provider provides message.paxos_index m s a) e in
        Ensures-bind _ (dispatch endpoint message.content q.1 l s) _ λ r f.
          let (same, d') =
            Ensures-ok
              (λ (r : SinglePaxosHandler × PaxosLog S × S × List (Sent PaxosMessage)).
                Left q.1.setting r.0 r.1 r.2)
              (dispatch endpoint message.content q.1 l s)
              (dispatch-Left endpoint message.content q.1 l s (omega (arith, w, narrow)) d) f in
          (
            All-assign message.paxos_index r.0 q.0.paxos_instances
                (ap (λ (x : Setting). x.paxos_log_index) same ∙ w) b,
            d',
          )
