-- ===== src/Paxos/Multi/Acceptor.antt =====
-- The acceptor of an instance (src/paxos/SinglePaxosHandler.cc) under the messages that
-- src/paxos/MultiPaxosHandler.cc passes to it.
use universal_db.Base.{
  ℕ, ◌≤◌, ◌<◌, ◌≡◌, List, [], ◌∷◌, ◌++◌, arith, ltb, inc32, Bool-cases, if_cases, Option-cases, inl,
  inr, All, All-append,
}
use universal_db.Base.Eq.{◌==◌, nat_eq}
use universal_db.Base.Assoc.{find}
use universal_db.Base.Result.{ok, Ensures, Ensures-ok, Ensures-bind, ◌>>=◌}
use universal_db.Net.EndpointId.{EndpointId}
use universal_db.Net.Sent.{Sent, broadcast, send}
use universal_db.Proto.Paxos.{
  PaxosLogEntry, PaxosMessage, PaxosContent, Prepare, Promise, Accept, Learn,
}
use universal_db.Proto.Paxos
use universal_db.Paxos.Log.{PaxosLog, set_entry}
use universal_db.Paxos.Single
use universal_db.Paxos.Single.{SinglePaxosHandler, AcceptorState, message_of, majority_threshold}
use universal_db.Paxos.Multi.{Outcome, dispatch}

-- No value is accepted in a round that is above the last promise.
abbrev pub IsOrdered : AcceptorState → Type 0
IsOrdered a = a.vrnd ≤ a.rnd

-- The rounds of an acceptor do not fall.
abbrev pub Grows : AcceptorState → AcceptorState → Type 0
Grows a b = (a.rnd ≤ b.rnd) × (a.vrnd ≤ b.vrnd)

-- A Promise or a Learn message that the acceptor sends from a state on: it is of a later round than
-- the promised one, or not of an earlier one, and does not hide what was accepted.
abbrev pub ContentFrom : AcceptorState → PaxosContent → Type 0
ContentFrom a (Paxos.promise m) = (a.rnd < m.rnd) × (a.vrnd ≤ m.vrnd)
ContentFrom a (Paxos.learn m) = a.rnd ≤ m.vrnd
ContentFrom a _ = Unit {0}

-- A Promise or a Learn message that the acceptor has sent up to a state: its rounds are recorded.
abbrev pub ContentTo : AcceptorState → PaxosContent → Type 0
ContentTo a (Paxos.promise m) = (m.rnd ≤ a.rnd) × (m.vrnd ≤ a.vrnd)
ContentTo a (Paxos.learn m) = m.vrnd ≤ a.vrnd
ContentTo a _ = Unit {0}

-- What a Promise or a Learn message allows later: no Promise and no Learn message of a round below
-- a promised one, and none that hides a round that was accepted.
abbrev pub Allows : PaxosContent → PaxosContent → Type 0
Allows (Paxos.promise m) (Paxos.promise n) = (m.rnd < n.rnd) × (m.vrnd ≤ n.vrnd)
Allows (Paxos.promise m) (Paxos.learn n) = m.rnd ≤ n.vrnd
Allows (Paxos.learn m) (Paxos.promise n) = (m.vrnd < n.rnd) × (m.vrnd ≤ n.vrnd)
Allows (Paxos.learn m) (Paxos.learn n) = m.vrnd ≤ n.vrnd
Allows _ _ = Unit {0}

abbrev content_of : Sent PaxosMessage → PaxosContent
content_of (broadcast endpoints m) = m.content
content_of (send endpoint m) = m.content

abbrev pub SentFrom : AcceptorState → Sent PaxosMessage → Type 0
SentFrom a x = ContentFrom a (content_of x)

abbrev pub SentTo : AcceptorState → Sent PaxosMessage → Type 0
SentTo a x = ContentTo a (content_of x)

-- Each message allows the ones that are sent after it.
abbrev pub AllAllowed : List (Sent PaxosMessage) → Type 0
AllAllowed [] = Unit {0}
AllAllowed (x ∷ sent) = All (λ y. Allows (content_of x) (content_of y)) sent × AllAllowed sent

ContentFrom-mono :
    (a b : AcceptorState) (c : PaxosContent) → Grows a b → ContentFrom b c → ContentFrom a c
ContentFrom-mono a b (Paxos.promise p) h k = omega (arith, h, k)
ContentFrom-mono a b (Paxos.learn p) h k = omega (arith, h, k)
ContentFrom-mono a b _ h k = tt

ContentTo-mono :
    (a b : AcceptorState) (c : PaxosContent) → Grows a b → ContentTo a c → ContentTo b c
ContentTo-mono a b (Paxos.promise p) h k = omega (arith, h, k)
ContentTo-mono a b (Paxos.learn p) h k = omega (arith, h, k)
ContentTo-mono a b _ h k = tt

-- What is sent up to an ordered state allows what is sent from it on.
ContentTo-Allows :
    (a : AcceptorState) (c d : PaxosContent)
    → IsOrdered a
    → ContentTo a c
    → ContentFrom a d
    → Allows c d
ContentTo-Allows a (Paxos.promise m) (Paxos.promise n) v h k = omega (arith, v, h, k)
ContentTo-Allows a (Paxos.promise m) (Paxos.learn n) v h k = omega (arith, v, h, k)
ContentTo-Allows a (Paxos.learn m) (Paxos.promise n) v h k = omega (arith, v, h, k)
ContentTo-Allows a (Paxos.learn m) (Paxos.learn n) v h k = omega (arith, v, h, k)
ContentTo-Allows a _ _ v h k = tt

All-SentFrom-mono :
    (a b : AcceptorState) (sent : List (Sent PaxosMessage))
    → Grows a b
    → All (SentFrom b) sent
    → All (SentFrom a) sent
All-SentFrom-mono a b [] g h = tt
All-SentFrom-mono a b (x ∷ sent) g h =
    (ContentFrom-mono a b (content_of x) g h.0, All-SentFrom-mono a b sent g h.1)

All-SentTo-mono :
    (a b : AcceptorState) (sent : List (Sent PaxosMessage))
    → Grows a b
    → All (SentTo a) sent
    → All (SentTo b) sent
All-SentTo-mono a b [] g h = tt
All-SentTo-mono a b (x ∷ sent) g h =
    (ContentTo-mono a b (content_of x) g h.0, All-SentTo-mono a b sent g h.1)

All-Allows :
    (a : AcceptorState) (c : PaxosContent) (later : List (Sent PaxosMessage))
    → IsOrdered a
    → ContentTo a c
    → All (SentFrom a) later
    → All (λ y. Allows c (content_of y)) later
All-Allows a c [] v h k = tt
All-Allows a c (y ∷ later) v h k =
    (ContentTo-Allows a c (content_of y) v h k.0, All-Allows a c later v h k.1)

append-AllAllowed :
    (a : AcceptorState) (sent later : List (Sent PaxosMessage))
    → IsOrdered a
    → All (SentTo a) sent
    → AllAllowed sent
    → All (SentFrom a) later
    → AllAllowed later
    → AllAllowed (sent ++ later)
append-AllAllowed a [] later v h p k q = q
append-AllAllowed a (x ∷ sent) later v h p k q = (
  All-append _ sent later p.0 (All-Allows a (content_of x) later v h.0 k),
  append-AllAllowed a sent later v h.1 p.1 k q,
)

-- Messages leave the acceptor ordered, its rounds do not fall, what it sends is of rounds that are
-- not below the last promise and are recorded then, and allows what follows.
abbrev pub Advances : SinglePaxosHandler → SinglePaxosHandler → List (Sent PaxosMessage) → Type 0
Advances h h' sent =
    IsOrdered h'.acceptor
    × Grows h.acceptor h'.acceptor
    × All (SentFrom h.acceptor) sent
    × All (SentTo h'.acceptor) sent
    × AllAllowed sent

promise-Advances :
    (message : Promise) (h : SinglePaxosHandler)
    → IsOrdered h.acceptor
    → Ensures (λ r. Advances h r.0 r.1) (Single.promise message h)
unfolding Single.promise message_of
promise-Advances message h v = elim (Option-cases (find message.rnd h.proposer.prepare_state)) [
  | inl absent ↦ rw (absent, Single.promise) tt
  | inr (promises, found) ↦ elim (Option-cases (find message.rnd h.proposer.proposal)) [
    | inl absent ↦ rw (found, absent, Single.promise) (ground arith)
    | inr (value, proposed) ↦ rw (found, proposed, Single.promise) (ground arith)
  ]
]

prepare-Advances :
    (endpoint : EndpointId) (message : Prepare) (h : SinglePaxosHandler)
    → IsOrdered h.acceptor
    → Advances h (Single.prepare endpoint message h).0 (Single.prepare endpoint message h).1
unfolding Single.prepare message_of
prepare-Advances endpoint message h v = ground arith

accept-Advances :
    (message : Accept) (h : SinglePaxosHandler)
    → IsOrdered h.acceptor
    → Advances h (Single.accept message h).0 (Single.accept message h).1
unfolding Single.accept message_of
accept-Advances message h v = ground arith

module _ {S : Type 0} where
  count_learn-Advances :
      (message : Learn) (it : PaxosLogEntry × ℕ) (h : SinglePaxosHandler) (log : PaxosLog S) (s : S)
      → IsOrdered h.acceptor
      → Ensures (λ r. Advances h r.0 []) (Single.count_learn message it h log s)
  unfolding Single.count_learn
  count_learn-Advances message it h log s v = elim (Bool-cases (ltb it.1 (majority_threshold h))) [
    | inr over ↦ rw over (omega arith)
    | inl more ↦ elim (Bool-cases (inc32 it.1 == majority_threshold h)) [
      | inr few ↦ rw (more, few) (omega arith)
      | inl full ↦
          rw (more, full)
            (Ensures-bind _ (set_entry h.setting.paxos_log_index it.0 log s) _ (λ r e. omega arith))
    ]
  ]

  learn-Advances :
      (message : Learn) (h : SinglePaxosHandler) (log : PaxosLog S) (s : S)
      → IsOrdered h.acceptor
      → Ensures (λ r. Advances h r.0 []) (Single.learn message h log s)
  unfolding Single.learn
  learn-Advances message h log s v =
      if_cases (Ensures (λ r. Advances h r.0 [])) h.learner.learned _ _ (λ _. omega arith)
        (λ _. count_learn-Advances message (Single.learned_entry message h) h log s v)

  -- Whatever the message: the acceptor stays ordered, its rounds do not fall, and every Promise
  -- and Learn message that is sent is of a round not below the last promise.
  dispatch-Advances :
      (endpoint : EndpointId) (content : PaxosContent) (h : SinglePaxosHandler) (log : PaxosLog S)
      (s : S)
      → IsOrdered h.acceptor
      → Ensures (λ r. Advances h r.0 r.3) (dispatch endpoint content h log s)
  unfolding dispatch
  dispatch-Advances endpoint Paxos.content_not_set h log s v = omega arith
  dispatch-Advances endpoint (Paxos.prepare m) h log s v = prepare-Advances endpoint m h v
  dispatch-Advances endpoint (Paxos.promise m) h log s v =
      Ensures-bind _ (Single.promise m h) _
        (λ r e. Ensures-ok _ (Single.promise m h) (promise-Advances m h v) e)
  dispatch-Advances endpoint (Paxos.accept m) h log s v = accept-Advances m h v
  dispatch-Advances endpoint (Paxos.learn m) h log s v =
      Ensures-bind _ (Single.learn m h log s) _
        (λ r e. Ensures-ok _ (Single.learn m h log s) (learn-Advances m h log s v) e)

  -- A run of messages, with all that is sent in it.
  unfoldable pub run :
      List (EndpointId × PaxosContent)
      → SinglePaxosHandler
      → PaxosLog S
      → S
      → Outcome S SinglePaxosHandler
  run [] h log s = ok (h, log, s, [])
  run ((endpoint, content) ∷ messages) h log s = dispatch endpoint content h log s >>= λ r.
      run messages r.0 r.1 r.2 >>= λ q. ok (q.0, q.1, q.2, r.3 ++ q.3)

  run-Advances :
      (messages : List (EndpointId × PaxosContent)) (h : SinglePaxosHandler) (log : PaxosLog S)
      (s : S)
      → IsOrdered h.acceptor
      → Ensures (λ r. Advances h r.0 r.3) (run messages h log s)
  unfolding run
  run-Advances [] h log s v = omega arith
  run-Advances ((endpoint, content) ∷ messages) h log s v =
      Ensures-bind _ (dispatch endpoint content h log s) _ λ r e.
        let first =
          Ensures-ok _ (dispatch endpoint content h log s)
            (dispatch-Advances endpoint content h log s v) e in
        Ensures-bind _ (run messages r.0 r.1 r.2) _ λ q f.
          let rest =
            Ensures-ok _ (run messages r.0 r.1 r.2) (run-Advances messages r.0 r.1 r.2 first.0) f in
          let (ordered, grows, from, to, allowed) = first in
          let (ordered', grows', from', to', allowed') = rest in
          (
            ordered',
            (omega (arith, grows, grows'), omega (arith, grows, grows')),
            All-append _ r.3 q.3 from (All-SentFrom-mono h.acceptor r.0.acceptor q.3 grows from'),
            All-append _ r.3 q.3 (All-SentTo-mono r.0.acceptor q.0.acceptor r.3 grows' to) to',
            append-AllAllowed r.0.acceptor r.3 q.3 ordered to allowed from' allowed',
          )

  -- An acceptor keeps its promises. After any messages, in any order and with any repetitions, if
  -- nothing was thrown: its rounds are not below what they were, and the accepted round is not
  -- above the promised one. Every Promise that was sent is of a later round than what the acceptor
  -- had promised before, every Learn message of a round that is not below it, and both rounds of a
  -- Promise and the round of a Learn message are recorded in the end. After a Promise no Learn
  -- message of a lower round was sent, and no Promise of a round that is not higher; after a Learn
  -- message none of a lower round, and no Promise that reports a lower accepted round.
  pub promise_kept :
      (messages : List (EndpointId × PaxosContent)) (h h' : SinglePaxosHandler)
      (log log' : PaxosLog S) (s s' : S) (sent : List (Sent PaxosMessage))
      → IsOrdered h.acceptor
      → run messages h log s ≡ ok (h', log', s', sent)
      → IsOrdered h'.acceptor
        × Grows h.acceptor h'.acceptor
        × All (SentFrom h.acceptor) sent
        × All (SentTo h'.acceptor) sent
        × AllAllowed sent
  promise_kept messages h h' log log' s s' sent v e =
      Ensures-ok (λ r. Advances h r.0 r.3) (run messages h log s) (run-Advances messages h log s v)
        e
