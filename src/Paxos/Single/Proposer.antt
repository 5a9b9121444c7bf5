-- ===== src/Paxos/Single/Proposer.antt =====
-- The proposer of an instance: `next_proposal_number`, `propose` and `promise` of
-- src/paxos/SinglePaxosHandler.cc.
use universal_db.Base.{
  ℕ, ◌/◌, Bool, true, false, map, sym, subst, append_assoc, to_u32, suc, ◌+◌, ◌%◌, ◌<◌, ◌≡◌, refl,
  ◌∙◌, ◌&&◌, some, List, [], ◌∷◌, ◌++◌, arith, ltb, leb, length, length-append, u32_mod, Bool-cases,
  if◌then◌else◌, inl, inr, ◌⊎◌, All,
}
use universal_db.Base.Eq.{◌==◌, nat_eq}
use universal_db.Base.Assoc.{find, assign, find-insert, find-assign}
use universal_db.Base.Result.{Result, ok, ◌>>=◌}
use universal_db.Net.Sent.{Sent, broadcast}
use universal_db.Proto.Paxos.{PaxosLogEntry, PaxosMessage, Promise}
use universal_db.Proto.Paxos
use universal_db.Paxos.Single.{
  SinglePaxosHandler, Setting, next_proposal_number, majority_threshold, message_of, propose,
  choose_value, promise,
}

-- Where 0 is drawn, `propose` repeats the Prepare message of the last round; the value of that
-- round stays, and so do its promises: the entry that is proposed is dropped.
pub propose_repeats :
    (entry old : PaxosLogEntry) (promises : List (ℕ × PaxosLogEntry)) (h : SinglePaxosHandler)
    → h.proposer.latest < u32_mod
    → find h.proposer.latest h.proposer.proposal ≡ some old
    → find h.proposer.latest h.proposer.prepare_state ≡ some promises
    → (find h.proposer.latest (propose entry 0 h).0.proposer.proposal ≡ some old)
      × (find h.proposer.latest (propose entry 0 h).0.proposer.prepare_state ≡ some promises)
      × ((propose entry 0 h).1
          ≡ broadcast h.setting.config_endpoints
              (message_of h (Paxos.prepare (record { rnd = h.proposer.latest })))
            ∷ [])
unfolding propose next_proposal_number
propose_repeats entry old promises h w p q =
    let n = (h.proposer.latest + 0) % u32_mod in
    let e : n ≡ h.proposer.latest = omega arith in
    (
      ground (arith, e, find-insert n h.proposer.latest entry h.proposer.proposal),
      ground (arith, e, find-insert n h.proposer.latest [] h.proposer.prepare_state),
      rw e,
    )

-- Without an accepted value among the promises the loop keeps the proposed value.
pub choose_value_none :
    (max_vrnd : ℕ) (own : PaxosLogEntry) (promises : List (ℕ × PaxosLogEntry))
    → All (λ p. p.0 ≡ 0) promises
    → choose_value max_vrnd own promises ≡ own
unfolding choose_value
choose_value_none max_vrnd own [] z = refl
choose_value_none max_vrnd own ((v, x) ∷ promises) z =
    rw z.0 (choose_value_none max_vrnd own promises z.1)

-- If the promises that carry an accepted value agree on it, the loop chooses it.
pub choose_value_agree :
    (own x : PaxosLogEntry) (promises : List (ℕ × PaxosLogEntry))
    → All (λ p. (p.0 ≡ 0) ⊎ (p.1 ≡ x)) promises
    → All (λ p. p.0 ≡ 0) promises ⊎ (choose_value 0 own promises ≡ x)
unfolding choose_value
choose_value_agree own x [] a = inl tt
choose_value_agree own x ((v, y) ∷ promises) a = elim (Bool-cases (ltb 0 v)) [
  | inl some_value ↦ elim (choose_value_agree y x promises a.1) [
    | inl z ↦ inr (ground (arith, choose_value_none 0 y promises z, a.0))
    | inr e ↦ inr (ground (arith, e))
  ]
  | inr no_value ↦ elim (choose_value_agree own x promises a.1) [
    | inl z ↦ inl (ground arith, z)
    | inr e ↦ inr (ground (arith, e))
  ]
]

-- What the loop makes of the promises: the value of the last one that carries an accepted value.
pub choose_value_last :
    (max_vrnd vrnd : ℕ) (own vval : PaxosLogEntry) (before after : List (ℕ × PaxosLogEntry))
    → max_vrnd < vrnd
    → All (λ p. p.0 ≡ 0) after
    → choose_value max_vrnd own (before ++ (vrnd, vval) ∷ after) ≡ vval
unfolding choose_value
choose_value_last max_vrnd vrnd own vval [] after h z =
    ground (arith, choose_value_none max_vrnd vval after z)
choose_value_last max_vrnd vrnd own vval ((v, x) ∷ before) after h z =
    choose_value_last max_vrnd vrnd (if ltb 0 v then (if ltb max_vrnd v then x else own) else own)
      vval before after h z

module _ (message : Promise) (h : SinglePaxosHandler) (promises : List (ℕ × PaxosLogEntry)) where
  abbrev pub counted : SinglePaxosHandler
  counted = record h {
    proposer = record h.proposer {
      prepare_state =
          assign message.rnd (promises ++ (message.vrnd, message.vval) ∷ [])
            h.proposer.prepare_state;
    };
  }

  abbrev pub accepting : PaxosLogEntry → List (Sent PaxosMessage)
  accepting vval =
      broadcast h.setting.config_endpoints
        (message_of h (Paxos.accept (record { vrnd = message.rnd; vval = vval })))
      ∷ []

  -- All branches of `promise`, for a round that was proposed: the Accept message goes out with
  -- exactly the promise that makes the majority.
  pub promise_lem :
      (value : PaxosLogEntry)
      → find message.rnd h.proposer.prepare_state ≡ some promises
      → find message.rnd h.proposer.proposal ≡ some value
      → promise message h ≡ (
          if ltb (length promises) (majority_threshold h)
          then (if suc (length promises) == majority_threshold h
              then ok (
                counted,
                accepting (choose_value 0 value (promises ++ (message.vrnd, message.vval) ∷ [])),
              )
              else ok (counted, []))
          else ok (h, []))
  unfolding promise
  promise_lem value p q =
      rw (p, q, promise)
        (let n : length (promises ++ (message.vrnd, message.vval) ∷ []) ≡ suc (length promises) =
            omega (arith, length-append promises ((message.vrnd, message.vval) ∷ [])) in
          rw n)

  -- A promise that completes the majority and carries an accepted value decides what is sent for
  -- acceptance, whatever the rounds of the values that the other promises carry.
  pub promise_takes_last :
      (value : PaxosLogEntry)
      → find message.rnd h.proposer.prepare_state ≡ some promises
      → find message.rnd h.proposer.proposal ≡ some value
      → length promises + 1 ≡ majority_threshold h
      → 0 < message.vrnd
      → promise message h ≡ ok (counted, accepting message.vval)
  promise_takes_last value p q full v =
      promise_lem value p q
      ∙ ground (arith, choose_value_last 0 message.vrnd value message.vval promises [] v tt)

-- The promises of one round that come in, one after the other.
unfoldable pub promises : List Promise → SinglePaxosHandler → Result (List (Sent PaxosMessage))
promises [] h = ok []
promises (m ∷ ms) h = promise m h >>= λ r. promises ms r.0 >>= λ sent. ok (r.1 ++ sent)

-- What a promise says of the accepted value.
abbrev pub vote_of : Promise → ℕ × PaxosLogEntry
vote_of m = (m.vrnd, m.vval)

-- The votes of a majority come first, and an Accept message of the round with the value that is
-- chosen from them goes to the whole group.
pub record IsAccepting (rnd : ℕ) (setting : Setting) (value : PaxosLogEntry)
    (votes : List (ℕ × PaxosLogEntry)) (sent : List (Sent PaxosMessage)) : Type 0 where
  pub majority : List (ℕ × PaxosLogEntry)
  pub others : List (ℕ × PaxosLogEntry)
  pub split : votes ≡ majority ++ others
  pub full : length majority ≡ setting.num_slave_servers / 2 + 1
  pub message :
      sent
      ≡ broadcast setting.config_endpoints (record {
        paxos_index = to_u32 setting.paxos_log_index;
        content = Paxos.accept (record { vrnd = rnd; vval = choose_value 0 value majority });
      })
        ∷ []

abbrev pub Accepts :
    ℕ
    → Setting
    → PaxosLogEntry
    → List (ℕ × PaxosLogEntry)
    → List (Sent PaxosMessage)
    → Bool
    → Type 0
Accepts rnd setting value votes sent true = IsAccepting rnd setting value votes sent
Accepts rnd setting value votes sent false = sent ≡ []

-- Nothing is sent by the promises that come after a majority.
promises_over :
    (rnd : ℕ) (ms : List Promise) (h : SinglePaxosHandler) (ps : List (ℕ × PaxosLogEntry))
    (value : PaxosLogEntry)
    → All (λ m. m.rnd ≡ rnd) ms
    → find rnd h.proposer.prepare_state ≡ some ps
    → find rnd h.proposer.proposal ≡ some value
    → ltb (length ps) (majority_threshold h) ≡ false
    → promises ms h ≡ ok []
unfolding promises
promises_over rnd [] h ps value a p q over = refl
promises_over rnd (m ∷ ms) h ps value a p q over =
    rw (promise_lem m h ps value (rw a.0 p) (rw a.0 q))
      (rw over (rw (promises_over rnd ms h ps value a.1 p q over)))

-- Of a round that was proposed, the promises never fail an assertion. Where a majority has promised
-- that had not promised before, however many promises follow, there has gone out one message to
-- the whole group, the Accept message of the round with the value that is chosen from the promises
-- of the majority, those that came first; and nothing is sent otherwise.
pub promises_one_accept :
    (rnd : ℕ) (ms : List Promise) (h : SinglePaxosHandler) (ps : List (ℕ × PaxosLogEntry))
    (value : PaxosLogEntry)
    → All (λ m. m.rnd ≡ rnd) ms
    → find rnd h.proposer.prepare_state ≡ some ps
    → find rnd h.proposer.proposal ≡ some value
    → (sent : List (Sent PaxosMessage)) × (promises ms h ≡ ok sent)
      × Accepts rnd h.setting value (ps ++ map vote_of ms) sent (
          ltb (length ps) (majority_threshold h)
          && leb (majority_threshold h) (length ps + length ms))
unfolding promises majority_threshold message_of
promises_one_accept rnd [] h ps value a p q = ([], refl, empty)
  where
    empty : Accepts rnd h.setting value (ps ++ []) [] (
        ltb (length ps) (h.setting.num_slave_servers / 2 + 1)
        && leb (h.setting.num_slave_servers / 2 + 1) (length ps + 0))
    empty =
        subst (Accepts rnd h.setting value (ps ++ []) [])
          (let c : false ≡ (
                ltb (length ps) (h.setting.num_slave_servers / 2 + 1)
                && leb (h.setting.num_slave_servers / 2 + 1) (length ps + 0)) =
              ground arith in
            c)
          refl
promises_one_accept rnd (m ∷ ms) h ps value a p q =
    elim (Bool-cases (ltb (length ps) (majority_threshold h))) [
      | inr over ↦ ([], promises_over rnd (m ∷ ms) h ps value a p q over, rw over refl)
      | inl few ↦
          let vote = vote_of m in
          let found : find rnd (counted m h ps).proposer.prepare_state ≡ some (ps ++ vote ∷ []) =
            ground (arith, find-assign m.rnd rnd (ps ++ vote ∷ []) h.proposer.prepare_state, a.0) in
          let n : length (ps ++ vote ∷ []) ≡ suc (length ps) =
            omega (arith, length-append ps (vote ∷ [])) in
          elim (Bool-cases (suc (length ps) == majority_threshold h)) [
            | inl full ↦ (
              accepting m h ps (choose_value 0 value (ps ++ vote ∷ [])),
              rw (promise_lem m h ps value (rw a.0 p) (rw a.0 q)) (
                  rw (few, full)
                    (rw (
                      promises_over rnd ms (counted m h ps) (ps ++ vote ∷ []) value a.1 found q
                        (ground (arith, n, full))))),
              subst (Accepts rnd h.setting value (ps ++ vote ∷ map vote_of ms) _)
                  (let c : true ≡ (
                        ltb (length ps) (majority_threshold h)
                        && leb (majority_threshold h) (length ps + suc (length ms))) =
                      ground (arith, full) in
                    c)
                  (record {
                    majority = ps ++ vote ∷ [];
                    others = map vote_of ms;
                    split = sym (append_assoc ps (vote ∷ []) (map vote_of ms));
                    full = ground (arith, n, full);
                    message = rw a.0;
                  }),
            )
            | inr part ↦
                let (sent, e, l) =
                  promises_one_accept rnd ms (counted m h ps) (ps ++ vote ∷ []) value a.1 found q in
                (
                  sent,
                  rw (promise_lem m h ps value (rw a.0 p) (rw a.0 q)) (rw (few, part) (rw e)),
                  subst
                      (λ votes. Accepts rnd h.setting value votes sent (
                        ltb (length ps) (majority_threshold h)
                        && leb (majority_threshold h) (length ps + suc (length ms))))
                      (append_assoc ps (vote ∷ []) (map vote_of ms))
                      (subst
                        (Accepts rnd h.setting value ((ps ++ vote ∷ []) ++ map vote_of ms) sent)
                        (let c : (ltb (length (ps ++ vote ∷ [])) (majority_threshold h)
                                && leb (majority_threshold h)
                                    (length (ps ++ vote ∷ []) + length ms))
                              ≡ (ltb (length ps) (majority_threshold h)
                                  && leb (majority_threshold h) (length ps + suc (length ms))) =
                            ground (arith, n, few, part) in
                          c)
                        l),
                )
          ]
    ]
