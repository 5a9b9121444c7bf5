-- ===== src/Paxos/Log/Replicas.antt =====
-- State machine replication over PaxosLog (src/paxos/PaxosLog.cc): nodes with parts of one log.
use universal_db.Base.{
  ℕ, ◌+◌, ◌≤◌, ◌<◌, ◌≡◌, refl, sym, ap, ◌∙◌, subst, some, List, [], ◌∷◌, arith, u64_mod,
  Option-cases, inl, inr, All,
}
use universal_db.Base.Eq.{nat_eq}
use universal_db.Base.Assoc.{find}
use universal_db.Base.Result.{ok, ok-injective, >>=-eq-ok}
use universal_db.Proto.Paxos.{PaxosLogEntry}
use universal_db.Paxos.Log.{
  PaxosLog, Callback, next_available_index, set_entry, set_all, invoke_from,
}
use universal_db.Paxos.Log.Invariant.{IsValid, least, has_before, next_available_index-eq}
use universal_db.Paxos.Log.Delivery.{set_entry-Kept, invoke_from_ext}

-- The global log gives each index one entry; the index of an entry that is set is not the last of
-- the uint64_t.
abbrev pub FromGlobal : (ℕ → PaxosLogEntry) → ℕ × PaxosLogEntry → Type 0
FromGlobal global (index, entry) = (global index ≡ entry) × (index + 1 < u64_mod)

module _ {S : Type 0} where
  abbrev pub with_callbacks : List (ℕ × List (Callback S)) → PaxosLog S
  with_callbacks cs = record { log = []; available_indices = 0 ∷ []; callbacks = cs }

  -- The log is well formed, holds entries of the global log, and the state is what the callbacks
  -- make of the entries before the least available index.
  pub record IsReplica (global : ℕ → PaxosLogEntry) (cs : List (ℕ × List (Callback S))) (start : S)
      (l : PaxosLog S) (s : S) : Type 0 where
    pub valid : IsValid l
    pub derived : invoke_from (least valid) 0 l start ≡ ok s
    pub same_callbacks : l.callbacks ≡ cs
    pub agrees : (j : ℕ) (entry : PaxosLogEntry) → find j l.log ≡ some entry → global j ≡ entry

  module _ (global : ℕ → PaxosLogEntry) (cs : List (ℕ × List (Callback S))) (start : S) where
    pub start-IsReplica : IsReplica global cs start (with_callbacks cs) start
    unfolding find invoke_from
    start-IsReplica = record {
      valid = record {
        init = [];
        top = 0;
        shape = refl;
        ascending = tt;
        below = tt;
        agree = λ j. ground arith;
      };
      derived = refl;
      same_callbacks = refl;
      agrees = λ j entry h. cc;
    }

    pub set_entry-IsReplica :
        (index : ℕ) (entry : PaxosLogEntry) (l l' : PaxosLog S) (s s' : S)
        → FromGlobal global (index, entry)
        → IsReplica global cs start l s
        → set_entry index entry l s ≡ ok (l', s')
        → IsReplica global cs start l' s'
    set_entry-IsReplica index entry l l' s s' g r e =
        let k = set_entry-Kept index entry l r.valid start s s' l' g.1 r.derived e in
        record {
          valid = k.valid;
          derived = k.derived;
          same_callbacks = k.same_callbacks ∙ r.same_callbacks;
          agrees = λ j x h. ground (arith, k.entries j, r.agrees j x, g.0);
        }

    pub set_all-IsReplica :
        (xs : List (ℕ × PaxosLogEntry)) (l l' : PaxosLog S) (s s' : S)
        → All (FromGlobal global) xs
        → IsReplica global cs start l s
        → set_all xs l s ≡ ok (l', s')
        → IsReplica global cs start l' s'
    unfolding set_all
    set_all-IsReplica [] l l' s s' g r e =
        subst (λ (p : PaxosLog S × S). IsReplica global cs start p.0 p.1) (ok-injective e) r
    set_all-IsReplica ((index, entry) ∷ xs) l l' s s' g r e =
        let ((m, t), first, rest) =
          >>=-eq-ok (set_entry index entry l s) (λ p. set_all xs p.0 p.1) e in
        set_all-IsReplica xs m l' t s' g.1 (set_entry-IsReplica index entry l m s t g.0 r first)
          rest

    -- Two replicas with the same least available index are in the same state.
    IsReplica-unique :
        (l m : PaxosLog S) (s t : S)
        → (r : IsReplica global cs start l s) → (q : IsReplica global cs start m t)
        → least r.valid ≡ least q.valid
        → s ≡ t
    IsReplica-unique l m s t r q e = ok-injective (
        sym r.derived
        ∙ invoke_from_ext (least r.valid) 0 l m start (r.same_callbacks ∙ sym q.same_callbacks) same
        ∙ ap (λ n. invoke_from n 0 m start) e
        ∙ q.derived)
      where
        same : (j : ℕ) → 0 ≤ j → j < 0 + least r.valid → find j l.log ≡ find j m.log
        same j _ h = elim (Option-cases (find j l.log)) [
          | inl a ↦ ground (arith, has_before l r.valid j)
          | inr (x, a) ↦ elim (Option-cases (find j m.log)) [
            | inl b ↦ ground (arith, has_before m q.valid j, e)
            | inr (y, b) ↦ ground (arith, r.agrees j x a, q.agrees j y b)
          ]
        ]

    -- Two nodes that start from the empty log with the same callbacks and are given entries of one
    -- global log, each in its own order, with its own repetitions and omissions, are in the same
    -- state whenever their least available indices are equal, if no callback has thrown.
    pub replicas_agree :
        (xs ys : List (ℕ × PaxosLogEntry)) (l m : PaxosLog S) (s t : S)
        → All (FromGlobal global) xs
        → All (FromGlobal global) ys
        → set_all xs (with_callbacks cs) start ≡ ok (l, s)
        → set_all ys (with_callbacks cs) start ≡ ok (m, t)
        → next_available_index l ≡ next_available_index m
        → s ≡ t
    replicas_agree xs ys l m s t gx gy ex ey e =
        let r = set_all-IsReplica xs (with_callbacks cs) l start s gx start-IsReplica ex in
        let q = set_all-IsReplica ys (with_callbacks cs) m start t gy start-IsReplica ey in
        IsReplica-unique l m s t r q (
          ok-injective
            (sym (next_available_index-eq l r.valid) ∙ e ∙ next_available_index-eq m q.valid))
