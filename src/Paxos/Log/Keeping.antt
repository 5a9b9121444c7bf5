-- ===== src/Paxos/Log/Keeping.antt =====
-- What the callbacks of a PaxosLog (src/paxos/PaxosLog.cc) keep of the state.
use universal_db.Base.{
  ℕ, zero, suc, ◌+◌, ◌-◌, ◌≡◌, subst, refl, ◌&&◌, not, leb, List, [], ◌∷◌, if_cases, Option-cases,
  inl, inr, last,
}
use universal_db.Base.Eq.{contains, nat_eq}
use universal_db.Base.Assoc.{find, insert}
use universal_db.Base.Result.{ok, Ensures, Ensures-ok, Ensures-bind}
use universal_db.Proto.Paxos.{PaxosLogEntry}
use universal_db.Paxos.Log.{
  PaxosLog, Callback, invoke, invoke_from, set_entry, set_entry_at, next_available_index,
  take_index,
}

-- The log has these callbacks, and the state has the property.
abbrev pub Holds :
    {S : Type 0} → (S → Type 0) → List (ℕ × List (Callback S)) → PaxosLog S → S → Type 0
Holds Inv callbacks l s = (l.callbacks ≡ callbacks) × Inv s

module _ {S : Type 0} (Inv : S → Type 0) (callbacks : List (ℕ × List (Callback S)))
    (invoke-Inv : (i : ℕ) (entry : PaxosLogEntry) (s : S)
      → Inv s
      → Ensures Inv (invoke callbacks i entry s)) where
  invoke_from-Inv :
      (count i : ℕ) (l : PaxosLog S) (s : S)
      → Holds Inv callbacks l s
      → Ensures Inv (invoke_from count i l s)
  unfolding invoke_from
  invoke_from-Inv zero i l s h = h.1
  invoke_from-Inv (suc count) i l s h = elim (Option-cases (find i l.log)) [
    | inl absent ↦ rw (absent, invoke_from) tt
    | inr (entry, there) ↦
        rw (there, invoke_from)
          (Ensures-bind _ (invoke l.callbacks i entry s) _ λ s' e.
            invoke_from-Inv count (i + 1) l s' (
              h.0,
              Ensures-ok Inv (invoke callbacks i entry s) (invoke-Inv i entry s h.1)
                  (subst (λ cs. invoke cs i entry s ≡ ok s') h.0 e),
            ))
  ]

  set_entry_at-Holds :
      (index : ℕ) (entry : PaxosLogEntry) (first : ℕ) (rest : List ℕ) (l : PaxosLog S) (s : S)
      → Holds Inv callbacks l s
      → Ensures (λ r. Holds Inv callbacks r.0 r.1) (set_entry_at index entry first rest l s)
  unfolding set_entry_at
  set_entry_at-Holds index entry first rest l s h = Ensures-bind _ (next_available_index l) _ λ i _.
      if_cases (Ensures (λ (r : PaxosLog S × S). Holds Inv callbacks r.0 r.1))
        (leb index (last first rest) && not (contains index (first ∷ rest))) _ _ (λ _. h)
        (λ _. Ensures-bind _ (next_available_index (changed l)) _ λ j _.
          Ensures-bind _ (invoke_from (j - i) i (changed l) s) _ λ s' e. (
            h.0,
            Ensures-ok Inv (invoke_from (j - i) i (changed l) s)
                (invoke_from-Inv (j - i) i (changed l) s h) e,
          ))
    where
      changed : PaxosLog S → PaxosLog S
      changed l = record l {
        log = insert index entry l.log;
        available_indices = take_index index (last first rest) (first ∷ rest);
      }

  -- A log whose callbacks keep a property of the state keeps it.
  pub set_entry-Holds :
      (index : ℕ) (entry : PaxosLogEntry) (l : PaxosLog S) (s : S)
      → Holds Inv callbacks l s
      → Ensures (λ r. Holds Inv callbacks r.0 r.1) (set_entry index entry l s)
  unfolding set_entry
  set_entry-Holds index entry l s h = by_available l.available_indices refl
    where
      by_available :
          (available : List ℕ)
          → l.available_indices ≡ available
          → Ensures
              (λ (r : PaxosLog S × S). Holds Inv callbacks r.0 r.1)
              (set_entry index entry l s)
      by_available [] e = rw (e, set_entry) tt
      by_available (first ∷ rest) e =
          rw (e, set_entry) (set_entry_at-Holds index entry first rest l s h)
