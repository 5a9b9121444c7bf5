-- ===== src/Paxos/Multi/Shadowed.antt =====
-- A state that is not quite what the callbacks of the log make of it (src/paxos/PaxosLog.cc), since
-- the node has changed it in between: beside it there is the derived one, to which it is related.
use universal_db.Base.{
  ◌≤◌, arith, ℕ, zero, suc, ◌+◌, ◌-◌, ◌<◌, ◌≡◌, refl, sym, ap, ◌∙◌, subst, some, List, u64_mod,
  Bool-cases, Option-cases, inl, inr,
}
use universal_db.Base.Eq.{nat_eq}
use universal_db.Base.Assoc.{find, has}
use universal_db.Base.Result.{Result, ok, ok-injective, ◌>>=◌, Ensures, Ensures-ok, Ensures-bind}
use universal_db.Proto.Paxos.{PaxosLogEntry}
use universal_db.Paxos.Log.{
  PaxosLog, Callback, get_entry, next_available_index, set_entry, invoke, invoke_from,
}
use universal_db.Paxos.Log.Invariant.{
  least, has_before, next_available_index-eq, place, place-IsValid, set_entry_present,
  set_entry_absent,
}
use universal_db.Paxos.Log.Delivery.{set_entry-Kept, invoke_from_ext}
use universal_db.Paxos.Multi.Derived.{IsDerived}

module _ {S : Type 0} (IsRelated : S → S → Type 0) (callbacks : List (ℕ × List (Callback S)))
    (start : S) where
  pub record IsShadowed (l : PaxosLog S) (s : S) : Type 0 where
    pub same_callbacks : l.callbacks ≡ callbacks
    pub shadow : S
    pub derived : IsDerived start l shadow
    pub related : IsRelated s shadow

  -- A call on a state, with a call on a related state that does the same.
  abbrev pub Alike : Result S → Result S → Type 0
  Alike once again = Ensures (λ s. (s' : S) × (again ≡ ok s') × IsRelated s s') once

  module _
      (invoke-Alike : (i : ℕ) (entry : PaxosLogEntry) (s s' : S)
        → IsRelated s s'
        → Alike (invoke callbacks i entry s) (invoke callbacks i entry s')) where
    invoke_from-Alike :
        (n i : ℕ) (l : PaxosLog S) (s s' : S)
        → l.callbacks ≡ callbacks
        → IsRelated s s'
        → Alike (invoke_from n i l s) (invoke_from n i l s')
    unfolding invoke_from
    invoke_from-Alike zero i l s s' c r = (s', refl, r)
    invoke_from-Alike (suc n) i l s s' c r = elim (Option-cases (find i l.log)) [
      | inl absent ↦ rw (absent, invoke_from) tt
      | inr (entry, there) ↦
          rw (there, invoke_from)
            (Ensures-bind _ (invoke l.callbacks i entry s) _ λ t e.
              let (t', e', r') =
                Ensures-ok _ (invoke l.callbacks i entry s)
                  (subst (λ cs. Alike (invoke cs i entry s) (invoke cs i entry s')) (sym c)
                    (invoke-Alike i entry s s' r))
                  e in
              rw e' (invoke_from-Alike n (i + 1) l t t' c r'))
    ]

    pub set_entry-IsShadowed :
        (index : ℕ) (entry : PaxosLogEntry) (l : PaxosLog S) (s : S)
        → index + 1 < u64_mod
        → IsShadowed l s
        → Ensures (λ r. IsShadowed r.0 r.1) (set_entry index entry l s)
    set_entry-IsShadowed index entry l s w h = elim (Bool-cases (has index l.log)) [
      | inl present ↦ rw (set_entry_present index entry l h.derived.valid s present) h
      | inr absent ↦
          let v = h.derived.valid in
          let count = least (place-IsValid index entry l v absent) - least v in
          let placed = place index entry l v in
          rw (set_entry_absent index entry l v s absent w) (
            Ensures-bind _ (invoke_from count (least v) placed s) _ λ t e.
              let (t', e', r) =
                Ensures-ok _ (invoke_from count (least v) placed s)
                  (invoke_from-Alike count (least v) placed s h.shadow h.same_callbacks h.related)
                  e in
              let k = set_entry-Kept index entry l v start h.shadow t' placed w h.derived.derived (
                set_entry_absent index entry l v h.shadow absent w
                ∙ ap (λ x. x >>= λ s'. ok (placed, s')) e') in
              record {
                same_callbacks = h.same_callbacks;
                shadow = t';
                derived = record { valid = k.valid; derived = k.derived };
                related = r;
              })
    ]

-- The same entry wherever both logs have one.
abbrev pub SameEntries : {S : Type 0} → PaxosLog S → PaxosLog S → Type 0
SameEntries l m =
    (j : ℕ) (x y : PaxosLogEntry) → get_entry j l ≡ some x → get_entry j m ≡ some y → x ≡ y

-- Logs that agree, with the same least available index, have the same shadow.
pub same_shadow :
    {S : Type 0}
    → (IsRelated : S → S → Type 0) (callbacks : List (ℕ × List (Callback S))) (start : S)
      (l m : PaxosLog S) (s t : S) (r : IsShadowed IsRelated callbacks start l s)
      (q : IsShadowed IsRelated callbacks start m t)
    → SameEntries l m
    → next_available_index l ≡ next_available_index m
    → r.shadow ≡ q.shadow
unfolding get_entry
same_shadow IsRelated callbacks start l m s t r q agree e = ok-injective (
    sym r.derived.derived
    ∙ invoke_from_ext (least r.derived.valid) 0 l m start (r.same_callbacks ∙ sym q.same_callbacks)
        same
    ∙ ap (λ n. invoke_from n 0 m start) count
    ∙ q.derived.derived)
  where
    count : least r.derived.valid ≡ least q.derived.valid
    count = ok-injective (
        sym (next_available_index-eq l r.derived.valid)
        ∙ e
        ∙ next_available_index-eq m q.derived.valid)

    same : (j : ℕ) → 0 ≤ j → j < 0 + least r.derived.valid → find j l.log ≡ find j m.log
    same j _ h = elim (Option-cases (find j l.log)) [
      | inl a ↦ ground (arith, has_before l r.derived.valid j)
      | inr (x, a) ↦ elim (Option-cases (find j m.log)) [
        | inl b ↦ ground (arith, has_before m q.derived.valid j, count)
        | inr (y, b) ↦ a ∙ ap some (agree j x y a b) ∙ sym b
      ]
    ]
