-- ===== src/Paxos/Log/Delivery.antt =====
-- What the callbacks of PaxosLog (src/paxos/PaxosLog.cc) see of the entries that are set.
use universal_db.Base.{
  ℕ, zero, suc, ◌+◌, ◌-◌, ◌≤◌, ◌<◌, ◌≡◌, refl, sym, ap, ap₂, ◌∙◌, subst, fun_ext, true, false, none,
  some, arith, u64_mod, Bool-cases, Option-cases, if◌then◌else◌, inl, inr,
}
use universal_db.Base.Eq.{◌==◌, nat_eq}
use universal_db.Base.Assoc.{find, has, insert, find-insert}
use universal_db.Base.Result.{ok, ok-injective, ◌>>=◌, >>=-eq-ok, >>=_assoc}
use universal_db.Proto.Paxos.{PaxosLogEntry}
use universal_db.Paxos.Log.{PaxosLog, set_entry, invoke, invoke_from}
use universal_db.Paxos.Log.Invariant.{
  IsValid, least, has_before, least_absent, place, place-IsValid, set_entry_present,
  set_entry_absent,
}

module _ {S : Type 0} where
  -- Only the entries in the range and the callbacks matter.
  pub invoke_from_ext :
      (n i : ℕ) (l m : PaxosLog S) (s : S)
      → l.callbacks ≡ m.callbacks
      → ((j : ℕ) → i ≤ j → j < i + n → find j l.log ≡ find j m.log)
      → invoke_from n i l s ≡ invoke_from n i m s
  unfolding invoke_from
  invoke_from_ext zero i l m s c h = refl
  invoke_from_ext (suc n) i l m s c h = elim (Option-cases (find i m.log)) [
    | inl absent ↦ rw (h i (omega arith) (omega arith) ∙ absent, absent, invoke_from)
    | inr (entry, found) ↦
        rw (h i (omega arith) (omega arith) ∙ found, found, invoke_from)
          (ap₂ (λ cs f. invoke cs i entry s >>= f) c
            (fun_ext
              λ s'. invoke_from_ext n (i + 1) l m s' c (λ j p q. h j (omega arith) (omega arith))))
  ]

  -- A run of the callbacks can be cut in two.
  invoke_from_add :
      (n m i j k : ℕ) (l : PaxosLog S) (s : S)
      → n + m ≡ k
      → i + n ≡ j
      → invoke_from k i l s ≡ (invoke_from n i l s >>= λ s'. invoke_from m j l s')
  unfolding invoke_from
  invoke_from_add zero m i j k l s p q =
      let a : k ≡ m = omega arith in let b : i ≡ j = omega arith in rw (a, b)
  invoke_from_add (suc n) m i j zero l s p q = absurd (omega arith)
  invoke_from_add (suc n) m i j (suc k) l s p q = elim (Option-cases (find i l.log)) [
    | inl absent ↦ rw (absent, invoke_from)
    | inr (entry, found) ↦
        rw (found, invoke_from)
          (ap (λ f. invoke l.callbacks i entry s >>= f)
              (fun_ext λ s'. invoke_from_add n m (i + 1) j k l s' (omega arith) (omega arith))
            ∙ sym (>>=_assoc (invoke l.callbacks i entry s) _ _))
  ]

  -- What a call of `set_entry` that does not throw leaves behind.
  pub record Kept (index : ℕ) (entry : PaxosLogEntry) (l l' : PaxosLog S) (start s' : S)
      : Type 0 where
    pub valid : IsValid l'
    pub derived : invoke_from (least valid) 0 l' start ≡ ok s'
    pub same_callbacks : l'.callbacks ≡ l.callbacks
    pub entries :
        (j : ℕ)
        → find j l'.log
          ≡ (if has j l.log then find j l.log else if index == j then some entry else none)

  module _ (index : ℕ) (entry : PaxosLogEntry) (l : PaxosLog S) (v : IsValid l) where
    least_grows :
        (absent : has index l.log ≡ false) → least v ≤ least (place-IsValid index entry l v absent)
    least_grows absent =
        let w = place-IsValid index entry l v absent in
        ground (
          arith,
          has_before l v (least w),
          least_absent (place index entry l v) w,
          find-insert index (least w) entry l.log,
        )

    place_derived :
        (start s s'' : S) (absent : has index l.log ≡ false)
        → invoke_from (least v) 0 l start ≡ ok s
        → invoke_from
            (least (place-IsValid index entry l v absent) - least v)
            (least v)
            (place index entry l v)
            s
          ≡ ok s''
        → invoke_from (least (place-IsValid index entry l v absent)) 0 (place index entry l v) start
          ≡ ok s''
    place_derived start s s'' absent d e =
        invoke_from_add (least v) (least (place-IsValid index entry l v absent) - least v) 0
          (least v) (least (place-IsValid index entry l v absent)) (place index entry l v) start
          (let g = least_grows absent in omega arith) (omega arith)
        ∙ rw (sym (invoke_from_ext (least v) 0 l (place index entry l v) start refl same) ∙ d) e
      where
        same : (j : ℕ) → 0 ≤ j → j < 0 + least v → find j l.log ≡ find j (insert index entry l.log)
        same j _ h = ground (arith, has_before l v j, find-insert index j entry l.log)

    -- Whatever the order in which entries are set: if the state is what the callbacks make of the
    -- entries before the least available index, each once and in the order of the indices, it
    -- stays so. The log stays well formed, an entry that is there stays, and one is added if
    -- there was none.
    pub set_entry-Kept :
        (start s s' : S) (l' : PaxosLog S)
        → index + 1 < u64_mod
        → invoke_from (least v) 0 l start ≡ ok s
        → set_entry index entry l s ≡ ok (l', s')
        → Kept index entry l l' start s'
    set_entry-Kept start s s' l' w d e = elim (Bool-cases (has index l.log)) [
      | inl present ↦
          subst (λ (r : PaxosLog S × S). Kept index entry l r.0 start r.1)
            (ok-injective (sym (set_entry_present index entry l v s present) ∙ e))
            (record {
              valid = v;
              derived = d;
              same_callbacks = refl;
              entries = λ j. ground (arith, present);
            })
      | inr absent ↦
          let (s'', ran, same) =
            >>=-eq-ok _ _ (sym (set_entry_absent index entry l v s absent w) ∙ e) in
          subst (λ (r : PaxosLog S × S). Kept index entry l r.0 start r.1) (ok-injective same)
            (record {
              valid = place-IsValid index entry l v absent;
              derived = place_derived start s s'' absent d ran;
              same_callbacks = refl;
              entries = λ j. find-insert index j entry l.log;
            })
    ]

  -- The callbacks throw nothing when they are called on the first entries of the log, in the order
  -- of the indices, up to the first index that it lacks.
  abbrev pub Replays : S → PaxosLog S → Type 0
  Replays start l =
      (n : ℕ) → ((j : ℕ) → j < n → has j l.log ≡ true) → (t : S) × (invoke_from n 0 l start ≡ ok t)

  -- `set_entry` on a well-formed log returns, whatever the order of the indices, if the state is
  -- what the callbacks make of the entries before the least available index, and the callbacks
  -- throw nothing when they are called in the order of the indices on the entries that the log
  -- then has up to the first index that it lacks.
  pub set_entry_total :
      (index : ℕ) (entry : PaxosLogEntry) (l : PaxosLog S) (v : IsValid l) (start s : S)
      → index + 1 < u64_mod
      → invoke_from (least v) 0 l start ≡ ok s
      → Replays start (record l { log = insert index entry l.log })
      → (r : PaxosLog S × S) × (set_entry index entry l s ≡ ok r)
  set_entry_total index entry l v start s w d replays = elim (Bool-cases (has index l.log)) [
    | inl present ↦ ((l, s), set_entry_present index entry l v s present)
    | inr absent ↦
        let placed = place index entry l v in
        let u = place-IsValid index entry l v absent in
        let g = least_grows index entry l v absent in
        let (t, ran) = replays (least u) (λ j h. has_before placed u j h) in
        let first =
          invoke_from_ext (least v) 0 l placed start refl
            (λ j _ h. ground (arith, has_before l v j, find-insert index j entry l.log)) in
        let rest : invoke_from (least u - least v) (least v) placed s ≡ ok t =
          sym (
            ap (λ r. r >>= λ s'. invoke_from (least u - least v) (least v) placed s')
              (sym first ∙ d))
          ∙ sym (
              invoke_from_add (least v) (least u - least v) 0 (least v) (least u) placed start
                (omega arith) (omega arith))
          ∙ invoke_from_ext (least u) 0 placed (record l { log = insert index entry l.log }) start
              refl (λ _ _ _. refl)
          ∙ ran in
        ((placed, t), set_entry_absent index entry l v s absent w ∙ rw rest)
  ]
