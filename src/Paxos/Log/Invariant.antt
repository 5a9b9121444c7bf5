-- ===== src/Paxos/Log/Invariant.antt =====
-- The representation invariant of PaxosLog (src/paxos/PaxosLog.h): `_available_indices` lists, in
-- order, every index that `_log` lacks up to one behind the greatest that it has.
use universal_db.Base.{
  ℕ, ◌+◌, ◌-◌, ◌<◌, ◌≡◌, refl, sym, ap, ap₂, ◌∙◌, true, false, not, ◌&&◌, List, [], ◌∷◌, ◌++◌,
  arith, ltb, leb, u64_mod, last,
}
use universal_db.Base.Eq.{nat_eq, contains, contains-append}
use universal_db.Base.Assoc.{find, has, insert, find-insert}
use universal_db.Base.Result.{ok, ◌>>=◌}
use universal_db.Proto.Paxos.{PaxosLogEntry}
use universal_db.Paxos.Log.{
  PaxosLog, new_log, next_available_index, set_entry, set_entry_at, take_index, invoke_from,
}
use universal_db.Paxos.Log.Indices.{
  Ascending, Below, first_of, rest_of, first-rest, last-first-rest, first_of-le, contains_high,
  contains_before_first, init_after, top_after, take_index-split, init_after-Ascending,
  init_after-Below, contains-init_after,
}

module _ {S : Type 0} where
  pub record IsValid (l : PaxosLog S) : Type 0 where
    pub init : List ℕ
    pub top : ℕ
    pub shape : l.available_indices ≡ init ++ top ∷ []
    pub ascending : Ascending 0 init
    pub below : Below top init
    pub agree : (j : ℕ) → has j l.log ≡ (ltb j top && not (contains j init))

  -- The least index that is not in the log.
  abbrev pub least : {l : PaxosLog S} → IsValid l → ℕ
  least v = first_of v.init v.top

  pub new_log-IsValid : IsValid (new_log {S = S})
  unfolding new_log find
  new_log-IsValid = record {
    init = [];
    top = 0;
    shape = refl;
    ascending = tt;
    below = tt;
    agree = λ j. ground arith;
  }

  module _ (l : PaxosLog S) (v : IsValid l) where
    -- Every index before the least available one is in the log.
    pub has_before : (j : ℕ) → j < least v → has j l.log ≡ true
    has_before j h = ground (
      arith,
      v.agree j,
      contains_before_first v.init v.top j v.ascending h,
      first_of-le v.init v.top v.below,
    )

    first_absent :
        (init : List ℕ) (top : ℕ)
        → Below top init
        → (ltb (first_of init top) top && not (contains (first_of init top) init)) ≡ false
    first_absent [] top b = ground arith
    first_absent (x ∷ xs) top b = ground arith

    pub least_absent : has (least v) l.log ≡ false
    least_absent = v.agree (least v) ∙ first_absent v.init v.top v.below

    -- The assertions of `next_available_index` hold.
    pub next_available_index-eq : next_available_index l ≡ ok (least v)
    unfolding next_available_index
    next_available_index-eq =
        rw (v.shape ∙ first-rest v.init v.top, next_available_index) (rw least_absent)

  -- The log with the entry at an index that it lacks.
  abbrev pub place : ℕ → PaxosLogEntry → (l : PaxosLog S) → IsValid l → PaxosLog S
  place index entry l v = record l {
    log = insert index entry l.log;
    available_indices = init_after index v.top v.init ++ top_after index v.top ∷ [];
  }

  module _ (index : ℕ) (entry : PaxosLogEntry) (l : PaxosLog S) (v : IsValid l) where
    missing_below : has index l.log ≡ false → ltb index v.top ≡ true → contains index v.init ≡ true
    missing_below absent h = ground (arith, v.agree index)

    pub place-IsValid : has index l.log ≡ false → IsValid (place index entry l v)
    place-IsValid absent = record {
      init = init_after index v.top v.init;
      top = top_after index v.top;
      shape = refl;
      ascending = init_after-Ascending index v.top v.init v.ascending v.below;
      below = init_after-Below index v.top v.init v.below;
      agree = λ j. ground (
        arith,
        contains-init_after index v.top v.init j v.ascending v.below,
        find-insert index j entry l.log,
        v.agree j,
      );
    }

    -- The early return is taken exactly for an index that is in the log.
    guard-eq-has :
        (leb index (last (first_of v.init v.top) (rest_of v.init v.top))
          && not (contains index (first_of v.init v.top ∷ rest_of v.init v.top)))
        ≡ has index l.log
    guard-eq-has = ground (
      arith,
      last-first-rest v.init v.top,
      ap (contains index) (sym (first-rest v.init v.top))
          ∙ contains-append index v.init (v.top ∷ []),
      v.agree index,
      contains_high v.top v.init index v.below,
    )

    take_index-place :
        has index l.log ≡ false
        → index + 1 < u64_mod
        → take_index index
            (last (first_of v.init v.top) (rest_of v.init v.top))
            (first_of v.init v.top ∷ rest_of v.init v.top)
          ≡ (place index entry l v).available_indices
    take_index-place absent w =
        ap₂ (take_index index) (last-first-rest v.init v.top) (sym (first-rest v.init v.top))
        ∙ take_index-split index v.top v.init w v.below (missing_below absent)

    set_entry-at :
        (s : S)
        → set_entry index entry l s
          ≡ set_entry_at index entry (first_of v.init v.top) (rest_of v.init v.top) l s
    unfolding set_entry
    set_entry-at s = ground (arith, v.shape ∙ first-rest v.init v.top)

    -- An index that is set already: nothing happens.
    pub set_entry_present : (s : S) → has index l.log ≡ true → set_entry index entry l s ≡ ok (l, s)
    unfolding set_entry_at
    set_entry_present s present =
        set_entry-at s ∙ rw (next_available_index-eq l v) (rw guard-eq-has (rw present))

    -- An index that is missing: the entry is placed, and the callbacks run over the entries that
    -- have become contiguous.
    pub set_entry_absent :
        (s : S) (absent : has index l.log ≡ false)
        → index + 1 < u64_mod
        → set_entry index entry l s ≡ (
            invoke_from (least (place-IsValid absent) - least v) (least v) (place index entry l v) s
            >>= λ s'. ok (place index entry l v, s'))
    unfolding set_entry_at
    set_entry_absent s absent w =
        set_entry-at s
        ∙ rw (next_available_index-eq l v) (
            rw guard-eq-has (
              rw absent (
                rw (take_index-place absent w)
                  (rw (next_available_index-eq (place index entry l v) (place-IsValid absent))))))
