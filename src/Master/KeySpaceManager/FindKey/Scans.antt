-- ===== src/Master/KeySpaceManager/FindKey/Scans.antt =====
-- The groups that the tasks of src/master/KeySpaceManager.cc look for.
use universal_db.Base.{
  ◌||◌, sym, ◌∙◌, ℕ, Bool, false, none, some, some_inj, subst, All, ◌≡◌, refl, ap, true, List, [],
  ◌∷◌, ◌++◌, arith, if_cases,
}
use universal_db.Base.Eq.{nat_eq}
use universal_db.Proto.Client.{FindKeyRangeRequest}
use universal_db.Server.KeySpaceRange.{KeySpaceRange, within_range}
use universal_db.Master.GroupConfigManager.{SlaveGroupId}
use universal_db.Master.KeySpaceManager.{GroupRanges, key_space, new_key_space}
use universal_db.Master.KeySpaceManager.FindKey.{
  any_within, Scan, assigned, pending, not_found, scan, first_free,
}

-- Some element of a list passes the test.
abbrev pub any : {A : Type 0} → List A → (A → Bool) → Bool
any [] test = false
any (x ∷ xs) test = test x || any xs test

-- The key is in a range that a group has, or is about to have.
abbrev pub covers : FindKeyRangeRequest → SlaveGroupId × GroupRanges → Bool
covers m (_, key_space ranges generation) =
    any ranges (λ r. within_range r m.database_id m.table_id m.key)
covers m (_, new_key_space ranges new_ranges generation) =
    any new_ranges (λ r. within_range r m.database_id m.table_id m.key)

abbrev pub Groups : Type 0
Groups = List (SlaveGroupId × GroupRanges)

-- The first of the groups that covers the key.
abbrev pub IsFirst : FindKeyRangeRequest → SlaveGroupId × GroupRanges → Groups → Type 0
IsFirst m p groups =
    (before : Groups) × (after : Groups) × (groups ≡ before ++ p ∷ after)
    × All (λ q. covers m q ≡ false) before
    × (covers m p ≡ true)

abbrev pub NoneCovers : FindKeyRangeRequest → Groups → Type 0
NoneCovers m groups = All (λ q. covers m q ≡ false) groups

-- The group is in transition to new ranges.
abbrev pub IsChanging : SlaveGroupId × GroupRanges → Type 0
IsChanging (_, key_space ranges generation) = true ≡ false
IsChanging (_, new_key_space ranges new_ranges generation) = Unit {0}

-- The first of the groups that is not in transition.
abbrev pub IsFree : SlaveGroupId → List KeySpaceRange → ℕ → Groups → Type 0
IsFree g ranges generation groups =
    (before : Groups) × (after : Groups) × (groups
      ≡ before ++ (g, key_space ranges generation) ∷ after)
    × All IsChanging before

abbrev pub Found : FindKeyRangeRequest → Groups → Scan → Type 0
Found m groups (assigned g) =
    (ranges : List KeySpaceRange) × (generation : ℕ) × IsFirst m (g, key_space ranges generation)
      groups
Found m groups (pending g new_ranges generation) =
    (ranges : List KeySpaceRange) × IsFirst m (g, new_key_space ranges new_ranges generation) groups
Found m groups not_found = NoneCovers m groups

IsFirst-cons :
    (m : FindKeyRangeRequest) (p q : SlaveGroupId × GroupRanges) (groups : Groups)
    → covers m q ≡ false
    → IsFirst m p groups
    → IsFirst m p (q ∷ groups)
IsFirst-cons m p q groups other (before, after, e, none_before, here) =
    (q ∷ before, after, ap (λ xs. q ∷ xs) e, (other, none_before), here)

Found-cons :
    (m : FindKeyRangeRequest) (q : SlaveGroupId × GroupRanges) (groups : Groups) (r : Scan)
    → covers m q ≡ false
    → Found m groups r
    → Found m (q ∷ groups) r
Found-cons m q groups (assigned g) other (ranges, generation, first) =
    (ranges, generation, IsFirst-cons m (g, key_space ranges generation) q groups other first)
Found-cons m q groups (pending g new_ranges generation) other (ranges, first) =
    (ranges, IsFirst-cons m (g, new_key_space ranges new_ranges generation) q groups other first)
Found-cons m q groups not_found other h = (other, h)

any_within-any :
    (m : FindKeyRangeRequest) (ranges : List KeySpaceRange)
    → any_within m ranges ≡ any ranges (λ r. within_range r m.database_id m.table_id m.key)
unfolding any_within
any_within-any m [] = refl
any_within-any m (r ∷ ranges) =
    ap (λ b. within_range r m.database_id m.table_id m.key || b) (any_within-any m ranges)

pub scan-Found : (m : FindKeyRangeRequest) (groups : Groups) → Found m groups (scan m groups)
unfolding scan
scan-Found m [] = tt
scan-Found m ((g, key_space ranges generation) ∷ groups) =
    if_cases (Found m ((g, key_space ranges generation) ∷ groups)) (any_within m ranges) _ _
      (λ w. (ranges, generation, ([], groups, refl, tt, sym (any_within-any m ranges) ∙ w)))
      (λ w.
        Found-cons m (g, key_space ranges generation) groups (scan m groups)
          (sym (any_within-any m ranges) ∙ w) (scan-Found m groups))
scan-Found m ((g, new_key_space ranges new_ranges generation) ∷ groups) =
    if_cases (Found m ((g, new_key_space ranges new_ranges generation) ∷ groups))
      (any_within m new_ranges) _ _
      (λ w. (ranges, ([], groups, refl, tt, sym (any_within-any m new_ranges) ∙ w)))
      (λ w.
        Found-cons m (g, new_key_space ranges new_ranges generation) groups (scan m groups)
          (sym (any_within-any m new_ranges) ∙ w) (scan-Found m groups))

pub first_free-none : (groups : Groups) → first_free groups ≡ none → All IsChanging groups
unfolding first_free
first_free-none [] e = tt
first_free-none ((g, key_space ranges generation) ∷ groups) e = absurd (ground (arith, e))
first_free-none ((g, new_key_space ranges new_ranges generation) ∷ groups) e =
    (tt, first_free-none groups e)

pub first_free-IsFree :
    (groups : Groups) (free : SlaveGroupId × (List KeySpaceRange × ℕ))
    → first_free groups ≡ some free
    → IsFree free.0 free.1.0 free.1.1 groups
unfolding first_free
first_free-IsFree [] free e = absurd (ground (arith, e))
first_free-IsFree ((g, key_space ranges generation) ∷ groups) free e =
    subst
      (λ (f : SlaveGroupId × (List KeySpaceRange × ℕ)).
        IsFree f.0 f.1.0 f.1.1 ((g, key_space ranges generation) ∷ groups))
      (some_inj e) ([], groups, refl, tt)
first_free-IsFree ((g, new_key_space ranges new_ranges generation) ∷ groups) free e =
    let (before, after, same, changing) = first_free-IsFree groups free e in
    (
      (g, new_key_space ranges new_ranges generation) ∷ before,
      after,
      ap (λ xs. (g, new_key_space ranges new_ranges generation) ∷ xs) same,
      (tt, changing),
    )
