-- ===== src/Paxos/Log.antt =====
-- PaxosLog of src/paxos/PaxosLog.h and PaxosLog.cc. A callback is a function on the state `S` that
-- the components of the node derive from the log; `set_entry` passes that state on.
pub mod Indices
pub mod Invariant
pub mod Delivery
pub mod Keeping
pub mod Replicas
mod Tests
use universal_db.Base.{
  ℕ, zero, suc, ◌+◌, ◌-◌, Bool, true, false, not, ◌&&◌, Option, none, some, List, [], ◌∷◌, ◌++◌,
  ltb, leb, inc64, last, is_some, if◌then◌else◌,
}
use universal_db.Base.Eq.{◌==◌, nat_eq, contains, erase}
use universal_db.Base.Assoc.{find, has, insert, assign}
use universal_db.Base.Result.{Result, ok, thrown, assertion, undefined, assert, ◌>>=◌, ◌>>◌}
use universal_db.Proto.Paxos.{PaxosLogEntry, entry_content_case}

abbrev pub Callback : Type 0 → Type 0
Callback S = ℕ → PaxosLogEntry → S → Result S

pub record PaxosLog (S : Type 0) : Type 0 where
  pub log : List (ℕ × PaxosLogEntry)
  pub available_indices : List ℕ
  pub callbacks : List (ℕ × List (Callback S))

-- `for (i = from; i < from + count; i++) v.push_back(i)`
unfoldable pub push_indices : ℕ → ℕ → List ℕ
push_indices zero from = []
push_indices (suc count) from = from ∷ push_indices count (from + 1)

-- How `set_entry` changes `_available_indices`.
unfoldable pub take_index : ℕ → ℕ → List ℕ → List ℕ
unfolding push_indices
take_index index last_index available =
    if ltb index last_index
    then erase index available
    else if index == last_index
    then erase index available ++ inc64 index ∷ []
    else available
      ++ (push_indices (index - inc64 last_index) (inc64 last_index) ++ inc64 index ∷ [])

module _ {S : Type 0} where
  -- The constructor with no argument.
  unfoldable pub new_log : PaxosLog S
  new_log = record { log = []; available_indices = 0 ∷ []; callbacks = [] }

  unfoldable pub get_entry : ℕ → PaxosLog S → Option PaxosLogEntry
  get_entry index l = find index l.log

  unfoldable pub next_available_index : PaxosLog S → Result ℕ
  next_available_index l = elim l.available_indices [
    | [] ↦ thrown assertion
    | first ∷ _ ↦ do assert (not (has first l.log)); ok first
  ]

  unfoldable pub add_callback : ℕ → Callback S → PaxosLog S → PaxosLog S
  add_callback content_case callback l = elim (find content_case l.callbacks) [
    | none ↦ record l { callbacks = assign content_case (callback ∷ []) l.callbacks }
    | some cs ↦ record l { callbacks = assign content_case (cs ++ callback ∷ []) l.callbacks }
  ]

  -- The loop over the callbacks of one entry.
  unfoldable pub call_all : List (Callback S) → ℕ → PaxosLogEntry → S → Result S
  call_all [] i entry s = ok s
  call_all (c ∷ cs) i entry s = c i entry s >>= λ s'. call_all cs i entry s'

  -- `_callbacks.find(entry.entry_content_case())` and the loop over what it finds.
  unfoldable pub invoke : List (ℕ × List (Callback S)) → ℕ → PaxosLogEntry → S → Result S
  unfolding call_all
  invoke callbacks i entry s = elim (find (entry_content_case entry) callbacks) [
    | none ↦ ok s
    | some cs ↦ call_all cs i entry s
  ]

  -- The loop over the newly contiguous entries, `count` of them from `i` on. `_log[i]` of an index
  -- that is not in the map would put the default entry there.
  unfoldable pub invoke_from : ℕ → ℕ → PaxosLog S → S → Result S
  invoke_from zero i l s = ok s
  invoke_from (suc count) i l s = elim (find i l.log) [
    | none ↦ thrown undefined
    | some entry ↦ invoke l.callbacks i entry s >>= λ s'. invoke_from count (i + 1) l s'
  ]

  -- `set_entry` with `_available_indices` taken apart; it may not be empty.
  unfoldable pub set_entry_at :
      ℕ → PaxosLogEntry → ℕ → List ℕ → PaxosLog S → S → Result (PaxosLog S × S)
  set_entry_at index entry first rest l s = do
    first_available_index ← next_available_index l
    if leb index (last first rest) && not (contains index (first ∷ rest)) then ok (l, s) else (do
      let l' = record l {
        log = insert index entry l.log;
        available_indices = take_index index (last first rest) (first ∷ rest);
      }
      next_first_available_index ← next_available_index l'
      s' ←
          invoke_from (next_first_available_index - first_available_index) first_available_index l'
            s
      ok (l', s'))

  unfoldable pub set_entry : ℕ → PaxosLogEntry → PaxosLog S → S → Result (PaxosLog S × S)
  set_entry index entry l s = elim l.available_indices [
    | [] ↦ thrown assertion
    | first ∷ rest ↦ set_entry_at index entry first rest l s
  ]

  -- The loop of the constructor that takes a log.
  unfoldable pub set_all : List (ℕ × PaxosLogEntry) → PaxosLog S → S → Result (PaxosLog S × S)
  set_all [] l s = ok (l, s)
  set_all ((index, entry) ∷ more) l s = set_entry index entry l s >>= λ r. set_all more r.0 r.1
