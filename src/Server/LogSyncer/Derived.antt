-- ===== src/Server/LogSyncer/Derived.antt =====
-- The log of a node, and the state that is derived from it, under the responses that
-- `handle_sync_response` of src/server/LogSyncer.cc takes.
use universal_db.Base.{ℕ, ◌+◌, u64_mod, ◌<◌, List, [], ◌∷◌, arith, u32_mod, All}
use universal_db.Base.Result.{Ensures, Ensures-ok, Ensures-bind}
use universal_db.Proto.Paxos.{PaxosLogEntry}
use universal_db.Proto.Sync.{EntryWithIndex}
use universal_db.Paxos.Log.{PaxosLog, set_entry}
use universal_db.Paxos.Multi.Derived.{IsDerived, set_entry-IsDerived}
use universal_db.Server.LogSyncer.{set_entries}

-- The index of an entry in a response is a uint32.
abbrev pub IsNarrow : List EntryWithIndex → Type 0
IsNarrow = All (λ e. e.index < u32_mod)

pub set_entries-keeps :
    {S : Type 0}
    → (Q : PaxosLog S → S → Type 0)
    → ((index : ℕ) (entry : PaxosLogEntry) (l : PaxosLog S) (s : S)
        → index + 1 < u64_mod
        → Q l s
        → Ensures (λ r. Q r.0 r.1) (set_entry index entry l s))
    → (es : List EntryWithIndex) (l : PaxosLog S) (s : S) → IsNarrow es
    → Q l s
    → Ensures (λ r. Q r.0 r.1) (set_entries es l s)
unfolding set_entries
set_entries-keeps Q set_entry-Q [] l s w q = q
set_entries-keeps Q set_entry-Q (x ∷ xs) l s w q =
    Ensures-bind _ (set_entry x.index x.entry l s) _ λ r e.
      set_entries-keeps Q set_entry-Q xs r.0 r.1 w.1 (
        Ensures-ok _ (set_entry x.index x.entry l s)
          (set_entry-Q x.index x.entry l s (omega (arith, w.0)) q) e)

pub set_entries-IsDerived :
    {S : Type 0}
    → (start : S) (es : List EntryWithIndex) (l : PaxosLog S) (s : S) → IsNarrow es
    → IsDerived start l s
    → Ensures (λ r. IsDerived start r.0 r.1) (set_entries es l s)
set_entries-IsDerived start = set_entries-keeps (IsDerived start) (set_entry-IsDerived start)
