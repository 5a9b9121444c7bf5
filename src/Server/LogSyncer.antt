-- ===== src/Server/LogSyncer.antt =====
-- LogSyncer of src/server/LogSyncer.h and LogSyncer.cc: a node asks its peers for the entries that
-- its log lacks.
pub mod Request
pub mod Response
pub mod Round
pub mod Derived
mod Tests
use universal_db.Base.{
  ℕ, zero, suc, ◌+◌, ◌-◌, Bool, true, false, Option, none, some, List, [], ◌∷◌, ◌++◌, ltb, leb,
  inc64, to_u32, last, if◌then◌else◌,
}
use universal_db.Base.Eq.{◌==◌, nat_eq}
use universal_db.Base.Result.{Result, ok, thrown, undefined, ◌>>=◌}
use universal_db.Net.EndpointId.{EndpointId}
use universal_db.Net.Sent.{Sent, broadcast, send}
use universal_db.Proto.Sync.{
  IndexSubArray, SyncRequest, EntryWithIndex, SyncResponse, SyncMessage, sync_request,
  sync_response,
}
use universal_db.Paxos.Log.{PaxosLog, get_entry, next_available_index, set_entry}

-- The loop over the available indices: `previous` is `available_indices[i - 1]`, and the current
-- sub-array and those before it are the results.
unfoldable pub split_indices : ℕ → IndexSubArray → List ℕ → List IndexSubArray
split_indices previous current [] = current ∷ []
split_indices previous current (i ∷ is) =
    let longer = split_indices i (record current { end = inc64 current.end }) is in
    let next = current ∷ split_indices i (record { start = i; end = i }) is in
    if inc64 previous == i then longer else next

-- `available_indices[0]` of an empty vector is undefined.
unfoldable pub build_sync_request : List ℕ → Result SyncRequest
build_sync_request available_indices = elim available_indices [
  | [] ↦ thrown undefined
  | first ∷ rest ↦ ok (record {
    missing_indices = split_indices first (record { start = first; end = first }) rest;
    last_index = last first rest;
  })
]

module _ {S : Type 0} where
  -- The entries that the log has among the `count` indices from `i` on. The index of an entry in
  -- the response is a uint32.
  unfoldable pub collect : ℕ → ℕ → PaxosLog S → List EntryWithIndex
  collect zero i l = []
  collect (suc count) i l = elim (get_entry i l) [
    | none ↦ collect count (i + 1) l
    | some entry ↦ record { index = to_u32 i; entry = entry } ∷ collect count (i + 1) l
  ]

  -- The loop over the sub-arrays.
  unfoldable pub collect_missing : ℕ → List IndexSubArray → PaxosLog S → List EntryWithIndex
  collect_missing cur_last_index [] l = []
  collect_missing cur_last_index (a ∷ more) l =
      let end = if ltb cur_last_index a.end then cur_last_index else a.end in
      let rest = collect_missing cur_last_index more l in
      if leb cur_last_index a.start then [] else collect ((end + 1) - a.start) a.start l ++ rest

  unfoldable pub build_sync_response : PaxosLog S → SyncRequest → Result SyncResponse
  build_sync_response l request = do
    cur_last_index ← next_available_index l
    let holes = collect_missing cur_last_index request.missing_indices l
    let from = inc64 request.last_index
    let extra =
        if ltb request.last_index cur_last_index then collect (cur_last_index - from) from l else []
    ok (record { missing_entries = holes ++ extra })

  -- What the repeated task of `schedule_syncing` sends; `endpoints` is what `_get_endpoints`
  -- returns, and `_sync_message_to_wrapper` is applied to the message by the owner.
  unfoldable pub sync : List EndpointId → PaxosLog S → Result (List (Sent SyncMessage))
  sync endpoints l = do
    request ← build_sync_request l.available_indices
    ok (broadcast endpoints (sync_request request) ∷ [])

  unfoldable pub handle_sync_request :
      EndpointId → SyncRequest → PaxosLog S → Result (List (Sent SyncMessage))
  handle_sync_request endpoint_id request l = do
    response ← build_sync_response l request
    ok (send endpoint_id (sync_response response) ∷ [])

  -- The loop over the entries of a response.
  unfoldable pub set_entries : List EntryWithIndex → PaxosLog S → S → Result (PaxosLog S × S)
  set_entries [] l s = ok (l, s)
  set_entries (e ∷ es) l s = set_entry e.index e.entry l s >>= λ r. set_entries es r.0 r.1

  unfoldable pub handle_sync_response : SyncResponse → PaxosLog S → S → Result (PaxosLog S × S)
  unfolding set_entries
  handle_sync_response response = set_entries response.missing_entries
