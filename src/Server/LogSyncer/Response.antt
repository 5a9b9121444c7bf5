-- ===== src/Server/LogSyncer/Response.antt =====
-- `build_sync_response` of src/server/LogSyncer.cc: what a peer answers.
use universal_db.Base.{
  ℕ, zero, suc, ◌+◌, ◌-◌, ◌≤◌, ◌<◌, ◌≡◌, refl, ◌∙◌, ◌&&◌, ◌||◌, Option, none, some, List, [], ◌∷◌,
  ◌++◌, arith, ltb, leb, inc64, inc64_lem, to_u32_lem, u32_mod, if◌then◌else◌, Bool-cases,
  Option-cases, inl, inr,
}
use universal_db.Base.Eq.{◌==◌, nat_eq}
use universal_db.Base.Assoc.{find}
use universal_db.Base.Result.{ok}
use universal_db.Proto.Paxos.{PaxosLogEntry}
use universal_db.Proto.Sync.{IndexSubArray, SyncRequest, EntryWithIndex, SyncResponse}
use universal_db.Paxos.Log.{PaxosLog, get_entry}
use universal_db.Paxos.Log.Invariant.{IsValid, least, least_absent, next_available_index-eq}
use universal_db.Server.LogSyncer.{build_sync_response, collect, collect_missing}
use universal_db.Server.LogSyncer.Request.{covered, covered_low, StartsAscend}

-- The entry that a response gives for an index.
unfoldable pub given : ℕ → List EntryWithIndex → Option PaxosLogEntry
given j [] = none
given j (e ∷ es) = if e.index == j then some e.entry else given j es

given-append :
    (j : ℕ) (xs ys : List EntryWithIndex)
    → given j (xs ++ ys) ≡ elim (given j xs) [ some entry ↦ some entry | none ↦ given j ys ]
unfolding given
given-append j [] ys = refl
given-append j (x ∷ xs) ys = ground (arith, given-append j xs ys)

module _ {S : Type 0} (l : PaxosLog S) where
  given-collect :
      (count i j : ℕ)
      → i + count ≤ u32_mod
      → given j (collect count i l) ≡ (if leb i j && ltb j (i + count) then find j l.log else none)
  unfolding given collect get_entry
  given-collect zero i j h = ground arith
  given-collect (suc count) i j h = elim (Option-cases (find i l.log)) [
    | inl absent ↦ ground (arith, absent, given-collect count (i + 1) j (omega arith))
    | inr (entry, there) ↦
        ground
          (arith, there, given-collect count (i + 1) j (omega arith), to_u32_lem i (omega arith))
  ]

  given-collect_missing :
      (j cur low : ℕ) (subs : List IndexSubArray)
      → cur + 1 < u32_mod
      → find cur l.log ≡ none
      → StartsAscend low subs
      → given j (collect_missing cur subs l)
        ≡ (if covered j subs && ltb j cur then find j l.log else none)
  unfolding given collect_missing covered
  given-collect_missing j cur low [] w n a = refl
  given-collect_missing j cur low (x ∷ xs) w n a = elim (Bool-cases (leb cur x.start)) [
    | inl past ↦ elim (Bool-cases (ltb j cur)) [
      | inl below ↦ ground (arith, past, below, covered_low j x.start xs a.1 (ground arith))
      | inr above ↦ ground (arith, past, above)
    ]
    | inr before ↦
        let end = if ltb cur x.end then cur else x.end in
        ground (
          arith,
          before,
          n,
          given-append j (collect ((end + 1) - x.start) x.start l) (collect_missing cur xs l),
          given-collect ((end + 1) - x.start) x.start j (ground arith),
          given-collect_missing j cur x.start xs w n a.1,
        )
  ]

  -- A response is built, and gives just the entries that the request asks for and the log has
  -- below its least available index.
  pub build_sync_response_lem :
      (v : IsValid l) (request : SyncRequest)
      → least v + 1 < u32_mod
      → StartsAscend 0 request.missing_indices
      → (response : SyncResponse) × (build_sync_response l request ≡ ok response)
        × ((j : ℕ)
            → given j response.missing_entries ≡ (
                if (covered j request.missing_indices || ltb request.last_index j)
                  && ltb j (least v)
                then find j l.log
                else none))
  unfolding build_sync_response given
  build_sync_response_lem v request w a = (
    record { missing_entries = holes ++ extra },
    rw (next_available_index-eq l v) refl,
    λ j.
        given-append j holes extra
        ∙ rw (given-collect_missing j (least v) 0 request.missing_indices w absent a)
            (given_extra j),
  )
    where
      holes : List EntryWithIndex
      holes = collect_missing (least v) request.missing_indices l

      extra : List EntryWithIndex
      extra =
          if ltb request.last_index (least v)
          then collect (least v - inc64 request.last_index) (inc64 request.last_index) l
          else []

      absent : find (least v) l.log ≡ none
      absent = elim (Option-cases (find (least v) l.log)) [
        | inl e ↦ e
        | inr (x, e) ↦ absurd (ground (arith, e, least_absent l v))
      ]

      given_extra :
          (j : ℕ)
          → elim (if covered j request.missing_indices && ltb j (least v)
              then find j l.log
              else none) [ some entry ↦ some entry | none ↦ given j extra ]
            ≡ (if (covered j request.missing_indices || ltb request.last_index j) && ltb j (least v)
                then find j l.log
                else none)
      given_extra j = elim (Bool-cases (ltb request.last_index (least v))) [
        | inr not_beyond ↦ ground (arith, not_beyond)
        | inl beyond ↦
            let last_next : inc64 request.last_index ≡ request.last_index + 1 =
              inc64_lem request.last_index (ground arith) in
            ground (
              arith,
              beyond,
              last_next,
              given-collect (least v - inc64 request.last_index) (inc64 request.last_index) j
                  (ground (arith, last_next)),
            )
      ]
