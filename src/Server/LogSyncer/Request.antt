-- ===== src/Server/LogSyncer/Request.antt =====
-- The sub-arrays that `build_sync_request` of src/server/LogSyncer.cc makes.
use universal_db.Base.{
  ℕ, suc, ◌+◌, ◌≤◌, ◌<◌, ◌≡◌, refl, sym, ap, subst, All-append, ◌∙◌, Bool, false, not, ◌&&◌, ◌||◌,
  List, [], ◌∷◌, arith, ltb, leb, inc64, inc64_lem, u64_mod, last, Bool-cases, inl, inr,
}
use universal_db.Base.Eq.{◌==◌, nat_eq, contains, contains-append}
use universal_db.Base.Assoc.{has}
use universal_db.Base.Result.{ok, ok-injective}
use universal_db.Proto.Sync.{IndexSubArray, SyncRequest}
use universal_db.Paxos.Log.{PaxosLog}
use universal_db.Paxos.Log.Invariant.{IsValid}
use universal_db.Paxos.Log.Indices.{
  Ascending, Below, first_of, rest_of, first-rest, last-first-rest, contains_high, Ascending-append,
  Below-mono,
}
use universal_db.Server.LogSyncer.{split_indices, build_sync_request}

-- The index is in one of the sub-arrays, both ends of which are inclusive.
unfoldable pub covered : ℕ → List IndexSubArray → Bool
covered j [] = false
covered j (a ∷ more) = leb a.start j && leb j a.end || covered j more

-- The sub-arrays start from `low` on, in ascending order.
abbrev pub StartsAscend : ℕ → List IndexSubArray → Type 0
StartsAscend low [] = Unit {0}
StartsAscend low (a ∷ more) = (low ≤ a.start) × StartsAscend a.start more

pub StartsAscend-mono :
    (m n : ℕ) (subs : List IndexSubArray) → m ≤ n → StartsAscend n subs → StartsAscend m subs
StartsAscend-mono m n [] h a = tt
StartsAscend-mono m n (x ∷ xs) h a = (omega arith, a.1)

pub covered_low :
    (j low : ℕ) (xs : List IndexSubArray) → StartsAscend low xs → j < low → covered j xs ≡ false
unfolding covered
covered_low j low [] a h = refl
covered_low j low (x ∷ xs) a h = ground (arith, covered_low j x.start xs a.1 (omega arith))

split_indices-covered :
    (j previous : ℕ) (current : IndexSubArray) (is : List ℕ)
    → current.end ≡ previous
    → current.start ≤ previous
    → previous < u64_mod
    → Ascending (suc previous) is
    → Below u64_mod is
    → (covered j (split_indices previous current is)
        ≡ (leb current.start j && leb j previous || contains j is))
      × StartsAscend current.start (split_indices previous current is)
unfolding split_indices covered
split_indices-covered j previous current [] e s w a b = (ground arith, (omega arith, tt))
split_indices-covered j previous current (i ∷ is) e s w a b =
    elim (Bool-cases (inc64 previous == i)) [
      | inl consecutive ↦
          let p : previous + 1 ≡ i = ground (arith, inc64_lem previous (omega arith)) in
          let q : inc64 current.end ≡ i = ap inc64 e ∙ inc64_lem previous (omega arith) ∙ p in
          let (r, t) =
            split_indices-covered j i (record current { end = inc64 current.end }) is q
              (omega arith) b.0 a.1 b.1 in
          (rw consecutive (ground (arith, r)), rw consecutive t)
      | inr apart ↦
          let (r, t) =
            split_indices-covered j i (record { start = i; end = i }) is refl (omega arith) b.0 a.1
              b.1 in
          (
            rw apart (ground (arith, r)),
            rw apart (omega arith, StartsAscend-mono _ _ _ (omega arith) t),
          )
    ]

available_covered :
    (j : ℕ) (available : List ℕ) (request : SyncRequest)
    → Ascending 0 available
    → Below u64_mod available
    → build_sync_request available ≡ ok request
    → (covered j request.missing_indices ≡ contains j available)
      × StartsAscend 0 request.missing_indices
unfolding build_sync_request
available_covered j [] request a b e = absurd (ground arith)
available_covered j (first ∷ rest) request a b e =
    let (r, t) =
      split_indices-covered j first (record { start = first; end = first }) rest refl (omega arith)
        b.0 a.1 b.1 in
    let m = ap (λ (x : SyncRequest). x.missing_indices) (ok-injective e) in
    (
      ap (covered j) (sym m) ∙ r ∙ ground arith,
      subst (StartsAscend 0) m (StartsAscend-mono 0 first _ (omega arith) t),
    )

module _ {S : Type 0} (l : PaxosLog S) (v : IsValid l) where
  -- The request of a node is built, and says exactly which indices its log lacks: one up to the
  -- last index of the request is in a sub-array if and only if it is missing, and all above are
  -- missing.
  pub build_sync_request-covers :
      v.top < u64_mod
      → (request : SyncRequest) × (build_sync_request l.available_indices ≡ ok request)
        × StartsAscend 0 request.missing_indices
        × ((j : ℕ)
            → (covered j request.missing_indices || ltb request.last_index j) ≡ not (has j l.log))
  unfolding build_sync_request
  build_sync_request-covers w =
      let e : build_sync_request l.available_indices ≡ ok built = built_lem in
      (
        built,
        e,
        (available_covered 0 l.available_indices built ascends bounded e).1,
        λ j. ground (
          arith,
          (available_covered j l.available_indices built ascends bounded e).0,
          ap (contains j) v.shape ∙ contains-append j v.init (v.top ∷ []),
          v.agree j,
          contains_high v.top v.init j v.below,
          last-first-rest v.init v.top,
        ),
      )
    where
      built : SyncRequest
      built = record {
        missing_indices =
            split_indices (first_of v.init v.top)
              (record { start = first_of v.init v.top; end = first_of v.init v.top })
              (rest_of v.init v.top);
        last_index = last (first_of v.init v.top) (rest_of v.init v.top);
      }

      built_lem : build_sync_request l.available_indices ≡ ok built
      built_lem = ap build_sync_request (v.shape ∙ first-rest v.init v.top)

      ascends : Ascending 0 l.available_indices
      ascends = subst (Ascending 0) (sym v.shape) (
          Ascending-append 0 v.top v.init (v.top ∷ []) v.ascending v.below (omega arith)
            (omega arith, tt))

      bounded : Below u64_mod l.available_indices
      bounded = subst (Below u64_mod) (sym v.shape) (
          All-append _ v.init (v.top ∷ []) (Below-mono v.top u64_mod v.init (omega arith) v.below)
            (w, tt))
