-- ===== src/Server/LogSyncer/Round.antt =====
-- One round of syncing by src/server/LogSyncer.cc, of a node and a peer.
use universal_db.Base.{
  ℕ, zero, suc, ◌+◌, ◌-◌, ◌<◌, ◌≡◌, refl, sym, subst, ap, ◌∙◌, false, some, is_some, Bool-cases,
  ◌++◌, Option, none, List, [], ◌∷◌, arith, ltb, leb, to_u32, u32_mod, u64_mod, if◌then◌else◌,
  Option-cases, inl, inr, if_cases, All, All-append,
}
use universal_db.Base.Eq.{nat_eq}
use universal_db.Base.Assoc.{find, has, insert, find-insert}
use universal_db.Base.Result.{ok, ok-injective, >>=-eq-ok}
use universal_db.Proto.Paxos.{PaxosLogEntry}
use universal_db.Proto.Sync.{IndexSubArray, SyncRequest, EntryWithIndex, SyncResponse}
use universal_db.Paxos.Log.{PaxosLog, get_entry, next_available_index, invoke_from}
use universal_db.Paxos.Log.Invariant.{IsValid, least}
use universal_db.Paxos.Log.Delivery.{set_entry-Kept, set_entry_total, Replays, invoke_from_ext}
use universal_db.Server.LogSyncer.{
  build_sync_request, build_sync_response, collect, collect_missing, set_entries,
  handle_sync_response,
}
use universal_db.Server.LogSyncer.Request.{build_sync_request-covers}
use universal_db.Server.LogSyncer.Response.{given, build_sync_response_lem}

find-joined :
    (j : ℕ) (xs ys : List (ℕ × PaxosLogEntry))
    → find j (xs ++ ys) ≡ (if has j xs then find j xs else find j ys)
unfolding find
find-joined j [] ys = refl
find-joined j ((i, x) ∷ xs) ys = ground (arith, find-joined j xs ys)

module _ {S : Type 0} where
  -- The log is well formed, the state is still what the callbacks make of its entries, and it has
  -- the entries of the old log and, where that has none, the ones that are offered.
  pub record Gained (offered : ℕ → Option PaxosLogEntry) (l l' : PaxosLog S) (start s' : S)
      : Type 0 where
    pub valid : IsValid l'
    pub derived : invoke_from (least valid) 0 l' start ≡ ok s'
    pub entries : (j : ℕ) → find j l'.log ≡ (if has j l.log then find j l.log else offered j)

  -- The entries of a node, and where it has none those of a peer, with the callbacks of the node.
  abbrev pub joined : PaxosLog S → PaxosLog S → PaxosLog S
  joined node peer = record node { log = node.log ++ peer.log }

  abbrev Within : PaxosLog S → PaxosLog S → Type 0
  Within m l = (j : ℕ) (e : PaxosLogEntry) → find j l.log ≡ some e → find j m.log ≡ some e

  -- What a log lacks of the entries, the greater log has.
  abbrev Offers : PaxosLog S → List EntryWithIndex → PaxosLog S → Type 0
  Offers m es l =
      (j : ℕ) (e : PaxosLogEntry)
      → has j l.log ≡ false
      → given j es ≡ some e
      → find j m.log ≡ some e

  Replays-Within :
      (start : S) (m l : PaxosLog S)
      → l.callbacks ≡ m.callbacks
      → Within m l
      → Replays start m
      → Replays start l
  Replays-Within start m l c within replays n there =
      let (t, ran) = replays n (λ j h. elim (Option-cases (find j l.log)) [
        | inl absent ↦ absurd (ground (arith, there j h, absent))
        | inr (e, found) ↦ ap is_some (within j e found)
      ]) in
      (
        t,
        invoke_from_ext n 0 l m start c (λ j _ h. elim (Option-cases (find j l.log)) [
          | inl absent ↦ absurd (ground (arith, there j (omega arith), absent))
          | inr (e, found) ↦ found ∙ sym (within j e found)
        ])
            ∙ ran,
      )

  set_entries-Gained :
      (es : List EntryWithIndex) (m l : PaxosLog S) (start s : S) (v : IsValid l)
      → All (λ e. e.index + 1 < u64_mod) es
      → invoke_from (least v) 0 l start ≡ ok s
      → l.callbacks ≡ m.callbacks
      → Within m l
      → Offers m es l
      → Replays start m
      → (r : PaxosLog S × S) × (set_entries es l s ≡ ok r)
        × Gained (λ j. given j es) l r.0 start r.1
  unfolding set_entries given
  set_entries-Gained [] m l start s v w d c within offers replays =
      ((l, s), refl, record { valid = v; derived = d; entries = λ j. ground arith })
  set_entries-Gained (x ∷ xs) m l start s v w d c within offers replays =
      let longer = record l { log = insert x.index x.entry l.log } in
      let within' : Within m longer = λ j e h. (elim (Bool-cases (has j l.log)) [
        | inl there ↦ within j e (ground (arith, there, h, find-insert x.index j x.entry l.log))
        | inr absent ↦
            offers j e absent (ground (arith, absent, h, find-insert x.index j x.entry l.log))
      ]) in
      let ((l', t), first) =
        set_entry_total x.index x.entry l v start s w.0 d
          (Replays-Within start m longer c within' replays) in
      let k = set_entry-Kept x.index x.entry l v start s t l' w.0 d first in
      let (r, rest, g) =
        set_entries-Gained xs m l' start t k.valid w.1 k.derived (k.same_callbacks ∙ c)
          (λ j e h. within' j e (find-insert x.index j x.entry l.log ∙ sym (k.entries j) ∙ h))
          (λ j e absent h.
            offers j e (ground (arith, absent, k.entries j))
              (ground (arith, absent, k.entries j, h)))
          replays in
      (
        r,
        rw first rest,
        record {
          valid = g.valid;
          derived = g.derived;
          entries = λ j. ground (arith, g.entries j, k.entries j);
        },
      )

  collect-narrow :
      (count i : ℕ) (l : PaxosLog S) → All (λ e. e.index + 1 < u64_mod) (collect count i l)
  unfolding collect to_u32
  collect-narrow zero i l = tt
  collect-narrow (suc count) i l = elim (Option-cases (get_entry i l)) [
    | inl absent ↦ rw (absent, collect) (collect-narrow count (i + 1) l)
    | inr (entry, there) ↦ rw (there, collect) (omega arith, collect-narrow count (i + 1) l)
  ]

  collect_missing-narrow :
      (cur : ℕ) (subs : List IndexSubArray) (l : PaxosLog S)
      → All (λ e. e.index + 1 < u64_mod) (collect_missing cur subs l)
  unfolding collect_missing
  collect_missing-narrow cur [] l = tt
  collect_missing-narrow cur (x ∷ xs) l =
      let end = if ltb cur x.end then cur else x.end in
      if_cases (All _) (leb cur x.start) _ _ (λ _. tt)
        (λ _.
          All-append _ _ _ (collect-narrow ((end + 1) - x.start) x.start l)
            (collect_missing-narrow cur xs l))

  response-narrow :
      (l : PaxosLog S) (request : SyncRequest) (response : SyncResponse)
      → build_sync_response l request ≡ ok response
      → All (λ e. e.index + 1 < u64_mod) response.missing_entries
  unfolding build_sync_response
  response-narrow l request response e =
      let (cur, _, f) = >>=-eq-ok (next_available_index l) _ e in
      subst (λ (x : SyncResponse). All (λ e. e.index + 1 < u64_mod) x.missing_entries)
        (ok-injective f)
        (All-append _ _ _ (collect_missing-narrow cur request.missing_indices l)
          (if_cases (All _) (ltb request.last_index cur) _ _ (λ _. collect-narrow _ _ l) (λ _. tt)))

  -- One round of syncing, in which a node builds its request, a peer answers, and the node sets
  -- the entries of the answer. If the state of the node is what its callbacks make of its log, and
  -- they throw nothing when they are called in the order of the indices on the entries that the
  -- two logs have between them, up to the first index that both lack, then nothing in the round
  -- throws, and afterwards the node's log has, beside its own entries, those of the peer below the
  -- peer's least available index, and no others. Its state is still what the callbacks make of its
  -- log. The peer's least available index is that of a uint32, and the node's greatest one that of
  -- a uint64.
  pub sync_round :
      (node peer : PaxosLog S) (start s : S) (v : IsValid node) (u : IsValid peer)
      → v.top < u64_mod
      → least u + 1 < u32_mod
      → invoke_from (least v) 0 node start ≡ ok s
      → Replays start (joined node peer)
      → (request : SyncRequest) × (response : SyncResponse) × (r : PaxosLog S × S)
        × (build_sync_request node.available_indices ≡ ok request)
        × (build_sync_response peer request ≡ ok response)
        × (handle_sync_response response node s ≡ ok r)
        × Gained (λ j. if ltb j (least u) then find j peer.log else none) node r.0 start r.1
  unfolding handle_sync_response
  sync_round node peer start s v u w x d replays =
      let (request, asked, ascends, covers) = build_sync_request-covers node v w in
      let (response, answered, gives) = build_sync_response_lem peer u request x ascends in
      let (r, done, g) =
        set_entries-Gained response.missing_entries (joined node peer) node start s v
          (response-narrow peer request response answered) d refl
          (λ j e h. find-joined j node.log peer.log ∙ ground (arith, h))
          (λ j e absent h. find-joined j node.log peer.log ∙ ground (arith, absent, h, gives j))
          replays in
      (
        request,
        response,
        r,
        asked,
        answered,
        done,
        record {
          valid = g.valid;
          derived = g.derived;
          entries = λ j. ground (arith, g.entries j, gives j, covers j);
        },
      )
