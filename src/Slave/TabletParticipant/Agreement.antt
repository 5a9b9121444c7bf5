-- ===== src/Slave/TabletParticipant/Agreement.antt =====
-- The replicas of a tablet (src/slave/TabletParticipant.cc) beside one another.
use universal_db.Base.{ℕ, ◌≡◌, refl, sym, ap, ◌∙◌, Option, none, some, List, [], All}
use universal_db.Base.Eq.{nat_eq}
use universal_db.Base.Bytes.{Bytes, bytes_eq}
use universal_db.Base.Assoc.{find}
use universal_db.Base.Result.{ok, Ensures-ok}
use universal_db.Net.EndpointId.{EndpointId}
use universal_db.Paxos.Log.{PaxosLog, next_available_index}
use universal_db.Paxos.Multi.Shadowed.{SameEntries, same_shadow}
use universal_db.Slave.TabletParticipant.Shadow.{IsAhead}
use universal_db.Server.KeySpaceRange.{KeySpaceRange}
use universal_db.Slave.KvStore.{VersionEntry, MultiVersionEntry, KvStore}
use universal_db.Slave.KvStore.Raised.{Raised, IsRaised}
use universal_db.Slave.ClientRequestHandler.{TabletState}
use universal_db.Slave.IncomingMessageHandler.{TabletServer}
use universal_db.Slave.IncomingMessageHandler.Keeping.{Keeps}
use universal_db.Slave.TabletParticipant.{Event, run, new_participant, new_state, tablet_log}
use universal_db.Slave.TabletParticipant.Steps.{
  IsTracked, EventNarrow, run-Keeps, new_participant-Keeps,
}

-- The versions that a store has of a key.
unfoldable pub versions_of : Bytes → KvStore → List VersionEntry
versions_of key kvs = elim (find key kvs.mvkvs) [ none ↦ [] | some it ↦ it.versions ]

raised-versions_of :
    (key : Bytes) (s s' : KvStore) → IsRaised s s' → versions_of key s ≡ versions_of key s'
unfolding versions_of
raised-versions_of key s s' h = same (find key s.mvkvs) (find key s'.mvkvs) (h.at_key key)
  where
    same :
        (o o' : Option MultiVersionEntry)
        → Raised o o'
        → ◌≡◌ {A = List VersionEntry}
            (elim o [ none ↦ [] | some it ↦ it.versions ])
            (elim o' [ none ↦ [] | some it ↦ it.versions ])
    same none none r = refl
    same (some it) (some it') r = r.0
    same none (some _) r = absurd r
    same (some _) none r = absurd r

-- The same data, whatever has been read.
abbrev pub SameData : TabletState → TabletState → Type 0
SameData s t =
    (s.paxos_config_manager ≡ t.paxos_config_manager)
    × (s.request_id_map ≡ t.request_id_map)
    × ((key : Bytes) → versions_of key s.kvstore ≡ versions_of key t.kvstore)

related_alike :
    (endpoints : List EndpointId) (l m : PaxosLog TabletState) (s t : TabletState)
    → IsTracked endpoints l s
    → IsTracked endpoints m t
    → SameEntries l m
    → next_available_index l ≡ next_available_index m
    → SameData s t
related_alike endpoints l m s t r q agree e = (
  r.related.same_configs ∙ ap (λ x. x.paxos_config_manager) shadows ∙ sym q.related.same_configs,
  r.related.same_requests ∙ ap (λ x. x.request_id_map) shadows ∙ sym q.related.same_requests,
  λ key.
      raised-versions_of key s.kvstore r.shadow.kvstore r.related.raised
      ∙ ap (λ x. versions_of key x.kvstore) shadows
      ∙ sym (raised-versions_of key t.kvstore q.shadow.kvstore q.related.raised),
)
  where
    shadows : r.shadow ≡ q.shadow
    shadows = same_shadow IsAhead tablet_log.callbacks (new_state endpoints) l m s t r q agree e

-- Two replicas of a tablet that are built alike, and run on through any messages, any calls of
-- their tasks and any rounds of syncing, have the same versions of every key, the same request ids
-- and the same configurations, whenever their least available indices are equal and their logs
-- agree where both have an entry. The indices in messages are those of a uint32.
pub tablets_agree :
    (tablet_id : KeySpaceRange) (endpoints : List EndpointId) (num_slave_servers : ℕ)
    (random random' : ℕ → ℕ) (es es' : List Event) (t t' : TabletServer)
    → All EventNarrow es
    → All EventNarrow es'
    → run num_slave_servers random es (new_participant tablet_id endpoints) ≡ ok t
    → run num_slave_servers random' es' (new_participant tablet_id endpoints) ≡ ok t'
    → SameEntries t.tablet.log t'.tablet.log
    → next_available_index t.tablet.log ≡ next_available_index t'.tablet.log
    → SameData t.tablet.state t'.tablet.state
tablets_agree tablet_id endpoints n random random' es es' t t' w w' ran ran' agree e =
    related_alike endpoints t.tablet.log t'.tablet.log t.tablet.state t'.tablet.state
      (tracked random es t w ran) (tracked random' es' t' w' ran') agree e
  where
    tracked :
        (random : ℕ → ℕ) (es : List Event) (t : TabletServer)
        → All EventNarrow es
        → run n random es (new_participant tablet_id endpoints) ≡ ok t
        → IsTracked endpoints t.tablet.log t.tablet.state
    tracked random es t w ran =
        (Ensures-ok (Keeps (IsTracked endpoints))
          (run n random es (new_participant tablet_id endpoints))
          (run-Keeps endpoints n random es (new_participant tablet_id endpoints) w
            (new_participant-Keeps endpoints tablet_id))
          ran).1
