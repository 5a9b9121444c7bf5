-- ===== src/Slave/TabletParticipant/Shadow.antt =====
-- The state of a tablet (src/slave/TabletParticipant.cc) beside what the callbacks of its log make
-- of the log alone: the tasks of src/slave/ClientRequestHandler.cc read the store in between.
use universal_db.Base.{ℕ, ◌≡◌, refl, sym, ap, ◌∙◌, [], ◌∷◌}
use universal_db.Base.Eq.{nat_eq}
use universal_db.Base.Bytes.{bytes_eq}
use universal_db.Base.Assoc.{find, insert, assign}
use universal_db.Base.Result.{Result, ok, Ensures, Ensures-ok, Ensures-bind}
use universal_db.Proto.Paxos.{PaxosLogEntry, string_value, uint64_value, entry_content_case}
use universal_db.Proto.Paxos
use universal_db.Paxos.Config.{on_reconfig_started, reconfigure, urls_of}
use universal_db.Paxos.Log.{Callback, add_callback, new_log, call_all, invoke}
use universal_db.Slave.KvStore
use universal_db.Slave.KvStore.Raised.{IsRaised, write-IsRaised}
use universal_db.Slave.KvStore.Raised.Reads.{read-IsRaised}
use universal_db.Slave.ClientRequestHandler.{
  TabletState, on_read, on_write, read_of, write_of, register,
}
use universal_db.Slave.TabletParticipant.{tablet_log, on_reconfig}

-- The same configurations, request ids and versions, and no earlier accesses.
pub record IsAhead (s s' : TabletState) : Type 0 where
  pub same_configs : s.paxos_config_manager ≡ s'.paxos_config_manager
  pub same_requests : s.request_id_map ≡ s'.request_id_map
  pub raised : IsRaised s.kvstore s'.kvstore

abbrev AlikeStates : Result TabletState → Result TabletState → Type 0
AlikeStates once again = Ensures (λ s. (s' : TabletState) × (again ≡ ok s') × IsAhead s s') once

on_read-Alike :
    (i : ℕ) (entry : PaxosLogEntry) (s s' : TabletState)
    → IsAhead s s'
    → AlikeStates (on_read i entry s) (on_read i entry s')
unfolding on_read
on_read-Alike i entry s s' h =
    let m = read_of entry in
    Ensures-bind _ (KvStore.read (string_value m.key) (uint64_value m.timestamp) s.kvstore) _ λ r e.
      let (r', e', _, both, _) =
        Ensures-ok _ (KvStore.read (string_value m.key) (uint64_value m.timestamp) s.kvstore)
          (read-IsRaised (string_value m.key) (uint64_value m.timestamp) s.kvstore s'.kvstore
            h.raised)
          e in
      rw e' (
        _,
        refl,
        record {
          same_configs = h.same_configs;
          same_requests = ap (λ x. insert (string_value m.request_id) i x) h.same_requests;
          raised = both;
        },
      )

on_write-Alike :
    (i : ℕ) (entry : PaxosLogEntry) (s s' : TabletState)
    → IsAhead s s'
    → AlikeStates (on_write i entry s) (on_write i entry s')
unfolding on_write
on_write-Alike i entry s s' h =
    let m = write_of entry in
    let once =
      KvStore.write (string_value m.key) (string_value m.value) (uint64_value m.timestamp)
        s.kvstore in
    Ensures-bind _ once _ λ r e.
      let (r', e', both) =
        Ensures-ok _ once
          (write-IsRaised (string_value m.key) (string_value m.value) (uint64_value m.timestamp)
            s.kvstore s'.kvstore h.raised)
          e in
      rw e' (
        _,
        refl,
        record {
          same_configs = h.same_configs;
          same_requests = ap (λ x. insert (string_value m.request_id) i x) h.same_requests;
          raised = both;
        },
      )

on_reconfig-Alike :
    (i : ℕ) (entry : PaxosLogEntry) (s s' : TabletState)
    → IsAhead s s'
    → AlikeStates (on_reconfig i entry s) (on_reconfig i entry s')
unfolding on_reconfig on_reconfig_started
on_reconfig-Alike i entry s s' h =
    Ensures-bind _ (reconfigure i (urls_of entry) s.paxos_config_manager) _ λ m e.
      rw (ap (reconfigure i (urls_of entry)) (sym h.same_configs) ∙ e) (
        _,
        refl,
        record { same_configs = refl; same_requests = h.same_requests; raised = h.raised },
      )

call_one-Alike :
    (c : Callback TabletState) (i : ℕ) (entry : PaxosLogEntry) (s s' : TabletState)
    → AlikeStates (c i entry s) (c i entry s')
    → AlikeStates (call_all (c ∷ []) i entry s) (call_all (c ∷ []) i entry s')
unfolding call_all
call_one-Alike c i entry s s' h =
    Ensures-bind _ (c i entry s) _
      λ r e. let (r', e', both) = Ensures-ok _ (c i entry s) h e in rw e' (r', refl, both)

pub invoke-Alike :
    (i : ℕ) (entry : PaxosLogEntry) (s s' : TabletState)
    → IsAhead s s'
    → AlikeStates (invoke tablet_log.callbacks i entry s) (invoke tablet_log.callbacks i entry s')
unfolding invoke tablet_log register add_callback new_log find assign entry_content_case
invoke-Alike i (Paxos.read m) s s' h =
    call_one-Alike on_read i (Paxos.read m) s s' (on_read-Alike i (Paxos.read m) s s' h)
invoke-Alike i (Paxos.write m) s s' h =
    call_one-Alike on_write i (Paxos.write m) s s' (on_write-Alike i (Paxos.write m) s s' h)
invoke-Alike i (Paxos.reconfig_started m) s s' h =
    call_one-Alike on_reconfig i (Paxos.reconfig_started m) s s'
      (on_reconfig-Alike i (Paxos.reconfig_started m) s s' h)
invoke-Alike i Paxos.not_set s s' h = (s', refl, h)
invoke-Alike i (Paxos.key_space_selected m) s s' h = (s', refl, h)
invoke-Alike i (Paxos.key_space_commit m) s s' h = (s', refl, h)
invoke-Alike i (Paxos.key_space_changed m) s s' h = (s', refl, h)
invoke-Alike i Paxos.reconfig_finished s s' h = (s', refl, h)
