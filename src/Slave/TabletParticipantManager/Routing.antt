-- ===== src/Slave/TabletParticipantManager/Routing.antt =====
-- Where src/slave/TabletParticipantManager.cc sends messages, and which tablets it has.
use universal_db.Base.{
  ◌≡◌, refl, ap, ◌∙◌, Bool, true, false, none, some, List, [], ◌∷◌, ◌++◌, arith, if◌then◌else◌,
  Option-cases, Bool-cases, inl, inr, All, ◌⊎◌,
}
use universal_db.Base.Eq.{contains}
use universal_db.Base.Assoc.{find, has, insert, find-insert}
use universal_db.Net.EndpointId.{EndpointId}
use universal_db.Net.IncomingMessage.{IncomingMessage}
use universal_db.Proto.Client.{ClientRequest, ClientResponse, error}
use universal_db.Server.KeySpaceRange.{
  KeySpaceRange, range_eq, range_beq, range_beq_iff, within_range,
}
use universal_db.Slave.TabletParticipantManager.{
  TabletParticipantManager, add_tablets, handle_key_space_change, queue_at, handle_client_request,
}

abbrev pub admits : ClientRequest → KeySpaceRange → Bool
admits m range = within_range range m.database_id m.table_id m.key

module _ {P : Type 0} where
  same :
      (r range : KeySpaceRange) (tps : List (KeySpaceRange × P))
      → range_beq r range ≡ true
      → find r tps ≡ find range tps
  same r range tps h = ap (λ x. find x tps) ((range_beq_iff r range).0 h)

  add_tablets-find :
      (tp_provider : KeySpaceRange → P) (ranges : List KeySpaceRange)
      (tps : List (KeySpaceRange × P)) (range : KeySpaceRange)
      → find range (add_tablets tp_provider ranges tps) ≡ (
          if has range tps
          then find range tps
          else if contains range ranges
          then some (tp_provider range)
          else none)
  unfolding add_tablets
  add_tablets-find tp_provider [] tps range = ground arith
  add_tablets-find tp_provider (r ∷ rs) tps range = elim (Option-cases (find r tps)) [
    | inl absent ↦
        rw (absent, add_tablets)
          (add_tablets-find tp_provider rs (insert r (tp_provider r) tps) range
            ∙ ground (
              arith,
              find-insert r range (tp_provider r) tps,
              range_beq_iff r range,
              same r range tps,
              absent,
              ap tp_provider,
            ))
    | inr (tp, there) ↦
        rw (there, add_tablets)
          (add_tablets-find tp_provider rs tps range
            ∙ ground (arith, range_beq_iff r range, same r range tps, there))
  ]

  -- After a change of the key space there is a tablet for each of the ranges, and the tablets that
  -- there were are there as they were.
  pub handle_key_space_change-find :
      (tp_provider : KeySpaceRange → P) (ranges : List KeySpaceRange)
      (m : TabletParticipantManager P) (range : KeySpaceRange)
      → find range (handle_key_space_change tp_provider ranges m).tp_map ≡ (
          if has range m.tp_map
          then find range m.tp_map
          else if contains range ranges
          then some (tp_provider range)
          else none)
  unfolding handle_key_space_change
  handle_key_space_change-find tp_provider ranges m range =
      add_tablets-find tp_provider ranges m.tp_map range

  -- No tablet passes the test.
  abbrev pub NoneOf : (KeySpaceRange → Bool) → List (KeySpaceRange × P) → Type 0
  NoneOf test = All (λ p. test p.0 ≡ false)

  -- The first tablet that passes takes the message.
  abbrev pub Queued :
      (KeySpaceRange → Bool)
      → (P → P)
      → List (KeySpaceRange × P)
      → List (KeySpaceRange × P)
      → Type 0
  Queued test queue tps tps' =
      (before : List (KeySpaceRange × P)) × (range : KeySpaceRange) × (tp : P) × (after : List
        (KeySpaceRange × P))
      × (tps ≡ before ++ (range, tp) ∷ after)
      × (tps' ≡ before ++ (range, queue tp) ∷ after)
      × (test range ≡ true)
      × NoneOf test before

  abbrev pub Routed :
      (KeySpaceRange → Bool)
      → (P → P)
      → List (KeySpaceRange × P)
      → List (KeySpaceRange × P) × Bool
      → Type 0
  Routed test queue tps (tps', true) = Queued test queue tps tps'
  Routed test queue tps (tps', false) = NoneOf test tps × (tps' ≡ tps)

  Routed-cons :
      (test : KeySpaceRange → Bool) (queue : P → P) (range : KeySpaceRange) (tp : P)
      (tps : List (KeySpaceRange × P)) (r : List (KeySpaceRange × P) × Bool)
      → test range ≡ false
      → Routed test queue tps r
      → Routed test queue ((range, tp) ∷ tps) ((range, tp) ∷ r.0, r.1)
  Routed-cons test queue range tp tps (tps', true) fails
        (before, r, q, after, e, f, passes, none_before) =
      (
        (range, tp) ∷ before,
        r,
        q,
        after,
        ap (λ xs. (range, tp) ∷ xs) e,
        ap (λ xs. (range, tp) ∷ xs) f,
        passes,
        (fails, none_before),
      )
  Routed-cons test queue range tp tps (tps', false) fails (n, e) =
      ((fails, n), ap (λ xs. (range, tp) ∷ xs) e)

  queue_at-Routed :
      (test : KeySpaceRange → Bool) (queue : P → P) (tps : List (KeySpaceRange × P))
      → Routed test queue tps (queue_at test queue tps)
  unfolding queue_at
  queue_at-Routed test queue [] = (tt, refl)
  queue_at-Routed test queue ((range, tp) ∷ tps) = elim (Bool-cases (test range)) [
    | inl passes ↦ rw passes ([], range, tp, tps, refl, refl, passes, tt)
    | inr fails ↦ rw fails (
        Routed-cons test queue range tp tps (queue_at test queue tps) fails
          (queue_at-Routed test queue tps))
  ]

  abbrev pub Handled :
      (IncomingMessage → P → P)
      → ClientRequest
      → IncomingMessage
      → List (KeySpaceRange × P)
      → List (KeySpaceRange × P) × List (EndpointId × ClientResponse)
      → Type 0
  Handled queue_message m incoming tps (tps', sent) =
      (Queued (admits m) (queue_message incoming) tps tps' × (sent ≡ []))
      ⊎ (NoneOf (admits m) tps
          × (tps' ≡ tps)
          × (sent ≡ (incoming.endpoint_id, record { value = none; error_code = error }) ∷ []))

  queue_result-Handled :
      (queue_message : IncomingMessage → P → P) (m : ClientRequest) (incoming : IncomingMessage)
      (tps : List (KeySpaceRange × P)) (r : List (KeySpaceRange × P) × Bool)
      → Routed (admits m) (queue_message incoming) tps r
      → Handled queue_message m incoming tps (
        r.0,
        if r.1
            then []
            else (incoming.endpoint_id, record { value = none; error_code = error }) ∷ [],
      )
  queue_result-Handled queue_message m incoming tps (tps', true) h = inl (h, refl)
  queue_result-Handled queue_message m incoming tps (tps', false) h = inr (h.0, h.1, refl)

  -- A client's request is queued at exactly one tablet, the first whose range has its key, and
  -- nothing is answered; or no tablet has the key, then no tablet is touched and an error goes
  -- back to the client.
  pub handle_client_request-Handled :
      (queue_message : IncomingMessage → P → P) (m : ClientRequest) (incoming : IncomingMessage)
      (manager : TabletParticipantManager P)
      → Handled queue_message m incoming manager.tp_map (
        (handle_client_request queue_message m incoming manager).0.tp_map,
        (handle_client_request queue_message m incoming manager).1,
      )
  unfolding handle_client_request
  handle_client_request-Handled queue_message m incoming manager =
      queue_result-Handled queue_message m incoming manager.tp_map
        (queue_at (admits m) (queue_message incoming) manager.tp_map)
        (queue_at-Routed (admits m) (queue_message incoming) manager.tp_map)
