-- ===== src/Net/Connections/Delivery.antt =====
-- What src/net/Connections.cc queues at which channel.
use universal_db.Base.{
  ◌≡◌, refl, sym, ap, ◌∙◌, true, Option, none, some, List, [], ◌∷◌, ◌++◌, arith, if◌then◌else◌,
  append_assoc, append-nil, Option-cases, inl, inr,
}
use universal_db.Base.Eq.{◌==◌}
use universal_db.Base.Assoc.{find, find-assign}
use universal_db.Net.EndpointId.{EndpointId, endpoint_eq, endpoint_beq, endpoint_beq_iff}
use universal_db.Net.Sent.{Sent}
use universal_db.Net.Connections.{Channels, queue_send, send, broadcast, deliver}

module _ {M : Type 0} where
  -- The messages of a list of calls that are meant for an endpoint, in order. An endpoint that
  -- stands twice in a broadcast gets the message twice.
  unfoldable pub copies : EndpointId → List EndpointId → M → List M
  copies j [] message = []
  copies j (e ∷ es) message =
      let rest = copies j es message in if e == j then message ∷ rest else rest

  unfoldable pub meant_for : EndpointId → List (Sent M) → List M
  unfolding copies
  meant_for j [] = []
  meant_for j (Sent.broadcast es message ∷ sent) = copies j es message ++ meant_for j sent
  meant_for j (Sent.send e message ∷ sent) = copies j (e ∷ []) message ++ meant_for j sent

  -- A queue with more messages behind it; no channel stays no channel.
  abbrev pub longer : List M → Option (List M) → Option (List M)
  longer more none = none
  longer more (some queue) = some (queue ++ more)

  longer-nil : (o : Option (List M)) → longer [] o ≡ o
  longer-nil none = refl
  longer-nil (some q) = ap some (append-nil q)

  longer-longer : (a b : List M) (o : Option (List M)) → longer b (longer a o) ≡ longer (a ++ b) o
  longer-longer a b none = refl
  longer-longer a b (some q) = ap some (append_assoc q a b)

  same_channel :
      (e j : EndpointId) (channels : Channels M)
      → endpoint_beq e j ≡ true
      → find e channels ≡ find j channels
  same_channel e j channels h = ap (λ x. find x channels) ((endpoint_beq_iff e j).0 h)

  copies-cons :
      (e j : EndpointId) (es : List EndpointId) (message : M)
      → (copies j (e ∷ []) message ++ copies j es message) ≡ copies j (e ∷ es) message
  unfolding copies
  copies-cons e j es message = ground arith

  send-find :
      (e j : EndpointId) (message : M) (channels : Channels M)
      → find j (send e message channels) ≡ longer (copies j (e ∷ []) message) (find j channels)
  unfolding send queue_send copies
  send-find e j message channels = elim (Option-cases (find e channels)) [
    | inl absent ↦
        rw (absent, send)
          (ground (arith, absent, same_channel e j channels, longer-nil (find j channels)))
    | inr (queue, there) ↦
        rw (there, send)
          (find-assign e j (queue ++ message ∷ []) channels
            ∙ ground (arith, there, same_channel e j channels, longer-nil (find j channels)))
  ]

  broadcast-find :
      (es : List EndpointId) (j : EndpointId) (message : M) (channels : Channels M)
      → find j (broadcast es message channels) ≡ longer (copies j es message) (find j channels)
  unfolding broadcast copies
  broadcast-find [] j message channels = sym (longer-nil (find j channels))
  broadcast-find (e ∷ es) j message channels =
      broadcast-find es j message (send e message channels)
      ∙ ap (longer (copies j es message)) (send-find e j message channels)
      ∙ longer-longer (copies j (e ∷ []) message) (copies j es message) (find j channels)
      ∙ ap (λ more. longer more (find j channels)) (copies-cons e j es message)

  -- After a list of sends and broadcasts the channel of an endpoint has, behind what it had, the
  -- messages that were meant for the endpoint, in the order of the calls. To an endpoint without a
  -- channel nothing is sent, and no channel comes up.
  pub deliver-find :
      (sent : List (Sent M)) (j : EndpointId) (channels : Channels M)
      → find j (deliver sent channels) ≡ longer (meant_for j sent) (find j channels)
  unfolding deliver meant_for
  deliver-find [] j channels = sym (longer-nil (find j channels))
  deliver-find (Sent.broadcast es message ∷ sent) j channels =
      deliver-find sent j (broadcast es message channels)
      ∙ ap (longer (meant_for j sent)) (broadcast-find es j message channels)
      ∙ longer-longer (copies j es message) (meant_for j sent) (find j channels)
  deliver-find (Sent.send e message ∷ sent) j channels =
      deliver-find sent j (send e message channels)
      ∙ ap (longer (meant_for j sent)) (send-find e j message channels)
      ∙ longer-longer (copies j (e ∷ []) message) (meant_for j sent) (find j channels)
