-- ===== src/Net/Connections/Tests.antt =====
-- The theorem on delivery, at one channel.
use universal_db.Base.{ℕ, ◌≡◌, some, [], ◌∷◌}
use universal_db.Base.Bytes.{bytes_beq}
use universal_db.Base.Assoc.{find}
use universal_db.Net.EndpointId.{EndpointId, endpoint_eq, endpoint_beq}
use universal_db.Net.Sent
use universal_db.Net.Connections.{Channels, deliver}
use universal_db.Net.Connections.Delivery.{copies, meant_for, deliver-find}

abbrev one : EndpointId
one = record { ip_string = 49 ∷ []; port = 80 }

abbrev two : EndpointId
two = record { ip_string = 50 ∷ []; port = 80 }

abbrev channels : Channels ℕ
channels = (one, 1 ∷ []) ∷ []

deliver-find_example :
    find one (deliver (Sent.broadcast (two ∷ one ∷ []) 2 ∷ Sent.send one 3 ∷ []) channels)
    ≡ some (1 ∷ 2 ∷ 3 ∷ [])
unfolding find meant_for copies endpoint_beq bytes_beq
deliver-find_example =
    deliver-find (Sent.broadcast (two ∷ one ∷ []) 2 ∷ Sent.send one 3 ∷ []) one channels
