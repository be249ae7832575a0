-- ===== src/Socket/Tests.antt =====
-- The socket through concrete runs.
use timber_chat.Prelude.{◌+◌, ◌≤◌, true, false, ◌≡◌, refl, some, List, [], ◌∷◌, length}
use timber_chat.Socket.{
  granted, refused, backoff, cleanup, Event, opened, closed, due, settled, steps, mounted,
}
use timber_chat.Socket.Operations.{only}
use timber_chat.Socket.Single.{are_calm, steps-alive}
use timber_chat.Socket.Twice.{renewed, dialing, renewed-alive}

-- The socket opens, is lost, is waited for and opens again.
abbrev reconnected : List Event
reconnected =
    settled 0 false true granted
    ∷ opened 0
    ∷ closed 0
    ∷ due 1
    ∷ settled 0 false true granted
    ∷ opened 2
    ∷ []

reconnected_socket : (steps reconnected (mounted true)).socket ≡ some 2
unfolding steps
reconnected_socket = refl

waited : (steps (settled 0 false true (refused false) ∷ []) (mounted true)).delay ≡ 1_000
unfolding steps
waited = refl

capped : (backoff 4 ≡ 8_000) × (backoff 5 ≡ 15_000) × (backoff 9 ≡ 15_000)
capped = (refl, refl, refl)

reconnected-are_calm : are_calm reconnected (mounted true) ≡ true
unfolding are_calm steps
reconnected-are_calm = refl

steps-alive_example :
    ((steps reconnected (mounted true)).alive ≡ only (steps reconnected (mounted true)).socket)
    × ((cleanup (steps reconnected (mounted true))).alive ≡ [])
    × (length (steps reconnected (mounted true)).connects
          + (length (steps reconnected (mounted true)).timers
              + length (steps reconnected (mounted true)).alive)
        ≤ 1)
steps-alive_example = steps-alive reconnected true reconnected-are_calm

renewed-alive_example : (steps (renewed true) (dialing (mounted true))).alive ≡ 0 ∷ []
renewed-alive_example = renewed-alive (mounted true) true
