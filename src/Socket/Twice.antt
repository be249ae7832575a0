-- ===== src/Socket/Twice.antt =====
-- A token that comes while `connect` awaits its ticket.
use timber_chat.Prelude.{ℕ, suc, Bool, true, false, ◌≡◌, none, some, List, [], ◌∷◌, arith}
use timber_chat.Socket.{
  asking, granted, Link, drop, open_socket, answered, on_token, cleanup, Event, settled, token,
  unmounted, step, steps,
}

abbrev pub renewed : Bool → List Event
renewed is_unlocked =
    token true
    ∷ settled 0 false is_unlocked granted
    ∷ settled 0 false is_unlocked granted
    ∷ unmounted
    ∷ []

-- A mounted effect that awaits its ticket.
abbrev pub dialing : Link → Link
dialing l = record l {
  socket = none;
  alive = [];
  closed_by_us = false;
  is_watching = true;
  connects = asking ∷ [];
}

second : (n : ℕ) → drop (some (suc n)) (n ∷ suc n ∷ []) ≡ n ∷ []
second n = ground arith

-- The request for a ticket may itself renew the token, and the listener then connects a second time. Both
-- tickets make a socket; the effect knows the second one, and its cleanup leaves the first one open.
pub renewed-alive :
    (l : Link) (is_unlocked : Bool) → (steps (renewed is_unlocked) (dialing l)).alive ≡ l.next ∷ []
unfolding steps step answered open_socket on_token cleanup
renewed-alive l is_unlocked = second l.next
