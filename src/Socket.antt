-- ===== src/Socket.antt =====
-- frontend/src/hooks/useWebSocket.js: the life of the socket. Between two awaits the code runs alone:
-- `connects` are the calls of `connect` that stand at an await, and an event lets one of them go on.
pub mod Operations
pub mod Single
pub mod Twice
mod Tests
use timber_chat.Prelude.{
  pull, ℕ, zero, suc, ◌+◌, ◌*◌, ◌^◌, min, Bool, true, false, not, ◌&&◌, ◌||◌, Option, none, some,
  List, [], ◌∷◌, ◌++◌, keep, eqb, if◌then◌else◌,
}

-- The request for a ticket, the signing in after a 401, and the request after that.
pub data Connect : Type 0 where
  asking signing asking_again : Connect

pub data Answer : Type 0 where
  granted : Answer
  refused : (unauthorized : Bool) → Answer

-- `alive` are the sockets that nobody closed, `socket` is `socketRef`; `intervals` are the running timers
-- of the reconciliation, `interval` the one that the effect still knows.
pub record Link : Type 0 where
  pub socket : Option ℕ
  pub alive : List ℕ
  pub next : ℕ
  pub attempt : ℕ
  pub delay : ℕ
  pub closed_by_us : Bool
  pub has_token : Bool
  pub connects : List Connect
  pub timers : List ℕ
  pub timer : Option ℕ
  pub intervals : List ℕ
  pub interval : Option ℕ
  pub connected : Bool
  pub has_send : Bool
  pub is_watching : Bool

abbrev pub max_backoff_ms : ℕ
max_backoff_ms = 15_000

-- The wait before the attempt.
abbrev pub backoff : ℕ → ℕ
backoff attempt = min (500 * 2 ^ attempt) max_backoff_ms

abbrev pub drop : Option ℕ → List ℕ → List ℕ
drop none xs = xs
drop (some k) xs = keep (λ x. not (eqb x k)) xs

-- Timers and sockets have numbers of their own.
unfoldable pub schedule_reconnect : Link → Link
schedule_reconnect l = if l.closed_by_us then l else record l {
  attempt = suc l.attempt;
  delay = backoff (suc l.attempt);
  timers = l.timers ++ l.next ∷ [];
  timer = some l.next;
  next = suc l.next;
}

abbrev pub connect : Link → Link
connect l = if l.has_token then record l { connects = l.connects ++ asking ∷ [] } else l

-- A ticket is there: the socket is made, unless the page is secure and the address is not.
unfoldable pub open_socket : (is_mixed : Bool) → Link → Link
open_socket is_mixed l =
    if l.closed_by_us
    then l
    else if is_mixed
    then record l { connected = false }
    else record l { socket = some l.next; alive = l.alive ++ l.next ∷ []; next = suc l.next }

-- How `connect` goes on after an await.
unfoldable pub answered : (is_mixed is_unlocked : Bool) → Connect → Answer → Link → Link
unfolding schedule_reconnect open_socket
answered is_mixed is_unlocked asking granted l = open_socket is_mixed l
answered is_mixed is_unlocked asking (refused unauthorized) l =
    if unauthorized && is_unlocked
    then record l { connects = l.connects ++ signing ∷ [] }
    else schedule_reconnect l
answered is_mixed is_unlocked signing granted l = record l {
  connects = l.connects ++ asking_again ∷ [];
}
answered is_mixed is_unlocked asking_again granted l = open_socket is_mixed l
answered is_mixed is_unlocked _ (refused unauthorized) l = schedule_reconnect l

-- `socket.onopen`
unfoldable pub on_open : ℕ → Link → Link
on_open k l = record l {
  attempt = 0;
  connected = true;
  has_send = true;
  intervals = l.intervals ++ k ∷ [];
  interval = some k;
}

-- `socket.onclose`
unfoldable pub on_close : ℕ → Link → Link
unfolding schedule_reconnect
on_close k l = schedule_reconnect (record l {
  alive = drop (some k) l.alive;
  intervals = drop l.interval l.intervals;
  interval = none;
  connected = false;
  socket = none;
})

abbrev pub is_some : Option ℕ → Bool
is_some none = false
is_some (some k) = true

-- The listener of `onTokenChange`, once the token is set.
unfoldable pub on_token : Bool → Link → Link
on_token next l =
    let m : Link = record l { has_token = next } in
    if not l.is_watching || (not next || (is_some l.socket || l.closed_by_us))
    then m
    else connect (record m { attempt = 0; timers = drop l.timer l.timers; timer = none })

abbrev pub contains : ℕ → List ℕ → Bool
contains k [] = false
contains k (x ∷ xs) = eqb x k || contains k xs

-- A timer of `scheduleReconnect` is due.
unfoldable pub on_timer : ℕ → Link → Link
on_timer k l =
    if contains k l.timers then connect (record l { timers = drop (some k) l.timers }) else l

-- The cleanup of the effect.
unfoldable pub cleanup : Link → Link
cleanup l = record l {
  is_watching = false;
  closed_by_us = true;
  has_send = false;
  timers = drop l.timer l.timers;
  timer = none;
  intervals = drop l.interval l.intervals;
  interval = none;
  alive = drop l.socket l.alive;
  socket = none;
  connected = false;
}

pub data Event : Type 0 where
  opened closed due : ℕ → Event
  settled : ℕ → (is_mixed is_unlocked : Bool) → Answer → Event
  token : Bool → Event
  unmounted : Event

unfoldable pub step : Event → Link → Link
unfolding answered on_open on_close on_token on_timer cleanup
step (opened k) l = on_open k l
step (closed k) l = on_close k l
step (due k) l = on_timer k l
step (settled p is_mixed is_unlocked answer) l = elim (pull p l.connects) [
  | none ↦ l
  | some (c, rest) ↦ answered is_mixed is_unlocked c answer (record l { connects = rest })
]
step (token next) l = on_token next l
step unmounted l = cleanup l

unfoldable pub steps : List Event → Link → Link
unfolding step
steps [] l = l
steps (e ∷ es) l = steps es (step e l)

-- The effect begins, with or without a token.
abbrev pub mounted : Bool → Link
mounted has_token = connect (record {
  socket = none;
  alive = [];
  next = 0;
  attempt = 0;
  delay = 0;
  closed_by_us = false;
  has_token = has_token;
  connects = [];
  timers = [];
  timer = none;
  intervals = [];
  interval = none;
  connected = false;
  has_send = false;
  is_watching = true;
})
