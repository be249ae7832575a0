-- ===== src/Socket/Single.antt =====
-- The sockets that are open, through a run of useWebSocket.js.
use timber_chat.Prelude.{
  pull, both, ℕ, ◌+◌, ◌≤◌, Bool, true, false, not, ◌&&◌, ◌||◌, ◌≡◌, inl, inr, refl, ◌∙◌, Option,
  none, some, List, [], ◌∷◌, length, Bool-cases, arith,
}
use timber_chat.Socket.{
  Connect, Answer, Link, drop, answered, on_close, is_some, on_token, contains, on_timer, cleanup,
  Event, opened, closed, due, settled, token, unmounted, step, steps, mounted,
}
use timber_chat.Socket.Operations.{
  only, IsSingle, is_empty, is_known, none_left, cleanup-IsSingle, on_open-IsSingle, alone,
  answered-IsSingle, connect-IsSingle, schedule-IsSingle, vacant, unlinked, nobody, idle,
}

-- What is asked of an event: a token does not come while a connection is under way, and the socket that
-- closes is the one that the effect knows.
unfoldable pub is_calm : Event → Link → Bool
is_calm (token next) l = is_empty l.connects
is_calm (closed k) l = is_known k l.socket
is_calm _ l = true

hung :
    (k : ℕ) (o : Option ℕ) (xs : List ℕ)
    → is_known k o ≡ true
    → xs ≡ only o
    → (drop (some k) xs ≡ []) × (length xs ≡ 1)
hung k none xs o e = cc
hung k (some j) xs o e = rw (e, o) (refl, refl)

on_close-IsSingle :
    (k : ℕ) (l : Link) → is_known k l.socket ≡ true → IsSingle l → IsSingle (on_close k l)
unfolding on_close
on_close-IsSingle k l o h =
    let up : (drop (some k) l.alive ≡ []) × (length l.alive ≡ 1) =
      hung k l.socket l.alive o h.alive in
    schedule-IsSingle
      (record l {
        alive = drop (some k) l.alive;
        intervals = drop l.interval l.intervals;
        interval = none;
        connected = false;
        socket = none;
      })
      refl up.0 (none_left l.timers (omega (arith, h.few, up.1)))
      (none_left l.connects (omega (arith, h.few, up.1)))

on_token-IsSingle :
    (next : Bool) (l : Link) → is_empty l.connects ≡ true → IsSingle l → IsSingle (on_token next l)
unfolding on_token
on_token-IsSingle next l o h =
    elim (Bool-cases (not l.is_watching || (not next || (is_some l.socket || l.closed_by_us)))) [
      | inl b ↦ rw b (record { alive = h.alive; known = h.known; few = h.few })
      | inr b ↦
          let off : is_some l.socket ≡ false = ground (arith, b) in
          rw b (
            connect-IsSingle
              (record l {
                has_token = next;
                attempt = 0;
                timers = drop l.timer l.timers;
                timer = none;
              })
              (nobody l.socket off) (h.alive ∙ unlinked l.socket off) h.known (idle l.connects o))
    ]

last :
    (k : ℕ) (xs : List ℕ)
    → contains k xs ≡ true
    → length xs ≤ 1
    → (drop (some k) xs ≡ []) × (length xs ≡ 1)
last k [] b le = cc
last k (x ∷ []) b le = ground (arith, b)
last k (x ∷ y ∷ xs) b le = absurd (omega (arith, le))

on_timer-IsSingle : (k : ℕ) (l : Link) → IsSingle l → IsSingle (on_timer k l)
unfolding on_timer
on_timer-IsSingle k l h = elim (Bool-cases (contains k l.timers)) [
  | inr b ↦ rw b h
  | inl b ↦
      let run : (drop (some k) l.timers ≡ []) × (length l.timers ≡ 1) =
        last k l.timers b (omega (arith, h.few)) in
      let gone : l.alive ≡ [] = none_left l.alive (omega (arith, h.few, run.1)) in
      rw b (
        connect-IsSingle (record l { timers = drop (some k) l.timers })
          (vacant l.socket l.alive h.alive gone) gone run.0
          (none_left l.connects (omega (arith, h.few, run.1))))
]

settled_at-IsSingle :
    (p : ℕ) (m u : Bool) (x : Answer) (l : Link) (o : Option (Connect × List Connect))
    → pull p l.connects ≡ o
    → IsSingle l
    → IsSingle
        (elim o [ none ↦ l | some (c, rest) ↦ answered m u c x (record l { connects = rest }) ])
settled_at-IsSingle p m u x l none e h = h
settled_at-IsSingle p m u x l (some (c, rest)) e h =
    let free : (l.socket ≡ none) × (l.alive ≡ []) × (l.timers ≡ []) × (rest ≡ []) =
      alone l c rest p e h in
    answered-IsSingle m u c x (record l { connects = rest }) free.0 free.1 free.2 free.3

step-IsSingle : (e : Event) (l : Link) → is_calm e l ≡ true → IsSingle l → IsSingle (step e l)
unfolding step is_calm
step-IsSingle (opened k) l o h = on_open-IsSingle k l h
step-IsSingle (closed k) l o h = on_close-IsSingle k l o h
step-IsSingle (due k) l o h = on_timer-IsSingle k l h
step-IsSingle (settled p m u x) l o h = settled_at-IsSingle p m u x l (pull p l.connects) refl h
step-IsSingle (token next) l o h = on_token-IsSingle next l o h
step-IsSingle unmounted l o h = cleanup-IsSingle l h

-- Each event of a run is calm where it comes.
unfoldable pub are_calm : List Event → Link → Bool
unfolding is_calm step
are_calm [] l = true
are_calm (e ∷ es) l = is_calm e l && are_calm es (step e l)

steps-IsSingle :
    (es : List Event) (l : Link) → are_calm es l ≡ true → IsSingle l → IsSingle (steps es l)
unfolding steps are_calm
steps-IsSingle [] l o h = h
steps-IsSingle (e ∷ es) l o h =
    let parts : (is_calm e l ≡ true) × (are_calm es (step e l) ≡ true) =
      both (is_calm e l) (are_calm es (step e l)) o in
    steps-IsSingle es (step e l) parts.1 (step-IsSingle e l parts.0 h)

-- From the start of the effect on, as long as no token comes while a connection is under way and the
-- socket that closes is the one that the effect knows: the sockets that are open are the one that the
-- effect knows, so that its cleanup leaves none open; and a socket, a timer and a connection under way
-- never stand beside each other.
pub steps-alive :
    (es : List Event) (has_token : Bool)
    → are_calm es (mounted has_token) ≡ true
    → ((steps es (mounted has_token)).alive ≡ only (steps es (mounted has_token)).socket)
      × ((cleanup (steps es (mounted has_token))).alive ≡ [])
      × (length (steps es (mounted has_token)).connects
            + (length (steps es (mounted has_token)).timers
                + length (steps es (mounted has_token)).alive)
          ≤ 1)
unfolding cleanup
steps-alive es has_token o =
    let start : IsSingle (mounted has_token) = ground arith in
    let h : IsSingle (steps es (mounted has_token)) =
      steps-IsSingle es (mounted has_token) o start in
    (h.alive, (cleanup-IsSingle (steps es (mounted has_token)) h).alive, h.few)
