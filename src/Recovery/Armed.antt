-- ===== src/Recovery/Armed.antt =====
-- What keeps a recovery going, and what is left when it stops.
use timber_chat.Prelude.{
  ℕ, String, Bool, true, false, not, ◌&&◌, ◌||◌, ◌≡◌, refl, Option, none, some, List, [], ◌∷◌, ◌++◌,
  pull, arith, leb, eq_refl, zero, suc, min, get_elem?, or_else, Bool-cases, inl, inr,
}
use timber_chat.Recovery.{
  Recovery, Event, start, fired, online, lock, token_lost, unlock, signed_in, answered, attested,
  is_some, delays, stop_session_recovery, schedule, sign_in_as, try_once, start_session_recovery,
  on_online, accept_session, login_of, end_of, on_event, on_events, is_accepted,
}

abbrev pub is_within : Option ℕ → Bool
is_within none = true
is_within (some delay) = leb delay 45000

abbrev pub has_any : List String → Bool
has_any [] = false
has_any (x ∷ xs) = true

-- A recovery that runs waits for a timer or for the relay, and for the network; one that does not has
-- neither a timer nor a listener.
pub record IsArmed (r : Recovery) : Type 0 where
  pub awaits :
      (not r.running || (is_some r.timer || (has_any r.asking || has_any r.attesting))) ≡ true
  pub listens : r.listening ≡ r.running
  pub idle : (r.running || not (is_some r.timer)) ≡ true
  pub within : is_within r.timer ≡ true

has_any-append : (xs : List String) (x : String) → has_any (xs ++ x ∷ []) ≡ true
has_any-append [] x = refl
has_any-append (y ∷ ys) x = refl

stop-IsArmed : (r : Recovery) → IsArmed (stop_session_recovery r)
unfolding stop_session_recovery
stop-IsArmed r = record { awaits = refl; listens = refl; idle = refl; within = refl }

delay_within : (m : ℕ) → is_within (some (or_else (get_elem? delays m) 45000)) ≡ true
delay_within zero = refl
delay_within (suc zero) = refl
delay_within (suc (suc zero)) = refl
delay_within (suc (suc (suc zero))) = refl
delay_within (suc (suc (suc (suc zero)))) = refl
delay_within (suc (suc (suc (suc (suc m))))) = refl

-- Scheduling needs nothing of the waits: it arms the timer where the recovery runs.
schedule-IsArmed :
    (r : Recovery)
    → r.listening ≡ r.running
    → (r.running || not (is_some r.timer)) ≡ true
    → is_within r.timer ≡ true
    → IsArmed (schedule r)
unfolding schedule
schedule-IsArmed r listens idle within = record {
  awaits = ground (arith, idle);
  listens = listens;
  idle = ground (arith, idle);
  within = ground (arith, within, delay_within (min r.attempt 4));
}

sign_in_as-IsArmed :
    (o : Option String) (r : Recovery)
    → r.listening ≡ r.running
    → (r.running || not (is_some r.timer)) ≡ true
    → is_within r.timer ≡ true
    → IsArmed (sign_in_as o r)
sign_in_as-IsArmed none r listens idle within = stop-IsArmed r
sign_in_as-IsArmed (some id) r listens idle within = record {
  awaits = ground (arith, has_any-append r.asking id);
  listens = listens;
  idle = idle;
  within = within;
}

try_once-IsArmed :
    (r : Recovery)
    → r.listening ≡ r.running
    → (r.running || not (is_some r.timer)) ≡ true
    → is_within r.timer ≡ true
    → IsArmed (try_once r)
unfolding try_once
try_once-IsArmed r listens idle within = elim (Bool-cases (is_some r.token)) [
  | inl e ↦ rw e (stop-IsArmed r)
  | inr e ↦ rw e (sign_in_as-IsArmed r.unlocked r listens idle within)
]

start-IsArmed : (r : Recovery) → IsArmed r → IsArmed (start_session_recovery r)
unfolding start_session_recovery
start-IsArmed r h = elim (Bool-cases (r.running || (not (is_some r.unlocked) || is_some r.token))) [
  | inl e ↦ rw e h
  | inr e ↦ rw e (
      schedule-IsArmed (record r { running = true; attempt = 0; listening = true }) refl refl
        h.within)
]

online-IsArmed : (r : Recovery) → IsArmed r → IsArmed (on_online r)
unfolding on_online
online-IsArmed r h = elim (Bool-cases (r.listening && r.running)) [
  | inl e ↦
      rw e (try_once-IsArmed (record r { attempt = 0; timer = none }) h.listens (ground arith) refl)
  | inr e ↦ rw e h
]

accept_session-IsArmed :
    (expected : String) (reply : Option String) (r : Recovery)
    → r.listening ≡ r.running
    → (r.running || not (is_some r.timer)) ≡ true
    → is_within r.timer ≡ true
    → IsArmed (accept_session expected reply r)
accept_session-IsArmed expected none r listens idle within = schedule-IsArmed r listens idle within
accept_session-IsArmed expected (some named) r listens idle within =
    elim (Bool-cases (is_accepted expected named r.unlocked)) [
      | inl e ↦ rw e (record {
        awaits = ground (arith, has_any-append r.attesting expected);
        listens = listens;
        idle = idle;
        within = within;
      })
      | inr e ↦ rw e (schedule-IsArmed r listens idle within)
    ]

login_of-IsArmed :
    (o : Option (String × List String)) (reply : Option String) (r : Recovery)
    → IsArmed r
    → IsArmed (login_of o reply r)
login_of-IsArmed none reply r h = h
login_of-IsArmed (some (id, others)) reply r h =
    accept_session-IsArmed id reply (record r { asking = others }) h.listens h.idle h.within

end_of-IsArmed :
    (o : Option (String × List String)) (succeeds : Bool) (r : Recovery)
    → IsArmed r
    → IsArmed (end_of o succeeds r)
end_of-IsArmed none succeeds r h = h
end_of-IsArmed (some (id, others)) true r h = stop-IsArmed (record r { attesting = others })
end_of-IsArmed (some (id, others)) false r h =
    schedule-IsArmed (record r { attesting = others }) h.listens h.idle h.within

fired-IsArmed : (r : Recovery) → IsArmed r → IsArmed (on_event fired r)
unfolding on_event
fired-IsArmed r h = elim (Bool-cases (is_some r.timer)) [
  | inl e ↦ rw e (try_once-IsArmed (record r { timer = none }) h.listens (ground arith) refl)
  | inr e ↦ rw e h
]

on_event-IsArmed : (e : Event) (r : Recovery) → IsArmed r → IsArmed (on_event e r)
unfolding on_event stop_session_recovery
on_event-IsArmed start r h = start-IsArmed r h
on_event-IsArmed fired r h = fired-IsArmed r h
on_event-IsArmed online r h = online-IsArmed r h
on_event-IsArmed lock r h = record { awaits = refl; listens = refl; idle = refl; within = refl }
on_event-IsArmed token_lost r h = record {
  awaits = h.awaits;
  listens = h.listens;
  idle = h.idle;
  within = h.within;
}
on_event-IsArmed (unlock id) r h = record {
  awaits = h.awaits;
  listens = h.listens;
  idle = h.idle;
  within = h.within;
}
on_event-IsArmed (signed_in id) r h = record {
  awaits = h.awaits;
  listens = h.listens;
  idle = h.idle;
  within = h.within;
}
on_event-IsArmed (answered place reply) r h = login_of-IsArmed (pull place r.asking) reply r h
on_event-IsArmed (attested place succeeds) r h =
    end_of-IsArmed (pull place r.attesting) succeeds r h

-- Whatever happens, a recovery that runs goes on: it waits for a timer of at most 45 seconds or for the
-- relay, and listens for the network; one that does not run has left neither timer nor listener.
pub on_events-IsArmed : (es : List Event) (r : Recovery) → IsArmed r → IsArmed (on_events es r)
unfolding on_events
on_events-IsArmed [] r h = h
on_events-IsArmed (e ∷ es) r h = on_events-IsArmed es (on_event e r) (on_event-IsArmed e r h)

-- A sign-in that is under way when the app locks still sets its token: the app is locked, and holds one.
locked_with_token :
    (id : String) (others : List String) (r : Recovery)
    → let s = on_event (answered 0 (some id)) (on_event lock (record r { asking = id ∷ others })) in
      (s.token ≡ some id) × (s.unlocked ≡ none) × (s.running ≡ false)
unfolding on_event stop_session_recovery
locked_with_token id others r = rw eq_refl (refl, refl, refl)
