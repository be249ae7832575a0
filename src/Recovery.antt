-- ===== src/Recovery.antt =====
-- frontend/src/lib/sessionRecovery.ts, with `acceptSession` of frontend/src/lib/auth.js and the token of
-- frontend/src/lib/api.js. A sign-in that is under way waits for the relay twice: for the login, and for
-- the attestation of its key.
pub mod Armed
mod Tests
use timber_chat.Prelude.{
  ℕ, suc, min, String, Bool, true, false, not, ◌&&◌, ◌||◌, Option, none, some, List, [], ◌∷◌, ◌++◌,
  get_elem?, pull, or_else, ◌==◌, if◌then◌else◌,
}

abbrev pub delays : List ℕ
delays = 1000 ∷ 3000 ∷ 8000 ∷ 20000 ∷ 45000 ∷ []

-- The module's variables, `timer` as the delay that runs, and what it reads of the session and the
-- token: whose identity is open, and whose token is held. `asking` and `attesting` are the accounts of
-- the sign-ins at their first and their second wait.
pub record Recovery : Type 0 where
  pub running : Bool
  pub attempt : ℕ
  pub timer : Option ℕ
  pub listening : Bool
  pub asking : List String
  pub attesting : List String
  pub unlocked : Option String
  pub token : Option String

abbrev pub is_some {ℓ} : {A : Type ℓ} → Option A → Bool
is_some none = false
is_some (some a) = true

unfoldable pub stop_session_recovery : Recovery → Recovery
stop_session_recovery r = record r { timer = none; listening = false; running = false; attempt = 0 }

-- `DELAYS_MS[Math.min(attempt, DELAYS_MS.length - 1)] ?? 45_000`
abbrev pub delay_of : ℕ → ℕ
delay_of attempt = or_else (get_elem? delays (min attempt 4)) 45000

unfoldable pub schedule : Recovery → Recovery
schedule r = record r {
  timer = if r.running then some (delay_of r.attempt) else r.timer;
  attempt = if r.running then suc r.attempt else r.attempt;
}

abbrev pub sign_in_as : Option String → Recovery → Recovery
sign_in_as none r = stop_session_recovery r
sign_in_as (some id) r = record r { asking = r.asking ++ id ∷ [] }

unfoldable pub try_once : Recovery → Recovery
unfolding stop_session_recovery
try_once r = if is_some r.token then stop_session_recovery r else sign_in_as r.unlocked r

unfoldable pub start_session_recovery : Recovery → Recovery
unfolding schedule
start_session_recovery r =
    if r.running || (not (is_some r.unlocked) || is_some r.token)
    then r
    else schedule (record r { running = true; attempt = 0; listening = true })

unfoldable pub on_online : Recovery → Recovery
unfolding try_once
on_online r =
    if r.listening && r.running then try_once (record r { attempt = 0; timer = none }) else r

-- `acceptSession` throws for another account than the one that asked, and where another is open.
abbrev pub is_accepted : (expected named : String) → Option String → Bool
is_accepted expected named none = named == expected
is_accepted expected named (some open_id) = (named == expected) && (open_id == expected)

abbrev pub accept_session : (expected : String) → (reply : Option String) → Recovery → Recovery
accept_session expected none r = schedule r
accept_session expected (some named) r =
    if is_accepted expected named r.unlocked
    then record r { token = some expected; attesting = r.attesting ++ expected ∷ [] }
    else schedule r

-- What may happen; `answered` is the login of a sign-in, with the account that the relay names, and
-- `attested` its end. `signed_in` is a token that another part of the client got.
pub data Event : Type 0 where
  start fired online lock token_lost : Event
  unlock signed_in : (id : String) → Event
  answered : (place : ℕ) → Option String → Event
  attested : (place : ℕ) → (succeeds : Bool) → Event

abbrev pub login_of : Option (String × List String) → Option String → Recovery → Recovery
login_of none reply r = r
login_of (some (id, others)) reply r = accept_session id reply (record r { asking = others })

abbrev pub end_of : Option (String × List String) → Bool → Recovery → Recovery
end_of none succeeds r = r
end_of (some (id, others)) succeeds r =
    if succeeds
    then stop_session_recovery (record r { attesting = others })
    else schedule (record r { attesting = others })

unfoldable pub on_event : Event → Recovery → Recovery
unfolding start_session_recovery on_online
on_event start r = start_session_recovery r
on_event fired r = if is_some r.timer then try_once (record r { timer = none }) else r
on_event online r = on_online r
on_event lock r = record (stop_session_recovery r) { unlocked = none; token = none }
on_event token_lost r = record r { token = none }
on_event (unlock id) r = record r { unlocked = some id }
on_event (signed_in id) r = record r { token = some id }
on_event (answered place reply) r = login_of (pull place r.asking) reply r
on_event (attested place succeeds) r = end_of (pull place r.attesting) succeeds r

unfoldable pub on_events : List Event → Recovery → Recovery
unfolding on_event
on_events [] r = r
on_events (e ∷ es) r = on_events es (on_event e r)
