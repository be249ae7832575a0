-- ===== src/Session/AutoLock.antt =====
-- frontend/src/hooks/useAutoLock.js: the timers of one mounted effect, as the events that reach it
-- change them. A timer is the time at which it is due.
pub mod Lease
pub mod Idle
use timber_chat.Prelude.{
  ℕ, ◌+◌, ◌-◌, String, Bool, true, false, ◌||◌, Option, none, some, List, [], ◌∷◌, leb, or_else,
  if◌then◌else◌,
}
use timber_chat.Session.LockPolicy.{LockPolicyId, always, two_hours, week, never, session_deadline}

abbrev pub idle_lock_ms : ℕ
idle_lock_ms = 300_000

abbrev pub hidden_lock_ms : ℕ
hidden_lock_ms = 30_000

pub data Visibility : Type 0 where
  visible hidden : Visibility

-- `fire` is a moment at which the browser runs the timers that are due.
pub data Event : Type 0 where
  activity lock_message fire : Event
  visibility : Visibility → Event

pub record Watch : Type 0 where
  pub policy : LockPolicyId
  pub deadline : Option ℕ
  pub idle_timer : Option ℕ
  pub hidden_timer : Option ℕ
  pub session_timer : Option ℕ
  -- How often `onLock` was called, and `lock` was posted to the other tabs.
  pub locks : ℕ
  pub announced : ℕ

unfoldable pub lock : Bool → Watch → Watch
lock announce w = record w {
  idle_timer = none;
  hidden_timer = none;
  session_timer = none;
  locks = w.locks + 1;
  announced = if announce then w.announced + 1 else w.announced;
}

-- `setTimeout(() => lock(true), Math.max(0, deadline - Date.now()))`; null counts as 0.
abbrev pub arm : ℕ → Watch → Watch
arm now w = record w { session_timer = some (now + (or_else w.deadline 0 - now)) }

abbrev reset_idle : ℕ → Watch → Watch
reset_idle now w = record w { idle_timer = some (now + idle_lock_ms) }

-- `openedAt || Date.now()`
abbrev opening : ℕ → ℕ → ℕ
opening opened_at now = if leb opened_at 0 then now else opened_at

abbrev unarmed : LockPolicyId → Watch
unarmed policy = record {
  policy = policy;
  deadline = none;
  idle_timer = none;
  hidden_timer = none;
  session_timer = none;
  locks = 0;
  announced = 0;
}

abbrev start_as : LockPolicyId → ℕ → ℕ → Watch
start_as never opened_at now = unarmed never
start_as two_hours opened_at now = arm now (record (unarmed two_hours) {
  deadline = session_deadline two_hours (some (opening opened_at now));
})
start_as always opened_at now = reset_idle now (unarmed always)
start_as week opened_at now = reset_idle now (unarmed week)

-- The effect, run at `now` for a session opened at `opened_at`.
unfoldable pub start : LockPolicyId → ℕ → ℕ → Watch
start policy opened_at now = start_as policy opened_at now

abbrev is_due : Option ℕ → ℕ → Bool
is_due none now = false
is_due (some t) now = leb t now

unfoldable pub run_timers : ℕ → Watch → Watch
unfolding lock
run_timers now w =
    if is_due w.idle_timer now || (is_due w.hidden_timer now || is_due w.session_timer now)
    then lock true w
    else w

-- The listeners that the effect of each policy registers.
unfoldable pub on_activity : LockPolicyId → ℕ → Watch → Watch
on_activity never now w = w
on_activity two_hours now w = w
on_activity _ now w = reset_idle now w

unfoldable pub on_visibility : LockPolicyId → Visibility → ℕ → Watch → Watch
unfolding lock
on_visibility never v now w = w
on_visibility two_hours visible now w =
    if leb (or_else w.deadline 0) now then lock true w else arm now w
on_visibility two_hours hidden now w = arm now w
on_visibility _ hidden now w = record w { hidden_timer = some (now + hidden_lock_ms) }
on_visibility _ visible now w = reset_idle now (record w { hidden_timer = none })

unfoldable pub handle : ℕ → Event → Watch → Watch
unfolding run_timers on_activity on_visibility lock
handle now activity w = on_activity w.policy now w
handle now (visibility v) w = on_visibility w.policy v now w
handle now lock_message w = lock false w
handle now fire w = run_timers now w

unfoldable pub handle_all : List (ℕ × Event) → Watch → Watch
unfolding handle
handle_all [] w = w
handle_all ((now, e) ∷ es) w = handle_all es (handle now e w)
