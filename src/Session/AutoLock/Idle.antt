-- ===== src/Session/AutoLock/Idle.antt =====
-- The idle timers, which every policy but "Never" and the two-hour choice arms.
use timber_chat.Prelude.{ℕ, ◌+◌, ◌≤◌, ◌<◌, ◌≡◌, ◌⊎◌, true, none, some, arith, leb, if◌then◌else◌}
use timber_chat.Session.LockPolicy.{always, week, can_resume_session, week_lease_ms}
use timber_chat.Session.AutoLock.{
  activity, fire, visibility, hidden, Watch, start, handle, idle_lock_ms, hidden_lock_ms,
}

-- While the page is shown, an idle session locks five minutes after the last activity and not
-- before; hiding the page at `t` brings that forward to half a minute.
pub idle_exact :
    (w : Watch) (t u : ℕ)
    → (w.policy ≡ always) ⊎ (w.policy ≡ week)
    → w.hidden_timer ≡ none
    → w.session_timer ≡ none
    → ((handle u fire (handle t activity w)).locks
        ≡ (if leb (t + idle_lock_ms) u then w.locks + 1 else w.locks))
      × ((handle u fire (handle t (visibility hidden) (handle t activity w))).locks
          ≡ (if leb (t + hidden_lock_ms) u then w.locks + 1 else w.locks))
unfolding handle
idle_exact w t u p h s = (ground arith, ground arith)

-- The week-long choice arms the idle timer too: five minutes without activity lock the session while
-- `canResumeSession` holds that its lease still runs.
pub week_locks_when_idle :
    (opened_at now u : ℕ)
    → 0 < opened_at
    → opened_at ≤ now
    → now + idle_lock_ms ≤ u
    → u < opened_at + week_lease_ms
    → ((handle u fire (start week opened_at now)).locks ≡ 1)
      × (can_resume_session week (some opened_at) u ≡ true)
unfolding handle start can_resume_session
week_locks_when_idle opened_at now u pos le late runs = (ground arith, ground arith)
