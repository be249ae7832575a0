-- ===== src/Session/AutoLock/Lease.antt =====
-- The two-hour lease, and the policy that never locks.
use timber_chat.Prelude.{ℕ, ◌+◌, ◌≤◌, ◌<◌, ◌≡◌, ◌≢◌, refl, none, some, List, [], ◌∷◌, All, arith}
use timber_chat.Session.LockPolicy.{two_hours, never, session_deadline, session_lease_ms}
use timber_chat.Session.AutoLock.{Event, lock_message, fire, Watch, start, handle, handle_all}

-- Not a lock from another tab, and before the time `d`.
abbrev pub IsBefore : ℕ → ℕ × Event → Type 0
IsBefore d e = (e.0 < d) × (e.1 ≢ lock_message)

-- The timer of an open lease is due at its end.
record IsArmed (d : ℕ) (w : Watch) : Type 0 where
  policy : w.policy ≡ two_hours
  deadline : w.deadline ≡ some d
  idle : w.idle_timer ≡ none
  hidden : w.hidden_timer ≡ none
  session : w.session_timer ≡ some d
  open_still : w.locks ≡ 0

handle-IsArmed :
    (d now : ℕ) (e : Event) (w : Watch)
    → now < d
    → e ≢ lock_message
    → IsArmed d w
    → IsArmed d (handle now e w)
unfolding handle
handle-IsArmed d now e w lt ne h = ground arith

handle_all-IsArmed :
    (d : ℕ) (es : List (ℕ × Event)) (w : Watch)
    → All (IsBefore d) es
    → IsArmed d w
    → IsArmed d (handle_all es w)
unfolding handle_all
handle_all-IsArmed d [] w h a = a
handle_all-IsArmed d ((now, e) ∷ es) w h a =
    handle_all-IsArmed d es (handle now e w) h.1 (handle-IsArmed d now e w h.0.0 h.0.1 a)

start-IsArmed :
    (opened_at now : ℕ)
    → 0 < opened_at
    → now < opened_at + session_lease_ms
    → IsArmed (opened_at + session_lease_ms) (start two_hours opened_at now)
unfolding start session_deadline
start-IsArmed opened_at now pos lt = ground arith

fire-IsArmed : (d t : ℕ) (w : Watch) → IsArmed d w → d ≤ t → (handle t fire w).locks ≡ 1
unfolding handle
fire-IsArmed d t w h le = ground arith

-- A session under the two-hour choice stays open until two hours after its unlock, whatever is
-- typed, shown or hidden meanwhile, and the first timer run from then on locks it: neither activity
-- nor a reload, which keeps the time of the unlock, moves the deadline.
pub lease_exact :
    (opened_at now t : ℕ) (es : List (ℕ × Event))
    → 0 < opened_at
    → now < opened_at + session_lease_ms
    → opened_at + session_lease_ms ≤ t
    → All (IsBefore (opened_at + session_lease_ms)) es
    → ((handle_all es (start two_hours opened_at now)).locks ≡ 0)
      × ((handle t fire (handle_all es (start two_hours opened_at now))).locks ≡ 1)
lease_exact opened_at now t es pos lt le h =
    let armed =
      handle_all-IsArmed (opened_at + session_lease_ms) es (start two_hours opened_at now) h
        (start-IsArmed opened_at now pos lt) in
    (armed.open_still, fire-IsArmed (opened_at + session_lease_ms) t _ armed le)

-- Nothing is armed.
record IsUnarmed (w : Watch) : Type 0 where
  policy : w.policy ≡ never
  idle : w.idle_timer ≡ none
  hidden : w.hidden_timer ≡ none
  session : w.session_timer ≡ none
  open_still : w.locks ≡ 0

handle-IsUnarmed :
    (now : ℕ) (e : Event) (w : Watch) → e ≢ lock_message → IsUnarmed w → IsUnarmed (handle now e w)
unfolding handle
handle-IsUnarmed now e w ne h = ground arith

handle_all-IsUnarmed :
    (es : List (ℕ × Event)) (w : Watch)
    → All (λ e. e.1 ≢ lock_message) es
    → IsUnarmed w
    → IsUnarmed (handle_all es w)
unfolding handle_all
handle_all-IsUnarmed [] w h u = u
handle_all-IsUnarmed ((now, e) ∷ es) w h u =
    handle_all-IsUnarmed es (handle now e w) h.1 (handle-IsUnarmed now e w h.0 u)

-- Under "Never" no activity, no hiding and no passing of time locks the session; a lock from another
-- tab still does.
pub never_locks :
    (opened_at now : ℕ) (es : List (ℕ × Event))
    → All (λ e. e.1 ≢ lock_message) es
    → ((handle_all es (start never opened_at now)).locks ≡ 0)
      × ((t : ℕ) → (handle t lock_message (handle_all es (start never opened_at now))).locks ≡ 1)
unfolding start handle
never_locks opened_at now es h =
    let u =
      handle_all-IsUnarmed es (start never opened_at now) h
        (record { policy = refl; idle = refl; hidden = refl; session = refl; open_still = refl }) in
    (u.open_still, λ t. omega (arith, u.open_still))
