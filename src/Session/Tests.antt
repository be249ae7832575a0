-- ===== src/Session/Tests.antt =====
-- Sessions at concrete times.
use timber_chat.Prelude.{sym, ℕ, ◌≡◌, refl, ◌⊎◌, true, false, none, some, List, [], ◌∷◌, arith}
use timber_chat.Session.LockPolicy.{
  two_hours, week, never, can_resume_session, normalize_lock_policy,
}
use timber_chat.Session.AutoLock.{
  Event, activity, fire, visibility, visible, hidden, start, handle, handle_all,
}
use timber_chat.Session.AutoLock.Lease.{lease_exact}
use timber_chat.Session.Lifecycle.{
  Device, Operation, reload, restore, apply, perform_all, begin_session,
}
use timber_chat.Session.Lifecycle.Lease.{begin_session-session}
use timber_chat.Session.Resume.{
  Cipher, Browser, seal_resume, open_resume, open_resume-seal_resume, open_resume_dead,
}

policies :
    (normalize_lock_policy (some "two-hours") ≡ two_hours)
    × (normalize_lock_policy (some "hourly") ≡ week)
unfolding normalize_lock_policy
policies = (refl, refl)

abbrev busy : List (ℕ × Event)
busy =
    (20, activity)
    ∷ (30, visibility hidden)
    ∷ (4_000_000, visibility visible)
    ∷ (5_000_000, fire)
    ∷ []

lease_exact_example :
    ((handle_all busy (start two_hours 10 15)).locks ≡ 0)
    × ((handle 7_200_010 fire (handle_all busy (start two_hours 10 15))).locks ≡ 1)
lease_exact_example = lease_exact 10 15 7_200_010 busy (omega arith) (omega arith) (omega arith) (
  (omega arith, λ e. cc),
  ((omega arith, λ e. cc), ((omega arith, λ e. cc), ((omega arith, λ e. cc), tt))),
)

abbrev plain : Cipher
plain = record {
  Seed = ℕ;
  Sealed = ℕ;
  is_backed = λ s. true;
  encrypt = λ s. some s;
  decrypt = λ s. some s;
  decrypt-encrypt = λ s t e. sym e;
}

abbrev fresh : Browser plain
fresh = record { has_subtle = true; opens = true; resume = none }

open_resume-seal_resume_example :
    (open_resume plain two_hours 7_000_000
      (seal_resume plain (some 5) two_hours (some 10) fresh).1).0
    ≡ some (5, some 10)
unfolding can_resume_session
open_resume-seal_resume_example =
    open_resume-seal_resume plain 5 5 two_hours (some 10) 7_000_000 fresh refl refl refl refl

expired_token :
    (open_resume plain two_hours 8_000_000
      (seal_resume plain (some 5) two_hours (some 10) fresh).1).0
    ≡ none
unfolding can_resume_session open_resume seal_resume
expired_token = refl

open_resume_dead_example :
    (open_resume plain never 20
      (open_resume plain two_hours 8_000_000
        (seal_resume plain (some 5) two_hours (some 10) fresh).1).1).0
    ≡ none
unfolding seal_resume
open_resume_dead_example =
    open_resume_dead plain two_hours never 8_000_000 20
      (seal_resume plain (some 5) two_hours (some 10) fresh).1 refl expired_token

abbrev phrase_seed : ℕ → ℕ
phrase_seed phrase = phrase

abbrev locked : Device plain phrase_seed
locked = record { session = none; browser = fresh; recovering = false }

abbrev day : List (Operation plain phrase_seed)
day = reload ∷ restore week 40 false ∷ apply two_hours ∷ reload ∷ restore two_hours 900 true ∷ []

-- The session of the morning is still the one of the evening.
still_open :
    (perform_all plain phrase_seed day (begin_session plain phrase_seed 5 week 10 locked)).session
    ≡ some (5, 10)
unfolding perform_all begin_session seal_resume open_resume can_resume_session
still_open = refl

begin_session-session_example :
    ((perform_all plain phrase_seed day (begin_session plain phrase_seed 5 week 10 locked)).session
      ≡ none)
    ⊎ ((perform_all plain phrase_seed day
          (begin_session plain phrase_seed 5 week 10 locked)).session
        ≡ some (5, 10))
begin_session-session_example = begin_session-session plain phrase_seed 5 week 10 day locked
