-- ===== src/Session/Lifecycle.antt =====
-- frontend/src/crypto/session.ts, the one unlocked session, and frontend/src/lib/lockSession.js, which
-- unlocks it, resumes it and locks it. The privacy and analytics settings are left out. What the vault
-- gives for an account without a PIN, and whether a sign-in succeeds, are parameters.
pub mod Lease
use timber_chat.Prelude.{
  ℕ, Bool, true, false, Option, none, some, List, [], ◌∷◌, or_else, if◌then◌else◌,
}
use timber_chat.Session.LockPolicy.{LockPolicyId, is_always}
use timber_chat.Session.Resume.{Cipher, Browser, clear_resume, seal_resume, open_resume}

module _ (C : Cipher) {Mnemonic : Type 0} (mnemonic_seed : Mnemonic → C.Seed) where
  -- `seed` and `openedAt` of the open session, the browser's storage, and whether recovery runs.
  pub record Device : Type 0 where
    pub session : Option (C.Seed × ℕ)
    pub browser : Browser C
    pub recovering : Bool

  abbrev pub current_seed : Device → Option C.Seed
  current_seed d = elim d.session [ none ↦ none | some s ↦ some s.0 ]

  abbrev pub session_opened_at : Device → ℕ
  session_opened_at d = elim d.session [ none ↦ 0 | some s ↦ s.1 ]

  abbrev pub close_session : Device → Device
  close_session d = record d { session = none }

  abbrev pub adopt : C.Seed → ℕ → Device → Device
  adopt seed started_at d = record (close_session d) { session = some (seed, started_at) }

  unfoldable pub begin_session : Mnemonic → LockPolicyId → ℕ → Device → Device
  begin_session mnemonic policy now d =
      let opened = adopt (mnemonic_seed mnemonic) now d in
      record opened {
        browser =
            (seal_resume C (current_seed opened) policy (some (session_opened_at opened))
              opened.browser).1;
      }

  -- `signIn(identity).catch(() => { startSessionRecovery(); })`
  abbrev pub sign_in : Bool → Device → Device
  sign_in succeeds d = if succeeds then d else record d { recovering = true }

  unfoldable pub open_unsecured_session :
      Option Mnemonic → LockPolicyId → ℕ → Bool → Device → Bool × Device
  unfolding begin_session
  open_unsecured_session none policy now succeeds d = (false, d)
  open_unsecured_session (some mnemonic) policy now succeeds d =
      (true, sign_in succeeds (begin_session mnemonic policy now d))

  abbrev pub resumed :
      Option (C.Seed × Option ℕ)
      → Option Mnemonic
      → LockPolicyId
      → ℕ
      → Bool
      → Device
      → Bool × Device
  resumed none unsecured policy now succeeds d =
      open_unsecured_session unsecured policy now succeeds d
  resumed (some (seed, opened_at)) unsecured policy now succeeds d =
      (true, sign_in succeeds (adopt seed (or_else opened_at 0) d))

  unfoldable pub restore_session :
      Option Mnemonic → LockPolicyId → ℕ → Bool → Device → Bool × Device
  unfolding open_unsecured_session
  restore_session unsecured policy now succeeds d =
      let token = open_resume C policy now d.browser in
      resumed token.0 unsecured policy now succeeds (record d { browser = token.1 })

  unfoldable pub end_session : Device → Device
  end_session d = record d {
    session = none;
    recovering = false;
    browser = clear_resume C d.browser;
  }

  -- The choice was saved by `writeLockPolicy`, which gave `policy`.
  unfoldable pub apply_lock_policy : LockPolicyId → Device → Device
  apply_lock_policy policy d =
      if is_always policy then record d { browser = clear_resume C d.browser } else record d {
        browser = (seal_resume C (current_seed d) policy (some (session_opened_at d)) d.browser).1;
      }

  -- What happens to a session after its unlock; a reload loses all that is in memory.
  pub data Operation : Type 0 where
    reload lock : Operation
    restore : LockPolicyId → (now : ℕ) → (succeeds : Bool) → Operation
    apply : LockPolicyId → Operation

  unfoldable pub perform : Operation → Device → Device
  unfolding restore_session end_session apply_lock_policy
  perform reload d = record d { session = none; recovering = false }
  perform lock d = end_session d
  perform (restore policy now succeeds) d = (restore_session none policy now succeeds d).1
  perform (apply policy) d = apply_lock_policy policy d

  unfoldable pub perform_all : List Operation → Device → Device
  unfolding perform
  perform_all [] d = d
  perform_all (op ∷ ops) d = perform_all ops (perform op d)
