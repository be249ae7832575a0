-- ===== src/Session/Lifecycle/Lease.antt =====
-- The moment of the unlock, through reloads and changes of the policy.
use mathlib.Core.Bool.{false≢true}
use mathlib.Core.Path.{subst}
use timber_chat.Prelude.{
  ℕ, Bool, false, not, ◌||◌, ◌≡◌, ◌⊎◌, inl, inr, refl, sym, ap, ◌∙◌, Option, none, some, List, [],
  ◌∷◌, Option-cases, Bool-cases, arith,
}
use timber_chat.Session.LockPolicy.{LockPolicyId, is_always, can_resume_session}
use timber_chat.Session.Resume.{
  Cipher, Browser, ResumeRecord, clear_resume, seal_resume, open_resume,
}
use timber_chat.Session.Lifecycle.{
  Device, begin_session, restore_session, end_session, apply_lock_policy, open_unsecured_session,
  Operation, reload, lock, restore, apply, perform, perform_all,
}

module _ (C : Cipher) (seed : C.Seed) (t : ℕ) where
  -- The token is of this session.
  abbrev IsOwnToken : Option (ResumeRecord C) → Type 0
  IsOwnToken none = Unit
  IsOwnToken (some r) = (C.decrypt r.sealed ≡ some seed) × (r.opened_at ≡ some t)

  -- A browser that does not open its database is asked in vain.
  abbrev IsOwnBrowser : Browser C → Type 0
  IsOwnBrowser b = (b.opens ≡ false) ⊎ IsOwnToken b.resume

  abbrev IsOwnSession : Option (C.Seed × ℕ) → Type 0
  IsOwnSession s = (s ≡ none) ⊎ (s ≡ some (seed, t))

  clear_resume-IsOwnBrowser : (b : Browser C) → IsOwnBrowser (clear_resume C b)
  unfolding clear_resume
  clear_resume-IsOwnBrowser b = elim (Bool-cases b.opens) [
    | inl e ↦ rw e (inr tt)
    | inr e ↦ rw e (inl refl)
  ]

  seal_resume-IsOwnBrowser :
      (policy : LockPolicyId) (b : Browser C)
      → IsOwnBrowser (seal_resume C (some seed) policy (some t) b).1
  unfolding seal_resume
  seal_resume-IsOwnBrowser policy b = elim (Bool-cases (is_always policy || not b.has_subtle)) [
    | inl e ↦ rw e (clear_resume-IsOwnBrowser b)
    | inr e ↦ elim (Bool-cases (C.is_backed seed)) [
      | inl f ↦ elim (Option-cases (C.encrypt seed)) [
        | inl g ↦ rw (e, f, g) (clear_resume-IsOwnBrowser b)
        | inr (sealed, g) ↦ elim (Bool-cases b.opens) [
          | inl k ↦ rw (e, f, g, k) (inr (C.decrypt-encrypt seed sealed g, refl))
          | inr k ↦ rw (e, f, g, k) (inl refl)
        ]
      ]
      | inr f ↦ rw (e, f) (clear_resume-IsOwnBrowser b)
    ]
  ]

  seal_none-IsOwnBrowser :
      (policy : LockPolicyId) (o : Option ℕ) (b : Browser C)
      → IsOwnBrowser (seal_resume C none policy o b).1
  unfolding seal_resume
  seal_none-IsOwnBrowser policy o b = clear_resume-IsOwnBrowser b

  open_resume-IsOwn :
      (policy : LockPolicyId) (now : ℕ) (b : Browser C)
      → IsOwnBrowser b
      → (((open_resume C policy now b).0 ≡ none)
          ⊎ ((open_resume C policy now b).0 ≡ some (seed, some t)))
        × IsOwnBrowser (open_resume C policy now b).1
  unfolding open_resume
  open_resume-IsOwn policy now b h = elim (Bool-cases (is_always policy || not b.has_subtle)) [
    | inl e ↦ rw e (inl refl, clear_resume-IsOwnBrowser b)
    | inr e ↦ elim (Bool-cases b.opens) [
      | inr f ↦ rw (e, f) (inl refl, inl refl)
      | inl f ↦ elim (Option-cases b.resume) [
        | inl g ↦ rw (e, f, g) (inl refl, inr tt)
        | inr (r, g) ↦
            let own : IsOwnToken (some r) = elim h [
              | inl shut ↦ absurd (false≢true (sym shut ∙ f))
              | inr mine ↦ subst IsOwnToken g mine
            ] in
            elim (Bool-cases (can_resume_session policy r.opened_at now)) [
              | inl k ↦ rw (e, f, g, k, own.0) (inr (ap (λ o. some (seed, o)) own.1), inr own)
              | inr k ↦ rw (e, f, g, k) (inl refl, inr tt)
            ]
      ]
    ]
  ]

module _ (C : Cipher) {Mnemonic : Type 0} (mnemonic_seed : Mnemonic → C.Seed) (seed : C.Seed)
    (t : ℕ) where
  -- No session, or this one; and no token, or its own.
  abbrev IsOwn : Device C mnemonic_seed → Type 0
  IsOwn d = IsOwnSession C seed t d.session × IsOwnBrowser C seed t d.browser

  apply_lock_policy-IsOwn :
      (policy : LockPolicyId) (d : Device C mnemonic_seed)
      → IsOwn d
      → IsOwn (apply_lock_policy C mnemonic_seed policy d)
  unfolding apply_lock_policy
  apply_lock_policy-IsOwn policy d h = elim (Bool-cases (is_always policy)) [
    | inl e ↦ rw e (h.0, clear_resume-IsOwnBrowser C seed t d.browser)
    | inr e ↦ rw e (
      h.0,
      elim h.0 [
        | inl none_open ↦ rw none_open (seal_none-IsOwnBrowser C seed t policy (some 0) d.browser)
        | inr mine ↦ rw mine (seal_resume-IsOwnBrowser C seed t policy d.browser)
      ],
    )
  ]

  restore_session-IsOwn :
      (policy : LockPolicyId) (now : ℕ) (succeeds : Bool) (d : Device C mnemonic_seed)
      → IsOwn d
      → IsOwn (restore_session C mnemonic_seed none policy now succeeds d).1
  unfolding restore_session open_unsecured_session
  restore_session-IsOwn policy now succeeds d h =
      let token = open_resume-IsOwn C seed t policy now d.browser h.1 in
      elim token.0 [
        | inl e ↦ rw e (h.0, token.1)
        | inr e ↦ rw e (elim (Bool-cases succeeds) [
          | inl ok ↦ rw ok (inr refl, token.1)
          | inr failed ↦ rw failed (inr refl, token.1)
        ])
      ]

  perform_all-IsOwn :
      (ops : List (Operation C mnemonic_seed)) (d : Device C mnemonic_seed)
      → IsOwn d
      → IsOwn (perform_all C mnemonic_seed ops d)
  unfolding perform_all perform end_session
  perform_all-IsOwn [] d h = h
  perform_all-IsOwn (reload ∷ ops) d h =
      perform_all-IsOwn ops (perform C mnemonic_seed reload d) (inl refl, h.1)
  perform_all-IsOwn (lock ∷ ops) d h =
      perform_all-IsOwn ops (end_session C mnemonic_seed d)
        (inl refl, clear_resume-IsOwnBrowser C seed t d.browser)
  perform_all-IsOwn (restore policy now succeeds ∷ ops) d h =
      perform_all-IsOwn ops (restore_session C mnemonic_seed none policy now succeeds d).1
        (restore_session-IsOwn policy now succeeds d h)
  perform_all-IsOwn (apply policy ∷ ops) d h =
      perform_all-IsOwn ops (apply_lock_policy C mnemonic_seed policy d)
        (apply_lock_policy-IsOwn policy d h)

-- An account with a PIN, unlocked at `t`: whatever reloads, resumptions, changes of the policy and
-- locks follow, a session that is open is the one of that phrase, and its time is still `t`, so no
-- reload renews the lease.
pub begin_session-session :
    (C : Cipher) {Mnemonic : Type 0} (mnemonic_seed : Mnemonic → C.Seed) (mnemonic : Mnemonic)
    (policy : LockPolicyId) (t : ℕ) (ops : List (Operation C mnemonic_seed))
    (d : Device C mnemonic_seed)
    → ((perform_all C mnemonic_seed ops (begin_session C mnemonic_seed mnemonic policy t d)).session
        ≡ none)
      ⊎ ((perform_all C mnemonic_seed ops
            (begin_session C mnemonic_seed mnemonic policy t d)).session
          ≡ some (mnemonic_seed mnemonic, t))
unfolding begin_session
begin_session-session C mnemonic_seed mnemonic policy t ops d =
    (perform_all-IsOwn C mnemonic_seed (mnemonic_seed mnemonic) t ops
      (begin_session C mnemonic_seed mnemonic policy t d)
      (inr refl, seal_resume-IsOwnBrowser C (mnemonic_seed mnemonic) t policy d.browser)).0

-- After a lock of an account with a PIN, no reload gets in, under any policy and at any time.
pub restore_session-end_session :
    (C : Cipher) {Mnemonic : Type 0} (mnemonic_seed : Mnemonic → C.Seed) (policy : LockPolicyId)
    (now : ℕ) (succeeds : Bool) (d : Device C mnemonic_seed)
    → ((restore_session C mnemonic_seed none policy now succeeds (end_session C mnemonic_seed d)).0
        ≡ false)
      × ((restore_session C mnemonic_seed none policy now succeeds
            (end_session C mnemonic_seed d)).1.session
          ≡ none)
unfolding restore_session end_session open_unsecured_session open_resume clear_resume
restore_session-end_session C mnemonic_seed policy now succeeds d = ground arith
