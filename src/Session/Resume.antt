-- ===== src/Session/Resume.antt =====
-- frontend/src/crypto/resume.ts: the sealed seed that lets a reload continue an unlocked session.
use mathlib.Core.Bool.{not, ◌||◌}
use timber_chat.Prelude.{ℕ, Bool, true, false, ◌≡◌, Option, none, some, arith, if◌then◌else◌}
use timber_chat.Session.LockPolicy.{LockPolicyId, is_always, can_resume_session}

-- `crypto.subtle`: AES-GCM under a fresh key that is not extractable. Each call may fail, and what
-- was sealed opens to what it was.
pub record Cipher : Type 1 where
  pub Seed : Type 0
  pub Sealed : Type 0
  pub is_backed : Seed → Bool
  pub encrypt : Seed → Option Sealed
  pub decrypt : Sealed → Option Seed
  pub decrypt-encrypt :
      (seed : Seed) (sealed : Sealed) → encrypt seed ≡ some sealed → decrypt sealed ≡ some seed

module _ (C : Cipher) where
  pub record ResumeRecord : Type 0 where
    pub sealed : C.Sealed
    pub opened_at : Option ℕ

  -- Whether this browser has `crypto.subtle` and opens the database, and the record under "resume".
  pub record Browser : Type 0 where
    pub has_subtle : Bool
    pub opens : Bool
    pub resume : Option ResumeRecord

  unfoldable pub clear_resume : Browser → Browser
  clear_resume b = if b.opens then record b { resume = none } else b

  abbrev store_sealed : Option C.Sealed → Option ℕ → Browser → Bool × Browser
  store_sealed none opened_at b = (false, clear_resume b)
  store_sealed (some sealed) opened_at b =
      if b.opens
      then (true, record b { resume = some (record { sealed = sealed; opened_at = opened_at }) })
      else (false, clear_resume b)

  abbrev seal_seed : Option C.Seed → LockPolicyId → Option ℕ → Browser → Bool × Browser
  seal_seed none policy opened_at b = (false, clear_resume b)
  seal_seed (some seed) policy opened_at b =
      if is_always policy || not b.has_subtle
      then (false, clear_resume b)
      else if C.is_backed seed
      then store_sealed (C.encrypt seed) opened_at b
      else (false, clear_resume b)

  unfoldable pub seal_resume : Option C.Seed → LockPolicyId → Option ℕ → Browser → Bool × Browser
  unfolding clear_resume
  seal_resume seed policy opened_at b = seal_seed seed policy opened_at b

  abbrev unsealed : Option C.Seed → Option ℕ → Browser → Option (C.Seed × Option ℕ) × Browser
  unsealed none opened_at b = (none, clear_resume b)
  unsealed (some seed) opened_at b = (some (seed, opened_at), b)

  abbrev open_record :
      Option ResumeRecord → LockPolicyId → ℕ → Browser → Option (C.Seed × Option ℕ) × Browser
  open_record none policy now b = (none, b)
  open_record (some r) policy now b =
      if can_resume_session policy r.opened_at now
      then unsealed (C.decrypt r.sealed) r.opened_at b
      else (none, clear_resume b)

  unfoldable pub open_resume : LockPolicyId → ℕ → Browser → Option (C.Seed × Option ℕ) × Browser
  unfolding clear_resume
  open_resume policy now b =
      if is_always policy || not b.has_subtle
      then (none, clear_resume b)
      else if b.opens
      then open_record b.resume policy now b
      else (none, b)

  -- A reload gets back the seed and the time of the unlock exactly while the policy allows it; under
  -- a policy that does not, it gets nothing.
  pub open_resume-seal_resume :
      (seed : C.Seed) (sealed : C.Sealed) (policy : LockPolicyId) (opened_at : Option ℕ) (now : ℕ)
      (b : Browser)
      → b.has_subtle ≡ true
      → b.opens ≡ true
      → C.is_backed seed ≡ true
      → C.encrypt seed ≡ some sealed
      → (open_resume policy now (seal_resume (some seed) policy opened_at b).1).0
        ≡ (if can_resume_session policy opened_at now then some (seed, opened_at) else none)
  unfolding open_resume seal_resume can_resume_session
  open_resume-seal_resume seed sealed policy opened_at now b subtle opens backed e =
      ground (arith, C.decrypt-encrypt seed sealed e)

  -- A token that a reload refuses is gone for good: no later policy and no clock brings it back.
  pub open_resume_dead :
      (policy later : LockPolicyId) (now then_now : ℕ) (b : Browser)
      → b.opens ≡ true
      → (open_resume policy now b).0 ≡ none
      → (open_resume later then_now (open_resume policy now b).1).0 ≡ none
  unfolding open_resume
  open_resume_dead policy later now then_now b opens refused = ground arith
