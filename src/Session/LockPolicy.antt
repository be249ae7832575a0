-- ===== src/Session/LockPolicy.antt =====
-- frontend/src/lib/lockPolicy.ts
use timber_chat.Prelude.{
  ℕ, ◌+◌, String, Bool, true, false, Option, none, some, Dict, lookup, insert, ltb, leb, ◌==◌,
  if◌then◌else◌,
}

pub data LockPolicyId : Type 0 where
  always two_hours week never : LockPolicyId

abbrev pub lock_policy_storage_key : String
lock_policy_storage_key = "timber-lock-policy"

abbrev pub default_lock_policy : LockPolicyId
default_lock_policy = week

abbrev pub session_lease_ms : ℕ
session_lease_ms = 7_200_000

abbrev pub week_lease_ms : ℕ
week_lease_ms = 604_800_000

-- The id as it is stored.
abbrev pub policy_text : LockPolicyId → String
policy_text always = "always"
policy_text two_hours = "two-hours"
policy_text week = "week"
policy_text never = "never"

abbrev pub lease_for : LockPolicyId → Option ℕ
lease_for two_hours = some session_lease_ms
lease_for week = some week_lease_ms
lease_for _ = none

-- `none` is a value that is no text.
unfoldable pub normalize_lock_policy : Option String → LockPolicyId
normalize_lock_policy none = default_lock_policy
normalize_lock_policy (some value) =
    if value == "always"
    then always
    else if value == "two-hours"
    then two_hours
    else if value == "week"
    then week
    else if value == "never"
    then never
    else default_lock_policy

-- `localStorage`, which a browser may refuse.
pub record Storage : Type 0 where
  pub refuses : Bool
  pub items : Dict String

unfoldable pub read_lock_policy : Storage → LockPolicyId
unfolding normalize_lock_policy
read_lock_policy storage =
    if storage.refuses
    then default_lock_policy
    else normalize_lock_policy (lookup lock_policy_storage_key storage.items)

unfoldable pub write_lock_policy : Option String → Storage → LockPolicyId × Storage
unfolding normalize_lock_policy
write_lock_policy value storage =
    let policy = normalize_lock_policy value in
    (
      policy,
      if storage.refuses then storage else record storage {
        items = insert lock_policy_storage_key (policy_text policy) storage.items;
      },
    )

-- `Number.isFinite(openedAt) && openedAt > 0`; `none` is a value that is not finite.
abbrev pub is_instant : Option ℕ → Bool
is_instant none = false
is_instant (some t) = ltb 0 t

abbrev deadline_of : Option ℕ → Option ℕ → Option ℕ
deadline_of none opened_at = none
deadline_of (some lease) none = none
deadline_of (some lease) (some t) = if leb t 0 then none else some (t + lease)

unfoldable pub session_deadline : LockPolicyId → Option ℕ → Option ℕ
session_deadline policy opened_at = deadline_of (lease_for policy) opened_at

abbrev lease_runs : Option ℕ → ℕ → ℕ → Bool
lease_runs none opened_at now = true
lease_runs (some lease) opened_at now = ltb now (opened_at + lease)

abbrev pub is_always : LockPolicyId → Bool
is_always always = true
is_always _ = false

abbrev resumes : LockPolicyId → Option ℕ → ℕ → Bool
resumes policy none now = false
resumes policy (some t) now =
    if leb t 0 then false else if ltb now t then false else lease_runs (lease_for policy) t now

unfoldable pub can_resume_session : LockPolicyId → Option ℕ → ℕ → Bool
can_resume_session policy opened_at now =
    if is_always policy then false else resumes policy opened_at now
