-- ===== src/AccountPrivacy.antt =====
-- frontend/src/lib/accountPrivacy.js: whether optional analytics may run. The listeners are left out.
pub mod Silence
mod Tests
use timber_chat.Prelude.{
  String, Bool, true, false, not, ◌&&◌, Option, none, some, List, [], ◌∷◌, ◌==◌, if◌then◌else◌,
}

-- `anonymous`, `active`, `accountId` and `activeId`.
pub record Privacy : Type 0 where
  pub anonymous : Option Bool
  pub active : Bool
  pub account_id : Option String
  pub active_id : Option String

abbrev pub is_account_of : Option String → Option String → Bool
is_account_of account none = false
is_account_of none (some id) = false
is_account_of (some account) (some id) = account == id

-- `anonymous === false`
abbrev pub is_standard : Option Bool → Bool
is_standard none = false
is_standard (some anonymous) = not anonymous

unfoldable pub analytics_allowed : Privacy → Bool
analytics_allowed s =
    s.active && (is_account_of s.account_id s.active_id && is_standard s.anonymous)

unfoldable pub set_account_privacy : Option Bool → Option String → Privacy → Privacy
set_account_privacy value user_id s = record s { anonymous = value; account_id = user_id }

unfoldable pub set_privacy_identity : Option String → Privacy → Privacy
set_privacy_identity none s = record s { active_id = none; active = false }
set_privacy_identity (some id) s = record s { active_id = some id }

unfoldable pub set_analytics_session_active : Bool → Privacy → Privacy
set_analytics_session_active value s = record s { active = value }

unfoldable pub filter_analytics_event : {A : Type 0} → A → Privacy → Option A
unfolding analytics_allowed
filter_analytics_event event s = if analytics_allowed s then some event else none

-- A call of one of the setters.
pub data Change : Type 0 where
  account : Option Bool → Option String → Change
  identity : Option String → Change
  activity : Bool → Change

unfoldable pub change : Change → Privacy → Privacy
unfolding set_account_privacy set_privacy_identity set_analytics_session_active
change (account value user_id) s = set_account_privacy value user_id s
change (identity user_id) s = set_privacy_identity user_id s
change (activity value) s = set_analytics_session_active value s

unfoldable pub change_all : List Change → Privacy → Privacy
unfolding change
change_all [] s = s
change_all (c ∷ cs) s = change_all cs (change c s)
