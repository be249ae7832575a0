-- ===== src/AccountPrivacy/Silence.antt =====
-- When no event leaves the device.
use timber_chat.Prelude.{
  String, Bool, true, false, ◌||◌, ◌≡◌, refl, Option, none, some, List, [], ◌∷◌, arith,
}
use timber_chat.AccountPrivacy.{
  Privacy, is_standard, set_account_privacy, set_privacy_identity, filter_analytics_event, Change,
  account, identity, activity, change, change_all,
}

-- Some change declares analytics active.
abbrev pub activates : List Change → Bool
activates [] = false
activates (activity value ∷ cs) = value || activates cs
activates (_ ∷ cs) = activates cs

-- Some change declares the account to be a standard one.
abbrev pub declares_standard : List Change → Bool
declares_standard [] = false
declares_standard (account value user_id ∷ cs) = is_standard value || declares_standard cs
declares_standard (_ ∷ cs) = declares_standard cs

change_all-active :
    (cs : List Change) (s : Privacy)
    → activates cs ≡ false
    → s.active ≡ false
    → (change_all cs s).active ≡ false
unfolding change_all
change_all-active [] s quiet h = h
change_all-active (account value user_id ∷ cs) s quiet h =
    change_all-active cs (change (account value user_id) s) quiet h
change_all-active (identity none ∷ cs) s quiet h =
    change_all-active cs (change (identity none) s) quiet refl
change_all-active (identity (some id) ∷ cs) s quiet h =
    change_all-active cs (change (identity (some id)) s) quiet h
change_all-active (activity true ∷ cs) s quiet h = ground (arith, quiet)
change_all-active (activity false ∷ cs) s quiet h =
    change_all-active cs (change (activity false) s) quiet refl

change_all-standard :
    (cs : List Change) (s : Privacy)
    → declares_standard cs ≡ false
    → is_standard s.anonymous ≡ false
    → is_standard (change_all cs s).anonymous ≡ false
unfolding change_all
change_all-standard [] s quiet h = h
change_all-standard (account none user_id ∷ cs) s quiet h =
    change_all-standard cs (change (account none user_id) s) quiet refl
change_all-standard (account (some true) user_id ∷ cs) s quiet h =
    change_all-standard cs (change (account (some true) user_id) s) quiet refl
change_all-standard (account (some false) user_id ∷ cs) s quiet h = ground (arith, quiet)
change_all-standard (identity none ∷ cs) s quiet h =
    change_all-standard cs (change (identity none) s) quiet h
change_all-standard (identity (some id) ∷ cs) s quiet h =
    change_all-standard cs (change (identity (some id)) s) quiet h
change_all-standard (activity value ∷ cs) s quiet h =
    change_all-standard cs (change (activity value) s) quiet h

-- From a lock on, until a session is declared active, and from the moment that the account is
-- declared anonymous or unknown, until it is declared standard, every analytics event is dropped.
pub filter_analytics_event_lem :
    {A : Type 0} (event : A) (value : Option Bool) (user_id : Option String) (s : Privacy)
    (locked undeclared : List Change)
    → activates locked ≡ false
    → is_standard value ≡ false
    → declares_standard undeclared ≡ false
    → (filter_analytics_event event (change_all locked (set_privacy_identity none s)) ≡ none)
      × (filter_analytics_event event (change_all undeclared (set_account_privacy value user_id s))
          ≡ none)
unfolding filter_analytics_event
filter_analytics_event_lem event value user_id s locked undeclared quiet unknown undeclared_yet =
    let inactive =
      change_all-active locked (set_privacy_identity none s) quiet
        (unfold set_privacy_identity in refl) in
    let private_still =
      change_all-standard undeclared (set_account_privacy value user_id s) undeclared_yet
        (unfold set_account_privacy in unknown) in
    (ground (arith, inactive), ground (arith, private_still))
