-- ===== src/AccountPrivacy/Tests.antt =====
-- A standard account that is locked, and one that turns out anonymous.
use timber_chat.Prelude.{String, true, false, ◌≡◌, refl, none, some, [], ◌∷◌}
use timber_chat.AccountPrivacy.{
  Privacy, analytics_allowed, set_account_privacy, set_privacy_identity, filter_analytics_event,
  identity, activity, change_all,
}
use timber_chat.AccountPrivacy.Silence.{filter_analytics_event_lem}

abbrev running : Privacy
running = record {
  anonymous = some false;
  active = true;
  account_id = some "ann";
  active_id = some "ann";
}

allowed : analytics_allowed running ≡ true
unfolding analytics_allowed
allowed = refl

filter_analytics_event_lem_example :
    (filter_analytics_event {A = String} "pageview"
        (change_all (identity (some "ann") ∷ []) (set_privacy_identity none running))
      ≡ none)
    × (filter_analytics_event {A = String} "pageview"
          (change_all (activity true ∷ []) (set_account_privacy (some true) (some "ann") running))
        ≡ none)
filter_analytics_event_lem_example =
    filter_analytics_event_lem {A = String} "pageview" (some true) (some "ann") running
      (identity (some "ann") ∷ []) (activity true ∷ []) refl refl refl
