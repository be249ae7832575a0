-- ===== src/Calls/Tests.antt =====
-- Calls at concrete events.
use timber_chat.Prelude.{
  insert, ℕ, String, true, ◌≡◌, refl, none, some, List, [], ◌∷◌, ◌++◌, take, length, ◌≤◌, arith,
  lookup,
}
use timber_chat.Presentation.{video}
use timber_chat.Calls.{
  incoming, Wire, Signal, resolved, rejected, start_tracks, Controller, Pending,
}
use timber_chat.Calls.Signals.{Kind, ice_candidate, offer, orphan_limit}
use timber_chat.Calls.Events.{
  Event, started, accepted, hung_up, resumed, framed, settled, steps, mounted, end_call,
}
use timber_chat.Calls.Streams.{held_by}
use timber_chat.Calls.Streams.Run.{are_orderly, live-held_by}
use timber_chat.Calls.Streams.Resumed.{resumed-hung_up}
use timber_chat.Calls.Candidates.{
  candidate_frames, orphans_of, ringing-candidates, orphans-candidates,
}

abbrev bare : Signal
bare = record { t = ""; call_id = ""; candidate = none }

abbrev wire : String → Wire
wire call_id = record {
  conversation_id = "room";
  call_id = call_id;
  media = "video";
  username = "Ada";
  reason = "";
}

abbrev offered : Signal
offered = record { t = "offer"; call_id = "c1"; candidate = none }

-- A call is placed, its stream captured and its offer prepared, up to the sealing of it.
abbrev placing : List (ℕ × Event)
placing =
    (1, started "c1" "room" video "Ada")
    ∷ (2, settled 0 (resolved bare))
    ∷ (3, settled 0 (resolved bare))
    ∷ (4, settled 0 (resolved bare))
    ∷ (5, settled 0 (resolved bare))
    ∷ []

abbrev ringing_events : List (ℕ × Event)
ringing_events = (1, framed offer (wire "c1")) ∷ (2, settled 0 (resolved offered)) ∷ []

-- The call that is placed captures, and stops when it is hung up.
placed : (steps placing mounted).live ≡ 0 ∷ []
unfolding steps lookup
placed = refl

ended_streams : (steps (placing ++ (6, hung_up "hangup") ∷ []) mounted).live ≡ []
unfolding steps lookup
ended_streams = refl

-- Two presses of Accept capture two streams, and hanging up stops one.
accepted_twice :
    (steps
      (ringing_events
        ++ (3, accepted)
          ∷ (4, accepted)
          ∷ (5, settled 0 (resolved bare))
          ∷ (6, settled 0 (resolved bare))
          ∷ (7, hung_up "hangup")
          ∷ [])
      mounted).live
    ≡ 0 ∷ []
unfolding steps lookup
accepted_twice = refl

abbrev kept_call : Pending
kept_call = record { offer = wire "c2"; signals = wire "c2" ∷ [] }

abbrev offered_again : Signal
offered_again = record { t = "offer"; call_id = "c2"; candidate = none }

-- The caller hangs up while a candidate that came early is opened: the call still comes up, and nothing is
-- left that the buttons could end.
abbrev phantom : Controller
unfolding steps lookup
phantom =
    steps
      ((1, framed ice_candidate (wire "c1"))
        ∷ (2, framed offer (wire "c1"))
        ∷ (3, settled 0 (resolved offered))
        ∷ (4, framed Kind.ended (wire "c1"))
        ∷ (5, settled 0 (rejected "stale"))
        ∷ [])
      mounted

phantom_call :
    (phantom.view.phase ≡ incoming)
    × (phantom.current ≡ none)
    × (end_call 6 "declined" phantom ≡ phantom)
unfolding phantom end_call insert
phantom_call = (refl, refl, refl)

-- A kept call is installed over a call that is placed meanwhile: its stream goes on, and hanging up does
-- not stop it.
resumed_over :
    (steps
      ((1, resumed (some kept_call))
        ∷ (2, settled 0 (resolved bare))
        ∷ (3, settled 0 (resolved offered_again))
        ∷ (4, started "c1" "room" video "Ada")
        ∷ (5, settled 1 (resolved bare))
        ∷ (6, settled 0 (resolved bare))
        ∷ (7, hung_up "hangup")
        ∷ [])
      mounted).live
    ≡ 0 ∷ []
unfolding steps lookup
resumed_over = refl

-- The kept call while its last candidate is opened, and a call that is placed by then.
abbrev resuming : Controller
unfolding steps lookup
resuming =
    steps
      ((1, resumed (some kept_call))
        ∷ (2, settled 0 (resolved bare))
        ∷ (3, settled 0 (resolved offered_again))
        ∷ (4, started "c1" "room" video "Ada")
        ∷ (5, settled 1 (resolved bare))
        ∷ [])
      mounted

abbrev placed_call : Controller
unfolding steps lookup
placed_call = steps placing mounted

abbrev ringing_call : Controller
unfolding steps lookup
ringing_call = steps ringing_events mounted

placing-are_orderly : are_orderly placing mounted ≡ true
unfolding are_orderly steps
placing-are_orderly = refl

live-held_by_example : (steps placing mounted).live ≡ held_by (steps placing mounted)
live-held_by_example = live-held_by placing placing-are_orderly

ringing-candidates_example :
    steps (candidate_frames 9 (wire "c1" ∷ wire "c1" ∷ [])) ringing_call ≡ ringing_call
unfolding ringing_call
ringing-candidates_example =
    ringing-candidates 9 0 (wire "c1" ∷ wire "c1" ∷ []) ringing_call refl refl

mounted-orphans : length (orphans_of "c1" mounted) ≤ orphan_limit
unfolding lookup
mounted-orphans = omega arith

orphans-candidates_example :
    orphans_of "c1" (steps (candidate_frames 9 (wire "c1" ∷ [])) mounted)
    ≡ take orphan_limit (orphans_of "c1" mounted ++ wire "c1" ∷ [])
orphans-candidates_example =
    orphans-candidates 9 "c1" (wire "c1" ∷ []) mounted refl refl mounted-orphans

resumed-hung_up_example :
    (steps ((9, settled 0 (resolved bare)) ∷ (10, hung_up "hangup") ∷ []) resuming).live
    ≡ resuming.live
unfolding resuming
resumed-hung_up_example =
    resumed-hung_up 9 10 0 0 (wire "c2") (wire "c2") [] bare "hangup" (start_tracks 0 ∷ []) resuming
      refl refl
