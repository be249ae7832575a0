-- ===== src/Recovery/Tests.antt =====
-- A recovery that tries, fails, and is locked while it tries again.
use timber_chat.Prelude.{◌≡◌, refl, false, none, some, List, [], ◌∷◌}
use timber_chat.Recovery.{Recovery, Event, start, fired, online, lock, answered, on_events}
use timber_chat.Recovery.Armed.{IsArmed, on_events-IsArmed}

abbrev at_rest : Recovery
at_rest = record {
  running = false;
  attempt = 0;
  timer = none;
  listening = false;
  asking = [];
  attesting = [];
  unlocked = some "ann";
  token = none;
}

abbrev night : List Event
night = start ∷ fired ∷ answered 0 none ∷ online ∷ answered 0 (some "eve") ∷ []

-- The second attempt is three seconds away, and a locked app may still be given a token.
tests :
    ((on_events (start ∷ fired ∷ answered 0 none ∷ []) at_rest).timer ≡ some 3000)
    × ((on_events (start ∷ fired ∷ lock ∷ answered 0 (some "ann") ∷ []) at_rest).token ≡ some "ann")
unfolding on_events
tests = (refl, refl)

on_events-IsArmed_example : IsArmed (on_events night at_rest)
on_events-IsArmed_example =
    on_events-IsArmed night at_rest
      (record { awaits = refl; listens = refl; idle = refl; within = refl })
