-- ===== src/Calls/Streams/Run.antt =====
-- Which streams capture, through every event.
use timber_chat.Prelude.{
  pull, both, ℕ, ◌+◌, ◌≤◌, Bool, true, not, ◌&&◌, ◌≡◌, inl, inr, refl, Option, none, some, List, [],
  ◌∷◌, Option-cases, arith,
}
use timber_chat.Calls.{
  Answer, Await, Controller, is_some, start_media, start_tracks, start_offer, start_card,
  start_sealing, start_failing, accept_media, accept_remote, accept_tracks, accept_answer,
  accept_sealing, accept_flush, answer_flush, candidate_sealing, candidate_adding, offer_opening,
  early_opening, answer_opening, answer_remote, candidate_opening, resume_fetching, resume_opening,
  resume_candidate,
}
use timber_chat.Calls.Stages.{go_on}
use timber_chat.Calls.Events.{
  started, hung_up, muted, camera, dismissed, unmounted, framed, connected, failed, timed,
  candidate, switched, Event, accepted, resumed, settled, step, steps, mounted,
}
use timber_chat.Calls.Streams.{IsHeld, media_top, is_ready, is_clear, media_count, pull-media}
use timber_chat.Calls.Streams.Stages.{go_on-IsHeld}
use timber_chat.Calls.Streams.{media_of, media_top, held_by}
use timber_chat.Calls.Streams.Handlers.{
  own_media, is_unasked, end_call-IsHeld, start_call-IsHeld, accept_call-IsHeld,
  on_connected-IsHeld, on_failed-IsHeld, on_local_candidate-IsHeld, on_timer-IsHeld, unmount-IsHeld,
  resume-IsHeld, toggle_muted-IsHeld, toggle_camera-IsHeld, dismiss_notice-IsHeld,
}
use timber_chat.Calls.Streams.Frames.{on_frame-IsHeld}

-- A kept call is not installed over one that began meanwhile.
abbrev fits : Await → Controller → Bool
fits (resume_candidate o found w ws) c = not (is_some c.current)
fits _ c = true

-- What is asked of an event: that, and that Accept is not pressed while an earlier press still waits for
-- the camera.
unfoldable pub is_orderly : Event → Controller → Bool
is_orderly accepted c = is_unasked c
is_orderly (settled p _) c = elim (pull p c.waiting) [ none ↦ true | some (a, rest) ↦ fits a c ]
is_orderly _ c = true

unfoldable pub are_orderly : List (ℕ × Event) → Controller → Bool
unfolding is_orderly step
are_orderly [] c = true
are_orderly ((now, e) ∷ es) c = is_orderly e c && are_orderly es (step now e c)

-- The stream that was awaited is the only one of its call.
ready :
    (r : ℕ) (a : Await) (rest : List Await) (c : Controller)
    → ((k : ℕ) → media_count k c.waiting ≡ media_of k a + media_count k rest)
    → media_of r a ≡ 1
    → IsHeld c
    → is_ready r (record c { waiting = rest }) ≡ true
ready r a rest c counted one h = elim (Option-cases c.current) [
  | inl e ↦ ground (arith, e)
  | inr (k, e) ↦ ground (arith, e, counted k)
]

pulled-is_clear :
    (a : Await) (rest : List Await) (c : Controller)
    → ((r : ℕ) → media_count r c.waiting ≡ media_of r a + media_count r rest)
    → fits a c ≡ true
    → IsHeld c
    → is_clear a (record c { waiting = rest }) ≡ true
pulled-is_clear (start_media r) rest c counted o h =
    ready r (start_media r) rest c counted (own_media r) h
pulled-is_clear (accept_media r) rest c counted o h =
    ready r (accept_media r) rest c counted (own_media r) h
pulled-is_clear (resume_candidate offer found w ws) rest c counted o h = o
pulled-is_clear (start_tracks r) rest c counted o h = refl
pulled-is_clear (start_offer r) rest c counted o h = refl
pulled-is_clear (start_card r) rest c counted o h = refl
pulled-is_clear (start_sealing r) rest c counted o h = refl
pulled-is_clear (start_failing r) rest c counted o h = refl
pulled-is_clear (accept_remote r) rest c counted o h = refl
pulled-is_clear (accept_tracks r) rest c counted o h = refl
pulled-is_clear (accept_answer r) rest c counted o h = refl
pulled-is_clear (accept_sealing r) rest c counted o h = refl
pulled-is_clear (accept_flush r xs) rest c counted o h = refl
pulled-is_clear (answer_flush r xs) rest c counted o h = refl
pulled-is_clear (candidate_sealing r x) rest c counted o h = refl
pulled-is_clear (candidate_adding r x) rest c counted o h = refl
pulled-is_clear (offer_opening w) rest c counted o h = refl
pulled-is_clear (early_opening r w ws) rest c counted o h = refl
pulled-is_clear (answer_opening r) rest c counted o h = refl
pulled-is_clear (answer_remote r) rest c counted o h = refl
pulled-is_clear (candidate_opening r) rest c counted o h = refl
pulled-is_clear (resume_fetching found) rest c counted o h = refl
pulled-is_clear (resume_opening p) rest c counted o h = refl

pulled-IsHeld :
    (a : Await) (rest : List Await) (c : Controller)
    → ((r : ℕ) → media_count r c.waiting ≡ media_of r a + media_count r rest)
    → media_top rest ≤ media_top c.waiting
    → IsHeld c
    → IsHeld (record c { waiting = rest })
pulled-IsHeld a rest c counted top h = elim (Option-cases c.current) [
  | inl e ↦ ground (arith, e)
  | inr (k, e) ↦ ground (arith, e, counted k)
]

settled_at-IsHeld :
    (now p : ℕ) (x : Answer) (c : Controller) (o : Option (Await × List Await))
    → pull p c.waiting ≡ o
    → elim o [ none ↦ true | some (a, rest) ↦ fits a c ] ≡ true
    → IsHeld c
    → IsHeld (elim o [ none ↦ c | some (a, rest) ↦ go_on now a x (record c { waiting = rest }) ])
settled_at-IsHeld now p x c none e o h = h
settled_at-IsHeld now p x c (some (a, rest)) e o h =
    let counted : (r : ℕ) → media_count r c.waiting ≡ media_of r a + media_count r rest =
      λ r. (pull-media p c.waiting a rest e r).0 in
    go_on-IsHeld now a x (record c { waiting = rest }) (pulled-is_clear a rest c counted o h)
      (pulled-IsHeld a rest c counted (pull-media p c.waiting a rest e 0).1 h)

settled-IsHeld :
    (now p : ℕ) (x : Answer) (c : Controller)
    → is_orderly (settled p x) c ≡ true
    → IsHeld c
    → IsHeld (step now (settled p x) c)
unfolding step is_orderly
settled-IsHeld now p x c o h = settled_at-IsHeld now p x c (pull p c.waiting) refl o h

step-IsHeld :
    (now : ℕ) (e : Event) (c : Controller)
    → is_orderly e c ≡ true
    → IsHeld c
    → IsHeld (step now e c)
unfolding step is_orderly
step-IsHeld now (started id conversation m peer) c o h =
    start_call-IsHeld id conversation m peer c h
step-IsHeld now accepted c o h = accept_call-IsHeld c o h
step-IsHeld now (hung_up reason) c o h = end_call-IsHeld now reason c h
step-IsHeld now muted c o h = toggle_muted-IsHeld c h
step-IsHeld now camera c o h = toggle_camera-IsHeld c h
step-IsHeld now dismissed c o h = dismiss_notice-IsHeld c h
step-IsHeld now unmounted c o h = unmount-IsHeld c h
step-IsHeld now (resumed found) c o h = resume-IsHeld found c h
step-IsHeld now (framed kind w) c o h = on_frame-IsHeld now kind w c h
step-IsHeld now (connected r) c o h = on_connected-IsHeld now r c h
step-IsHeld now (failed r) c o h = on_failed-IsHeld now r c h
step-IsHeld now (timed r) c o h = on_timer-IsHeld now r c h
step-IsHeld now (candidate r k) c o h = on_local_candidate-IsHeld r k c h
step-IsHeld now (settled p x) c o h = settled-IsHeld now p x c o h
step-IsHeld now (switched online) c o h = record { live = h.live; own = h.own; top = h.top }

steps-IsHeld :
    (es : List (ℕ × Event)) (c : Controller)
    → are_orderly es c ≡ true
    → IsHeld c
    → IsHeld (steps es c)
unfolding steps are_orderly
steps-IsHeld [] c o h = h
steps-IsHeld ((now, e) ∷ es) c o h =
    let parts : (is_orderly e c ≡ true) × (are_orderly es (step now e c) ≡ true) =
      both (is_orderly e c) (are_orderly es (step now e c)) o in
    steps-IsHeld es (step now e c) parts.1 (step-IsHeld now e c parts.0 h)

-- From the mounted hook on, whatever the socket, the camera, the timers and the user do, the only stream
-- that captures is the one that the current call holds: without a call neither camera nor microphone is
-- on. It is asked that Accept is not pressed while an earlier press still waits for the camera, and that
-- no kept call is installed over a call that began meanwhile.
pub live-held_by :
    (es : List (ℕ × Event))
    → are_orderly es mounted ≡ true
    → (steps es mounted).live ≡ held_by (steps es mounted)
live-held_by es o =
    (steps-IsHeld es mounted o (record { live = refl; own = tt; top = omega arith })).live
