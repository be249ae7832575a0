-- ===== src/Calls/Streams/Handlers.antt =====
-- Which streams capture: what the user and the connection leave of it.
use timber_chat.Prelude.{
  ℕ, suc, ◌≤◌, max, String, Bool, true, false, not, ◌&&◌, ◌||◌, ◌≡◌, inl, inr, refl, Option, none,
  some, List, [], ◌∷◌, ◌++◌, eqb, leb, if◌then◌else◌, Bool-cases, arith,
}
use timber_chat.Presentation.{CallStatus, CallMode}
use timber_chat.Calls.{
  Connection, active, preparing, idle_call, Context, Pending, Await, Controller, is_some,
  is_current, assign, await, start_media, accept_media, candidate_sealing, resume_fetching,
}
use timber_chat.Calls.Actions.{stop_tones, stop_context, finish, show}
use timber_chat.Calls.Stages.{allocate}
use timber_chat.Calls.Streams.{
  IsHeld, media_top, media_count, stop_context-IsHeld, await-IsHeld, assign-IsHeld, show-IsHeld,
  record_status-IsHeld, finish-IsHeld, allocate-IsHeld,
}
use timber_chat.Calls.Streams.Steps.{either-IsHeld, option-IsHeld, option_at-IsHeld}
use timber_chat.Calls.Streams.{media_count-top, media_of, media_top, media_count-append}
use timber_chat.Calls.Actions.{clear_timer}
use timber_chat.Calls.Events.{
  start_call, accept_call, end_call, toggle_muted, toggle_camera, dismiss_notice, begin,
  mark_connected, outgoing_context, is_idle, is_video, is_connected, connection_failed,
  resume_pending_calls, on_connected, on_failed, on_local_candidate, on_timer, unmount,
}

vacant : (o : Option ℕ) → is_some o ≡ false → o ≡ none
vacant none h = refl
vacant (some r) h = cc

pub end_call-IsHeld :
    (now : ℕ) (reason : String) (c : Controller) → IsHeld c → IsHeld (end_call now reason c)
unfolding end_call
end_call-IsHeld now reason c h =
    option-IsHeld c.current c (λ r. finish r reason "" now c) h
      (λ r. finish-IsHeld r reason "" now c h)

media_top-append :
    (ws : List Await) (a : Await) (n : ℕ)
    → media_top ws ≤ n
    → media_top (a ∷ []) ≤ n
    → media_top (ws ++ a ∷ []) ≤ n
media_top-append [] a n h k = k
media_top-append (w ∷ ws) a n h k = ground (arith, media_top-append ws a n)

pub own_media : (r : ℕ) → media_of r (accept_media r) ≡ 1
own_media r = ground arith

fresh :
    (r : ℕ) (x : Context) (c : Controller)
    → x.pc ≡ none
    → is_some (if eqb r r then x else c.contexts r).pc ≡ false
fresh r x c e = ground (arith, e)

below : (r : ℕ) (c : Controller) → c.current ≡ some r → IsHeld c → max (suc r) 0 ≤ c.next
below r c e h = ground (arith, e)

-- The function waits for the stream of the current call, and no other does.
pub await_media-IsHeld :
    (a : Await) (r : ℕ) (c : Controller)
    → c.current ≡ some r
    → media_of r a ≡ 1
    → media_top (a ∷ []) ≤ c.next
    → media_count r c.waiting ≡ 0
    → is_some (c.contexts r).pc ≡ false
    → IsHeld c
    → IsHeld (await a c)
await_media-IsHeld a r c e one top zero_e p h =
    ground (arith, e, media_count-append r c.waiting a, media_top-append c.waiting a c.next)

pub start_call-IsHeld :
    (id conversation : String) (m : CallMode) (peer : String) (c : Controller)
    → IsHeld c
    → IsHeld (start_call id conversation m peer c)
unfolding start_call
start_call-IsHeld id conversation m peer c h = elim (Bool-cases (is_some c.current)) [
  | inl e ↦ rw e h
  | inr e ↦
      let d : Controller = record (allocate (outgoing_context id conversation m peer) c) {
        view = record idle_call {
          phase = preparing;
          call_id = some id;
          conversation_id = some conversation;
          mode = some m;
          peer_name = peer;
        };
      } in
      let held : IsHeld (allocate (outgoing_context id conversation m peer) c) =
        allocate-IsHeld (outgoing_context id conversation m peer) c refl refl (vacant c.current e)
          h in
      rw e (
        await_media-IsHeld (start_media c.next) c.next d refl (own_media c.next) (omega arith)
          (media_count-top c.next c.waiting h.top)
          (fresh c.next (outgoing_context id conversation m peer) c refl)
          (record { live = held.live; own = held.own; top = held.top }))
]

-- No earlier press of Accept still waits for the camera.
abbrev pub is_unasked : Controller → Bool
is_unasked c = elim c.current [ none ↦ true | some r ↦ eqb (media_count r c.waiting) 0 ]

unasked :
    (o : Option ℕ) (r : ℕ) (ws : List Await)
    → o ≡ some r
    → elim o [ none ↦ true | some k ↦ eqb (media_count k ws) 0 ] ≡ true
    → media_count r ws ≡ 0
unasked none r ws e k = cc
unasked (some x) r ws e k = ground (arith, e, k)

unconnected : (x : Context) → (not x.incoming || is_some x.pc) ≡ false → is_some x.pc ≡ false
unconnected x h = ground arith

-- What the press of Accept does to the call `r`.
pub accepted-IsHeld :
    (r : ℕ) (c : Controller)
    → c.current ≡ some r
    → media_count r c.waiting ≡ 0
    → is_some (c.contexts r).pc ≡ false
    → IsHeld c
    → IsHeld (
        await
          (accept_media r)
          (stop_tones (show r (λ v. record v { phase = preparing; notice = "" }) c)))
accepted-IsHeld r c e none_e p h =
    let shown : Controller = show r (λ v. record v { phase = preparing; notice = "" }) c in
    let held : IsHeld shown =
      show-IsHeld r (λ v. record v { phase = preparing; notice = "" }) c h in
    let quiet : Controller = stop_tones shown in
    await_media-IsHeld (accept_media r) r quiet e (own_media r) (below r c e h) none_e p
      (record { live = held.live; own = held.own; top = held.top })

pub accept_call-IsHeld : (c : Controller) → is_unasked c ≡ true → IsHeld c → IsHeld (accept_call c)
unfolding accept_call
accept_call-IsHeld c k h = option_at-IsHeld c.current c _ h (λ r e.
    elim (Bool-cases (not (c.contexts r).incoming || is_some (c.contexts r).pc)) [
      | inl b ↦ rw b h
      | inr b ↦ rw b (
          accepted-IsHeld r c e (unasked c.current r c.waiting e k) (unconnected (c.contexts r) b)
            h)
    ])

connected_kept : (o : Option Connection) → is_some (mark_connected o) ≡ is_some o
connected_kept none = refl
connected_kept (some pc) = refl

pub on_connected-IsHeld : (now r : ℕ) (c : Controller) → IsHeld c → IsHeld (on_connected now r c)
unfolding on_connected
on_connected-IsHeld now r c h =
    let begun : Controller = assign r (begin now) c in
    let held : IsHeld begun =
      assign-IsHeld r (begin now) c (λ x. connected_kept x.pc) (λ x. refl) h in
    either-IsHeld (is_current r c && is_some (c.contexts r).pc) _ c
      (record_status-IsHeld r CallStatus.active none _ (
        show-IsHeld r (λ v. record v { phase = active }) (stop_tones begun)
          (record { live = held.live; own = held.own; top = held.top })))
      h

pub on_failed-IsHeld : (now r : ℕ) (c : Controller) → IsHeld c → IsHeld (on_failed now r c)
unfolding on_failed
on_failed-IsHeld now r c h =
    either-IsHeld _ _ c (finish-IsHeld r "failed" connection_failed now c h) h

pub on_local_candidate-IsHeld :
    (r : ℕ) (k : String) (c : Controller) → IsHeld c → IsHeld (on_local_candidate r k c)
unfolding on_local_candidate
on_local_candidate-IsHeld r k c h = either-IsHeld (not (is_current r c)) c _ h (
    either-IsHeld (not (c.contexts r).incoming && not (c.contexts r).offer_sent) _ _
      (assign-IsHeld r (λ x. record x { local_candidates = x.local_candidates ++ k ∷ [] }) c
        (λ x. refl) (λ x. refl) h)
      (await-IsHeld (candidate_sealing r k) c refl h))

pub on_timer-IsHeld : (now r : ℕ) (c : Controller) → IsHeld c → IsHeld (on_timer now r c)
unfolding on_timer
on_timer-IsHeld now r c h =
    let cleared : IsHeld (clear_timer r c) =
      assign-IsHeld r (λ x. record x { connect_timer = none }) c (λ x. refl) (λ x. refl) h in
    option-IsHeld (c.contexts r).connect_timer c _ h (λ due.
      either-IsHeld (leb due now) _ c
        (either-IsHeld (not (is_current r c) || is_connected (c.contexts r)) (clear_timer r c) _
          cleared (finish-IsHeld r "no_answer" _ now (clear_timer r c) cleared))
        h)

pub unmount-IsHeld : (c : Controller) → IsHeld c → IsHeld (unmount c)
unfolding unmount
unmount-IsHeld c h =
    let d : Controller = elim c.current [ none ↦ c | some r ↦ stop_context r "" c ] in
    let k : IsHeld d =
      option-IsHeld c.current c (λ r. stop_context r "" c) h (λ r. stop_context-IsHeld r "" c h) in
    record { live = k.live; own = k.own; top = k.top }

pub resume-IsHeld :
    (found : Option Pending) (c : Controller) → IsHeld c → IsHeld (resume_pending_calls found c)
unfolding resume_pending_calls
resume-IsHeld found c h =
    either-IsHeld (is_some c.current) c _ h (await-IsHeld (resume_fetching found) c refl h)

pub toggle_muted-IsHeld : (c : Controller) → IsHeld c → IsHeld (toggle_muted c)
unfolding toggle_muted
toggle_muted-IsHeld c h = option-IsHeld c.current c _ h (λ r.
    either-IsHeld (is_some (c.contexts r).local_stream) _ c
      (record { live = h.live; own = h.own; top = h.top }) h)

pub toggle_camera-IsHeld : (c : Controller) → IsHeld c → IsHeld (toggle_camera c)
unfolding toggle_camera
toggle_camera-IsHeld c h = option-IsHeld c.current c _ h (λ r.
    either-IsHeld (is_some (c.contexts r).local_stream && is_video (c.contexts r).mode) _ c
      (record { live = h.live; own = h.own; top = h.top }) h)

pub dismiss_notice-IsHeld : (c : Controller) → IsHeld c → IsHeld (dismiss_notice c)
unfolding dismiss_notice
dismiss_notice-IsHeld c h =
    either-IsHeld (is_idle c.view.phase) _ c (record { live = h.live; own = h.own; top = h.top }) h
