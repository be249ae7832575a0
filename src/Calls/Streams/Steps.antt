-- ===== src/Calls/Streams/Steps.antt =====
-- Which streams capture: what the stages of a call leave of it.
use timber_chat.Prelude.{
  ℕ, ◌+◌, String, Bool, true, false, not, ◌||◌, ◌≡◌, inl, inr, refl, Option, none, some, List, [],
  ◌∷◌, ◌++◌, lookup, remove, or_else, if◌then◌else◌, Bool-cases, Option-cases, arith,
}
use timber_chat.Presentation.{CallStatus}
use timber_chat.Calls.{
  calling, Context, Wire, Signal, Pending, resolved, Await, Controller, is_some, assign,
  start_failing, candidate_adding, early_opening, answer_opening, answer_remote, resume_candidate,
}
use timber_chat.Calls.Actions.{stop_tones, connect_timeout_ms, record_status, show}
use timber_chat.Calls.Stages.{
  go_on, allocate, push_pending, incoming_context, show_incoming, early_candidates, offer_opened,
  early_opened, resume_opened, is_signal, set_remote, add_candidate, take_pending, offer_sealed,
  offer_gone, install, pending_candidates, not_secure, offer_sent_to, send_all, answer_sealed,
  start_failed, show_stream, could_not_answer, send_candidates, candidate_opened,
}
use timber_chat.Calls.Streams.{
  IsHeld, media_top, media_count, await-IsHeld, assign-IsHeld, emit-IsHeld, show-IsHeld,
  record_status-IsHeld, finish-IsHeld, allocate-IsHeld,
}

pub push_pending-IsHeld :
    (r : ℕ) (k : Option String) (c : Controller) → IsHeld c → IsHeld (push_pending r k c)
push_pending-IsHeld r none c h = h
push_pending-IsHeld r (some k) c h = ground arith

pub set_remote-IsHeld : (r : ℕ) (c : Controller) → IsHeld c → IsHeld (set_remote r c)
set_remote-IsHeld r c h = ground arith

pub add_candidate-IsHeld :
    (r : ℕ) (k : String) (c : Controller) → IsHeld c → IsHeld (add_candidate r k c)
add_candidate-IsHeld r k c h = ground arith

pub take_pending-IsHeld : (r : ℕ) (c : Controller) → IsHeld c → IsHeld (take_pending r c)
take_pending-IsHeld r c h = ground arith

pub show_incoming-IsHeld : (x : Context) (c : Controller) → IsHeld c → IsHeld (show_incoming x c)
show_incoming-IsHeld x c h = ground arith

pub early_candidates-IsHeld :
    (r : ℕ) (ws : List Wire) (c : Controller) → IsHeld c → IsHeld (early_candidates r ws c)
early_candidates-IsHeld r [] c h = show_incoming-IsHeld (c.contexts r) c h
early_candidates-IsHeld r (w ∷ ws) c h = await-IsHeld (early_opening r w ws) c refl h

vacant : (b : Bool) (o : Option ℕ) → (not b || is_some o) ≡ false → o ≡ none
vacant true none h = refl
vacant true (some r) h = cc
vacant false o h = cc

pub offer_opened-IsHeld :
    (w : Wire) (s : Signal) (c : Controller) → IsHeld c → IsHeld (offer_opened w s c)
unfolding offer_opened
offer_opened-IsHeld w s c h =
    elim (Bool-cases (not (is_signal "offer" w.call_id s) || is_some c.current)) [
      | inl e ↦ rw e h
      | inr e ↦
          let held : IsHeld (allocate (incoming_context w) c) =
            allocate-IsHeld (incoming_context w) c refl refl
              (vacant (is_signal "offer" w.call_id s) c.current e) h in
          let new : Controller = record (allocate (incoming_context w) c) {
            orphans = remove w.call_id c.orphans;
          } in
          rw e (
            early_candidates-IsHeld c.next (or_else (lookup w.call_id c.orphans) []) new
              (record { live = held.live; own = held.own; top = held.top }))
    ]

pub early_opened-IsHeld :
    (r : ℕ) (ws : List Wire) (o : Option Signal) (c : Controller)
    → IsHeld c
    → IsHeld (early_opened r ws o c)
unfolding early_opened
early_opened-IsHeld r ws none c h = early_candidates-IsHeld r ws c h
early_opened-IsHeld r ws (some s) c h =
    elim (Bool-cases (is_signal "ice-candidate" (c.contexts r).call_id s)) [
      | inl e ↦ rw e (
          early_candidates-IsHeld r ws (push_pending r s.candidate c)
            (push_pending-IsHeld r s.candidate c h))
      | inr e ↦ rw e (early_candidates-IsHeld r ws c h)
    ]

pub start_failed-IsHeld : (r : ℕ) (c : Controller) → IsHeld c → IsHeld (start_failed r c)
start_failed-IsHeld r c h =
    await-IsHeld (start_failing r) (record_status r CallStatus.failed none c) refl
      (record_status-IsHeld r CallStatus.failed none c h)

pub candidate_opened-IsHeld :
    (r : ℕ) (s : Signal) (c : Controller) → IsHeld c → IsHeld (candidate_opened r s c)
candidate_opened-IsHeld r s c h =
    elim (Bool-cases (is_signal "ice-candidate" (c.contexts r).call_id s)) [
      | inr e ↦ rw e h
      | inl e ↦ elim (Option-cases s.candidate) [
        | inl none_e ↦ rw (e, none_e) h
        | inr (k, some_e) ↦
            elim (Bool-cases (elim (c.contexts r).pc [ none ↦ false | some pc ↦ pc.has_remote ])) [
              | inl b ↦ rw (e, some_e, b) (await-IsHeld (candidate_adding r k) c refl h)
              | inr b ↦ rw (e, some_e, b) (push_pending-IsHeld r (some k) c h)
            ]
      ]
    ]

pub answer_sealed-IsHeld : (r now : ℕ) (c : Controller) → IsHeld c → IsHeld (answer_sealed r now c)
answer_sealed-IsHeld r now c h =
    ground (arith, finish-IsHeld r "unavailable" could_not_answer now c h)

media_count-nil : (k r : ℕ) (xs : List String) → media_count k (send_candidates r xs) ≡ 0
media_count-nil k r [] = refl
media_count-nil k r (x ∷ xs) = omega (arith, media_count-nil k r xs)

media_count-send :
    (k r : ℕ) (xs : List String) (ws : List Await)
    → media_count k (ws ++ send_candidates r xs) ≡ media_count k ws
media_count-send k r xs [] = media_count-nil k r xs
media_count-send k r xs (w ∷ ws) = omega (arith, media_count-send k r xs ws)

media_top-nil : (r : ℕ) (xs : List String) → media_top (send_candidates r xs) ≡ 0
media_top-nil r [] = refl
media_top-nil r (x ∷ xs) = media_top-nil r xs

media_top-send :
    (r : ℕ) (xs : List String) (ws : List Await)
    → media_top (ws ++ send_candidates r xs) ≡ media_top ws
media_top-send r xs [] = media_top-nil r xs
media_top-send r xs (w ∷ ws) = ground (arith, media_top-send r xs ws)

pub send_all-IsHeld : (r : ℕ) (c : Controller) → IsHeld c → IsHeld (send_all r c)
send_all-IsHeld r c h = elim (Option-cases c.current) [
  | inl e ↦ ground (arith, e, media_top-send r (c.contexts r).local_candidates c.waiting)
  | inr (k, e) ↦ ground (
    arith,
    e,
    media_top-send r (c.contexts r).local_candidates c.waiting,
    media_count-send k r (c.contexts r).local_candidates c.waiting,
  )
]

-- `offer_sealed`, once the frame is taken.
pub offer_gone-IsHeld : (r now : ℕ) (c : Controller) → IsHeld c → IsHeld (offer_gone r now c)
offer_gone-IsHeld r now c h =
    let sent : Controller = send_all r (offer_sent_to r c) in
    let marked : Controller =
      assign r (λ x. record x { offer_sent = true; local_candidates = [] }) sent in
    assign-IsHeld r (λ x. record x { connect_timer = some (now + connect_timeout_ms) })
      (show r (λ v. record v { phase = calling }) marked) (λ x. refl) (λ x. refl)
      (show-IsHeld r (λ v. record v { phase = calling }) marked
        (assign-IsHeld r (λ x. record x { offer_sent = true; local_candidates = [] }) sent
          (λ x. refl) (λ x. refl) (send_all-IsHeld r (offer_sent_to r c) (emit-IsHeld _ c h))))

pub offer_sealed-IsHeld : (r now : ℕ) (c : Controller) → IsHeld c → IsHeld (offer_sealed r now c)
offer_sealed-IsHeld r now c h = elim (Bool-cases c.online) [
  | inl e ↦ ground (arith, e, offer_gone-IsHeld r now c h)
  | inr e ↦ ground (arith, e, start_failed-IsHeld r c h)
]

pub install-IsHeld :
    (o : Wire) (found : List String) (c : Controller)
    → c.current ≡ none
    → IsHeld c
    → IsHeld (install o found c)
install-IsHeld o found c e h =
    let x : Context = record (incoming_context o) { pending_candidates = found } in
    show_incoming-IsHeld x (allocate x c) (allocate-IsHeld x c refl refl e h)

pub pending_candidates-IsHeld :
    (o : Wire) (found : List String) (ws : List Wire) (c : Controller)
    → c.current ≡ none
    → IsHeld c
    → IsHeld (pending_candidates o found ws c)
pending_candidates-IsHeld o found [] c e h = install-IsHeld o found c e h
pending_candidates-IsHeld o found (w ∷ ws) c e h =
    await-IsHeld (resume_candidate o found w ws) c refl h

pub resume_opened-IsHeld :
    (p : Pending) (s : Signal) (c : Controller) → IsHeld c → IsHeld (resume_opened p s c)
unfolding resume_opened
resume_opened-IsHeld p s c h =
    elim (Bool-cases (not (is_signal "offer" p.offer.call_id s) || is_some c.current)) [
      | inl e ↦ rw e h
      | inr e ↦ rw e (
          pending_candidates-IsHeld p.offer [] p.signals c
            (vacant (is_signal "offer" p.offer.call_id s) c.current e) h)
    ]

pub show_stream-IsHeld : (r : ℕ) (c : Controller) → IsHeld c → IsHeld (show_stream r c)
show_stream-IsHeld r c h =
    show-IsHeld r (λ v. record v { local_stream = (c.contexts r).local_stream }) c h

pub answer_opened-IsHeld :
    (r now : ℕ) (s : Signal) (c : Controller)
    → IsHeld c
    → IsHeld (go_on now (answer_opening r) (resolved s) c)
unfolding go_on
answer_opened-IsHeld r now s c h = elim (Bool-cases (is_signal "answer" (c.contexts r).call_id s)) [
  | inl e ↦ rw e (
      await-IsHeld (answer_remote r) (stop_tones c) refl
        (record { live = h.live; own = h.own; top = h.top }))
  | inr e ↦ rw e (finish-IsHeld r "failed" not_secure now c h)
]

-- Branches.
pub either-IsHeld :
    (b : Bool) (x y : Controller) → IsHeld x → IsHeld y → IsHeld (if b then x else y)
either-IsHeld true x y h k = h
either-IsHeld false x y h k = k

pub option-IsHeld :
    (o : Option ℕ) (x : Controller) (f : ℕ → Controller)
    → IsHeld x
    → ((r : ℕ) → IsHeld (f r))
    → IsHeld (elim o [ none ↦ x | some r ↦ f r ])
option-IsHeld none x f h k = h
option-IsHeld (some r) x f h k = k r

-- The same, where the branch needs the call.
pub option_at-IsHeld :
    (o : Option ℕ) (x : Controller) (f : ℕ → Controller)
    → IsHeld x
    → ((r : ℕ) → o ≡ some r → IsHeld (f r))
    → IsHeld (elim o [ none ↦ x | some r ↦ f r ])
option_at-IsHeld none x f h k = h
option_at-IsHeld (some r) x f h k = k r refl
