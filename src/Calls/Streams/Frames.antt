-- ===== src/Calls/Streams/Frames.antt =====
-- Which streams capture: what the frames of the socket leave of it.
use timber_chat.Prelude.{
  ℕ, String, ◌||◌, refl, none, some, List, [], ◌∷◌, ◌++◌, lookup, insert, length, ltb, or_else,
  ◌==◌,
}
use timber_chat.Presentation.{CallStatus}
use timber_chat.Calls.{
  ringback_tone, Phase, Wire, Controller, offer_opening, answer_opening, candidate_opening,
}
use timber_chat.Calls.Streams.{
  IsHeld, stop_context-IsHeld, await-IsHeld, emit-IsHeld, show-IsHeld, record_status-IsHeld,
}
use timber_chat.Calls.Streams.Steps.{either-IsHeld, option-IsHeld}
use timber_chat.Calls.Signals.{
  orphan_limit, Kind, answer, ice_candidate, ended, dispatch, is_own, on_frame, on_offer,
  keep_orphan, on_own, on_end,
}
use timber_chat.Calls.Actions.{record_end}

pub on_end-IsHeld :
    (now r : ℕ) (reason : String) (c : Controller) → IsHeld c → IsHeld (on_end now r reason c)
unfolding on_end record_end
on_end-IsHeld now r reason c h =
    stop_context-IsHeld r _ _
      (either-IsHeld (c.contexts r).incoming c _ h (record_status-IsHeld r _ _ c h))

pub on_own-IsHeld :
    (now : ℕ) (kind : Kind) (r : ℕ) (w : Wire) (c : Controller)
    → IsHeld c
    → IsHeld (on_own now kind r w c)
unfolding on_own
on_own-IsHeld now Kind.offer r w c h = h
on_own-IsHeld now Kind.ringing r w c h =
    let toned : Controller = record c { tone = some ringback_tone } in
    either-IsHeld (c.contexts r).incoming c _ h (
      record_status-IsHeld r CallStatus.ringing none _ (
        show-IsHeld r (λ v. record v { phase = Phase.ringing }) toned
          (record { live = h.live; own = h.own; top = h.top })))
on_own-IsHeld now answer r w c h = either-IsHeld _ _ c (await-IsHeld (answer_opening r) c refl h) h
on_own-IsHeld now ice_candidate r w c h =
    either-IsHeld _ _ c (await-IsHeld (candidate_opening r) c refl h) h
on_own-IsHeld now ended r w c h = on_end-IsHeld now r w.reason c h

pub keep_orphan-IsHeld : (w : Wire) (c : Controller) → IsHeld c → IsHeld (keep_orphan w c)
unfolding keep_orphan
keep_orphan-IsHeld w c h =
    let queued : List Wire = or_else (lookup w.call_id c.orphans) [] in
    let kept : Controller = record c { orphans = insert w.call_id (queued ++ w ∷ []) c.orphans } in
    either-IsHeld (ltb (length queued) orphan_limit) kept c
      (record { live = h.live; own = h.own; top = h.top }) h

pub on_offer-IsHeld : (w : Wire) (c : Controller) → IsHeld c → IsHeld (on_offer w c)
unfolding on_offer
on_offer-IsHeld w c h =
    option-IsHeld c.current _ _ (await-IsHeld (offer_opening w) c refl h)
      (λ r. either-IsHeld ((c.contexts r).call_id == w.call_id) c _ h (emit-IsHeld _ c h))

pub dispatch-IsHeld :
    (now : ℕ) (kind : Kind) (w : Wire) (c : Controller) → IsHeld c → IsHeld (dispatch now kind w c)
dispatch-IsHeld now Kind.offer w c h = on_offer-IsHeld w c h
dispatch-IsHeld now Kind.ringing w c h =
    option-IsHeld c.current c _ h
      (λ r. either-IsHeld (is_own r w c) _ c (on_own-IsHeld now Kind.ringing r w c h) h)
dispatch-IsHeld now answer w c h =
    option-IsHeld c.current c _ h
      (λ r. either-IsHeld (is_own r w c) _ c (on_own-IsHeld now answer r w c h) h)
dispatch-IsHeld now ice_candidate w c h =
    option-IsHeld c.current _ _ (keep_orphan-IsHeld w c h)
      (λ r. either-IsHeld (is_own r w c) _ c (on_own-IsHeld now ice_candidate r w c h) h)
dispatch-IsHeld now ended w c h =
    option-IsHeld c.current c _ h
      (λ r. either-IsHeld (is_own r w c) _ c (on_own-IsHeld now ended r w c h) h)

pub on_frame-IsHeld :
    (now : ℕ) (kind : Kind) (w : Wire) (c : Controller) → IsHeld c → IsHeld (on_frame now kind w c)
unfolding on_frame
on_frame-IsHeld now kind w c h =
    either-IsHeld ((w.conversation_id == "") || (w.call_id == "")) c _ h
      (dispatch-IsHeld now kind w c h)
