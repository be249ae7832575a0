-- ===== src/Calls/Screen.antt =====
-- What the user sees of a call of useCall.js and what the relay is told of it: hanging up, frames of
-- other calls, and what an await leaves behind it.
use timber_chat.Prelude.{
  pull, eqb-same, ℕ, String, true, false, ◌||◌, ◌≡◌, inl, inr, refl, some, List, [], ◌∷◌, ◌++◌,
  ◌==◌, Bool-cases,
}
use mathlib.Core.List.{append_assoc}
use timber_chat.Calls.{
  Wire, Signal, resolved, end_frame, offer_frame, Await, start_sealing, Controller,
}
use timber_chat.Calls.Actions.{stopped, record_status, finish, send_end, record_end, stop_context}
use timber_chat.Calls.Stages.{go_on}
use timber_chat.Calls.Signals.{
  Kind, answer, ice_candidate, ended, is_own, dispatch, on_frame, on_offer,
}
use timber_chat.Calls.Events.{end_call, hung_up, settled, step, steps}

dispatch-foreign :
    (now : ℕ) (kind : Kind) (r : ℕ) (w : Wire) (c : Controller)
    → c.current ≡ some r
    → is_own r w c ≡ false
    → record (dispatch now kind w c) { sent = c.sent } ≡ c
unfolding on_offer
dispatch-foreign now Kind.offer r w c e f =
    elim (Bool-cases ((c.contexts r).call_id == w.call_id)) [
      | inl b ↦ rw (e, b) refl
      | inr b ↦ rw (e, b) refl
    ]
dispatch-foreign now Kind.ringing r w c e f = rw (e, f) refl
dispatch-foreign now answer r w c e f = rw (e, f) refl
dispatch-foreign now ice_candidate r w c e f = rw (e, f) refl
dispatch-foreign now ended r w c e f = rw (e, f) refl

-- While a call is on, a frame that names another call or another conversation changes nothing but what is
-- sent: the screen, the call, the streams and all that waits stay.
pub on_frame-foreign :
    (now : ℕ) (kind : Kind) (r : ℕ) (w : Wire) (c : Controller)
    → c.current ≡ some r
    → is_own r w c ≡ false
    → record (on_frame now kind w c) { sent = c.sent } ≡ c
unfolding on_frame
on_frame-foreign now kind r w c e foreign =
    elim (Bool-cases ((w.conversation_id == "") || (w.call_id == ""))) [
      | inl b ↦ rw b refl
      | inr b ↦ rw b (dispatch-foreign now kind r w c e foreign)
    ]

finish-stopped :
    (r now : ℕ) (reason notice : String) (c : Controller)
    → c.current ≡ some r
    → finish r reason notice now c
      ≡ stopped r notice (record_end r reason now (send_end r reason c))
unfolding finish send_end record_end record_status stop_context
finish-stopped r now reason notice c e = rw (e, eqb-same r) refl

end_call-finish :
    (now : ℕ) (reason : String) (r : ℕ) (c : Controller)
    → c.current ≡ some r
    → end_call now reason c ≡ finish r reason "" now c
unfolding end_call
end_call-finish now reason r c e = rw e refl

-- What is told when the call `r` is hung up and a sealing of it comes back.
told_after_end :
    (now later p r : ℕ) (s : Signal) (rest : List Await) (c : Controller)
    → c.online ≡ true
    → pull p c.waiting ≡ some (start_sealing r, rest)
    → (step later
        (settled p (resolved s))
        (stopped r "" (record_end r "hangup" now (send_end r "hangup" c)))).sent
      ≡ c.sent
        ++ end_frame (c.contexts r).conversation_id (c.contexts r).call_id "hangup"
          ∷ offer_frame (c.contexts r).conversation_id (c.contexts r).call_id (c.contexts r).mode
          ∷ []
unfolding step go_on send_end record_end record_status
told_after_end now later p r s rest c online found =
    rw (step, found, online, eqb-same r)
      (append_assoc c.sent
        (end_frame (c.contexts r).conversation_id (c.contexts r).call_id "hangup" ∷ [])
        (offer_frame (c.contexts r).conversation_id (c.contexts r).call_id (c.contexts r).mode
          ∷ []))

-- The caller hangs up while the offer is being sealed. The relay is told that the call ended, and the
-- offer goes out after that.
pub offer_after_end :
    (now later p r : ℕ) (s : Signal) (rest : List Await) (c : Controller)
    → c.current ≡ some r
    → c.online ≡ true
    → pull p c.waiting ≡ some (start_sealing r, rest)
    → (steps ((now, hung_up "hangup") ∷ (later, settled p (resolved s)) ∷ []) c).sent
      ≡ c.sent
        ++ end_frame (c.contexts r).conversation_id (c.contexts r).call_id "hangup"
          ∷ offer_frame (c.contexts r).conversation_id (c.contexts r).call_id (c.contexts r).mode
          ∷ []
unfolding steps step
offer_after_end now later p r s rest c e online found =
    rw (end_call-finish now "hangup" r c e, finish-stopped r now "hangup" "" c e)
      (told_after_end now later p r s rest c online found)
