-- ===== src/Calls/Streams/Resumed.antt =====
-- `resumePendingCalls` of useCall.js, where a call began while the candidates of the kept one were opened.
use timber_chat.Prelude.{pull, eqb-same, ℕ, String, ◌≡◌, refl, ap, ◌∙◌, some, List, [], ◌∷◌, ◌++◌}
use timber_chat.Calls.{Wire, Signal, resolved, Await, resume_candidate, Controller}
use timber_chat.Calls.Actions.{finish, send_end, record_end, record_status, stop_context}
use timber_chat.Calls.Stages.{go_on, install, candidate_of}
use timber_chat.Calls.Events.{hung_up, settled, step, steps, end_call}

-- Hanging up right after the kept call came up.
install-hung_up :
    (now : ℕ) (o : Wire) (found : List String) (reason : String) (c : Controller)
    → (end_call now reason (install o found c)).live ≡ c.live
unfolding end_call finish send_end record_end record_status stop_context
install-hung_up now o found reason c = rw (eqb-same c.next) refl

settled_resume :
    (now p : ℕ) (o w : Wire) (found : List String) (s : Signal) (rest : List Await) (c : Controller)
    → pull p c.waiting ≡ some (resume_candidate o found w [], rest)
    → step now (settled p (resolved s)) c
      ≡ install o (found ++ candidate_of s) (record c { waiting = rest })
unfolding step go_on
settled_resume now p o w found s rest c pulled = rw (step, pulled) refl

-- The kept call comes up over the call that is on, which it replaces. Hanging up then stops no stream at
-- all: what the replaced call captured goes on.
pub resumed-hung_up :
    (now later p r : ℕ) (o w : Wire) (found : List String) (s : Signal) (reason : String)
    (rest : List Await) (c : Controller)
    → c.current ≡ some r
    → pull p c.waiting ≡ some (resume_candidate o found w [], rest)
    → (steps ((now, settled p (resolved s)) ∷ (later, hung_up reason) ∷ []) c).live ≡ c.live
unfolding steps step
resumed-hung_up now later p r o w found s reason rest c e pulled =
    ap (λ d. (end_call later reason d).live) (settled_resume now p o w found s rest c pulled)
    ∙ install-hung_up later o (found ++ candidate_of s) reason (record c { waiting = rest })
