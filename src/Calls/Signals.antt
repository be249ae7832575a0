-- ===== src/Calls/Signals.antt =====
-- The frames of the socket, as the subscription of useCall.js takes them.
use timber_chat.Prelude.{
  ℕ, String, Bool, not, ◌&&◌, ◌||◌, none, some, [], ◌∷◌, ◌++◌, length, lookup, insert, or_else, ltb,
  ◌==◌, if◌then◌else◌,
}
use timber_chat.Presentation.{CallStatus}
use timber_chat.Calls.{
  Phase, ringback_tone, Wire, end_frame, offer_opening, answer_opening, candidate_opening,
  Controller, is_some, await,
}
use timber_chat.Calls.Actions.{emit, show, record_status, record_end, stop_context}

pub data Kind : Type 0 where
  offer ringing answer ice_candidate ended : Kind

abbrev pub orphan_limit : ℕ
orphan_limit = 64

unfoldable pub on_offer : Wire → Controller → Controller
on_offer w c = elim c.current [
  | none ↦ await (offer_opening w) c
  | some r ↦
      if (c.contexts r).call_id == w.call_id
      then c
      else emit (end_frame w.conversation_id w.call_id "busy") c
]

-- A candidate that comes before its offer is kept for it.
unfoldable pub keep_orphan : Wire → Controller → Controller
keep_orphan w c =
    let queued = or_else (lookup w.call_id c.orphans) [] in
    if ltb (length queued) orphan_limit
    then record c { orphans = insert w.call_id (queued ++ w ∷ []) c.orphans }
    else c

abbrev end_message : String → String
end_message reason =
    if reason == "busy"
    then "Your friend is already on another call."
    else if reason == "declined"
    then "Your friend declined the call."
    else if reason == "unavailable"
    then "Your friend is unavailable for a call right now."
    else if reason == "no_answer"
    then "Your friend did not answer the call."
    else if reason == "failed"
    then "The call ended because the connection failed."
    else "The call ended."

unfoldable pub on_end : ℕ → ℕ → String → Controller → Controller
unfolding record_end stop_context
on_end now r reason c =
    stop_context r (end_message reason)
      (if (c.contexts r).incoming then c else record_end r reason now c)

-- A frame for the current call.
unfoldable pub on_own : ℕ → Kind → ℕ → Wire → Controller → Controller
unfolding record_status on_end
on_own now Kind.ringing r w c =
    if (c.contexts r).incoming
    then c
    else record_status r CallStatus.ringing none
        (show r (λ v. record v { phase = Phase.ringing }) (record c { tone = some ringback_tone }))
on_own now answer r w c =
    if not (c.contexts r).incoming && is_some (c.contexts r).pc
    then await (answer_opening r) c
    else c
on_own now ice_candidate r w c =
    if is_some (c.contexts r).pc then await (candidate_opening r) c else c
on_own now ended r w c = on_end now r w.reason c
on_own now _ r w c = c

abbrev pub is_own : ℕ → Wire → Controller → Bool
is_own r w c =
    ((c.contexts r).call_id == w.call_id) && ((c.contexts r).conversation_id == w.conversation_id)

abbrev pub dispatch : ℕ → Kind → Wire → Controller → Controller
dispatch now offer w c = on_offer w c
dispatch now kind w c = elim c.current [
  | none ↦ elim kind [ ice_candidate ↦ keep_orphan w c | _ ↦ c ]
  | some r ↦ if is_own r w c then on_own now kind r w c else c
]

unfoldable pub on_frame : ℕ → Kind → Wire → Controller → Controller
unfolding on_offer keep_orphan on_own
on_frame now kind w c =
    if (w.conversation_id == "") || (w.call_id == "") then c else dispatch now kind w c
