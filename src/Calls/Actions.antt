-- ===== src/Calls/Actions.antt =====
-- The steps that the handlers of useCall.js share.
use timber_chat.Prelude.{
  ℕ, ◌+◌, ◌-◌, String, Bool, true, false, not, ◌||◌, Option, none, some, List, [], ◌∷◌, ◌++◌, keep,
  eqb, ◌==◌, if◌then◌else◌,
}
use timber_chat.Presentation.{CallStatus}
use timber_chat.Calls.{
  Call, idle_call, Connection, Frame, end_frame, Controller, is_some, is_current, assign,
}

abbrev pub connect_timeout_ms : ℕ
connect_timeout_ms = 60_000

-- `send` of the socket: whether it took the frame.
abbrev pub emit : Frame → Controller → Controller
emit f c = record c { sent = if c.online then c.sent ++ f ∷ [] else c.sent }

-- `setCall((current) => current.callId === context.callId ? … : current)`
abbrev pub show : ℕ → (Call → Call) → Controller → Controller
show r f c = record c {
  view =
      if elim c.view.call_id [ none ↦ false | some id ↦ id == (c.contexts r).call_id ]
      then f c.view
      else c.view;
}

abbrev pub clear_timer : ℕ → Controller → Controller
clear_timer r c = assign r (λ x. record x { connect_timer = none }) c

abbrev pub stop_tones : Controller → Controller
stop_tones c = record c { tone = none }

unfoldable pub record_status : ℕ → CallStatus → Option ℕ → Controller → Controller
record_status r status duration c = record c {
  cards =
      if (c.contexts r).incoming || not (c.contexts r).card_written
      then c.cards
      else c.cards ++ ((c.contexts r).call_id, status, duration) ∷ [];
}

abbrev close : Option Connection → Option Connection
close none = none
close (some pc) = some (record pc { closed = true })

-- `track.stop()` for the tracks of a stream.
abbrev pub stop_stream : Option ℕ → List ℕ → List ℕ
stop_stream none live = live
stop_stream (some s) live = keep (λ t. not (eqb t s)) live

abbrev pub stopped : ℕ → String → Controller → Controller
stopped r notice c = record (assign r (λ x. record x { connect_timer = none; pc = close x.pc }) c) {
  tone = none;
  live = stop_stream (c.contexts r).local_stream c.live;
  current = none;
  view = record idle_call { notice = notice };
}

unfoldable pub stop_context : ℕ → String → Controller → Controller
stop_context r notice c = if is_current r c then stopped r notice c else c

unfoldable pub send_end : ℕ → String → Controller → Controller
send_end r reason c =
    emit (end_frame (c.contexts r).conversation_id (c.contexts r).call_id reason) c

unfoldable pub call_status_for_end : String → Bool → CallStatus
call_status_for_end reason active =
    if active || (reason == "hangup")
    then CallStatus.completed
    else if reason == "declined"
    then CallStatus.declined
    else if (reason == "busy") || (reason == "unavailable")
    then CallStatus.unavailable
    else if reason == "no_answer"
    then CallStatus.no_answer
    else CallStatus.failed

-- `Date.now() - context.activeStartedAt` of a call that was active.
abbrev duration : Option ℕ → ℕ → Option ℕ
duration none now = none
duration (some t) now = some (now - t)

unfoldable pub record_end : ℕ → String → ℕ → Controller → Controller
unfolding call_status_for_end record_status
record_end r reason now c =
    let started = (c.contexts r).active_started_at in
    record_status r (call_status_for_end reason (is_some started)) (duration started now) c

unfoldable pub finish : ℕ → String → String → ℕ → Controller → Controller
unfolding send_end record_end stop_context
finish r reason notice now c = stop_context r notice (record_end r reason now (send_end r reason c))

abbrev pub schedule_connect_timeout : ℕ → ℕ → Controller → Controller
schedule_connect_timeout r now c =
    assign r (λ x. record x { connect_timer = some (now + connect_timeout_ms) }) c

abbrev pub fresh_connection : Connection
fresh_connection = record { connected = false; closed = false; has_remote = false; candidates = [] }
