-- ===== src/Calls/Events.antt =====
-- All that can happen to the controller of useCall.js.
use timber_chat.Prelude.{
  pull, ℕ, String, Bool, true, false, not, ◌&&◌, ◌||◌, Option, none, some, List, [], ◌∷◌, ◌++◌, leb,
  if◌then◌else◌,
}
use timber_chat.Presentation.{CallMode, audio, video, CallStatus}
use timber_chat.Calls.{
  Phase, idle, preparing, active, idle_call, Connection, Context, Wire, Answer, Pending,
  start_media, accept_media, candidate_sealing, resume_fetching, Controller, is_some, is_current,
  assign, await,
}
use timber_chat.Calls.Actions.{show, clear_timer, stop_tones, record_status, stop_context, finish}
use timber_chat.Calls.Stages.{allocate, go_on}
use timber_chat.Calls.Signals.{Kind, on_frame}

abbrev pub outgoing_context : String → String → CallMode → String → Context
outgoing_context call_id conversation_id mode peer_name = record {
  call_id = call_id;
  conversation_id = conversation_id;
  mode = mode;
  peer_name = peer_name;
  incoming = false;
  pc = none;
  local_stream = none;
  pending_candidates = [];
  local_candidates = [];
  connect_timer = none;
  card_written = false;
  offer_sent = false;
  active_started_at = none;
}

-- Up to its first await; it throws where a call is on, and changes nothing.
unfoldable pub start_call : String → String → CallMode → String → Controller → Controller
start_call call_id conversation_id mode peer_name c =
    if is_some c.current
    then c
    else await (start_media c.next)
        (record (allocate (outgoing_context call_id conversation_id mode peer_name) c) {
          view = record idle_call {
            phase = preparing;
            call_id = some call_id;
            conversation_id = some conversation_id;
            mode = some mode;
            peer_name = peer_name;
          };
        })

unfoldable pub accept_call : Controller → Controller
accept_call c = elim c.current [
  | none ↦ c
  | some r ↦
      if not (c.contexts r).incoming || is_some (c.contexts r).pc
      then c
      else await (accept_media r)
          (stop_tones (show r (λ v. record v { phase = preparing; notice = "" }) c))
]

unfoldable pub end_call : ℕ → String → Controller → Controller
unfolding finish
end_call now reason c = elim c.current [ none ↦ c | some r ↦ finish r reason "" now c ]

unfoldable pub toggle_muted : Controller → Controller
toggle_muted c = elim c.current [
  | none ↦ c
  | some r ↦
      if is_some (c.contexts r).local_stream
      then record c { view = record c.view { muted = not c.view.muted } }
      else c
]

abbrev pub is_video : CallMode → Bool
is_video audio = false
is_video video = true

-- A stream has video tracks where the call is a video call.
unfoldable pub toggle_camera : Controller → Controller
toggle_camera c = elim c.current [
  | none ↦ c
  | some r ↦
      if is_some (c.contexts r).local_stream && is_video (c.contexts r).mode
      then record c { view = record c.view { camera_off = not c.view.camera_off } }
      else c
]

abbrev pub is_idle : Phase → Bool
is_idle idle = true
is_idle _ = false

unfoldable pub dismiss_notice : Controller → Controller
dismiss_notice c =
    if is_idle c.view.phase then record c { view = record c.view { notice = "" } } else c

unfoldable pub resume_pending_calls : Option Pending → Controller → Controller
resume_pending_calls found c = if is_some c.current then c else await (resume_fetching found) c

abbrev pub mark_connected : Option Connection → Option Connection
mark_connected none = none
mark_connected (some pc) = some (record pc { connected = true })

-- The connection is up; the call is active from the first time that it is.
abbrev pub begin : ℕ → Context → Context
begin now x = record x {
  connect_timer = none;
  active_started_at = elim x.active_started_at [ none ↦ some now | some t ↦ some t ];
  pc = mark_connected x.pc;
}

-- `pc.onconnectionstatechange`, and `pc.onicecandidate`.
unfoldable pub on_connected : ℕ → ℕ → Controller → Controller
unfolding record_status
on_connected now r c =
    if is_current r c && is_some (c.contexts r).pc
    then record_status r CallStatus.active none
        (show r (λ v. record v { phase = active }) (stop_tones (assign r (begin now) c)))
    else c

abbrev pub connection_failed : String
connection_failed = "The call ended because the connection failed."

unfoldable pub on_failed : ℕ → ℕ → Controller → Controller
unfolding finish
on_failed now r c =
    if is_current r c && is_some (c.contexts r).pc
    then finish r "failed" connection_failed now c
    else c

unfoldable pub on_local_candidate : ℕ → String → Controller → Controller
on_local_candidate r k c =
    if not (is_current r c)
    then c
    else if not (c.contexts r).incoming && not (c.contexts r).offer_sent
    then assign r (λ x. record x { local_candidates = x.local_candidates ++ k ∷ [] }) c
    else await (candidate_sealing r k) c

abbrev pub is_connected : Context → Bool
is_connected x = elim x.pc [ none ↦ false | some pc ↦ pc.connected ]

-- The timer of a context, once it is due.
unfoldable pub on_timer : ℕ → ℕ → Controller → Controller
unfolding finish
on_timer now r c = elim (c.contexts r).connect_timer [
  | none ↦ c
  | some due ↦
      if leb due now
      then (let d = clear_timer r c in
          if not (is_current r c) || is_connected (c.contexts r)
          then d
          else finish r "no_answer" "Your friend did not answer the call." now d)
      else c
]

unfoldable pub unmount : Controller → Controller
unfolding stop_context
unmount c =
    let d : Controller = elim c.current [ none ↦ c | some r ↦ stop_context r "" c ] in
    record d { orphans = []; tone = none }

pub data Event : Type 0 where
  started : (call_id conversation_id : String) → CallMode → (peer_name : String) → Event
  accepted : Event
  hung_up : (reason : String) → Event
  muted camera dismissed unmounted : Event
  resumed : Option Pending → Event
  framed : Kind → Wire → Event
  connected failed timed : ℕ → Event
  candidate : ℕ → String → Event
  settled : ℕ → Answer → Event
  switched : (online : Bool) → Event

-- The event, at a time.
unfoldable pub step : ℕ → Event → Controller → Controller
unfolding start_call accept_call end_call toggle_muted toggle_camera dismiss_notice
    resume_pending_calls on_frame on_connected on_failed on_local_candidate on_timer unmount go_on
step now (started call_id conversation_id mode peer_name) c =
    start_call call_id conversation_id mode peer_name c
step now accepted c = accept_call c
step now (hung_up reason) c = end_call now reason c
step now muted c = toggle_muted c
step now camera c = toggle_camera c
step now dismissed c = dismiss_notice c
step now unmounted c = unmount c
step now (resumed found) c = resume_pending_calls found c
step now (framed kind w) c = on_frame now kind w c
step now (connected r) c = on_connected now r c
step now (failed r) c = on_failed now r c
step now (timed r) c = on_timer now r c
step now (candidate r k) c = on_local_candidate r k c
step now (settled p answer) c = elim (pull p c.waiting) [
  | none ↦ c
  | some (a, rest) ↦ go_on now a answer (record c { waiting = rest })
]
step now (switched online) c = record c { online = online }

unfoldable pub steps : List (ℕ × Event) → Controller → Controller
unfolding step
steps [] c = c
steps ((now, e) ∷ es) c = steps es (step now e c)

abbrev blank_context : Context
blank_context = outgoing_context "" "" audio ""

-- As the hook is mounted.
abbrev pub mounted : Controller
mounted = record {
  view = idle_call;
  current = none;
  contexts = λ _. blank_context;
  next = 0;
  orphans = [];
  live = [];
  streams = 0;
  tone = none;
  waiting = [];
  sent = [];
  cards = [];
  online = true;
}
