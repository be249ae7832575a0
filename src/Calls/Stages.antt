-- ===== src/Calls/Stages.antt =====
-- How the asynchronous functions of useCall.js go on after an await.
use timber_chat.Prelude.{
  ℕ, suc, String, Bool, true, false, not, ◌&&◌, ◌||◌, Option, none, some, List, [], ◌∷◌, ◌++◌,
  lookup, remove, or_else, ◌==◌, if◌then◌else◌,
}
use timber_chat.Presentation.{audio, video, CallStatus}
use timber_chat.Calls.{
  calling, connecting, Phase, incoming_tone, idle_call, Context, Wire, Signal, Answer, resolved,
  rejected, offer_frame, answer_frame, candidate_frame, ringing_frame, end_frame, Pending, Await,
  start_media, start_tracks, start_offer, start_card, start_sealing, start_failing, accept_media,
  accept_remote, accept_tracks, accept_answer, accept_sealing, accept_flush, answer_flush,
  candidate_sealing, candidate_adding, offer_opening, early_opening, answer_opening, answer_remote,
  candidate_opening, resume_fetching, resume_opening, resume_candidate, Controller, is_some,
  is_current, assign, await,
}
use timber_chat.Calls.Actions.{
  emit, show, stop_tones, record_status, stop_context, finish, schedule_connect_timeout,
  fresh_connection,
}

-- A stream is captured; if the call is still the current one, it is kept and a connection made for it,
-- and otherwise its tracks are stopped.
abbrev pub keep_stream : ℕ → Await → Controller → Controller
keep_stream r after c =
    let d = record c { streams = suc c.streams } in
    if is_current r c
    then await after (
        assign r (λ x. record x { local_stream = some c.streams; pc = some fresh_connection })
          (record d { live = c.live ++ c.streams ∷ [] }))
    else d

-- `addLocalTracks` shows the stream.
abbrev pub show_stream : ℕ → Controller → Controller
show_stream r c = show r (λ v. record v { local_stream = (c.contexts r).local_stream }) c

-- The `catch` of `startCall`.
abbrev pub start_failed : ℕ → Controller → Controller
start_failed r c = await (start_failing r) (record_status r CallStatus.failed none c)

abbrev pub send_candidates : ℕ → List String → List Await
send_candidates r [] = []
send_candidates r (x ∷ xs) = candidate_sealing r x ∷ send_candidates r xs

-- The candidates that waited for the offer are sealed, one function each.
abbrev pub send_all : ℕ → Controller → Controller
send_all r c = record c { waiting = c.waiting ++ send_candidates r (c.contexts r).local_candidates }

abbrev pub offer_sent_to : ℕ → Controller → Controller
offer_sent_to r c =
    emit (offer_frame (c.contexts r).conversation_id (c.contexts r).call_id (c.contexts r).mode) c

-- The offer is sent, and then the candidates that waited for it.
abbrev pub offer_gone : ℕ → ℕ → Controller → Controller
offer_gone r now c = schedule_connect_timeout r now (
    show r (λ v. record v { phase = calling })
      (assign r (λ x. record x { offer_sent = true; local_candidates = [] })
        (send_all r (offer_sent_to r c))))

-- The offer is sealed.
abbrev pub offer_sealed : ℕ → ℕ → Controller → Controller
offer_sealed r now c = if c.online then offer_gone r now c else start_failed r c

abbrev pub could_not_answer : String
could_not_answer = "Could not answer the call."

abbrev pub answer_sealed : ℕ → ℕ → Controller → Controller
answer_sealed r now c =
    if c.online
    then schedule_connect_timeout r now (
        show r (λ v. record v { phase = connecting })
          (emit (answer_frame (c.contexts r).conversation_id (c.contexts r).call_id) c))
    else finish r "unavailable" could_not_answer now c

abbrev pub set_remote : ℕ → Controller → Controller
set_remote r c =
    assign r
      (λ x. record x {
        pc = elim x.pc [ none ↦ none | some pc ↦ some (record pc { has_remote = true }) ];
      })
      c

abbrev pub add_candidate : ℕ → String → Controller → Controller
add_candidate r candidate c =
    assign r
      (λ x. record x {
        pc = elim x.pc [
          | none ↦ none
          | some pc ↦ some (record pc { candidates = pc.candidates ++ candidate ∷ [] })
        ];
      })
      c

-- `pendingCandidates.splice(0)`
abbrev pub take_pending : ℕ → Controller → Controller
take_pending r c = assign r (λ x. record x { pending_candidates = [] }) c

abbrev pub push_pending : ℕ → Option String → Controller → Controller
push_pending r none c = c
push_pending r (some candidate) c =
    assign r (λ x. record x { pending_candidates = x.pending_candidates ++ candidate ∷ [] }) c

-- A signal of type `t` for the call.
abbrev pub is_signal : String → String → Signal → Bool
is_signal t call_id s = (s.t == t) && (s.call_id == call_id)

abbrev pub incoming_context : Wire → Context
incoming_context w = record {
  call_id = w.call_id;
  conversation_id = w.conversation_id;
  mode = if w.media == "video" then video else audio;
  peer_name = if w.username == "" then "A friend" else w.username;
  incoming = true;
  pc = none;
  local_stream = none;
  pending_candidates = [];
  local_candidates = [];
  connect_timer = none;
  card_written = false;
  offer_sent = false;
  active_started_at = none;
}

-- The overlay rings, and the caller is told.
abbrev pub show_incoming : Context → Controller → Controller
show_incoming x c = emit (ringing_frame x.conversation_id x.call_id) (record c {
  view = record idle_call {
    phase = Phase.incoming;
    call_id = some x.call_id;
    conversation_id = some x.conversation_id;
    mode = some x.mode;
    peer_name = x.peer_name;
  };
  tone = some incoming_tone;
})

-- The loop over the candidates that came before the offer.
abbrev pub early_candidates : ℕ → List Wire → Controller → Controller
early_candidates r [] c = show_incoming (c.contexts r) c
early_candidates r (w ∷ ws) c = await (early_opening r w ws) c

-- A new object on the heap.
abbrev pub allocate : Context → Controller → Controller
allocate x c = record (assign c.next (λ _. x) c) { current = some c.next; next = suc c.next }

unfoldable pub offer_opened : Wire → Signal → Controller → Controller
offer_opened w s c =
    if not (is_signal "offer" w.call_id s) || is_some c.current
    then c
    else early_candidates c.next (or_else (lookup w.call_id c.orphans) [])
        (record (allocate (incoming_context w) c) { orphans = remove w.call_id c.orphans })

unfoldable pub early_opened : ℕ → List Wire → Option Signal → Controller → Controller
early_opened r ws none c = early_candidates r ws c
early_opened r ws (some s) c =
    early_candidates r ws (
      if is_signal "ice-candidate" (c.contexts r).call_id s
      then push_pending r s.candidate c
      else c)

-- `callRef.current = context` at the end of `resumePendingCalls`.
abbrev pub install : Wire → List String → Controller → Controller
install w found c =
    let x : Context = record (incoming_context w) { pending_candidates = found } in
    show_incoming x (allocate x c)

abbrev pub pending_candidates : Wire → List String → List Wire → Controller → Controller
pending_candidates o found [] c = install o found c
pending_candidates o found (w ∷ ws) c = await (resume_candidate o found w ws) c

unfoldable pub resume_opened : Pending → Signal → Controller → Controller
resume_opened p s c =
    if not (is_signal "offer" p.offer.call_id s) || is_some c.current
    then c
    else pending_candidates p.offer [] p.signals c

abbrev pub candidate_of : Signal → List String
candidate_of s =
    if s.t == "ice-candidate" then elim s.candidate [ none ↦ [] | some k ↦ k ∷ [] ] else []

abbrev pub not_secure : String
not_secure = "The call could not be connected securely."

abbrev pub candidate_opened : ℕ → Signal → Controller → Controller
candidate_opened r s c =
    if is_signal "ice-candidate" (c.contexts r).call_id s
    then elim s.candidate [
      | none ↦ c
      | some k ↦
          if elim (c.contexts r).pc [ none ↦ false | some pc ↦ pc.has_remote ]
          then await (candidate_adding r k) c
          else push_pending r (some k) c
    ]
    else c

unfoldable pub go_on : ℕ → Await → Answer → Controller → Controller
unfolding record_status finish stop_context offer_opened early_opened resume_opened
go_on now (start_media r) (resolved _) c = keep_stream r (start_tracks r) c
go_on now (start_tracks r) (resolved _) c = await (start_offer r) (show_stream r c)
go_on now (start_offer r) (resolved _) c = await (start_card r) c
go_on now (start_card r) (resolved _) c =
    await (start_sealing r) (assign r (λ x. record x { card_written = true }) c)
go_on now (start_sealing r) (resolved _) c = offer_sealed r now c
go_on now (start_media r) (rejected _) c = start_failed r c
go_on now (start_tracks r) (rejected _) c = start_failed r c
go_on now (start_offer r) (rejected _) c = start_failed r c
go_on now (start_card r) (rejected _) c = start_failed r c
go_on now (start_sealing r) (rejected _) c = start_failed r c
go_on now (start_failing r) _ c = stop_context r "" c
go_on now (accept_media r) (resolved _) c = keep_stream r (accept_remote r) c
go_on now (accept_remote r) (resolved _) c = await (accept_tracks r) (set_remote r c)
go_on now (accept_tracks r) (resolved _) c =
    await (accept_flush r (c.contexts r).pending_candidates) (take_pending r (show_stream r c))
go_on now (accept_flush r []) _ c = await (accept_answer r) c
go_on now (accept_flush r (k ∷ ks)) (resolved _) c = await (accept_flush r ks) (add_candidate r k c)
go_on now (accept_flush r (k ∷ ks)) (rejected _) c = await (accept_flush r ks) c
go_on now (accept_answer r) (resolved _) c = await (accept_sealing r) c
go_on now (accept_sealing r) (resolved _) c = answer_sealed r now c
go_on now (accept_media r) (rejected e) c = finish r "unavailable" e now c
go_on now (accept_remote r) (rejected e) c = finish r "unavailable" e now c
go_on now (accept_tracks r) (rejected e) c = finish r "unavailable" e now c
go_on now (accept_answer r) (rejected e) c = finish r "unavailable" e now c
go_on now (accept_sealing r) (rejected e) c = finish r "unavailable" e now c
go_on now (candidate_sealing r k) (resolved _) c =
    emit (candidate_frame (c.contexts r).conversation_id (c.contexts r).call_id k) c
go_on now (candidate_adding r k) (resolved _) c = add_candidate r k c
go_on now (offer_opening w) (resolved s) c = offer_opened w s c
go_on now (offer_opening w) (rejected _) c = emit (end_frame w.conversation_id w.call_id "failed") c
go_on now (early_opening r w ws) (resolved s) c = early_opened r ws (some s) c
go_on now (early_opening r w ws) (rejected _) c = early_opened r ws none c
go_on now (answer_opening r) (resolved s) c =
    if is_signal "answer" (c.contexts r).call_id s
    then await (answer_remote r) (stop_tones c)
    else finish r "failed" not_secure now c
go_on now (answer_opening r) (rejected _) c = finish r "failed" not_secure now c
go_on now (answer_remote r) (resolved _) c =
    await (answer_flush r (c.contexts r).pending_candidates) (take_pending r (set_remote r c))
go_on now (answer_remote r) (rejected _) c = finish r "failed" not_secure now c
go_on now (answer_flush r []) _ c = show r (λ v. record v { phase = connecting }) c
go_on now (answer_flush r (k ∷ ks)) (resolved _) c = await (answer_flush r ks) (add_candidate r k c)
go_on now (answer_flush r (k ∷ ks)) (rejected _) c = await (answer_flush r ks) c
go_on now (candidate_opening r) (resolved s) c = candidate_opened r s c
go_on now (resume_fetching (some p)) (resolved _) c =
    if is_some c.current then c else await (resume_opening p) c
go_on now (resume_opening p) (resolved s) c = resume_opened p s c
go_on now (resume_candidate o found w ws) (resolved s) c =
    pending_candidates o (found ++ candidate_of s) ws c
go_on now (resume_candidate o found w ws) (rejected _) c = pending_candidates o found ws c
go_on now _ _ c = c
