-- ===== src/Calls.antt =====
-- frontend/src/hooks/useCall.js: the call controller. A call context is an object that several
-- asynchronous functions share, so contexts stand in a heap and the functions hold references. Between
-- two awaits the code runs alone: `waiting` are the functions that stand at an await, and an event lets
-- one of them go on. The browser, the sealing of signals and the relay answer as the event says.
mod Actions
mod Stages
mod Signals
pub mod Events
pub mod Streams
pub mod Candidates
pub mod Screen
mod Tests
use timber_chat.Prelude.{
  ℕ, String, Bool, true, false, Option, none, some, List, [], ◌∷◌, ◌++◌, Dict, eqb, if◌then◌else◌,
}
use timber_chat.Presentation.{CallMode, CallStatus}

pub data Phase : Type 0 where
  idle preparing calling ringing incoming connecting active : Phase

pub data Tone : Type 0 where
  incoming_tone ringback_tone : Tone

-- What the overlay shows.
pub record Call : Type 0 where
  pub phase : Phase
  pub conversation_id : Option String
  pub call_id : Option String
  pub mode : Option CallMode
  pub peer_name : String
  pub local_stream : Option ℕ
  pub muted : Bool
  pub camera_off : Bool
  pub notice : String

abbrev pub idle_call : Call
idle_call = record {
  phase = idle;
  conversation_id = none;
  call_id = none;
  mode = none;
  peer_name = "";
  local_stream = none;
  muted = false;
  camera_off = false;
  notice = "";
}

-- `RTCPeerConnection`, as far as the controller looks into it.
pub record Connection : Type 0 where
  pub connected : Bool
  pub closed : Bool
  pub has_remote : Bool
  pub candidates : List String

pub record Context : Type 0 where
  pub call_id : String
  pub conversation_id : String
  pub mode : CallMode
  pub peer_name : String
  pub incoming : Bool
  pub pc : Option Connection
  pub local_stream : Option ℕ
  pub pending_candidates : List String
  pub local_candidates : List String
  pub connect_timer : Option ℕ
  pub card_written : Bool
  pub offer_sent : Bool
  pub active_started_at : Option ℕ

-- A frame of the socket that concerns a call, still sealed; an absent text is empty.
pub record Wire : Type 0 where
  pub conversation_id : String
  pub call_id : String
  pub media : String
  pub username : String
  pub reason : String

-- What `openCallSignal` makes of one.
pub record Signal : Type 0 where
  pub t : String
  pub call_id : String
  pub candidate : Option String

-- How an awaited call ends; the signal is read where it was a signal that was opened.
pub data Answer : Type 0 where
  resolved : Signal → Answer
  rejected : (message : String) → Answer

pub data Frame : Type 0 where
  end_frame : (conversation_id call_id reason : String) → Frame
  ringing_frame : (conversation_id call_id : String) → Frame
  offer_frame : (conversation_id call_id : String) → CallMode → Frame
  answer_frame : (conversation_id call_id : String) → Frame
  candidate_frame : (conversation_id call_id candidate : String) → Frame

-- A call that the relay kept: its offer, and its candidates.
pub record Pending : Type 0 where
  pub offer : Wire
  pub signals : List Wire

-- Where an asynchronous function stands, with the context that it holds. The context of a kept call is
-- not shared before it is installed: it is the offer with the candidates that were opened so far.
pub data Await : Type 0 where
  start_media start_tracks start_offer start_card start_sealing start_failing : ℕ → Await
  accept_media accept_remote accept_tracks accept_answer accept_sealing : ℕ → Await
  accept_flush answer_flush : ℕ → List String → Await
  candidate_sealing candidate_adding : ℕ → String → Await
  offer_opening : Wire → Await
  early_opening : ℕ → Wire → List Wire → Await
  answer_opening answer_remote candidate_opening : ℕ → Await
  resume_fetching : Option Pending → Await
  resume_opening : Pending → Await
  resume_candidate : Wire → List String → Wire → List Wire → Await

-- `live` are the camera and microphone streams that capture, `cards` the status rows that were sent.
pub record Controller : Type 0 where
  pub view : Call
  pub current : Option ℕ
  pub contexts : ℕ → Context
  pub next : ℕ
  pub orphans : Dict (List Wire)
  pub live : List ℕ
  pub streams : ℕ
  pub tone : Option Tone
  pub waiting : List Await
  pub sent : List Frame
  pub cards : List (String × CallStatus × Option ℕ)
  pub online : Bool

abbrev pub is_some {ℓ} : {A : Type ℓ} → Option A → Bool
is_some none = false
is_some (some a) = true

-- `callRef.current === context`
abbrev pub is_current : ℕ → Controller → Bool
is_current r c = elim c.current [ none ↦ false | some k ↦ eqb k r ]

-- An assignment to fields of a context.
abbrev pub assign : ℕ → (Context → Context) → Controller → Controller
assign r f c = record c { contexts = λ k. if eqb k r then f (c.contexts k) else c.contexts k }

abbrev pub await : Await → Controller → Controller
await a c = record c { waiting = c.waiting ++ a ∷ [] }
