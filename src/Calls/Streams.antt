-- ===== src/Calls/Streams.antt =====
-- Which streams capture: what the shared steps of a call leave of it.
pub mod Steps
pub mod Stages
pub mod Handlers
pub mod Frames
pub mod Resumed
pub mod Run
use timber_chat.Prelude.{
  pull, ℕ, zero, suc, ◌+◌, ◌≤◌, ◌<◌, max, String, Bool, true, false, not, ◌&&◌, ◌||◌, ◌≡◌, inl, inr,
  refl, sym, ap, ◌∙◌, Option, none, some, List, [], ◌∷◌, ◌++◌, keep, eqb, if◌then◌else◌, Bool-cases,
  Option-cases, arith,
}
use timber_chat.Presentation.{CallStatus}
use timber_chat.Calls.{
  Call, Frame, Context, Answer, resolved, rejected, Await, start_media, accept_media,
  resume_candidate, Controller, is_some, is_current, assign, await,
}
use timber_chat.Calls.Actions.{
  stop_context, finish, record_status, record_end, send_end, emit, show,
}
use timber_chat.Calls.Stages.{go_on, keep_stream, allocate}
use timber_chat.Calls.Events.{Event, accepted, resumed, settled, step, steps, mounted}

-- The stream that the current call holds.
abbrev pub held_by : Controller → List ℕ
held_by c = elim c.current [
  | none ↦ []
  | some r ↦ elim (c.contexts r).local_stream [ none ↦ [] | some s ↦ s ∷ [] ]
]

-- Whether the function waits for a stream of the call `r`.
abbrev pub media_of : ℕ → Await → ℕ
media_of r (start_media k) = if eqb k r then 1 else 0
media_of r (accept_media k) = if eqb k r then 1 else 0
media_of r _ = 0

abbrev pub media_count : ℕ → List Await → ℕ
media_count r [] = 0
media_count r (a ∷ as') = media_of r a + media_count r as'

-- The first reference that no such function has.
abbrev pub media_top : List Await → ℕ
media_top [] = 0
media_top (start_media k ∷ rest) = max (suc k) (media_top rest)
media_top (accept_media k ∷ rest) = max (suc k) (media_top rest)
media_top (_ ∷ rest) = media_top rest

abbrev IsOwn : Option ℕ → (ℕ → Context) → List Await → ℕ → Type 0
IsOwn none contexts waiting next = Unit
IsOwn (some r) contexts waiting next =
    (media_count r waiting ≤ (if is_some (contexts r).pc then 0 else 1))
    × ((is_some (contexts r).local_stream && not (is_some (contexts r).pc)) ≡ false)
    × (r < next)

pub record IsHeld (c : Controller) : Type 0 where
  pub live : c.live ≡ held_by c
  pub own : IsOwn c.current c.contexts c.waiting c.next
  pub top : media_top c.waiting ≤ c.next

pub media_count-append :
    (r : ℕ) (ws : List Await) (a : Await)
    → media_count r (ws ++ a ∷ []) ≡ media_of r a + media_count r ws
media_count-append r [] a = omega arith
media_count-append r (w ∷ ws) a = omega (arith, media_count-append r ws a)

pub stop_context-IsHeld :
    (r : ℕ) (notice : String) (c : Controller) → IsHeld c → IsHeld (stop_context r notice c)
unfolding stop_context
stop_context-IsHeld r notice c h = ground arith

abbrev pub is_media : Await → Bool
is_media (start_media r) = true
is_media (accept_media r) = true
is_media _ = false

pub media_of-other : (r : ℕ) (a : Await) → is_media a ≡ false → media_of r a ≡ 0
media_of-other r a h = ground arith

pub media_top-other :
    (ws : List Await) (a : Await) → is_media a ≡ false → media_top (ws ++ a ∷ []) ≡ media_top ws
media_top-other [] a h = ground arith
media_top-other (w ∷ ws) a h = ground (arith, media_top-other ws a h)

pub await-IsHeld : (a : Await) (c : Controller) → is_media a ≡ false → IsHeld c → IsHeld (await a c)
await-IsHeld a c o h = elim (Option-cases c.current) [
  | inl e ↦ ground (arith, e, media_top-other c.waiting a o)
  | inr (r, e) ↦ ground (
    arith,
    e,
    media_top-other c.waiting a o,
    media_count-append r c.waiting a,
    media_of-other r a o,
  )
]

pub assign-IsHeld :
    (r : ℕ) (f : Context → Context) (c : Controller)
    → ((x : Context) → is_some (f x).pc ≡ is_some x.pc)
    → ((x : Context) → (f x).local_stream ≡ x.local_stream)
    → IsHeld c
    → IsHeld (assign r f c)
assign-IsHeld r f c p l h = elim (Option-cases c.current) [
  | inl e ↦ ground (arith, e)
  | inr (k, e) ↦ ground (arith, e, p (c.contexts k), l (c.contexts k))
]

-- A step that touches neither the heap nor the streams.
pub emit-IsHeld : (f : Frame) (c : Controller) → IsHeld c → IsHeld (emit f c)
emit-IsHeld f c h = ground arith

pub show-IsHeld : (r : ℕ) (f : Call → Call) (c : Controller) → IsHeld c → IsHeld (show r f c)
show-IsHeld r f c h = ground arith

pub record_status-IsHeld :
    (r : ℕ) (s : CallStatus) (d : Option ℕ) (c : Controller)
    → IsHeld c
    → IsHeld (record_status r s d c)
unfolding record_status
record_status-IsHeld r s d c h = ground arith

pub finish-IsHeld :
    (r : ℕ) (reason notice : String) (now : ℕ) (c : Controller)
    → IsHeld c
    → IsHeld (finish r reason notice now c)
unfolding finish send_end record_end
finish-IsHeld r reason notice now c h =
    stop_context-IsHeld r notice _ (record_status-IsHeld r _ _ _ (emit-IsHeld _ c h))

-- A pulled function was one of those that waited.
pub pull-media :
    (p : ℕ) (ws : List Await) (a : Await) (rest : List Await)
    → pull p ws ≡ some (a, rest)
    → (r : ℕ)
    → (media_count r ws ≡ media_of r a + media_count r rest)
      × (media_top rest ≤ media_top ws)
      × (media_top (a ∷ []) ≤ media_top ws)
pull-media p [] a rest e r = absurd (cc)
pull-media zero (w ∷ ws) a rest e r = ground (arith, e)
pull-media (suc p) (w ∷ ws) a rest e r = elim (Option-cases (pull p ws)) [
  | inl gone ↦ ground (arith, e, gone)
  | inr ((b, others), found) ↦ ground (arith, e, found, pull-media p ws b others found r)
]

-- A call whose stream is awaited has no stream yet, and awaits no other; a kept call is not installed
-- over another one.
abbrev pub is_ready : ℕ → Controller → Bool
is_ready r c =
    if is_current r c
    then not (is_some (c.contexts r).pc) && eqb (media_count r c.waiting) 0
    else true

abbrev pub is_clear : Await → Controller → Bool
is_clear (start_media r) c = is_ready r c
is_clear (accept_media r) c = is_ready r c
is_clear (resume_candidate offer found w ws) c = not (is_some c.current)
is_clear _ c = true

pub keep_stream-IsHeld :
    (r : ℕ) (after : Await) (c : Controller)
    → is_media after ≡ false
    → is_ready r c ≡ true
    → IsHeld c
    → IsHeld (keep_stream r after c)
keep_stream-IsHeld r after c o ready h = elim (Bool-cases (is_current r c)) [
  | inl e ↦ elim (Option-cases c.current) [
    | inl f ↦ ground (arith, e, f)
    | inr (k, f) ↦ ground (
      arith,
      e,
      f,
      ready,
      media_top-other c.waiting after o,
      media_count-append k c.waiting after,
      media_of-other k after o,
    )
  ]
  | inr e ↦ ground (arith, e)
]

-- A reference that is not yet given out is awaited by nobody.
pub media_count-top : (r : ℕ) (ws : List Await) → media_top ws ≤ r → media_count r ws ≡ 0
media_count-top r [] le = refl
media_count-top r (w ∷ ws) le = ground (arith, media_count-top r ws)

pub allocate-IsHeld :
    (x : Context) (c : Controller)
    → x.pc ≡ none
    → x.local_stream ≡ none
    → c.current ≡ none
    → IsHeld c
    → IsHeld (allocate x c)
allocate-IsHeld x c p l e h = ground (arith, p, l, e, media_count-top c.next c.waiting h.top)
