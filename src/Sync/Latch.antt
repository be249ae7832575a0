-- ===== src/Sync/Latch.antt =====
-- `reconcileRealtime` of frontend/src/lib/sync.js: one reconciliation at a time, with a latch for the
-- requests that come while it runs. Between two awaits the code runs alone, so an event is a call, the
-- end of a pass of the `do … while (reconcileQueued)` loop, or the callback of `finally`, which runs
-- after the loop has ended and not at once.
use mathlib.Core.Bool.{false≢true}
use timber_chat.Prelude.{
  suc, sym, ap, ◌∙◌, ℕ, ◌≤◌, ◌<◌, Bool, true, false, ◌≡◌, refl, List, [], ◌∷◌, ◌++◌, if◌then◌else◌,
  arith,
}

pub data Event : Type 0 where
  requested pass_done pass_failed released : Event

-- Nothing is under way, a pass is, or the loop has ended and `reconciliation` is not cleared yet.
pub data LoopState : Type 0 where
  resting passing leaving : LoopState

-- `started` counts the passes that have begun.
pub record Latch : Type 0 where
  pub phase : LoopState
  pub queued : Bool
  pub started : ℕ

abbrev pub idle : Latch
idle = record { phase = resting; queued = false; started = 0 }

-- `reconcileQueued = false` at the head of the loop.
abbrev pub begin_pass : Latch → Latch
begin_pass s = record { phase = passing; queued = false; started = suc s.started }

abbrev end_pass : Latch → Latch
end_pass s = if s.queued then begin_pass s else record s { phase = leaving }

unfoldable pub on_event : Event → Latch → Latch
on_event requested s = elim s.phase [
  | resting ↦ begin_pass s
  | passing ↦ record s { queued = true }
  | leaving ↦ record s { queued = true }
]
on_event pass_done s = elim s.phase [ resting ↦ s | passing ↦ end_pass s | leaving ↦ s ]
on_event pass_failed s = elim s.phase [
  | resting ↦ s
  | passing ↦ record s { phase = leaving }
  | leaving ↦ s
]
on_event released s = elim s.phase [
  | resting ↦ s
  | passing ↦ s
  | leaving ↦ record s { phase = resting }
]

unfoldable pub on_events : List Event → Latch → Latch
unfolding on_event
on_events [] s = s
on_events (e ∷ es) s = on_events es (on_event e s)

abbrev pub fails : List Event → Bool
fails [] = false
fails (pass_failed ∷ es) = true
fails (_ ∷ es) = fails es

on_events-append :
    (es fs : List Event) (s : Latch) → on_events (es ++ fs) s ≡ on_events fs (on_events es s)
unfolding on_events
on_events-append [] fs s = refl
on_events-append (e ∷ es) fs s = on_events-append es fs (on_event e s)

abbrev pub is_passing : LoopState → Bool
is_passing passing = true
is_passing _ = false

abbrev pub is_leaving : LoopState → Bool
is_leaving leaving = true
is_leaving _ = false

abbrev pub is_resting : LoopState → Bool
is_resting resting = true
is_resting _ = false

started-on_event : (e : Event) (s : Latch) → s.started ≤ (on_event e s).started
unfolding on_event
started-on_event requested s = ground arith
started-on_event pass_done s = ground arith
started-on_event pass_failed s = ground arith
started-on_event released s = ground arith

-- Passes are only ever begun.
started-on_events : (es : List Event) (s : Latch) → s.started ≤ (on_events es s).started
unfolding on_events
started-on_events [] s = omega arith
started-on_events (e ∷ es) s =
    omega (arith, started-on_event e s, started-on_events es (on_event e s))

-- While the latch is set in a pass, the loop does not end without another pass.
queued-on_events :
    (es : List Event) (n : ℕ)
    → fails es ≡ false
    → let s : Latch = record { phase = passing; queued = true; started = n } in
      is_resting (on_events es s).phase ≡ true → n < (on_events es s).started
unfolding on_events on_event
queued-on_events [] n f rest = absurd (false≢true rest)
queued-on_events (requested ∷ es) n f rest = queued-on_events es n f rest
queued-on_events (pass_done ∷ es) n f rest =
    started-on_events es (record { phase = passing; queued = false; started = suc n })
queued-on_events (pass_failed ∷ es) n f rest = absurd (false≢true (sym f))
queued-on_events (released ∷ es) n f rest = queued-on_events es n f rest

request-served :
    (phase : LoopState) (queued : Bool) (n : ℕ) (after : List Event)
    → is_leaving phase ≡ false
    → fails after ≡ false
    → let s : Latch = record { phase = phase; queued = queued; started = n } in
      is_resting (on_events (requested ∷ after) s).phase ≡ true
      → n < (on_events (requested ∷ after) s).started
unfolding on_events on_event
request-served resting queued n after stays f rest =
    started-on_events after (record { phase = passing; queued = false; started = suc n })
request-served passing queued n after stays f rest = queued-on_events after n f rest
request-served leaving queued n after stays f rest = absurd (false≢true (sym stays))

-- A request that does not come between the end of the loop and the callback of `finally` is not
-- swallowed: unless a pass fails after it, by the time that reconciling comes to rest a pass has begun
-- after the request.
pub on_events-served :
    (before after : List Event)
    → is_leaving (on_events before idle).phase ≡ false
    → fails after ≡ false
    → is_resting (on_events (before ++ requested ∷ after) idle).phase ≡ true
    → (on_events before idle).started < (on_events (before ++ requested ∷ after) idle).started
on_events-served before after stays f rest =
    let s = on_events before idle in
    let whole = on_events-append before (requested ∷ after) idle in
    rw whole (
      request-served s.phase s.queued s.started after stays f
        (ap (λ (x : Latch). is_resting x.phase) (sym whole) ∙ rest))

swallowed :
    (phase : LoopState) (queued : Bool) (n : ℕ)
    → is_leaving phase ≡ true
    → (on_events
        (requested ∷ released ∷ [])
        (record { phase = phase; queued = queued; started = n })).started
      ≡ n
unfolding on_events on_event
swallowed resting queued n h = absurd (false≢true h)
swallowed passing queued n h = absurd (false≢true h)
swallowed leaving queued n h = refl

-- A request that comes between is: nothing has begun when the callback has run.
on_events-swallowed :
    (before : List Event)
    → is_leaving (on_events before idle).phase ≡ true
    → (on_events (before ++ requested ∷ released ∷ []) idle).started
      ≡ (on_events before idle).started
on_events-swallowed before leaves =
    let s = on_events before idle in
    ap (λ (x : Latch). x.started) (on_events-append before (requested ∷ released ∷ []) idle)
    ∙ swallowed s.phase s.queued s.started leaves
