-- ===== src/Calls/Streams/Stages.antt =====
-- Which streams capture: what each await of a call leaves of it.
use timber_chat.Prelude.{
  ℕ, true, not, ◌≡◌, inl, inr, refl, Option, none, some, [], ◌∷◌, ◌++◌, Bool-cases,
}
use timber_chat.Calls.{
  Phase, Answer, resolved, rejected, Await, Controller, is_some, assign, start_media, start_tracks,
  start_offer, start_card, start_sealing, start_failing, accept_media, accept_remote, accept_tracks,
  accept_answer, accept_sealing, accept_flush, answer_flush, candidate_sealing, candidate_adding,
  offer_opening, early_opening, answer_opening, answer_remote, candidate_opening, resume_fetching,
  resume_opening, resume_candidate,
}
use timber_chat.Calls.Stages.{
  go_on, set_remote, add_candidate, take_pending, candidate_of, not_secure, show_stream,
}
use timber_chat.Calls.Streams.{
  IsHeld, is_clear, stop_context-IsHeld, await-IsHeld, assign-IsHeld, emit-IsHeld, show-IsHeld,
  finish-IsHeld, keep_stream-IsHeld,
}
use timber_chat.Calls.Streams.Steps.{
  set_remote-IsHeld, add_candidate-IsHeld, take_pending-IsHeld, offer_opened-IsHeld,
  early_opened-IsHeld, start_failed-IsHeld, candidate_opened-IsHeld, answer_sealed-IsHeld,
  offer_sealed-IsHeld, pending_candidates-IsHeld, resume_opened-IsHeld, show_stream-IsHeld,
  answer_opened-IsHeld,
}

absent : (o : Option ℕ) → not (is_some o) ≡ true → o ≡ none
absent none h = refl
absent (some r) h = cc

pub go_on-IsHeld :
    (now : ℕ) (a : Await) (x : Answer) (c : Controller)
    → is_clear a c ≡ true
    → IsHeld c
    → IsHeld (go_on now a x c)
unfolding go_on
go_on-IsHeld now (start_media r) (resolved _) c k h =
    keep_stream-IsHeld r (start_tracks r) c refl k h
go_on-IsHeld now (start_tracks r) (resolved _) c k h =
    await-IsHeld (start_offer r) (show_stream r c) refl (show_stream-IsHeld r c h)
go_on-IsHeld now (start_offer r) (resolved _) c k h = await-IsHeld (start_card r) c refl h
go_on-IsHeld now (start_card r) (resolved _) c k h =
    await-IsHeld (start_sealing r) (assign r (λ x. record x { card_written = true }) c) refl
      (assign-IsHeld r (λ x. record x { card_written = true }) c (λ x. refl) (λ x. refl) h)
go_on-IsHeld now (start_sealing r) (resolved _) c k h = offer_sealed-IsHeld r now c h
go_on-IsHeld now (start_media r) (rejected _) c k h = start_failed-IsHeld r c h
go_on-IsHeld now (start_tracks r) (rejected _) c k h = start_failed-IsHeld r c h
go_on-IsHeld now (start_offer r) (rejected _) c k h = start_failed-IsHeld r c h
go_on-IsHeld now (start_card r) (rejected _) c k h = start_failed-IsHeld r c h
go_on-IsHeld now (start_sealing r) (rejected _) c k h = start_failed-IsHeld r c h
go_on-IsHeld now (start_failing r) (resolved _) c k h = stop_context-IsHeld r "" c h
go_on-IsHeld now (start_failing r) (rejected _) c k h = stop_context-IsHeld r "" c h
go_on-IsHeld now (accept_media r) (resolved _) c k h =
    keep_stream-IsHeld r (accept_remote r) c refl k h
go_on-IsHeld now (accept_remote r) (resolved _) c k h =
    await-IsHeld (accept_tracks r) (set_remote r c) refl (set_remote-IsHeld r c h)
go_on-IsHeld now (accept_tracks r) (resolved _) c k h =
    await-IsHeld (accept_flush r (c.contexts r).pending_candidates)
      (take_pending r (show_stream r c)) refl
      (take_pending-IsHeld r (show_stream r c) (show_stream-IsHeld r c h))
go_on-IsHeld now (accept_flush r []) (resolved _) c k h = await-IsHeld (accept_answer r) c refl h
go_on-IsHeld now (accept_flush r []) (rejected _) c k h = await-IsHeld (accept_answer r) c refl h
go_on-IsHeld now (accept_flush r (x ∷ xs)) (resolved _) c k h =
    await-IsHeld (accept_flush r xs) (add_candidate r x c) refl (add_candidate-IsHeld r x c h)
go_on-IsHeld now (accept_flush r (x ∷ xs)) (rejected _) c k h =
    await-IsHeld (accept_flush r xs) c refl h
go_on-IsHeld now (accept_answer r) (resolved _) c k h = await-IsHeld (accept_sealing r) c refl h
go_on-IsHeld now (accept_sealing r) (resolved _) c k h = answer_sealed-IsHeld r now c h
go_on-IsHeld now (accept_media r) (rejected e) c k h = finish-IsHeld r "unavailable" e now c h
go_on-IsHeld now (accept_remote r) (rejected e) c k h = finish-IsHeld r "unavailable" e now c h
go_on-IsHeld now (accept_tracks r) (rejected e) c k h = finish-IsHeld r "unavailable" e now c h
go_on-IsHeld now (accept_answer r) (rejected e) c k h = finish-IsHeld r "unavailable" e now c h
go_on-IsHeld now (accept_sealing r) (rejected e) c k h = finish-IsHeld r "unavailable" e now c h
go_on-IsHeld now (candidate_sealing r x) (resolved _) c k h = emit-IsHeld _ c h
go_on-IsHeld now (candidate_sealing r x) (rejected _) c k h = h
go_on-IsHeld now (candidate_adding r x) (resolved _) c k h = add_candidate-IsHeld r x c h
go_on-IsHeld now (candidate_adding r x) (rejected _) c k h = h
go_on-IsHeld now (offer_opening w) (resolved s) c k h = offer_opened-IsHeld w s c h
go_on-IsHeld now (offer_opening w) (rejected _) c k h = emit-IsHeld _ c h
go_on-IsHeld now (early_opening r w ws) (resolved s) c k h = early_opened-IsHeld r ws (some s) c h
go_on-IsHeld now (early_opening r w ws) (rejected _) c k h = early_opened-IsHeld r ws none c h
go_on-IsHeld now (answer_opening r) (resolved s) c k h = answer_opened-IsHeld r now s c h
go_on-IsHeld now (answer_opening r) (rejected _) c k h = finish-IsHeld r "failed" not_secure now c h
go_on-IsHeld now (answer_remote r) (resolved _) c k h =
    await-IsHeld (answer_flush r (c.contexts r).pending_candidates)
      (take_pending r (set_remote r c)) refl
      (take_pending-IsHeld r (set_remote r c) (set_remote-IsHeld r c h))
go_on-IsHeld now (answer_remote r) (rejected _) c k h = finish-IsHeld r "failed" not_secure now c h
go_on-IsHeld now (answer_flush r []) (resolved _) c k h =
    show-IsHeld r (λ v. record v { phase = Phase.connecting }) c h
go_on-IsHeld now (answer_flush r []) (rejected _) c k h =
    show-IsHeld r (λ v. record v { phase = Phase.connecting }) c h
go_on-IsHeld now (answer_flush r (x ∷ xs)) (resolved _) c k h =
    await-IsHeld (answer_flush r xs) (add_candidate r x c) refl (add_candidate-IsHeld r x c h)
go_on-IsHeld now (answer_flush r (x ∷ xs)) (rejected _) c k h =
    await-IsHeld (answer_flush r xs) c refl h
go_on-IsHeld now (candidate_opening r) (resolved s) c k h = candidate_opened-IsHeld r s c h
go_on-IsHeld now (candidate_opening r) (rejected _) c k h = h
go_on-IsHeld now (resume_fetching none) (resolved _) c k h = h
go_on-IsHeld now (resume_fetching (some p)) (resolved _) c k h =
    elim (Bool-cases (is_some c.current)) [
      | inl e ↦ rw e h
      | inr e ↦ rw e (await-IsHeld (resume_opening p) c refl h)
    ]
go_on-IsHeld now (resume_fetching none) (rejected _) c k h = h
go_on-IsHeld now (resume_fetching (some p)) (rejected _) c k h = h
go_on-IsHeld now (resume_opening p) (resolved s) c k h = resume_opened-IsHeld p s c h
go_on-IsHeld now (resume_opening p) (rejected _) c k h = h
go_on-IsHeld now (resume_candidate o found w ws) (resolved s) c k h =
    pending_candidates-IsHeld o (found ++ candidate_of s) ws c (absent c.current k) h
go_on-IsHeld now (resume_candidate o found w ws) (rejected _) c k h =
    pending_candidates-IsHeld o found ws c (absent c.current k) h
