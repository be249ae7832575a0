-- ===== src/Calls/Candidates.antt =====
-- The ICE candidates that come before useCall.js can use them.
use timber_chat.Prelude.{
  ℕ, ◌≤◌, String, Bool, true, false, not, ◌&&◌, ◌||◌, ◌≡◌, inl, inr, refl, sym, none, some, List,
  [], ◌∷◌, ◌++◌, length, take, suc, zero, ap, ◌∙◌, lookup, lookup-insert, eq_refl, eq_iff,
  length-append, or_else, ltb, ◌==◌, if◌then◌else◌, Bool-cases, arith,
}
use mathlib.Core.List.{append_assoc}
use timber_chat.Calls.{Wire, Controller}
use timber_chat.Calls.Signals.{ice_candidate, orphan_limit, is_own, on_frame, keep_orphan, on_own}
use timber_chat.Calls.Events.{Event, framed, step, steps}

abbrev pub orphans_of : String → Controller → List Wire
orphans_of id c = or_else (lookup id c.orphans) []

-- The candidates of the wires, as they come.
abbrev pub candidate_frames : ℕ → List Wire → List (ℕ × Event)
candidate_frames now [] = []
candidate_frames now (w ∷ ws) = (now, framed ice_candidate w) ∷ candidate_frames now ws

-- They name one call, and a conversation.
abbrev pub are_of : String → List Wire → Bool
are_of id [] = true
are_of id (w ∷ ws) =
    ((w.call_id == id) && not ((w.conversation_id == "") || (w.call_id == ""))) && are_of id ws

ringing-candidate :
    (now r : ℕ) (w : Wire) (c : Controller)
    → c.current ≡ some r
    → (c.contexts r).pc ≡ none
    → step now (framed ice_candidate w) c ≡ c
unfolding step on_frame on_own
ringing-candidate now r w c e p =
    elim (Bool-cases ((w.conversation_id == "") || (w.call_id == ""))) [
      | inl b ↦ rw b refl
      | inr b ↦ elim (Bool-cases (is_own r w c)) [
        | inl own ↦ rw (b, e, own, p) refl
        | inr other ↦ rw (b, e, other) refl
      ]
    ]

-- While a call rings and is not accepted yet, its candidates are lost, however many come: none is kept
-- with the call or with the orphans, and nothing waits for one.
pub ringing-candidates :
    (now r : ℕ) (ws : List Wire) (c : Controller)
    → c.current ≡ some r
    → (c.contexts r).pc ≡ none
    → steps (candidate_frames now ws) c ≡ c
unfolding steps
ringing-candidates now r [] c e p = refl
ringing-candidates now r (w ∷ ws) c e p =
    ap (steps (candidate_frames now ws)) (ringing-candidate now r w c e p)
    ∙ ringing-candidates now r ws c e p

take-whole : (n : ℕ) (xs : List Wire) → length xs ≤ n → take n (xs ++ []) ≡ xs
take-whole zero [] le = refl
take-whole (suc n) [] le = refl
take-whole zero (x ∷ xs) le = absurd (omega (arith, le))
take-whole (suc n) (x ∷ xs) le = ap (λ ys. x ∷ ys) (take-whole n xs (omega (arith, le)))

take-full : (n : ℕ) (xs ys zs : List Wire) → n ≤ length xs → take n (xs ++ ys) ≡ take n (xs ++ zs)
take-full zero xs ys zs le = refl
take-full (suc n) [] ys zs le = absurd (omega (arith, le))
take-full (suc n) (x ∷ xs) ys zs le = ap (λ ws. x ∷ ws) (take-full n xs ys zs (omega (arith, le)))

-- Such a candidate, where there is no call.
kept_candidate :
    (now : ℕ) (w : Wire) (c : Controller)
    → c.current ≡ none
    → ((w.conversation_id == "") || (w.call_id == "")) ≡ false
    → step now (framed ice_candidate w) c ≡ keep_orphan w c
unfolding step on_frame
kept_candidate now w c e named = rw (named, e) refl

keep_orphan-current :
    (w : Wire) (c : Controller) → c.current ≡ none → (keep_orphan w c).current ≡ none
unfolding keep_orphan
keep_orphan-current w c e = ground (arith, e)

own_orphans :
    (w : Wire) (c : Controller)
    → orphans_of w.call_id (keep_orphan w c) ≡ (
        if ltb (length (orphans_of w.call_id c)) orphan_limit
        then orphans_of w.call_id c ++ w ∷ []
        else orphans_of w.call_id c)
unfolding keep_orphan
own_orphans w c = elim (Bool-cases (ltb (length (orphans_of w.call_id c)) orphan_limit)) [
  | inl b ↦
      rw
        (
          b,
          lookup-insert w.call_id w.call_id (orphans_of w.call_id c ++ w ∷ []) c.orphans,
          eq_refl w.call_id,
        )
        refl
  | inr b ↦ rw b refl
]

orphans_of-keep_orphan :
    (id : String) (w : Wire) (c : Controller)
    → (w.call_id == id) ≡ true
    → orphans_of id (keep_orphan w c) ≡ (
        if ltb (length (orphans_of id c)) orphan_limit
        then orphans_of id c ++ w ∷ []
        else orphans_of id c)
orphans_of-keep_orphan id w c same = rw (sym ((eq_iff w.call_id id).0 same)) (own_orphans w c)

three : (a b d : Bool) → ((a && not b) && d) ≡ true → (a ≡ true) × (b ≡ false) × (d ≡ true)
three a b d h = ground arith

-- One candidate more, below the limit and at it.
next_take :
    (n : ℕ) (q : List Wire) (w : Wire) (ws : List Wire)
    → length q ≤ n
    → take n ((if ltb (length q) n then q ++ w ∷ [] else q) ++ ws) ≡ take n (q ++ w ∷ ws)
next_take n q w ws le = elim (Bool-cases (ltb (length q) n)) [
  | inl b ↦ rw b (ap (take n) (append_assoc q (w ∷ []) ws))
  | inr b ↦ rw b (take-full n q ws (w ∷ ws) (ground (arith, b)))
]

next_length :
    (n : ℕ) (q : List Wire) (w : Wire)
    → length q ≤ n
    → length (if ltb (length q) n then q ++ w ∷ [] else q) ≤ n
next_length n q w le = ground (arith, length-append q (w ∷ []))

-- Before there is a call, its candidates are kept in the order in which they came, up to the 64th.
pub orphans-candidates :
    (now : ℕ) (id : String) (ws : List Wire) (c : Controller)
    → c.current ≡ none
    → are_of id ws ≡ true
    → length (orphans_of id c) ≤ orphan_limit
    → orphans_of id (steps (candidate_frames now ws) c) ≡ take orphan_limit (orphans_of id c ++ ws)
unfolding steps
orphans-candidates now id [] c e own le = sym (take-whole orphan_limit (orphans_of id c) le)
orphans-candidates now id (w ∷ ws) c e own le =
    let parts : ((w.call_id == id) ≡ true)
        × (((w.conversation_id == "") || (w.call_id == "")) ≡ false)
        × (are_of id ws ≡ true) =
      three (w.call_id == id) ((w.conversation_id == "") || (w.call_id == "")) (are_of id ws) own in
    let kept : Controller = keep_orphan w c in
    let more : orphans_of id kept ≡ (
        if ltb (length (orphans_of id c)) orphan_limit
        then orphans_of id c ++ w ∷ []
        else orphans_of id c) =
      orphans_of-keep_orphan id w c parts.0 in
    ap (λ d. orphans_of id (steps (candidate_frames now ws) d)) (kept_candidate now w c e parts.1)
    ∙ (orphans-candidates now id ws kept (keep_orphan-current w c e) parts.2
          (rw more (next_length orphan_limit (orphans_of id c) w le))
        ∙ (ap (λ q. take orphan_limit (q ++ ws)) more
            ∙ next_take orphan_limit (orphans_of id c) w ws le))
