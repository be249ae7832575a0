-- ===== src/Presentation/View.antt =====
-- `presentMessages` seen through a view of each visible entry: what one turn of the loop leaves alone.
use mathlib.Core.Bool.{false≢true}
use timber_chat.Prelude.{
  ◌≢◌, sym, ℕ, String, ◌≡◌, refl, Bool, true, false, Option, none, some, [], ◌∷◌, Dict, lookup,
  lookup-insert, arith, eq_iff, ◌==◌, if◌then◌else◌, inl, inr, Option-cases, Bool-cases,
}
use timber_chat.Presentation.{
  base_of, text, file, decision, postcard, call, fold_message, show, entry_for, CallStatus, Payload,
  reaction, edit, delete, pin, decision_vote, call_update, ConversationMessage, presented,
  undecryptable, Presented, Projection, target_of, alter, react, edit_by, delete_by, pin_to,
  vote_by, amend_by, amend_card, fold_payload,
}

abbrev pub is_control : Payload → Bool
is_control (reaction i e r) = true
is_control (edit i b) = true
is_control (delete i) = true
is_control (pin i b) = true
is_control (decision_vote i v) = true
is_control (call_update i s d) = true
is_control _ = false

abbrev pub seen_as {ℓ} :
    {X : Type ℓ} → (ConversationMessage → X) → Option ConversationMessage → Option X
seen_as view none = none
seen_as view (some m) = some (view m)

-- `target_of` finds only an opened message that stands under the id.
pub lookup-target_of :
    (visible : Dict ConversationMessage) (id : String) (p : Presented)
    → target_of visible id ≡ some p
    → lookup id visible ≡ some (presented p)
unfolding target_of
lookup-target_of visible id p h = ground arith

module _ {ℓ} {X : Type ℓ} (view : ConversationMessage → X) where
  pub seen_as-alter :
      (id : String) (change : Presented → Presented) (s : Projection) (k : String)
      → ((p : Presented)
          → target_of s.visible id ≡ some p
          → id ≡ k
          → view (presented (change p)) ≡ view (presented p))
      → seen_as view (lookup k (alter id change s).visible) ≡ seen_as view (lookup k s.visible)
  unfolding alter
  seen_as-alter id change s k h = elim (Option-cases (target_of s.visible id)) [
    | inl e ↦ ground arith
    | inr (p, e) ↦ elim (Bool-cases (id == k)) [
      | inl same ↦ ground (
        arith,
        lookup-target_of s.visible id p e,
        h p e ((eq_iff id k).0 same),
        (eq_iff id k).0 same,
        lookup-insert id k (presented (change p)) s.visible,
      )
      | inr other ↦ ground (arith, lookup-insert id k (presented (change p)) s.visible)
    ]
  ]

  pub seen_as-amend_card :
      (sender call_id : String) (status : CallStatus) (duration : Option ℕ)
      (visible : Dict ConversationMessage) (k : String)
      → ((m : ConversationMessage)
          → lookup k visible ≡ some m
          → view (amend_by sender status duration m) ≡ view m)
      → seen_as view (lookup k (amend_card sender call_id status duration visible))
        ≡ seen_as view (lookup k visible)
  unfolding amend_card lookup
  seen_as-amend_card sender call_id status duration [] k h = refl
  seen_as-amend_card sender call_id status duration ((j, m) ∷ rest) k h =
      elim (Bool-cases (j == k)) [
        | inl same ↦ ground (arith, h m (rw same refl))
        | inr other ↦ ground (
          arith,
          seen_as-amend_card sender call_id status duration rest k (λ n e. h n (rw other e)),
        )
      ]

pub bubble_payload :
    (now : ℕ) (payload : Payload) (p : Presented) (s : Projection)
    → is_control payload ≡ false
    → fold_payload now payload p s ≡ show p.id (presented (entry_for now p)) s
unfolding fold_payload
bubble_payload now (text t) p s h = refl
bubble_payload now (file t) p s h = refl
bubble_payload now (decision t) p s h = refl
bubble_payload now (postcard t) p s h = refl
bubble_payload now (call t) p s h = refl
bubble_payload now _ p s h = absurd (false≢true (sym h))

-- What a control payload from `sender` may do to the opened message under the key `k`.
abbrev pub effect : String → String → Payload → Presented → ConversationMessage
effect k sender (reaction id emoji removed) p =
    if id == k then presented (react emoji removed sender p) else presented p
effect k sender (edit id body) p =
    if id == k then presented (edit_by sender body p) else presented p
effect k sender (delete id) p = if id == k then presented (delete_by sender p) else presented p
effect k sender (pin id pinned) p = if id == k then presented (pin_to pinned p) else presented p
effect k sender (decision_vote id value) p =
    if id == k then presented (vote_by sender value p) else presented p
effect k sender (call_update id status duration) p = amend_by sender status duration (presented p)
effect k sender _ p = presented p

module _ {ℓ} {X : Type ℓ} (view : ConversationMessage → X) (k : String) (s : Projection) where
  abbrev Unaffected : String → Payload → Type ℓ
  Unaffected sender payload =
      (q : Presented)
      → lookup k s.visible ≡ some (presented q)
      → view (effect k sender payload q) ≡ view (presented q)

  alter-Unaffected :
      (id : String) (change : Presented → Presented)
      → ((q : Presented)
          → lookup k s.visible ≡ some (presented q)
          → view (if id == k then presented (change q) else presented q) ≡ view (presented q))
      → seen_as view (lookup k (alter id change s).visible) ≡ seen_as view (lookup k s.visible)
  alter-Unaffected id change h = seen_as-alter view id change s k λ p e same.
      let at : lookup k s.visible ≡ some (presented p) =
        rw (← same) (lookup-target_of s.visible id p e) in
      let hit : (id == k) ≡ true = (eq_iff id k).1 same in
      let there : view (if id == k then presented (change p) else presented p)
          ≡ view (presented p) =
        h p at in
      rw hit at there

  amend-Unaffected :
      (sender call_id : String) (status : CallStatus) (duration : Option ℕ)
      → Unaffected sender (call_update call_id status duration)
      → seen_as view (lookup k (amend_card sender call_id status duration s.visible))
        ≡ seen_as view (lookup k s.visible)
  amend-Unaffected sender call_id status duration h =
      seen_as-amend_card view sender call_id status duration s.visible k
        (elim [ presented p ↦ λ e. h p e | undecryptable b r ↦ λ e. unfold amend_by in refl ])

  control-Unaffected :
      (now : ℕ) (payload : Payload) (p : Presented)
      → is_control payload ≡ true
      → Unaffected p.sender_id payload
      → seen_as view (lookup k (fold_payload now payload p s).visible)
        ≡ seen_as view (lookup k s.visible)
  unfolding fold_payload
  control-Unaffected now (reaction id emoji removed) p c h = alter-Unaffected id _ h
  control-Unaffected now (edit id body) p c h = alter-Unaffected id _ h
  control-Unaffected now (delete id) p c h = alter-Unaffected id _ h
  control-Unaffected now (pin id pinned) p c h = alter-Unaffected id _ h
  control-Unaffected now (decision_vote id value) p c h = alter-Unaffected id _ h
  control-Unaffected now (call_update id status duration) p c h =
      amend-Unaffected p.sender_id id status duration h
  control-Unaffected now _ p c h = absurd (false≢true c)

  -- A bubble with another id leaves the entry under `k` alone; so does a control without effect.
  pub fold_message-Unaffected :
      (now : ℕ) (m : ConversationMessage)
      → (base_of m).id ≢ k
      → ((p : Presented) → m ≡ presented p → Unaffected p.sender_id p.payload)
      → seen_as view (lookup k (fold_message now s m).visible) ≡ seen_as view (lookup k s.visible)
  unfolding fold_message
  fold_message-Unaffected now (undecryptable b r) ne h =
      rw lookup-insert (ground (arith, eq_iff b.id k))
  fold_message-Unaffected now (presented p) ne h = elim (Bool-cases (is_control p.payload)) [
    | inl c ↦ control-Unaffected now p.payload p c (h p refl)
    | inr c ↦ rw (bubble_payload now p.payload p s c, lookup-insert) (ground (arith, eq_iff p.id k))
  ]
