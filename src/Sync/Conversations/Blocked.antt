-- ===== src/Sync/Conversations/Blocked.antt =====
-- A conversation whose profile was refused.
use mathlib.Core.Path.{subst, subst₂}
use timber_chat.Prelude.{
  ℕ, String, true, ◌≡◌, refl, sym, ap, ◌∙◌, Option, none, some, or_else, coalesce, arith, eq_refl,
  Option-cases, inl, inr,
}
use timber_chat.Presentation.{Payload}
use timber_chat.Contacts.{
  PeerProfile, Conversation, Device, Archive, Self, Failure, Outcome, returned, threw, not_ready,
  is_set, bind-returned, bind-at, unverified_key, changed_key,
}
use timber_chat.Contacts.Peers.{put_peer}
use timber_chat.Contacts.Conversations.{
  ConversationPatch, upsert_conversation, upsert_over, write_conversation, get_conversation,
  key_for_conversation, merge_conversation, key_of,
}
use timber_chat.Threads.{compose_message, compose_with}
use timber_chat.Sync.Conversations.{
  ServerConversation, trust_peer, settle_trust, sync_one, patch_of, security_message,
}

-- A patch with a security error gives it to what it is merged into.
security_error-merge_conversation :
    (p : ConversationPatch) (o : Option Conversation) (e : Option String)
    → p.security_error ≡ some e
    → (merge_conversation p o).security_error ≡ e
unfolding merge_conversation
security_error-merge_conversation p none e h = rw h refl
security_error-merge_conversation p (some c) e h = rw h refl

id-merge_conversation :
    (p : ConversationPatch) (o : Option Conversation) → (merge_conversation p o).id ≡ p.id
unfolding merge_conversation
id-merge_conversation p none = refl
id-merge_conversation p (some c) = refl

security_message-is_set :
    (e : Failure) (message : String)
    → security_message e ≡ some message
    → is_set (some message) ≡ true
unfolding security_message
security_message-is_set unverified_key message h = subst (λ m. is_set m ≡ true) h refl
security_message-is_set changed_key message h = subst (λ m. is_set m ≡ true) h refl
security_message-is_set _ message h = cc

module _ (V : Device) where
  get_conversation-write_conversation :
      (at : Option ℕ) (c : Conversation) (a : Archive V)
      → get_conversation V c.id (write_conversation V at c a)
        ≡ (returned (some c), write_conversation V at c a)
  unfolding get_conversation write_conversation
  get_conversation-write_conversation at c a = ground (
    arith,
    V.database.conversations.get-put a.store.conversations
        (record {
          id = c.id;
          updated_at = at;
          contents = V.conversation_sealer.seal (V.nonce a.drawn) c;
        })
        c.id,
    V.conversation_sealer.unseal-seal (V.nonce a.drawn) c,
    eq_refl c.id,
  )

  -- Where `upsertConversation` returns, it wrote a merged record.
  upsert_conversation-cases :
      (p : ConversationPatch) (a b : Archive V) (c : Conversation)
      → upsert_conversation V p a ≡ (returned c, b)
      → (o : Option Conversation) × (at : Option ℕ) × (c ≡ merge_conversation p o)
        × (b ≡ write_conversation V at c a)
  unfolding upsert_conversation
  upsert_conversation-cases p a b c h =
      elim (Option-cases (V.database.conversations.get a.store.conversations p.id)) [
        | inl e ↦ wrote none none (rw (upsert_conversation, e) refl)
        | inr (row, e) ↦ elim (Option-cases (V.conversation_sealer.unseal row.contents)) [
          | inl f ↦ absurd (ground arith)
          | inr (old, f) ↦ wrote (some old) row.updated_at (rw (upsert_conversation, e, f) refl)
        ]
      ]
    where
      wrote :
          (o : Option Conversation) (old : Option ℕ)
          → upsert_conversation V p a ≡ upsert_over V p o old a
          → (o : Option Conversation) × (at : Option ℕ) × (c ≡ merge_conversation p o)
            × (b ≡ write_conversation V at c a)
      wrote o old e =
          let same : upsert_over V p o old a ≡ (returned c, b) = sym e ∙ h in
          (o, some (or_else (coalesce (or_else p.updated_at none) old) 0), cc, cc)

  -- What was merged is what is read back, with the error of the patch.
  pub get_conversation-upsert_conversation :
      (p : ConversationPatch) (a b : Archive V) (c : Conversation) (e : Option String)
      → upsert_conversation V p a ≡ (returned c, b)
      → p.security_error ≡ some e
      → (get_conversation V p.id b ≡ (returned (some c), b)) × (c.security_error ≡ e)
  get_conversation-upsert_conversation p a b c e h g =
      let (o, at, is_merged, wrote) = upsert_conversation-cases p a b c h in
      let same : c.id ≡ p.id =
        ap (λ (x : Conversation). x.id) is_merged ∙ id-merge_conversation p o in
      (
        subst₂ (λ i s. get_conversation V i s ≡ (returned (some c), s)) same (sym wrote)
            (get_conversation-write_conversation at c a),
        ap (λ (x : Conversation). x.security_error) is_merged
            ∙ security_error-merge_conversation p o e g,
      )

  key_for_conversation-blocked :
      (self : Self) (id : String) (c : Conversation) (a : Archive V)
      → get_conversation V id a ≡ (returned (some c), a)
      → is_set c.security_error ≡ true
      → key_for_conversation V self id a ≡ (returned none, a)
  unfolding key_for_conversation
  key_for_conversation-blocked self id c a e set =
      bind-at (get_conversation V id) (key_of V self id) a (some c) a e ∙ rw set refl

  -- A refusal that is caught leaves an error.
  settle_trust-is_set :
      (to_millis : ℕ → ℕ) (p : PeerProfile) (r : Outcome (Unit {0})) (s : Archive V) (e : Failure)
      (error : Option String)
      → r ≡ threw e
      → (settle_trust V to_millis p (r, s)).0 ≡ returned error
      → is_set error ≡ true
  settle_trust-is_set to_millis p (returned _) s e error h g = cc
  settle_trust-is_set to_millis p (threw f) s e error h g =
      elim (Option-cases (security_message f)) [
        | inl n ↦ absurd (ground arith)
        | inr (m, n) ↦
            let same : some m ≡ error = ground arith in
            subst (λ x. is_set x ≡ true) same (security_message-is_set f m n)
      ]

  -- A conversation whose profile is refused by the mirroring cannot be written to: composing throws,
  -- and leaves the device as it was.
  pub compose_message-sync_one :
      (to_millis : ℕ → ℕ) (self : Self) (c : ServerConversation) (a b : Archive V)
      (held : Conversation) (e : Failure) (payload : Payload) (id : String) (at : ℕ)
      → (put_peer V c.peer a).0 ≡ threw e
      → sync_one V to_millis c a ≡ (returned held, b)
      → compose_message V self c.id payload id at b ≡ (threw not_ready, b)
  unfolding sync_one compose_message trust_peer patch_of
  compose_message-sync_one to_millis self c a b held e payload id at refused synced =
      let (error, trusted, wrote) =
        bind-returned (trust_peer V to_millis c.peer)
          (λ s. upsert_conversation V (patch_of V to_millis c s)) a held b synced in
      let shut : is_set held.security_error ≡ true =
        subst (λ s. is_set s ≡ true) (sym (read_back error wrote).1)
          (settle_trust-is_set to_millis c.peer (put_peer V c.peer a).0 (put_peer V c.peer a).1 e
            error refused trusted) in
      bind-at (key_for_conversation V self c.id) (compose_with V self c.id payload id at) b none b
        (key_for_conversation-blocked self c.id held b (read_back error wrote).0 shut)
    where
      read_back :
          (error : Option String)
          → upsert_conversation V (patch_of V to_millis c error) (trust_peer V to_millis c.peer a).1
            ≡ (returned held, b)
          → (get_conversation V c.id b ≡ (returned (some held), b)) × (held.security_error ≡ error)
      read_back error wrote =
          get_conversation-upsert_conversation (patch_of V to_millis c error)
            (trust_peer V to_millis c.peer a).1 b held error wrote refl
