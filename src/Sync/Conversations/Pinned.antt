-- ===== src/Sync/Conversations/Pinned.antt =====
-- What a run of the mirroring does to the keys that were pinned.
use mathlib.Core.Path.{subst}
use timber_chat.Prelude.{
  ℕ, String, true, false, not, ◌||◌, ◌≡◌, refl, none, some, List, [], ◌∷◌, ◌==◌, arith, eq_refl,
  Bool-cases, inl, inr, All, sym, ap, ◌∙◌,
}
use timber_chat.Contacts.{PeerProfile, Device, Archive, bind-keeps, returned, unverified_key}
use timber_chat.Contacts.Peers.{put_peer, delete_peer, write_peer}
use timber_chat.Contacts.Peers.Pins.{
  pin_of, keys_of, is_trusted, keys_of-put_peer, is_trusted-put_peer, pin_of-delete_peer,
  put_peer-unbound, put_peer-new, pin_of-write_peer,
}
use timber_chat.Contacts.Conversations.{ConversationPatch, upsert_conversation}
use timber_chat.Sync.Conversations.{
  ServerConversation, trust_peer, sync_one, sync_all, patch_of, settle_trust, security_message,
}

module _ (V : Device) (to_millis : ℕ → ℕ) where
  peers-upsert_conversation :
      (p : ConversationPatch) (a : Archive V) → (upsert_conversation V p a).1.peers ≡ a.peers
  unfolding upsert_conversation
  peers-upsert_conversation p a = ground arith

  trust_peer-bound :
      (p : PeerProfile) (a : Archive V)
      → V.is_bound p ≡ true
      → (trust_peer V to_millis p a).1 ≡ (put_peer V p a).1
  unfolding trust_peer
  trust_peer-bound p a bound = ground arith

  pub trust_peer-unbound :
      (p : PeerProfile) (a : Archive V)
      → V.is_bound p ≡ false
      → trust_peer V to_millis p a
        ≡ (returned (security_message unverified_key), delete_peer V p.id a)
  unfolding trust_peer
  trust_peer-unbound p a free = ap (settle_trust V to_millis p) (put_peer-unbound V p a free)

  pub trust_peer-new :
      (p : PeerProfile) (a : Archive V)
      → V.is_bound p ≡ true
      → V.peers.get a.peers p.id ≡ none
      → trust_peer V to_millis p a ≡ (returned none, write_peer V p a)
  unfolding trust_peer
  trust_peer-new p a bound new = ap (settle_trust V to_millis p) (put_peer-new V p a bound new)

  -- The mirroring only writes profiles where it decides whom to trust.
  peers-sync_one :
      (c : ServerConversation) (a : Archive V)
      → (sync_one V to_millis c a).1.peers ≡ (trust_peer V to_millis c.peer a).1.peers
  unfolding sync_one
  peers-sync_one c a =
      bind-keeps (λ b. b.peers ≡ (trust_peer V to_millis c.peer a).1.peers)
        (trust_peer V to_millis c.peer) (λ e. upsert_conversation V (patch_of V to_millis c e)) a
        refl (λ e b same. peers-upsert_conversation (patch_of V to_millis c e) b ∙ same)

  sync_all-keeps :
      (Q : V.peers.Table → Type 0) (P : ServerConversation → Type 0)
      (step : (c : ServerConversation) (a : Archive V)
        → P c
        → Q a.peers
        → Q (trust_peer V to_millis c.peer a).1.peers)
      (cs : List ServerConversation) (a : Archive V)
      → All P cs
      → Q a.peers
      → Q (sync_all V to_millis cs a).1.peers
  unfolding sync_all
  sync_all-keeps Q P step [] a ps q = q
  sync_all-keeps Q P step (c ∷ cs) a ps q =
      bind-keeps (λ b. Q b.peers) (sync_one V to_millis c) (λ _. sync_all V to_millis cs) a
        (subst Q (sym (peers-sync_one c a)) (step c a ps.0 q))
        (λ _ b now. sync_all-keeps Q P step cs b ps.1 now)

  keys_of-trust_peer :
      (id : String) (k : String × String) (p : PeerProfile) (a : Archive V)
      → (not (p.id == id) || V.is_bound p) ≡ true
      → keys_of V (pin_of V a.peers id) ≡ some k
      → keys_of V (pin_of V (trust_peer V to_millis p a).1.peers id) ≡ some k
  keys_of-trust_peer id k p a spared h = elim (Bool-cases (V.is_bound p)) [
    | inl bound ↦ rw (trust_peer-bound p a bound) (keys_of-put_peer V p a id k h)
    | inr free ↦
        rw (trust_peer-unbound p a free)
          (ground (arith, pin_of-delete_peer V p.id a id, spared, free, h))
  ]

  is_trusted-trust_peer :
      (id : String) (p : PeerProfile) (a : Archive V)
      → is_trusted V (pin_of V a.peers id) ≡ true
      → is_trusted V (pin_of V (trust_peer V to_millis p a).1.peers id) ≡ true
  is_trusted-trust_peer id p a h = elim (Bool-cases (V.is_bound p)) [
    | inl bound ↦ rw (trust_peer-bound p a bound) (is_trusted-put_peer V p a id h)
    | inr free ↦
        rw (trust_peer-unbound p a free) (ground (arith, pin_of-delete_peer V p.id a id, h))
  ]

  -- Where the profiles that a list of conversations has for a peer are all signed, the mirroring of the
  -- list leaves the identity key and the key agreement key that were pinned for the peer as they were,
  -- also where it stops at an error.
  pub sync_all-pins :
      (cs : List ServerConversation) (a : Archive V) (id : String) (k : String × String)
      → All (λ c. (not (c.peer.id == id) || V.is_bound c.peer) ≡ true) cs
      → keys_of V (pin_of V a.peers id) ≡ some k
      → keys_of V (pin_of V (sync_all V to_millis cs a).1.peers id) ≡ some k
  sync_all-pins cs a id k signed pinned =
      sync_all-keeps (λ t. keys_of V (pin_of V t id) ≡ some k)
        (λ c. (not (c.peer.id == id) || V.is_bound c.peer) ≡ true)
        (λ c b s h. keys_of-trust_peer id k c.peer b s h) cs a signed pinned

  any_list : (cs : List ServerConversation) → All (λ _. Unit {0}) cs
  any_list [] = tt
  any_list (c ∷ cs) = (tt, any_list cs)

  -- Whatever a list of conversations has, and also where its mirroring stops at an error: where no
  -- profile, or a signed one, was stored for a peer, no profile or a signed one is stored after.
  pub sync_all-is_trusted :
      (cs : List ServerConversation) (a : Archive V) (id : String)
      → is_trusted V (pin_of V a.peers id) ≡ true
      → is_trusted V (pin_of V (sync_all V to_millis cs a).1.peers id) ≡ true
  sync_all-is_trusted cs a id trusted =
      sync_all-keeps (λ t. is_trusted V (pin_of V t id) ≡ true) (λ _. Unit)
        (λ c b _ h. is_trusted-trust_peer id c.peer b h) cs a (any_list cs) trusted

  -- A profile that is not signed takes the pin away, and then a signed one is taken without a word,
  -- whatever keys were pinned before.
  pub trust_peer-trust_peer :
      (bad new : PeerProfile) (a : Archive V)
      → V.is_bound bad ≡ false
      → V.is_bound new ≡ true
      → (bad.id == new.id) ≡ true
      → let once = trust_peer V to_millis bad a in
        let twice = trust_peer V to_millis new once.1 in
        (once.0 ≡ returned (security_message unverified_key))
        × (twice.0 ≡ returned none)
        × (pin_of V twice.1.peers new.id ≡ some new)
  trust_peer-trust_peer bad new a free bound same =
      let emptied = delete_peer V bad.id a in
      let gone : V.peers.get emptied.peers new.id ≡ none =
        unfold delete_peer in ground (arith, V.peers.get-delete a.peers bad.id new.id, same) in
      rw (trust_peer-unbound bad a free, trust_peer-new new emptied bound gone)
        (refl, refl, ground (arith, pin_of-write_peer V new emptied new.id, eq_refl new.id))
