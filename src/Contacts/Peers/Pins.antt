-- ===== src/Contacts/Peers/Pins.antt =====
-- The keys that are pinned for a peer, and what writing a profile does to them.
use timber_chat.Prelude.{
  String, Bool, true, false, ◌≡◌, refl, Option, none, some, ◌==◌, if◌then◌else◌, arith, eq_iff,
  Bool-cases, Option-cases, inl, inr, ◌⊎◌,
}
use timber_chat.Contacts.{PeerProfile, PeerRow, Device, Archive, returned, threw, unverified_key}
use timber_chat.Contacts.Peers.{put_peer, write_peer, delete_peer, has_changed}

module _ (V : Device) where
  abbrev pub pin_of : V.peers.Table → String → Option PeerProfile
  pin_of t id = elim (V.peers.get t id) [
    | none ↦ none
    | some row ↦ V.peer_sealer.unseal row.contents
  ]

  abbrev pub keys_of : Option PeerProfile → Option (String × String)
  keys_of none = none
  keys_of (some p) = some (p.identity_pk, p.kex_pk)

  abbrev pub is_trusted : Option PeerProfile → Bool
  is_trusted none = true
  is_trusted (some p) = V.is_bound p

  has_changed-keys_of :
      (t p : PeerProfile) → has_changed t p ≡ false → keys_of (some t) ≡ keys_of (some p)
  has_changed-keys_of t p h =
      ground (arith, eq_iff t.identity_pk p.identity_pk, eq_iff t.kex_pk p.kex_pk)

  pub pin_of-write_peer :
      (p : PeerProfile) (a : Archive V) (id : String)
      → pin_of (write_peer V p a).peers id ≡ (if p.id == id then some p else pin_of a.peers id)
  unfolding write_peer
  pin_of-write_peer p a id =
      let row : PeerRow = record { id = p.id; contents = V.peer_sealer.seal (V.nonce a.drawn) p } in
      ground (arith, V.peers.get-put a.peers row id, V.peer_sealer.unseal-seal (V.nonce a.drawn) p)

  pub pin_of-delete_peer :
      (j : String) (a : Archive V) (id : String)
      → pin_of (delete_peer V j a).peers id ≡ (if j == id then none else pin_of a.peers id)
  unfolding delete_peer
  pin_of-delete_peer j a id = ground (arith, V.peers.get-delete a.peers j id)

  pub put_peer-unbound :
      (p : PeerProfile) (a : Archive V)
      → V.is_bound p ≡ false
      → put_peer V p a ≡ (threw unverified_key, a)
  unfolding put_peer
  put_peer-unbound p a free = rw (put_peer, free) refl

  pub put_peer-new :
      (p : PeerProfile) (a : Archive V)
      → V.is_bound p ≡ true
      → V.peers.get a.peers p.id ≡ none
      → put_peer V p a ≡ (returned tt, write_peer V p a)
  unfolding put_peer
  put_peer-new p a bound new = rw (put_peer, bound, new) refl

  pub put_peer-cases :
      (p : PeerProfile) (a : Archive V)
      → ((put_peer V p a).1 ≡ a)
        ⊎ (((put_peer V p a).1 ≡ write_peer V p a)
            × (V.is_bound p ≡ true)
            × ((pin_of a.peers p.id ≡ none) ⊎ (keys_of (pin_of a.peers p.id) ≡ keys_of (some p))))
  unfolding put_peer
  put_peer-cases p a = elim (Bool-cases (V.is_bound p)) [
    | inr free ↦ rw free (inl refl)
    | inl bound ↦ elim (Option-cases (V.peers.get a.peers p.id)) [
      | inl e ↦
          let new : pin_of a.peers p.id ≡ none = rw (pin_of, e) refl in
          rw (bound, e) (inr (refl, refl, inl new))
      | inr (row, e) ↦ elim (Option-cases (V.peer_sealer.unseal row.contents)) [
        | inl f ↦ rw (bound, e, f) (inl refl)
        | inr (t, f) ↦ elim (Bool-cases (has_changed t p)) [
          | inl g ↦ rw (bound, e, f, g) (inl refl)
          | inr g ↦
              let same : keys_of (pin_of a.peers p.id) ≡ keys_of (some p) =
                rw (pin_of, e, f) (has_changed-keys_of t p g) in
              rw (bound, e, f, g) (inr (refl, refl, inr same))
        ]
      ]
    ]
  ]

  pub keys_of-put_peer :
      (p : PeerProfile) (a : Archive V) (id : String) (k : String × String)
      → keys_of (pin_of a.peers id) ≡ some k
      → keys_of (pin_of (put_peer V p a).1.peers id) ≡ some k
  keys_of-put_peer p a id k h = elim (put_peer-cases p a) [
    | inl e ↦ rw e h
    | inr (e, _, was) ↦ rw e (elim was [
      | inl new ↦ ground (arith, pin_of-write_peer p a id, eq_iff p.id id, new, h)
      | inr same ↦ ground (arith, pin_of-write_peer p a id, eq_iff p.id id, same, h)
    ])
  ]

  pub is_trusted-put_peer :
      (p : PeerProfile) (a : Archive V) (id : String)
      → is_trusted (pin_of a.peers id) ≡ true
      → is_trusted (pin_of (put_peer V p a).1.peers id) ≡ true
  is_trusted-put_peer p a id h = elim (put_peer-cases p a) [
    | inl e ↦ rw e h
    | inr (e, bound, _) ↦ rw e (ground (arith, pin_of-write_peer p a id, bound, h))
  ]
