-- ===== src/Contacts/Peers.antt =====
-- The cached profiles of frontend/src/db/localStore.ts.
pub mod Pins
use timber_chat.Prelude.{
  String, Bool, not, ◌&&◌, ◌||◌, Option, none, some, List, [], ◌∷◌, ◌==◌, if◌then◌else◌, suc,
}
use timber_chat.Contacts.{
  PeerProfile, PeerRow, Device, Archive, Action, Failure, unverified_key, changed_key, unreadable,
  Outcome, returned, threw, pure, throw, or_throw, ◌>>=◌,
}

-- Another identity key, or another key agreement key.
abbrev pub has_changed : PeerProfile → PeerProfile → Bool
has_changed trusted peer =
    not (trusted.identity_pk == peer.identity_pk) || not (trusted.kex_pk == peer.kex_pk)

module _ (V : Device) where
  -- `db.put(STORE_PEERS, { id, data: sealLocal(peer) })`
  unfoldable pub write_peer : PeerProfile → Archive V → Archive V
  write_peer peer a = record a {
    peers =
        V.peers.put a.peers
          (record { id = peer.id; contents = V.peer_sealer.seal (V.nonce a.drawn) peer });
    drawn = suc a.drawn;
  }

  unfoldable pub put_peer : PeerProfile → Action V (Unit {0})
  unfolding write_peer
  put_peer peer a =
      if not (V.is_bound peer)
      then (threw unverified_key, a)
      else elim (V.peers.get a.peers peer.id) [
        | none ↦ (returned tt, write_peer peer a)
        | some row ↦ elim (V.peer_sealer.unseal row.contents) [
          | none ↦ (threw unreadable, a)
          | some trusted ↦
              if has_changed trusted peer
              then (threw changed_key, a)
              else (returned tt, write_peer peer a)
        ]
      ]

  unfoldable pub get_peer : String → Action V (Option PeerProfile)
  get_peer user_id a = elim (V.peers.get a.peers user_id) [
    | none ↦ (returned none, a)
    | some row ↦ elim (V.peer_sealer.unseal row.contents) [
      | none ↦ (threw unreadable, a)
      | some peer ↦ (returned (some peer), a)
    ]
  ]

  unfoldable pub delete_peer : String → Archive V → Archive V
  delete_peer user_id a = record a { peers = V.peers.delete a.peers user_id }

  -- The rows that `getAll` gave, opened one after the other.
  abbrev open_peers : List PeerRow → Outcome (List PeerProfile)
  open_peers [] = returned []
  open_peers (row ∷ rows) = elim (V.peer_sealer.unseal row.contents) [
    | none ↦ threw unreadable
    | some peer ↦ elim (open_peers rows) [
      | threw e ↦ threw e
      | returned peers ↦ returned (peer ∷ peers)
    ]
  ]

  unfoldable pub all_peers : Action V (List PeerProfile)
  all_peers a = (open_peers (V.all_peers a.peers), a)
