-- ===== src/Vault/Registration.antt =====
-- frontend/src/crypto/registration.ts: a signup is kept on the device before the relay hears of it, and
-- becomes the account once the relay answered.
pub mod Promoted
pub mod Finished
use timber_chat.Prelude.{
  ℕ, String, Bool, true, false, not, ◌&&◌, ◌||◌, Option, none, some, eqb, ◌==◌, if◌then◌else◌,
}
use timber_chat.Vault.{
  Identity, Draft, Platform, DeviceVault, Stored, pin_vault, device_vault, Pending, Device, Outcome,
  done, failed, already_holds, unfinished_unreadable, changed_elsewhere, account_mismatch,
  different_account, write_vault,
}
use timber_chat.Vault.Pin.{make_device_vault_record}

-- A draft with the identity of its phrase.
pub record Signup : Type 0 where
  pub draft : Draft
  pub user_id : String

-- What the relay answered.
pub record Account : Type 0 where
  pub user_id : String
  pub username : String
  pub is_anonymous : Bool

abbrev same : Bool → Bool → Bool
same true b = b
same false b = not b

module _ (P : Platform) where
  abbrev pub seal : Draft → (key now : ℕ) → Pending
  seal d key now = record {
    user_id = P.user_id d.mnemonic;
    key = key;
    sealed = P.seal_draft key d;
    created_at = now;
  }

  abbrev opened_draft : String → Option Draft → Outcome Signup
  opened_draft user none = failed unfinished_unreadable
  opened_draft user (some d) =
      if P.is_mnemonic d.mnemonic && (P.user_id d.mnemonic == user)
      then done (record { draft = d; user_id = user })
      else failed unfinished_unreadable

  abbrev pub open_pending : Pending → Outcome Signup
  open_pending p = opened_draft p.user_id (P.open_draft p.key p.sealed)

  abbrev pub pending_registration : Device → Option (Outcome Signup)
  pending_registration s = elim s.pending [ none ↦ none | some p ↦ some (open_pending p) ]

  -- The same identity may change its draft; another one does not take its place.
  abbrev pub selected : Option Pending → Pending → Pending
  selected none candidate = candidate
  selected (some previous) candidate =
      if previous.user_id == candidate.user_id
      then record candidate { created_at = previous.created_at }
      else previous

  -- The transaction of `stageRegistration`; it refuses a device that holds an account.
  unfoldable pub stage_write : Draft → (key now : ℕ) → Device → Outcome Pending × Device
  stage_write d key now s = elim s.vault [
    | none ↦
        let p : Pending = selected s.pending (seal d key now) in
        (done p, record s { pending = some p })
    | some stored ↦ (failed already_holds, s)
  ]

  -- What it reads back after it, when other tabs may have been at work.
  unfoldable pub stage_read : Pending → Device → Outcome Signup
  stage_read p s = elim s.pending [
    | none ↦ failed changed_elsewhere
    | some committed ↦
        if committed.user_id == p.user_id then open_pending committed else failed changed_elsewhere
  ]

  abbrev pub is_account : Signup → Account → Bool
  is_account g a =
      (a.user_id == g.user_id)
      && (same g.draft.is_anonymous a.is_anonymous && P.is_username a.username)

  abbrev owned : String → Stored → Bool
  owned user (pin_vault v) = false
  owned user (device_vault v) = elim v.owner_id [ none ↦ false | some id ↦ id == user ]

  abbrev promote : Signup → Account → (key now : ℕ) → Device → Outcome Unit × Device
  promote g a key now s = elim s.pending [
    | none ↦ (failed changed_elsewhere, s)
    | some p ↦
        if p.user_id == g.user_id
        then (
          done tt,
          record s {
            vault = some (
                device_vault (
                  make_device_vault_record P g.draft.mnemonic
                    (some (record {
                      user_id = a.user_id;
                      username = a.username;
                      avatar_url = none;
                      level = none;
                      level_name = none;
                    }))
                    (some a.is_anonymous) key now));
            pending = none;
          },
        )
        else (failed changed_elsewhere, s)
  ]

  unfoldable pub finish_registration :
      Signup → Account → (key now : ℕ) → Device → Outcome Unit × Device
  finish_registration g a key now s =
      if is_account g a
      then elim s.vault [
        | some stored ↦
            if owned g.user_id stored then (done tt, s) else (failed different_account, s)
        | none ↦ promote g a key now s
      ]
      else (failed account_mismatch, s)
