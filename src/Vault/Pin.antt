-- ===== src/Vault/Pin.antt =====
-- The operations of vault.ts that seal and open the phrase.
use timber_chat.Prelude.{
  ℕ, suc, ◌-◌, String, Bool, false, not, ◌&&◌, Option, none, some, coalesce, or_else, leb, eqb,
  ◌==◌, if◌then◌else◌,
}
use timber_chat.Vault.{
  Identity, Platform, PinVault, DeviceVault, pin_vault, device_vault, Device, invalid_pin,
  no_account, no_device_vault, unreadable, locked, wiped, mismatch, wrong_pin, already_holds,
  Outcome, done, failed, max_attempts, vault_version, scrypt_cost, legacy_scrypt, write_vault,
  vault_identity, vault_privacy, erase_on_failure_enabled, wipe_device,
}

module _ (P : Platform) where
  abbrev pub is_valid_pin : String → Bool
  is_valid_pin pin =
      if leb (P.size pin) 64
      then (if P.is_numeric pin then leb 6 (P.size pin) else leb 8 (P.size pin))
      else false

  abbrev pub make_device_vault_record :
      (phrase : String) → Option Identity → Option Bool → (key now : ℕ) → DeviceVault
  make_device_vault_record phrase identity anonymous key now = record {
    owner_id = some (P.user_id phrase);
    is_anonymous = anonymous;
    key = key;
    sealed = P.device_encrypt key phrase;
    version = vault_version;
    created_at = now;
    identity = identity;
  }

  abbrev is_owner : String → DeviceVault → Bool
  is_owner user v = elim v.owner_id [ none ↦ false | some id ↦ id == user ]

  unfoldable pub create_device_vault :
      String → Option Identity → Option Bool → ℕ → ℕ → Device → Outcome Unit × Device
  create_device_vault phrase identity anonymous key now s = elim s.vault [
    | none ↦ elim s.pending [
      | none ↦ (
        done tt,
        write_vault (device_vault (make_device_vault_record phrase identity anonymous key now)) s,
      )
      | some p ↦ (failed already_holds, s)
    ]
    | some stored ↦ elim stored [
      | pin_vault v ↦ (failed already_holds, s)
      | device_vault v ↦ elim s.pending [
        | none ↦ if is_owner (P.user_id phrase) v then (done tt, s) else (failed already_holds, s)
        | some p ↦ (failed already_holds, s)
      ]
    ]
  ]

  abbrev opened : Option String → Outcome String
  opened none = failed unreadable
  opened (some phrase) = done phrase

  abbrev pub open_device_vault : Device → Outcome String
  open_device_vault s = elim s.vault [
    | none ↦ failed no_device_vault
    | some stored ↦ elim stored [
      | pin_vault v ↦ failed no_device_vault
      | device_vault v ↦ opened (P.device_decrypt v.key v.sealed)
    ]
  ]

  -- The record of a phrase under a PIN; the identity, the privacy and the erase preference of the record
  -- before it are carried over.
  abbrev pub sealed_vault :
      (phrase pin : String)
      → Option Identity
      → (salt nonce : String) → (now : ℕ) → Device
      → PinVault
  sealed_vault phrase pin identity salt nonce now s = record {
    owner_id = some (P.user_id phrase);
    is_anonymous = vault_privacy s;
    salt = salt;
    nonce = nonce;
    ciphertext = P.encrypt (P.wrap pin salt scrypt_cost) nonce phrase;
    attempts = 0;
    version = vault_version;
    created_at = now;
    kdf = some scrypt_cost;
    identity = coalesce identity (vault_identity s);
    erase_on_failure = erase_on_failure_enabled s;
  }

  unfoldable pub create_vault :
      (phrase pin : String)
      → Option Identity
      → (salt nonce : String) → (now : ℕ) → Device
      → Outcome Unit × Device
  create_vault phrase pin identity salt nonce now s =
      if is_valid_pin pin
      then (done tt, write_vault (pin_vault (sealed_vault phrase pin identity salt nonce now s)) s)
      else (failed invalid_pin, s)

  -- The guess was wrong: it is counted before the error is thrown.
  abbrev pub wrong_guess : PinVault → Device → Outcome String × Device
  wrong_guess v s =
      if leb max_attempts (suc v.attempts) && v.erase_on_failure
      then (failed wiped, wipe_device s)
      else (
        (if leb max_attempts (suc v.attempts)
            then failed locked
            else failed (wrong_pin (max_attempts - suc v.attempts))),
        write_vault (pin_vault (record v { attempts = suc v.attempts })) s,
      )

  abbrev pub guessed : Option String → PinVault → Device → Outcome String × Device
  guessed none v s = wrong_guess v s
  guessed (some phrase) v s = (
    done phrase,
    (if eqb v.attempts 0 then s else write_vault (pin_vault (record v { attempts = 0 })) s),
  )

  -- What a PIN makes of a record.
  abbrev pub phrase_of : String → PinVault → Option String
  phrase_of pin v = P.decrypt (P.wrap pin v.salt (or_else v.kdf legacy_scrypt)) v.nonce v.ciphertext

  unfoldable pub unlock_vault : String → Device → Outcome String × Device
  unlock_vault pin s = elim s.vault [
    | none ↦ (failed no_account, s)
    | some stored ↦ elim stored [
      | device_vault v ↦ (open_device_vault s, s)
      | pin_vault v ↦
          if leb max_attempts v.attempts then (failed locked, s) else guessed (phrase_of pin v) v s
    ]
  ]

  abbrev then_create :
      Outcome String × Device
      → (pin : String) → (salt nonce : String) → (now : ℕ) → Outcome Unit × Device
  then_create (failed e, s) pin salt nonce now = (failed e, s)
  then_create (done phrase, s) pin salt nonce now = create_vault phrase pin none salt nonce now s

  unfoldable pub secure_vault_with_pin :
      (pin salt nonce : String) → (now : ℕ) → Device → Outcome Unit × Device
  unfolding create_vault
  secure_vault_with_pin pin salt nonce now s =
      then_create (open_device_vault s, s) pin salt nonce now

  unfoldable pub change_pin :
      (current next salt nonce : String) → (now : ℕ) → Device → Outcome Unit × Device
  unfolding create_vault unlock_vault
  change_pin current next salt nonce now s =
      then_create (unlock_vault current s) next salt nonce now

  abbrev pub is_stranger : String → Option Identity → Bool
  is_stranger user none = false
  is_stranger user (some i) = not (i.user_id == user)

  abbrev pub unnamed : String → Identity
  unnamed user = record {
    user_id = user;
    username = "";
    avatar_url = none;
    level = none;
    level_name = none;
  }

  unfoldable pub reset_pin_with_phrase :
      (phrase next salt nonce : String) → (now : ℕ) → Device → Outcome Unit × Device
  unfolding create_vault
  reset_pin_with_phrase phrase next salt nonce now s =
      if is_stranger (P.user_id phrase) (vault_identity s)
      then (failed mismatch, s)
      else create_vault phrase next (some (or_else (vault_identity s) (unnamed (P.user_id phrase))))
          salt nonce now s
