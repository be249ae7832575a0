-- ===== src/Vault.antt =====
-- frontend/src/crypto/vault.ts: the record that holds the recovery phrase on this device, under a PIN or
-- under a key of the browser, and the budget of guesses.
mod Pin
pub mod Attempts
pub mod Recovery
pub mod Transfer
pub mod Registration
mod Tests
use timber_chat.Prelude.{
  ℕ, suc, ◌-◌, String, Bool, true, false, not, ◌&&◌, ◌||◌, ◌≡◌, Option, none, some, coalesce,
  or_else, leb, eqb, ◌==◌, if◌then◌else◌,
}

pub record Cost : Type 0 where
  pub n : ℕ
  pub r : ℕ
  pub p : ℕ

pub record Identity : Type 0 where
  pub user_id : String
  pub username : String
  pub avatar_url : Option String
  pub level : Option ℕ
  pub level_name : Option String

-- A signup that is not finished.
pub record Draft : Type 0 where
  pub mnemonic : String
  pub username : String
  pub is_anonymous : Bool
  pub invite_code : Option String

-- What the code takes from elsewhere: texts, the identity of a phrase, scrypt, the two ciphers and
-- base64. What was sealed of a phrase, or of a draft that is text that JSON can carry, opens under the
-- same key.
pub record Platform : Type 0 where
  pub size : String → ℕ
  pub is_numeric : String → Bool
  pub is_username : String → Bool
  pub is_mnemonic : String → Bool
  pub user_id : String → String
  pub byte_length : String → Option ℕ
  pub wrap : (pin salt : String) → Cost → String
  pub encrypt : (key nonce text : String) → String
  pub decrypt : (key nonce text : String) → Option String
  pub is_draft : Draft → Bool
  pub device_encrypt : (key : ℕ) → String → String
  pub device_decrypt : (key : ℕ) → String → Option String
  pub seal_draft : (key : ℕ) → Draft → String
  pub open_draft : (key : ℕ) → String → Option Draft
  pub decrypt-encrypt :
      (k n t : String) → is_mnemonic t ≡ true → decrypt k n (encrypt k n t) ≡ some t
  pub device_decrypt-device_encrypt :
      (k : ℕ) (t : String) → is_mnemonic t ≡ true → device_decrypt k (device_encrypt k t) ≡ some t
  pub open_draft-seal_draft :
      (k : ℕ) (d : Draft) → is_draft d ≡ true → open_draft k (seal_draft k d) ≡ some d

pub record PinVault : Type 0 where
  pub owner_id : Option String
  pub is_anonymous : Option Bool
  pub salt : String
  pub nonce : String
  pub ciphertext : String
  pub attempts : ℕ
  pub version : ℕ
  pub created_at : ℕ
  pub kdf : Option Cost
  pub identity : Option Identity
  pub erase_on_failure : Bool

pub record DeviceVault : Type 0 where
  pub owner_id : Option String
  pub is_anonymous : Option Bool
  pub key : ℕ
  pub sealed : String
  pub version : ℕ
  pub created_at : ℕ
  pub identity : Option Identity

pub data Stored : Type 0 where
  pin_vault : PinVault → Stored
  device_vault : DeviceVault → Stored

pub record Pending : Type 0 where
  pub user_id : String
  pub key : ℕ
  pub sealed : String
  pub created_at : ℕ

-- The database of this device: the vault store, and whether it holds a history.
pub record Device : Type 0 where
  pub vault : Option Stored
  pub pending : Option Pending
  pub has_history : Bool

pub data VaultError : Type 0 where
  invalid_pin no_account no_device_vault unreadable locked wiped mismatch : VaultError
  wrong_pin : (remaining : ℕ) → VaultError
  already_holds set_pin_first no_vault invalid_package altered_package finish_signup
        different_vault :
      VaultError
  unfinished_unreadable changed_elsewhere account_mismatch different_account : VaultError

pub data Outcome (A : Type 0) : Type 0 where
  done : A → Outcome A
  failed : VaultError → Outcome A

abbrev pub max_attempts : ℕ
max_attempts = 10

abbrev pub vault_version : ℕ
vault_version = 3

abbrev pub scrypt_cost : Cost
scrypt_cost = record { n = 65_536; r = 8; p = 1 }

abbrev pub legacy_scrypt : Cost
legacy_scrypt = record { n = 65_536; r = 8; p = 1 }

abbrev pub write_vault : Stored → Device → Device
write_vault v s = record s { vault = some v }

abbrev pub vault_identity : Device → Option Identity
vault_identity s = elim s.vault [
  | none ↦ none
  | some stored ↦ elim stored [ pin_vault v ↦ v.identity | device_vault v ↦ v.identity ]
]

abbrev pub vault_privacy : Device → Option Bool
vault_privacy s = elim s.vault [
  | none ↦ none
  | some stored ↦ elim stored [ pin_vault v ↦ v.is_anonymous | device_vault v ↦ v.is_anonymous ]
]

abbrev pub set_identity : Option Identity → Stored → Stored
set_identity i (pin_vault v) = pin_vault (record v { identity = i })
set_identity i (device_vault v) = device_vault (record v { identity = i })

unfoldable pub set_vault_identity : Identity → Device → Device
set_vault_identity i s = elim s.vault [
  | none ↦ s
  | some stored ↦ write_vault (set_identity (some i) stored) s
]

unfoldable pub forget_vault_identity : Device → Device
forget_vault_identity s = elim s.vault [
  | none ↦ s
  | some stored ↦ write_vault (set_identity none stored) s
]

abbrev owner : Option String → Option Identity → Option String
owner (some id) i = some id
owner none none = none
owner none (some i) = some i.user_id

abbrev owned_by : String → Option String → Bool
owned_by user none = false
owned_by user (some id) = id == user

abbrev set_privacy : String → Bool → Stored → Stored
set_privacy user anonymous (pin_vault v) =
    if owned_by user (owner v.owner_id v.identity)
    then pin_vault (record v { is_anonymous = some anonymous })
    else pin_vault v
set_privacy user anonymous (device_vault v) =
    if owned_by user (owner v.owner_id v.identity)
    then device_vault (record v { is_anonymous = some anonymous })
    else device_vault v

unfoldable pub set_vault_privacy : String → Bool → Device → Device
set_vault_privacy user anonymous s = elim s.vault [
  | none ↦ s
  | some stored ↦ write_vault (set_privacy user anonymous stored) s
]

abbrev pub attempts_remaining : Device → ℕ
attempts_remaining s = elim s.vault [
  | none ↦ max_attempts
  | some stored ↦ elim stored [
    | pin_vault v ↦ max_attempts - v.attempts
    | device_vault v ↦ max_attempts
  ]
]

abbrev pub erase_on_failure_enabled : Device → Bool
erase_on_failure_enabled s = elim s.vault [
  | none ↦ false
  | some stored ↦ elim stored [ pin_vault v ↦ v.erase_on_failure | device_vault v ↦ false ]
]

unfoldable pub set_erase_on_failure : Bool → Device → Device
set_erase_on_failure enabled s = elim s.vault [
  | none ↦ s
  | some stored ↦ elim stored [
    | pin_vault v ↦ write_vault (pin_vault (record v { erase_on_failure = enabled })) s
    | device_vault v ↦ s
  ]
]

-- `destroyTimberDb`, and `wipeDevice`
abbrev pub wipe_device : Device → Device
wipe_device s = record { vault = none; pending = none; has_history = false }
