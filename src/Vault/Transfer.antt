-- ===== src/Vault/Transfer.antt =====
-- The transfer of an account to another device, of vault.ts. A scanned package is not believed: each of
-- its fields is a value of any type, and is looked at before it is used.
pub mod Moved
use Prim.Native.String.{◌++◌, len, slice}
use package.text.Mathlib.Text.{starts_with}
use timber_chat.Prelude.{
  ℕ, ◌+◌, String, Bool, true, false, not, ◌&&◌, ◌||◌, Option, none, some, or_else, leb, eqb, ◌==◌,
  if◌then◌else◌,
}
use timber_chat.Vault.{
  Cost, Identity, Platform, PinVault, Stored, pin_vault, device_vault, Device, VaultError, Outcome,
  done, failed, set_pin_first, no_vault, invalid_package, altered_package, finish_signup,
  different_vault, already_holds, write_vault,
}

-- A field of the package, as `JSON.parse` gives it; a field that is not there is `undefined`, and what is
-- neither a text, a natural number nor a truth value is `other`.
pub data Value : Type 0 where
  undefined other : Value
  text : String → Value
  number : ℕ → Value
  truth : Bool → Value

pub data CostField : Type 0 where
  no_cost no_object : CostField
  cost_object : (n r p : Value) → CostField

pub data IdentityField : Type 0 where
  no_identity no_object : IdentityField
  identity_object : (user_id username avatar_url level level_name : Value) → IdentityField

pub record VaultField : Type 0 where
  pub salt : Value
  pub nonce : Value
  pub ciphertext : Value
  pub version : Value
  pub created_at : Value
  pub kdf : CostField
  pub identity : IdentityField
  pub owner_id : Value
  pub is_anonymous : Value

-- `v`, and `vault` where it is an object.
pub record Package : Type 0 where
  pub v : Value
  pub vault : Option VaultField

-- What the code takes from elsewhere on the way to the scanned text: JSON, base64 of a text in UTF-8, and
-- `trim`. A value that is no object with `v` and `vault` reads as a package without them.
pub record Codec : Type 0 where
  pub stringify : Package → String
  pub parse : String → Option Package
  pub encode : String → String
  pub decode : String → Option String
  pub trim : String → String

abbrev pub text_of : Option String → Value
text_of none = undefined
text_of (some t) = text t

abbrev pub number_of : Option ℕ → Value
number_of none = undefined
number_of (some n) = number n

abbrev pub truth_of : Option Bool → Value
truth_of none = undefined
truth_of (some b) = truth b

abbrev pub cost_field : Option Cost → CostField
cost_field none = no_cost
cost_field (some c) = cost_object (number c.n) (number c.r) (number c.p)

abbrev pub identity_field : Option Identity → IdentityField
identity_field none = no_identity
identity_field (some i) =
    identity_object (text i.user_id) (text i.username) (text_of i.avatar_url) (number_of i.level)
      (text_of i.level_name)

-- A text that is empty is left out, `record.ownerId ? { ownerId } : {}`.
abbrev pub filled : Option String → Option String
filled none = none
filled (some t) = if t == "" then none else some t

-- Nothing reads the `attempts: 0` that the package has too.
abbrev pub packed : PinVault → Package
packed v = record {
  v = number 1;
  vault = some (record {
    salt = text v.salt;
    nonce = text v.nonce;
    ciphertext = text v.ciphertext;
    version = number v.version;
    created_at = number v.created_at;
    kdf = cost_field v.kdf;
    identity = identity_field v.identity;
    owner_id = text_of (filled v.owner_id);
    is_anonymous = truth_of v.is_anonymous;
  });
}

abbrev pub transfer_prefix : String
transfer_prefix = "timber-vault/v1:"

unfoldable pub printed : Codec → PinVault → String
printed C v = transfer_prefix ++ C.encode (C.stringify (packed v))

unfoldable pub export_vault_transfer : Codec → Device → Outcome String
unfolding printed
export_vault_transfer C s = elim s.vault [
  | none ↦ failed no_vault
  | some stored ↦ elim stored [
    | pin_vault v ↦ done (printed C v)
    | device_vault v ↦ failed set_pin_first
  ]
]

-- `value.replace(/^timber-vault\/v1:/, "")`
abbrev pub without_prefix : String → String
without_prefix t =
    if starts_with t transfer_prefix then slice t (len transfer_prefix) (len t) else t

abbrev pub parsed : Codec → Option String → Option Package
parsed C none = none
parsed C (some json) = C.parse json

unfoldable pub scanned : Codec → String → Option Package
scanned C value = parsed C (C.decode (without_prefix (C.trim value)))

abbrev within : ℕ → ℕ → ℕ → Bool
within low high n = leb low n && leb n high

-- A cost that is neither too cheap nor so dear that it hangs the browser.
abbrev pub is_fair : ℕ → ℕ → ℕ → Bool
is_fair n r p = within 4_096 1_048_576 n && (within 1 16 r && within 1 4 p)

abbrev pub scrypt_cost_of : CostField → Option Cost
scrypt_cost_of (cost_object (number n) (number r) (number p)) =
    if is_fair n r p then some (record { n = n; r = r; p = p }) else none
scrypt_cost_of _ = none

abbrev pub as_text : Value → Option String
as_text (text t) = some t
as_text _ = none

abbrev pub as_number : Value → Option ℕ
as_number (number n) = some n
as_number _ = none

abbrev pub as_truth : Value → Option Bool
as_truth (truth b) = some b
as_truth _ = none

-- `Number.MAX_SAFE_INTEGER`
abbrev pub max_safe : ℕ
max_safe = 9_007_199_254_740_991

-- A time that is no safe integer gives way to the time of the import.
abbrev pub safe_or : ℕ → Option ℕ → ℕ
safe_or now none = now
safe_or now (some n) = if leb n max_safe then n else now

abbrev is_kept : Option ℕ → Bool
is_kept none = false
is_kept (some n) = eqb n 2 || eqb n 3

abbrev is_length : ℕ → Option ℕ → Bool
is_length n none = false
is_length n (some k) = eqb k n

abbrev is_filled : Option ℕ → Bool
is_filled none = false
is_filled (some k) = not (eqb k 0)

module _ (P : Platform) where
  abbrev pub vault_identity_of : IdentityField → Option Identity
  vault_identity_of (identity_object (text user_id) (text username) avatar_url level level_name) =
      if leb (P.size user_id) 64 && leb (P.size username) 64
      then some (record {
        user_id = user_id;
        username = username;
        avatar_url = as_text avatar_url;
        level = as_number level;
        level_name = as_text level_name;
      })
      else none
  vault_identity_of _ = none

  -- A cost that is there has to be fair, and an identity that is there has to be one.
  abbrev pub cost_or_none : CostField → Option (Option Cost)
  cost_or_none no_cost = some none
  cost_or_none field = elim (scrypt_cost_of field) [ none ↦ none | some c ↦ some (some c) ]

  abbrev pub identity_or_none : IdentityField → Option (Option Identity)
  identity_or_none no_identity = some none
  identity_or_none field = elim (vault_identity_of field) [ none ↦ none | some i ↦ some (some i) ]

  abbrev pub is_sealed : (salt nonce ciphertext : String) → Bool
  is_sealed salt nonce ciphertext =
      is_length 32 (P.byte_length salt)
      && (is_length 24 (P.byte_length nonce) && is_filled (P.byte_length ciphertext))

  -- The record that a package is stored as.
  abbrev imported :
      (salt nonce ciphertext : String)
      → (version now : ℕ) → Option Cost
      → Option Identity
      → VaultField
      → PinVault
  imported salt nonce ciphertext version now kdf identity f = record {
    owner_id = filled (as_text f.owner_id);
    is_anonymous = as_truth f.is_anonymous;
    salt = salt;
    nonce = nonce;
    ciphertext = ciphertext;
    attempts = 0;
    version = version;
    created_at = safe_or now (as_number f.created_at);
    kdf = kdf;
    identity = identity;
    erase_on_failure = false;
  }

  abbrev checked :
      (now version : ℕ) → (salt nonce ciphertext : String) → VaultField → Option PinVault
  checked now version salt nonce ciphertext f =
      if is_sealed salt nonce ciphertext
      then elim (cost_or_none f.kdf) [
        | none ↦ none
        | some kdf ↦ elim (identity_or_none f.identity) [
          | none ↦ none
          | some identity ↦ some (imported salt nonce ciphertext version now kdf identity f)
        ]
      ]
      else none

  abbrev transfer_texts : (now version : ℕ) → Value → Value → Value → VaultField → Option PinVault
  transfer_texts now version (text salt) (text nonce) (text ciphertext) f =
      checked now version salt nonce ciphertext f
  transfer_texts now version _ _ _ f = none

  abbrev is_first : Value → Bool
  is_first (number n) = eqb n 1
  is_first _ = false

  unfoldable pub transfer_vault : ℕ → Package → Option PinVault
  transfer_vault now sent =
      if is_first sent.v
      then elim sent.vault [
        | none ↦ none
        | some f ↦ elim (as_number f.version) [
          | none ↦ none
          | some version ↦
              if is_kept (some version)
              then transfer_texts now version f.salt f.nonce f.ciphertext f
              else none
        ]
      ]
      else none

  abbrev same_vault : PinVault → PinVault → Bool
  same_vault a b = (a.salt == b.salt) && ((a.nonce == b.nonce) && (a.ciphertext == b.ciphertext))

  unfoldable pub import_package : ℕ → Option Package → Device → Outcome Unit × Device
  unfolding transfer_vault
  import_package now none s = (failed invalid_package, s)
  import_package now (some sent) s = elim (transfer_vault now sent) [
    | none ↦ (failed altered_package, s)
    | some v ↦ elim s.pending [
      | some p ↦ (failed finish_signup, s)
      | none ↦ elim s.vault [
        | none ↦ (done tt, write_vault (pin_vault v) s)
        | some stored ↦ elim stored [
          | pin_vault e ↦ if same_vault e v then (done tt, s) else (failed different_vault, s)
          | device_vault e ↦ (failed already_holds, s)
        ]
      ]
    ]
  ]

  unfoldable pub import_vault_transfer : Codec → ℕ → String → Device → Outcome Unit × Device
  unfolding import_package
  import_vault_transfer C now value s = import_package now (scanned C value) s
