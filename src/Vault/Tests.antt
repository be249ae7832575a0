-- ===== src/Vault/Tests.antt =====
-- Vaults on a platform whose ciphers only know one phrase.
use timber_chat.Prelude.{
  String, Bool, true, false, not, ◌&&◌, ◌≡◌, refl, sym, ap, Option, none, some, [], ◌∷◌, arith,
  ◌==◌, eq_refl, eq_iff, if◌then◌else◌,
}
use timber_chat.Vault.{
  Identity, Draft, Platform, PinVault, pin_vault, Device, done, failed, locked, write_vault,
  max_attempts, attempts_remaining, scrypt_cost, wipe_device,
}
use timber_chat.Vault.Pin.{unlock_vault, reset_pin_with_phrase}
use timber_chat.Vault.Attempts.{unlock_all, unlock_all-wrong}
use timber_chat.Vault.Recovery.{reset_pin_with_phrase-unlock_all}
use timber_chat.Vault.Transfer.{Codec, packed}
use timber_chat.Vault.Registration.{Signup, Account, seal, finish_registration}
use timber_chat.Vault.Registration.Finished.{waiting}

abbrev draft : Draft
draft = record { mnemonic = "abandon"; username = "ada"; is_anonymous = false; invite_code = none }

only_phrase : (t : String) → (t == "abandon") ≡ true → some "abandon" ≡ some t
only_phrase t h = ap some (sym ((eq_iff t "abandon").0 h))

known_key :
    (k t : String) → (t == "abandon") ≡ true → (if k == k then some "abandon" else none) ≡ some t
known_key k t h = rw (eq_refl k) (only_phrase t h)

abbrev is_draft : Draft → Bool
is_draft d =
    ((d.mnemonic == "abandon") && (d.username == "ada"))
    && (not d.is_anonymous && elim d.invite_code [ none ↦ true | some c ↦ false ])

parts_known :
    (m u : String) (b : Bool) (i : Option String)
    → (((m == "abandon") && (u == "ada")) && (not b && elim i [ none ↦ true | some c ↦ false ]))
      ≡ true
    → some draft ≡ some (record { mnemonic = m; username = u; is_anonymous = b; invite_code = i })
parts_known m u true i h = absurd (ground arith)
parts_known m u false (some c) h = absurd (ground arith)
parts_known m u false none h =
    let tests : ((m == "abandon") ≡ true) × ((u == "ada") ≡ true) = ground arith in
    rw ((eq_iff m "abandon").0 tests.0, (eq_iff u "ada").0 tests.1) refl

draft_known : (d : Draft) → is_draft d ≡ true → some draft ≡ some d
draft_known d h = parts_known d.mnemonic d.username d.is_anonymous d.invite_code h

abbrev platform : Platform
platform = record {
  size = λ t. 8;
  is_numeric = λ t. true;
  is_username = λ t. true;
  is_mnemonic = λ t. t == "abandon";
  user_id = λ t. t;
  is_draft = is_draft;
  byte_length = λ t. some (if t == "nonce" then 24 else 32);
  wrap = λ pin salt cost. pin;
  encrypt = λ key nonce t. key;
  decrypt = λ key nonce c. if c == key then some "abandon" else none;
  device_encrypt = λ key t. t;
  device_decrypt = λ key t. some t;
  seal_draft = λ key d. "draft";
  open_draft = λ key t. some draft;
  decrypt-encrypt = λ k n t h. known_key k t h;
  device_decrypt-device_encrypt = λ k t h. refl;
  open_draft-seal_draft = λ k d h. draft_known d h;
}

abbrev ada : Identity
ada = record {
  user_id = "abandon";
  username = "ada";
  avatar_url = none;
  level = some 4;
  level_name = none;
}

-- A vault under the PIN 123456, of which nine guesses were wrong.
abbrev guarded : PinVault
guarded = record {
  owner_id = some "abandon";
  is_anonymous = some false;
  salt = "salt";
  nonce = "nonce";
  ciphertext = "123456";
  attempts = 9;
  version = 3;
  created_at = 1;
  kdf = some scrypt_cost;
  identity = some ada;
  erase_on_failure = false;
}

abbrev held : Device
held = record { vault = some (pin_vault guarded); pending = none; has_history = true }

abbrev empty : Device
empty = record { vault = none; pending = none; has_history = true }

last_guess :
    unlock_vault platform "000000" held
    ≡ (failed locked, record held { vault = some (pin_vault (record guarded { attempts = 10 })) })
unfolding unlock_vault
last_guess = refl

right_guess :
    unlock_vault platform "123456" held
    ≡ (done "abandon", record held { vault = some (pin_vault (record guarded { attempts = 0 })) })
unfolding unlock_vault
right_guess = refl

unlock_all-wrong_example :
    unlock_all platform
      ("000000" ∷ "111111" ∷ [])
      (write_vault (pin_vault (record guarded { erase_on_failure = true })) empty)
    ≡ wipe_device empty
unlock_all-wrong_example =
    unlock_all-wrong platform ("000000" ∷ "111111" ∷ [])
      (record guarded { erase_on_failure = true }) empty refl

abbrev after_reset : Device
after_reset =
    (reset_pin_with_phrase platform "abandon" "222222" "salt" "nonce" 9
      (unlock_all platform ("000000" ∷ "111111" ∷ []) (write_vault (pin_vault guarded) empty))).1

reset_pin_with_phrase-unlock_all_example :
    (unlock_vault platform "222222" after_reset ≡ (done "abandon", after_reset))
    × (after_reset.has_history ≡ true)
    × (attempts_remaining after_reset ≡ max_attempts)
reset_pin_with_phrase-unlock_all_example =
    reset_pin_with_phrase-unlock_all platform ("000000" ∷ "111111" ∷ []) guarded "abandon" "222222"
      "salt" "nonce" 9 empty refl refl refl refl refl

-- A text of one package.
abbrev codec : Codec
codec = record {
  stringify = λ p. "json";
  parse = λ t. if t == "json" then some (packed guarded) else none;
  encode = λ t. t;
  decode = λ t. some t;
  trim = λ t. t;
}

abbrev signup : Signup
signup = record { draft = draft; user_id = "abandon" }

abbrev account : Account
account = record { user_id = "abandon"; username = "ada"; is_anonymous = false }

abbrev promoted : Device
promoted =
    (finish_registration platform signup account 3 30
      (waiting platform (seal platform draft 1 10) true)).1
