-- ===== src/Envelope/Plain.antt =====
-- A suite without secrets: what is asked of the ciphers can be met, and it runs.
use package.text.Mathlib.TextEquality.{Char-path}
use Prim.Native.String.{[], ◌∷◌, len}
use Prim.Native.Char.{code}
use timber_chat.Prelude.{
  String, Bool, true, false, not, ◌&&◌, ◌||◌, ◌≡◌, refl, Option, none, some, ltb, eqb,
  if◌then◌else◌, arith,
}
use timber_chat.Presentation.{Payload, text}
use timber_chat.Envelope.{Suite}

abbrev pub plain_text : String → Payload
plain_text body = text (record { body = body; quiet = false; edited = false; reply_to = none })

abbrev body_of : Payload → String
body_of (text t) = t.body
body_of _ = ""

abbrev plain_flags : Bool → Bool → Option String → Bool
plain_flags quiet edited reply_to =
    not quiet && (not edited && elim reply_to [ none ↦ true | some r ↦ false ])

abbrev is_plain : Payload → Bool
is_plain (text t) = plain_flags t.quiet t.edited t.reply_to
is_plain _ = false

plain_parts :
    (body : String) (q e : Bool) (r : Option String)
    → plain_flags q e r ≡ true
    → some (plain_text body)
      ≡ some (text (record { body = body; quiet = q; edited = e; reply_to = r }))
plain_parts body true e r h = absurd (ground arith)
plain_parts body false true r h = absurd (ground arith)
plain_parts body false false (some r) h = absurd (ground arith)
plain_parts body false false none h = refl

pub plain_text-body_of : (p : Payload) → is_plain p ≡ true → some (plain_text (body_of p)) ≡ some p
plain_text-body_of (text t) h = plain_parts t.body t.quiet t.edited t.reply_to h
plain_text-body_of _ h = cc

abbrev ascending : String → String → Bool
ascending [] t = true
ascending (c ∷ s) [] = false
ascending (c ∷ s) (d ∷ t) = ltb (code c) (code d) || (eqb (code c) (code d) && ascending s t)

pub ascending_total : (a b : String) → (ascending a b || ascending b a) ≡ true
ascending_total [] b = refl
ascending_total (c ∷ s) [] = refl
ascending_total (c ∷ s) (d ∷ t) = ground (arith, ascending_total s t)

pub ascending_antisym : (a b : String) → ascending a b ≡ true → ascending b a ≡ true → a ≡ b
ascending_antisym [] [] h g = refl
ascending_antisym [] (d ∷ t) h g = cc
ascending_antisym (c ∷ s) [] h g = cc
ascending_antisym (c ∷ s) (d ∷ t) h g = ground (arith, ascending_antisym s t, Char-path c d)

-- What two keys have in common, whichever comes first.
abbrev joined : String → String → String
joined a b = if ascending a b then a else b

abbrev pub suite : Suite
suite = record {
  is_ascending = ascending;
  to_base64 = λ b. b;
  from_base64 = λ b. some b;
  digits = λ n. "2";
  size = len;
  public_of = λ a. a;
  shared_secret = λ a b. some (joined a b);
  hkdf = λ shared info. shared;
  encrypt = λ k n a p. p;
  decrypt = λ k n a c. some c;
  to_json = body_of;
  from_json = λ b. some (plain_text b);
  is_plain = is_plain;
  ascending_total = ascending_total;
  ascending_antisym = ascending_antisym;
  from_base64-to_base64 = λ b. refl;
  agreement = λ a b. ground (arith, ascending_total a b, ascending_antisym a b);
  decrypt-encrypt = λ k n a p. refl;
  from_json-to_json = plain_text-body_of;
}
