-- ===== src/Socket/Operations.antt =====
-- The sockets that are open, through each operation of useWebSocket.js.
use timber_chat.Prelude.{
  pull, ℕ, zero, suc, ◌+◌, ◌≤◌, Bool, true, false, ◌≡◌, inl, inr, refl, Option, none, some, List,
  [], ◌∷◌, length, eqb, Option-cases, arith,
}
use timber_chat.Socket.{
  Connect, asking, signing, asking_again, Answer, granted, refused, Link, drop, schedule_reconnect,
  connect, open_socket, answered, on_open, is_some, cleanup,
}

abbrev pub only : Option ℕ → List ℕ
only none = []
only (some k) = k ∷ []

-- The sockets, the timers and the calls of `connect` are one together, at most.
pub record IsSingle (l : Link) : Type 0 where
  pub alive : l.alive ≡ only l.socket
  pub known : drop l.timer l.timers ≡ []
  pub few : length l.connects + (length l.timers + length l.alive) ≤ 1

abbrev pub is_empty : List Connect → Bool
is_empty [] = true
is_empty (c ∷ cs) = false

abbrev pub is_known : ℕ → Option ℕ → Bool
is_known k none = false
is_known k (some j) = eqb j k

pub schedule-IsSingle :
    (l : Link)
    → l.socket ≡ none
    → l.alive ≡ []
    → l.timers ≡ []
    → l.connects ≡ []
    → IsSingle (schedule_reconnect l)
unfolding schedule_reconnect
schedule-IsSingle l s a t c = ground (arith, s, a, t, c)

pub connect-IsSingle :
    (l : Link)
    → l.socket ≡ none
    → l.alive ≡ []
    → l.timers ≡ []
    → l.connects ≡ []
    → IsSingle (connect l)
connect-IsSingle l s a t c = ground (arith, s, a, t, c)

open_socket-IsSingle :
    (m : Bool) (l : Link)
    → l.socket ≡ none
    → l.alive ≡ []
    → l.timers ≡ []
    → l.connects ≡ []
    → IsSingle (open_socket m l)
unfolding open_socket
open_socket-IsSingle m l s a t c = ground (arith, s, a, t, c)

pub cleanup-IsSingle : (l : Link) → IsSingle l → IsSingle (cleanup l)
unfolding cleanup
cleanup-IsSingle l h = ground arith

pub on_open-IsSingle : (k : ℕ) (l : Link) → IsSingle l → IsSingle (on_open k l)
unfolding on_open
on_open-IsSingle k l h = record { alive = h.alive; known = h.known; few = h.few }

pub none_left {ℓ} : {A : Type ℓ} (xs : List A) → length xs ≤ 0 → xs ≡ []
none_left [] le = refl
none_left (x ∷ xs) le = absurd (omega (arith, le))

pull-length :
    (p : ℕ) (cs : List Connect) (c : Connect) (rest : List Connect)
    → pull p cs ≡ some (c, rest)
    → length cs ≡ suc (length rest)
pull-length p [] c rest e = absurd (cc)
pull-length zero (d ∷ cs) c rest e = ground (arith, e)
pull-length (suc p) (d ∷ cs) c rest e = elim (Option-cases (pull p cs)) [
  | inl gone ↦ ground (arith, e, gone)
  | inr ((b, others), found) ↦ ground (arith, e, found, pull-length p cs b others found)
]

pub vacant : (o : Option ℕ) (xs : List ℕ) → xs ≡ only o → xs ≡ [] → o ≡ none
vacant none xs e f = refl
vacant (some k) xs e f = cc

pub unlinked : (o : Option ℕ) → is_some o ≡ false → only o ≡ []
unlinked none h = refl
unlinked (some k) h = cc

pub nobody : (o : Option ℕ) → is_some o ≡ false → o ≡ none
nobody none h = refl
nobody (some k) h = cc

pub idle : (cs : List Connect) → is_empty cs ≡ true → cs ≡ []
idle [] h = refl
idle (c ∷ cs) h = cc

-- Where a connection is under way, there is no socket and no timer, and nothing else.
pub alone :
    (l : Link) (c : Connect) (rest : List Connect) (p : ℕ)
    → pull p l.connects ≡ some (c, rest)
    → IsSingle l
    → (l.socket ≡ none) × (l.alive ≡ []) × (l.timers ≡ []) × (rest ≡ [])
alone l c rest p e h =
    let one : length l.connects ≡ suc (length rest) = pull-length p l.connects c rest e in
    let gone : l.alive ≡ [] = none_left l.alive (omega (arith, h.few, one)) in
    (
      vacant l.socket l.alive h.alive gone,
      gone,
      none_left l.timers (omega (arith, h.few, one)),
      none_left rest (omega (arith, h.few, one)),
    )

pub answered-IsSingle :
    (m u : Bool) (c : Connect) (x : Answer) (l : Link)
    → l.socket ≡ none
    → l.alive ≡ []
    → l.timers ≡ []
    → l.connects ≡ []
    → IsSingle (answered m u c x l)
unfolding answered
answered-IsSingle m u asking granted l s a t c = open_socket-IsSingle m l s a t c
answered-IsSingle m u asking (refused w) l s a t c =
    ground (arith, s, a, t, c, schedule-IsSingle l s a t c)
answered-IsSingle m u signing granted l s a t c = ground (arith, s, a, t, c)
answered-IsSingle m u asking_again granted l s a t c = open_socket-IsSingle m l s a t c
answered-IsSingle m u signing (refused w) l s a t c = schedule-IsSingle l s a t c
answered-IsSingle m u asking_again (refused w) l s a t c = schedule-IsSingle l s a t c
