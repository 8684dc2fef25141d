-- ===== src/Stores/Sessions.antt =====
-- What the session file holds, and that a dialog keeps its session.
use openclaw_bot_chat.Base.{
  ◌≡◌, refl, sym, ap, subst, Bool, true, false, ◌||◌, Option, some, List, [], ◌∷◌, ◌++◌,
  append_assoc, append-nil, arith, Text, text_eq, text_eq_iff, is_truthy, get_or,
}
use openclaw_bot_chat.Base.Dict.{get, set, has, get-set_self, has-set, set_fresh}
use openclaw_bot_chat.Stores.{
  done, Sessions, flush, load_sessions_from, load_sessions, get_or_create, set_session_id,
}

-- Distinct keys, and no empty key or value: what a file of sessions may hold.
abbrev pub IsProper : List (Text × Text) → Type 0
IsProper [] = Unit
IsProper ((k, v) ∷ m) = (is_truthy k ≡ true) × (is_truthy v ≡ true) × (has k m ≡ false) × IsProper m

pub IsProper-set :
    (k v : Text) (m : List (Text × Text))
    → is_truthy k ≡ true
    → is_truthy v ≡ true
    → IsProper m
    → IsProper (set k v m)
unfolding set has
IsProper-set k v [] hk hv h = (hk, hv, refl, tt)
IsProper-set k v ((j, w) ∷ m) hk hv (hj, hw, new, h) =
    ground (arith, IsProper-set k v m hk hv h, has-set k j v m, text_eq_iff k j, text_eq_iff j k)

has-append :
    (k j : Text) (v : Text) (m n : List (Text × Text))
    → has k (m ++ (j, v) ∷ n) ≡ false
    → (has k m ≡ false) × (text_eq j k ≡ false) × (has k n ≡ false)
unfolding has
has-append k j v [] n h = ground arith
has-append k j v ((i, w) ∷ m) n h = ground (arith, has-append k j v m n)

-- Distinct from all that was loaded before.
abbrev AreNew : List (Text × Text) → List (Text × Text) → Type 0
AreNew loaded [] = Unit
AreNew loaded ((k, v) ∷ m) = (has k loaded ≡ false) × AreNew loaded m

has-snoc :
    (k j v : Text) (m : List (Text × Text)) → has j (m ++ (k, v) ∷ []) ≡ (has j m || text_eq k j)
unfolding has
has-snoc k j v [] = ground arith
has-snoc k j v ((i, w) ∷ m) = ground (arith, has-snoc k j v m)

AreNew-snoc :
    (k v : Text) (loaded m : List (Text × Text))
    → has k m ≡ false
    → AreNew loaded m
    → AreNew (loaded ++ (k, v) ∷ []) m
unfolding has
AreNew-snoc k v loaded [] h new = tt
AreNew-snoc k v loaded ((j, w) ∷ m) h (p, new) = (
  ground (arith, has-snoc k j v loaded, text_eq_iff j k, text_eq_iff k j),
  AreNew-snoc k v loaded m (ground arith) new,
)

load_sessions_from_proper :
    (loaded m : List (Text × Text))
    → IsProper m
    → AreNew loaded m
    → load_sessions_from loaded m ≡ loaded ++ m
unfolding load_sessions_from
load_sessions_from_proper loaded [] h new = sym (append-nil loaded)
load_sessions_from_proper loaded ((k, v) ∷ m) (hk, hv, fresh, h) (p, new) =
    rw
      (
        hk,
        hv,
        set_fresh k v loaded p,
        load_sessions_from_proper (loaded ++ (k, v) ∷ []) m h (AreNew-snoc k v loaded m fresh new),
      )
      (append_assoc loaded ((k, v) ∷ []) m)

AreNew-nil : (m : List (Text × Text)) → AreNew [] m
unfolding has
AreNew-nil [] = tt
AreNew-nil ((k, v) ∷ m) = (refl, AreNew-nil m)

-- Loading the file that a flush has written gives the sessions back, if they have distinct keys and
-- no key or value is empty.
pub load_sessions-flush :
    (s : Sessions) → IsProper s.entries → load_sessions (flush false s).0 ≡ (flush false s).0
unfolding load_sessions flush
load_sessions-flush s h = rw (load_sessions_from_proper [] s.entries h (AreNew-nil s.entries)) refl

-- A session that was set survives a restart: after a successful `set_session_id` on proper
-- sessions, with a dialog and a session that are not empty, loading the file changes nothing, the
-- dialog has the session, and the sessions are still proper.
pub set_session_id-persists :
    (fails : Bool) (dialog_id session_id : Text) (s : Sessions) {t : Sessions}
    → is_truthy dialog_id ≡ true
    → is_truthy session_id ≡ true
    → IsProper s.entries
    → set_session_id fails dialog_id session_id s ≡ (t, done tt)
    → (load_sessions t ≡ t) × (get dialog_id t.entries ≡ some session_id) × IsProper t.entries
unfolding set_session_id flush
set_session_id-persists true dialog_id session_id s hd hs h e = cc
set_session_id-persists false dialog_id session_id s hd hs h e =
    let next = record s { entries = set dialog_id session_id s.entries } in
    let proper = IsProper-set dialog_id session_id s.entries hd hs h in
    subst
      (λ t.
        (load_sessions t ≡ t) × (get dialog_id t.entries ≡ some session_id) × IsProper t.entries)
      (ap (λ p. p.0) e)
      (load_sessions-flush next proper, get-set_self dialog_id session_id s.entries, proper)

get_or_create_known :
    (fails : Bool) (fresh dialog_id : Text) (preferred : Option Text) (s : Sessions)
    {session_id : Text}
    → is_truthy session_id ≡ true
    → get dialog_id s.entries ≡ some session_id
    → get_or_create fails fresh dialog_id preferred s ≡ (s, done session_id)
unfolding get_or_create
get_or_create_known fails fresh dialog_id preferred s h e = ground arith

get_or_create-get :
    (fails : Bool) (fresh dialog_id : Text) (preferred : Option Text) (s : Sessions) {t : Sessions}
    {session_id : Text}
    → get_or_create fails fresh dialog_id preferred s ≡ (t, done session_id)
    → get dialog_id t.entries ≡ some session_id
unfolding get_or_create flush
get_or_create-get fails fresh dialog_id preferred s {t} {session_id} e =
    ground (arith, get-set_self dialog_id (get_or preferred fresh) s.entries)

-- A dialog keeps the session that it was given: asking again gives the same session, whatever
-- session is preferred and whatever a new identifier would be, and changes nothing. The session
-- given is not empty.
pub get_or_create_again :
    (fails refused : Bool) (fresh newer dialog_id : Text) (preferred other : Option Text)
    (s : Sessions) {t : Sessions} {session_id : Text}
    → is_truthy session_id ≡ true
    → get_or_create fails fresh dialog_id preferred s ≡ (t, done session_id)
    → get_or_create refused newer dialog_id other t ≡ (t, done session_id)
get_or_create_again fails refused fresh newer dialog_id preferred other s {t} h e =
    get_or_create_known refused newer dialog_id other t h
      (get_or_create-get fails fresh dialog_id preferred s e)
