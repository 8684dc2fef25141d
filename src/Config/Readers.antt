-- ===== src/Config/Readers.antt =====
-- What the readers of plugins/openclaw-bot-chat/src/config.ts give, and how a reading that returns
-- is taken apart.
use openclaw_bot_chat.Base.{
  ℕ, ◌≡◌, ◌≢◌, refl, subst, Option, none, some, List, [], ◌∷◌, arith, Text, trim-trim, is_truthy,
  not, ◌&&◌, ◌==◌, if◌then◌else◌,
}
use openclaw_bot_chat.Values.{Value, non_blank}
use openclaw_bot_chat.Values.Laws.{IsClean}
use openclaw_bot_chat.Config.{Result, ok, error, ◌>>=◌, read_strings, strip_slashes}

-- What holds of a result, if there is one.
abbrev pub Ensures {ℓ κ} : {A : Type ℓ} → (A → Type κ) → Result A → Type κ
Ensures P (ok a) = P a
Ensures P (error e) = Unit

pub Ensures->>= {ℓ κ ι μ} :
    {A : Type ℓ} {B : Type κ} (P : A → Type ι) (Q : B → Type μ) (m : Result A) (f : A → Result B)
    → Ensures P m
    → ((a : A) → P a → Ensures Q (f a))
    → Ensures Q (m >>= f)
Ensures->>= P Q (ok a) f h k = k a h
Ensures->>= P Q (error e) f h k = tt

-- Where nothing is known of the first result.
pub Ensures->>=_any {ℓ κ μ} :
    {A : Type ℓ} {B : Type κ} (Q : B → Type μ) (m : Result A) (f : A → Result B)
    → ((a : A) → Ensures Q (f a))
    → Ensures Q (m >>= f)
Ensures->>=_any Q (ok a) f k = k a
Ensures->>=_any Q (error e) f k = tt

pub Ensures-ok {ℓ κ} :
    {A : Type ℓ} (P : A → Type κ) {m : Result A} {a : A} → Ensures P m → m ≡ ok a → P a
Ensures-ok P {m} {a} h e = subst (Ensures P) e h

non_blank-IsClean : (t : Text) {s : Text} → non_blank t ≡ some s → IsClean s
unfolding non_blank
non_blank-IsClean t h = ground (arith, trim-trim t)

pub read_strings-IsClean :
    (values : List Value) {t : Text} → read_strings values ≡ some t → IsClean t
unfolding read_strings
read_strings-IsClean [] h = cc
read_strings-IsClean (Value.str s ∷ values) {t} h =
    ground (arith, non_blank-IsClean s {s = t}, read_strings-IsClean values {t = t})
read_strings-IsClean (Value.undefined ∷ values) h = read_strings-IsClean values h
read_strings-IsClean (Value.null ∷ values) h = read_strings-IsClean values h
read_strings-IsClean (Value.not_finite ∷ values) h = read_strings-IsClean values h
read_strings-IsClean (Value.bool b ∷ values) h = read_strings-IsClean values h
read_strings-IsClean (Value.num n ∷ values) h = read_strings-IsClean values h
read_strings-IsClean (Value.arr vs ∷ values) h = read_strings-IsClean values h
read_strings-IsClean (Value.obj fs ∷ values) h = read_strings-IsClean values h

-- An optional text is undefined, or trimmed and not empty.
abbrev pub IsCleanIf : Option Text → Type 0
IsCleanIf none = Unit
IsCleanIf (some t) = IsClean t

pub IsCleanIf-of : (o : Option Text) → ((t : Text) → o ≡ some t → IsClean t) → IsCleanIf o
IsCleanIf-of none h = tt
IsCleanIf-of (some t) h = h t refl

pub read_strings-IsCleanIf : (values : List Value) → IsCleanIf (read_strings values)
read_strings-IsCleanIf values =
    IsCleanIf-of (read_strings values) (λ t. read_strings-IsClean values {t = t})

abbrev EndsPlainAfter : ℕ → Text → Type 0
EndsPlainAfter c [] = c ≢ b'/'
EndsPlainAfter c (d ∷ cs) = EndsPlainAfter d cs

-- The last unit of the text is not a slash.
abbrev pub EndsPlain : Text → Type 0
EndsPlain [] = Unit
EndsPlain (c ∷ cs) = EndsPlainAfter c cs

pub strip_slashes-EndsPlain : (t : Text) → EndsPlain (strip_slashes t)
unfolding strip_slashes is_truthy
strip_slashes-EndsPlain [] = tt
strip_slashes-EndsPlain (c ∷ cs) = EndsPlain-cons c (strip_slashes cs) (strip_slashes-EndsPlain cs)
  where
    EndsPlain-cons :
        (c : ℕ) (rest : Text)
        → EndsPlain rest
        → EndsPlain (if c == b'/' && not (is_truthy rest) then [] else c ∷ rest)
    EndsPlain-cons c [] h = ground arith
    EndsPlain-cons c (d ∷ rest) h = ground arith
