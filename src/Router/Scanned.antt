-- ===== src/Router/Scanned.antt =====
-- The mentions in a text, `matchAll` with `/<@bot:([^>]+)>/g` of router/message.ts, against a
-- description of the scan.
use openclaw_bot_chat.Base.{
  ℕ, zero, suc, ◌+◌, ◌≤◌, ◌≡◌, refl, sym, ap, subst, ◌∙◌, ◌↔◌, ◌≢◌, true, Bool-cases, inl, inr,
  Option, none, some, [], ◌∷◌, ◌++◌, ◌==◌, append_assoc, length-append, arith, Text, txt, text_eq,
  text_eq_iff, text_eq_refl, is_truthy, starts_with, drop, length, contains, Avoids,
}
use openclaw_bot_chat.Router.Mentions.{
  until_close, unless_blank, mention_mark, mention_at, mentions_from,
}

-- The text before the first `>`.
until_close-append : (id post : Text) → Avoids b'>' id → until_close (id ++ b'>' ∷ post) ≡ some id
unfolding until_close
until_close-append [] post h = refl
until_close-append (c ∷ cs) post (p, h) = ground (arith, until_close-append cs post h)

mention_at-mark :
    (id post : Text)
    → is_truthy id ≡ true
    → Avoids b'>' id
    → mention_at (mention_mark ++ (id ++ b'>' ∷ post)) ≡ some id
unfolding mention_at starts_with is_truthy
mention_at-mark [] post t h = cc
mention_at-mark (c ∷ cs) post t h = rw (until_close-append (c ∷ cs) post h) refl

mentions_from-skip :
    (skip : ℕ) (t post : Text)
    → skip ≡ length t
    → mentions_from skip (t ++ post) ≡ mentions_from 0 post
unfolding mentions_from
mentions_from-skip zero [] post e = refl
mentions_from-skip (suc skip) [] post e = absurd (omega arith)
mentions_from-skip zero (c ∷ cs) post e = absurd (omega arith)
mentions_from-skip (suc skip) (c ∷ cs) post e = mentions_from-skip skip cs post (omega arith)

-- No mention starts at another unit than `<`.
mention_at-other : (c : ℕ) (cs : Text) → c ≢ b'<' → mention_at (c ∷ cs) ≡ none
unfolding mention_at starts_with
mention_at-other c cs h = ground arith

pub mentions_from-plain :
    (pre rest : Text) → Avoids b'<' pre → mentions_from 0 (pre ++ rest) ≡ mentions_from 0 rest
unfolding mentions_from
mentions_from-plain [] rest h = refl
mentions_from-plain (c ∷ cs) rest (p, h) =
    rw (mentions_from, mention_at-other c (cs ++ rest) p) (mentions_from-plain cs rest h)

mentions_from-mention :
    (id post : Text)
    → is_truthy id ≡ true
    → Avoids b'>' id
    → mentions_from 0 (mention_mark ++ (id ++ b'>' ∷ post)) ≡ id ∷ mentions_from 0 post
unfolding mentions_from
mentions_from-mention id post t h =
    rw (mentions_from, mention_at-mark id post t h)
      (ap (λ u. id ∷ u)
        (ap (λ u. mentions_from (length id + 6) (txt "@bot:" ++ u))
            (sym (append_assoc id (b'>' ∷ []) post))
          ∙ mentions_from-skip (length id + 6) (txt "@bot:" ++ (id ++ b'>' ∷ [])) post
              (omega (arith, length-append id (b'>' ∷ [])))))

-- What a mention's identifier may be.
abbrev pub IsName : Text → Type 0
IsName id = (is_truthy id ≡ true) × Avoids b'>' id

-- The text that starts with a mention and goes on.
abbrev pub mention_then : Text → Text → Text
mention_then id post = txt "<@bot:" ++ (id ++ b'>' ∷ post)

-- The identifier is mentioned: mentions are looked for from left to right, and after one the search
-- goes on behind it.
pub data IsFound (id : Text) : Text → Type 0 where
  here : (post : Text) → IsName id → IsFound id (mention_then id post)
  past : (other post : Text) → IsName other → IsFound id post → IsFound id (mention_then other post)
  later :
      (c : ℕ) (cs : Text)
      → ((other post : Text) → IsName other → c ∷ cs ≢ mention_then other post)
      → IsFound id cs
      → IsFound id (c ∷ cs)

abbrev Closes : Text → Option Text → Type 0
Closes t none = Unit
Closes t (some id) = (post : Text) × Avoids b'>' id × (t ≡ id ++ b'>' ∷ post)

Closes-cons :
    (c : ℕ) (cs : Text) (o : Option Text)
    → c ≢ b'>'
    → Closes cs o
    → Closes (c ∷ cs) (elim o [ none ↦ none | some t ↦ some (c ∷ t) ])
Closes-cons c cs none ne h = tt
Closes-cons c cs (some id) ne (post, a, e) = (post, (ne, a), ap (λ t. c ∷ t) e)

until_close-Closes : (t : Text) → Closes t (until_close t)
unfolding until_close
until_close-Closes [] = tt
until_close-Closes (c ∷ cs) = elim (Bool-cases (c == b'>')) [
  | inl e ↦ rw e (cs, tt, ap (λ d. d ∷ cs) (ground arith))
  | inr e ↦ rw e (Closes-cons c cs (until_close cs) (ground arith) (until_close-Closes cs))
]

starts_with-drop : (t mark : Text) → starts_with t mark ≡ true → t ≡ mark ++ drop (length mark) t
unfolding starts_with
starts_with-drop t [] h = refl
starts_with-drop [] (m ∷ ms) h = cc
starts_with-drop (c ∷ cs) (m ∷ ms) h = ground (arith, starts_with-drop cs ms)

abbrev Opens : Text → Option Text → Type 0
Opens t none = Unit
Opens t (some id) = (post : Text) × IsName id × (t ≡ mention_then id post)

Opens-of_Closes :
    (t rest : Text) (o : Option Text)
    → t ≡ txt "<@bot:" ++ rest
    → Closes rest o
    → Opens t (unless_blank o)
unfolding is_truthy
Opens-of_Closes t rest none e h = tt
Opens-of_Closes t rest (some []) e h = tt
Opens-of_Closes t rest (some (c ∷ cs)) e (post, a, k) =
    (post, (refl, a), e ∙ ap (λ r. txt "<@bot:" ++ r) k)

-- What is taken for a mention is one.
mention_at-Opens : (t : Text) → Opens t (mention_at t)
unfolding mention_at
mention_at-Opens t = elim (Bool-cases (starts_with t mention_mark)) [
  | inl e ↦ rw e (
      Opens-of_Closes t (drop 6 t) (until_close (drop 6 t)) (starts_with-drop t mention_mark e)
        (until_close-Closes (drop 6 t)))
  | inr e ↦ rw e tt
]

mention_at-none :
    (c : ℕ) (cs other post : Text)
    → mention_at (c ∷ cs) ≡ none
    → IsName other
    → c ∷ cs ≢ mention_then other post
mention_at-none c cs other post e (t, a) same =
    let found = sym e ∙ ap mention_at same ∙ mention_at-mark other post t a in cc

contains-later :
    (id : Text) (c : ℕ) (cs : Text)
    → ((other post : Text) → IsName other → c ∷ cs ≢ mention_then other post)
    → contains id (mentions_from 0 cs) ≡ true
    → contains id (mentions_from 0 (c ∷ cs)) ≡ true
unfolding mentions_from
contains-later id c cs not_one h = go (mention_at (c ∷ cs)) refl
  where
    go : (o : Option Text) → mention_at (c ∷ cs) ≡ o → contains id (mentions_from 0 (c ∷ cs)) ≡ true
    go none e = rw (mentions_from, e) h
    go (some other) e =
        let (post, name, same) = subst (Opens (c ∷ cs)) e (mention_at-Opens (c ∷ cs)) in
        absurd (not_one other post name same)

contains_of_found : (id : Text) {t : Text} → IsFound id t → contains id (mentions_from 0 t) ≡ true
unfolding contains
contains_of_found id (here post (n, a)) =
    rw (mentions_from-mention id post n a, text_eq_refl id) refl
contains_of_found id (past other post (n, a) f) =
    rw (mentions_from-mention other post n a, contains_of_found id f) (ground arith)
contains_of_found id (later c cs not_one f) =
    contains-later id c cs not_one (contains_of_found id f)

length-mention_then : (id post : Text) → length post + 1 ≤ length (mention_then id post)
length-mention_then id post = omega (arith, length-append id (b'>' ∷ post))

-- The first mention is of the identifier, or the identifier is mentioned behind it.
IsFound-mention :
    (id other post : Text)
    → IsName other
    → (contains id (mentions_from 0 post) ≡ true → IsFound id post)
    → contains id (mentions_from 0 (mention_then other post)) ≡ true
    → IsFound id (mention_then other post)
unfolding contains
IsFound-mention id other post (n, a) rest h = elim (Bool-cases (text_eq other id)) [
  | inl e ↦
      let same = (text_eq_iff other id).0 e in
      subst (λ t. IsFound id (mention_then t post)) (sym same)
        (here post (subst IsName same (n, a)))
  | inr e ↦
      past other post (n, a)
        (rest (ground (arith, ap (contains id) (mentions_from-mention other post n a))))
]

IsFound-step :
    (id : Text) (c : ℕ) (cs : Text)
    → ((post : Text)
        → length post ≤ length cs
        → contains id (mentions_from 0 post) ≡ true
        → IsFound id post)
    → contains id (mentions_from 0 (c ∷ cs)) ≡ true
    → IsFound id (c ∷ cs)
unfolding mentions_from
IsFound-step id c cs rest h = go (mention_at (c ∷ cs)) refl
  where
    go : (o : Option Text) → mention_at (c ∷ cs) ≡ o → IsFound id (c ∷ cs)
    go none e =
        later c cs (λ other post. mention_at-none c cs other post e)
          (rest cs (omega arith) (rw (mentions_from, e) at h))
    go (some other) e =
        let (post, name, same) = subst (Opens (c ∷ cs)) e (mention_at-Opens (c ∷ cs)) in
        subst (IsFound id) (sym same) (
          IsFound-mention id other post name
            (rest post (omega (arith, length-mention_then other post, ap length same)))
            (subst (λ t. contains id (mentions_from 0 t) ≡ true) same h))

-- By the length of the text.
IsFound-of_contains :
    (id : Text) (n : ℕ) (t : Text)
    → length t ≤ n
    → contains id (mentions_from 0 t) ≡ true
    → IsFound id t
unfolding contains mentions_from
IsFound-of_contains id n [] le h = absurd (ground arith)
IsFound-of_contains id zero (c ∷ cs) le h = absurd (omega arith)
IsFound-of_contains id (suc n) (c ∷ cs) le h =
    IsFound-step id c cs (λ post l. IsFound-of_contains id n post (omega arith)) h

pub mentions_from_iff : (id t : Text) → (contains id (mentions_from 0 t) ≡ true) ↔ IsFound id t
mentions_from_iff id t = (IsFound-of_contains id (length t) t (omega arith), contains_of_found id)
