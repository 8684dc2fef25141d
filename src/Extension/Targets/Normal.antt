-- ===== src/Extension/Targets/Normal.antt =====
-- Normalising a target twice is normalising it once: runtime.ts of the extension.
use openclaw_bot_chat.Base.{
  ℕ, ◌≡◌, refl, ap, sym, subst, ◌∙◌, true, false, Option, none, some, [], ◌∷◌, ◌++◌, arith, Text,
  txt, is_truthy, starts_with, trim, trim_start, trim_end, trim-trim, trim_end-trim_end, is_space,
  any, Bool-cases, inl, inr, ◌==◌,
}
use openclaw_bot_chat.Topics.{slash}
use openclaw_bot_chat.Values.Laws.{IsClean}
use openclaw_bot_chat.Extension.Targets.{
  Kind, direct, channel, target, target_required, target_id_required, after_word, is_line_end,
  matched, direct_match, channel_match, strip_front_slashes, build_bot_chat_group_topic,
  matched_target, parse_bot_chat_target, normalize_bot_chat_target, group_prefix, prefix_of,
  lower_unit, Parsed, normalized_target,
}

truthy-append : (xs ys : Text) → is_truthy ys ≡ true → is_truthy (xs ++ ys) ≡ true
unfolding is_truthy
truthy-append [] ys t = t
truthy-append (x ∷ xs) ys t = refl

trim_end-append :
    (xs ys : Text) → trim_end ys ≡ ys → is_truthy ys ≡ true → trim_end (xs ++ ys) ≡ xs ++ ys
unfolding trim_end is_truthy
trim_end-append [] ys e t = e
trim_end-append (x ∷ xs) ys e t = ground (arith, trim_end-append xs ys e t, truthy-append xs ys t)

pub trim_end_of_clean : (t : Text) → trim t ≡ t → trim_end t ≡ t
unfolding trim
trim_end_of_clean t e = ap trim_end (sym e) ∙ (trim_end-trim_end (trim_start t) ∙ e)

-- A word before a clean text makes a clean text.
pub prefixed-clean :
    (c : ℕ) (word t : Text) → is_space c ≡ false → IsClean t → trim (c ∷ word ++ t) ≡ c ∷ word ++ t
unfolding trim trim_start
prefixed-clean c word t s (e, h) = rw s (trim_end-append (c ∷ word) t (trim_end_of_clean t e) h)

any_line_end-append :
    (xs ys : Text) → any is_line_end (xs ++ ys) ≡ false → any is_line_end ys ≡ false
any_line_end-append [] ys h = h
any_line_end-append (x ∷ xs) ys h = any_line_end-append xs ys (ground arith)

module _ (id : Text) (clean : IsClean id) (one_line : any is_line_end id ≡ false) where
  normalize-dm : normalize_bot_chat_target (txt "dm:" ++ id) ≡ some (txt "dm:" ++ id)
  unfolding normalize_bot_chat_target parse_bot_chat_target direct_match matched after_word
      lower_unit is_truthy
  normalize-dm =
      rw (prefixed-clean b'd' (txt "m:") id (unfold is_space in refl) clean)
        (rw (clean.1, one_line, clean.0, clean.1) refl)

  normalize-channel : normalize_bot_chat_target (txt "channel:" ++ id) ≡ some (txt "channel:" ++ id)
  unfolding normalize_bot_chat_target parse_bot_chat_target direct_match channel_match matched
      after_word lower_unit is_truthy
  normalize-channel =
      rw (prefixed-clean b'c' (txt "hannel:") id (unfold is_space in refl) clean)
        (rw (clean.1, one_line, clean.0, clean.1) refl)

strip_front_slashes-trim_end :
    (t : Text) → trim_end t ≡ t → trim_end (strip_front_slashes t) ≡ strip_front_slashes t
unfolding strip_front_slashes trim_end
strip_front_slashes-trim_end [] e = refl
strip_front_slashes-trim_end (c ∷ cs) e = ground (arith, strip_front_slashes-trim_end cs)

not_space : (c : ℕ) → (c == b'c') ≡ true → is_space c ≡ false
unfolding is_space
not_space c h = ground arith

trim_start_of_prefix : (t : Text) → starts_with t group_prefix ≡ true → trim_start t ≡ t
unfolding starts_with trim_start
trim_start_of_prefix [] h = refl
trim_start_of_prefix (c ∷ cs) h = rw (not_space c (ground arith)) refl

group_prefixed-IsClean : (t : Text) → trim_end t ≡ t → IsClean (group_prefix ++ t)
unfolding is_truthy trim trim_start trim_end is_space
group_prefixed-IsClean [] e = (refl, refl)
group_prefixed-IsClean (c ∷ cs) e = (trim_end-append group_prefix (c ∷ cs) e refl, refl)

starts_with-truthy : (t : Text) → starts_with t group_prefix ≡ true → is_truthy t ≡ true
unfolding starts_with is_truthy
starts_with-truthy [] h = cc
starts_with-truthy (c ∷ cs) h = refl

group_topic-IsClean : (id : Text) → IsClean (build_bot_chat_group_topic id)
unfolding build_bot_chat_group_topic trim trim_end
group_topic-IsClean id =
    let stripped = strip_front_slashes (trim id) in
    let e : trim_end stripped ≡ stripped =
      strip_front_slashes-trim_end (trim id) (trim_end_of_clean (trim id) (trim-trim id)) in
    elim (Bool-cases (starts_with stripped group_prefix)) [
      | inl h ↦
          rw h (ap trim_end (trim_start_of_prefix stripped h) ∙ e, starts_with-truthy stripped h)
      | inr h ↦ rw h (group_prefixed-IsClean stripped e)
    ]

-- The identifier of a target is trimmed and not empty.
abbrev NamesClean : Parsed → Type 0
NamesClean (target t) = IsClean t.id
NamesClean target_required = Unit
NamesClean target_id_required = Unit

matched_target-NamesClean :
    (raw : Text) (d c g : Option Text) → IsClean raw → NamesClean (matched_target raw d c g)
matched_target-NamesClean raw (some id) c g h = elim (Bool-cases (is_truthy (trim id))) [
  | inl t ↦ rw t (trim-trim id, t)
  | inr f ↦ rw f tt
]
matched_target-NamesClean raw none (some id) g h = elim (Bool-cases (is_truthy (trim id))) [
  | inl t ↦ rw t (trim-trim id, t)
  | inr f ↦ rw f tt
]
matched_target-NamesClean raw none none (some id) h = elim (Bool-cases (is_truthy (trim id))) [
  | inl t ↦ rw t (group_topic-IsClean (trim id))
  | inr f ↦ rw f tt
]
matched_target-NamesClean raw none none none h = h

pub parse-NamesClean : (raw : Text) → NamesClean (parse_bot_chat_target raw)
unfolding parse_bot_chat_target
parse-NamesClean raw = elim (Bool-cases (is_truthy (trim raw))) [
  | inl t ↦ rw t (matched_target-NamesClean (trim raw) _ _ _ (trim-trim raw, t))
  | inr f ↦ rw f tt
]

normalize-prefixed :
    (kind : Kind) (id : Text)
    → IsClean id
    → any is_line_end (prefix_of kind ++ id) ≡ false
    → normalize_bot_chat_target (prefix_of kind ++ id) ≡ some (prefix_of kind ++ id)
normalize-prefixed direct id clean h = normalize-dm id clean (any_line_end-append (txt "dm:") id h)
normalize-prefixed channel id clean h =
    normalize-channel id clean (any_line_end-append (txt "channel:") id h)

normalized-again :
    (p : Parsed) {t : Text}
    → NamesClean p
    → normalized_target p ≡ some t
    → any is_line_end t ≡ false
    → normalize_bot_chat_target t ≡ some t
normalized-again (target r) {t} clean e h =
    let same : prefix_of r.kind ++ r.id ≡ t = cc in
    subst (λ u. normalize_bot_chat_target u ≡ some u) same
      (normalize-prefixed r.kind r.id clean (rw same h))
normalized-again target_required clean e h = cc
normalized-again target_id_required clean e h = cc

-- A normalised target on one line is its own normal form.
pub normalize_bot_chat_target_idem :
    (raw : Text) {t : Text}
    → normalize_bot_chat_target raw ≡ some t
    → any is_line_end t ≡ false
    → normalize_bot_chat_target t ≡ some t
normalize_bot_chat_target_idem raw e h =
    normalized-again (parse_bot_chat_target raw) (parse-NamesClean raw)
      (unfold normalize_bot_chat_target in e) h

strip_front_slashes_plain :
    (t : Text) → starts_with t (slash ∷ []) ≡ false → strip_front_slashes t ≡ t
unfolding strip_front_slashes starts_with
strip_front_slashes_plain [] h = refl
strip_front_slashes_plain (c ∷ cs) h = ground arith

module _ (id : Text) (clean : IsClean id) (one_line : any is_line_end id ≡ false) where
  normalize-direct : normalize_bot_chat_target (txt "direct:" ++ id) ≡ some (txt "dm:" ++ id)
  unfolding normalize_bot_chat_target parse_bot_chat_target direct_match matched after_word
      lower_unit is_truthy
  normalize-direct =
      rw (prefixed-clean b'd' (txt "irect:") id (unfold is_space in refl) clean)
        (rw (clean.1, one_line, clean.0, clean.1) refl)

  normalize-user : normalize_bot_chat_target (txt "user:" ++ id) ≡ some (txt "dm:" ++ id)
  unfolding normalize_bot_chat_target parse_bot_chat_target direct_match matched after_word
      lower_unit is_truthy
  normalize-user =
      rw (prefixed-clean b'u' (txt "ser:") id (unfold is_space in refl) clean)
        (rw (clean.1, one_line, clean.0, clean.1) refl)

  normalize-conversation :
      normalize_bot_chat_target (txt "conversation:" ++ id) ≡ some (txt "channel:" ++ id)
  unfolding normalize_bot_chat_target parse_bot_chat_target direct_match channel_match matched
      after_word lower_unit is_truthy
  normalize-conversation =
      rw (prefixed-clean b'c' (txt "onversation:") id (unfold is_space in refl) clean)
        (rw (clean.1, one_line, clean.0, clean.1) refl)

  group_topic_plain :
      starts_with id (slash ∷ []) ≡ false
      → starts_with id group_prefix ≡ false
      → build_bot_chat_group_topic id ≡ group_prefix ++ id
  unfolding build_bot_chat_group_topic
  group_topic_plain s h = rw (clean.0, strip_front_slashes_plain id s, h) refl

  normalize-group :
      starts_with id (slash ∷ []) ≡ false
      → starts_with id group_prefix ≡ false
      → normalize_bot_chat_target (txt "group:" ++ id) ≡ some (txt "channel:chat/group/" ++ id)
  unfolding normalize_bot_chat_target parse_bot_chat_target direct_match channel_match matched
      after_word lower_unit is_truthy
  normalize-group s h =
      rw (prefixed-clean b'g' (txt "roup:") id (unfold is_space in refl) clean)
        (rw (clean.1, one_line, clean.0, clean.1, group_topic_plain s h) refl)

  -- The kinds direct and user are normalised to dm, the kind conversation to channel, and a group to
  -- the channel of its topic; and a normalised target on one line is its own normal form. The
  -- identifier is trimmed, not empty, on one line, and does not start with a slash nor with the
  -- prefix of a group's topic.
  pub normalize_bot_chat_target-kinds :
      (raw : Text) {t : Text}
      → starts_with id (slash ∷ []) ≡ false
      → starts_with id (txt "chat/group/") ≡ false
      → normalize_bot_chat_target raw ≡ some t
      → any is_line_end t ≡ false
      → (normalize_bot_chat_target (txt "direct:" ++ id) ≡ some (txt "dm:" ++ id))
        × (normalize_bot_chat_target (txt "user:" ++ id) ≡ some (txt "dm:" ++ id))
        × (normalize_bot_chat_target (txt "conversation:" ++ id) ≡ some (txt "channel:" ++ id))
        × (normalize_bot_chat_target (txt "group:" ++ id) ≡ some (txt "channel:chat/group/" ++ id))
        × (normalize_bot_chat_target t ≡ some t)
  normalize_bot_chat_target-kinds raw s g e h = (
    normalize-direct,
    normalize-user,
    normalize-conversation,
    normalize-group s g,
    normalize_bot_chat_target_idem raw e h,
  )
