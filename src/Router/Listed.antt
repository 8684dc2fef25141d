-- ===== src/Router/Listed.antt =====
-- When a message mentions a bot: `isMessageMentionedForBot` of router/message.ts against the list in
-- the metadata and the mentions in the body.
use openclaw_bot_chat.Base.{
  ◌≡◌, refl, subst, ap, ◌↔◌, ◌⊎◌, inl, inr, true, Bool-cases, ◌||◌, Option, none, some, List, [],
  ◌∷◌, Exists, arith, Text, txt, text_eq_iff, text_eq_refl, is_truthy, contains, add, contains-add,
}
use openclaw_bot_chat.Values.{Value, str, arr, item_of, elems}
use openclaw_bot_chat.Types.{BotChatMessage}
use openclaw_bot_chat.Router.Inbound.{text_of}
use openclaw_bot_chat.Router.Mentions.{
  add_listed, add_all_listed, listed_mentions, body_mentions, add_mentions, mentioned_bot_ids,
  is_message_mentioned_for_bot,
}
use openclaw_bot_chat.Router.Scanned.{IsFound, mentions_from_iff}

-- An array that holds the identifier, which is not empty.
abbrev pub IsListed : Text → Value → Type 0
IsListed id (arr vs) = (is_truthy id ≡ true) × Exists (λ v. v ≡ str id) (elems vs)
IsListed id _ = ⊥

abbrev pub IsFoundIn : Text → Option Text → Type 0
IsFoundIn id none = ⊥
IsFoundIn id (some body) = IsFound id body

-- The metadata list the bot as mentioned, or the normalised body mentions it.
abbrev pub IsMentioned : Text → BotChatMessage → Type 0
IsMentioned id message =
    IsListed id (item_of (txt "mentioned_bot_ids") message.meta)
    ⊎ IsFoundIn id (text_of (txt "normalized_body") message.meta)

add_listed-of_contains :
    (id : Text) (s : List Text) (v : Value)
    → contains id (add_listed s v) ≡ true
    → (contains id s ≡ true) ⊎ ((is_truthy id ≡ true) × (v ≡ str id))
unfolding add_listed
add_listed-of_contains id s (str t) h = elim (Bool-cases (contains id s)) [
  | inl c ↦ inl c
  | inr c ↦
      let same : t ≡ id = ground (arith, contains-add t id s, text_eq_iff t id) in
      let given : is_truthy t ≡ true = ground (arith, contains-add t id s) in
      inr (subst (λ t. is_truthy t ≡ true) same given, ap str same)
]
add_listed-of_contains id s _ h = inl h

contains_of_add_listed :
    (id : Text) (s : List Text) (v : Value)
    → (contains id s ≡ true) ⊎ ((is_truthy id ≡ true) × (v ≡ str id))
    → contains id (add_listed s v) ≡ true
unfolding add_listed
contains_of_add_listed id s v (inr (t, e)) = rw (e, t, contains-add id id s, text_eq_refl id) refl
contains_of_add_listed id s (str t) (inl c) = ground (arith, contains-add t id s)
contains_of_add_listed id s _ (inl c) = c

add_all_listed-of_contains :
    (id : Text) (s : List Text) (vs : List Value)
    → contains id (add_all_listed s vs) ≡ true
    → (contains id s ≡ true) ⊎ ((is_truthy id ≡ true) × Exists (λ v. v ≡ str id) vs)
unfolding add_all_listed
add_all_listed-of_contains id s [] h = inl h
add_all_listed-of_contains id s (v ∷ vs) h =
    elim (add_all_listed-of_contains id (add_listed s v) vs h) [
      | inl c ↦ elim (add_listed-of_contains id s v c) [
        | inl c ↦ inl c
        | inr g ↦ inr (g.0, inl g.1)
      ]
      | inr g ↦ inr (g.0, inr g.1)
    ]

contains_of_add_all_listed :
    (id : Text) (s : List Text) (vs : List Value)
    → (contains id s ≡ true) ⊎ ((is_truthy id ≡ true) × Exists (λ v. v ≡ str id) vs)
    → contains id (add_all_listed s vs) ≡ true
unfolding add_all_listed
contains_of_add_all_listed id s [] (inl c) = c
contains_of_add_all_listed id s [] (inr g) = absurd g.1
contains_of_add_all_listed id s (v ∷ vs) (inl c) =
    contains_of_add_all_listed id (add_listed s v) vs (inl (contains_of_add_listed id s v (inl c)))
contains_of_add_all_listed id s (v ∷ vs) (inr (t, inl e)) =
    contains_of_add_all_listed id (add_listed s v) vs
      (inl (contains_of_add_listed id s v (inr (t, e))))
contains_of_add_all_listed id s (v ∷ vs) (inr (t, inr e)) =
    contains_of_add_all_listed id (add_listed s v) vs (inr (t, e))

contains-add_mentions :
    (id : Text) (s ids : List Text)
    → contains id (add_mentions s ids) ≡ (contains id s || contains id ids)
unfolding add_mentions contains
contains-add_mentions id s [] = ground arith
contains-add_mentions id s (i ∷ ids) =
    ground (arith, contains-add_mentions id (add i s) ids, contains-add i id s)

listed_mentions_iff :
    (id : Text) (v : Value) → (contains id (listed_mentions v) ≡ true) ↔ IsListed id v
unfolding contains
listed_mentions_iff id (arr vs) = (
  λ h. elim (add_all_listed-of_contains id [] (elems vs) h) [
    | inl c ↦ absurd (ground arith)
    | inr g ↦ g
  ],
  λ g. contains_of_add_all_listed id [] (elems vs) (inr g),
)
listed_mentions_iff id _ = (λ h. absurd (ground arith), λ h. absurd h)

body_mentions_iff :
    (id : Text) (body : Option Text) → (contains id (body_mentions body) ≡ true) ↔ IsFoundIn id body
unfolding contains
body_mentions_iff id none = (λ h. absurd (ground arith), λ h. absurd h)
body_mentions_iff id (some body) = mentions_from_iff id body

pub is_message_mentioned_for_bot_iff :
    (message : BotChatMessage) (id : Text)
    → (is_message_mentioned_for_bot message id ≡ true) ↔ IsMentioned id message
unfolding is_message_mentioned_for_bot mentioned_bot_ids
is_message_mentioned_for_bot_iff message id =
    let list = item_of (txt "mentioned_bot_ids") message.meta in
    let body = text_of (txt "normalized_body") message.meta in
    let either = contains-add_mentions id (listed_mentions list) (body_mentions body) in
    (
      λ h. elim (Bool-cases (contains id (listed_mentions list))) [
        | inl l ↦ inl ((listed_mentions_iff id list).0 l)
        | inr l ↦ inr ((body_mentions_iff id body).0 (ground (arith, either)))
      ],
      λ h. elim h [
        | inl l ↦ rw (either, (listed_mentions_iff id list).1 l) refl
        | inr f ↦ rw (either, (body_mentions_iff id body).1 f) (ground arith)
      ],
    )
