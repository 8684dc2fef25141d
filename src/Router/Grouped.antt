-- ===== src/Router/Grouped.antt =====
-- When a message is of a group: `isGroupMessage` of router/message.ts against the shapes of a topic.
use openclaw_bot_chat.Base.{
  ◌≡◌, refl, Bool-cases, sym, ap, subst, ◌∙◌, ◌↔◌, ◌⊎◌, inl, inr, true, Option, none, some, get_or,
  List, [], ◌∷◌, arith, Text, txt, text_eq_iff, is_truthy, split, split-Avoids, Avoids, All,
}
use openclaw_bot_chat.Topics.{
  present, slash, direct_route, route_of_parts, parse_route, group_topic,
}
use openclaw_bot_chat.Topics.Reply.{IsPart, parse_route-group_topic}
use openclaw_bot_chat.Types.{RouteTargetType, BotChatMessage}
use openclaw_bot_chat.Client.Http.{join}
use openclaw_bot_chat.Client.Http.Paths.{join-split}
use openclaw_bot_chat.Router.Inbound.{text_of, is_given}
use openclaw_bot_chat.Router.Mentions.{is_target_group, is_group_message}

-- The parts of a group's topic.
abbrev group_parts : Text → List Text
group_parts id = txt "chat" ∷ txt "group" ∷ id ∷ []

parts_of_group :
    (ps : List Text)
    → is_given (route_of_parts ps).group_id ≡ true
    → (id : Text) × (is_truthy id ≡ true) × (ps ≡ group_parts id)
unfolding route_of_parts direct_route present
parts_of_group (a ∷ b ∷ c ∷ []) h =
    (c, ground arith, ground (arith, text_eq_iff a (txt "chat"), text_eq_iff b (txt "group")))
parts_of_group (a ∷ b ∷ c ∷ d ∷ e ∷ []) h = absurd (ground arith)
parts_of_group (a ∷ b ∷ c ∷ d ∷ e ∷ f ∷ []) h = absurd (ground arith)
parts_of_group _ h = absurd (ground arith)

topic_of_parts :
    (t id : Text)
    → is_truthy id ≡ true
    → split slash t ≡ group_parts id
    → IsPart id × (t ≡ group_topic id)
unfolding join
topic_of_parts t id h e = (
  (h, (subst (All (Avoids slash)) e (split-Avoids slash t)).1.1.0),
  sym (join-split slash t) ∙ ap (join slash) e,
)

-- The identifier of a group's topic.
abbrev pub IsTopicOfGroup : Text → Type 0
IsTopicOfGroup t = (id : Text) × IsPart id × (t ≡ group_topic id)

-- The message is to a group, or its metadata name one, or it came on the topic of one.
abbrev pub IsInGroup : BotChatMessage → Type 0
IsInGroup message =
    (message.to_type ≡ some RouteTargetType.group)
    ⊎ (((id : Text) × (text_of (txt "group_id") message.meta ≡ some id))
        ⊎ IsTopicOfGroup (get_or (text_of (txt "topic") message.meta) message.dialog_id))

group_topic_iff : (t : Text) → (is_given (parse_route t).group_id ≡ true) ↔ IsTopicOfGroup t
unfolding parse_route present
group_topic_iff t = (
  λ h.
      let (id, i, e) = parts_of_group (split slash t) (ground arith) in
      let (part, same) = topic_of_parts t id i e in (id, part, same),
  λ h. let (id, i, e) = h in rw (e, parse_route-group_topic id i.1) (ground arith),
)

is_target_group_iff :
    (o : Option RouteTargetType) → (is_target_group o ≡ true) ↔ (o ≡ some RouteTargetType.group)
is_target_group_iff none = (λ h. absurd (ground arith), λ h. absurd cc)
is_target_group_iff (some RouteTargetType.group) = (λ h. refl, λ h. refl)
is_target_group_iff (some kind) = (λ h. absurd (ground arith), λ h. ground arith)

is_given_iff : {A : Type 0} → (o : Option A) → (is_given o ≡ true) ↔ ((a : A) × (o ≡ some a))
is_given_iff none = (λ h. absurd (ground arith), λ h. let (a, e) = h in absurd cc)
is_given_iff (some a) = (λ h. (a, refl), λ h. refl)

pub is_group_message_iff :
    (message : BotChatMessage) → (is_group_message message ≡ true) ↔ IsInGroup message
unfolding is_group_message
is_group_message_iff message =
    let topic = get_or (text_of (txt "topic") message.meta) message.dialog_id in
    let named = text_of (txt "group_id") message.meta in
    let to_group = (is_target_group_iff message.to_type) in
    (
      λ h. elim (Bool-cases (is_target_group message.to_type)) [
        | inl e ↦ inl (to_group.0 e)
        | inr e ↦ elim (Bool-cases (is_given named)) [
          | inl n ↦ inr (inl ((is_given_iff named).0 n))
          | inr n ↦ inr (inr ((group_topic_iff topic).0 (ground arith)))
        ]
      ],
      λ h. elim h [
        | inl e ↦ ground (arith, to_group.1 e)
        | inr g ↦ elim g [
          | inl n ↦ ground (arith, (is_given_iff named).1 n)
          | inr t ↦ ground (arith, (group_topic_iff topic).1 t)
        ]
      ],
    )
