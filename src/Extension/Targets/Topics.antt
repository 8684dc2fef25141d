-- ===== src/Extension/Targets/Topics.antt =====
-- The topics of the extension's runtime.ts are those of the plugin's router/message.ts.
use openclaw_bot_chat.Base.{
  ◌≡◌, refl, ap, ◌∙◌, some, [], ◌∷◌, ◌++◌, Text, txt, text_eq, text_eq_refl, push_front, split,
  split_plain, split-append, Avoids,
}
use openclaw_bot_chat.Topics.{
  slash, canonical_direct_dialog_id, canonicalize_direct_peers, direct_peer_rank,
}
use openclaw_bot_chat.Extension.Targets.{
  build_bot_chat_direct_topic, build_canonical_bot_chat_direct_topic, user_of_parts,
  infer_bot_chat_direct_user_id,
}

split-user_first :
    (t : Text)
    → split slash (txt "chat/dm/user/" ++ t) ≡ txt "chat" ∷ txt "dm" ∷ txt "user" ∷ split slash t
unfolding split push_front
split-user_first t = refl

split-bot_next : (t : Text) → split slash (txt "bot/" ++ t) ≡ txt "bot" ∷ split slash t
unfolding split push_front
split-bot_next t = refl

parts :
    (user_id bot_id : Text)
    → Avoids slash user_id
    → Avoids slash bot_id
    → split slash (txt "chat/dm/user/" ++ (user_id ++ slash ∷ (txt "bot/" ++ bot_id)))
      ≡ txt "chat" ∷ txt "dm" ∷ txt "user" ∷ user_id ∷ txt "bot" ∷ bot_id ∷ []
parts user_id bot_id p q = rw (
  split-user_first (user_id ++ slash ∷ (txt "bot/" ++ bot_id)),
  split-append slash user_id (txt "bot/" ++ bot_id) p,
  split-bot_next bot_id,
  split_plain slash bot_id q,
)

user_of_topic :
    (user_id bot_id : Text)
    → user_of_parts bot_id (txt "chat" ∷ txt "dm" ∷ txt "user" ∷ user_id ∷ txt "bot" ∷ bot_id ∷ [])
      ≡ some user_id
unfolding user_of_parts text_eq
user_of_topic user_id bot_id = rw (text_eq_refl bot_id)

-- The extension and the plugin compute the same topic for a user and a bot, and the extension finds
-- the user in it again, if the identifiers of both are parts of a topic.
pub build_bot_chat_direct_topic-agrees :
    (user_id bot_id : Text)
    → Avoids slash user_id
    → Avoids slash bot_id
    → (build_bot_chat_direct_topic user_id bot_id
        ≡ canonical_direct_dialog_id
            (record { kind = txt "bot"; id = bot_id })
            (record { kind = txt "user"; id = user_id }))
      × (infer_bot_chat_direct_user_id (build_bot_chat_direct_topic user_id bot_id) bot_id
          ≡ some user_id)
unfolding build_bot_chat_direct_topic build_canonical_bot_chat_direct_topic
    canonical_direct_dialog_id canonicalize_direct_peers direct_peer_rank
    infer_bot_chat_direct_user_id text_eq
build_bot_chat_direct_topic-agrees user_id bot_id p q =
    (refl, ap (user_of_parts bot_id) (parts user_id bot_id p q) ∙ user_of_topic user_id bot_id)
