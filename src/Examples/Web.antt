-- ===== src/Examples/Web.antt =====
-- The conversation of a user and a bot in the web client.
use openclaw_bot_chat.Base.{◌≡◌, refl, none, some, [], arith, txt, is_truthy}
use openclaw_bot_chat.Topics.{
  direct_topic, group_topic, build_reply_topic, canonical_direct_dialog_id,
}
use openclaw_bot_chat.Topics.Reply.{IsPart}
use openclaw_bot_chat.Web.{Conversation, conversation_id_from_topic, build_conversation_from_topic}
use openclaw_bot_chat.Web.Agreed.{
  user, bot, peer, conversation_id_from_topic-agrees, build_conversation_from_topic-of_user,
}
use openclaw_bot_chat.Examples.{user_id, bot_id}

user-IsPart : IsPart user_id
unfolding is_truthy
user-IsPart = (refl, ground arith)

bot-IsPart : IsPart bot_id
unfolding is_truthy
bot-IsPart = (refl, ground arith)

conversation_id_from_topic-agrees_example :
    (conversation_id_from_topic (direct_topic (peer bot bot_id, peer user user_id))
      ≡ build_reply_topic (direct_topic (peer bot bot_id, peer user user_id)))
    × (conversation_id_from_topic (group_topic bot_id) ≡ build_reply_topic (group_topic bot_id))
conversation_id_from_topic-agrees_example =
    conversation_id_from_topic-agrees bot user bot_id user_id bot-IsPart user-IsPart

build_conversation_from_topic-of_user_example :
    ((c : Conversation) × (build_conversation_from_topic user_id [] []
          (direct_topic (peer user user_id, peer bot bot_id))
        ≡ some c)
      × (build_conversation_from_topic user_id [] []
            (direct_topic (peer bot bot_id, peer user user_id))
          ≡ some c)
      × (c.id ≡ direct_topic (peer user user_id, peer bot bot_id))
      × (c.send_topic ≡ canonical_direct_dialog_id (peer bot bot_id) (peer user user_id))
      × (c.target_id ≡ bot_id))
    × (build_conversation_from_topic
          (txt "u2")
          []
          []
          (direct_topic (peer user user_id, peer bot bot_id))
        ≡ none)
build_conversation_from_topic-of_user_example =
    build_conversation_from_topic-of_user user_id bot_id (txt "u2") [] [] user-IsPart bot-IsPart
      (ground arith)
