-- ===== src/Router/Direct.antt =====
-- The context of a direct dialog between a user and a bot.
use openclaw_bot_chat.Base.{◌≡◌, refl, Option, none, some, Text, txt, text_eq, is_truthy, arith}
use openclaw_bot_chat.Values.{read_string}
use openclaw_bot_chat.Permissions.{ChannelType}
use openclaw_bot_chat.Topics.{Peer, present, direct_route, direct_topic}
use openclaw_bot_chat.Topics.Reply.{IsPart, parse_route-direct_topic}
use openclaw_bot_chat.Types.{ChannelContext}
use openclaw_bot_chat.Router.Context.{
  direct_context, channel_context, group_context, resolve_channel_context_from_dialog,
}

abbrev pub user_peer_of : Text → Peer
user_peer_of id = record { kind = txt "user"; id = id }

abbrev pub bot_peer_of : Text → Peer
bot_peer_of id = record { kind = txt "bot"; id = id }

-- The context of a user who talks to a bot directly.
abbrev pub dm : Text → Text → ChannelContext
dm user bot = record {
  id = user;
  kind = ChannelType.dm;
  bot_id = bot;
  user_id = some user;
  guild_id = none;
  group_id = none;
}

present_of_part : (t : Text) → IsPart t → present t ≡ some t
unfolding present
present_of_part t h = ground arith

user-IsPart : IsPart (txt "user")
unfolding is_truthy
user-IsPart = (refl, ground arith)

bot-IsPart : IsPart (txt "bot")
unfolding is_truthy
bot-IsPart = (refl, ground arith)

resolve_from_user :
    (user bot : Text) (fallback : Option Text)
    → IsPart user
    → IsPart bot
    → resolve_channel_context_from_dialog
        (direct_topic (user_peer_of user, bot_peer_of bot))
        bot
        none
        fallback
      ≡ dm user bot
unfolding resolve_channel_context_from_dialog group_context channel_context direct_context
    direct_route read_string text_eq
resolve_from_user user bot fallback u b =
    rw
      (
        parse_route-direct_topic (user_peer_of user) (bot_peer_of bot) (user-IsPart, u)
            (bot-IsPart, b),
        present_of_part (txt "user") user-IsPart,
        present_of_part (txt "bot") bot-IsPart,
        present_of_part user u,
      )
      refl

resolve_from_bot :
    (user bot : Text) (fallback : Option Text)
    → IsPart user
    → IsPart bot
    → resolve_channel_context_from_dialog
        (direct_topic (bot_peer_of bot, user_peer_of user))
        bot
        none
        fallback
      ≡ dm user bot
unfolding resolve_channel_context_from_dialog group_context channel_context direct_context
    direct_route read_string text_eq
resolve_from_bot user bot fallback u b =
    rw
      (
        parse_route-direct_topic (bot_peer_of bot) (user_peer_of user) (bot-IsPart, b)
            (user-IsPart, u),
        present_of_part (txt "user") user-IsPart,
        present_of_part (txt "bot") bot-IsPart,
        present_of_part user u,
      )
      refl

-- A direct dialog of a user and a bot is the user's direct context, in whichever order its topic
-- names the two and whoever sent the message; the two identifiers are parts of a topic.
pub resolve_direct_dialog :
    (user bot : Text) (fallback : Option Text)
    → IsPart user
    → IsPart bot
    → (resolve_channel_context_from_dialog
          (direct_topic (user_peer_of user, bot_peer_of bot))
          bot
          none
          fallback
        ≡ dm user bot)
      × (resolve_channel_context_from_dialog
            (direct_topic (bot_peer_of bot, user_peer_of user))
            bot
            none
            fallback
          ≡ dm user bot)
resolve_direct_dialog user bot fallback u b =
    (resolve_from_user user bot fallback u b, resolve_from_bot user bot fallback u b)
