-- ===== src/Router/Context.antt =====
-- `resolveChannelContextFromDialog` and `routeIncomingMessage` of router/message.ts.
use openclaw_bot_chat.Base.{Option, none, some, get_or, Text, txt, is_truthy, if◌then◌else◌}
use openclaw_bot_chat.Values.{Fields, ◌<|>◌}
use openclaw_bot_chat.Topics.{parse_route, is_kind}
use openclaw_bot_chat.Permissions.{
  ChannelType, Action, ActionPermissions, PartialActions, PermissionCheck, PermissionContext,
  PermissionScopedBotConfig, allow_list_value, check_permission,
}
use openclaw_bot_chat.Types.{BotChatMessage, ChannelContext, BotConfig}
use openclaw_bot_chat.Router.Inbound.{text_of}

abbrev context : Text → ChannelType → Text → ChannelContext
context id kind bot_id = record {
  id = id;
  kind = kind;
  bot_id = bot_id;
  user_id = none;
  guild_id = none;
  group_id = none;
}

unfoldable pub direct_context : Text → Text → Option Text → ChannelContext
direct_context dialog_id bot_id (some user) = record (context user ChannelType.dm bot_id) {
  user_id = some user;
}
direct_context dialog_id bot_id none = context dialog_id ChannelType.channel bot_id

abbrev pub user_peer : Option Text → Option Text → Option Text
user_peer kind id = if is_kind kind (txt "user") then id else none

unfoldable pub channel_context :
    Text → Text → Option Text → Option Text → Option Text → ChannelContext
channel_context dialog_id bot_id none none user = direct_context dialog_id bot_id user
channel_context dialog_id bot_id (some guild) channel user =
    record (context (get_or channel dialog_id) ChannelType.channel bot_id) { guild_id = some guild }
channel_context dialog_id bot_id none (some channel) user =
    context channel ChannelType.channel bot_id

unfoldable pub group_context :
    Text → Text → Option Text → Option Text → Option Text → Option Text → ChannelContext
group_context dialog_id bot_id (some group) guild channel user =
    record (context group ChannelType.group bot_id) { group_id = some group }
group_context dialog_id bot_id none guild channel user =
    channel_context dialog_id bot_id guild channel user

-- The branches by group, by channel or guild, and by user are the three helpers above.
unfoldable pub resolve_channel_context_from_dialog :
    Text → Text → Option Fields → Option Text → ChannelContext
unfolding group_context channel_context direct_context
resolve_channel_context_from_dialog dialog_id bot_id metadata fallback_user_id =
    let route = parse_route (get_or (text_of (txt "topic") metadata) dialog_id) in
    group_context dialog_id bot_id (text_of (txt "group_id") metadata <|> route.group_id)
      (text_of (txt "guild_id") metadata <|> route.guild_id)
      (text_of (txt "channel_id") metadata <|> route.channel_id)
      (text_of (txt "user_id") metadata
        <|> user_peer route.from_type route.from_id
        <|> user_peer route.to_type route.to_id
        <|> fallback_user_id)

unfoldable pub resolve_channel_context : BotChatMessage → Text → ChannelContext
resolve_channel_context message bot_id =
    resolve_channel_context_from_dialog message.dialog_id bot_id message.meta (some message.from_id)

pub record IncomingMessageRoute : Type 0 where
  pub action : Action
  pub channel : ChannelContext
  pub permission : PermissionCheck

-- A complete record of switches, where a partial one is allowed.
abbrev pub all_given : ActionPermissions → PartialActions
all_given p = record {
  send_message = some p.send_message;
  send_image = some p.send_image;
  typing = some p.typing;
  reactions = some p.reactions;
  threads = some p.threads;
}

abbrev pub partial_actions : Option ActionPermissions → Option PartialActions
partial_actions none = none
partial_actions (some p) = some (all_given p)

abbrev pub permission_context : BotChatMessage → Text → ChannelContext → PermissionContext
permission_context message bot_id channel = record {
  user_id = message.from_id;
  channel_id = channel.id;
  bot_id = bot_id;
  user_name = text_of (txt "user_name") message.meta <|> text_of (txt "from_name") message.meta;
  channel_name =
      text_of (txt "channel_name") message.meta <|> text_of (txt "group_name") message.meta;
  channel_type = some channel.kind;
}

abbrev id_or : Option Text → Text → Text
id_or none bot_id = bot_id
id_or (some t) bot_id = if is_truthy t then t else bot_id

-- `{ ...config, ...(config.id ? {} : { id: botId }) }`
abbrev pub scoped_config : BotConfig → Text → PermissionScopedBotConfig
scoped_config config bot_id = record {
  id = some (id_or config.id bot_id);
  enabled = config.enabled;
  channels = allow_list_value config.channels;
  users = allow_list_value config.users;
  group_policy = config.group_policy;
  actions = partial_actions config.actions;
}

unfoldable pub route_incoming_message :
    (Text → Text) → BotChatMessage → Text → BotConfig → IncomingMessageRoute
route_incoming_message lower message bot_id config =
    let channel = resolve_channel_context message bot_id in
    record {
      action = Action.send_message;
      channel = channel;
      permission =
          check_permission lower Action.send_message (permission_context message bot_id channel)
            (scoped_config config bot_id);
    }
