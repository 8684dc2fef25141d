-- ===== src/Types.antt =====
-- The data of plugins/openclaw-bot-chat/src/types/index.ts and types/channel.ts that the other
-- parts pass around.
use openclaw_bot_chat.Base.{
  ℤ, Option, none, some, List, Text, txt, text_eq, if◌then◌else◌, Bool, false,
}
use openclaw_bot_chat.Values.{Fields}
use openclaw_bot_chat.Permissions.{ChannelType, AllowList, GroupPolicy, ActionPermissions}

pub data ContentType : Type 0 where
  text image file : ContentType

pub data SenderType : Type 0 where
  user bot system : SenderType

pub data RouteTargetType : Type 0 where
  user bot system group channel : RouteTargetType

pub record BotChatMessage : Type 0 where
  pub message_id : Text
  pub dialog_id : Text
  pub from_type : SenderType
  pub from_id : Text
  pub to_type : Option RouteTargetType
  pub to_id : Option Text
  pub content_type : ContentType
  pub body : Text
  pub meta : Option Fields
  pub timestamp : ℤ
  pub seq : Option ℤ

pub record GroupInfo : Type 0 where
  pub id : Text
  pub topic : Option Text

pub record ConversationInfo : Type 0 where
  pub conversation_id : Text
  pub topic : Option Text
  pub title : Option Text
  pub last_seq : Option ℤ
  pub last_message_id : Option Text
  pub updated_at : Option ℤ

pub record Subscription : Type 0 where
  pub topic : Text
  pub qos : Option ℤ

pub record Checkpoint : Type 0 where
  pub dialog_id : Text
  pub last_seq : Option ℤ
  pub last_message_id : Option Text
  pub session_id : Option Text
  pub updated_at : Option ℤ

pub record BrokerInfo : Type 0 where
  pub tcp_url : Text
  pub ws_url : Option Text
  pub qos : Option ℤ

pub record BootstrapResponse : Type 0 where
  pub bot_id : Text
  pub broker : BrokerInfo
  pub client_id : Text
  pub groups : List GroupInfo
  pub conversations : List ConversationInfo
  pub subscriptions : List Subscription
  pub publish_topics : List Text
  pub max_catchup_batch : Option ℤ

pub record OpenClawAttachment : Type 0 where
  pub kind : Text
  pub url : Text
  pub name : Option Text
  pub mime_type : Option Text
  pub size : Option ℤ
  pub asset : Option Fields

pub record OpenClawRequest : Type 0 where
  pub session_id : Text
  pub content : Text
  pub attachments : List OpenClawAttachment
  pub metadata : Fields

pub record OpenClawResponse : Type 0 where
  pub content : Text
  pub metadata : Option Fields

pub record BotChatOutgoingMessage : Type 0 where
  pub message_id : Text
  pub topic : Text
  pub conversation_id : Text
  pub from_type : SenderType
  pub from_id : Text
  pub to_type : Option RouteTargetType
  pub to_id : Option Text
  pub content_type : ContentType
  pub body : Text
  pub meta : Option Fields
  pub timestamp : ℤ

pub record ChannelContext : Type 0 where
  pub id : Text
  pub kind : ChannelType
  pub bot_id : Text
  pub user_id : Option Text
  pub guild_id : Option Text
  pub group_id : Option Text

-- `BotConfig` of config.ts, as `ResolvedBotConfig` extends it.
pub record BotConfig : Type 0 where
  pub id : Option Text
  pub access_key : Text
  pub enabled : Bool
  pub channels : Option AllowList
  pub users : Option AllowList
  pub group_policy : Option GroupPolicy
  pub actions : Option ActionPermissions

abbrev pub sender_name : SenderType → Text
sender_name SenderType.user = txt "user"
sender_name SenderType.bot = txt "bot"
sender_name SenderType.system = txt "system"

abbrev pub target_name : RouteTargetType → Text
target_name RouteTargetType.user = txt "user"
target_name RouteTargetType.bot = txt "bot"
target_name RouteTargetType.system = txt "system"
target_name RouteTargetType.group = txt "group"
target_name RouteTargetType.channel = txt "channel"

abbrev pub content_name : ContentType → Text
content_name ContentType.text = txt "text"
content_name ContentType.image = txt "image"
content_name ContentType.file = txt "file"

abbrev pub as_target : SenderType → RouteTargetType
as_target SenderType.user = RouteTargetType.user
as_target SenderType.bot = RouteTargetType.bot
as_target SenderType.system = RouteTargetType.system

abbrev pub is_text : Option Text → Text → Bool
is_text none name = false
is_text (some t) name = text_eq t name

unfoldable pub normalize_sender_type : Option Text → SenderType
normalize_sender_type value =
    if is_text value (txt "bot")
    then SenderType.bot
    else if is_text value (txt "system")
    then SenderType.system
    else SenderType.user

unfoldable pub normalize_recipient_type : Option Text → Option RouteTargetType
normalize_recipient_type value =
    if is_text value (txt "user")
    then some RouteTargetType.user
    else if is_text value (txt "bot")
    then some RouteTargetType.bot
    else if is_text value (txt "system")
    then some RouteTargetType.system
    else if is_text value (txt "group")
    then some RouteTargetType.group
    else if is_text value (txt "channel")
    then some RouteTargetType.channel
    else none

unfoldable pub normalize_content_type : Option Text → ContentType
normalize_content_type value =
    if is_text value (txt "image")
    then ContentType.image
    else if is_text value (txt "file")
    then ContentType.file
    else ContentType.text
