-- ===== src/Examples.antt =====
-- Concrete inputs for the theorems: a user, a bot and its runtime.
mod Brokered
mod Fleet
pub mod Extended
mod Restarted
mod Web
pub mod Configured
mod Permitted
mod Topics
mod Router
mod Stores
mod Handling
mod Running
mod Queueing
use openclaw_bot_chat.Base.{
  ℕ, ℤ, pos, Bool, true, false, Option, none, some, List, [], ◌∷◌, Text, txt,
}
use openclaw_bot_chat.Values.{Value, str, obj, Fields, field, single}
use openclaw_bot_chat.Types.{
  SenderType, RouteTargetType, ContentType, BotChatMessage, BotConfig, BootstrapResponse,
  BrokerInfo, ConversationInfo, GroupInfo, Subscription, OpenClawRequest, OpenClawResponse,
}
use openclaw_bot_chat.Stores.{Result, done, thrown}
use openclaw_bot_chat.Runtime.State.{Host, Setup, Runtime, fetched}

abbrev pub user_id : Text
user_id = txt "u1"

abbrev pub bot_id : Text
bot_id = txt "b1"

-- A host's `toLocaleLowerCase` that knows no capital letters.
abbrev pub lower : Text → Text
lower t = t

abbrev pub date_parse : Text → Option ℤ
date_parse t = none

abbrev pub dialog : Text
dialog = txt "chat/dm/user/u1/bot/b1"

abbrev pub hello : BotChatMessage
hello = record {
  message_id = txt "m1";
  dialog_id = dialog;
  from_type = SenderType.user;
  from_id = user_id;
  to_type = some RouteTargetType.bot;
  to_id = some bot_id;
  content_type = ContentType.text;
  body = txt "hi";
  meta = none;
  timestamp = pos 5;
  seq = some (pos 7);
}

abbrev pub answer : OpenClawResponse
answer = record { content = txt "yes"; metadata = none }

abbrev pub bootstrap : BootstrapResponse
bootstrap = record {
  bot_id = bot_id;
  broker = record { tcp_url = txt "mqtt://h"; ws_url = none; qos = none };
  client_id = txt "c";
  groups = record { id = txt "g1"; topic = none } ∷ [];
  conversations =
      record {
        conversation_id = dialog;
        topic = none;
        title = none;
        last_seq = some (pos 3);
        last_message_id = none;
        updated_at = none;
      }
      ∷ [];
  subscriptions = record { topic = dialog; qos = some (pos 2) } ∷ [];
  publish_topics = [];
  max_catchup_batch = none;
}

-- A host that answers each call the same way, with a clock that counts the calls.
abbrev pub host : Host
host = record {
  bootstrap = λ tick. done bootstrap;
  connect_fails = λ tick. false;
  close_fails = λ tick. false;
  now = λ tick. pos tick;
  uuid = λ tick. txt "uuid";
  write_fails = λ tick. false;
  publish_fails = λ tick. false;
  respond = λ tick request. done answer;
  approver = none;
  fetch = λ tick dialog_id after limit. fetched [];
  date_parse = date_parse;
  lower = lower;
}

abbrev pub config : BotConfig
config = record {
  id = some bot_id;
  access_key = txt "k";
  enabled = true;
  channels = none;
  users = none;
  group_policy = none;
  actions = none;
}

abbrev pub setup : Setup
setup = record { bot_config = config; permission_denied_reply = some (txt "no") }

abbrev pub closed_setup : Setup
closed_setup = record {
  bot_config = record config { enabled = false };
  permission_denied_reply = some (txt "no");
}

abbrev pub idle : Runtime
idle = record {
  bot_id = some bot_id;
  bootstrap = some bootstrap;
  connected = true;
  stopped = false;
  channels = [];
  sessions = record { entries = []; file = none };
  checkpoints = record { entries = []; file = none };
  processed = [];
  tick = 1;
  asked = [];
  published = [];
}
