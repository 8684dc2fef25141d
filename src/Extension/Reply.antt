-- ===== src/Extension/Reply.antt =====
-- Replies of extensions/openclaw-bot-chat/src/channel.ts: `emitMessage`, `dispatchBotChatReply`,
-- `mergeBotChatReplyChunks`, `buildBotChatReplyMetadata`.
pub mod Ignored
pub mod Redirected
pub mod Sent
use openclaw_bot_chat.Base.{
  Bool, true, false, not, ◌&&◌, ◌||◌, Option, none, some, List, [], ◌∷◌, ◌++◌, Text, txt, text_eq,
  is_truthy, trim, keep, map, if◌then◌else◌,
}
use openclaw_bot_chat.Values.{Value, undefined, null, str, Fields, end, item, item_of, set_item}
use openclaw_bot_chat.Extension.Settings.{Language, ChannelMessage}
use openclaw_bot_chat.Extension.Messages.{or_empty, remove_item}
use openclaw_bot_chat.Extension.Effects.{ChannelRuntime, Run, finished, thrown, World}
use openclaw_bot_chat.Extension.Runtime.{send_to_channel}
use openclaw_bot_chat.Extension.Targets.{
  Kind, direct, channel, RecipientType, OutboundTarget, build_bot_chat_outbound_message_target,
}
use openclaw_bot_chat.Extension.Attachments.{ReplyContext, reply_context}

abbrev recipient_name : RecipientType → Text
recipient_name RecipientType.user = txt "user"
recipient_name RecipientType.group = txt "group"

abbrev kind_name : Kind → Text
kind_name direct = txt "direct"
kind_name channel = txt "channel"

-- `typeof value === "string" ? value.trim() : ""`
abbrev pub trimmed_text : Value → Text
trimmed_text (str t) = trim t
trimmed_text _ = []

abbrev is_last : Text → List Text → Bool
is_last text [] = false
is_last text (t ∷ []) = text_eq t text
is_last text (t ∷ u ∷ ts) = is_last text (u ∷ ts)

abbrev push_chunk : List Text → Text → List Text
push_chunk merged text =
    if not (is_truthy text) || is_last text merged then merged else merged ++ text ∷ []

unfoldable pub merge_chunks : List Text → List Text → List Text
merge_chunks merged [] = merged
merge_chunks merged (chunk ∷ chunks) = merge_chunks (push_chunk merged (trim chunk)) chunks

unfoldable pub join_with : Text → List Text → Text
join_with separator [] = []
join_with separator (t ∷ []) = t
join_with separator (t ∷ u ∷ ts) = t ++ (separator ++ join_with separator (u ∷ ts))

unfoldable pub merge_bot_chat_reply_chunks : List Text → Text
unfolding merge_chunks join_with
merge_bot_chat_reply_chunks chunks = trim (join_with (0x0a ∷ 0x0a ∷ []) (merge_chunks [] chunks))

-- The metadata without what is the message's own.
unfoldable pub reply_rest : Fields → Fields
unfolding remove_item
reply_rest metadata = remove_item (txt "senderType") (
    remove_item (txt "seq")
      (remove_item (txt "messageId") (remove_item (txt "message_id") metadata)))

abbrev pub or_text : Text → Text → Text
or_text a b = if is_truthy a then a else b

abbrev pub put_text : Text → Text → Fields → Fields
put_text key t fs = if is_truthy t then set_item key (str t) fs else fs

unfoldable pub build_bot_chat_reply_metadata : Option Fields → Fields
unfolding reply_rest
build_bot_chat_reply_metadata metadata =
    let rest = reply_rest (or_empty metadata) in
    let reply_to_id =
      or_text (trimmed_text (item (txt "replyToId") rest))
        (trimmed_text (item_of (txt "message_id") metadata)) in
    put_text (txt "replyToId") reply_to_id rest

-- `value ?? text`
abbrev pub or_else : Value → Text → Value
or_else undefined t = str t
or_else null t = str t
or_else v t = v

-- The message that is sent for a reply's text.
unfoldable pub reply_message : Text → ChannelMessage → Text → ChannelMessage
unfolding build_bot_chat_reply_metadata
reply_message bot_id message text = record {
  channel_id = message.channel_id;
  user_id = message.user_id;
  text = text;
  metadata = some (
      set_item (txt "publishTopic")
        (or_else (item_of (txt "topic") message.metadata) message.channel_id)
        (set_item (txt "toType") (str (txt "user"))
          (set_item (txt "botId") (str bot_id) (build_bot_chat_reply_metadata message.metadata))));
}

-- The message that the adapter sends to a target.
abbrev pub outbound_message : Text → Text → Option Fields → OutboundTarget → ChannelMessage
outbound_message bot_id text metadata target = record {
  channel_id = target.channel_id;
  user_id = target.user_id;
  text = text;
  metadata = some (
      set_item (txt "publishTopic") (str target.publish_topic) (
        set_item (txt "toType") (str (recipient_name target.recipient_type)) (
          set_item (txt "botId") (str bot_id) (
            set_item (txt "chatType") (str (kind_name target.chat_type))
              (set_item (txt "target") (str target.normalized_target) (or_empty metadata))))));
}

abbrev pub sent_to :
    World → Text → Text → Option Fields → ChannelRuntime → Option OutboundTarget → Run
sent_to w bot_id text metadata s none = thrown s []
sent_to w bot_id text metadata s (some target) =
    send_to_channel w (outbound_message bot_id text metadata target) s

-- `sendText` of the adapter.
unfoldable pub send_text : World → Text → Text → Text → Option Fields → ChannelRuntime → Run
send_text w bot_id to text metadata s =
    sent_to w bot_id text metadata s (build_bot_chat_outbound_message_target bot_id metadata to)

-- The host's dispatcher: the texts of the payloads that it delivers, in order, or `none` if it
-- throws.
abbrev pub Dispatcher : Type 0
Dispatcher = ReplyContext → Option (List Value)

module _ (w : World) (l : Language) (bot_id : Text) where
  abbrev pub send_reply : ChannelMessage → ChannelRuntime → Text → Run
  send_reply message s text =
      if is_truthy text
      then send_to_channel w (reply_message bot_id message text) s
      else finished s []

  abbrev pub reply_delivered : ChannelMessage → ChannelRuntime → Option (List Value) → Run
  reply_delivered message s none = thrown s []
  reply_delivered message s (some vs) =
      send_reply message s (merge_bot_chat_reply_chunks (keep is_truthy (map trimmed_text vs)))

  abbrev pub dispatch_with : Option Dispatcher → ChannelMessage → ChannelRuntime → Run
  dispatch_with none message s = finished s []
  dispatch_with (some dispatch) message s =
      reply_delivered message s (dispatch (reply_context l bot_id message))

  unfoldable pub dispatch_bot_chat_reply : Option Dispatcher → ChannelMessage → ChannelRuntime → Run
  unfolding merge_bot_chat_reply_chunks reply_message
  dispatch_bot_chat_reply dispatcher message s = dispatch_with dispatcher message s

  abbrev pub is_bot : Value → Bool
  is_bot (str t) = text_eq t (txt "bot")
  is_bot _ = false

  -- The hook that the channel gives to its runtime.
  unfoldable pub emit_message : Option Dispatcher → ChannelMessage → ChannelRuntime → Run
  unfolding dispatch_bot_chat_reply
  emit_message dispatcher message s =
      if is_bot (item_of (txt "senderType") message.metadata)
      then finished s []
      else dispatch_bot_chat_reply dispatcher message s
