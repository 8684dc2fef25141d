-- ===== src/Extension/Messages.antt =====
-- Messages of extensions/openclaw-bot-chat/src/runtime.ts: `toInboundMessage` and
-- `buildBotChatOutboundPayload`. A payload is the value that `JSON.stringify` writes.
pub mod Echo
pub mod Overrides
use openclaw_bot_chat.Base.{
  ℤ, Bool, true, false, Option, none, some, get_or, List, [], ◌∷◌, Text, txt, text_eq,
  if◌then◌else◌,
}
use openclaw_bot_chat.Values.{
  Value, undefined, num, str, obj, Fields, end, field, item, item_of, set_item, single, read_record,
  read_string, merge_into, ◌<|>◌,
}
use openclaw_bot_chat.Extension.Settings.{Language, ChannelMessage, default_account_id, read_number}

-- `...(value ? { [key]: value } : {})`, which replaces the property if it is there.
abbrev pub put_if {ℓ} : {A : Type ℓ} → Text → (A → Value) → Option A → Fields → Fields
put_if key wrap none fs = fs
put_if key wrap (some a) fs = set_item key (wrap a) fs

-- `...(record ?? {})`
abbrev pub put_all : Option Fields → Fields → Fields
put_all none fs = fs
put_all (some given) fs = merge_into fs given

abbrev pub text_at : Text → Option Fields → Option Text
text_at key fs = read_string (item_of key fs)

-- What `toInboundMessage` reads out of a payload.
pub record Read : Type 0 where
  pub channel_id : Text
  pub from_type : Option Text
  pub content_type : Option Text
  pub content_meta : Option Fields
  pub message_id : Option Text
  pub seq : Option ℤ
  pub user_id : Option Text
  pub text : Option Text
  pub thread_id : Option Text
  pub reply_to_id : Option Text

-- The properties in front of those of the content's metadata, and those behind.
unfoldable pub inbound_metadata : Read → Text → Fields
inbound_metadata r topic = put_if (txt "replyToId") str r.reply_to_id (
    put_if (txt "threadId") str r.thread_id (
      put_all r.content_meta (
        put_if (txt "seq") num r.seq (
          put_if (txt "message_id") str r.message_id (
            put_if (txt "content_type") str r.content_type
              (put_if (txt "senderType") str r.from_type (single (txt "topic") (str topic))))))))

abbrev pub inbound_of : Read → Text → Option Text → Option Text → Option ChannelMessage
inbound_of r topic (some user_id) (some text) = some (record {
  channel_id = r.channel_id;
  user_id = user_id;
  text = text;
  metadata = some (inbound_metadata r topic);
})
inbound_of r topic _ _ = none

module _ (l : Language) where
  unfoldable pub read_message : Fields → Text → Read
  read_message raw topic =
      let from = read_record (item (txt "from") raw) in
      let content = read_record (item (txt "content") raw) in
      let content_meta = read_record (item_of (txt "meta") content) in
      record {
        channel_id =
            get_or
              (text_at (txt "conversation_id") (some raw) <|> text_at (txt "dialog_id") (some raw))
              topic;
        from_type = text_at (txt "type") from <|> text_at (txt "sender_type") (some raw);
        content_type =
            text_at (txt "type") content
            <|> (text_at (txt "content_type") (some raw) <|> text_at (txt "msg_type") (some raw));
        content_meta = content_meta;
        message_id = text_at (txt "id") (some raw) <|> text_at (txt "message_id") (some raw);
        seq = read_number l (item (txt "seq") raw);
        user_id = text_at (txt "id") from <|> text_at (txt "from_id") (some raw);
        text =
            text_at (txt "body") content
            <|> (text_at (txt "text") content
                <|> (text_at (txt "body") (some raw) <|> text_at (txt "text") (some raw)));
        thread_id =
            text_at (txt "thread_id") (some raw)
            <|> (text_at (txt "threadId") content_meta <|> text_at (txt "thread_id") content_meta);
        reply_to_id =
            text_at (txt "reply_to_id") (some raw)
            <|> (text_at (txt "replyToId") content_meta
                <|> text_at (txt "reply_to_id") content_meta);
      }

  unfoldable pub to_inbound_message : Value → Text → Option ChannelMessage
  unfolding read_message inbound_metadata
  to_inbound_message (obj raw) topic =
      let r = read_message raw topic in inbound_of r topic r.user_id r.text
  to_inbound_message _ topic = none

-- `const { [key]: _, ...rest } = record`
unfoldable pub remove_item : Text → Fields → Fields
remove_item key end = end
remove_item key (field j v fs) =
    let rest = remove_item key fs in if text_eq j key then rest else field j v rest

unfoldable pub omit_bot_chat_internal_metadata : Fields → Fields
unfolding remove_item
omit_bot_chat_internal_metadata metadata =
    remove_item (txt "publishTopic")
      (remove_item (txt "toType") (remove_item (txt "botId") metadata))

abbrev pub or_empty : Option Fields → Fields
or_empty none = end
or_empty (some fs) = fs

abbrev pub spread_text : Text → Option Text → Fields → Fields
spread_text key none rest = rest
spread_text key (some t) rest = field key (str t) rest

-- `uuid` is the fresh identifier, `now` the time in seconds.
unfoldable pub build_bot_chat_outbound_payload : Text → ℤ → ChannelMessage → Fields
unfolding omit_bot_chat_internal_metadata
build_bot_chat_outbound_payload uuid now message =
    let meta = message.metadata in
    let message_id =
      get_or (text_at (txt "message_id") meta <|> text_at (txt "messageId") meta) uuid in
    let bot_id = get_or (text_at (txt "botId") meta) default_account_id in
    let to_type = get_or (text_at (txt "toType") meta) (txt "user") in
    let content_meta =
      set_item (txt "message_id") (str message_id)
        (omit_bot_chat_internal_metadata (or_empty meta)) in
    let to = field (txt "type") (str to_type) (single (txt "id") (str message.user_id)) in
    let content =
      field (txt "type") (str (txt "text"))
        (field (txt "body") (str message.text) (single (txt "meta") (obj content_meta))) in
    let sender = field (txt "type") (str (txt "bot")) (single (txt "id") (str bot_id)) in
    let rest = field (txt "from") (obj sender) (
      field (txt "to") (obj to)
        (field (txt "content") (obj content) (single (txt "timestamp") (num now)))) in
    field (txt "id") (str message_id) (
      field (txt "conversation_id") (str message.channel_id) (
        spread_text (txt "thread_id") (text_at (txt "threadId") meta)
          (spread_text (txt "reply_to_id") (text_at (txt "replyToId") meta) rest)))
