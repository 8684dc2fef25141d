-- ===== src/Extension/Reply/Redirected.antt =====
-- Where a reply goes: channel.ts and runtime.ts of the extension.
use openclaw_bot_chat.Base.{
  ◌≡◌, refl, ◌∙◌, true, false, Option, none, some, arith, Text, txt, text_eq, text_eq_iff,
}
use openclaw_bot_chat.Values.{str, obj, Fields, end, field, item, item_of, has_item, read_record}
use openclaw_bot_chat.Values.Laws.{IsClean, item-set_item, read_string_of_IsClean}
use openclaw_bot_chat.Extension.Settings.{Language, ChannelMessage}
use openclaw_bot_chat.Extension.Messages.{remove_item, to_inbound_message}
use openclaw_bot_chat.Extension.Messages.Overrides.{AreDistinct, to_inbound_message-meta_wins}
use openclaw_bot_chat.Extension.Effects.{ChannelRuntime, World}
use openclaw_bot_chat.Extension.Runtime.{resolve_publish_topic}
use openclaw_bot_chat.Extension.Reply.{
  put_text, reply_rest, build_bot_chat_reply_metadata, reply_message,
}

item-remove_item :
    (k j : Text) (fs : Fields) → text_eq k j ≡ false → item j (remove_item k fs) ≡ item j fs
unfolding item remove_item
item-remove_item k j end h = refl
item-remove_item k j (field i v fs) h =
    ground (arith, item-remove_item k j fs, text_eq_iff i k, text_eq_iff i j, text_eq_iff k j)

item-put_text :
    (k key t : Text) (fs : Fields) → text_eq key k ≡ false → item k (put_text key t fs) ≡ item k fs
item-put_text k key t fs h = ground (arith, item-set_item key k (str t) fs)

abbrev topic_key : Text
topic_key = txt "topic"

item-reply_rest : (fs : Fields) → item topic_key (reply_rest fs) ≡ item topic_key fs
unfolding reply_rest text_eq
item-reply_rest fs =
    rw
      (
        item-remove_item (txt "senderType") topic_key _ refl,
        item-remove_item (txt "seq") topic_key _ refl,
        item-remove_item (txt "messageId") topic_key _ refl,
        item-remove_item (txt "message_id") topic_key fs refl,
      )
      refl

item-reply_metadata :
    (meta : Option Fields)
    → item topic_key (build_bot_chat_reply_metadata meta) ≡ item_of topic_key meta
unfolding build_bot_chat_reply_metadata text_eq item
item-reply_metadata none =
    item-put_text topic_key (txt "replyToId") _ (reply_rest end) refl ∙ item-reply_rest end
item-reply_metadata (some fs) =
    item-put_text topic_key (txt "replyToId") _ (reply_rest fs) refl ∙ item-reply_rest fs

item-reply_message :
    (bot_id text : Text) (m : ChannelMessage)
    → item_of topic_key (reply_message bot_id m text).metadata ≡ item_of topic_key m.metadata
unfolding reply_message text_eq
item-reply_message bot_id text m =
    rw
      (
        item-set_item (txt "publishTopic") topic_key,
        item-set_item (txt "toType") topic_key,
        item-set_item (txt "botId") topic_key,
      )
      (item-reply_metadata m.metadata)

module _ (w : World) (l : Language) (bot_id text : Text) (s : ChannelRuntime) where
  topic_of_reply :
      (m : ChannelMessage) (t : Text)
      → IsClean t
      → item_of topic_key m.metadata ≡ str t
      → resolve_publish_topic w (reply_message bot_id m text) s ≡ some t
  unfolding resolve_publish_topic
  topic_of_reply m t c e =
      rw (item-reply_message bot_id text m ∙ e, read_string_of_IsClean t c) refl

  -- The sender of a message chooses the topic of the reply: it goes where the metadata in the
  -- message's content say, and not to the conversation that the message came from, if these name a
  -- topic that is trimmed and not empty, and list no property twice.
  pub reply_message-redirected :
      (raw meta : Fields) (received t : Text) {m : ChannelMessage}
      → to_inbound_message l (obj raw) received ≡ some m
      → read_record (item_of (txt "meta") (read_record (item (txt "content") raw))) ≡ some meta
      → AreDistinct meta
      → has_item (txt "topic") meta ≡ true
      → item (txt "topic") meta ≡ str t
      → IsClean t
      → resolve_publish_topic w (reply_message bot_id m text) s ≡ some t
  reply_message-redirected raw meta received t {m} e c d h i clean = topic_of_reply m t clean (
      to_inbound_message-meta_wins l raw meta received topic_key e c d h (ground arith)
        (ground arith)
      ∙ i)
