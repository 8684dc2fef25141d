-- ===== src/Extension/Messages/Echo.antt =====
-- What the extension sends comes back to it as a message of the bot: runtime.ts and channel.ts.
use openclaw_bot_chat.Base.{
  ◌≡◌, refl, ◌∙◌, false, ◌||◌, Option, none, some, get_or, arith, Text, txt, text_eq, text_eq_iff,
  ℤ, is_truthy, trim, trim_start, trim_end, is_space,
}
use openclaw_bot_chat.Values.{
  Value, str, num, obj, Fields, end, field, item, item_of, set_item, has_item, single, read_record,
  read_string, ◌<|>◌,
}
use openclaw_bot_chat.Values.Laws.{
  IsClean, item-set_item, item-merge_into, read_string-IsClean, read_string_of_IsClean,
}
use openclaw_bot_chat.Extension.Settings.{Language, ChannelMessage, default_account_id}
use openclaw_bot_chat.Extension.Messages.{
  text_at, Read, read_message, inbound_metadata, to_inbound_message, remove_item,
  omit_bot_chat_internal_metadata, or_empty, spread_text, build_bot_chat_outbound_payload,
}
use openclaw_bot_chat.Extension.Messages.Overrides.{item-put_if}

pub has_item-set_item :
    (k j : Text) (v : Value) (fs : Fields)
    → has_item j (set_item k v fs) ≡ (text_eq k j || has_item j fs)
unfolding has_item set_item
has_item-set_item k j v end = ground arith
has_item-set_item k j v (field i w fs) =
    ground (arith, text_eq_iff k j, text_eq_iff i k, text_eq_iff i j, has_item-set_item k j v fs)

pub has_item-remove_item :
    (k j : Text) (fs : Fields) → has_item j fs ≡ false → has_item j (remove_item k fs) ≡ false
unfolding has_item remove_item
has_item-remove_item k j end h = refl
has_item-remove_item k j (field i w fs) h = ground (arith, has_item-remove_item k j fs)

item-spread_text :
    (k key : Text) (o : Option Text) (rest : Fields)
    → text_eq key k ≡ false
    → item k (spread_text key o rest) ≡ item k rest
unfolding item
item-spread_text k key none rest h = refl
item-spread_text k key (some t) rest h = rw h

abbrev pub sender_type : Text
sender_type = txt "senderType"

-- The type of a sender in the metadata, if the content's metadata have none.
inbound_metadata-sender_type :
    (r : Read) (topic kind : Text) (meta : Fields)
    → r.content_meta ≡ some meta
    → has_item sender_type meta ≡ false
    → r.from_type ≡ some kind
    → item sender_type (inbound_metadata r topic) ≡ str kind
unfolding inbound_metadata text_eq
inbound_metadata-sender_type r topic kind meta e h f =
    rw
      (
        item-put_if sender_type (txt "replyToId") str r.reply_to_id _ refl,
        item-put_if sender_type (txt "threadId") str r.thread_id _ refl,
        e,
        item-merge_into sender_type _ meta h,
        item-put_if sender_type (txt "seq") num r.seq _ refl,
        item-put_if sender_type (txt "message_id") str r.message_id _ refl,
        item-put_if sender_type (txt "content_type") str r.content_type _ refl,
        f,
      )
      (item-set_item sender_type sender_type (str kind) (single (txt "topic") (str topic)))

has_item-omit :
    (fs : Fields)
    → has_item sender_type fs ≡ false
    → has_item sender_type (omit_bot_chat_internal_metadata fs) ≡ false
unfolding omit_bot_chat_internal_metadata
has_item-omit fs h = has_item-remove_item (txt "publishTopic") sender_type _ (
    has_item-remove_item (txt "toType") sender_type _
      (has_item-remove_item (txt "botId") sender_type fs h))

module _ (uuid : Text) (now : ℤ) (m : ChannelMessage) where
  abbrev pub bot_of : Text
  bot_of = get_or (text_at (txt "botId") m.metadata) default_account_id

  abbrev pub content_meta_of : Fields
  content_meta_of =
      let message_id =
        get_or (text_at (txt "message_id") m.metadata <|> text_at (txt "messageId") m.metadata)
          uuid in
      set_item (txt "message_id") (str message_id)
        (omit_bot_chat_internal_metadata (or_empty m.metadata))

  abbrev pub sent : Fields
  sent = build_bot_chat_outbound_payload uuid now m

  pub sent-from :
      item (txt "from") sent
      ≡ obj (field (txt "type") (str (txt "bot")) (single (txt "id") (str bot_of)))
  unfolding build_bot_chat_outbound_payload item text_eq
  sent-from =
      rw
        (
          item-spread_text (txt "from") (txt "thread_id") _ _ refl,
          item-spread_text (txt "from") (txt "reply_to_id") _ _ refl,
        )
        refl

  pub sent-content :
      item (txt "content") sent
      ≡ obj (
          field
            (txt "type")
            (str (txt "text"))
            (field (txt "body") (str m.text) (single (txt "meta") (obj content_meta_of))))
  unfolding build_bot_chat_outbound_payload item text_eq
  sent-content =
      rw
        (
          item-spread_text (txt "content") (txt "thread_id") _ _ refl,
          item-spread_text (txt "content") (txt "reply_to_id") _ _ refl,
        )
        refl

  pub sent-to :
      item (txt "to") sent
      ≡ obj (
          field
            (txt "type")
            (str (get_or (text_at (txt "toType") m.metadata) (txt "user")))
            (single (txt "id") (str m.user_id)))
  unfolding build_bot_chat_outbound_payload item text_eq
  sent-to =
      rw
        (
          item-spread_text (txt "to") (txt "thread_id") _ _ refl,
          item-spread_text (txt "to") (txt "reply_to_id") _ _ refl,
        )
        refl

  pub sent-channel : item (txt "conversation_id") sent ≡ str m.channel_id
  unfolding build_bot_chat_outbound_payload item text_eq
  sent-channel = refl

  module _ (l : Language) (topic : Text) where
    abbrev read_back : Read
    read_back = read_message l sent topic

    read-from_type : read_back.from_type ≡ some (txt "bot")
    unfolding read_message item text_eq read_record read_string is_truthy trim trim_start trim_end
        is_space
    read-from_type = rw sent-from refl

    read-user_id : IsClean bot_of → read_back.user_id ≡ some bot_of
    unfolding read_message item text_eq read_record
    read-user_id b = rw (sent-from, read_string_of_IsClean bot_of b) refl

    read-text : IsClean m.text → read_back.text ≡ some m.text
    unfolding read_message item text_eq read_record
    read-text t = rw (sent-content, read_string_of_IsClean m.text t) refl

    read-channel_id : IsClean m.channel_id → read_back.channel_id ≡ m.channel_id
    unfolding read_message item text_eq
    read-channel_id c = rw (sent-channel, read_string_of_IsClean m.channel_id c) refl

    read-content_meta : read_back.content_meta ≡ some content_meta_of
    unfolding read_message item text_eq read_record
    read-content_meta = rw sent-content refl

    content_meta-lacks :
        has_item sender_type (or_empty m.metadata) ≡ false
        → has_item sender_type content_meta_of ≡ false
    unfolding text_eq
    content_meta-lacks h =
        has_item-set_item (txt "message_id") sender_type _ _ ∙ has_item-omit (or_empty m.metadata) h

or_default-IsClean :
    (o : Option Text)
    → ((t : Text) → o ≡ some t → IsClean t)
    → IsClean (get_or o default_account_id)
unfolding is_truthy trim trim_start trim_end is_space
or_default-IsClean none h = (refl, refl)
or_default-IsClean (some t) h = h t refl

bot_of-IsClean : (uuid : Text) (now : ℤ) (m : ChannelMessage) → IsClean (bot_of uuid now m)
bot_of-IsClean uuid now m =
    or_default-IsClean (text_at (txt "botId") m.metadata)
      (λ t. read_string-IsClean (item_of (txt "botId") m.metadata))

module _ (l : Language) (uuid topic : Text) (now : ℤ) (m : ChannelMessage) where
  -- A message that the extension sends and receives again reads as a message of the same channel with
  -- the same text whose sender is a bot, by which the extension knows not to answer it. The channel
  -- and the text are trimmed and not empty, and the metadata have no type of a sender of their own.
  pub to_inbound_message-of_sent :
      IsClean m.channel_id
      → IsClean m.text
      → has_item sender_type (or_empty m.metadata) ≡ false
      → (x : ChannelMessage) × (to_inbound_message l
            (obj (build_bot_chat_outbound_payload uuid now m))
            topic
          ≡ some x)
        × (x.channel_id ≡ m.channel_id)
        × (x.text ≡ m.text)
        × (item_of sender_type x.metadata ≡ str (txt "bot"))
  unfolding to_inbound_message
  to_inbound_message-of_sent c t h =
      let r = read_back uuid now m l topic in
      (
        record {
          channel_id = r.channel_id;
          user_id = bot_of uuid now m;
          text = m.text;
          metadata = some (inbound_metadata r topic);
        },
        rw
            (
              read-user_id uuid now m l topic (bot_of-IsClean uuid now m),
              read-text uuid now m l topic t,
            )
            refl,
        read-channel_id uuid now m l topic c,
        refl,
        inbound_metadata-sender_type r topic (txt "bot") (content_meta_of uuid now m)
            (read-content_meta uuid now m l topic) (content_meta-lacks uuid now m l topic h)
            (read-from_type uuid now m l topic),
      )
