-- ===== src/Extension/Reply/Ignored.antt =====
-- The channel does not answer its own replies: channel.ts and runtime.ts of the extension.
use openclaw_bot_chat.Base.{
  ◌≡◌, refl, sym, ◌∙◌, Bool, true, false, Option, none, some, List, [], arith, Text, txt, text_eq,
  is_truthy, trim-trim, if◌then◌else◌, get_or, subst, Exists,
}
use openclaw_bot_chat.Values.{Value, str, obj, Fields, end, item_of, set_item, has_item, ◌<|>◌}
use openclaw_bot_chat.Values.Laws.{IsClean}
use openclaw_bot_chat.Extension.Settings.{Language, ChannelMessage}
use openclaw_bot_chat.Extension.Messages.{or_empty, text_at, remove_item, to_inbound_message}
use openclaw_bot_chat.Extension.Messages.Echo.{
  sender_type, to_inbound_message-of_sent, has_item-set_item,
}
use openclaw_bot_chat.Extension.Effects.{
  ChannelRuntime, Effect, published, finished, thrown, effects_of, World,
}
use openclaw_bot_chat.Extension.Runtime.{
  outbound_payload, send_to, send_to_channel, resolve_publish_topic,
}
use openclaw_bot_chat.Extension.Runtime.Admitted.{effects-call}
use openclaw_bot_chat.Extension.Attachments.{reply_context}
use openclaw_bot_chat.Extension.Reply.{
  merge_bot_chat_reply_chunks, reply_rest, build_bot_chat_reply_metadata, reply_message, Dispatcher,
  send_reply, reply_delivered, dispatch_with, dispatch_bot_chat_reply, is_bot, emit_message,
  put_text,
}

-- The first of equal keys only is looked at, so all must go.
remove_item-lacks : (k : Text) (fs : Fields) → has_item k (remove_item k fs) ≡ false
unfolding has_item remove_item
remove_item-lacks k end = refl
remove_item-lacks k (Fields.field j v fs) = ground (arith, remove_item-lacks k fs)

reply_rest-lacks : (fs : Fields) → has_item sender_type (reply_rest fs) ≡ false
unfolding reply_rest
reply_rest-lacks fs = remove_item-lacks sender_type _

put_text-lacks :
    (k key t : Text) (fs : Fields)
    → text_eq key k ≡ false
    → has_item k fs ≡ false
    → has_item k (put_text key t fs) ≡ false
put_text-lacks k key t fs e h = ground (arith, has_item-set_item key k (str t) fs)

set_item-lacks :
    (k key : Text) (v : Value) (fs : Fields)
    → text_eq key k ≡ false
    → has_item k fs ≡ false
    → has_item k (set_item key v fs) ≡ false
set_item-lacks k key v fs e h = has_item-set_item key k v fs ∙ rw (e, h) refl

reply_metadata-lacks :
    (meta : Option Fields) → has_item sender_type (build_bot_chat_reply_metadata meta) ≡ false
unfolding build_bot_chat_reply_metadata text_eq
reply_metadata-lacks meta =
    put_text-lacks sender_type (txt "replyToId") _ (reply_rest (or_empty meta)) refl
      (reply_rest-lacks (or_empty meta))

reply_message-lacks :
    (bot_id text : Text) (m : ChannelMessage)
    → has_item sender_type (or_empty (reply_message bot_id m text).metadata) ≡ false
unfolding reply_message text_eq
reply_message-lacks bot_id text m = set_item-lacks sender_type (txt "publishTopic") _ _ refl (
    set_item-lacks sender_type (txt "toType") _ _ refl
      (set_item-lacks sender_type (txt "botId") _ _ refl (reply_metadata-lacks m.metadata)))

merged-IsClean :
    (chunks : List Text)
    → is_truthy (merge_bot_chat_reply_chunks chunks) ≡ true
    → IsClean (merge_bot_chat_reply_chunks chunks)
unfolding merge_bot_chat_reply_chunks
merged-IsClean chunks h = (trim-trim _, h)

-- A payload that others see.
abbrev pub Publishes : Text → Fields → List Effect → Type 0
Publishes topic p es = Exists (λ e. e ≡ published topic p) es

module _ (w : World) (l : Language) (bot_id : Text) (dispatcher : Option Dispatcher) where
  -- What is read of the payload is a message that the channel does not answer.
  abbrev pub IsIgnored : Fields → Text → ChannelRuntime → Type 0
  IsIgnored p received u =
      (x : ChannelMessage) × (to_inbound_message l (obj p) received ≡ some x)
      × (emit_message w l bot_id dispatcher x u ≡ finished u [])

  ignores_bots :
      (x : ChannelMessage) (u : ChannelRuntime)
      → item_of sender_type x.metadata ≡ str (txt "bot")
      → emit_message w l bot_id dispatcher x u ≡ finished u []
  unfolding emit_message text_eq
  ignores_bots x u h = rw h refl

  -- The message as it is sent to a topic.
  abbrev addressed : Text → ChannelMessage → ChannelMessage
  addressed topic m =
      let message_id =
        get_or (text_at (txt "messageId") m.metadata <|> text_at (txt "message_id") m.metadata)
          w.uuid in
      record m {
        channel_id = topic;
        metadata = some (
            set_item (txt "topic") (str topic)
              (set_item (txt "message_id") (str message_id) (or_empty m.metadata)));
      }

  addressed-lacks :
      (topic : Text) (m : ChannelMessage)
      → has_item sender_type (or_empty m.metadata) ≡ false
      → has_item sender_type (or_empty (addressed topic m).metadata) ≡ false
  unfolding text_eq
  addressed-lacks topic m h =
      set_item-lacks sender_type (txt "topic") _ _ refl
        (set_item-lacks sender_type (txt "message_id") _ _ refl h)

  module _ (topic received : Text) (p : Fields) (u : ChannelRuntime) (clean : IsClean topic) where
    reply-IsIgnored :
        (m : ChannelMessage)
        → has_item sender_type (or_empty m.metadata) ≡ false
        → IsClean m.text
        → IsIgnored (outbound_payload w m topic) received u
    unfolding outbound_payload
    reply-IsIgnored m h c =
        let (x, read, channel, text, kind) =
          to_inbound_message-of_sent l w.uuid received w.seconds (addressed topic m) clean c
            (addressed-lacks topic m h) in
        (x, read, ignores_bots x u kind)

    send_to-IsIgnored :
        (m : ChannelMessage) (s : ChannelRuntime) (o : Option Text)
        → has_item sender_type (or_empty m.metadata) ≡ false
        → IsClean m.text
        → Publishes topic p (effects_of (send_to w m s o))
        → IsIgnored p received u
    send_to-IsIgnored m s none h c e = absurd e
    send_to-IsIgnored m s (some t) h c e =
        let same : (p ≡ outbound_payload w m topic) = ground (
          arith,
          rw
              (effects-call (w.publish t (outbound_payload w m t)) s
                (published t (outbound_payload w m t)))
              at e,
        ) in
        subst (λ q. IsIgnored q received u) (sym same) (reply-IsIgnored m h c)

    send-IsIgnored :
        (m : ChannelMessage) (s : ChannelRuntime)
        → has_item sender_type (or_empty m.metadata) ≡ false
        → IsClean m.text
        → Publishes topic p (effects_of (send_to_channel w m s))
        → IsIgnored p received u
    unfolding send_to_channel
    send-IsIgnored m s h c = go s.connected
      where
        go :
            (b : Bool)
            → Publishes topic p (
                effects_of (if b then send_to w m s (resolve_publish_topic w m s) else thrown s []))
            → IsIgnored p received u
        go true e = send_to-IsIgnored m s (resolve_publish_topic w m s) h c e
        go false e = absurd e

    send_reply-IsIgnored :
        (m : ChannelMessage) (s : ChannelRuntime) (text : Text)
        → (is_truthy text ≡ true → IsClean text)
        → Publishes topic p (effects_of (send_reply w l bot_id m s text))
        → IsIgnored p received u
    unfolding reply_message
    send_reply-IsIgnored m s text c = go (is_truthy text) c
      where
        go :
            (b : Bool)
            → (b ≡ true → IsClean text)
            → Publishes topic p (
                effects_of
                  (if b then send_to_channel w (reply_message bot_id m text) s else finished s []))
            → IsIgnored p received u
        go true c e =
            send-IsIgnored (reply_message bot_id m text) s (reply_message-lacks bot_id text m)
              (c refl) e
        go false c e = absurd e

    delivered-IsIgnored :
        (m : ChannelMessage) (s : ChannelRuntime) (o : Option (List Value))
        → Publishes topic p (effects_of (reply_delivered w l bot_id m s o))
        → IsIgnored p received u
    delivered-IsIgnored m s none e = absurd e
    delivered-IsIgnored m s (some vs) e = send_reply-IsIgnored m s _ (merged-IsClean _) e

    dispatched-IsIgnored :
        (d : Option Dispatcher) (m : ChannelMessage) (s : ChannelRuntime)
        → Publishes topic p (effects_of (dispatch_with w l bot_id d m s))
        → IsIgnored p received u
    dispatched-IsIgnored none m s e = absurd e
    dispatched-IsIgnored (some dispatch) m s e =
        delivered-IsIgnored m s (dispatch (reply_context l bot_id m)) e

    -- What the channel publishes in answer to a message, received under any topic and read again, is a
    -- message that it does not answer, if the topic that it was published to is trimmed and not empty.
    pub emit_message-IsIgnored :
        (m : ChannelMessage) (s : ChannelRuntime)
        → Publishes topic p (effects_of (emit_message w l bot_id dispatcher m s))
        → IsIgnored p received u
    unfolding emit_message dispatch_bot_chat_reply
    emit_message-IsIgnored m s = go (is_bot w l bot_id (item_of (txt "senderType") m.metadata))
      where
        go :
            (b : Bool)
            → Publishes topic p
                (effects_of (if b then finished s [] else dispatch_with w l bot_id dispatcher m s))
            → IsIgnored p received u
        go true e = absurd e
        go false e = dispatched-IsIgnored dispatcher m s e
