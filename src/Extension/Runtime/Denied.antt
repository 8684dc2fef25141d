-- ===== src/Extension/Runtime/Denied.antt =====
-- The reply to a message that is not let in, when the broker brings it back: `handleInbound` of the
-- extension's runtime.ts.
use openclaw_bot_chat.Base.{
  ◌≡◌, refl, ap, ◌∙◌, true, false, Option, none, some, [], ◌∷◌, Text, text_eq, is_truthy, trim,
  trim_start, trim_end, is_space,
}
use openclaw_bot_chat.Values.{Value, obj, Fields, item, set_item, read_string, read_record, ◌<|>◌}
use openclaw_bot_chat.Values.Laws.{IsClean, read_string_of_IsClean}
use openclaw_bot_chat.Extension.Settings.{
  Language, ChannelMessage, Access, sender_denied, evaluate_bot_chat_access,
  normalize_bot_chat_config, sender_allowed, default_account_id,
}
use openclaw_bot_chat.Extension.Messages.{
  read_message, inbound_metadata, to_inbound_message, build_bot_chat_outbound_payload,
}
use openclaw_bot_chat.Extension.Effects.{ChannelRuntime, published, finished, World}
use openclaw_bot_chat.Extension.Runtime.{
  resolve_publish_topic, outbound_payload, send_to_channel, denied_message, deny_inbound_message,
  handle_inbound,
}

module _ (w : World) (l : Language) (topic reply : Text) where
  -- The reply to a user, as it is sent.
  abbrev pub reply_payload : Text → Access → Fields
  reply_payload user_id access =
      let message : ChannelMessage = record {
        channel_id = topic;
        user_id = user_id;
        text = reply;
        metadata = none;
      } in
      outbound_payload w (denied_message w l topic message access reply) topic

  module _ (t : IsClean topic) where
    denied_topic :
        (s : ChannelRuntime) (m : ChannelMessage) (access : Access)
        → resolve_publish_topic w (denied_message w l topic m access reply) s ≡ some topic
    unfolding resolve_publish_topic item text_eq
    denied_topic s m access = rw (read_string_of_IsClean topic t) refl

    module _ (publishes : (p : Fields) → w.publish topic p ≡ true) where
      send_denied :
          (s : ChannelRuntime) (m : ChannelMessage) (access : Access)
          → s.connected ≡ true
          → send_to_channel w (denied_message w l topic m access reply) s
            ≡ finished s (published topic (reply_payload m.user_id access) ∷ [])
      unfolding send_to_channel
      send_denied s m access c = simp (c, denied_topic s m access, publishes) refl

  reply_user :
      (user_id : Text) (access : Access)
      → (read_message l (reply_payload user_id access) topic).user_id ≡ some default_account_id
  unfolding read_message outbound_payload build_bot_chat_outbound_payload item text_eq read_string
      read_record set_item is_truthy trim trim_start trim_end is_space
  reply_user user_id access = refl

  reply_text :
      IsClean reply
      → (user_id : Text) (access : Access)
      → (read_message l (reply_payload user_id access) topic).text ≡ some reply
  unfolding read_message outbound_payload build_bot_chat_outbound_payload item text_eq read_string
      read_record set_item is_truthy trim trim_start trim_end is_space
  reply_text r user_id access = ap (λ o. o <|> none) (read_string_of_IsClean reply r)

  -- The message that the reply is read as, with the identifier of its sender.
  reply_read :
      IsClean reply
      → (user_id : Text) (access : Access)
      → (m : ChannelMessage) × (to_inbound_message l (obj (reply_payload user_id access)) topic
          ≡ some m)
        × (m.user_id ≡ default_account_id)
  unfolding to_inbound_message
  reply_read r user_id access =
      let read = read_message l (reply_payload user_id access) topic in
      (
        record {
          channel_id = read.channel_id;
          user_id = default_account_id;
          text = reply;
          metadata = some (inbound_metadata read topic);
        },
        rw (reply_user user_id access, reply_text r user_id access) refl,
        refl,
      )

module _ (w : World) (l : Language) (config : Fields) (env : Text → Option Text)
    (topic reply : Text) (s : ChannelRuntime) where
  denied_access :
      (m : ChannelMessage)
      → sender_allowed (normalize_bot_chat_config l config env).allow_from m.user_id ≡ false
      → evaluate_bot_chat_access l config env m ≡ sender_denied
  unfolding evaluate_bot_chat_access
  denied_access m h = rw h refl

  module _ (logs : s.has_logger ≡ true) (connected : s.connected ≡ true)
      (replies : s.permission_denied_reply ≡ some reply) (t : IsClean topic)
      (publishes : (p : Fields) → w.publish topic p ≡ true) where
    handle_denied :
        (parsed : Value) (m : ChannelMessage)
        → to_inbound_message l parsed topic ≡ some m
        → sender_allowed (normalize_bot_chat_config l config env).allow_from m.user_id ≡ false
        → handle_inbound w l config env topic parsed s
          ≡ finished s
              (published topic (reply_payload w l topic reply m.user_id sender_denied) ∷ [])
    unfolding handle_inbound deny_inbound_message
    handle_denied parsed m e h =
        simp (logs, e, denied_access m h, replies)
          (send_denied w l topic reply t publishes s m sender_denied connected)

    -- A message of a sender who is not in the list is answered by the reply, and so is the reply when
    -- the broker brings it back to the runtime, and the reply to that, if the list does not name the
    -- account that the reply is sent from: the same reply is published each time. The broker takes
    -- every message, the runtime is connected, and the reply and the topic are trimmed.
    pub handle_inbound-replies_again :
        (parsed : Value) (m : ChannelMessage) (user_id : Text)
        → to_inbound_message l parsed topic ≡ some m
        → sender_allowed (normalize_bot_chat_config l config env).allow_from m.user_id ≡ false
        → IsClean reply
        → sender_allowed (normalize_bot_chat_config l config env).allow_from default_account_id
          ≡ false
        → let sent = reply_payload w l topic reply in
          (handle_inbound w l config env topic parsed s
            ≡ finished s (published topic (sent m.user_id sender_denied) ∷ []))
          × (handle_inbound w l config env topic (obj (sent user_id sender_denied)) s
              ≡ finished s (published topic (sent default_account_id sender_denied) ∷ []))
    handle_inbound-replies_again parsed m user_id e h r d = (handle_denied parsed m e h, again)
      where
        again :
            handle_inbound w l config env topic
              (obj (reply_payload w l topic reply user_id sender_denied))
              s
            ≡ finished s (
                published topic (reply_payload w l topic reply default_account_id sender_denied)
                ∷ [])
        again =
            let (m, read, same) = reply_read w l topic reply r user_id sender_denied in
            handle_denied (obj (reply_payload w l topic reply user_id sender_denied)) m read
              (ap (sender_allowed (normalize_bot_chat_config l config env).allow_from) same ∙ d)
            ∙ ap
                (λ u.
                  finished s (published topic (reply_payload w l topic reply u sender_denied) ∷ []))
                same
