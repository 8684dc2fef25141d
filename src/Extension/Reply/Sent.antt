-- ===== src/Extension/Reply/Sent.antt =====
-- A text that the host sends to a user: channel.ts and runtime.ts of the extension.
use openclaw_bot_chat.Base.{
  ◌≡◌, refl, ap, true, false, Option, none, some, [], ◌∷◌, ◌++◌, Text, txt, text_eq, any, is_truthy,
  is_space, trim, trim_start, trim_end, get_or, ◌∙◌,
}
use openclaw_bot_chat.Values.{
  str, obj, Fields, field, single, item, item_of, set_item, read_string, read_record, ◌<|>◌,
}
use openclaw_bot_chat.Values.Laws.{item-set_item, IsClean, read_string_of_IsClean}
use openclaw_bot_chat.Topics.{
  canonical_direct_dialog_id, canonicalize_direct_peers, direct_peer_rank,
}
use openclaw_bot_chat.Extension.Settings.{ChannelMessage, default_account_id}
use openclaw_bot_chat.Extension.Messages.{text_at, or_empty}
use openclaw_bot_chat.Extension.Messages.Echo.{sent-channel, sent-from, sent-to, sent-content}
use openclaw_bot_chat.Extension.Targets.{
  is_line_end, matched, direct_match, after_word, lower_unit, build_bot_chat_direct_topic,
  build_canonical_bot_chat_direct_topic, build_bot_chat_outbound_message_target,
  parse_bot_chat_target, outbound_direct,
}
use openclaw_bot_chat.Extension.Targets.Normal.{prefixed-clean}
use openclaw_bot_chat.Extension.Effects.{ChannelRuntime, finished, published, World}
use openclaw_bot_chat.Extension.Runtime.{send_to_channel, resolve_publish_topic, outbound_payload}
use openclaw_bot_chat.Extension.Reply.{outbound_message, send_text}

item-or_empty : (k : Text) (fs : Option Fields) → item k (or_empty fs) ≡ item_of k fs
unfolding item
item-or_empty k none = refl
item-or_empty k (some fs) = refl

user_read : read_string (str (txt "user")) ≡ some (txt "user")
unfolding read_string is_truthy trim trim_start trim_end is_space
user_read = refl

body_read :
    (text : Text) (meta : Fields)
    → item_of (txt "body") (
        read_record (
          obj (
            field
              (txt "type")
              (str (txt "text"))
              (field (txt "body") (str text) (single (txt "meta") (obj meta))))))
      ≡ str text
unfolding item read_record text_eq
body_read text meta = refl

module _ (w : World) (bot_id user_id text : Text) (s : ChannelRuntime) where
  target-dm :
      (metadata : Option Fields)
      → IsClean user_id
      → any is_line_end user_id ≡ false
      → build_bot_chat_outbound_message_target bot_id metadata (txt "dm:" ++ user_id)
        ≡ some (outbound_direct bot_id metadata user_id)
  unfolding build_bot_chat_outbound_message_target parse_bot_chat_target direct_match matched
      after_word lower_unit is_truthy
  target-dm metadata clean one_line =
      rw (prefixed-clean b'd' (txt "m:") user_id (unfold is_space in refl) clean)
        (rw (clean.1, one_line, clean.0, clean.1) refl)

  abbrev user_topic : Text
  user_topic = build_bot_chat_direct_topic user_id bot_id

  abbrev pub plugin_topic : Text
  plugin_topic =
      canonical_direct_dialog_id (record { kind = txt "user"; id = user_id })
        (record { kind = txt "bot"; id = bot_id })

  topics_agree : user_topic ≡ plugin_topic
  unfolding build_bot_chat_direct_topic build_canonical_bot_chat_direct_topic
      canonical_direct_dialog_id canonicalize_direct_peers direct_peer_rank text_eq
  topics_agree = refl

  module _ (metadata : Option Fields) where
    abbrev message : ChannelMessage
    message = outbound_message bot_id text metadata (outbound_direct bot_id metadata user_id)

    message-item :
        (k : Text)
        → text_eq (txt "publishTopic") k ≡ false
        → text_eq (txt "toType") k ≡ false
        → text_eq (txt "botId") k ≡ false
        → text_eq (txt "chatType") k ≡ false
        → text_eq (txt "target") k ≡ false
        → item_of k message.metadata ≡ item k (or_empty metadata)
    message-item k a b c d e =
        rw
          (
            item-set_item (txt "publishTopic") k,
            a,
            item-set_item (txt "toType") k,
            b,
            item-set_item (txt "botId") k,
            c,
            item-set_item (txt "chatType") k,
            d,
            item-set_item (txt "target") k,
            e,
          )
          refl

    no_topic :
        read_string (item_of (txt "topic") metadata) ≡ none
        → text_at (txt "topic") message.metadata ≡ none
    unfolding text_eq
    no_topic h =
        ap read_string (
          message-item (txt "topic") refl refl refl refl refl
          ∙ item-or_empty (txt "topic") metadata)
        ∙ h

    sent_topic :
        IsClean user_topic
        → read_string (item_of (txt "topic") metadata) ≡ none
        → resolve_publish_topic w message s ≡ some user_topic
    unfolding resolve_publish_topic text_eq
    sent_topic c h =
        rw
          (
            no_topic h,
            item-set_item (txt "publishTopic") (txt "publishTopic"),
            read_string_of_IsClean user_topic c,
          )
          refl

    -- The payload to a topic: what stands in the properties that the payload takes from the message.
    abbrev payload : Text → Fields
    payload topic = outbound_payload w message topic

    abbrev addressed_meta : Text → Fields
    addressed_meta topic =
        let message_id =
          get_or
            (text_at (txt "messageId") message.metadata
              <|> text_at (txt "message_id") message.metadata)
            w.uuid in
        set_item (txt "topic") (str topic)
          (set_item (txt "message_id") (str message_id) (or_empty message.metadata))

    to_type : (topic : Text) → item (txt "toType") (addressed_meta topic) ≡ str (txt "user")
    unfolding text_eq
    to_type topic =
        rw
          (
            item-set_item (txt "topic") (txt "toType"),
            item-set_item (txt "message_id") (txt "toType"),
            item-set_item (txt "publishTopic") (txt "toType"),
            item-set_item (txt "toType") (txt "toType"),
          )
          refl

    bot_item : (topic : Text) → item (txt "botId") (addressed_meta topic) ≡ str bot_id
    unfolding text_eq
    bot_item topic =
        rw
          (
            item-set_item (txt "topic") (txt "botId"),
            item-set_item (txt "message_id") (txt "botId"),
            item-set_item (txt "publishTopic") (txt "botId"),
            item-set_item (txt "toType") (txt "botId"),
            item-set_item (txt "botId") (txt "botId"),
          )
          refl

    -- From the bot to the user, in the conversation of the topic, with the text.
    abbrev pub IsFromTo : Text → Fields → Type 0
    IsFromTo topic p =
        (item (txt "conversation_id") p ≡ str topic)
        × (item (txt "from") p
            ≡ obj (field (txt "type") (str (txt "bot")) (single (txt "id") (str bot_id))))
        × (item (txt "to") p
            ≡ obj (field (txt "type") (str (txt "user")) (single (txt "id") (str user_id))))
        × (item_of (txt "body") (read_record (item (txt "content") p)) ≡ str text)

    addressed : Text → ChannelMessage
    addressed topic = record message { channel_id = topic; metadata = some (addressed_meta topic) }

    payload-IsFromTo : (topic : Text) → IsClean bot_id → IsFromTo topic (payload topic)
    unfolding outbound_payload addressed
    payload-IsFromTo topic c =
        let m = addressed topic in
        (
          sent-channel w.uuid w.seconds m,
          sent-from w.uuid w.seconds m
              ∙ ap
                  (λ v. obj (
                    field (txt "type") (str (txt "bot"))
                      (single (txt "id") (str (get_or v default_account_id)))))
                  (ap read_string (bot_item topic) ∙ read_string_of_IsClean bot_id c),
          sent-to w.uuid w.seconds m
              ∙ ap
                  (λ v. obj (
                    field (txt "type") (str (get_or v (txt "user")))
                      (single (txt "id") (str user_id))))
                  (ap read_string (to_type topic) ∙ user_read),
          ap (λ v. item_of (txt "body") (read_record v)) (sent-content w.uuid w.seconds m)
              ∙ body_read text _,
        )

    module _ (connected : s.connected ≡ true)
        (publishes : (t : Text) (p : Fields) → w.publish t p ≡ true) where
      -- A text for a user is published to the topic that the plugin computes for the user and the bot,
      -- in a payload from the bot to the user with the text, if the metadata name no topic: one that
      -- is a text and not blank would be taken instead. The identifiers of both and the topic are
      -- trimmed and not empty, the user's is on one line, and the runtime is connected to a broker that
      -- takes every message.
      pub send_text-direct :
          read_string (item_of (txt "topic") metadata) ≡ none
          → IsClean bot_id
          → IsClean user_id
          → any is_line_end user_id ≡ false
          → IsClean user_topic
          → (p : Fields) × (send_text w bot_id (txt "dm:" ++ user_id) text metadata s
              ≡ finished s (published plugin_topic p ∷ []))
            × IsFromTo plugin_topic p
      unfolding send_text send_to_channel
      send_text-direct h b u line c = (
        payload plugin_topic,
        simp (target-dm metadata u line, connected, sent_topic c h, publishes)
            (ap (λ t. finished s (published t (payload t) ∷ [])) topics_agree),
        payload-IsFromTo plugin_topic b,
      )
