-- ===== src/Router/ReplyTopic.antt =====
-- Where a reply goes: the topics in a received message's metadata, and the topic that is published on.
use openclaw_bot_chat.Base.{
  ℤ, ◌≡◌, refl, ap, ◌∙◌, true, false, Option, none, some, List, [], ◌∷◌, arith, Text, txt, text_eq,
  is_truthy, All,
}
use openclaw_bot_chat.Values.{str, obj, Fields, item, item_of, has_item, read_record, read_string}
use openclaw_bot_chat.Values.Laws.{IsClean, read_string_of_IsClean, lacks, item-merge_meta_last}
use openclaw_bot_chat.Topics.{build_reply_topic}
use openclaw_bot_chat.Types.{BotChatMessage, BotChatOutgoingMessage, OpenClawResponse}
use openclaw_bot_chat.Router.Inbound.{
  property, copied, text_of, meta_of, normalize_record, normalize_message,
}
use openclaw_bot_chat.Router.Outbound.{outgoing_topic, to_outgoing_message}

-- A property under one name does not list another.
property-lacks :
    (k j : Text) (o : Option Text) → text_eq j k ≡ false → lacks k (property j o) ≡ true
unfolding has_item
property-lacks k j none h = refl
property-lacks k j (some t) h = ground arith

abbrev copies : Fields → List (Option Fields)
copies raw =
    copied (txt "channel_id") raw
    ∷ copied (txt "channel_name") raw
    ∷ copied (txt "guild_id") raw
    ∷ copied (txt "group_id") raw
    ∷ copied (txt "group_name") raw
    ∷ copied (txt "user_id") raw
    ∷ copied (txt "user_name") raw
    ∷ copied (txt "from_name") raw
    ∷ []

abbrev AllLack : Text → List (Option Fields) → Type 0
AllLack k = All (λ o. lacks k o ≡ true)

copies-lack_topic : (raw : Fields) → AllLack (txt "topic") (copies raw)
unfolding text_eq
copies-lack_topic raw = (
  property-lacks (txt "topic") (txt "channel_id") _ refl,
  (
    property-lacks (txt "topic") (txt "channel_name") _ refl,
    (
      property-lacks (txt "topic") (txt "guild_id") _ refl,
      (
        property-lacks (txt "topic") (txt "group_id") _ refl,
        (
          property-lacks (txt "topic") (txt "group_name") _ refl,
          (
            property-lacks (txt "topic") (txt "user_id") _ refl,
            (
              property-lacks (txt "topic") (txt "user_name") _ refl,
              (property-lacks (txt "topic") (txt "from_name") _ refl, tt),
            ),
          ),
        ),
      ),
    ),
  ),
)

copies-lack_reply_topic : (raw : Fields) → AllLack (txt "reply_topic") (copies raw)
unfolding text_eq
copies-lack_reply_topic raw = (
  property-lacks (txt "reply_topic") (txt "channel_id") _ refl,
  (
    property-lacks (txt "reply_topic") (txt "channel_name") _ refl,
    (
      property-lacks (txt "reply_topic") (txt "guild_id") _ refl,
      (
        property-lacks (txt "reply_topic") (txt "group_id") _ refl,
        (
          property-lacks (txt "reply_topic") (txt "group_name") _ refl,
          (
            property-lacks (txt "reply_topic") (txt "user_id") _ refl,
            (
              property-lacks (txt "reply_topic") (txt "user_name") _ refl,
              (property-lacks (txt "reply_topic") (txt "from_name") _ refl, tt),
            ),
          ),
        ),
      ),
    ),
  ),
)

-- The metadata that the payload itself brings.
abbrev given : Fields → List (Option Fields)
given raw =
    read_record (item (txt "meta") raw)
    ∷ read_record (item (txt "metadata") raw)
    ∷ read_record (item_of (txt "meta") (read_record (item (txt "content") raw)))
    ∷ []

item-meta_of_topic :
    (raw : Fields) (topic dialog_id : Text)
    → is_truthy topic ≡ true
    → item_of (txt "topic") (meta_of raw (some topic) dialog_id) ≡ str topic
unfolding meta_of text_eq
item-meta_of_topic raw topic dialog_id h = rw h (
    item-merge_meta_last (txt "topic") (str topic) (given raw)
      (property (txt "reply_topic") (build_reply_topic dialog_id) ∷ copies raw)
      (
        property-lacks (txt "topic") (txt "reply_topic") (build_reply_topic dialog_id) refl,
        copies-lack_topic raw,
      ))

item-meta_of_reply_topic :
    (raw : Fields) (fallback : Option Text) (dialog_id : Text) {reply_topic : Text}
    → build_reply_topic dialog_id ≡ some reply_topic
    → is_truthy reply_topic ≡ true
    → item_of (txt "reply_topic") (meta_of raw fallback dialog_id) ≡ str reply_topic
unfolding meta_of
item-meta_of_reply_topic raw fallback dialog_id {reply_topic} e h =
    rw (e, h)
      (item-merge_meta_last (txt "reply_topic") (str reply_topic)
        (read_record (item (txt "meta") raw)
          ∷ read_record (item (txt "metadata") raw)
          ∷ read_record (item_of (txt "meta") (read_record (item (txt "content") raw)))
          ∷ property (txt "topic") fallback
          ∷ [])
        (copies raw) (copies-lack_reply_topic raw))

outgoing-topic :
    (time : ℤ) (id : Text) (response : OpenClawResponse) (source : BotChatMessage) (bot_id : Text)
    (outgoing : BotChatOutgoingMessage)
    → to_outgoing_message time id response source bot_id ≡ some outgoing
    → outgoing.topic ≡ outgoing_topic response source
unfolding to_outgoing_message
outgoing-topic time id response source bot_id outgoing e = ground arith

outgoing_topic-reply :
    (response : OpenClawResponse) (source : BotChatMessage) {reply_topic : Text}
    → text_of (txt "topic") response.metadata ≡ none
    → text_of (txt "reply_topic") source.meta ≡ some reply_topic
    → outgoing_topic response source ≡ reply_topic
unfolding outgoing_topic
outgoing_topic-reply response source e r = rw (e, r) refl

module _ (date_parse : Text → Option ℤ) (now : ℤ) (fresh : Text) where
  normalize_record-meta :
      (raw : Fields) (fallback : Option Text) (m : BotChatMessage)
      → normalize_record date_parse now fresh raw fallback ≡ some m
      → m.meta ≡ meta_of raw fallback m.dialog_id
  unfolding normalize_record
  normalize_record-meta raw fallback m e = ground arith

  -- The metadata of a received message name the topic that it came on, whatever the payload claims.
  pub normalize_message-topic :
      (raw : Fields) (topic : Text) (m : BotChatMessage)
      → is_truthy topic ≡ true
      → normalize_message date_parse now fresh (obj raw) (some topic) ≡ some m
      → item_of (txt "topic") m.meta ≡ str topic
  unfolding normalize_message read_record
  normalize_message-topic raw topic m h e =
      ap (item_of (txt "topic")) (normalize_record-meta raw (some topic) m e)
      ∙ item-meta_of_topic raw topic m.dialog_id h

  -- A response goes where its dialog's reply topic is, whatever reply topic the payload of the
  -- message claimed, unless the response itself names a topic: for a message that was received and
  -- whose dialog has the reply topic, trimmed and not empty.
  pub to_outgoing_message-topic :
      (raw : Fields) (fallback : Option Text) (m : BotChatMessage) (time : ℤ) (id : Text)
      (response : OpenClawResponse) (bot_id : Text) {reply_topic : Text}
      {outgoing : BotChatOutgoingMessage}
      → normalize_message date_parse now fresh (obj raw) fallback ≡ some m
      → build_reply_topic m.dialog_id ≡ some reply_topic
      → IsClean reply_topic
      → text_of (txt "topic") response.metadata ≡ none
      → to_outgoing_message time id response m bot_id ≡ some outgoing
      → outgoing.topic ≡ reply_topic
  unfolding normalize_message read_record
  to_outgoing_message-topic raw fallback m time id response bot_id {reply_topic} {outgoing} e r
        clean free sent =
      outgoing-topic time id response m bot_id outgoing sent
      ∙ outgoing_topic-reply response m free (
          ap (text_of (txt "reply_topic")) (normalize_record-meta raw fallback m e)
          ∙ ap read_string (item-meta_of_reply_topic raw fallback m.dialog_id r clean.1)
          ∙ read_string_of_IsClean reply_topic clean)
