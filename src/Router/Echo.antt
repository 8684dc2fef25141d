-- ===== src/Router/Echo.antt =====
-- What a published payload becomes when it is received again.
use openclaw_bot_chat.Base.{
  ℤ, ◌≡◌, refl, ◌∙◌, false, Option, none, some, get_or, [], ◌∷◌, arith, Text, txt, text_eq,
  is_truthy, trim, trim_start, trim_end, is_space,
}
use openclaw_bot_chat.Values.{
  obj, Fields, end, item, spread, ◌<|>◌, read_record, read_string, read_number, read_timestamp,
  to_seconds, merge_meta, merge_all,
}
use openclaw_bot_chat.Values.Laws.{IsClean, merge_all-append, read_string_of_IsClean}
use openclaw_bot_chat.Topics.{RouteInfo, parse_route, build_reply_topic}
use openclaw_bot_chat.Types.{
  SenderType, RouteTargetType, ContentType, BotChatMessage, BotChatOutgoingMessage,
  OpenClawResponse, sender_name, target_name, content_name, as_target, normalize_sender_type,
  normalize_recipient_type, normalize_content_type,
}
use openclaw_bot_chat.Router.Inbound.{
  dialog_id_of, from_type_of, from_id_of, recipient_of, complete_recipient, body_of,
  content_kind_of, meta_of, timestamp_of, normalize_record, normalize_message, property, text_at,
  Recipient,
}
use openclaw_bot_chat.Router.Mentions.{should_process_message}
use openclaw_bot_chat.Router.Outbound.{to_outgoing_message, to_publish_payload}

-- An outgoing message whose texts come through a reader as they are.
pub record IsReadable (outgoing : BotChatOutgoingMessage) (source : BotChatMessage) : Type 0 where
  pub message_id : IsClean outgoing.message_id
  pub conversation_id : IsClean outgoing.conversation_id
  pub from_id : IsClean outgoing.from_id
  pub to_id : IsClean (get_or outgoing.to_id source.from_id)
  pub body : IsClean outgoing.body

sender_name-IsClean : (t : SenderType) → IsClean (sender_name t)
unfolding trim trim_start trim_end is_space is_truthy
sender_name-IsClean SenderType.user = (refl, refl)
sender_name-IsClean SenderType.bot = (refl, refl)
sender_name-IsClean SenderType.system = (refl, refl)

target_name-IsClean : (t : RouteTargetType) → IsClean (target_name t)
unfolding trim trim_start trim_end is_space is_truthy
target_name-IsClean RouteTargetType.user = (refl, refl)
target_name-IsClean RouteTargetType.bot = (refl, refl)
target_name-IsClean RouteTargetType.system = (refl, refl)
target_name-IsClean RouteTargetType.group = (refl, refl)
target_name-IsClean RouteTargetType.channel = (refl, refl)

content_name-IsClean : (t : ContentType) → IsClean (content_name t)
unfolding trim trim_start trim_end is_space is_truthy
content_name-IsClean ContentType.text = (refl, refl)
content_name-IsClean ContentType.image = (refl, refl)
content_name-IsClean ContentType.file = (refl, refl)

normalize-sender_name : (t : SenderType) → normalize_sender_type (some (sender_name t)) ≡ t
unfolding normalize_sender_type text_eq
normalize-sender_name SenderType.user = refl
normalize-sender_name SenderType.bot = refl
normalize-sender_name SenderType.system = refl

normalize-target_name :
    (t : RouteTargetType) → normalize_recipient_type (some (target_name t)) ≡ some t
unfolding normalize_recipient_type text_eq
normalize-target_name RouteTargetType.user = refl
normalize-target_name RouteTargetType.bot = refl
normalize-target_name RouteTargetType.system = refl
normalize-target_name RouteTargetType.group = refl
normalize-target_name RouteTargetType.channel = refl

normalize-content_name : (t : ContentType) → normalize_content_type (some (content_name t)) ≡ t
unfolding normalize_content_type text_eq
normalize-content_name ContentType.text = refl
normalize-content_name ContentType.image = refl
normalize-content_name ContentType.file = refl

module _ (outgoing : BotChatOutgoingMessage) (source : BotChatMessage) where
  abbrev payload : Fields
  payload = (to_publish_payload outgoing source).payload

  from_type_of-payload : from_type_of payload ≡ outgoing.from_type
  unfolding from_type_of to_publish_payload item text_eq read_record read_string
  from_type_of-payload =
      rw
        (read_string_of_IsClean (sender_name outgoing.from_type)
          (sender_name-IsClean outgoing.from_type))
        (normalize-sender_name outgoing.from_type)

  content_kind_of-payload : normalize_content_type (content_kind_of payload) ≡ outgoing.content_type
  unfolding content_kind_of to_publish_payload item text_eq read_record read_string
  content_kind_of-payload =
      rw
        (read_string_of_IsClean (content_name outgoing.content_type)
          (content_name-IsClean outgoing.content_type))
        (normalize-content_name outgoing.content_type)

  -- The reader's texts, one after another.
  dialog_id_of-payload :
      (fallback : Option Text)
      → IsReadable outgoing source
      → dialog_id_of payload fallback ≡ some outgoing.conversation_id
  unfolding dialog_id_of to_publish_payload item text_eq read_record read_string
  dialog_id_of-payload fallback h =
      rw (read_string_of_IsClean outgoing.conversation_id h.conversation_id) refl

  from_id_of-payload : IsReadable outgoing source → from_id_of payload ≡ some outgoing.from_id
  unfolding from_id_of to_publish_payload item text_eq read_record read_string
  from_id_of-payload h = rw (read_string_of_IsClean outgoing.from_id h.from_id) refl

  body_of-payload : IsReadable outgoing source → body_of payload ≡ some outgoing.body
  unfolding body_of to_publish_payload item text_eq read_record read_string
  body_of-payload h = rw (read_string_of_IsClean outgoing.body h.body) refl

  message_id_of-payload :
      (fresh : Text)
      → IsReadable outgoing source
      → get_or (text_at (txt "message_id") payload <|> text_at (txt "id") payload) fresh
        ≡ outgoing.message_id
  unfolding to_publish_payload item text_eq read_record read_string
  message_id_of-payload fresh h = rw (read_string_of_IsClean outgoing.message_id h.message_id) refl

  seq_of-payload : read_number (item (txt "seq") payload) ≡ none
  unfolding to_publish_payload item text_eq read_number
  seq_of-payload = refl

  abbrev to_type : RouteTargetType
  to_type = get_or outgoing.to_type (as_target source.from_type)

  abbrev to_id : Text
  to_id = get_or outgoing.to_id source.from_id

  abbrev addressee : Recipient
  addressee = record { kind = some to_type; id = some to_id }

  recipient_of-payload : IsReadable outgoing source → recipient_of payload ≡ addressee
  unfolding recipient_of to_publish_payload item text_eq read_record read_string
  recipient_of-payload h =
      rw
        (
          read_string_of_IsClean (target_name to_type) (target_name-IsClean to_type),
          normalize-target_name to_type,
          read_string_of_IsClean to_id h.to_id,
        )
        refl

  -- A recipient that is complete stays as it is.
  complete_recipient_given :
      (route : RouteInfo) (from_type : SenderType) (from_id : Text)
      → complete_recipient route from_type from_id addressee ≡ addressee
  unfolding complete_recipient
  complete_recipient_given route from_type from_id = refl

  timestamp_of-payload :
      (date_parse : Text → Option ℤ) (now : ℤ) (fresh : Text)
      → timestamp_of date_parse now fresh payload ≡ to_seconds outgoing.timestamp
  unfolding timestamp_of to_publish_payload item text_eq read_timestamp
  timestamp_of-payload date_parse now fresh = refl

  -- The metadata of the message that is read: the published ones, the topic that it came on and the
  -- reply topic of its dialog.
  abbrev received_meta : Option Text → Option Fields
  received_meta fallback = merge_meta (
      outgoing.meta
      ∷ property (txt "topic") fallback
      ∷ property (txt "reply_topic") (build_reply_topic outgoing.conversation_id)
      ∷ [])

  content_meta :
      (meta : Option Fields)
      → read_record (item (txt "meta") (spread (txt "meta") obj meta end)) ≡ meta
  unfolding read_record item text_eq
  content_meta none = refl
  content_meta (some fs) = refl

  meta_of-payload :
      (fallback : Option Text)
      → meta_of payload fallback outgoing.conversation_id ≡ received_meta fallback
  unfolding meta_of to_publish_payload item text_eq read_record read_string merge_meta merge_all
  meta_of-payload fallback =
      rw
        (
          content_meta outgoing.meta,
          merge_all-append end
              (outgoing.meta
                ∷ property (txt "topic") fallback
                ∷ property (txt "reply_topic") (build_reply_topic outgoing.conversation_id)
                ∷ [])
              (none ∷ none ∷ none ∷ none ∷ none ∷ none ∷ none ∷ none ∷ []),
        )
        refl

  -- Reading a published payload gives the outgoing message back: its identifier, dialog, sender,
  -- recipient, kind and body, its time in seconds, no sequence number, and its metadata with the
  -- topics set. The message's identifier, dialog, sender, recipient and body are trimmed and not
  -- empty; the topic that the payload comes on does not matter.
  pub normalize-publish :
      (date_parse : Text → Option ℤ) (now : ℤ) (fresh : Text) (fallback : Option Text)
      → IsReadable outgoing source
      → normalize_message date_parse now fresh (obj payload) fallback
        ≡ some (record {
          message_id = outgoing.message_id;
          dialog_id = outgoing.conversation_id;
          from_type = outgoing.from_type;
          from_id = outgoing.from_id;
          to_type = some to_type;
          to_id = some to_id;
          content_type = outgoing.content_type;
          body = outgoing.body;
          meta = received_meta fallback;
          timestamp = to_seconds outgoing.timestamp;
          seq = none;
        })
  unfolding normalize_message normalize_record read_record
  normalize-publish date_parse now fresh fallback h =
      rw
        (
          dialog_id_of-payload fallback h,
          h.conversation_id.1,
          from_id_of-payload h,
          body_of-payload h,
          message_id_of-payload fresh h,
          from_type_of-payload,
          recipient_of-payload h,
          complete_recipient_given (parse_route outgoing.conversation_id) outgoing.from_type
              outgoing.from_id,
          content_kind_of-payload,
          meta_of-payload fallback,
          timestamp_of-payload date_parse now fresh,
          seq_of-payload,
        )
        refl

to_outgoing_message-from_type :
    (time : ℤ) (id : Text) (response : OpenClawResponse) (source : BotChatMessage) (bot_id : Text)
    (outgoing : BotChatOutgoingMessage)
    → to_outgoing_message time id response source bot_id ≡ some outgoing
    → outgoing.from_type ≡ SenderType.bot
unfolding to_outgoing_message
to_outgoing_message-from_type time id response source bot_id outgoing e = ground arith

not_from_user :
    (m : BotChatMessage) (bot_id : Text)
    → m.from_type ≡ SenderType.bot
    → should_process_message m bot_id ≡ false
unfolding should_process_message
not_from_user m bot_id e = ground arith

module _ (date_parse : Text → Option ℤ) (now : ℤ) (fresh : Text) where
  normalize_record-from_type :
      (raw : Fields) (fallback : Option Text) (m : BotChatMessage)
      → normalize_record date_parse now fresh raw fallback ≡ some m
      → m.from_type ≡ from_type_of raw
  unfolding normalize_record
  normalize_record-from_type raw fallback m e = ground arith

  -- The runtime does not answer itself, nor another bot: what it publishes for a response, received
  -- on whatever topic and read at whatever time, is not processed by any bot.
  pub published_is_ignored :
      (time : ℤ) (id : Text) (response : OpenClawResponse) (source : BotChatMessage)
      (bot_id other : Text) (topic : Option Text) (m : BotChatMessage)
      {outgoing : BotChatOutgoingMessage}
      → to_outgoing_message time id response source bot_id ≡ some outgoing
      → normalize_message date_parse now fresh
          (obj (to_publish_payload outgoing source).payload)
          topic
        ≡ some m
      → should_process_message m other ≡ false
  unfolding normalize_message read_record
  published_is_ignored time id response source bot_id other topic m {outgoing} sent received =
      not_from_user m other (
        normalize_record-from_type (to_publish_payload outgoing source).payload topic m received
        ∙ from_type_of-payload outgoing source
        ∙ to_outgoing_message-from_type time id response source bot_id outgoing sent)
