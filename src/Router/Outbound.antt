-- ===== src/Router/Outbound.antt =====
-- `toBotChatOutgoingMessage` and `toRealtimePublishPayload` of router/message.ts: the agent's
-- response as an outgoing message, and the payload that is published for it.
use openclaw_bot_chat.Base.{
  ℤ, Bool, true, false, Option, none, some, get_or, [], ◌∷◌, Text, txt, is_truthy, trim,
  if◌then◌else◌,
}
use openclaw_bot_chat.Values.{
  Value, undefined, str, num, obj, Fields, end, field, single, spread, item_of, ◌<|>◌, read_record,
  merge_meta,
}
use openclaw_bot_chat.Topics.{build_reply_topic}
use openclaw_bot_chat.Types.{
  BotChatMessage, BotChatOutgoingMessage, OpenClawResponse, ContentType, SenderType, sender_name,
  target_name, content_name, as_target, normalize_content_type,
}
use openclaw_bot_chat.Router.Inbound.{text_of}

abbrev pub is_image : ContentType → Bool
is_image ContentType.image = true
is_image _ = false

unfoldable pub normalize_outgoing_body : OpenClawResponse → ContentType → Text
normalize_outgoing_body response content_type =
    let direct = trim response.content in
    if is_truthy direct
    then direct
    else if is_image content_type
    then get_or
        (text_of (txt "caption") response.metadata
          <|> text_of (txt "file_name") (read_record (item_of (txt "asset") response.metadata)))
        (txt "Image")
    else []

abbrev or_undefined : Option Text → Value
or_undefined none = undefined
or_undefined (some t) = str t

abbrev asset_from_url : Option Text → Option Text → Option Fields
asset_from_url none file_name = none
asset_from_url (some url) file_name = some (
    single (txt "asset") (
      obj (field (txt "source_url") (str url) (single (txt "file_name") (or_undefined file_name)))))

abbrev asset_or : Option Fields → Option Fields → Option Fields
asset_or none other = other
asset_or (some asset) other = some (single (txt "asset") (obj asset))

unfoldable pub normalize_outgoing_asset_meta : OpenClawResponse → ContentType → Option Fields
normalize_outgoing_asset_meta response content_type =
    let meta = response.metadata in
    if is_image content_type
    then asset_or (read_record (item_of (txt "asset") meta)) (
        asset_from_url
          (text_of (txt "asset_url") meta
            <|> text_of (txt "source_url") meta
            <|> text_of (txt "url") meta)
          (text_of (txt "file_name") meta))
    else none

unfoldable pub outgoing_meta : OpenClawResponse → BotChatMessage → ContentType → Option Fields
outgoing_meta response source content_type = merge_meta (
    response.metadata
    ∷ source.meta
    ∷ normalize_outgoing_asset_meta response content_type
    ∷ some (
        field (txt "in_reply_to_message_id") (str source.message_id)
          (single (txt "source_dialog_id") (str source.dialog_id)))
    ∷ [])

unfoldable pub outgoing_topic : OpenClawResponse → BotChatMessage → Text
outgoing_topic response source =
    get_or
      (text_of (txt "topic") response.metadata
        <|> text_of (txt "reply_topic") source.meta
        <|> build_reply_topic source.dialog_id)
      source.dialog_id

-- `now` is the time in seconds and `fresh` a fresh UUID.
unfoldable pub to_outgoing_message :
    ℤ → Text → OpenClawResponse → BotChatMessage → Text → Option BotChatOutgoingMessage
to_outgoing_message now fresh response source bot_id =
    let content_type = normalize_content_type (text_of (txt "content_type") response.metadata) in
    let body = normalize_outgoing_body response content_type in
    if is_truthy body
    then some (record {
      message_id = fresh;
      topic = outgoing_topic response source;
      conversation_id = source.dialog_id;
      from_type = SenderType.bot;
      from_id = bot_id;
      to_type = some (as_target source.from_type);
      to_id = some source.from_id;
      content_type = content_type;
      body = body;
      meta = outgoing_meta response source content_type;
      timestamp = now;
    })
    else none

pub record PublishFrame : Type 0 where
  pub topic : Text
  pub payload : Fields

-- The defaults of `from` and `topic` do not apply: the outgoing message always has them.
unfoldable pub to_publish_payload : BotChatOutgoingMessage → BotChatMessage → PublishFrame
to_publish_payload outgoing source = record {
  topic = outgoing.topic;
  payload = field (txt "id") (str outgoing.message_id) (
      field (txt "topic") (str outgoing.topic) (
        field (txt "conversation_id") (str outgoing.conversation_id) (
          field (txt "from")
            (obj (
              field (txt "type") (str (sender_name outgoing.from_type))
                (single (txt "id") (str outgoing.from_id))))
            (field (txt "to")
              (obj (
                field (txt "type")
                  (str (target_name (get_or outgoing.to_type (as_target source.from_type))))
                  (single (txt "id") (str (get_or outgoing.to_id source.from_id)))))
              (field (txt "content")
                (obj (
                  field (txt "type") (str (content_name outgoing.content_type)) (
                    field (txt "body") (str outgoing.body)
                      (spread (txt "meta") obj outgoing.meta end))))
                (single (txt "timestamp") (num outgoing.timestamp)))))));
}
