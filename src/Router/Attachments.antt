-- ===== src/Router/Attachments.antt =====
-- `toOpenClawRequest` of router/message.ts with the attachments that it finds in the metadata.
use openclaw_bot_chat.Base.{
  Bool, Option, none, some, get_or, List, [], ◌∷◌, Text, txt, text_eq, is_truthy, if◌then◌else◌,
}
use openclaw_bot_chat.Values.{
  Value, bool, num, str, arr, obj, Items, nil, cons, Fields, end, field, spread, item, item_of,
  ◌<|>◌, read_record, read_number,
}
use openclaw_bot_chat.Permissions.{ChannelType}
use openclaw_bot_chat.Types.{
  BotChatMessage, OpenClawAttachment, OpenClawRequest, ChannelContext, sender_name, target_name,
  content_name,
}
use openclaw_bot_chat.Router.Inbound.{text_at, text_of}
use openclaw_bot_chat.Router.Mentions.{is_message_mentioned_for_bot}

unfoldable pub read_normalized_body : BotChatMessage → Text
read_normalized_body message = get_or (text_of (txt "normalized_body") message.meta) message.body

abbrev not_text : Option Text → Option Text
not_text none = none
not_text (some t) = if text_eq t (txt "text") then none else some t

unfoldable pub message_content_kind : Fields → Option Text
message_content_kind metadata = not_text (text_at (txt "content_type") metadata)

unfoldable pub attachment_url : Fields → Fields → Option Text
attachment_url source metadata =
    text_at (txt "download_url") source
    <|> text_at (txt "external_url") source
    <|> text_at (txt "source_url") source
    <|> text_at (txt "url") source
    <|> text_at (txt "download_url") metadata
    <|> text_at (txt "external_url") metadata
    <|> text_at (txt "source_url") metadata
    <|> text_at (txt "url") metadata

abbrev when_truthy : Text → Option Text
when_truthy t = if is_truthy t then some t else none

unfoldable pub attachment_at : Text → Option Fields → Fields → Fields → Text → OpenClawAttachment
attachment_at url asset source metadata fallback_name = record {
  kind =
      get_or
        (text_at (txt "kind") source
          <|> text_at (txt "type") source
          <|> message_content_kind metadata)
        (txt "file");
  url = url;
  name = when_truthy (
      get_or
        (text_at (txt "file_name") source
          <|> text_at (txt "name") source
          <|> text_at (txt "filename") source
          <|> text_at (txt "file_name") metadata
          <|> text_at (txt "name") metadata)
        fallback_name);
  mime_type =
      text_at (txt "mime_type") source
      <|> text_at (txt "mimeType") source
      <|> text_at (txt "content_type") source
      <|> text_at (txt "mime_type") metadata
      <|> text_at (txt "mimeType") metadata;
  size = read_number (item (txt "size") source) <|> read_number (item (txt "size") metadata);
  asset = asset;
}

abbrev attach : Option Text → Option Fields → Fields → Fields → Text → Option OpenClawAttachment
attach none asset source metadata fallback_name = none
attach (some url) asset source metadata fallback_name =
    some (attachment_at url asset source metadata fallback_name)

unfoldable pub build_open_claw_attachment_from_asset :
    Option Fields → Fields → Text → Option OpenClawAttachment
build_open_claw_attachment_from_asset asset metadata fallback_name =
    let source = get_or asset metadata in
    attach (attachment_url source metadata) asset source metadata fallback_name

abbrev listed : Option OpenClawAttachment → List OpenClawAttachment
listed none = []
listed (some a) = a ∷ []

unfoldable pub build_open_claw_attachments : BotChatMessage → List OpenClawAttachment
build_open_claw_attachments message =
    let metadata = get_or message.meta end in
    let message_meta = read_record (item (txt "message_meta") metadata) in
    listed (
      build_open_claw_attachment_from_asset
        (read_record (item (txt "asset") metadata)
          <|> read_record (item_of (txt "asset") message_meta)
          <|> read_record (item (txt "attachment") metadata))
        metadata message.body)

-- An attachment as the record that it is: `type` repeats `kind`, `fileName` repeats `name` and
-- `contentType` repeats `mimeType`.
unfoldable pub attachment_value : OpenClawAttachment → Value
attachment_value a = obj (
    field (txt "type") (str a.kind) (
      field (txt "kind") (str a.kind) (
        field (txt "url") (str a.url) (
          spread (txt "name") str a.name (
            spread (txt "fileName") str a.name (
              spread (txt "mimeType") str a.mime_type (
                spread (txt "contentType") str a.mime_type
                  (spread (txt "size") num a.size (spread (txt "asset") obj a.asset end)))))))))

abbrev pub attachment_items : List OpenClawAttachment → Items
attachment_items [] = nil
attachment_items (a ∷ as') = cons (attachment_value a) (attachment_items as')

-- `attachments.length > 0 ? attachments : undefined`
abbrev when_any : List OpenClawAttachment → Option Items
when_any [] = none
when_any (a ∷ rest) = some (attachment_items (a ∷ rest))

abbrev pub channel_type_name : ChannelType → Text
channel_type_name ChannelType.dm = txt "dm"
channel_type_name ChannelType.group = txt "group"
channel_type_name ChannelType.channel = txt "channel"

abbrev given : Option Text → Option Text
given none = none
given (some t) = when_truthy t

unfoldable pub channel_value : ChannelContext → Value
channel_value c = obj (
    field (txt "id") (str c.id) (
      field (txt "type") (str (channel_type_name c.kind)) (
        field (txt "botId") (str c.bot_id) (
          spread (txt "userId") str (given c.user_id) (
            spread (txt "guildId") str (given c.guild_id)
              (spread (txt "groupId") str (given c.group_id) end))))))

-- `channel?.botId ? isMessageMentionedForBot(message, channel.botId) : undefined`
abbrev mentioned_current_bot : BotChatMessage → Option ChannelContext → Option Bool
mentioned_current_bot message none = none
mentioned_current_bot message (some c) =
    if is_truthy c.bot_id then some (is_message_mentioned_for_bot message c.bot_id) else none

-- `normalizedContent !== message.body ? normalizedContent : undefined`
abbrev when_changed : Text → Text → Option Text
when_changed content body = if text_eq content body then none else some content

unfoldable pub request_metadata :
    BotChatMessage → Text → List OpenClawAttachment → Option ChannelContext → Fields
request_metadata message content attachments channel =
    let media = when_any attachments in
    field (txt "dialog_id") (str message.dialog_id) (
      field (txt "message_id") (str message.message_id) (
        field (txt "original_content") (str message.body) (
          spread (txt "normalized_content") str (when_changed content message.body) (
            field (txt "from_type") (str (sender_name message.from_type)) (
              field (txt "from_id") (str message.from_id) (
                spread (txt "to_type") (λ t. str (target_name t)) message.to_type
                  (spread (txt "to_id") str (given message.to_id) (
                    field (txt "content_type") (str (content_name message.content_type)) (
                      field (txt "timestamp") (num message.timestamp) (
                        spread (txt "seq") num message.seq (
                          spread (txt "message_meta") obj message.meta (
                            spread (txt "attachments") arr media (
                              spread (txt "media") arr media (
                                spread (txt "mentioned_current_bot") bool
                                  (mentioned_current_bot message channel)
                                  (spread (txt "channel_context") channel_value channel
                                    end)))))))))))))))

unfoldable pub to_open_claw_request :
    BotChatMessage → Text → Option ChannelContext → OpenClawRequest
to_open_claw_request message session_id channel =
    let content = read_normalized_body message in
    let attachments = build_open_claw_attachments message in
    record {
      session_id = session_id;
      content = content;
      attachments = attachments;
      metadata = request_metadata message content attachments channel;
    }
