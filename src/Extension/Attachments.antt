-- ===== src/Extension/Attachments.antt =====
-- Attachments of extensions/openclaw-bot-chat/src/channel.ts: what the host's agent gets to see of a
-- message that carries a file.
use openclaw_bot_chat.Base.{
  ℤ, Bool, false, not, ◌&&◌, ◌||◌, Option, none, some, get_or, List, [], ◌∷◌, ◌++◌, Text, txt,
  text_eq, is_truthy, trim, keep, map, add, split, if◌then◌else◌,
}
use openclaw_bot_chat.Values.{
  Value, undefined, null, Fields, item, item_of, read_record, read_string, ◌<|>◌,
}
use openclaw_bot_chat.Topics.{slash}
use openclaw_bot_chat.Extension.Settings.{Language, ChannelMessage, read_number}
use openclaw_bot_chat.Extension.Messages.{or_empty}

-- A type is the kind again, a file name the name, a content type the MIME type.
pub record BotChatAttachment : Type 0 where
  pub kind : Text
  pub url : Text
  pub name : Option Text
  pub mime_type : Option Text
  pub size : Option ℤ
  pub asset : Option Fields

-- What the host's dispatcher is given; its constants, and the names that repeat these, are left out.
pub record ReplyContext : Type 0 where
  pub body : Text
  pub command_body : Text
  pub attachments : List BotChatAttachment
  pub sender_id : Text
  pub bot_id : Text
  pub message_id : Text
  pub session_key : Text
  pub channel_id : Text

-- `readString(fs.a) ?? readString(fs.b) ?? ...`
abbrev first_text : List Text → Fields → Option Text
first_text [] fs = none
first_text (key ∷ keys) fs = read_string (item key fs) <|> first_text keys fs

abbrev if_truthy : Text → Option Text
if_truthy t = if is_truthy t then some t else none

abbrev url_keys : List Text
url_keys = txt "download_url" ∷ txt "external_url" ∷ txt "source_url" ∷ txt "url" ∷ []

module _ (l : Language) where
  abbrev attachment_of_url : Option Fields → Fields → Text → Option Text → Option BotChatAttachment
  attachment_of_url asset metadata fallback_name none = none
  attachment_of_url asset metadata fallback_name (some url) =
      let source = get_or asset metadata in
      some (record {
        kind =
            get_or
              (first_text (txt "kind" ∷ txt "type" ∷ []) source
                <|> first_text (txt "content_type" ∷ []) metadata)
              (txt "file");
        url = url;
        name = if_truthy (
            get_or
              (first_text (txt "file_name" ∷ txt "name" ∷ txt "filename" ∷ []) source
                <|> first_text (txt "file_name" ∷ txt "name" ∷ []) metadata)
              fallback_name);
        mime_type =
            first_text (txt "mime_type" ∷ txt "mimeType" ∷ txt "content_type" ∷ []) source
            <|> first_text (txt "mime_type" ∷ txt "mimeType" ∷ []) metadata;
        size =
            read_number l (item (txt "size") source) <|> read_number l (item (txt "size") metadata);
        asset = asset;
      })

  unfoldable pub build_bot_chat_attachment_from_asset :
      Option Fields → Fields → Text → Option BotChatAttachment
  build_bot_chat_attachment_from_asset asset metadata fallback_name =
      attachment_of_url asset metadata fallback_name
        (first_text url_keys (get_or asset metadata) <|> first_text url_keys metadata)

  unfoldable pub build_bot_chat_attachments : ChannelMessage → List BotChatAttachment
  unfolding build_bot_chat_attachment_from_asset
  build_bot_chat_attachments message =
      let metadata = or_empty message.metadata in
      let message_meta = read_record (item (txt "message_meta") metadata) in
      let asset =
        read_record (item (txt "asset") metadata)
        <|> (read_record (item_of (txt "asset") message_meta)
            <|> read_record (item (txt "attachment") metadata)) in
      elim (build_bot_chat_attachment_from_asset asset metadata message.text) [
        | some attachment ↦ attachment ∷ []
        | none ↦ []
      ]

  abbrev is_media_kind : Text → Bool
  is_media_kind t = text_eq t (txt "image") || (text_eq t (txt "audio") || text_eq t (txt "video"))

  abbrev first_part : List Text → Text
  first_part [] = []
  first_part (t ∷ ts) = t

  abbrev mime_kind : Option Text → Text
  mime_kind none = []
  mime_kind (some t) = l.lower (trim (first_part (split slash t)))

  unfoldable pub media_kind_of : BotChatAttachment → Text
  media_kind_of attachment =
      let mime = mime_kind attachment.mime_type in
      let raw = l.lower (trim attachment.kind) in
      if is_media_kind mime then mime else if is_media_kind raw then raw else txt "file"

  -- `[...new Set(kinds)]`
  abbrev add_all : List Text → List Text → List Text
  add_all kinds [] = kinds
  add_all kinds (t ∷ ts) = add_all (add t kinds) ts

  abbrev only_or_mixed : List Text → Text
  only_or_mixed (t ∷ []) = t
  only_or_mixed _ = txt "mixed"

  unfoldable pub resolve_open_claw_media_kind : List BotChatAttachment → Text
  unfolding media_kind_of
  resolve_open_claw_media_kind attachments =
      only_or_mixed (add_all [] (map media_kind_of attachments))

  abbrev is_name : Text → Option Text → Bool
  is_name t none = false
  is_name t (some name) = text_eq t (trim name)

  unfoldable pub normalize_bot_chat_media_caption : Text → BotChatAttachment → Text
  normalize_bot_chat_media_caption text attachment =
      let trimmed = trim text in
      if not (is_truthy trimmed)
      then []
      else if is_name trimmed attachment.name
      then []
      else if text_eq trimmed (txt "Image") && text_eq attachment.kind (txt "image")
      then []
      else trimmed

  abbrev url_lines : List Text → Text
  url_lines [] = []
  url_lines (url ∷ urls) = 0x0a ∷ (txt "- " ++ (url ++ url_lines urls))

  unfoldable pub format_visible_attachment_urls : List Text → Text
  format_visible_attachment_urls [] = []
  format_visible_attachment_urls (url ∷ []) = txt "Attachment URL: " ++ url
  format_visible_attachment_urls (url ∷ other ∷ urls) =
      txt "Attachment URLs:" ++ url_lines (url ∷ other ∷ urls)

  abbrev below : Text → Text → Text
  below caption urls =
      if not (is_truthy caption)
      then urls
      else if not (is_truthy urls)
      then caption
      else caption ++ 0x0a ∷ urls

  -- The body and the command body.
  unfoldable pub build_bot_chat_gateway_body : Text → List BotChatAttachment → Text × Text
  unfolding resolve_open_claw_media_kind normalize_bot_chat_media_caption
      format_visible_attachment_urls
  build_bot_chat_gateway_body text [] = (text, text)
  build_bot_chat_gateway_body text (attachment ∷ others) =
      let attachments = attachment ∷ others in
      let caption = normalize_bot_chat_media_caption text attachment in
      let marker = txt "<media:" ++ (resolve_open_claw_media_kind attachments ++ txt ">") in
      let visible =
        below caption
          (format_visible_attachment_urls (keep is_truthy (map (λ a. a.url) attachments))) in
      (if is_truthy visible then marker ++ b' ' ∷ visible else marker, caption)

  abbrev nullish_text : Value → Text
  nullish_text undefined = []
  nullish_text null = []
  nullish_text v = l.text_of v

  abbrev pub reply_context : Text → ChannelMessage → ReplyContext
  reply_context bot_id message =
      let attachments = build_bot_chat_attachments message in
      let bodies = build_bot_chat_gateway_body message.text attachments in
      record {
        body = bodies.0;
        command_body = bodies.1;
        attachments = attachments;
        sender_id = message.user_id;
        bot_id = bot_id;
        message_id = nullish_text (item_of (txt "message_id") message.metadata);
        session_key = txt "bot-chat:" ++ message.channel_id;
        channel_id = message.channel_id;
      }
