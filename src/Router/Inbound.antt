-- ===== src/Router/Inbound.antt =====
-- `normalizeBotChatMessage` of router/message.ts: a received payload as a message, or none.
-- The host's `Date.parse`, the time in seconds and a fresh UUID are parameters.
use openclaw_bot_chat.Base.{
  ℤ, Bool, true, false, ◌&&◌, ◌||◌, not, Option, none, some, get_or, [], ◌∷◌, Text, txt, is_truthy,
  if◌then◌else◌,
}
use openclaw_bot_chat.Values.{
  Value, str, Fields, item, item_of, single, ◌<|>◌, read_record, read_string, read_number,
  read_timestamp, merge_meta,
}
use openclaw_bot_chat.Topics.{RouteInfo, parse_route, build_reply_topic, derive_dialog_id}
use openclaw_bot_chat.Types.{
  SenderType, RouteTargetType, BotChatMessage, sender_name, normalize_sender_type,
  normalize_recipient_type, normalize_content_type, is_text,
}

infixl 5 ◌>>=◌
abbrev ◌>>=◌ {ℓ κ} : {A : Type ℓ} {B : Type κ} → Option A → (A → Option B) → Option B
none >>= f = none
some a >>= f = f a

-- `if (!text) return null`
abbrev unless_empty : Option Text → Option Text
unless_empty none = none
unless_empty (some t) = if is_truthy t then some t else none

abbrev pub text_at : Text → Fields → Option Text
text_at key raw = read_string (item key raw)

abbrev pub text_of : Text → Option Fields → Option Text
text_of key raw = read_string (item_of key raw)

unfoldable pub dialog_id_of : Fields → Option Text → Option Text
dialog_id_of raw fallback_topic =
    text_at (txt "dialog_id") raw
    <|> text_at (txt "conversation_id") raw
    <|> text_at (txt "mqtt_topic") raw
    <|> fallback_topic
    <|> derive_dialog_id (read_record (item (txt "from") raw)) (read_record (item (txt "to") raw))

unfoldable pub from_type_of : Fields → SenderType
from_type_of raw = normalize_sender_type (
    text_at (txt "from_type") raw
    <|> text_at (txt "sender_type") raw
    <|> text_of (txt "type") (read_record (item (txt "from") raw)))

unfoldable pub from_id_of : Fields → Option Text
from_id_of raw =
    text_at (txt "from_id") raw
    <|> text_at (txt "sender_id") raw
    <|> text_of (txt "id") (read_record (item (txt "from") raw))
    <|> text_at (txt "bot_id") raw

pub record Recipient : Type 0 where
  pub kind : Option RouteTargetType
  pub id : Option Text

abbrev pub is_given {ℓ} : {A : Type ℓ} → Option A → Bool
is_given none = false
is_given (some a) = true

-- The recipient that the payload names, completed by the given ends of the route.
abbrev complete : Recipient → Option Text → Option Text → Recipient
complete to kind id = record { kind = to.kind <|> normalize_recipient_type kind; id = to.id <|> id }

unfoldable pub complete_recipient : RouteInfo → SenderType → Text → Recipient → Recipient
complete_recipient route from_type from_id to =
    if (not (is_given to.kind) || not (is_given to.id))
      && (is_given route.from_type
          && is_given route.from_id
          && is_given route.to_type
          && is_given route.to_id)
    then if is_text route.from_type (sender_name from_type) && is_text route.from_id from_id
      then complete to route.to_type route.to_id
      else if is_text route.to_type (sender_name from_type) && is_text route.to_id from_id
      then complete to route.from_type route.from_id
      else to
    else to

unfoldable pub recipient_of : Fields → Recipient
recipient_of raw =
    let to = read_record (item (txt "to") raw) in
    record {
      kind = normalize_recipient_type (text_at (txt "to_type") raw <|> text_of (txt "type") to);
      id = text_at (txt "to_id") raw <|> text_of (txt "id") to;
    }

unfoldable pub body_of : Fields → Option Text
body_of raw =
    text_at (txt "body") raw
    <|> text_of (txt "body") (read_record (item (txt "content") raw))
    <|> text_at (txt "content") raw

unfoldable pub content_kind_of : Fields → Option Text
content_kind_of raw =
    text_at (txt "content_type") raw
    <|> text_at (txt "msg_type") raw
    <|> text_of (txt "type") (read_record (item (txt "content") raw))

-- `text ? { [key]: text } : undefined`
abbrev pub property : Text → Option Text → Option Fields
property key none = none
property key (some t) = if is_truthy t then some (single key (str t)) else none

abbrev pub copied : Text → Fields → Option Fields
copied key raw = property key (text_at key raw)

unfoldable pub meta_of : Fields → Option Text → Text → Option Fields
meta_of raw fallback_topic dialog_id = merge_meta (
    read_record (item (txt "meta") raw)
    ∷ read_record (item (txt "metadata") raw)
    ∷ read_record (item_of (txt "meta") (read_record (item (txt "content") raw)))
    ∷ property (txt "topic") fallback_topic
    ∷ property (txt "reply_topic") (build_reply_topic dialog_id)
    ∷ copied (txt "channel_id") raw
    ∷ copied (txt "channel_name") raw
    ∷ copied (txt "guild_id") raw
    ∷ copied (txt "group_id") raw
    ∷ copied (txt "group_name") raw
    ∷ copied (txt "user_id") raw
    ∷ copied (txt "user_name") raw
    ∷ copied (txt "from_name") raw
    ∷ [])

module _ (date_parse : Text → Option ℤ) (now : ℤ) (fresh : Text) where
  unfoldable pub timestamp_of : Fields → ℤ
  timestamp_of raw =
      get_or
        (read_timestamp date_parse (item (txt "timestamp") raw)
          <|> read_timestamp date_parse (item (txt "created_at") raw))
        now

  unfoldable pub normalize_record : Fields → Option Text → Option BotChatMessage
  normalize_record raw fallback_topic = do
    dialog_id ← unless_empty (dialog_id_of raw fallback_topic)
    from_id ← from_id_of raw
    body ← body_of raw
    let from_type = from_type_of raw
    let to = complete_recipient (parse_route dialog_id) from_type from_id (recipient_of raw)
    some (record {
      message_id = get_or (text_at (txt "message_id") raw <|> text_at (txt "id") raw) fresh;
      dialog_id = dialog_id;
      from_type = from_type;
      from_id = from_id;
      to_type = to.kind;
      to_id = to.id;
      content_type = normalize_content_type (content_kind_of raw);
      body = body;
      meta = meta_of raw fallback_topic dialog_id;
      timestamp = timestamp_of raw;
      seq = read_number (item (txt "seq") raw);
    })

  unfoldable pub normalize_message : Value → Option Text → Option BotChatMessage
  unfolding normalize_record
  normalize_message raw fallback_topic = do
    fields ← read_record raw
    normalize_record fields fallback_topic
