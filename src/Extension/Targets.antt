-- ===== src/Extension/Targets.antt =====
-- Targets of extensions/openclaw-bot-chat/src/runtime.ts: `parseBotChatTarget`, the topics of direct
-- and group conversations, `buildBotChatOutboundMessageTarget`.
pub mod Normal
pub mod Required
pub mod Topics
use openclaw_bot_chat.Base.{
  ℕ, ◌+◌, Bool, true, false, not, ◌&&◌, ◌||◌, Option, none, some, get_or, List, [], ◌∷◌, ◌++◌, Text,
  txt, text_eq, text_leb, is_truthy, starts_with, trim, split, leb, ◌==◌, drop, length, any,
  if◌then◌else◌,
}
use openclaw_bot_chat.Values.{Fields, item_of, read_string, ◌<|>◌}
use openclaw_bot_chat.Topics.{slash}

pub data Kind : Type 0 where
  direct channel : Kind

pub record BotChatTarget : Type 0 where
  pub kind : Kind
  pub id : Text
  pub raw : Text

-- A target that is blank, or whose identifier is, is refused.
pub data Parsed : Type 0 where
  target : BotChatTarget → Parsed
  target_required target_id_required : Parsed

-- `toLowerCase` of an ASCII unit.
unfoldable pub lower_unit : ℕ → ℕ
lower_unit c = if leb b'A' c && leb c b'Z' then c + 32 else c

-- The text after a word and a colon, if it begins so, whatever the case of its letters.
unfoldable pub after_word : Text → Text → Option Text
after_word [] [] = none
after_word [] (c ∷ cs) = if c == b':' then some cs else none
after_word (w ∷ ws) [] = none
after_word (w ∷ ws) (c ∷ cs) = if lower_unit c == w then after_word ws cs else none

unfoldable pub is_line_end : ℕ → Bool
is_line_end c = c == 0x0a || c == 0x0d || c == 0x2028 || c == 0x2029

-- The part `(.+)$` of the pattern: not empty, and on one line.
abbrev pub on_one_line : Option Text → Option Text
on_one_line none = none
on_one_line (some rest) = if is_truthy rest && not (any is_line_end rest) then some rest else none

-- `/^word:(.+)$/i`
unfoldable pub matched : Text → Text → Option Text
unfolding after_word is_line_end
matched word t = on_one_line (after_word word t)

unfoldable pub strip_front_slashes : Text → Text
strip_front_slashes [] = []
strip_front_slashes (c ∷ cs) =
    let rest = strip_front_slashes cs in if c == slash then rest else c ∷ cs

abbrev pub group_prefix : Text
group_prefix = txt "chat/group/"

unfoldable pub build_bot_chat_group_topic : Text → Text
unfolding strip_front_slashes
build_bot_chat_group_topic group_id =
    let trimmed = strip_front_slashes (trim group_id) in
    if starts_with trimmed group_prefix then trimmed else group_prefix ++ trimmed

-- The kinds that the pattern lists, in its order.
unfoldable pub direct_match : Text → Option Text
unfolding matched
direct_match t = matched (txt "dm") t <|> (matched (txt "direct") t <|> matched (txt "user") t)

unfoldable pub channel_match : Text → Option Text
unfolding matched
channel_match t = matched (txt "channel") t <|> matched (txt "conversation") t

abbrev pub with_id : (Text → BotChatTarget) → Text → Parsed
with_id make id = if is_truthy id then target (make id) else target_id_required

abbrev pub direct_target : Text → Text → BotChatTarget
direct_target raw id = record { kind = direct; id = id; raw = raw }

abbrev pub channel_target : Text → Text → BotChatTarget
channel_target raw id = record { kind = channel; id = id; raw = raw }

abbrev pub group_target : Text → Text → BotChatTarget
group_target raw id = record { kind = channel; id = build_bot_chat_group_topic id; raw = raw }

abbrev pub matched_target : Text → Option Text → Option Text → Option Text → Parsed
matched_target raw (some id) c g = with_id (direct_target raw) (trim id)
matched_target raw none (some id) g = with_id (channel_target raw) (trim id)
matched_target raw none none (some id) = with_id (group_target raw) (trim id)
matched_target raw none none none = target (channel_target raw raw)

unfoldable pub parse_bot_chat_target : Text → Parsed
unfolding direct_match channel_match
parse_bot_chat_target raw =
    let trimmed = trim raw in
    if is_truthy trimmed
    then matched_target trimmed (direct_match trimmed) (channel_match trimmed)
        (matched (txt "group") trimmed)
    else target_required

abbrev pub prefix_of : Kind → Text
prefix_of direct = txt "dm:"
prefix_of channel = txt "channel:"

-- `none` where the parse throws.
abbrev pub normalized_target : Parsed → Option Text
normalized_target (target t) = some (prefix_of t.kind ++ t.id)
normalized_target target_required = none
normalized_target target_id_required = none

unfoldable pub normalize_bot_chat_target : Text → Option Text
unfolding parse_bot_chat_target
normalize_bot_chat_target raw = normalized_target (parse_bot_chat_target raw)

pub record BotChatPeer : Type 0 where
  pub is_user : Bool
  pub id : Text

abbrev peer_name : Bool → Text
peer_name true = txt "user"
peer_name false = txt "bot"

abbrev pub canonicalize_bot_chat_direct_peers :
    BotChatPeer → BotChatPeer → BotChatPeer × BotChatPeer
canonicalize_bot_chat_direct_peers left right =
    if left.is_user && not right.is_user
    then (left, right)
    else if right.is_user && not left.is_user
    then (right, left)
    else if text_leb left.id right.id
    then (left, right)
    else (right, left)

abbrev canonical_topic : BotChatPeer × BotChatPeer → Text
canonical_topic (first, second) =
    txt "chat/dm/"
    ++ (peer_name first.is_user
        ++ slash ∷ (first.id ++ slash ∷ (peer_name second.is_user ++ slash ∷ second.id)))

unfoldable pub build_canonical_bot_chat_direct_topic : BotChatPeer → BotChatPeer → Text
build_canonical_bot_chat_direct_topic left right =
    canonical_topic (canonicalize_bot_chat_direct_peers left right)

unfoldable pub build_bot_chat_direct_topic : Text → Text → Text
unfolding build_canonical_bot_chat_direct_topic
build_bot_chat_direct_topic user_id bot_id =
    build_canonical_bot_chat_direct_topic (record { is_user = true; id = user_id })
      (record { is_user = false; id = bot_id })

pub data RecipientType : Type 0 where
  user group : RecipientType

unfoldable pub infer_bot_chat_recipient_type : Text → RecipientType
infer_bot_chat_recipient_type channel_id =
    if starts_with channel_id group_prefix then RecipientType.group else RecipientType.user

unfoldable pub is_bot_chat_conversation_topic : Text → Bool
is_bot_chat_conversation_topic value =
    starts_with value (txt "chat/dm/") || starts_with value group_prefix

unfoldable pub user_of_parts : Text → List Text → Option Text
user_of_parts bot_id (a ∷ b ∷ c ∷ d ∷ e ∷ f ∷ []) =
    if not (text_eq a (txt "chat") && text_eq b (txt "dm"))
    then none
    else if text_eq c (txt "user") && text_eq e (txt "bot") && text_eq f bot_id
    then some d
    else if text_eq e (txt "user") && text_eq c (txt "bot") && text_eq d bot_id
    then some f
    else none
user_of_parts bot_id _ = none

unfoldable pub infer_bot_chat_direct_user_id : Text → Text → Option Text
unfolding user_of_parts
infer_bot_chat_direct_user_id value bot_id = user_of_parts bot_id (split slash value)

pub record OutboundTarget : Type 0 where
  pub channel_id : Text
  pub user_id : Text
  pub normalized_target : Text
  pub chat_type : Kind
  pub publish_topic : Text
  pub recipient_type : RecipientType

module _ (bot_id : Text) (metadata : Option Fields) where
  abbrev pub outbound_direct : Text → OutboundTarget
  outbound_direct user_id =
      let channel_id = build_bot_chat_direct_topic user_id bot_id in
      record {
        channel_id = channel_id;
        user_id = user_id;
        normalized_target = txt "dm:" ++ user_id;
        chat_type = direct;
        publish_topic = channel_id;
        recipient_type = RecipientType.user;
      }

  abbrev outbound_channel : Text → OutboundTarget
  outbound_channel id = record {
    channel_id = id;
    user_id =
        get_or (read_string (item_of (txt "userId") metadata))
          (get_or (infer_bot_chat_direct_user_id id bot_id) bot_id);
    normalized_target = txt "channel:" ++ id;
    chat_type = channel;
    publish_topic = id;
    recipient_type = infer_bot_chat_recipient_type id;
  }

  abbrev outbound_of : Kind → Text → OutboundTarget
  outbound_of direct id = outbound_direct id
  outbound_of channel id = outbound_channel id

  abbrev outbound_parsed : Parsed → Option OutboundTarget
  outbound_parsed (target t) = some (outbound_of t.kind t.id)
  outbound_parsed target_required = none
  outbound_parsed target_id_required = none

  -- `none` where the parse throws.
  unfoldable pub build_bot_chat_outbound_message_target : Text → Option OutboundTarget
  unfolding parse_bot_chat_target
  build_bot_chat_outbound_message_target raw = outbound_parsed (parse_bot_chat_target raw)
