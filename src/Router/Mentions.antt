-- ===== src/Router/Mentions.antt =====
-- `shouldProcessMessage` of router/message.ts and the mentions of a bot that it looks for.
use openclaw_bot_chat.Base.{
  ℕ, zero, suc, ◌+◌, Bool, true, false, ◌&&◌, ◌||◌, not, Option, none, some, get_or, List, [], ◌∷◌,
  Text, txt, text_eq, is_truthy, starts_with, drop, length, contains, add, ◌==◌, if◌then◌else◌,
}
use openclaw_bot_chat.Values.{Value, str, arr, item_of, elems}
use openclaw_bot_chat.Topics.{parse_route}
use openclaw_bot_chat.Types.{SenderType, RouteTargetType, BotChatMessage}
use openclaw_bot_chat.Router.Inbound.{text_of, is_given}

abbrev pub is_user : SenderType → Bool
is_user SenderType.user = true
is_user _ = false

abbrev pub is_target_bot : Option RouteTargetType → Bool
is_target_bot (some RouteTargetType.bot) = true
is_target_bot _ = false

abbrev pub is_target_group : Option RouteTargetType → Bool
is_target_group (some RouteTargetType.group) = true
is_target_group _ = false

unfoldable pub is_group_message : BotChatMessage → Bool
is_group_message message =
    is_target_group message.to_type
    || is_given (text_of (txt "group_id") message.meta)
    || is_given
        (parse_route (get_or (text_of (txt "topic") message.meta) message.dialog_id)).group_id

-- `typeof item === "string" && item.length > 0`
unfoldable pub add_listed : List Text → Value → List Text
add_listed mentioned (str t) = if is_truthy t then add t mentioned else mentioned
add_listed mentioned _ = mentioned

unfoldable pub add_all_listed : List Text → List Value → List Text
add_all_listed mentioned [] = mentioned
add_all_listed mentioned (v ∷ vs) = add_all_listed (add_listed mentioned v) vs

abbrev pub listed_mentions : Value → List Text
listed_mentions (arr vs) = add_all_listed [] (elems vs)
listed_mentions _ = []

-- `([^>]+)>`: the text before the next `>`, if there is one; `none` if it is empty.
unfoldable pub until_close : Text → Option Text
until_close [] = none
until_close (c ∷ cs) =
    if c == b'>' then some [] else elim (until_close cs) [ none ↦ none | some t ↦ some (c ∷ t) ]

abbrev pub unless_blank : Option Text → Option Text
unless_blank none = none
unless_blank (some []) = none
unless_blank (some (c ∷ cs)) = some (c ∷ cs)

abbrev pub mention_mark : Text
mention_mark = txt "<@bot:"

-- The regular expression `/<@bot:([^>]+)>/` at the start of a text.
unfoldable pub mention_at : Text → Option Text
mention_at t = if starts_with t mention_mark then unless_blank (until_close (drop 6 t)) else none

-- `matchAll`: `skip` counts the units that the last match still covers.
unfoldable pub mentions_from : ℕ → Text → List Text
mentions_from skip [] = []
mentions_from (suc skip) (c ∷ cs) = mentions_from skip cs
mentions_from zero (c ∷ cs) = elim (mention_at (c ∷ cs)) [
  | none ↦ mentions_from 0 cs
  | some id ↦ id ∷ mentions_from (length id + 6) cs
]

unfoldable pub add_mentions : List Text → List Text → List Text
add_mentions mentioned [] = mentioned
add_mentions mentioned (id ∷ ids) = add_mentions (add id mentioned) ids

abbrev pub body_mentions : Option Text → List Text
body_mentions none = []
body_mentions (some body) = mentions_from 0 body

unfoldable pub mentioned_bot_ids : BotChatMessage → List Text
mentioned_bot_ids message =
    add_mentions (listed_mentions (item_of (txt "mentioned_bot_ids") message.meta))
      (body_mentions (text_of (txt "normalized_body") message.meta))

unfoldable pub is_message_mentioned_for_bot : BotChatMessage → Text → Bool
is_message_mentioned_for_bot message bot_id = contains bot_id (mentioned_bot_ids message)

-- `message.to_id && message.to_id !== botId`
abbrev pub is_other : Option Text → Text → Bool
is_other none bot_id = false
is_other (some t) bot_id = is_truthy t && not (text_eq t bot_id)

unfoldable pub should_process_message : BotChatMessage → Text → Bool
should_process_message message bot_id =
    if not (is_user message.from_type)
    then false
    else if text_eq message.from_id bot_id
    then false
    else if is_target_bot message.to_type && is_other message.to_id bot_id
    then false
    else if is_group_message message
    then is_message_mentioned_for_bot message bot_id
    else true
