-- ===== src/Web.antt =====
-- Topics and conversations of the web client, frontend/src/lib/chat.ts: `parseChatTopic`,
-- `conversationIdFromTopic`, `buildConversationFromTopic`, and the order of messages.
pub mod Agreed
use openclaw_bot_chat.Base.{
  ℕ, ℤ, pos, Bool, true, false, not, ◌&&◌, ◌||◌, Option, none, some, get_or, List, [], ◌∷◌, ◌++◌,
  Text, txt, text_eq, text_leb, is_truthy, split, ltb, take, ◌==◌, if◌then◌else◌,
}
use openclaw_bot_chat.Values.{◌<|>◌}
use openclaw_bot_chat.Topics.{Peer, slash}

pub data ChatRoute : Type 0 where
  direct : Peer → Peer → ChatRoute
  group : Text → ChatRoute
  unknown : ChatRoute

abbrev pub peer_of : Text → Text → Peer
peer_of kind id = record { kind = kind; id = id }

unfoldable pub chat_route_of_parts : List Text → ChatRoute
chat_route_of_parts (a ∷ b ∷ c ∷ []) =
    if text_eq a (txt "chat") && text_eq b (txt "group") then group c else unknown
chat_route_of_parts (a ∷ b ∷ c ∷ d ∷ e ∷ f ∷ []) =
    if text_eq a (txt "chat") && text_eq b (txt "dm")
    then direct (peer_of c d) (peer_of e f)
    else unknown
chat_route_of_parts _ = unknown

unfoldable pub parse_chat_topic : Text → ChatRoute
unfolding chat_route_of_parts
parse_chat_topic topic = chat_route_of_parts (split slash topic)

-- `undefined` for a kind that the types exclude.
unfoldable pub get_direct_peer_rank : Text → Option ℕ
get_direct_peer_rank kind =
    if text_eq kind (txt "user") then some 0 else if text_eq kind (txt "bot") then some 1 else none

-- `left !== right` and `left < right`, which is false where one is undefined.
abbrev pub is_other_rank : Option ℕ → Option ℕ → Bool
is_other_rank (some m) (some n) = not (m == n)
is_other_rank (some m) none = true
is_other_rank none (some n) = true
is_other_rank none none = false

abbrev pub is_lower_rank : Option ℕ → Option ℕ → Bool
is_lower_rank (some m) (some n) = ltb m n
is_lower_rank (some m) none = false
is_lower_rank none n = false

unfoldable pub canonicalize_web_peers : Peer → Peer → Peer × Peer
unfolding get_direct_peer_rank
canonicalize_web_peers left right =
    let left_rank = get_direct_peer_rank left.kind in
    let right_rank = get_direct_peer_rank right.kind in
    if is_other_rank left_rank right_rank
    then if is_lower_rank left_rank right_rank then (left, right) else (right, left)
    else if text_leb left.id right.id
    then (left, right)
    else (right, left)

abbrev pub topic_of_peers : Peer × Peer → Text
topic_of_peers (left, right) =
    txt "chat/dm/" ++ (left.kind ++ slash ∷ (left.id ++ slash ∷ (right.kind ++ slash ∷ right.id)))

unfoldable pub build_direct_topic : Peer → Peer → Text
unfolding canonicalize_web_peers
build_direct_topic left right = topic_of_peers (canonicalize_web_peers left right)

abbrev pub build_group_topic : Text → Text
build_group_topic id = txt "chat/group/" ++ id

abbrev pub conversation_id_of : ChatRoute → Option Text
conversation_id_of (group id) = some (build_group_topic id)
conversation_id_of (direct left right) = some (build_direct_topic left right)
conversation_id_of unknown = none

-- The parameter `currentUserId` of the source is not read.
unfoldable pub conversation_id_from_topic : Text → Option Text
unfolding parse_chat_topic build_direct_topic
conversation_id_from_topic topic = conversation_id_of (parse_chat_topic topic)

-- A bot or a group, as far as a conversation shows it.
pub record Entry : Type 0 where
  pub id : Text
  pub name : Text
  pub avatar : Option Text
  pub avatar_url : Option Text
  pub updated_at : Option Text
  pub created_at : Option Text

pub data ConversationType : Type 0 where
  bot_type group_type : ConversationType

-- A conversation that is made from a topic; it has no last message and no unread ones yet. Its
-- target has its type.
pub record Conversation : Type 0 where
  pub id : Text
  pub type_of : ConversationType
  pub name : Text
  pub avatar : Option Text
  pub participants : List Text
  pub topics : List Text
  pub send_topic : Text
  pub target_id : Text
  pub updated_at : Option Text
  pub created_at : Option Text

abbrev pub find_entry : Text → List Entry → Option Entry
find_entry id [] = none
find_entry id (e ∷ es) = if text_eq e.id id then some e else find_entry id es

abbrev truthy_of : Option Text → Option Text
truthy_of none = none
truthy_of (some t) = if is_truthy t then some t else none

-- `avatar || avatar_url || null`
abbrev first_truthy : Option Text → Option Text → Option Text
first_truthy a b = truthy_of a <|> truthy_of b

-- `entry?.name || other`
abbrev name_or : Text → Option Entry → Text
name_or other none = other
name_or other (some e) = if is_truthy e.name then e.name else other

abbrev avatar_of : Option Entry → Option Text
avatar_of none = none
avatar_of (some e) = first_truthy e.avatar e.avatar_url

abbrev updated_of : Option Entry → Option Text
updated_of none = none
updated_of (some e) = e.updated_at

abbrev created_of : Option Entry → Option Text
created_of none = none
created_of (some e) = e.created_at

abbrev pub conversation_with :
    ConversationType → Text → Text → List Text → Text → Option Entry → Conversation
conversation_with kind topic target_id participants name entry = record {
  id = topic;
  type_of = kind;
  name = name_or name entry;
  avatar = avatar_of entry;
  participants = participants;
  topics = topic ∷ [];
  send_topic = topic;
  target_id = target_id;
  updated_at = updated_of entry;
  created_at = created_of entry;
}

-- The first of two peers that has the kind.
abbrev pub find_peer : Text → Peer → Peer → Option Peer
find_peer kind left right =
    if text_eq left.kind kind
    then some left
    else if text_eq right.kind kind
    then some right
    else none

module _ (current_user_id : Text) (bots groups : List Entry) where
  abbrev pub conversation_of_peers : Option Peer → Option Peer → Option Conversation
  conversation_of_peers (some bot) (some user) =
      if text_eq user.id current_user_id
      then some (
          conversation_with bot_type
            (build_direct_topic (peer_of (txt "user") current_user_id) (peer_of (txt "bot") bot.id))
            bot.id (current_user_id ∷ bot.id ∷ []) (txt "Bot " ++ take 8 bot.id)
            (find_entry bot.id bots))
      else none
  conversation_of_peers (some bot) none = none
  conversation_of_peers none user = none

  unfoldable pub build_conversation_from_route : ChatRoute → Option Conversation
  unfolding build_direct_topic
  build_conversation_from_route (group id) = some (
      conversation_with group_type (build_group_topic id) id (id ∷ []) (txt "Group " ++ take 8 id)
        (find_entry id groups))
  build_conversation_from_route (direct left right) =
      conversation_of_peers (find_peer (txt "bot") left right) (find_peer (txt "user") left right)
  build_conversation_from_route unknown = none

  unfoldable pub build_conversation_from_topic : Text → Option Conversation
  unfolding parse_chat_topic build_conversation_from_route
  build_conversation_from_topic topic = build_conversation_from_route (parse_chat_topic topic)

abbrev draft : ConversationType → Text → Text → List Text → Entry → Conversation
draft kind topic target_id participants e = record {
  id = topic;
  type_of = kind;
  name = e.name;
  avatar = first_truthy e.avatar e.avatar_url;
  participants = participants;
  topics = topic ∷ [];
  send_topic = topic;
  target_id = target_id;
  updated_at = none;
  created_at = none;
}

unfoldable pub create_bot_draft_conversation : Text → Entry → Conversation
create_bot_draft_conversation user_id bot =
    draft bot_type (build_direct_topic (peer_of (txt "user") user_id) (peer_of (txt "bot") bot.id))
      bot.id (user_id ∷ bot.id ∷ []) bot

unfoldable pub create_group_draft_conversation : Entry → Conversation
create_group_draft_conversation shown =
    draft group_type (build_group_topic shown.id) shown.id (shown.id ∷ []) shown
