-- ===== src/Topics.antt =====
-- Dialog identifiers and topics of plugins/openclaw-bot-chat/src/router/message.ts: reading a route
-- out of one, and the canonical identifier of a direct dialog.
pub mod Canonical
pub mod Reply
use openclaw_bot_chat.Base.{
  ℕ, Bool, true, false, ◌&&◌, Option, none, some, List, [], ◌∷◌, ◌++◌, Text, txt, text_eq, text_leb,
  is_truthy, split, ltb, ◌==◌, if◌then◌else◌,
}
use openclaw_bot_chat.Values.{Value, Fields, item_of, read_string, ◌<|>◌}

pub record RouteInfo : Type 0 where
  pub from_type : Option Text
  pub from_id : Option Text
  pub to_type : Option Text
  pub to_id : Option Text
  pub group_id : Option Text
  pub channel_id : Option Text
  pub guild_id : Option Text

abbrev pub no_route : RouteInfo
no_route = record {
  from_type = none;
  from_id = none;
  to_type = none;
  to_id = none;
  group_id = none;
  channel_id = none;
  guild_id = none;
}

-- `...(part ? { key: part } : {})`
unfoldable pub present : Text → Option Text
present t = if is_truthy t then some t else none

abbrev pub slash : ℕ
slash = b'/'

-- `kind === name`, for an optional kind
abbrev pub is_kind : Option Text → Text → Bool
is_kind none name = false
is_kind (some kind) name = text_eq kind name

-- `route.fromType === "channel" && route.fromId ? route.fromId : undefined`
abbrev pub channel_peer : Option Text → Option Text → Option Text
channel_peer kind id = if is_kind kind (txt "channel") then id else none

unfoldable pub direct_route : Text → Text → Text → Text → RouteInfo
direct_route a b c d = record no_route {
  from_type = present a;
  from_id = present b;
  to_type = present c;
  to_id = present d;
  channel_id = channel_peer (present a) (present b) <|> channel_peer (present c) (present d);
}

unfoldable pub route_of_parts : List Text → RouteInfo
unfolding direct_route
route_of_parts (a ∷ b ∷ c ∷ []) =
    if text_eq a (txt "chat") && text_eq b (txt "group")
    then record no_route { group_id = present c }
    else if text_eq a (txt "chat") && text_eq b (txt "channel")
    then record no_route { channel_id = present c }
    else no_route
route_of_parts (a ∷ b ∷ c ∷ d ∷ e ∷ []) =
    if text_eq a (txt "chat") && text_eq b (txt "guild") && text_eq d (txt "channel")
    then record no_route { guild_id = present c; channel_id = present e }
    else no_route
route_of_parts (a ∷ b ∷ c ∷ d ∷ e ∷ f ∷ []) =
    if text_eq a (txt "chat") && text_eq b (txt "dm") then direct_route c d e f else no_route
route_of_parts _ = no_route

unfoldable pub parse_route : Text → RouteInfo
parse_route dialog_id =
    if is_truthy dialog_id then route_of_parts (split slash dialog_id) else no_route

pub record Peer : Type 0 where
  pub kind : Text
  pub id : Text

unfoldable pub direct_peer_rank : Text → ℕ
direct_peer_rank kind =
    if text_eq kind (txt "user")
    then 0
    else if text_eq kind (txt "bot")
    then 1
    else if text_eq kind (txt "channel")
    then 2
    else if text_eq kind (txt "system")
    then 3
    else 4

unfoldable pub canonicalize_direct_peers : Peer → Peer → Peer × Peer
canonicalize_direct_peers left right =
    if direct_peer_rank left.kind == direct_peer_rank right.kind
    then if text_leb left.id right.id then (left, right) else (right, left)
    else if ltb (direct_peer_rank left.kind) (direct_peer_rank right.kind)
    then (left, right)
    else (right, left)

abbrev pub direct_topic : Peer × Peer → Text
direct_topic (left, right) =
    txt "chat/dm/" ++ (left.kind ++ slash ∷ (left.id ++ slash ∷ (right.kind ++ slash ∷ right.id)))

unfoldable pub canonical_direct_dialog_id : Peer → Peer → Text
canonical_direct_dialog_id left right = direct_topic (canonicalize_direct_peers left right)

abbrev pub group_topic : Text → Text
group_topic id = txt "chat/group/" ++ id

abbrev pub direct_dialog_id : Option Text → Option Text → Option Text → Option Text → Option Text
direct_dialog_id (some a) (some b) (some c) (some d) =
    some (canonical_direct_dialog_id (record { kind = a; id = b }) (record { kind = c; id = d }))
direct_dialog_id _ _ _ _ = none

abbrev pub reply_topic_of : RouteInfo → Option Text → Option Text
reply_topic_of route (some id) = some (group_topic id)
reply_topic_of route none = direct_dialog_id route.from_type route.from_id route.to_type route.to_id

-- The parameter `botId` of the source is not read.
unfoldable pub build_reply_topic : Text → Option Text
build_reply_topic dialog_id =
    let route = parse_route dialog_id in reply_topic_of route route.group_id

abbrev group_of : Option Text → Option Text → Option Text
group_of kind id = if is_kind kind (txt "group") then id else none

abbrev dialog_of_group : Option Text → Option Text → Option Text
dialog_of_group (some id) direct = some (group_topic id)
dialog_of_group none direct = direct

unfoldable pub derive_dialog_id : Option Fields → Option Fields → Option Text
derive_dialog_id from to =
    let from_type = read_string (item_of (txt "type") from) in
    let from_id = read_string (item_of (txt "id") from) in
    let to_type = read_string (item_of (txt "type") to) in
    let to_id = read_string (item_of (txt "id") to) in
    dialog_of_group (group_of to_type to_id) (direct_dialog_id from_type from_id to_type to_id)
