-- ===== src/Permissions.antt =====
-- plugins/openclaw-bot-chat/src/types/permissions.ts: allowlists, action switches and the check
-- that a message passes before it reaches the agent. `toLocaleLowerCase` depends on the host's
-- locale and is the parameter `lower`. A configured list (`AllowList | string[]`) is a value.
pub mod Lists
pub mod Check
use openclaw_bot_chat.Base.{
  ◌≡◌, Bool, true, false, not, ◌&&◌, ◌||◌, Option, none, some, get_or, List, [], ◌∷◌, ◌++◌, String,
  Text, txt, text_eq, is_truthy, trim, if◌then◌else◌, any as any_of, contains, add,
}
use openclaw_bot_chat.Values.{
  Value, str, arr, obj, Items, nil, cons, Fields, end, field, item, single, elems,
}

pub data MatchMode : Type 0 where
  id name any : MatchMode

pub record AllowList : Type 0 where
  pub items : List Text
  pub match_mode : MatchMode

pub data Action : Type 0 where
  send_message send_image typing reactions threads : Action

pub record ActionPermissions : Type 0 where
  pub send_message : Bool
  pub send_image : Bool
  pub typing : Bool
  pub reactions : Bool
  pub threads : Bool

-- `Partial<ActionPermissions>`
pub record PartialActions : Type 0 where
  pub send_message : Option Bool
  pub send_image : Option Bool
  pub typing : Option Bool
  pub reactions : Option Bool
  pub threads : Option Bool

pub data GroupPolicy : Type 0 where
  open_to_all allowlist disabled : GroupPolicy

pub data ChannelType : Type 0 where
  dm group channel : ChannelType

pub data PermissionCode : Type 0 where
  action_disabled bot_disabled channel_not_allowed group_disabled group_not_allowed
        user_not_allowed :
      PermissionCode

pub record PermissionCheck : Type 0 where
  pub allowed : Bool
  pub code : Option PermissionCode
  pub reason : Option Text
  pub required : Option (List Text)

pub record PermissionContext : Type 0 where
  pub user_id : Text
  pub channel_id : Text
  pub bot_id : Text
  pub user_name : Option Text
  pub channel_name : Option Text
  pub channel_type : Option ChannelType

pub record PermissionScopedBotConfig : Type 0 where
  pub id : Option Text
  pub enabled : Bool
  pub channels : Value
  pub users : Value
  pub group_policy : Option GroupPolicy
  pub actions : Option PartialActions

abbrev pub default_action_permissions : ActionPermissions
default_action_permissions = record {
  send_message = true;
  send_image = true;
  typing = true;
  reactions = false;
  threads = false;
}

pub data TargetKind : Type 0 where
  id name : TargetKind

pub record AllowListTarget : Type 0 where
  pub kind : TargetKind
  pub value : Text

unfoldable pub resolve_action_permissions : Option PartialActions → ActionPermissions
resolve_action_permissions none = default_action_permissions
resolve_action_permissions (some given) = record {
  send_message = get_or given.send_message default_action_permissions.send_message;
  send_image = get_or given.send_image default_action_permissions.send_image;
  typing = get_or given.typing default_action_permissions.typing;
  reactions = get_or given.reactions default_action_permissions.reactions;
  threads = get_or given.threads default_action_permissions.threads;
}

-- One round of the loop of `normalizeItems`.
unfoldable pub add_item : List Text → Value → List Text
add_item items (str t) = if is_truthy (trim t) then add (trim t) items else items
add_item items _ = items

unfoldable pub normalize_items_from : List Text → List Value → List Text
unfolding add_item
normalize_items_from items [] = items
normalize_items_from items (v ∷ vs) = normalize_items_from (add_item items v) vs

unfoldable pub normalize_items : List Value → List Text
unfolding normalize_items_from
normalize_items values = normalize_items_from [] values

unfoldable pub read_match_mode : Value → Option MatchMode
read_match_mode (str t) =
    if text_eq t (txt "id")
    then some MatchMode.id
    else if text_eq t (txt "name")
    then some MatchMode.name
    else if text_eq t (txt "any")
    then some MatchMode.any
    else none
read_match_mode _ = none

abbrev when_any_item : List Text → MatchMode → Option AllowList
when_any_item [] mode = none
when_any_item (t ∷ ts) mode = some (record { items = t ∷ ts; match_mode = mode })

normalize_listed : Value → MatchMode → Option AllowList
normalize_listed (arr vs) mode = when_any_item (normalize_items (elems vs)) mode
normalize_listed _ mode = none

unfoldable pub normalize_allow_list : Value → Option AllowList
unfolding normalize_listed
normalize_allow_list (arr vs) = normalize_listed (arr vs) MatchMode.any
normalize_allow_list (obj fs) =
    normalize_listed (item (txt "items") fs)
      (get_or (read_match_mode (item (txt "matchMode") fs)) MatchMode.any)
normalize_allow_list _ = none

abbrev pub mode_name : MatchMode → Text
mode_name MatchMode.id = txt "id"
mode_name MatchMode.name = txt "name"
mode_name MatchMode.any = txt "any"

abbrev pub strings : List Text → Items
strings [] = nil
strings (t ∷ ts) = cons (str t) (strings ts)

-- An `AllowList | undefined` as the value that it is.
unfoldable pub allow_list_value : Option AllowList → Value
allow_list_value none = Value.undefined
allow_list_value (some list) = obj (
    field (txt "items") (arr (strings list.items))
      (single (txt "matchMode") (str (mode_name list.match_mode))))

abbrev pub action_name : Action → Text
action_name send_message = txt "sendMessage"
action_name send_image = txt "sendImage"
action_name typing = txt "typing"
action_name reactions = txt "reactions"
action_name threads = txt "threads"

abbrev pub allows : ActionPermissions → Action → Bool
allows p send_message = p.send_message
allows p send_image = p.send_image
allows p typing = p.typing
allows p reactions = p.reactions
allows p threads = p.threads

unfoldable pub deny : PermissionCode → Text → List Text → PermissionCheck
deny code reason required = record {
  allowed = false;
  code = some code;
  reason = some reason;
  required = some required;
}

abbrev pub granted : PermissionCheck
granted = record { allowed = true; code = none; reason = none; required = none }

abbrev pub is_scoped : Option ChannelType → Bool
is_scoped none = false
is_scoped (some dm) = false
is_scoped (some group) = true
is_scoped (some channel) = true

abbrev pub is_disabled : GroupPolicy → Bool
is_disabled disabled = true
is_disabled open_to_all = false
is_disabled allowlist = false

abbrev pub is_allowlist : GroupPolicy → Bool
is_allowlist allowlist = true
is_allowlist open_to_all = false
is_allowlist disabled = false

-- `...(value ? [{ kind: "name", value }] : [])`
abbrev pub name_target : Option Text → List AllowListTarget
name_target none = []
name_target (some t) = if is_truthy t then record { kind = TargetKind.name; value = t } ∷ [] else []

abbrev pub targets : Text → Option Text → List AllowListTarget
targets key label = record { kind = TargetKind.id; value = key } ∷ name_target label

-- The two `continue` tests on the match mode.
abbrev pub suits : MatchMode → TargetKind → Bool
suits MatchMode.id TargetKind.id = true
suits MatchMode.id TargetKind.name = false
suits MatchMode.name TargetKind.id = false
suits MatchMode.name TargetKind.name = true
suits MatchMode.any TargetKind.id = true
suits MatchMode.any TargetKind.name = true

module _ (lower : Text → Text) where
  abbrev pub same_name : Text → Text → Bool
  same_name t item = text_eq (lower item) (lower t)

  unfoldable pub is_listed : MatchMode → Text → List Text → Bool
  is_listed MatchMode.id t items = contains t items
  is_listed MatchMode.name t items = any_of (same_name t) items
  is_listed MatchMode.any t items = contains t items || any_of (same_name t) items

  unfoldable pub is_in_allow_list : Text → Option AllowList → Bool
  unfolding is_listed
  is_in_allow_list target none = false
  is_in_allow_list target (some list) =
      is_truthy (trim target) && is_listed list.match_mode (trim target) list.items

  unfoldable pub matches_allow_list : AllowList → List AllowListTarget → Bool
  unfolding is_in_allow_list
  matches_allow_list list [] = false
  matches_allow_list list (t ∷ ts) =
      is_truthy (trim t.value)
        && suits list.match_mode t.kind
        && is_in_allow_list t.value (some list)
      || matches_allow_list list ts

  -- `list && !matchesAllowList(list, targets)`
  unfoldable pub is_refused : Option AllowList → List AllowListTarget → Bool
  is_refused none ts = false
  is_refused (some list) ts = not (matches_allow_list list ts)

  unfoldable pub check_channel :
      Option AllowList → Bool → GroupPolicy → List AllowListTarget → PermissionCheck
  check_channel (some list) scoped policy ts =
      if matches_allow_list list ts
      then granted
      else deny channel_not_allowed (txt "channel is not in the allowlist") (txt "channels" ∷ [])
  check_channel none scoped policy ts =
      if scoped && is_allowlist policy
      then deny group_not_allowed (txt "group and channel conversations require an allowlist entry")
          (txt "channels" ∷ [])
      else granted

  unfoldable pub check_permission :
      Action → PermissionContext → PermissionScopedBotConfig → PermissionCheck
  check_permission action context config =
      let policy = get_or config.group_policy open_to_all in
      if not config.enabled
      then deny bot_disabled (txt "bot is disabled") (txt "bot.enabled" ∷ [])
      else if not (allows (resolve_action_permissions config.actions) action)
      then deny action_disabled (txt "action \"" ++ action_name action ++ txt "\" is disabled")
          ((txt "actions." ++ action_name action) ∷ [])
      else if is_refused (normalize_allow_list config.users)
          (targets context.user_id context.user_name)
      then deny user_not_allowed (txt "user is not in the allowlist") (txt "users" ∷ [])
      else if is_scoped context.channel_type && is_disabled policy
      then deny group_disabled (txt "group and channel conversations are disabled")
          (txt "groupPolicy" ∷ [])
      else check_channel (normalize_allow_list config.channels) (is_scoped context.channel_type)
          policy (targets context.channel_id context.channel_name)
