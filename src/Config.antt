-- ===== src/Config.antt =====
-- plugins/openclaw-bot-chat/src/config.ts: the readers of settings. A setting of the file is a
-- value; a variable of the environment is a text or undefined.
pub mod Bots
pub mod Loading
pub mod Readers
pub mod Valid
pub mod Complete
pub mod Overrides
pub mod Enabled
use openclaw_bot_chat.Base.{
  ℕ, ℤ, Bool, true, false, not, ◌&&◌, Option, none, some, List, [], ◌∷◌, Text, txt, text_eq,
  is_truthy, trim, ◌==◌, ◌||◌, if◌then◌else◌,
}
use openclaw_bot_chat.Values.{
  Value, undefined, bool, num, str, Fields, obj, item, non_blank, parse_int,
}
use openclaw_bot_chat.Permissions.{GroupPolicy, PartialActions}

pub data ChannelPolicy : Type 0 where
  open_to_all allowlist : ChannelPolicy

-- What is thrown while the settings are read.
pub data ConfigError : Type 0 where
  unreadable_file backend_url_required default_bot_missing bot_key_required : ConfigError
  access_key_required : Text → ConfigError
  bot_not_configured : Text → ConfigError

pub data Result {ℓ} (A : Type ℓ) : Type ℓ where
  ok : A → Result A
  error : ConfigError → Result A

infixl 5 ◌>>=◌ ◌>>◌
abbrev pub ◌>>=◌ {ℓ κ} : {A : Type ℓ} {B : Type κ} → Result A → (A → Result B) → Result B
ok a >>= f = f a
error e >>= f = error e

abbrev pub ◌>>◌ {ℓ} : {B : Type ℓ} → Result (Unit {0}) → Result B → Result B
m >> k = m >>= λ _. k

-- `string | undefined` as the value that it is.
abbrev pub text_value : Option Text → Value
text_value none = undefined
text_value (some t) = str t

-- `readString(...values)`: the first value that is a text and not blank, trimmed.
unfoldable pub read_strings : List Value → Option Text
read_strings [] = none
read_strings (str t ∷ values) = elim (non_blank t) [
  | some trimmed ↦ some trimmed
  | none ↦ read_strings values
]
read_strings (_ ∷ values) = read_strings values

abbrev integer_or : ℤ → Option ℤ → ℤ
integer_or fallback none = fallback
integer_or fallback (some n) = n

unfoldable pub read_integer : Value → ℤ → ℤ
read_integer (num n) fallback = n
read_integer (str t) fallback =
    if is_truthy (trim t) then integer_or fallback (parse_int t) else fallback
read_integer _ fallback = fallback

unfoldable pub read_boolean : (Text → Text) → Value → Bool → Bool
read_boolean lower (bool b) fallback = b
read_boolean lower (str t) fallback =
    let normalized = lower (trim t) in
    if text_eq normalized (txt "true")
    then true
    else if text_eq normalized (txt "false")
    then false
    else fallback
read_boolean lower _ fallback = fallback

abbrev switch : Value → Option Bool
switch (bool b) = some b
switch _ = none

abbrev is_given : Option Bool → Bool
is_given none = false
is_given (some b) = true

-- `Object.keys(actions).length > 0`
abbrev any_given : PartialActions → Bool
any_given actions =
    is_given actions.send_message
    || is_given actions.send_image
    || is_given actions.typing
    || is_given actions.reactions
    || is_given actions.threads

abbrev actions_of : Fields → PartialActions
actions_of fs = record {
  send_message = switch (item (txt "sendMessage") fs);
  send_image = switch (item (txt "sendImage") fs);
  typing = switch (item (txt "typing") fs);
  reactions = switch (item (txt "reactions") fs);
  threads = switch (item (txt "threads") fs);
}

abbrev when_any_action : PartialActions → Option PartialActions
when_any_action actions = if any_given actions then some actions else none

unfoldable pub read_actions : Value → Option PartialActions
read_actions (obj fs) = when_any_action (actions_of fs)
read_actions _ = none

abbrev channel_policy : Value → Option ChannelPolicy
channel_policy (str t) =
    if text_eq t (txt "open")
    then some ChannelPolicy.open_to_all
    else if text_eq t (txt "allowlist")
    then some ChannelPolicy.allowlist
    else none
channel_policy _ = none

unfoldable pub read_channel_policy : List Value → ChannelPolicy
read_channel_policy [] = ChannelPolicy.open_to_all
read_channel_policy (value ∷ values) = elim (channel_policy value) [
  | some policy ↦ policy
  | none ↦ read_channel_policy values
]

-- `defaultChannelPolicy === "allowlist" ? "allowlist" : "open"`
abbrev pub policy_for_groups : ChannelPolicy → GroupPolicy
policy_for_groups ChannelPolicy.allowlist = GroupPolicy.allowlist
policy_for_groups ChannelPolicy.open_to_all = GroupPolicy.open_to_all

unfoldable pub read_group_policy : Value → ChannelPolicy → GroupPolicy
read_group_policy (str t) default =
    if text_eq t (txt "open")
    then GroupPolicy.open_to_all
    else if text_eq t (txt "allowlist")
    then GroupPolicy.allowlist
    else if text_eq t (txt "disabled")
    then GroupPolicy.disabled
    else policy_for_groups default
read_group_policy _ default = policy_for_groups default

-- `text.replace(/\/+$/, "")`
unfoldable pub strip_slashes : Text → Text
strip_slashes [] = []
strip_slashes (c ∷ cs) =
    let rest = strip_slashes cs in if c == b'/' && not (is_truthy rest) then [] else c ∷ rest

unfoldable pub normalize_base_url : Text → Text
normalize_base_url base_url = strip_slashes (trim base_url)
