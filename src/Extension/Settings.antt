-- ===== src/Extension/Settings.antt =====
-- Settings of extensions/openclaw-bot-chat/src/runtime.ts: `normalizeBotChatConfig`, the list of
-- senders, `evaluateBotChatAccess`, `collectBotChatConfigIssues`, `resolveBotChatAccount`.
pub mod Senders
use openclaw_bot_chat.Base.{
  ℤ, pos, ltb_ℤ, eqb_ℤ, ℕ, Bool, true, false, not, ◌&&◌, ◌||◌, Option, none, some, get_or, List, [],
  ◌∷◌, ◌++◌, Text, txt, text_eq, is_truthy, trim, contains, keep, map, if◌then◌else◌,
}
use openclaw_bot_chat.Values.{
  Value, undefined, null, not_finite, bool, num, str, arr, obj, Fields, item, item_of, elems,
  read_record, read_string, ◌<|>◌,
}
use openclaw_bot_chat.Extension.Targets.{after_word}

-- What the language makes of values: `Number(text)`, if it is finite, `toLowerCase` and `String`.
pub record Language : Type 0 where
  pub number : Text → Option ℤ
  pub lower : Text → Text
  pub text_of : Value → Text

-- `BotChatMessage` of the extension.
pub record ChannelMessage : Type 0 where
  pub channel_id : Text
  pub user_id : Text
  pub text : Text
  pub metadata : Option Fields

pub record BotChatChannelConfig : Type 0 where
  pub enabled : Bool
  pub name : Text
  pub backend_url : Option Text
  pub bot_key : Option Text
  pub bot_id : Text
  pub mqtt_tcp_url : Option Text
  pub mqtt_ws_url : Option Text
  pub state_dir : Option Text
  pub history_catchup_limit : ℤ
  pub default_to : Option Text
  pub allow_from : List Text
  pub permission_approval_enabled : Bool
  pub permission_approval_handler : Option Text
  pub permission_approval_url : Option Text
  pub permission_approval_timeout_ms : Option ℤ
  pub permission_denied_reply : Option Text

abbrev pub default_account_id : Text
default_account_id = txt "default"

-- The text without one of the words that may stand before an identifier.
unfoldable pub without_word : Text → Text
without_word t =
    get_or
      (after_word (txt "user") t <|> (after_word (txt "botchat") t <|> after_word (txt "sender") t))
      t

unfoldable pub normalize_allow_from_entry : Text → Text
unfolding without_word
normalize_allow_from_entry raw =
    let trimmed = trim raw in
    if not (is_truthy trimmed)
    then []
    else if text_eq trimmed (txt "*")
    then txt "*"
    else trim (without_word trimmed)

unfoldable pub is_bot_chat_sender_allowed : List Text → Text → Bool
is_bot_chat_sender_allowed allow_from user_id =
    let id = normalize_allow_from_entry user_id in
    let entries = map normalize_allow_from_entry allow_from in
    is_truthy id && (contains (txt "*") entries || contains id entries)

-- `Boolean(value)`; a number that is not finite is an infinity here, which `JSON.parse` makes of
-- `1e999`; it makes no `NaN`.
unfoldable pub to_boolean : Value → Bool
to_boolean undefined = false
to_boolean null = false
to_boolean not_finite = true
to_boolean (bool b) = b
to_boolean (num n) = not (eqb_ℤ n (pos 0))
to_boolean (str t) = is_truthy t
to_boolean (arr vs) = true
to_boolean (obj fs) = true

-- What the access check says; a blocked message may be approved if the settings say so.
pub data Access : Type 0 where
  granted : Access
  sender_denied : Access
  blocked : Bool → Access

pub data IssueCode : Type 0 where
  missing_backend_url missing_bot_key invalid_history_catchup_limit approval_without_handler
        empty_allow_from :
      IssueCode

pub record ResolvedBotChatAccount : Type 0 where
  pub account_id : Text
  pub configured : Bool
  pub config : BotChatChannelConfig

abbrev text_setting : Text → Fields → Option Text
text_setting key input = read_string (item key input)

abbrev pub sender_allowed : List Text → Text → Bool
sender_allowed [] user_id = true
sender_allowed (entry ∷ entries) user_id = is_bot_chat_sender_allowed (entry ∷ entries) user_id

abbrev is_source : Value → Bool
is_source (str t) = text_eq t (txt "env") || (text_eq t (txt "file") || text_eq t (txt "exec"))
is_source _ = false

abbrev is_text_value : Value → Bool
is_text_value (str t) = true
is_text_value _ = false

unfoldable pub is_bot_chat_secret_ref : Value → Bool
is_bot_chat_secret_ref (obj fs) =
    is_source (item (txt "source") fs)
    && (is_text_value (item (txt "provider") fs) && is_text_value (item (txt "id") fs))
is_bot_chat_secret_ref _ = false

abbrev is_set : Option Text → Bool
is_set none = false
is_set (some t) = is_truthy t

abbrev is_positive : Option ℤ → Bool
is_positive none = false
is_positive (some n) = ltb_ℤ (pos 0) n

abbrev is_empty : List Text → Bool
is_empty [] = true
is_empty (t ∷ ts) = false

abbrev issue_if : Bool → IssueCode → List IssueCode
issue_if true code = code ∷ []
issue_if false code = []

-- `cfg.channels["bot-chat"]`, if it is an object, or the whole.
abbrev channel_config : Fields → Fields
channel_config cfg =
    get_or (read_record (item_of (txt "bot-chat") (read_record (item (txt "channels") cfg)))) cfg

module _ (l : Language) where
  unfoldable pub read_number : Value → Option ℤ
  read_number (num n) = some n
  read_number (str t) = if is_truthy (trim t) then l.number t else none
  read_number _ = none

  unfoldable pub read_switch : Value → Option Bool
  read_switch (bool b) = some b
  read_switch (str t) =
      let normalized = l.lower (trim t) in
      if contains normalized (txt "true" ∷ txt "1" ∷ txt "yes" ∷ txt "on" ∷ [])
      then some true
      else if contains normalized (txt "false" ∷ txt "0" ∷ txt "no" ∷ txt "off" ∷ [])
      then some false
      else none
  read_switch _ = none

  unfoldable pub normalize_allow_from_entries : Value → List Text
  normalize_allow_from_entries (arr vs) =
      keep is_truthy (map (λ v. normalize_allow_from_entry (l.text_of v)) (elems vs))
  normalize_allow_from_entries _ = []

  -- `env` is the environment: a variable that is there may be empty.
  unfoldable pub normalize_bot_chat_config : Fields → (Text → Option Text) → BotChatChannelConfig
  normalize_bot_chat_config input env = record {
    enabled = get_or (read_switch (item (txt "enabled") input)) true;
    name = get_or (text_setting (txt "name") input) (txt "BotChat");
    backend_url = text_setting (txt "backendUrl") input <|> env (txt "BOT_CHAT_BACKEND_URL");
    bot_key = text_setting (txt "botKey") input <|> env (txt "BOT_CHAT_BOT_KEY");
    bot_id =
        get_or (text_setting (txt "botId") input <|> env (txt "BOT_CHAT_BOT_ID"))
          default_account_id;
    mqtt_tcp_url = text_setting (txt "mqttTcpUrl") input <|> env (txt "BOT_CHAT_MQTT_TCP_URL");
    mqtt_ws_url = text_setting (txt "mqttWsUrl") input <|> env (txt "BOT_CHAT_MQTT_WS_URL");
    state_dir = text_setting (txt "stateDir") input;
    history_catchup_limit = get_or (read_number (item (txt "historyCatchupLimit") input)) (pos 100);
    default_to = text_setting (txt "defaultTo") input;
    allow_from = normalize_allow_from_entries (item (txt "allowFrom") input);
    permission_approval_enabled =
        get_or (read_switch (item (txt "permissionApprovalEnabled") input)) false;
    permission_approval_handler = text_setting (txt "permissionApprovalHandler") input;
    permission_approval_url = text_setting (txt "permissionApprovalUrl") input;
    permission_approval_timeout_ms = read_number (item (txt "permissionApprovalTimeoutMs") input);
    permission_denied_reply = text_setting (txt "permissionDeniedReply") input;
  }

  unfoldable pub evaluate_bot_chat_access : Fields → (Text → Option Text) → ChannelMessage → Access
  evaluate_bot_chat_access config env message =
      let normalized = normalize_bot_chat_config config env in
      if not (sender_allowed normalized.allow_from message.user_id)
      then sender_denied
      else if to_boolean (item_of (txt "blocked") message.metadata)
      then blocked normalized.permission_approval_enabled
      else granted

  abbrev has_good_limit : Value → Bool
  has_good_limit undefined = true
  has_good_limit value = is_positive (read_number value)

  -- The codes of the issues, in order; an issue's severity, message and path follow from its code.
  unfoldable pub collect_bot_chat_config_issues : Fields → List IssueCode
  collect_bot_chat_config_issues config =
      let normalized = normalize_bot_chat_config config (λ name. none) in
      issue_if (not (is_set normalized.backend_url)) missing_backend_url
      ++ (issue_if
            (not (is_set normalized.bot_key || is_bot_chat_secret_ref (item (txt "botKey") config)))
            missing_bot_key
          ++ (issue_if (not (has_good_limit (item (txt "historyCatchupLimit") config)))
                invalid_history_catchup_limit
              ++ (issue_if
                    (normalized.permission_approval_enabled
                      && not (is_set normalized.permission_approval_handler)
                      && not (is_set normalized.permission_approval_url))
                    approval_without_handler
                  ++ issue_if (is_empty normalized.allow_from) empty_allow_from)))

  unfoldable pub resolve_bot_chat_account :
      Fields → Text → (Text → Option Text) → ResolvedBotChatAccount
  resolve_bot_chat_account cfg account_id env =
      let normalized = normalize_bot_chat_config (channel_config cfg) env in
      record {
        account_id = account_id;
        configured = is_set normalized.backend_url && is_set normalized.bot_key;
        config = normalized;
      }
