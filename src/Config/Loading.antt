-- ===== src/Config/Loading.antt =====
-- `loadConfig` and `getEnabledBots` of plugins/openclaw-bot-chat/src/config.ts.
use openclaw_bot_chat.Base.{
  ℤ, pos, Bool, false, Option, none, some, get_or, [], ◌∷◌, Text, txt, is_truthy, keep, map,
  if◌then◌else◌,
}
use openclaw_bot_chat.Base.Dict.{get}
use openclaw_bot_chat.Values.{Value, obj, Fields, end, item}
use openclaw_bot_chat.Permissions.{resolve_action_permissions}
use openclaw_bot_chat.Types.{BotConfig}
use openclaw_bot_chat.Router.Context.{partial_actions}
use openclaw_bot_chat.Config.{
  Result, ok, error, ◌>>=◌, ChannelPolicy, unreadable_file, backend_url_required,
  default_bot_missing, text_value, read_strings, read_integer, read_boolean, read_channel_policy,
  policy_for_groups, normalize_base_url,
}
use openclaw_bot_chat.Config.Bots.{
  Bots, or_first, first_key, read_bots, build_legacy_bots, apply_legacy_overrides,
}

-- What `access`, `readFile` and `JSON.parse` make of the file.
pub data ConfigFile : Type 0 where
  missing unreadable : ConfigFile
  parsed : Value → ConfigFile

-- The process that the plugin runs in; `resolve` is `path.resolve` from its working directory.
pub record Process : Type 0 where
  pub env : Text → Option Text
  pub resolve : Text → Text
  pub file : Text → ConfigFile
  pub lower : Text → Text

pub record PluginConfig : Type 0 where
  pub bot_chat_base_url : Text
  pub mqtt_tcp_url : Option Text
  pub mqtt_ws_url : Option Text
  pub bot_id : Option Text
  pub access_key : Option Text
  pub config_path : Text
  pub state_dir : Text
  pub http_timeout_ms : ℤ
  pub reconnect_base_delay_ms : ℤ
  pub reconnect_max_delay_ms : ℤ
  pub open_claw_agent_url : Option Text
  pub open_claw_agent_handler : Option Text
  pub open_claw_agent_timeout_ms : ℤ
  pub permission_approval_enabled : Bool
  pub permission_approval_url : Option Text
  pub permission_approval_handler : Option Text
  pub permission_approval_timeout_ms : ℤ
  pub permission_denied_reply : Option Text
  pub bots : Bots
  pub default_bot : Option Text
  pub default_channel_policy : ChannelPolicy

unfoldable pub read_config_file : ConfigFile → Result Fields
read_config_file missing = ok end
read_config_file unreadable = error unreadable_file
read_config_file (parsed (obj fs)) = ok fs
read_config_file (parsed _) = ok end

abbrev pub require_url : Option Text → Result Text
require_url none = error backend_url_required
require_url (some url) = ok url

-- `bots[defaultBot]`
abbrev pub default_bot_of : Option Text → Bots → Result (Text × BotConfig)
default_bot_of none bots = error default_bot_missing
default_bot_of (some key) bots =
    if is_truthy key
    then elim (get key bots) [ none ↦ error default_bot_missing | some bot ↦ ok (key, bot) ]
    else error default_bot_missing

module _ (p : Process) (fs : Fields) where
  -- `process.env[variable]`, and a property of the file.
  abbrev pub variable : Text → Value
  variable name = text_value (p.env name)

  abbrev pub setting : Text → Value
  setting name = item name fs

  -- `readString(process.env[name], readString(fileConfig[key]))`
  abbrev pub text_setting : Text → Text → Option Text
  text_setting name key =
      read_strings (variable name ∷ text_value (read_strings (setting key ∷ [])) ∷ [])

  -- The same, where the file may also use the variable's name.
  abbrev pub named_setting : Text → Text → Option Text
  named_setting name key = read_strings (
      variable name
      ∷ text_value (read_strings (setting name ∷ text_value (read_strings (setting key ∷ [])) ∷ []))
      ∷ [])

  abbrev pub integer_setting : Text → Text → ℤ → ℤ
  integer_setting name key default =
      read_integer (variable name) (read_integer (setting key) default)

  abbrev pub boolean_setting : Text → Text → Bool → Bool
  boolean_setting name key default =
      read_boolean p.lower (variable name) (read_boolean p.lower (setting key) default)

  abbrev pub base_url_setting : Option Text
  base_url_setting = read_strings (
      variable (txt "BOT_CHAT_BACKEND_URL")
      ∷ text_value (
          read_strings (
            setting (txt "BOT_CHAT_BACKEND_URL")
            ∷ text_value (
                read_strings (
                  setting (txt "botChatBaseUrl")
                  ∷ text_value (read_strings (setting (txt "baseUrl") ∷ []))
                  ∷ []))
            ∷ []))
      ∷ [])

  abbrev pub policy_setting : ChannelPolicy
  policy_setting =
      read_channel_policy (
        variable (txt "BOT_CHAT_DEFAULT_CHANNEL_POLICY")
        ∷ setting (txt "defaultChannelPolicy")
        ∷ [])

  abbrev state_dir_setting : Text
  state_dir_setting =
      get_or
        (read_strings (
          variable (txt "OPENCLAW_STATE_DIR")
          ∷ text_value (read_strings (setting (txt "stateDir") ∷ Value.str (txt "data") ∷ []))
          ∷ []))
        (txt "data")

  abbrev pub access_key_setting : Option Text
  access_key_setting = named_setting (txt "BOT_CHAT_BOT_KEY") (txt "accessKey")

  abbrev pub bot_id_setting : Option Text
  bot_id_setting = named_setting (txt "BOT_CHAT_BOT_ID") (txt "botId")

  abbrev pub default_bot_setting : Option Text
  default_bot_setting = text_setting (txt "BOT_CHAT_DEFAULT_BOT") (txt "defaultBot")

  -- The bots of the file with the legacy settings applied, or the one bot of the legacy settings.
  unfoldable pub configured_bots : Bots → Result Bots
  configured_bots [] =
      build_legacy_bots p.lower policy_setting fs access_key_setting bot_id_setting
        default_bot_setting
  configured_bots (bot ∷ bots) =
      apply_legacy_overrides (bot ∷ bots) default_bot_setting access_key_setting bot_id_setting

  unfoldable pub config_with : Text → Text → Bots → Text × BotConfig → PluginConfig
  config_with config_path url bots (key, bot) = record {
    bot_chat_base_url = normalize_base_url url;
    mqtt_tcp_url = named_setting (txt "BOT_CHAT_MQTT_TCP_URL") (txt "mqttTcpUrl");
    mqtt_ws_url = named_setting (txt "BOT_CHAT_MQTT_WS_URL") (txt "mqttWsUrl");
    bot_id = bot.id;
    access_key = some bot.access_key;
    config_path = config_path;
    state_dir = p.resolve state_dir_setting;
    http_timeout_ms =
        integer_setting (txt "BOT_CHAT_HTTP_TIMEOUT_MS") (txt "httpTimeoutMs") (pos 15000);
    reconnect_base_delay_ms =
        integer_setting (txt "BOT_CHAT_RECONNECT_BASE_MS") (txt "reconnectBaseDelayMs") (pos 1000);
    reconnect_max_delay_ms =
        integer_setting (txt "BOT_CHAT_RECONNECT_MAX_MS") (txt "reconnectMaxDelayMs") (pos 30000);
    open_claw_agent_url = text_setting (txt "OPENCLAW_AGENT_URL") (txt "openClawAgentUrl");
    open_claw_agent_handler =
        text_setting (txt "OPENCLAW_AGENT_HANDLER") (txt "openClawAgentHandler");
    open_claw_agent_timeout_ms =
        integer_setting (txt "OPENCLAW_AGENT_TIMEOUT_MS") (txt "openClawAgentTimeoutMs")
          (pos 60000);
    permission_approval_enabled =
        boolean_setting (txt "OPENCLAW_PERMISSION_APPROVAL_ENABLED")
          (txt "permissionApprovalEnabled") false;
    permission_approval_url =
        text_setting (txt "OPENCLAW_PERMISSION_APPROVAL_URL") (txt "permissionApprovalUrl");
    permission_approval_handler =
        text_setting (txt "OPENCLAW_PERMISSION_APPROVAL_HANDLER") (txt "permissionApprovalHandler");
    permission_approval_timeout_ms =
        integer_setting (txt "OPENCLAW_PERMISSION_APPROVAL_TIMEOUT_MS")
          (txt "permissionApprovalTimeoutMs") (pos 8000);
    permission_denied_reply =
        text_setting (txt "OPENCLAW_PERMISSION_DENIED_REPLY") (txt "permissionDeniedReply");
    bots = bots;
    default_bot = some key;
    default_channel_policy = policy_setting;
  }

  unfoldable pub load_with : Text → Result PluginConfig
  unfolding configured_bots
  load_with config_path = do
    url ← require_url base_url_setting
    file_bots ← read_bots p.lower policy_setting (setting (txt "bots"))
    bots ← configured_bots file_bots
    default ← default_bot_of (or_first default_bot_setting (first_key bots)) bots
    ok (config_with config_path url bots default)

-- `process.env.BOT_CHAT_CONFIG ?? "config.json"`
unfoldable pub load_config : Process → Result PluginConfig
unfolding load_with
load_config p =
    let config_path = p.resolve (get_or (p.env (txt "BOT_CHAT_CONFIG")) (txt "config.json")) in
    read_config_file (p.file config_path) >>= λ fs. load_with p fs config_path

abbrev pub is_enabled : Text × BotConfig → Bool
is_enabled (key, bot) = bot.enabled

-- The bot with its actions and group policy completed; its key goes along.
abbrev pub resolved : PluginConfig → Text × BotConfig → Text × BotConfig
resolved config (key, bot) = (
  key,
  record bot {
    actions = some (resolve_action_permissions (partial_actions bot.actions));
    group_policy = some (get_or bot.group_policy (policy_for_groups config.default_channel_policy));
  },
)

unfoldable pub get_enabled_bots : PluginConfig → Bots
get_enabled_bots config = map (resolved config) (keep is_enabled config.bots)
