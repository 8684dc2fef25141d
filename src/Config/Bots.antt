-- ===== src/Config/Bots.antt =====
-- The bots of the settings: `readBots`, `readBotConfig`, `buildLegacyBots`, `applyLegacyOverrides`
-- of plugins/openclaw-bot-chat/src/config.ts. The bots are a map from their keys, in order.
use openclaw_bot_chat.Base.{
  true, Option, none, some, get_or, List, [], ◌∷◌, ◌++◌, Text, txt, is_truthy, if◌then◌else◌,
}
use openclaw_bot_chat.Base.Dict.{get, set}
use openclaw_bot_chat.Values.{Value, obj, Fields, end, field, item}
use openclaw_bot_chat.Permissions.{resolve_action_permissions, normalize_allow_list}
use openclaw_bot_chat.Types.{BotConfig}
use openclaw_bot_chat.Config.{
  Result, ok, error, ◌>>=◌, ChannelPolicy, ConfigError, access_key_required, bot_key_required,
  bot_not_configured, read_strings, read_boolean, read_actions, read_group_policy,
}

abbrev pub Bots : Type 0
Bots = List (Text × BotConfig)

abbrev pub default_bot_key : Text
default_bot_key = txt "default"

-- The settings of one bot, apart from its key and identifier.
unfoldable pub bot_of : (Text → Text) → Fields → ChannelPolicy → Text → Option Text → BotConfig
bot_of lower fs default access_key id = record {
  id = id;
  access_key = access_key;
  enabled = read_boolean lower (item (txt "enabled") fs) true;
  channels = normalize_allow_list (item (txt "channels") fs);
  users = normalize_allow_list (item (txt "users") fs);
  group_policy = some (read_group_policy (item (txt "groupPolicy") fs) default);
  actions = some (resolve_action_permissions (read_actions (item (txt "actions") fs)));
}

abbrev pub require_key : Option Text → ConfigError → Result Text
require_key none e = error e
require_key (some key) e = ok key

abbrev pub bot_with_key : (Text → Text) → Fields → ChannelPolicy → Text → BotConfig
bot_with_key lower fs default access_key = bot_of lower fs default access_key (
    read_strings
      (item (txt "id") fs ∷ item (txt "BOT_CHAT_BOT_ID") fs ∷ item (txt "botId") fs ∷ []))

module _ (lower : Text → Text) (default : ChannelPolicy) where
  unfoldable pub read_bot_config : Value → Text → Result (Option BotConfig)
  unfolding bot_of
  read_bot_config (obj fs) config_path = do
    access_key ←
        require_key
          (read_strings (item (txt "accessKey") fs ∷ item (txt "BOT_CHAT_BOT_KEY") fs ∷ []))
          (access_key_required config_path)
    ok (some (bot_with_key lower fs default access_key))
  read_bot_config _ config_path = ok none

  abbrev pub add_bot : Text → Option BotConfig → Bots → Bots
  add_bot key none bots = bots
  add_bot key (some bot) bots = set key bot bots

  -- The loop of `readBots`.
  unfoldable pub read_bots_from : Fields → Bots → Result Bots
  read_bots_from end bots = ok bots
  read_bots_from (field key value fs) bots = do
    bot ← read_bot_config value (txt "bots." ++ key)
    read_bots_from fs (add_bot key bot bots)

  unfoldable pub read_bots : Value → Result Bots
  read_bots (obj fs) = read_bots_from fs []
  read_bots _ = ok []

  unfoldable pub build_legacy_bots : Fields → Option Text → Option Text → Option Text → Result Bots
  unfolding bot_of
  build_legacy_bots file none bot_id default_bot = error bot_key_required
  build_legacy_bots file (some access_key) bot_id default_bot =
      ok ((get_or default_bot default_bot_key, bot_of lower file default access_key bot_id) ∷ [])

-- `Object.keys(bots)[0]`
abbrev pub first_key : Bots → Option Text
first_key [] = none
first_key ((key, bot) ∷ bots) = some key

abbrev pub or_first : Option Text → Option Text → Option Text
or_first none b = b
or_first (some a) b = some a

-- `{ ...current, accessKey: accessKey ?? current.accessKey }`, with the identifier replaced.
abbrev pub overridden : BotConfig → Option Text → Option Text → BotConfig
overridden current access_key bot_id = record current {
  access_key = get_or access_key current.access_key;
  id = or_first bot_id current.id;
}

abbrev pub override_current :
    Bots → Text → Option BotConfig → Option Text → Option Text → Result Bots
override_current bots selected none access_key bot_id = error (bot_not_configured selected)
override_current bots selected (some current) access_key bot_id =
    ok (set selected (overridden current access_key bot_id) bots)

abbrev pub override_selected : Bots → Option Text → Option Text → Option Text → Result Bots
override_selected bots none access_key bot_id = ok bots
override_selected bots (some selected) access_key bot_id =
    if is_truthy selected
    then override_current bots selected (get selected bots) access_key bot_id
    else ok bots

-- The identifiers and keys here are texts that `readString` gave: they are not empty.
unfoldable pub apply_legacy_overrides : Bots → Option Text → Option Text → Option Text → Result Bots
apply_legacy_overrides bots default_bot none none = ok bots
apply_legacy_overrides bots default_bot none (some bot_id) =
    override_selected bots (or_first default_bot (first_key bots)) none (some bot_id)
apply_legacy_overrides bots default_bot (some access_key) bot_id =
    override_selected bots (or_first default_bot (first_key bots)) (some access_key) bot_id
