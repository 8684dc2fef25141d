-- ===== src/Examples/Configured.antt =====
-- A file with one bot and an environment with a key for it.
use openclaw_bot_chat.Base.{
  ◌≡◌, refl, true, Option, none, some, [], ◌∷◌, Text, txt, text_eq, is_truthy, trim, trim_end,
  trim_start, is_space, if◌then◌else◌,
}
use openclaw_bot_chat.Base.Dict.{get, set}
use openclaw_bot_chat.Values.{str, obj, Fields, field, item, single, non_blank}
use openclaw_bot_chat.Types.{BotConfig}
use openclaw_bot_chat.Permissions.{
  GroupPolicy, default_action_permissions, normalize_allow_list, resolve_action_permissions,
}
use openclaw_bot_chat.Config.{
  ok, read_strings, read_boolean, read_actions, read_channel_policy, read_group_policy,
}
use openclaw_bot_chat.Config.Bots.{
  Bots, bot_of, read_bot_config, read_bots_from, read_bots, apply_legacy_overrides,
}
use openclaw_bot_chat.Config.Loading.{
  Process, PluginConfig, parsed, read_config_file, config_with, configured_bots, load_with,
  load_config,
}
use openclaw_bot_chat.Config.Valid.{IsUsable, load_config-IsUsable}
use openclaw_bot_chat.Config.Overrides.{IsOverridden, apply_legacy_overrides-IsOverridden}
use openclaw_bot_chat.Examples.{lower}

abbrev file : Fields
file = field (txt "baseUrl") (str (txt " http://chat/ ")) (
    single (txt "bots") (
      obj (
        single (txt "main")
          (obj (field (txt "accessKey") (str (txt "old")) (single (txt "id") (str (txt "b1"))))))))

abbrev env : Text → Option Text
env name = if text_eq name (txt "BOT_CHAT_BOT_KEY") then some (txt "new") else none

abbrev pub process : Process
process = record { env = env; resolve = λ t. t; file = λ path. parsed (obj file); lower = lower }

abbrev bot_with : Text → BotConfig
bot_with access_key = record {
  id = some (txt "b1");
  access_key = access_key;
  enabled = true;
  channels = none;
  users = none;
  group_policy = some GroupPolicy.open_to_all;
  actions = some default_action_permissions;
}

abbrev bots_with : Text → Bots
bots_with access_key = (txt "main", bot_with access_key) ∷ []

abbrev pub settings : PluginConfig
settings =
    config_with process file (txt "config.json") (txt "http://chat/") (bots_with (txt "new"))
      (txt "main", bot_with (txt "new"))

-- The key of the environment takes the place of the file's.
loaded : load_config process ≡ ok settings
unfolding load_config read_config_file config_with configured_bots load_with read_strings read_bots
    read_bots_from read_bot_config bot_of apply_legacy_overrides read_boolean read_actions
    read_channel_policy read_group_policy normalize_allow_list resolve_action_permissions item get
    set text_eq is_truthy trim trim_end trim_start is_space non_blank
loaded = refl

load_config-IsUsable_example : IsUsable settings
load_config-IsUsable_example = load_config-IsUsable process loaded

with_new_key :
    apply_legacy_overrides (bots_with (txt "old")) none (some (txt "new")) none
    ≡ ok (bots_with (txt "new"))
unfolding apply_legacy_overrides get set text_eq is_truthy
with_new_key = refl

apply_legacy_overrides-IsOverridden_example :
    IsOverridden
      (bots_with (txt "old"))
      (some (txt "main"))
      (some (txt "new"))
      none
      (bots_with (txt "new"))
apply_legacy_overrides-IsOverridden_example =
    apply_legacy_overrides-IsOverridden (bots_with (txt "old")) none (some (txt "new")) none
      with_new_key
