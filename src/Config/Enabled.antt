-- ===== src/Config/Enabled.antt =====
-- `getEnabledBots` of plugins/openclaw-bot-chat/src/config.ts over the settings that were loaded.
use openclaw_bot_chat.Base.{◌≡◌, refl, [], ◌∷◌, arith, Text, keep, map, Bool-cases, inl, inr}
use openclaw_bot_chat.Permissions.{resolve_action_permissions}
use openclaw_bot_chat.Types.{BotConfig}
use openclaw_bot_chat.Config.{ok}
use openclaw_bot_chat.Config.Bots.{Bots}
use openclaw_bot_chat.Config.Complete.{IsComplete, AreComplete}
use openclaw_bot_chat.Config.Loading.{
  Process, PluginConfig, is_enabled, resolved, load_config, get_enabled_bots,
}
use openclaw_bot_chat.Config.Valid.{load_config-IsUsable}

resolved_of_IsComplete :
    (config : PluginConfig) (key : Text) (bot : BotConfig)
    → IsComplete bot
    → resolved config (key, bot) ≡ (key, bot)
unfolding resolve_action_permissions
resolved_of_IsComplete config key bot c = ground arith

keep-resolved :
    (config : PluginConfig) (bots : Bots)
    → AreComplete bots
    → map (resolved config) (keep is_enabled bots) ≡ keep is_enabled bots
keep-resolved config [] c = refl
keep-resolved config ((key, bot) ∷ bots) c = elim (Bool-cases bot.enabled) [
  | inl e ↦
      rw e
        (ground (arith, resolved_of_IsComplete config key bot c.0, keep-resolved config bots c.1))
  | inr e ↦ rw e (keep-resolved config bots c.1)
]

-- Once the settings are loaded, the enabled bots are those whose switch is on, in order and as they
-- were read: neither their actions nor their group policy is left to a default.
pub load_config-get_enabled_bots :
    (p : Process) {config : PluginConfig}
    → load_config p ≡ ok config
    → get_enabled_bots config ≡ keep is_enabled config.bots
unfolding get_enabled_bots
load_config-get_enabled_bots p {config} h =
    keep-resolved config config.bots (load_config-IsUsable p h).complete
