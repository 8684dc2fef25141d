-- ===== src/Config/Valid.antt =====
-- What `loadConfig` of plugins/openclaw-bot-chat/src/config.ts returns: a default bot that is
-- configured, and bots whose settings are complete.
use openclaw_bot_chat.Base.{◌≡◌, refl, Option, none, some, [], ◌∷◌, arith, Text, txt, trim}
use openclaw_bot_chat.Base.Dict.{get}
use openclaw_bot_chat.Values.{Fields}
use openclaw_bot_chat.Types.{BotConfig}
use openclaw_bot_chat.Config.{ok, normalize_base_url}
use openclaw_bot_chat.Config.Bots.{Bots, read_bots}
use openclaw_bot_chat.Config.Readers.{
  Ensures, Ensures->>=, Ensures->>=_any, Ensures-ok, read_strings-IsCleanIf, EndsPlain,
  strip_slashes-EndsPlain,
}
use openclaw_bot_chat.Config.Complete.{
  AreComplete, read_bots-AreComplete, build_legacy_bots-AreComplete,
  apply_legacy_overrides-AreComplete,
}
use openclaw_bot_chat.Config.Loading.{
  Process, PluginConfig, access_key_setting, bot_id_setting, default_bot_setting, require_url,
  base_url_setting, policy_setting, setting, default_bot_of, config_with, configured_bots,
  load_with, load_config, read_config_file,
}

configured_bots-AreComplete :
    (p : Process) (fs : Fields) (bots : Bots)
    → AreComplete bots
    → Ensures AreComplete (configured_bots p fs bots)
unfolding configured_bots
configured_bots-AreComplete p fs [] c =
    build_legacy_bots-AreComplete p.lower (policy_setting p fs) fs (access_key_setting p fs)
      (bot_id_setting p fs) (default_bot_setting p fs) (read_strings-IsCleanIf _)
      (read_strings-IsCleanIf _)
configured_bots-AreComplete p fs (bot ∷ bots) c =
    apply_legacy_overrides-AreComplete (bot ∷ bots) (default_bot_setting p fs)
      (access_key_setting p fs) (bot_id_setting p fs) (read_strings-IsCleanIf _)
      (read_strings-IsCleanIf _) c

-- The settings are usable: the default bot is among the bots and its identity is the plugin's, all
-- bots are complete, and paths can be appended to the service's address.
pub record IsUsable (config : PluginConfig) : Type 0 where
  pub key : Text
  pub bot : BotConfig
  pub default : config.default_bot ≡ some key
  pub configured : get key config.bots ≡ some bot
  pub access_key : config.access_key ≡ some bot.access_key
  pub bot_id : config.bot_id ≡ bot.id
  pub complete : AreComplete config.bots
  pub address : EndsPlain config.bot_chat_base_url

default_bot_of-configured :
    (key : Option Text) (bots : Bots)
    → Ensures (λ e. get e.0 bots ≡ some e.1) (default_bot_of key bots)
default_bot_of-configured none bots = tt
default_bot_of-configured (some key) bots = ground arith

load_with-IsUsable :
    (p : Process) (fs : Fields) (path : Text) → Ensures IsUsable (load_with p fs path)
unfolding load_with config_with normalize_base_url
load_with-IsUsable p fs path =
    Ensures->>=_any IsUsable (require_url (base_url_setting p fs)) _ (λ url.
      Ensures->>= AreComplete IsUsable
        (read_bots p.lower (policy_setting p fs) (setting p fs (txt "bots"))) _
        (read_bots-AreComplete p.lower (policy_setting p fs) (setting p fs (txt "bots")))
        (λ file c.
          Ensures->>= AreComplete IsUsable (configured_bots p fs file) _
            (configured_bots-AreComplete p fs file c)
            (λ bots d.
              Ensures->>= _ IsUsable (default_bot_of _ bots) _ (default_bot_of-configured _ bots)
                (λ e h. record {
                  key = e.0;
                  bot = e.1;
                  default = refl;
                  configured = h;
                  access_key = refl;
                  bot_id = refl;
                  complete = d;
                  address = strip_slashes-EndsPlain (trim url);
                }))))

-- When `loadConfig` returns, the default bot is one of the bots and its key and identifier are the
-- plugin's, each bot has a key that is trimmed and not empty and has its group policy and action
-- switches, and the address of the service does not end in a slash.
pub load_config-IsUsable :
    (p : Process) {config : PluginConfig} → load_config p ≡ ok config → IsUsable config
unfolding load_config
load_config-IsUsable p h =
    Ensures-ok IsUsable
      (Ensures->>=_any IsUsable (read_config_file (p.file _)) _ (λ fs. load_with-IsUsable p fs _)) h
