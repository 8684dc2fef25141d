-- ===== src/Runtime/Fleet.antt =====
-- `OpenClawBotRuntime` of plugins/openclaw-bot-chat/src/runtime/bot.ts: one runtime for each enabled
-- bot, started in order and stopped together; a start that throws stops those before it. The
-- runtimes share no state here: what two of them do at a time comes to the same in any order.
pub mod Outcome
pub mod Files
use openclaw_bot_chat.Base.{
  Bool, true, false, not, ◌||◌, ◌&&◌, Option, none, some, List, [], ◌∷◌, ◌++◌, map, Text, txt, ℕ,
  leb, ◌==◌, is_truthy, if◌then◌else◌,
}
use openclaw_bot_chat.Types.{BotConfig, Checkpoint}
use openclaw_bot_chat.Stores.{Result, done, thrown}
use openclaw_bot_chat.Config.Loading.{PluginConfig, get_enabled_bots}
use openclaw_bot_chat.Runtime.State.{Host, Setup, Runtime}
use openclaw_bot_chat.Runtime.Start.{start}
use openclaw_bot_chat.Runtime.Stop.{stop}

-- A bot's runtime, with what does not change while it lives.
pub record Managed : Type 0 where
  pub setup : Setup
  pub host : Host
  pub ws_url : Option Text
  pub tcp_url : Option Text
  pub runtime : Runtime

unfoldable pub is_state_unit : ℕ → Bool
is_state_unit c =
    leb b'a' c && leb c b'z'
    || leb b'A' c && leb c b'Z'
    || leb b'0' c && leb c b'9'
    || c == b'.'
    || c == b'_'
    || c == b'-'

-- `value.replace(/[^a-zA-Z0-9._-]+/g, "_")`; `within` says that the unit before was replaced.
unfoldable pub sanitize_from : Bool → Text → Text
unfolding is_state_unit
sanitize_from within [] = []
sanitize_from within (c ∷ cs) =
    let rest = sanitize_from (not (is_state_unit c)) cs in
    if is_state_unit c then c ∷ rest else if within then rest else b'_' ∷ rest

unfoldable pub sanitize_state_key : Text → Text
unfolding sanitize_from
sanitize_state_key value = sanitize_from false value

-- The host of each bot, and what its two files hold; the files are found by the sanitized key.
pub record World : Type 0 where
  pub host : Text → Host
  pub sessions_file : Text → Option (List (Text × Text))
  pub checkpoints_file : Text → Option (List (Text × Checkpoint))

-- The constructor of `ManagedBotRuntime`.
unfoldable pub managed_bot : World → PluginConfig → Text × BotConfig → Managed
managed_bot world config (key, bot) = record {
  setup = record { bot_config = bot; permission_denied_reply = config.permission_denied_reply };
  host = world.host key;
  ws_url = config.mqtt_ws_url;
  tcp_url = config.mqtt_tcp_url;
  runtime = record {
    bot_id = none;
    bootstrap = none;
    connected = false;
    stopped = false;
    channels = [];
    sessions = record { entries = []; file = world.sessions_file (sanitize_state_key key) };
    checkpoints = record { entries = []; file = world.checkpoints_file (sanitize_state_key key) };
    processed = [];
    tick = 0;
    asked = [];
    published = [];
  };
}

abbrev any_or_thrown : List Managed → Result (List Managed)
any_or_thrown [] = thrown
any_or_thrown (m ∷ ms) = done (m ∷ ms)

-- The constructor of `OpenClawBotRuntime`.
unfoldable pub create : World → PluginConfig → Result (List Managed)
unfolding managed_bot
create world config = any_or_thrown (map (managed_bot world config) (get_enabled_bots config))

abbrev pub started : Managed → Runtime × Result (Unit {0})
started m = start m.setup m.host m.ws_url m.tcp_url m.runtime

abbrev pub after_start : Managed → Managed
after_start m = record m { runtime = (started m).0 }

-- `allSettled` ignores what a stop throws.
unfoldable pub stop_one : Managed → Managed
stop_one m = record m { runtime = (stop m.host m.runtime).0 }

-- What follows a start: the rest of the loop, or the `catch` block.
abbrev pub continue_start :
    Result (Unit {0})
    → List Managed × Result (Unit {0})
    → List Managed
    → List Managed × Result (Unit {0})
continue_start (done u) rest aborted = rest
continue_start thrown rest aborted = (aborted, thrown)

-- The loop of `start`, with the runtimes that have started.
unfoldable pub start_loop : List Managed → List Managed → List Managed × Result (Unit {0})
unfolding stop_one
start_loop running [] = (running, done tt)
start_loop running (m ∷ ms) =
    let rest = start_loop (running ++ after_start m ∷ []) ms in
    continue_start (started m).1 rest (map stop_one running ++ after_start m ∷ ms)

unfoldable pub start_all : List Managed → List Managed × Result (Unit {0})
unfolding start_loop
start_all runtimes = start_loop [] runtimes

unfoldable pub stop_all : List Managed → List Managed
unfolding stop_one
stop_all runtimes = map stop_one runtimes
