-- ===== src/Extension/Starting.antt =====
-- `start`, `stop` and the calls they make: `DefaultBotChatRuntime` of
-- extensions/openclaw-bot-chat/src/runtime.ts.
pub mod Attempts
pub mod Failed
use openclaw_bot_chat.Base.{
  ℕ, ◌+◌, ◌-◌, suc, zero, ℤ, pos, eqb_ℤ, Bool, true, false, not, ◌&&◌, ◌||◌, Option, none, some,
  get_or, List, [], ◌∷◌, ◌++◌, Text, txt, is_truthy, leb, if◌then◌else◌,
}
use openclaw_bot_chat.Base.Dict.{set}
use openclaw_bot_chat.Values.{Value, undefined, Fields, item, read_string, ◌<|>◌}
use openclaw_bot_chat.Extension.Settings.{Language, read_number, to_boolean, default_account_id}
use openclaw_bot_chat.Extension.Effects.{
  Checkpoint, Approver, by_handler, by_url, ChannelRuntime, bootstrap_asked, connected_to,
  disconnected, subscribe_asked, Run, finished, thrown, after, ◌then_do◌, World, Effect,
}
use openclaw_bot_chat.Extension.Runtime.{flush_state, recover_history}

-- What the server says to a bot that starts.
pub record BootstrapResponse : Type 0 where
  pub broker : Fields
  pub publish_topics : List Value
  pub subscriptions : List Value

pub data Answer : Type 0 where
  answered : BootstrapResponse → Answer
  refused : Text → Answer

pub data Created : Type 0 where
  created : Option Approver → Created
  import_failed : Created

-- How the others answer a start: the server, by the number of the attempt; a module that is imported
-- (`none` if that fails, or whether it has a function `approve`); the file of the state (`none` if it
-- cannot be read or parsed); the path of a file in a directory.
pub record StartWorld : Type 0 where
  pub world : World
  pub bootstrap : ℕ → Answer
  pub imports : Text → Option Bool
  pub read : Text → Option (List Checkpoint)
  pub join : Text → Text → Text

abbrev pub setting : Text → Fields → Option Text
setting key config = read_string (item key config)

abbrev or_url : Option Text → Option Approver
or_url none = none
or_url (some url) = some (by_url url)

abbrev or_imported : Text → Option Text → Option Bool → Created
or_imported path url none = import_failed
or_imported path url (some true) = created (some (by_handler path))
or_imported path url (some false) = created (or_url url)

abbrev handler_or_url : (Text → Option Bool) → Option Text → Option Text → Created
handler_or_url imports none url = created (or_url url)
handler_or_url imports (some path) url = or_imported path url (imports path)

unfoldable pub create_approver : (Text → Option Bool) → Fields → Created
create_approver imports config =
    if to_boolean (item (txt "permissionApprovalEnabled") config)
    then handler_or_url imports (setting (txt "permissionApprovalHandler") config)
        (setting (txt "permissionApprovalUrl") config)
    else created none

-- The answer of the first attempt that has one, or the last refusal; and the attempts that were
-- made.
abbrev pub attempts : ℕ
attempts = 3

abbrev pub retried : ℕ → Answer → Answer × List ℕ → Answer × List ℕ
retried attempt (answered r) rest = (answered r, attempt ∷ [])
retried attempt (refused e) rest =
    if leb attempts attempt then (refused e, attempt ∷ []) else (rest.0, attempt ∷ rest.1)

-- The attempts from `attempt` on, `fuel` of them at most.
unfoldable pub attempt_from : ℕ → ℕ → (ℕ → Answer) → Answer × List ℕ
attempt_from zero attempt ask = (refused [], [])
attempt_from (suc fuel) attempt ask =
    retried attempt (ask attempt) (attempt_from fuel (attempt + 1) ask)

unfoldable pub bootstrap_bot_with_retry : (ℕ → Answer) → Answer × List ℕ
unfolding attempt_from
bootstrap_bot_with_retry ask = attempt_from attempts 1 ask

unfoldable pub normalize_qos : Language → Value → ℤ
normalize_qos l value = elim (read_number l value) [
  | some n ↦ if eqb_ℤ n (pos 0) || eqb_ℤ n (pos 2) then n else pos 1
  | none ↦ pos 1
]

unfoldable pub read_string_array : List Value → List Text
read_string_array [] = []
read_string_array (v ∷ vs) =
    let rest = read_string_array vs in elim (read_string v) [ some t ↦ t ∷ rest | none ↦ rest ]

abbrev first : List Value → Value
first [] = undefined
first (v ∷ vs) = v

abbrev path_in : (Text → Text → Text) → Text → Option Text → Option Text
path_in join bot_id none = none
path_in join bot_id (some dir) = some (join dir (txt "botchat-" ++ (bot_id ++ txt "-state.json")))

unfoldable pub build_bot_chat_state_path : (Text → Text → Text) → Fields → Option Text
build_bot_chat_state_path join config =
    path_in join (get_or (setting (txt "botId") config) default_account_id)
      (setting (txt "stateDir") config)

unfoldable pub load_checkpoints :
    List Checkpoint → List (Text × Checkpoint) → List (Text × Checkpoint)
load_checkpoints [] cs = cs
load_checkpoints (c ∷ rest) cs =
    load_checkpoints rest (if is_truthy c.channel_id then set c.channel_id c cs else cs)

abbrev pub loaded_from : ChannelRuntime → Option (List Checkpoint) → ChannelRuntime
loaded_from s none = s
loaded_from s (some cs) = record s { checkpoints = load_checkpoints cs s.checkpoints }

abbrev pub load_at :
    (Text → Option (List Checkpoint)) → ChannelRuntime → Option Text → ChannelRuntime
load_at read s none = s
load_at read s (some path) = loaded_from s (read path)

unfoldable pub load_state : (Text → Option (List Checkpoint)) → ChannelRuntime → ChannelRuntime
unfolding load_checkpoints
load_state read s = load_at read s s.state_path

abbrev pub asked : List ℕ → List Effect
asked [] = []
asked (n ∷ ns) = bootstrap_asked n ∷ asked ns

module _ (w : StartWorld) (l : Language) (config : Fields) where
  abbrev pub broker_url : BootstrapResponse → Option Text
  broker_url r =
      setting (txt "mqttWsUrl") config
      <|> (setting (txt "mqttTcpUrl") config
          <|> (setting (txt "ws_url") r.broker <|> setting (txt "tcp_url") r.broker))

  abbrev pub connect_broker : BootstrapResponse → ChannelRuntime → Option Text → Run
  connect_broker r s none = thrown s []
  connect_broker r s (some url) =
      let loaded = load_state w.read (record s {
        publish_topics = read_string_array r.publish_topics;
        publish_topic = read_string (first r.publish_topics);
        state_path = build_bot_chat_state_path w.join config;
      }) in
      after (connected_to url ∷ [])
        (recover_history w.world l config (record loaded { connected = true }))

  abbrev pub with_answer : Text → Text → ChannelRuntime → Answer → Run
  with_answer url key s (refused e) = thrown s []
  with_answer url key s (answered r) =
      connect_broker r
        (record s {
          qos = normalize_qos l (item (txt "qos") r.broker);
          backend_url = some url;
          bot_key = some key;
        })
        (broker_url r)

  abbrev pub start_with : ChannelRuntime → Option Text → Option Text → Run
  start_with s (some url) (some key) =
      let result = bootstrap_bot_with_retry w.bootstrap in
      after (asked result.1) (with_answer url key s result.0)
  start_with s (some url) none = thrown s []
  start_with s none key = thrown s []

  abbrev pub with_approver : ChannelRuntime → Created → Run
  with_approver s import_failed = thrown s []
  with_approver s (created approver) =
      start_with
        (record s {
          approver = approver;
          permission_denied_reply = setting (txt "permissionDeniedReply") config;
        })
        (setting (txt "backendUrl") config) (setting (txt "botKey") config)

  unfoldable pub start : ChannelRuntime → Run
  unfolding create_approver bootstrap_bot_with_retry normalize_qos read_string_array
      build_bot_chat_state_path load_state
  start s =
      if s.started
      then finished s []
      else with_approver (record s { started = true; has_logger = true })
          (create_approver w.imports config)

abbrev subscribed : List Text → List Effect
subscribed [] = []
subscribed (topic ∷ topics) = subscribe_asked topic ∷ subscribed topics

-- The broker's `connect` event, with the topics that `start` read; it may come more than once.
unfoldable pub on_connect : World → Language → Fields → List Text → ChannelRuntime → Run
unfolding recover_history
on_connect w l config topics s =
    after (if s.connected then subscribed topics else []) (recover_history w l config s)

abbrev ended : ChannelRuntime → Run
ended s = finished (record s { connected = false }) (if s.connected then disconnected ∷ [] else [])

unfoldable pub stop : World → ChannelRuntime → Run
unfolding flush_state
stop w s =
    if s.started then ended (record s { started = false }) then_do flush_state w else finished s []
