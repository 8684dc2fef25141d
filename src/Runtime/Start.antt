-- ===== src/Runtime/Start.antt =====
-- `start` of runtime/bot.ts: state is loaded, the bootstrap answer is merged into it, the client
-- connects and subscribes, and missed messages are recovered.
pub mod Subscriptions
pub mod Sound
pub mod Skipped
pub mod ClientId
use openclaw_bot_chat.Base.{
  ℕ, zero, suc, ◌-◌, ℤ, pos, Bool, true, false, not, ◌||◌, Option, none, some, get_or, List, [],
  ◌∷◌, ◌++◌, map, Text, txt, is_truthy, starts_with, trim, length, contains, add, if◌then◌else◌,
}
use openclaw_bot_chat.Base.Dict.{get, set, has}
use openclaw_bot_chat.Values.{single, str, Fields, ◌<|>◌}
use openclaw_bot_chat.Types.{
  BootstrapResponse, BrokerInfo, ConversationInfo, GroupInfo, Subscription, Checkpoint,
  ChannelContext,
}
use openclaw_bot_chat.Channels.{DialogInfo, States, track_dialog, set_session, set_checkpoint}
use openclaw_bot_chat.Stores.{Result, done, thrown, load_sessions, load_checkpoints, merge}
use openclaw_bot_chat.Router.Context.{resolve_channel_context_from_dialog}
use openclaw_bot_chat.Runtime.State.{
  Host, Setup, Runtime, M, ◌>>=◌, ◌>>◌, return, throw, read, modify, ask_host, lift_result,
  on_checkpoints, change_channels,
}
use openclaw_bot_chat.Runtime.Approval.{truthy}
use openclaw_bot_chat.Runtime.Recovery.{recover_pending_messages}

unfoldable pub to_checkpoint : ConversationInfo → Checkpoint
to_checkpoint c = record {
  dialog_id = c.conversation_id;
  last_seq = c.last_seq;
  last_message_id = truthy c.last_message_id;
  session_id = none;
  updated_at = c.updated_at;
}

unfoldable pub to_dialog_info : ConversationInfo → DialogInfo
to_dialog_info c = record {
  dialog_id = c.conversation_id;
  topic = truthy c.topic;
  title = truthy c.title;
  last_seq = c.last_seq;
  last_message_id = truthy c.last_message_id;
  updated_at = c.updated_at;
}

-- The broker's address; each setting counts only if it is not empty.
unfoldable pub resolve_broker_url : Option Text → Option Text → BootstrapResponse → Result Text
resolve_broker_url ws_url tcp_url b =
    elim (truthy ws_url
      <|> truthy b.broker.ws_url
      <|> truthy tcp_url
      <|> truthy (some b.broker.tcp_url)) [ none ↦ thrown | some url ↦ done url ]

-- `text.replaceAll(pattern, replacement)`: `skip` counts the units that a match still covers. A `$`
-- in the replacement stands for itself.
unfoldable pub replace_from : ℕ → Text → Text → Text → Text
replace_from skip pat replacement [] = []
replace_from (suc skip) pat replacement (c ∷ cs) = replace_from skip pat replacement cs
replace_from zero pat replacement (c ∷ cs) =
    let replaced = replacement ++ replace_from (length pat - 1) pat replacement cs in
    let kept = c ∷ replace_from 0 pat replacement cs in
    if starts_with (c ∷ cs) pat then replaced else kept

abbrev pub replace_all : Text → Text → Text → Text
replace_all pat replacement t = replace_from 0 pat replacement t

unfoldable pub resolve_client_id : Option Text → Text → Result Text
resolve_client_id bot_id client_id =
    let template = trim client_id in
    if not (is_truthy template) then thrown else elim (truthy bot_id) [
      | none ↦ done template
      | some id ↦ done (replace_all (txt "${bot_id}") id (replace_all (txt "{bot_id}") id template))
    ]

-- Topics with their quality of service, in the order of subscription.
abbrev pub Topics : Type 0
Topics = List (Text × ℤ)

unfoldable pub add_subscriptions : ℤ → List Subscription → Topics → Topics
add_subscriptions qos [] topics = topics
add_subscriptions qos (s ∷ ss) topics =
    add_subscriptions qos ss
      (if is_truthy s.topic then set s.topic (get_or s.qos qos) topics else topics)

abbrev pub add_truthy : Text → List Text → List Text
add_truthy t expected = if is_truthy t then add t expected else expected

abbrev add_topic_or : Option Text → Text → List Text → List Text
add_topic_or none id expected =
    if is_truthy id then add (txt "chat/group/" ++ id) expected else expected
add_topic_or (some topic) id expected = add topic expected

unfoldable pub expect_groups : List GroupInfo → List Text → List Text
expect_groups [] expected = expected
expect_groups (g ∷ gs) expected = expect_groups gs (add_topic_or (truthy g.topic) g.id expected)

unfoldable pub expect_conversations : List ConversationInfo → List Text → List Text
expect_conversations [] expected = expected
expect_conversations (c ∷ cs) expected =
    expect_conversations cs (add_truthy (get_or c.topic c.conversation_id) expected)

-- The loop that fills in the expected topics that no subscription names.
unfoldable pub autofill : ℤ → List Text → Topics → Topics
autofill qos [] topics = topics
autofill qos (t ∷ ts) topics = autofill qos ts (if has t topics then topics else set t qos topics)

unfoldable pub resolve_subscriptions : BootstrapResponse → Topics
resolve_subscriptions b =
    let qos = get_or b.broker.qos (pos 1) in
    autofill qos (expect_conversations b.conversations (expect_groups b.groups []))
      (add_subscriptions qos b.subscriptions [])

abbrev topic_meta : Option Text → Option Fields
topic_meta none = none
topic_meta (some t) = if is_truthy t then some (single (txt "topic") (str t)) else none

unfoldable pub hydrate_dialogs : Text → List ConversationInfo → States → States
hydrate_dialogs bot_id [] states = states
hydrate_dialogs bot_id (c ∷ cs) states =
    let dialog = to_dialog_info c in
    hydrate_dialogs bot_id cs (
      track_dialog
        (resolve_channel_context_from_dialog dialog.dialog_id bot_id (topic_meta dialog.topic) none)
        dialog states)

unfoldable pub hydrate_sessions : Text → List (Text × Text) → States → States
hydrate_sessions bot_id [] states = states
hydrate_sessions bot_id ((dialog_id, session_id) ∷ rest) states = hydrate_sessions bot_id rest (
    set_session (resolve_channel_context_from_dialog dialog_id bot_id none none) dialog_id
      session_id states)

unfoldable pub hydrate_checkpoints : Text → List (Text × Checkpoint) → States → States
hydrate_checkpoints bot_id [] states = states
hydrate_checkpoints bot_id ((key, c) ∷ rest) states =
    hydrate_checkpoints bot_id rest
      (set_checkpoint (resolve_channel_context_from_dialog c.dialog_id bot_id none none) c states)

unfoldable pub hydrate_channel_state : Text → BootstrapResponse → Runtime → Runtime
hydrate_channel_state bot_id b s = record s {
  channels = hydrate_checkpoints bot_id s.checkpoints.entries (
      hydrate_sessions bot_id s.sessions.entries
        (hydrate_dialogs bot_id b.conversations s.channels));
}

abbrev pub require : Option Text → M Text
require none = throw
require (some t) = return t

abbrev pub unless_fails : Bool → M (Unit {0})
unless_fails true = throw
unless_fails false = return tt

module _ (setup : Setup) (host : Host) (ws_url tcp_url : Option Text) where
  unfoldable pub subscribe_each : Topics → M (Unit {0})
  subscribe_each [] = return tt
  subscribe_each (t ∷ ts) = do
    fails ← ask_host host.connect_fails
    unless_fails fails
    subscribe_each ts

  unfoldable pub load_state : Runtime → Runtime
  load_state s = record s {
    stopped = false;
    sessions = load_sessions s.sessions;
    checkpoints = load_checkpoints s.checkpoints;
  }

  -- From the connection on.
  unfoldable pub connect : BootstrapResponse → M (Unit {0})
  unfolding subscribe_each
  connect b = do
    modify (λ s. record s { connected = true })
    refused ← ask_host host.connect_fails
    unless_fails refused
    subscribe_each (resolve_subscriptions b)
    recover_pending_messages setup host

  -- The client identifier and the broker's address are computed before the connection.
  unfoldable pub start_as : BootstrapResponse → Text → M (Unit {0})
  unfolding connect
  start_as b bot_id = do
    fails ← ask_host host.write_fails
    on_checkpoints (merge fails (map to_checkpoint b.conversations))
    modify (hydrate_channel_state bot_id b)
    client_id ← lift_result (resolve_client_id (some bot_id) b.client_id)
    url ← lift_result (resolve_broker_url ws_url tcp_url b)
    connect b

  unfoldable pub start_with : BootstrapResponse → M (Unit {0})
  unfolding start_as
  start_with b = do
    let id = get_or setup.bot_config.id b.bot_id
    modify (λ s. record s { bootstrap = some b; bot_id = some id })
    bot_id ← require (truthy (some id))
    start_as b bot_id

  unfoldable pub start : M (Unit {0})
  unfolding start_with
  start = do
    modify load_state
    answer ← ask_host host.bootstrap
    b ← lift_result answer
    start_with b
