-- ===== src/Client/Mqtt.antt =====
-- `BotChatMqttClient` of plugins/openclaw-bot-chat/src/client/mqtt.ts over the mqtt package, whose
-- connection has a flag and, at the broker, a session: the topics asked for since it was opened. With
-- `clean: true` each opened connection starts a new session.
pub mod Reports
pub mod Session
use openclaw_bot_chat.Base.{
  ◌≡◌, ℤ, pos, eqb_ℤ, Bool, true, false, Option, none, some, List, [], ◌∷◌, Text, txt, is_truthy,
  if◌then◌else◌,
}
use openclaw_bot_chat.Base.Dict.{set}
use openclaw_bot_chat.Values.{Value, Fields, end, obj, str, field, single}
use openclaw_bot_chat.Stores.{Result, done, thrown}

pub data State : Type 0 where
  idle connecting open_state reconnecting closed : State

pub data Qos : Type 0 where
  at_most_once at_least_once exactly_once : Qos

abbrev pub Topics : Type 0
Topics = List (Text × Qos)

pub record Connection : Type 0 where
  pub connected : Bool
  pub session : Topics

-- The handlers that the client calls.
pub data Call : Type 0 where
  state_change : State → Call
  connect_call reconnect_call error_call : Call
  message_call : Text → Value → Call

pub record Publication : Type 0 where
  pub topic : Text
  pub payload : Value
  pub qos : Qos

-- `calls` and `published` record, newest first, what the client has done.
pub record MqttClient : Type 0 where
  pub client : Option Connection
  pub state : State
  pub closed_by_user : Bool
  pub connected_once : Bool
  pub subscriptions : Topics
  pub calls : List Call
  pub published : List Publication

abbrev pub new : MqttClient
new = record {
  client = none;
  state = idle;
  closed_by_user = false;
  connected_once = false;
  subscriptions = [];
  calls = [];
  published = [];
}

abbrev pub is_state : State → State → Bool
is_state idle idle = true
is_state connecting connecting = true
is_state open_state open_state = true
is_state reconnecting reconnecting = true
is_state closed closed = true
is_state _ _ = false

abbrev pub call : Call → MqttClient → MqttClient
call x c = record c { calls = x ∷ c.calls }

unfoldable pub set_state : State → MqttClient → MqttClient
set_state s c = if is_state s c.state then c else call (state_change s) (record c { state = s })

unfoldable pub normalize_qos : ℤ → Qos
normalize_qos value =
    if eqb_ℤ value (pos 0)
    then at_most_once
    else if eqb_ℤ value (pos 2)
    then exactly_once
    else at_least_once

-- `JSON.parse` is the language's: a text that it refuses gives `none`.
unfoldable pub parse_payload : (Text → Option Value) → Text → Value
parse_payload parse text =
    if is_truthy text
    then elim (parse text) [
      | some value ↦ value
      | none ↦ obj (
          single (txt "content")
            (obj (field (txt "type") (str (txt "text")) (single (txt "body") (str text)))))
    ]
    else obj end

abbrev pub fresh_connection : Connection
fresh_connection = record { connected = false; session = [] }

abbrev pub is_open_or_pending : Option Connection → State → Bool
is_open_or_pending none s = false
is_open_or_pending (some connection) s = if is_state s closed then false else true

-- `connect` up to its wait for the first event; `refused` says that the package throws at once.
unfoldable pub connect : Bool → MqttClient → MqttClient × Result (Unit {0})
unfolding set_state
connect refused c =
    if is_open_or_pending c.client c.state
    then (c, done tt)
    else (let next = set_state connecting (record c { closed_by_user = false }) in
        if refused
        then (next, thrown)
        else (record next { client = some fresh_connection }, done tt))

-- `client.subscribe(topic, { qos })`, on the current connection.
abbrev pub ask : Text → Qos → Option Connection → Option Connection
ask topic qos none = none
ask topic qos (some connection) =
    some (record connection { session = set topic qos connection.session })

abbrev pub is_connected : Option Connection → Bool
is_connected none = false
is_connected (some connection) = connection.connected

unfoldable pub ask_each : Topics → Option Connection → Option Connection
ask_each [] connection = connection
ask_each ((topic, qos) ∷ topics) connection = ask_each topics (ask topic qos connection)

unfoldable pub resubscribe_all : MqttClient → MqttClient
unfolding ask_each
resubscribe_all c =
    if is_connected c.client then record c { client = ask_each c.subscriptions c.client } else c

-- The handlers that `connect` registers.
unfoldable pub on_connect : MqttClient → MqttClient
unfolding set_state resubscribe_all
on_connect c =
    call (if c.connected_once then reconnect_call else connect_call)
      (resubscribe_all (set_state open_state (record c { connected_once = true })))

unfoldable pub on_reconnect : MqttClient → MqttClient
unfolding set_state
on_reconnect c = if c.closed_by_user then c else set_state reconnecting c

unfoldable pub on_message : (Text → Option Value) → Text → Text → MqttClient → MqttClient
on_message parse topic payload c = call (message_call topic (parse_payload parse payload)) c

abbrev pub on_error : MqttClient → MqttClient
on_error c = call error_call c

unfoldable pub on_close : MqttClient → MqttClient
unfolding set_state
on_close c = set_state (if c.closed_by_user then closed else reconnecting) c

-- `close` up to its wait for the package; with no connection it is at its end.
unfoldable pub close : MqttClient → MqttClient
unfolding set_state
close c = elim c.client [
  | none ↦ set_state closed (record c { closed_by_user = true; client = none })
  | some connection ↦ record c { closed_by_user = true; client = none }
]

-- `close` after the package has ended the connection.
unfoldable pub finish_close : Bool → MqttClient → MqttClient × Result (Unit {0})
unfolding set_state
finish_close true c = (c, thrown)
finish_close false c = (set_state closed c, done tt)

-- What the package's callback reports.
abbrev pub outcome : Bool → Result (Unit {0})
outcome true = thrown
outcome false = done tt

unfoldable pub subscribe : Bool → Text → ℤ → MqttClient → MqttClient × Result (Unit {0})
unfolding normalize_qos
subscribe fails topic qos c =
    if is_truthy topic
    then (let wanted = record c { subscriptions = set topic (normalize_qos qos) c.subscriptions } in
        if is_connected c.client
        then (record wanted { client = ask topic (normalize_qos qos) c.client }, outcome fails)
        else (wanted, done tt))
    else (c, done tt)

unfoldable pub publish : Bool → Text → Value → ℤ → MqttClient → MqttClient × Result (Unit {0})
unfolding normalize_qos
publish fails topic payload qos c =
    if is_connected c.client
    then (let p : Publication = record {
      topic = topic;
      payload = payload;
      qos = normalize_qos qos;
    } in
        (record c { published = p ∷ c.published }, outcome fails))
    else (c, thrown)

-- The package's connection is opened, with a new session, or lost.
abbrev pub opened : Option Connection → Option Connection
opened none = none
opened (some connection) = some (record { connected = true; session = [] })

abbrev pub lost : Option Connection → Option Connection
lost none = none
lost (some connection) = some (record connection { connected = false })

-- What may happen to a client, in any order. A connection that is no longer the client's may still
-- call its handlers: `opens_late` to `fails_later` stand for those too.
pub data Step (parse : Text → Option Value) : MqttClient → MqttClient → Type 0 where
  connects : (c : MqttClient) (refused : Bool) → Step parse c (connect refused c).0
  is_opened :
      (c : MqttClient) (connection : Connection)
      → c.client ≡ some connection
      → Step parse c (on_connect (record c { client = opened c.client }))
  opens_late : (c : MqttClient) → Step parse c (on_connect c)
  is_lost : (c : MqttClient) → Step parse c (on_close (record c { client = lost c.client }))
  ends_late : (c : MqttClient) → Step parse c (on_close c)
  retries : (c : MqttClient) → Step parse c (on_reconnect c)
  receives :
      (c : MqttClient) (topic payload : Text) → Step parse c (on_message parse topic payload c)
  fails_later : (c : MqttClient) → Step parse c (on_error c)
  subscribes :
      (c : MqttClient) (fails : Bool) (topic : Text) (qos : ℤ)
      → Step parse c (subscribe fails topic qos c).0
  publishes :
      (c : MqttClient) (fails : Bool) (topic : Text) (payload : Value) (qos : ℤ)
      → Step parse c (publish fails topic payload qos c).0
  closes : (c : MqttClient) → Step parse c (close c)
  is_closed : (c : MqttClient) (fails : Bool) → Step parse c (finish_close fails c).0

pub data Reachable (parse : Text → Option Value) : MqttClient → Type 0 where
  at_start : Reachable parse new
  after : {c d : MqttClient} → Reachable parse c → Step parse c d → Reachable parse d
