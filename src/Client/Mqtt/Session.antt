-- ===== src/Client/Mqtt/Session.antt =====
-- The subscriptions that a client of client/mqtt.ts wants are those that the broker was asked for.
use openclaw_bot_chat.Base.{
  ℤ, ◌≡◌, ◌⊎◌, inl, inr, Bool-cases, refl, sym, subst, ◌∙◌, Bool, true, false, [], ◌∷◌, arith,
  Option, none, some, Text, text_eq_iff, is_truthy, if◌then◌else◌,
}
use openclaw_bot_chat.Base.Dict.{get, set, get-set, get_absent, AreDistinct, AreDistinct-set}
use openclaw_bot_chat.Values.{Value}
use openclaw_bot_chat.Client.Mqtt.{
  fresh_connection, Topics, Qos, Connection, MqttClient, new, ask, ask_each, is_connected, opened,
  lost, normalize_qos, set_state, connect, resubscribe_all, on_connect, on_reconnect, on_message,
  on_close, close, finish_close, subscribe, publish, Step, connects, is_opened, opens_late, is_lost,
  ends_late, retries, receives, fails_later, subscribes, publishes, closes, is_closed, Reachable,
  at_start, after,
}

abbrev pub session_of : Option Connection → Topics
session_of none = []
session_of (some connection) = connection.session

-- Asking for each of some topics leaves the session with these and with what it had besides.
abbrev under : Option Qos → Option Qos → Option Qos
under none q = q
under (some p) q = some p

get-ask_each :
    (topics : Topics) (connection : Connection) (topic : Text)
    → AreDistinct topics
    → get topic (session_of (ask_each topics (some connection)))
      ≡ under (get topic topics) (get topic connection.session)
unfolding ask_each get
get-ask_each [] connection topic h = refl
get-ask_each ((t, q) ∷ topics) connection topic (new, h) = ground (
  arith,
  get-ask_each topics (record connection { session = set t q connection.session }) topic h,
  get-set t topic q connection.session,
  text_eq_iff t topic,
  get_absent t topics new,
)

ask_each-none : (topics : Topics) → ask_each topics none ≡ none
unfolding ask_each
ask_each-none [] = refl
ask_each-none ((t, q) ∷ topics) = ask_each-none topics

abbrev pub Follows : Option Connection → Topics → Type 0
Follows o topics =
    is_connected o ≡ true → (topic : Text) → get topic (session_of o) ≡ get topic topics

-- An open connection has been asked for the wanted topics, each with its quality of service, and for
-- no others.
pub record IsCovered (c : MqttClient) : Type 0 where
  pub distinct : AreDistinct c.subscriptions
  pub asked : Follows c.client c.subscriptions

under-eq : (p q : Option Qos) → (q ≡ none) ⊎ (q ≡ p) → under p q ≡ p
under-eq none q h = ground arith
under-eq (some p) q h = refl

-- What a resubscription makes of a session that lists wanted topics only.
resubscribed-Follows :
    (topics : Topics) (o : Option Connection)
    → AreDistinct topics
    → ((topic : Text)
        → (get topic (session_of o) ≡ none) ⊎ (get topic (session_of o) ≡ get topic topics))
    → Follows (ask_each topics o) topics
resubscribed-Follows topics none d h e = cc (ask_each-none topics)
resubscribed-Follows topics (some connection) d h e = λ topic.
    get-ask_each topics connection topic d
    ∙ under-eq (get topic topics) (get topic connection.session) (h topic)

IsCovered-of :
    (d : MqttClient) {o : Option Connection} {topics : Topics}
    → d.client ≡ o
    → d.subscriptions ≡ topics
    → AreDistinct topics
    → Follows o topics
    → IsCovered d
IsCovered-of d {o} p q distinct asked = record {
  distinct = subst AreDistinct (sym q) distinct;
  asked = subst (λ x. Follows x d.subscriptions) (sym p) (subst (Follows o) (sym q) asked);
}

abbrev Keeps : MqttClient → MqttClient → Type 0
Keeps c d = (d.client ≡ c.client) × (d.subscriptions ≡ c.subscriptions)

Keeps-IsCovered : (c d : MqttClient) → Keeps c d → IsCovered c → IsCovered d
Keeps-IsCovered c d k h = IsCovered-of d k.0 k.1 h.distinct h.asked

connect_effect :
    (refused : Bool) (c : MqttClient)
    → let d = (connect refused c).0 in
      ((d.client ≡ c.client) ⊎ (d.client ≡ some fresh_connection))
      × (d.subscriptions ≡ c.subscriptions)
unfolding connect set_state
connect_effect refused c = ground arith

connect-IsCovered :
    (refused : Bool) (c : MqttClient) → IsCovered c → IsCovered (connect refused c).0
connect-IsCovered refused c h = elim (connect_effect refused c).0 [
  | inl p ↦ Keeps-IsCovered c _ (p, (connect_effect refused c).1) h
  | inr p ↦ IsCovered-of _ p (connect_effect refused c).1 h.distinct (λ e. cc)
]

abbrev resubscribed : Option Connection → Topics → Option Connection
resubscribed o topics = if is_connected o then ask_each topics o else o

on_connect_effect :
    (c : MqttClient)
    → ((on_connect c).client ≡ resubscribed c.client c.subscriptions)
      × ((on_connect c).subscriptions ≡ c.subscriptions)
unfolding on_connect set_state resubscribe_all
on_connect_effect c = ground arith

on_connect-IsCovered :
    (c : MqttClient)
    → AreDistinct c.subscriptions
    → (is_connected c.client ≡ true
        → (topic : Text)
        → (get topic (session_of c.client) ≡ none)
          ⊎ (get topic (session_of c.client) ≡ get topic c.subscriptions))
    → IsCovered (on_connect c)
on_connect-IsCovered c d h = elim (Bool-cases (is_connected c.client)) [
  | inl e ↦
      IsCovered-of _ {o = ask_each c.subscriptions c.client} ((on_connect_effect c).0 ∙ rw e)
        (on_connect_effect c).1 d (resubscribed-Follows c.subscriptions c.client d (h e))
  | inr e ↦
      IsCovered-of _ {o = c.client} ((on_connect_effect c).0 ∙ rw e) (on_connect_effect c).1 d
        (λ f. cc)
]

on_reconnect-Keeps : (c : MqttClient) → Keeps c (on_reconnect c)
unfolding on_reconnect set_state
on_reconnect-Keeps c = ground arith

on_close-Keeps : (c : MqttClient) → Keeps c (on_close c)
unfolding on_close set_state
on_close-Keeps c = ground arith

finish_close-Keeps : (fails : Bool) (c : MqttClient) → Keeps c (finish_close fails c).0
unfolding finish_close set_state
finish_close-Keeps true c = (refl, refl)
finish_close-Keeps false c = ground arith

publish-Keeps :
    (fails : Bool) (topic : Text) (payload : Value) (qos : ℤ) (c : MqttClient)
    → Keeps c (publish fails topic payload qos c).0
unfolding publish
publish-Keeps fails topic payload qos c = ground arith

close_effect :
    (c : MqttClient) → ((close c).client ≡ none) × ((close c).subscriptions ≡ c.subscriptions)
unfolding close set_state
close_effect c = ground arith

lost-Follows : (o : Option Connection) (topics : Topics) → Follows (lost o) topics
lost-Follows none topics e = cc
lost-Follows (some connection) topics e = cc

ask-Follows :
    (o : Option Connection) (topics : Topics) (topic : Text) (qos : Qos)
    → Follows o topics
    → Follows (ask topic qos o) (set topic qos topics)
ask-Follows none topics topic qos h e = cc
ask-Follows (some connection) topics topic qos h e = λ other.
    get-set topic other qos connection.session
    ∙ rw (h e other) (sym (get-set topic other qos topics))

subscribe-IsCovered :
    (fails : Bool) (topic : Text) (qos : ℤ) (c : MqttClient)
    → IsCovered c
    → IsCovered (subscribe fails topic qos c).0
unfolding subscribe
subscribe-IsCovered fails topic qos c h = elim (Bool-cases (is_truthy topic)) [
  | inr e ↦ rw e h
  | inl e ↦ elim (Bool-cases (is_connected c.client)) [
    | inl f ↦
        rw (e, f)
          (IsCovered-of _ refl refl (AreDistinct-set topic _ c.subscriptions h.distinct)
            (ask-Follows c.client c.subscriptions topic (normalize_qos qos) h.asked))
    | inr f ↦
        rw (e, f)
          (IsCovered-of _ refl refl (AreDistinct-set topic _ c.subscriptions h.distinct) (λ g. cc))
  ]
]

opened_session : (o : Option Connection) (topic : Text) → get topic (session_of (opened o)) ≡ none
unfolding get
opened_session none topic = refl
opened_session (some connection) topic = refl

Step-IsCovered :
    {parse : Text → Option Value} {c d : MqttClient} → Step parse c d → IsCovered c → IsCovered d
Step-IsCovered (connects c refused) h = connect-IsCovered refused c h
Step-IsCovered (is_opened c connection e) h =
    on_connect-IsCovered (record c { client = opened c.client }) h.distinct
      (λ e topic. inl (opened_session c.client topic))
Step-IsCovered (opens_late c) h =
    on_connect-IsCovered c h.distinct (λ e topic. inr (h.asked e topic))
Step-IsCovered (is_lost c) h =
    Keeps-IsCovered (record c { client = lost c.client }) _
      (on_close-Keeps (record c { client = lost c.client }))
      (record { distinct = h.distinct; asked = lost-Follows c.client c.subscriptions })
Step-IsCovered (ends_late c) h = Keeps-IsCovered c _ (on_close-Keeps c) h
Step-IsCovered (retries c) h = Keeps-IsCovered c _ (on_reconnect-Keeps c) h
Step-IsCovered (receives c topic payload) h =
    Keeps-IsCovered c _ (unfold on_message in (refl, refl)) h
Step-IsCovered (fails_later c) h = Keeps-IsCovered c _ (refl, refl) h
Step-IsCovered (subscribes c fails topic qos) h = subscribe-IsCovered fails topic qos c h
Step-IsCovered (publishes c fails topic payload qos) h =
    Keeps-IsCovered c _ (publish-Keeps fails topic payload qos c) h
Step-IsCovered (closes c) h =
    IsCovered-of _ (close_effect c).0 (close_effect c).1 h.distinct (λ e. cc)
Step-IsCovered (is_closed c fails) h = Keeps-IsCovered c _ (finish_close-Keeps fails c) h

-- Whatever happens to a client, and in whichever order: while its connection is open, the broker has
-- been asked for each topic of `subscribe`, with the quality of service that was asked last, and for
-- no other topic.
pub Reachable-IsCovered :
    {parse : Text → Option Value} {c : MqttClient} → Reachable parse c → IsCovered c
Reachable-IsCovered at_start = record { distinct = tt; asked = λ e. cc }
Reachable-IsCovered (after r step) = Step-IsCovered step (Reachable-IsCovered r)
