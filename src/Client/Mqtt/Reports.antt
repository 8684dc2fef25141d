-- ===== src/Client/Mqtt/Reports.antt =====
-- What a client of client/mqtt.ts tells its handlers.
use openclaw_bot_chat.Base.{ℤ, ◌≡◌, Bool, true, false, List, [], ◌∷◌, arith, Option, Text}
use openclaw_bot_chat.Values.{Value}
use openclaw_bot_chat.Client.Mqtt.{
  State, idle, open_state, Call, state_change, connect_call, reconnect_call, error_call,
  message_call, MqttClient, is_state, set_state, connect, resubscribe_all, on_connect, on_reconnect,
  on_message, on_close, close, finish_close, subscribe, publish, Step, connects, is_opened,
  opens_late, is_lost, ends_late, retries, receives, fails_later, subscribes, publishes, closes,
  is_closed, Reachable, at_start, after,
}

-- The last state that was reported.
abbrev pub last_reported : List Call → State
last_reported [] = idle
last_reported (state_change s ∷ calls) = s
last_reported (connect_call ∷ calls) = last_reported calls
last_reported (reconnect_call ∷ calls) = last_reported calls
last_reported (error_call ∷ calls) = last_reported calls
last_reported (message_call t v ∷ calls) = last_reported calls

abbrev pub has_connected : List Call → Bool
has_connected [] = false
has_connected (connect_call ∷ calls) = true
has_connected (reconnect_call ∷ calls) = has_connected calls
has_connected (state_change s ∷ calls) = has_connected calls
has_connected (error_call ∷ calls) = has_connected calls
has_connected (message_call t v ∷ calls) = has_connected calls

-- Each reported state differs from the one before, the first connection is reported as such, and
-- each later one as a reconnection.
abbrev pub IsInOrder : List Call → Type 0
IsInOrder [] = Unit
IsInOrder (state_change s ∷ calls) = (is_state s (last_reported calls) ≡ false) × IsInOrder calls
IsInOrder (connect_call ∷ calls) = (has_connected calls ≡ false) × IsInOrder calls
IsInOrder (reconnect_call ∷ calls) = (has_connected calls ≡ true) × IsInOrder calls
IsInOrder (error_call ∷ calls) = IsInOrder calls
IsInOrder (message_call t v ∷ calls) = IsInOrder calls

pub record IsReported (c : MqttClient) : Type 0 where
  pub state : last_reported c.calls ≡ c.state
  pub connected : has_connected c.calls ≡ c.connected_once
  pub in_order : IsInOrder c.calls
  pub opened : c.state ≡ open_state → c.connected_once ≡ true

set_state-IsReported :
    (s : State) (c : MqttClient)
    → (s ≡ open_state → c.connected_once ≡ true)
    → IsReported c
    → IsReported (set_state s c)
unfolding set_state
set_state-IsReported s c o h = ground arith

connect-IsReported :
    (refused : Bool) (c : MqttClient) → IsReported c → IsReported (connect refused c).0
unfolding connect set_state
connect-IsReported refused c h = ground arith

on_connect-IsReported : (c : MqttClient) → IsReported c → IsReported (on_connect c)
unfolding on_connect set_state resubscribe_all
on_connect-IsReported c h = ground arith

on_reconnect-IsReported : (c : MqttClient) → IsReported c → IsReported (on_reconnect c)
unfolding on_reconnect set_state
on_reconnect-IsReported c h = ground arith

on_close-IsReported : (c : MqttClient) → IsReported c → IsReported (on_close c)
unfolding on_close set_state
on_close-IsReported c h = ground arith

on_message-IsReported :
    (parse : Text → Option Value) (topic payload : Text) (c : MqttClient)
    → IsReported c
    → IsReported (on_message parse topic payload c)
unfolding on_message
on_message-IsReported parse topic payload c h = ground arith

close-IsReported : (c : MqttClient) → IsReported c → IsReported (close c)
unfolding close set_state
close-IsReported c h = ground arith

finish_close-IsReported :
    (fails : Bool) (c : MqttClient) → IsReported c → IsReported (finish_close fails c).0
unfolding finish_close set_state
finish_close-IsReported true c h = h
finish_close-IsReported false c h = ground arith

subscribe-IsReported :
    (fails : Bool) (topic : Text) (qos : ℤ) (c : MqttClient)
    → IsReported c
    → IsReported (subscribe fails topic qos c).0
unfolding subscribe
subscribe-IsReported fails topic qos c h = ground arith

publish-IsReported :
    (fails : Bool) (topic : Text) (payload : Value) (qos : ℤ) (c : MqttClient)
    → IsReported c
    → IsReported (publish fails topic payload qos c).0
unfolding publish
publish-IsReported fails topic payload qos c h = ground arith

Step-IsReported :
    {parse : Text → Option Value} {c d : MqttClient} → Step parse c d → IsReported c → IsReported d
Step-IsReported (connects c refused) h = connect-IsReported refused c h
Step-IsReported (is_opened c connection e) h = on_connect-IsReported _ (ground arith)
Step-IsReported (opens_late c) h = on_connect-IsReported c h
Step-IsReported (is_lost c) h = on_close-IsReported _ (ground arith)
Step-IsReported (ends_late c) h = on_close-IsReported c h
Step-IsReported (retries c) h = on_reconnect-IsReported c h
Step-IsReported (receives c topic payload) h = on_message-IsReported _ topic payload c h
Step-IsReported (fails_later c) h = ground arith
Step-IsReported (subscribes c fails topic qos) h = subscribe-IsReported fails topic qos c h
Step-IsReported (publishes c fails topic payload qos) h =
    publish-IsReported fails topic payload qos c h
Step-IsReported (closes c) h = close-IsReported c h
Step-IsReported (is_closed c fails) h = finish_close-IsReported fails c h

-- Whatever happens to a client, and in whichever order: the state that it reported last is its
-- state, no state is reported twice in a row, its first connection is reported as such and each
-- later one as a reconnection, and a client whose state is open has connected before.
pub Reachable-IsReported :
    {parse : Text → Option Value} {c : MqttClient} → Reachable parse c → IsReported c
Reachable-IsReported at_start = ground arith
Reachable-IsReported (after r step) = Step-IsReported step (Reachable-IsReported r)
