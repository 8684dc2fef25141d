-- ===== src/Examples/Brokered.antt =====
-- A client that connects, subscribes, loses its connection and has it back.
use openclaw_bot_chat.Base.{
  false, eqb_ℤ, is_truthy, ◌≡◌, refl, pos, Option, none, some, [], ◌∷◌, Text,
}
use openclaw_bot_chat.Base.Dict.{set}
use openclaw_bot_chat.Values.{Value}
use openclaw_bot_chat.Client.Mqtt.{
  MqttClient, Connection, Reachable, at_start, after, new, opened, lost, fresh_connection,
  set_state, normalize_qos, connect, resubscribe_all, on_connect, on_close, subscribe,
  at_least_once, connects, is_opened, is_lost, subscribes,
}
use openclaw_bot_chat.Client.Mqtt.Reports.{IsReported, Reachable-IsReported}
use openclaw_bot_chat.Client.Mqtt.Session.{IsCovered, Reachable-IsCovered}
use openclaw_bot_chat.Examples.{dialog}

abbrev parse : Text → Option Value
parse t = none

abbrev open_event : MqttClient → MqttClient
open_event c = on_connect (record c { client = opened c.client })

abbrev first : MqttClient
first = open_event (connect false new).0

abbrev subscribed : MqttClient
subscribed = (subscribe false dialog (pos 1) first).0

abbrev lost_client : MqttClient
lost_client = on_close (record subscribed { client = lost subscribed.client })

abbrev again : MqttClient
again = open_event lost_client

fresh_client : (connect false new).0.client ≡ some fresh_connection
unfolding connect set_state
fresh_client = refl

abbrev dropped : Connection
dropped = record { connected = false; session = (dialog, at_least_once) ∷ [] }

still_there : lost_client.client ≡ some dropped
unfolding connect set_state on_connect resubscribe_all on_close subscribe normalize_qos eqb_ℤ set
    is_truthy
still_there = refl

reached : Reachable parse again
reached =
    after
      (after
        (after
          (after (after at_start (connects new false))
            (is_opened (connect false new).0 fresh_connection fresh_client))
          (subscribes first false dialog (pos 1)))
        (is_lost subscribed))
      (is_opened lost_client dropped still_there)

Reachable-IsReported_example : IsReported again
Reachable-IsReported_example = Reachable-IsReported reached

Reachable-IsCovered_example : IsCovered again
Reachable-IsCovered_example = Reachable-IsCovered reached
