-- ===== src/Examples/Running.antt =====
-- A runtime that handles a message, and one that starts.
use openclaw_bot_chat.Base.{
  ℤ, pos, ◌≡◌, refl, ap, none, some, List, [], ◌∷◌, arith, Text, txt, is_truthy,
}
use openclaw_bot_chat.Stores.{done, flush}
use openclaw_bot_chat.Runtime.State.{Setup}
use openclaw_bot_chat.Base.Dict.{has}
use openclaw_bot_chat.Runtime.Processed.{is_processed}
use openclaw_bot_chat.Runtime.Task.{run_task, handle_incoming_message}
use openclaw_bot_chat.Runtime.Task.Settling.{Settles}
use openclaw_bot_chat.Runtime.Task.Outcome.{
  IsMonotone, IsSound, run_task-Settles, handle_incoming_message-IsSound, handle_twice,
}
use openclaw_bot_chat.Runtime.Task.Denied.{denied_is_not_asked}
use openclaw_bot_chat.Runtime.Task.Asked.{AsksOnce, handle-AsksOnce}
use openclaw_bot_chat.Runtime.Start.{start, resolve_client_id}
use openclaw_bot_chat.Runtime.Start.ClientId.{resolve_client_id_placeholders}
use openclaw_bot_chat.Runtime.Start.Sound.{start-IsSound}
use openclaw_bot_chat.Runtime.Stop.{stop}
use openclaw_bot_chat.Examples.{hello, host, setup, closed_setup, idle}
use openclaw_bot_chat.Examples.Handling.{
  handled, handled_runs, hello_route, denied_admitted, denied_refused,
}

clock-IsMonotone : (s : Setup) → IsMonotone s host
clock-IsMonotone s i j le = omega arith

idle-IsSound : (s : Setup) → IsSound s host idle
idle-IsSound s = record { bounded = omega arith; timely = tt }

handled_done : handle_incoming_message setup host hello idle ≡ (handled, done tt)
handled_done = ap (λ r. (handled, r)) handled_runs

handle_twice_example : handle_incoming_message setup host hello handled ≡ (handled, done tt)
handle_twice_example =
    handle_twice setup host (clock-IsMonotone setup) hello idle (idle-IsSound setup) handled_done

run_task-Settles_example :
    Settles setup host hello idle (run_task setup host hello_route hello idle)
unfolding is_truthy is_processed has
run_task-Settles_example = run_task-Settles setup host hello_route hello idle refl refl

handle_incoming_message-IsSound_example :
    IsSound setup host (handle_incoming_message setup host hello idle).0
handle_incoming_message-IsSound_example =
    handle_incoming_message-IsSound setup host (clock-IsMonotone setup) hello idle
      (idle-IsSound setup)

handle-AsksOnce_example : AsksOnce hello idle (handle_incoming_message setup host hello idle)
handle-AsksOnce_example = handle-AsksOnce setup host hello idle

resolve_client_id_placeholders_example :
    (resolve_client_id (some (txt "b1")) (txt "{bot_id}") ≡ done (txt "b1"))
    × (resolve_client_id (some (txt "b1")) (txt "${bot_id}") ≡ done (txt "$b1"))
unfolding is_truthy
resolve_client_id_placeholders_example =
    resolve_client_id_placeholders (txt "b1") refl (ground arith) (ground arith)

denied_is_not_asked_example : (handle_incoming_message closed_setup host hello idle).0.asked ≡ []
denied_is_not_asked_example =
    denied_is_not_asked closed_setup host hello idle denied_admitted denied_refused tt

start-IsSound_example : IsSound setup host (start setup host none none idle).0
start-IsSound_example =
    start-IsSound setup host (clock-IsMonotone setup) none none idle (idle-IsSound setup)

-- A cache of two entries with no room for a third.
abbrev full : List (Text × ℤ)
full = (txt "a", pos 1) ∷ (txt "b", pos 2) ∷ []

idle_stopped : stop host idle ≡ ((stop host idle).0, done tt)
unfolding stop flush
idle_stopped = refl
