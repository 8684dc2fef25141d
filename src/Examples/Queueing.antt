-- ===== src/Examples/Queueing.antt =====
-- Two tasks of one key: the first runs, the second waits.
use openclaw_bot_chat.Base.{◌≡◌, refl, ◌⊎◌, true, none, Text, txt, All}
use openclaw_bot_chat.Base.Dict.{get}
use openclaw_bot_chat.Runtime.Queues.{
  Queues, is_over, enqueue, begin, settle, set_phase, may_begin, runs, enqueued, began, ended,
  no_queues, Reachable, at_start, after,
}
use openclaw_bot_chat.Runtime.Queues.Tickets.{AreSerial}
use openclaw_bot_chat.Runtime.Queues.Serial.{Reachable-AreSerial}
use openclaw_bot_chat.Runtime.Queues.Forgotten.{Reachable-is_forgotten}
use openclaw_bot_chat.Runtime.Queues.Progress.{GoesOn, Reachable-GoesOn}

abbrev key : Text
key = txt "k"

abbrev queued : Queues
queued = enqueue key (enqueue key no_queues)

queued-Reachable : Reachable queued
queued-Reachable =
    after (after at_start (enqueued key no_queues)) (enqueued key (enqueue key no_queues))

abbrev begun : Queues
begun = begin 0 queued

begun-Reachable : Reachable begun
unfolding enqueue may_begin get
begun-Reachable = after queued-Reachable (began 0 queued refl)

Reachable-AreSerial_example : AreSerial begun.tickets
Reachable-AreSerial_example = Reachable-AreSerial begun-Reachable

Reachable-GoesOn_example : All (λ t. is_over t.phase ≡ true) begun.tickets ⊎ GoesOn begun.tickets
Reachable-GoesOn_example = Reachable-GoesOn begun-Reachable

abbrev one : Queues
one = enqueue key no_queues

one-Reachable : Reachable (settle 0 (begin 0 one))
unfolding enqueue begin may_begin runs set_phase get
one-Reachable =
    after (after (after at_start (enqueued key no_queues)) (began 0 one refl))
      (ended 0 (begin 0 one) refl)

Reachable-is_forgotten_example : get key (settle 0 (begin 0 one)).last ≡ none
unfolding enqueue begin settle set_phase
Reachable-is_forgotten_example = Reachable-is_forgotten key one-Reachable (refl, tt)
