-- ===== src/Runtime/Task/Outcome.antt =====
-- How a task ends, and what a message that is handled leaves behind.
use openclaw_bot_chat.Base.{
  ℕ, suc, ◌≤◌, ◌<◌, ℤ, ◌≤ℤ◌, ◌≡◌, refl, ap, subst, Bool, true, false, Option, none, some, List, [],
  ◌∷◌, arith, Text, length,
}
use openclaw_bot_chat.Types.{BotChatMessage, Checkpoint}
use openclaw_bot_chat.Channels.{track_dialog, get_checkpoint}
use openclaw_bot_chat.Stores.{Result, done, thrown}
use openclaw_bot_chat.Router.Context.{IncomingMessageRoute}
use openclaw_bot_chat.Runtime.State.{Host, Setup, Runtime, ApprovalRequest, ApprovalDecision}
use openclaw_bot_chat.Runtime.Processed.{is_processed, mark_processed, recent_message_cache_size}
use openclaw_bot_chat.Runtime.Processed.Bounds.{
  IsTimely, length-mark_within_le, has-mark_within, IsTimely-mark_within,
}
use openclaw_bot_chat.Runtime.Approval.{truthy, ask_approver, resolve_permission_approval}
use openclaw_bot_chat.Runtime.Saving.{build_dialog_info, mark, known_checkpoint}
use openclaw_bot_chat.Runtime.Task.{
  finish_approval, run_permitted, run_for, run_task, run_unless_processed, admit_for,
  run_if_admitted, admit, handle_incoming_message,
}
use openclaw_bot_chat.Runtime.Task.Steps.{Quiet, Quiet-refl, Quiet-trans}
use openclaw_bot_chat.Runtime.Task.Settling.{
  Settles, Settles-continue, finish_approval-Settles, answer_message-Settles,
}

module _ (setup : Setup) (host : Host) where
  ask_approver-Quiet :
      (approver : Option (ℕ → ApprovalRequest → Result ApprovalDecision))
      (request : ApprovalRequest) (s : Runtime)
      → Quiet s (ask_approver setup host approver request s).0
  unfolding ask_approver
  ask_approver-Quiet none request s = Quiet-refl s
  ask_approver-Quiet (some approve) request s = ground arith

  run_permitted-Settles :
      (allowed : Bool) (routed : IncomingMessageRoute) (message : BotChatMessage) (bot_id : Text)
      (checkpoint : Option Checkpoint) (s t : Runtime)
      → Quiet s t
      → Settles setup host message s
          (run_permitted setup host allowed routed message bot_id checkpoint t)
  unfolding run_permitted resolve_permission_approval
  run_permitted-Settles true routed message bot_id checkpoint s t q =
      answer_message-Settles setup host routed message bot_id checkpoint s t q
  run_permitted-Settles false routed message bot_id checkpoint s t q =
      Settles-continue setup host message s
        (resolve_permission_approval setup host bot_id routed message t)
        (λ approval.
          finish_approval setup host approval.allowed approval routed message bot_id checkpoint)
        (Quiet-trans q (ask_approver-Quiet host.approver _ t))
        (λ approval u qu.
          finish_approval-Settles setup host approval.allowed approval routed message bot_id
            checkpoint s u qu)

  run_for-Settles :
      (bot_id : Text) (routed : IncomingMessageRoute) (message : BotChatMessage) (s : Runtime)
      → Settles setup host message s (run_for setup host bot_id routed message s)
  unfolding run_for known_checkpoint
  run_for-Settles bot_id routed message s =
      run_permitted-Settles routed.permission.allowed routed message bot_id _ s
        (tracked routed message s) (record { processed = refl; later = omega arith })
    where
      tracked : IncomingMessageRoute → BotChatMessage → Runtime → Runtime
      tracked routed message s = record s {
        channels =
            (get_checkpoint routed.channel message.dialog_id
              (track_dialog routed.channel (build_dialog_info message) s.channels)).1;
      }

  run_unless_processed-Settles :
      (processed : Bool) (id : Option Text) (routed : IncomingMessageRoute)
      (message : BotChatMessage) (s : Runtime) {bot_id : Text}
      → processed ≡ false
      → id ≡ some bot_id
      → Settles setup host message s (run_unless_processed setup host processed id routed message s)
  run_unless_processed-Settles true id routed message s h e = cc
  run_unless_processed-Settles false none routed message s h e = cc
  run_unless_processed-Settles false (some b) routed message s h e =
      run_for-Settles b routed message s

  -- A task whose message is new and whose bot has an identifier that is not empty either throws, and then the message is not
  -- marked, so that it can be handled again; or it ends by marking the message, after the dialog's
  -- stored checkpoint was set to the message and written to the file.
  pub run_task-Settles :
      (routed : IncomingMessageRoute) (message : BotChatMessage) (s : Runtime) {bot_id : Text}
      → truthy s.bot_id ≡ some bot_id
      → is_processed message.message_id s.processed ≡ false
      → Settles setup host message s (run_task setup host routed message s)
  unfolding run_task
  run_task-Settles routed message s e h =
      run_unless_processed-Settles (is_processed message.message_id s.processed) (truthy s.bot_id)
        routed message s h e

  -- The host's clock does not go back.
  abbrev pub IsMonotone : Type 0
  IsMonotone = (i j : ℕ) → i ≤ j → host.now i ≤ℤ host.now j

  -- The cache of processed messages is within its limit, and no entry lies in the future.
  pub record IsSound (s : Runtime) : Type 0 where
    pub bounded : length s.processed ≤ recent_message_cache_size
    pub timely : IsTimely (host.now s.tick) s.processed

  IsTimely-mono : (a b : ℤ) (m : List (Text × ℤ)) → a ≤ℤ b → IsTimely a m → IsTimely b m
  IsTimely-mono a b [] h t = tt
  IsTimely-mono a b (e ∷ m) h (p, t) = (omega arith, IsTimely-mono a b m h t)

  pub Quiet-IsSound : IsMonotone → (s t : Runtime) → Quiet s t → IsSound s → IsSound t
  Quiet-IsSound mono s t q v = record {
    bounded = rw q.processed v.bounded;
    timely = rw q.processed (
        IsTimely-mono (host.now s.tick) (host.now t.tick) s.processed (mono s.tick t.tick q.later)
          v.timely);
  }

  mark-IsSound :
      IsMonotone
      → (message : BotChatMessage) (s : Runtime) → IsSound s
      → IsSound (mark setup host message s).0
  unfolding mark mark_processed
  mark-IsSound mono message s v =
      let now = host.now s.tick in
      record {
        bounded =
            length-mark_within_le recent_message_cache_size message.message_id now s.processed
              v.bounded;
        timely =
            IsTimely-mono now (host.now (suc s.tick)) _ (mono s.tick (suc s.tick) (omega arith)) (
              IsTimely-mark_within recent_message_cache_size message.message_id now s.processed
                v.timely);
      }

  cache_size-pos : 0 < recent_message_cache_size
  unfolding recent_message_cache_size
  cache_size-pos = omega arith

  mark-is_processed :
      (message : BotChatMessage) (s : Runtime)
      → IsSound s
      → is_processed message.message_id (mark setup host message s).0.processed ≡ true
  unfolding mark mark_processed is_processed
  mark-is_processed message s v =
      has-mark_within recent_message_cache_size message.message_id (host.now s.tick) s.processed
        cache_size-pos v.bounded v.timely

  Settles-IsSound :
      IsMonotone
      → (message : BotChatMessage) (s : Runtime) (p : Runtime × Result (Unit {0})) → IsSound s
      → Settles setup host message s p
      → IsSound p.0
  Settles-IsSound mono message s (t, thrown) v q = Quiet-IsSound mono s t q v
  Settles-IsSound mono message s (t, done u) v (r, q, saved, e) =
      rw e (mark-IsSound mono message r (Quiet-IsSound mono s r q v))

  Settles-is_processed :
      IsMonotone
      → (message : BotChatMessage) (s t : Runtime) (r : Result (Unit {0})) → IsSound s
      → Settles setup host message s (t, r)
      → r ≡ done tt
      → is_processed message.message_id t.processed ≡ true
  Settles-is_processed mono message s t thrown v q e = cc
  Settles-is_processed mono message s t (done u) v (r, q, saved, e) e' =
      rw e (mark-is_processed message r (Quiet-IsSound mono s r q v))

  -- What is checked of a message that gets a task.
  admit_for-cases :
      (id : Option Text) (message : BotChatMessage) (s : Runtime) {routed : IncomingMessageRoute}
      → admit_for setup host id message s ≡ some routed
      → (bot_id : Text) × (id ≡ some bot_id) × (is_processed message.message_id s.processed ≡ false)
  admit_for-cases none message s e = cc
  admit_for-cases (some bot_id) message s e = (bot_id, refl, ground arith)

  admit-cases :
      (message : BotChatMessage) (s : Runtime) {routed : IncomingMessageRoute}
      → admit setup host message s ≡ some routed
      → (bot_id : Text) × (truthy s.bot_id ≡ some bot_id)
        × (is_processed message.message_id s.processed ≡ false)
  unfolding admit
  admit-cases message s e = admit_for-cases (truthy s.bot_id) message s e

  run_if_admitted-IsSound :
      IsMonotone
      → (routed : Option IncomingMessageRoute) (message : BotChatMessage) (s : Runtime)
      → admit setup host message s ≡ routed
      → IsSound s
      → IsSound (run_if_admitted setup host routed message s).0
  run_if_admitted-IsSound mono none message s e v = v
  run_if_admitted-IsSound mono (some routed) message s e v =
      let (bot_id, known, new) = admit-cases message s e in
      Settles-IsSound mono message s (run_task setup host routed message s) v
        (run_task-Settles routed message s known new)

  -- Handling a message, whatever the host answers and wherever a call throws, keeps the cache of
  -- processed messages within its limit and without an entry in the future, if the host's clock
  -- does not go back.
  pub handle_incoming_message-IsSound :
      IsMonotone
      → (message : BotChatMessage) (s : Runtime) → IsSound s
      → IsSound (handle_incoming_message setup host message s).0
  unfolding handle_incoming_message
  handle_incoming_message-IsSound mono message s v =
      run_if_admitted-IsSound mono (admit setup host message s) message s refl v

  admit_for_processed :
      (id : Option Text) (message : BotChatMessage) (s : Runtime)
      → is_processed message.message_id s.processed ≡ true
      → admit_for setup host id message s ≡ none
  admit_for_processed none message s h = refl
  admit_for_processed (some bot_id) message s h = ground arith

  admit_processed :
      (message : BotChatMessage) (s : Runtime)
      → is_processed message.message_id s.processed ≡ true
      → admit setup host message s ≡ none
  unfolding admit
  admit_processed message s h = admit_for_processed (truthy s.bot_id) message s h

  handled_again :
      IsMonotone
      → (routed : Option IncomingMessageRoute) (message : BotChatMessage) (s : Runtime)
        {t : Runtime}
      → admit setup host message s ≡ routed
      → IsSound s
      → run_if_admitted setup host routed message s ≡ (t, done tt)
      → run_if_admitted setup host (admit setup host message t) message t ≡ (t, done tt)
  handled_again mono none message s {t} e v h =
      subst (λ u. run_if_admitted setup host (admit setup host message u) message u ≡ (u, done tt))
        (ap (λ p. p.0) h) (rw e refl)
  handled_again mono (some routed) message s {t} e v h =
      let (bot_id, known, new) = admit-cases message s e in
      rw
        (admit_processed message t (
          Settles-is_processed mono message s t (done tt) v
            (subst (Settles setup host message s) h (run_task-Settles routed message s known new))
            refl))
        refl

  -- A message whose handling has ended without a throw is not handled again: the same message,
  -- delivered once more, changes nothing, asks nobody and publishes nothing. The state before has
  -- the invariant of the cache, and the host's clock does not go back.
  pub handle_twice :
      IsMonotone
      → (message : BotChatMessage) (s : Runtime) {t : Runtime} → IsSound s
      → handle_incoming_message setup host message s ≡ (t, done tt)
      → handle_incoming_message setup host message t ≡ (t, done tt)
  unfolding handle_incoming_message
  handle_twice mono message s v h =
      handled_again mono (admit setup host message s) message s refl v h
