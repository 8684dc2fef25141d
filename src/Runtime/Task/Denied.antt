-- ===== src/Runtime/Task/Denied.antt =====
-- A message that the permissions deny never reaches the agent, unless an approver approves it.
use openclaw_bot_chat.Base.{
  ℕ, suc, ◌≡◌, refl, sym, subst, ◌∙◌, Bool, true, false, Option, none, some, arith, Text,
}
use mathlib.Core.Option.{some-injective}
use openclaw_bot_chat.Types.{BotChatMessage, Checkpoint, ChannelContext, BotChatOutgoingMessage}
use openclaw_bot_chat.Channels.{track_dialog, get_checkpoint, get_session, set_checkpoint}
use openclaw_bot_chat.Stores.{Result, done, thrown, update, flush, set_session_id}
use openclaw_bot_chat.Router.Context.{IncomingMessageRoute}
use openclaw_bot_chat.Runtime.State.{
  Host, Setup, Runtime, ApprovalRequest, ApprovalDecision, M, continue_with, on_checkpoints,
}
use openclaw_bot_chat.Runtime.Processed.{is_processed}
use openclaw_bot_chat.Runtime.Approval.{
  ApprovalResult, decide, ask_approver, resolve_permission_approval, truthy,
}
use openclaw_bot_chat.Runtime.Reply.{
  publish_connected, dispatch_reply, dispatch_if_any, reply, notify,
}
use openclaw_bot_chat.Runtime.Saving.{
  build_dialog_info, checkpoint_of, remember_session, save_checkpoint, mark, conclude,
  known_checkpoint,
}
use openclaw_bot_chat.Runtime.Task.{
  finish_denied, finish_approval, run_permitted, run_for, run_unless_processed, run_task, admit,
  run_if_admitted, handle_incoming_message,
}

-- The agent is asked nothing.
abbrev pub Unasked {ℓ} : {A : Type ℓ} → Runtime → Runtime × Result A → Type 0
Unasked s p = p.0.asked ≡ s.asked

module _ {A B : Type 0} where
  pub Unasked-continue :
      (s : Runtime) (p : Runtime × Result A) (f : A → M B)
      → Unasked s p
      → ((a : A) (t : Runtime) → t.asked ≡ s.asked → Unasked s (f a t))
      → Unasked s (continue_with p f)
  Unasked-continue s (t, done a) f h k = k a t h
  Unasked-continue s (t, thrown) f h k = h

-- An answer that does not approve: it refuses or throws.
abbrev Denies : Result ApprovalDecision → Type 0
Denies (done d) = d.approved ≡ false
Denies thrown = Unit

-- No approver, or one that approves nothing.
abbrev pub IsStrict : Option (ℕ → ApprovalRequest → Result ApprovalDecision) → Type 0
IsStrict none = Unit
IsStrict (some approve) = (tick : ℕ) (request : ApprovalRequest) → Denies (approve tick request)

module _ (setup : Setup) (host : Host) where
  publish_connected-Unasked :
      (connected fails : Bool) (outgoing : BotChatOutgoingMessage) (source : BotChatMessage)
      (s t : Runtime)
      → t.asked ≡ s.asked
      → Unasked s (publish_connected setup host connected fails outgoing source t)
  unfolding publish_connected
  publish_connected-Unasked false fails outgoing source s t h = h
  publish_connected-Unasked true true outgoing source s t h = h
  publish_connected-Unasked true false outgoing source s t h = h

  pub dispatch_if_any-Unasked :
      (outgoing : Option BotChatOutgoingMessage) (source : BotChatMessage) (s : Runtime)
      → Unasked s (dispatch_if_any setup host outgoing source s)
  unfolding dispatch_if_any dispatch_reply
  dispatch_if_any-Unasked none source s = refl
  dispatch_if_any-Unasked (some outgoing) source s =
      publish_connected-Unasked s.connected (host.publish_fails s.tick) outgoing source s
        (record s { tick = suc s.tick }) refl

  pub notify-Unasked :
      (content : Option Text) (source : BotChatMessage) (bot_id : Text) (s : Runtime)
      → Unasked s (notify setup host content source bot_id s)
  unfolding notify reply
  notify-Unasked none source bot_id s = refl
  notify-Unasked (some content) source bot_id s =
      dispatch_if_any-Unasked _ source (record s { tick = suc (suc s.tick) })

  remember_session-Unasked :
      (channel : ChannelContext) (dialog_id : Text) (session : Option Text) (s : Runtime)
      → Unasked s (remember_session setup host channel dialog_id session s)
  unfolding remember_session set_session_id flush
  remember_session-Unasked channel dialog_id none s = refl
  remember_session-Unasked channel dialog_id (some session_id) s = refl

  save_checkpoint-Unasked :
      (message : BotChatMessage) (session : Option Text) (channel : ChannelContext) (s : Runtime)
      → Unasked s (save_checkpoint setup host message session channel s)
  unfolding save_checkpoint
  save_checkpoint-Unasked message session channel s =
      let next = checkpoint_of message session (host.now s.tick) in
      Unasked-continue s
        (on_checkpoints (update (host.write_fails (suc s.tick)) next)
          (record s { channels = set_checkpoint channel next s.channels; tick = suc (suc s.tick) }))
        (λ _. remember_session setup host channel message.dialog_id (truthy session)) refl
        (λ _ t h. remember_session-Unasked channel message.dialog_id (truthy session) t ∙ h)

  pub conclude-Unasked :
      (message : BotChatMessage) (session : Option Text) (channel : ChannelContext) (s : Runtime)
      → Unasked s (conclude setup host message session channel s)
  unfolding conclude mark
  conclude-Unasked message session channel s =
      Unasked-continue s (save_checkpoint setup host message session channel s)
        (λ _. mark setup host message) (save_checkpoint-Unasked message session channel s)
        (λ _ t h. h)

  pub finish_denied-Unasked :
      (routed : IncomingMessageRoute) (message : BotChatMessage) (checkpoint : Option Checkpoint)
      (s : Runtime)
      → Unasked s (finish_denied setup host routed message checkpoint s)
  unfolding finish_denied
  finish_denied-Unasked routed message checkpoint s =
      conclude-Unasked message _ routed.channel
        (record s { channels = (get_session routed.channel message.dialog_id s.channels).1 })

  finish_approval-Unasked :
      (allowed : Bool) (approval : ApprovalResult) (routed : IncomingMessageRoute)
      (message : BotChatMessage) (bot_id : Text) (checkpoint : Option Checkpoint) (s : Runtime)
      → allowed ≡ false
      → Unasked s (finish_approval setup host allowed approval routed message bot_id checkpoint s)
  unfolding finish_approval
  finish_approval-Unasked true approval routed message bot_id checkpoint s e = cc
  finish_approval-Unasked false approval routed message bot_id checkpoint s e =
      Unasked-continue s (notify setup host approval.notify_message message bot_id s)
        (λ _. finish_denied setup host routed message checkpoint)
        (notify-Unasked approval.notify_message message bot_id s)
        (λ _ t h. finish_denied-Unasked routed message checkpoint t ∙ h)

  -- What an approver that approves nothing makes of a request.
  abbrev IsRefused : Runtime → Runtime × Result ApprovalResult → Type 0
  IsRefused s (t, done approval) = (approval.allowed ≡ false) × (t.asked ≡ s.asked)
  IsRefused s (t, thrown) = t.asked ≡ s.asked

  ask_approver-IsRefused :
      (approver : Option (ℕ → ApprovalRequest → Result ApprovalDecision))
      (request : ApprovalRequest) (s : Runtime)
      → IsStrict approver
      → IsRefused s (ask_approver setup host approver request s)
  unfolding ask_approver decide
  ask_approver-IsRefused none request s h = (refl, refl)
  ask_approver-IsRefused (some approve) request s h = ground (arith, h s.tick request)

  finish_refused :
      (p : Runtime × Result ApprovalResult) (routed : IncomingMessageRoute)
      (message : BotChatMessage) (bot_id : Text) (checkpoint : Option Checkpoint) (s : Runtime)
      → IsRefused s p
      → Unasked s (
          continue_with p (λ approval.
            finish_approval setup host approval.allowed approval routed message bot_id checkpoint))
  finish_refused (t, thrown) routed message bot_id checkpoint s h = h
  finish_refused (t, done approval) routed message bot_id checkpoint s (denied, h) =
      finish_approval-Unasked approval.allowed approval routed message bot_id checkpoint t denied
      ∙ h

  run_permitted-Unasked :
      (allowed : Bool) (routed : IncomingMessageRoute) (message : BotChatMessage) (bot_id : Text)
      (checkpoint : Option Checkpoint) (s : Runtime)
      → allowed ≡ false
      → IsStrict host.approver
      → Unasked s (run_permitted setup host allowed routed message bot_id checkpoint s)
  unfolding run_permitted resolve_permission_approval
  run_permitted-Unasked true routed message bot_id checkpoint s e strict = cc
  run_permitted-Unasked false routed message bot_id checkpoint s e strict =
      finish_refused (resolve_permission_approval setup host bot_id routed message s) routed message
        bot_id checkpoint s (ask_approver-IsRefused host.approver _ s strict)

  run_unless_processed-Unasked :
      (processed : Bool) (id : Option Text) (routed : IncomingMessageRoute)
      (message : BotChatMessage) (s : Runtime)
      → routed.permission.allowed ≡ false
      → IsStrict host.approver
      → Unasked s (run_unless_processed setup host processed id routed message s)
  unfolding run_for known_checkpoint
  run_unless_processed-Unasked true id routed message s e strict = refl
  run_unless_processed-Unasked false none routed message s e strict = refl
  run_unless_processed-Unasked false (some bot_id) routed message s e strict =
      run_permitted-Unasked routed.permission.allowed routed message bot_id _
        (record s {
          channels =
              (get_checkpoint routed.channel message.dialog_id
                (track_dialog routed.channel (build_dialog_info message) s.channels)).1;
        })
        e strict

  run_if_admitted-Unasked :
      (admitted : Option IncomingMessageRoute) (message : BotChatMessage) (s : Runtime)
      {routed : IncomingMessageRoute}
      → admitted ≡ some routed
      → routed.permission.allowed ≡ false
      → IsStrict host.approver
      → Unasked s (run_if_admitted setup host admitted message s)
  unfolding run_task
  run_if_admitted-Unasked none message s e denied strict = refl
  run_if_admitted-Unasked (some other) message s {routed} e denied strict =
      run_unless_processed-Unasked (is_processed message.message_id s.processed) (truthy s.bot_id)
        other message s
        (subst (λ r. r.permission.allowed ≡ false) (sym (some-injective _ _ e)) denied) strict

  -- A message that the permissions deny does not reach the agent, if there is no approver or it
  -- approves nothing: handling the message asks the agent nothing, whether it throws or not.
  pub denied_is_not_asked :
      (message : BotChatMessage) (s : Runtime) {routed : IncomingMessageRoute}
      → admit setup host message s ≡ some routed
      → routed.permission.allowed ≡ false
      → IsStrict host.approver
      → (handle_incoming_message setup host message s).0.asked ≡ s.asked
  unfolding handle_incoming_message
  denied_is_not_asked message s e denied strict =
      run_if_admitted-Unasked (admit setup host message s) message s e denied strict
