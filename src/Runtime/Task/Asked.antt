-- ===== src/Runtime/Task/Asked.antt =====
-- The agent is asked at most once for a message, and about that message.
use openclaw_bot_chat.Base.{
  ℕ, suc, ◌≡◌, refl, ap, ◌∙◌, ◌⊎◌, inl, inr, Bool, true, false, Option, none, some, ◌∷◌, arith,
  Text,
}
use openclaw_bot_chat.Types.{BotChatMessage, Checkpoint, ChannelContext, OpenClawResponse}
use openclaw_bot_chat.Channels.{track_dialog, get_checkpoint, get_session, set_session}
use openclaw_bot_chat.Stores.{Result, done, thrown}
use openclaw_bot_chat.Router.Attachments.{to_open_claw_request}
use openclaw_bot_chat.Router.Context.{IncomingMessageRoute}
use openclaw_bot_chat.Runtime.State.{
  Host, Setup, Runtime, ApprovalRequest, ApprovalDecision, M, continue_with, lift_result,
}
use openclaw_bot_chat.Runtime.Processed.{is_processed}
use openclaw_bot_chat.Runtime.Approval.{
  ApprovalResult, ask_approver, resolve_permission_approval, truthy,
}
use openclaw_bot_chat.Runtime.Reply.{reply, notify}
use openclaw_bot_chat.Runtime.Saving.{build_dialog_info, conclude, open_session, known_checkpoint}
use openclaw_bot_chat.Runtime.Task.{
  ask_agent, send_answer, answer_in, answer_message, finish_denied, finish_approval, run_permitted,
  run_for, run_unless_processed, run_task, admit, run_if_admitted, handle_incoming_message,
}
use openclaw_bot_chat.Runtime.Task.Denied.{
  Unasked, Unasked-continue, dispatch_if_any-Unasked, conclude-Unasked, finish_denied-Unasked,
  notify-Unasked,
}

-- Nothing was asked, or one request, that of the message in some session and context.
abbrev pub AsksOnce {ℓ} : {A : Type ℓ} → BotChatMessage → Runtime → Runtime × Result A → Type 0
AsksOnce message s p =
    (p.0.asked ≡ s.asked)
    ⊎ ((session_id : Text) × (channel : ChannelContext) × (p.0.asked
          ≡ to_open_claw_request message session_id (some channel) ∷ s.asked))

module _ {A B : Type 0} where
  -- A call that asks nothing, and one that asks at most once after it.
  AsksOnce-continue :
      (message : BotChatMessage) (s : Runtime) (p : Runtime × Result A) (f : A → M B)
      → Unasked s p
      → ((a : A) (t : Runtime) → t.asked ≡ s.asked → AsksOnce message s (f a t))
      → AsksOnce message s (continue_with p f)
  AsksOnce-continue message s (t, done a) f h k = k a t h
  AsksOnce-continue message s (t, thrown) f h k = inl h

AsksOnce-from :
    (message : BotChatMessage) (s t : Runtime) (p : Runtime × Result (Unit {0}))
    → t.asked ≡ s.asked
    → AsksOnce message t p
    → AsksOnce message s p
AsksOnce-from message s t p e (inl h) = inl (h ∙ e)
AsksOnce-from message s t p e (inr (session_id, channel, h)) = inr (
  session_id,
  channel,
  h ∙ ap (λ rs. to_open_claw_request message session_id (some channel) ∷ rs) e,
)

module _ (setup : Setup) (host : Host) where
  send_answer-Unasked :
      (routed : IncomingMessageRoute) (message : BotChatMessage) (bot_id session_id : Text)
      (response : OpenClawResponse) (s : Runtime)
      → Unasked s (send_answer setup host routed message bot_id session_id response s)
  unfolding send_answer reply
  send_answer-Unasked routed message bot_id session_id response s =
      Unasked-continue s (reply setup host response message bot_id s)
        (λ _. conclude setup host message (some session_id) routed.channel)
        (dispatch_if_any-Unasked setup host _ message (record s { tick = suc (suc s.tick) }))
        (λ _ t h. conclude-Unasked setup host message (some session_id) routed.channel t ∙ h)

  -- What follows the question asks nothing more.
  answered-AsksOnce :
      (answer : Result OpenClawResponse) (routed : IncomingMessageRoute) (message : BotChatMessage)
      (bot_id session_id : Text) (s t : Runtime)
      → t.asked ≡ to_open_claw_request message session_id (some routed.channel) ∷ s.asked
      → AsksOnce message s (
          continue_with
            (lift_result answer t)
            (send_answer setup host routed message bot_id session_id))
  answered-AsksOnce (done response) routed message bot_id session_id s t h = inr (
    session_id,
    routed.channel,
    send_answer-Unasked routed message bot_id session_id response t ∙ h,
  )
  answered-AsksOnce thrown routed message bot_id session_id s t h =
      inr (session_id, routed.channel, h)

  answer_in-AsksOnce :
      (routed : IncomingMessageRoute) (message : BotChatMessage) (bot_id session_id : Text)
      (s : Runtime)
      → AsksOnce message s (answer_in setup host routed message bot_id session_id s)
  unfolding answer_in ask_agent
  answer_in-AsksOnce routed message bot_id session_id s =
      let request = to_open_claw_request message session_id (some routed.channel) in
      answered-AsksOnce (host.respond s.tick request) routed message bot_id session_id s
        (record s {
          channels = set_session routed.channel message.dialog_id session_id s.channels;
          asked = request ∷ s.asked;
          tick = suc s.tick;
        })
        refl

  open_session-Unasked :
      (scoped : Option Text) (dialog_id : Text) (checkpoint : Option Checkpoint) (s : Runtime)
      → Unasked s (open_session setup host scoped dialog_id checkpoint s)
  unfolding open_session
  open_session-Unasked none dialog_id checkpoint s = ground arith
  open_session-Unasked (some session_id) dialog_id checkpoint s = refl

  answer_message-AsksOnce :
      (routed : IncomingMessageRoute) (message : BotChatMessage) (bot_id : Text)
      (checkpoint : Option Checkpoint) (s : Runtime)
      → AsksOnce message s (answer_message setup host routed message bot_id checkpoint s)
  unfolding answer_message
  answer_message-AsksOnce routed message bot_id checkpoint s =
      let scoped = get_session routed.channel message.dialog_id s.channels in
      AsksOnce-continue message s
        (open_session setup host scoped.0 message.dialog_id checkpoint
          (record s { channels = scoped.1 }))
        (answer_in setup host routed message bot_id)
        (open_session-Unasked scoped.0 message.dialog_id checkpoint
          (record s { channels = scoped.1 }))
        (λ session_id t h.
          AsksOnce-from message s t (answer_in setup host routed message bot_id session_id t) h
            (answer_in-AsksOnce routed message bot_id session_id t))

  finish_approval-AsksOnce :
      (allowed : Bool) (approval : ApprovalResult) (routed : IncomingMessageRoute)
      (message : BotChatMessage) (bot_id : Text) (checkpoint : Option Checkpoint) (s : Runtime)
      → AsksOnce message s
          (finish_approval setup host allowed approval routed message bot_id checkpoint s)
  unfolding finish_approval
  finish_approval-AsksOnce true approval routed message bot_id checkpoint s =
      answer_message-AsksOnce routed message bot_id checkpoint s
  finish_approval-AsksOnce false approval routed message bot_id checkpoint s = inl (
      Unasked-continue s (notify setup host approval.notify_message message bot_id s)
        (λ _. finish_denied setup host routed message checkpoint)
        (notify-Unasked setup host approval.notify_message message bot_id s)
        (λ _ t h. finish_denied-Unasked setup host routed message checkpoint t ∙ h))

  ask_approver-Unasked :
      (approver : Option (ℕ → ApprovalRequest → Result ApprovalDecision))
      (request : ApprovalRequest) (s : Runtime)
      → Unasked s (ask_approver setup host approver request s)
  unfolding ask_approver
  ask_approver-Unasked none request s = refl
  ask_approver-Unasked (some approve) request s = refl

  run_permitted-AsksOnce :
      (allowed : Bool) (routed : IncomingMessageRoute) (message : BotChatMessage) (bot_id : Text)
      (checkpoint : Option Checkpoint) (s : Runtime)
      → AsksOnce message s (run_permitted setup host allowed routed message bot_id checkpoint s)
  unfolding run_permitted resolve_permission_approval
  run_permitted-AsksOnce true routed message bot_id checkpoint s =
      answer_message-AsksOnce routed message bot_id checkpoint s
  run_permitted-AsksOnce false routed message bot_id checkpoint s =
      AsksOnce-continue message s (resolve_permission_approval setup host bot_id routed message s)
        (λ approval.
          finish_approval setup host approval.allowed approval routed message bot_id checkpoint)
        (ask_approver-Unasked host.approver _ s)
        (λ approval t h.
          AsksOnce-from message s t
            (finish_approval setup host approval.allowed approval routed message bot_id checkpoint
              t)
            h
            (finish_approval-AsksOnce approval.allowed approval routed message bot_id checkpoint t))

  run_unless_processed-AsksOnce :
      (processed : Bool) (id : Option Text) (routed : IncomingMessageRoute)
      (message : BotChatMessage) (s : Runtime)
      → AsksOnce message s (run_unless_processed setup host processed id routed message s)
  unfolding run_for known_checkpoint
  run_unless_processed-AsksOnce true id routed message s = inl refl
  run_unless_processed-AsksOnce false none routed message s = inl refl
  run_unless_processed-AsksOnce false (some bot_id) routed message s =
      run_permitted-AsksOnce routed.permission.allowed routed message bot_id _ (record s {
        channels =
            (get_checkpoint routed.channel message.dialog_id
              (track_dialog routed.channel (build_dialog_info message) s.channels)).1;
      })

  run_if_admitted-AsksOnce :
      (admitted : Option IncomingMessageRoute) (message : BotChatMessage) (s : Runtime)
      → AsksOnce message s (run_if_admitted setup host admitted message s)
  unfolding run_task
  run_if_admitted-AsksOnce none message s = inl refl
  run_if_admitted-AsksOnce (some routed) message s =
      run_unless_processed-AsksOnce (is_processed message.message_id s.processed) (truthy s.bot_id)
        routed message s

  -- Handling a message asks the agent at most once, and then for that message: no failure of the
  -- approver, the agent, the broker or a file makes it ask again.
  pub handle-AsksOnce :
      (message : BotChatMessage) (s : Runtime)
      → AsksOnce message s (handle_incoming_message setup host message s)
  unfolding handle_incoming_message
  handle-AsksOnce message s = run_if_admitted-AsksOnce (admit setup host message s) message s
