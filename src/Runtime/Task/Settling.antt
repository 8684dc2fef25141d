-- ===== src/Runtime/Task/Settling.antt =====
-- How a task ends: by saving the checkpoint of its message and marking it, or by a throw.
use openclaw_bot_chat.Base.{suc, ℤ, ◌≡◌, refl, Bool, true, false, Option, none, some, Text}
use openclaw_bot_chat.Base.Dict.{get, get-set_self}
use openclaw_bot_chat.Types.{BotChatMessage, Checkpoint, ChannelContext, OpenClawResponse}
use openclaw_bot_chat.Channels.{set_session, get_session}
use openclaw_bot_chat.Stores.{Result, done, thrown, flush, set_session_id, update}
use openclaw_bot_chat.Router.Context.{IncomingMessageRoute}
use openclaw_bot_chat.Router.Attachments.{to_open_claw_request}
use openclaw_bot_chat.Runtime.State.{Host, Setup, Runtime, M, ◌>>◌, continue_with, on_checkpoints}
use openclaw_bot_chat.Runtime.Approval.{ApprovalResult, truthy}
use openclaw_bot_chat.Runtime.Reply.{reply, notify}
use openclaw_bot_chat.Runtime.Saving.{
  checkpoint_of, remember_session, save_checkpoint, mark, open_session, conclude,
}
use openclaw_bot_chat.Runtime.Task.{
  finish_denied, ask_agent, send_answer, answer_in, answer_message, finish_approval,
}
use openclaw_bot_chat.Runtime.Task.Steps.{
  Quiet, Quiet-trans, saving, reply-Quiet, save_checkpoint-Quiet, open_session-Quiet,
  ask_agent-Quiet, notify-Quiet,
}

-- The stored checkpoint of a dialog is one of the message, and is in the file.
pub record IsSaved (message : BotChatMessage) (s : Runtime) : Type 0 where
  pub checkpoint : Checkpoint
  pub stored : get message.dialog_id s.checkpoints.entries ≡ some checkpoint
  pub persisted : s.checkpoints.file ≡ some s.checkpoints.entries
  pub last_message : checkpoint.last_message_id ≡ some message.message_id
  pub last_seq : checkpoint.last_seq ≡ message.seq

module _ (setup : Setup) (host : Host) where
  remember_session-checkpoints :
      (channel : ChannelContext) (dialog_id : Text) (session : Option Text) (s : Runtime)
      → (remember_session setup host channel dialog_id session s).0.checkpoints ≡ s.checkpoints
  unfolding remember_session set_session_id flush
  remember_session-checkpoints channel dialog_id none s = refl
  remember_session-checkpoints channel dialog_id (some session_id) s = refl

  -- A call that saves the checkpoint of a message, unless it throws.
  abbrev Saves : BotChatMessage → Runtime × Result (Unit {0}) → Type 0
  Saves message (s, done u) = IsSaved message s
  Saves message (s, thrown) = Unit

  Saves-of_IsSaved :
      (message : BotChatMessage) (p : Runtime × Result (Unit {0}))
      → IsSaved message p.0
      → Saves message p
  Saves-of_IsSaved message (s, done u) h = h
  Saves-of_IsSaved message (s, thrown) h = tt

  IsSaved-of_checkpoints :
      (message : BotChatMessage) (s t : Runtime)
      → t.checkpoints ≡ s.checkpoints
      → IsSaved message s
      → IsSaved message t
  IsSaved-of_checkpoints message s t e h = record {
    checkpoint = h.checkpoint;
    stored = rw e h.stored;
    persisted = rw e h.persisted;
    last_message = h.last_message;
    last_seq = h.last_seq;
  }

  update-Saves :
      (fails : Bool) (message : BotChatMessage) (session : Option Text) (channel : ChannelContext)
      (now : ℤ) (s : Runtime)
      → Saves message (
          (on_checkpoints (update fails (checkpoint_of message session now))
              >> remember_session setup host channel message.dialog_id (truthy session))
            s)
  unfolding update flush checkpoint_of
  update-Saves true message session channel now s = tt
  update-Saves false message session channel now s = Saves-of_IsSaved message _ (
      IsSaved-of_checkpoints message
        (record s {
          checkpoints = (update false (checkpoint_of message session now) s.checkpoints).0;
        })
        _ (remember_session-checkpoints channel message.dialog_id (truthy session) _)
        (record {
          checkpoint = checkpoint_of message session now;
          stored = get-set_self message.dialog_id _ s.checkpoints.entries;
          persisted = refl;
          last_message = refl;
          last_seq = refl;
        }))

  save_checkpoint-Saves :
      (message : BotChatMessage) (session : Option Text) (channel : ChannelContext) (s : Runtime)
      → Saves message (save_checkpoint setup host message session channel s)
  unfolding save_checkpoint
  save_checkpoint-Saves message session channel s =
      update-Saves (host.write_fails (suc s.tick)) message session channel (host.now s.tick)
        (saving setup host message session channel s)

  -- How a task may end: by a throw that leaves the processed messages, or by marking its message
  -- after its checkpoint was saved.
  abbrev pub Settles : BotChatMessage → Runtime → Runtime × Result (Unit {0}) → Type 0
  Settles message s (t, thrown) = Quiet s t
  Settles message s (t, done u) =
      (r : Runtime) × Quiet s r × IsSaved message r × (t ≡ (mark setup host message r).0)

  pub Settles-continue :
      {A : Type 0} (message : BotChatMessage) (s : Runtime) (p : Runtime × Result A)
      (f : A → M (Unit {0}))
      → Quiet s p.0
      → ((a : A) (t : Runtime) → Quiet s t → Settles message s (f a t))
      → Settles message s (continue_with p f)
  Settles-continue message s (t, done a) f h k = k a t h
  Settles-continue message s (t, thrown) f h k = h

  Settles-of_saved :
      (message : BotChatMessage) (s : Runtime) (p : Runtime × Result (Unit {0}))
      → Quiet s p.0
      → Saves message p
      → Settles message s (continue_with p (λ _. mark setup host message))
  unfolding mark
  Settles-of_saved message s (t, done u) q h = (t, q, h, refl)
  Settles-of_saved message s (t, thrown) q h = q

  conclude-Settles :
      (message : BotChatMessage) (session : Option Text) (channel : ChannelContext) (s t : Runtime)
      → Quiet s t
      → Settles message s (conclude setup host message session channel t)
  unfolding conclude
  conclude-Settles message session channel s t q =
      Settles-of_saved message s (save_checkpoint setup host message session channel t)
        (Quiet-trans q (save_checkpoint-Quiet setup host message session channel t))
        (save_checkpoint-Saves message session channel t)

  -- The state after a session was looked up in a scope.
  abbrev looked_up : ChannelContext → Text → Runtime → Runtime
  looked_up channel dialog_id s = record s {
    channels = (get_session channel dialog_id s.channels).1;
  }

  looked_up-Quiet :
      (channel : ChannelContext) (dialog_id : Text) (s t : Runtime)
      → Quiet s t
      → Quiet s (looked_up channel dialog_id t)
  looked_up-Quiet channel dialog_id s t q = record { processed = q.processed; later = q.later }

  finish_denied-Settles :
      (routed : IncomingMessageRoute) (message : BotChatMessage) (checkpoint : Option Checkpoint)
      (s t : Runtime)
      → Quiet s t
      → Settles message s (finish_denied setup host routed message checkpoint t)
  unfolding finish_denied
  finish_denied-Settles routed message checkpoint s t q =
      conclude-Settles message _ routed.channel s (looked_up routed.channel message.dialog_id t)
        (looked_up-Quiet routed.channel message.dialog_id s t q)

  send_answer-Settles :
      (routed : IncomingMessageRoute) (message : BotChatMessage) (bot_id session_id : Text)
      (response : OpenClawResponse) (s t : Runtime)
      → Quiet s t
      → Settles message s (send_answer setup host routed message bot_id session_id response t)
  unfolding send_answer
  send_answer-Settles routed message bot_id session_id response s t q =
      Settles-continue message s (reply setup host response message bot_id t)
        (λ _. conclude setup host message (some session_id) routed.channel)
        (Quiet-trans q (reply-Quiet setup host response message bot_id t))
        (λ _ u qu. conclude-Settles message (some session_id) routed.channel s u qu)

  -- The state in which the agent is asked.
  abbrev asking : ChannelContext → Text → Text → Runtime → Runtime
  asking channel dialog_id session_id s = record s {
    channels = set_session channel dialog_id session_id s.channels;
  }

  answer_in-Settles :
      (routed : IncomingMessageRoute) (message : BotChatMessage) (bot_id session_id : Text)
      (s t : Runtime)
      → Quiet s t
      → Settles message s (answer_in setup host routed message bot_id session_id t)
  unfolding answer_in
  answer_in-Settles routed message bot_id session_id s t q =
      let request = to_open_claw_request message session_id (some routed.channel) in
      let u = asking routed.channel message.dialog_id session_id t in
      Settles-continue message s (ask_agent setup host request u)
        (send_answer setup host routed message bot_id session_id)
        (Quiet-trans {t = u} (record { processed = q.processed; later = q.later })
          (ask_agent-Quiet setup host request u))
        (λ response v qv. send_answer-Settles routed message bot_id session_id response s v qv)

  pub answer_message-Settles :
      (routed : IncomingMessageRoute) (message : BotChatMessage) (bot_id : Text)
      (checkpoint : Option Checkpoint) (s t : Runtime)
      → Quiet s t
      → Settles message s (answer_message setup host routed message bot_id checkpoint t)
  unfolding answer_message
  answer_message-Settles routed message bot_id checkpoint s t q =
      let u = looked_up routed.channel message.dialog_id t in
      let scoped = (get_session routed.channel message.dialog_id t.channels).0 in
      Settles-continue message s (open_session setup host scoped message.dialog_id checkpoint u)
        (answer_in setup host routed message bot_id)
        (Quiet-trans {t = u} (looked_up-Quiet routed.channel message.dialog_id s t q)
          (open_session-Quiet setup host scoped message.dialog_id checkpoint u))
        (λ session_id v qv. answer_in-Settles routed message bot_id session_id s v qv)

  pub finish_approval-Settles :
      (allowed : Bool) (approval : ApprovalResult) (routed : IncomingMessageRoute)
      (message : BotChatMessage) (bot_id : Text) (checkpoint : Option Checkpoint) (s t : Runtime)
      → Quiet s t
      → Settles message s
          (finish_approval setup host allowed approval routed message bot_id checkpoint t)
  unfolding finish_approval
  finish_approval-Settles true approval routed message bot_id checkpoint s t q =
      answer_message-Settles routed message bot_id checkpoint s t q
  finish_approval-Settles false approval routed message bot_id checkpoint s t q =
      Settles-continue message s (notify setup host approval.notify_message message bot_id t)
        (λ _. finish_denied setup host routed message checkpoint)
        (Quiet-trans q (notify-Quiet setup host approval.notify_message message bot_id t))
        (λ _ u qu. finish_denied-Settles routed message checkpoint s u qu)
