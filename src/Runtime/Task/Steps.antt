-- ===== src/Runtime/Task/Steps.antt =====
-- What the steps of a task change before its end: they leave the processed messages and let the
-- clock run on.
use openclaw_bot_chat.Base.{
  suc, ◌≤◌, ◌≡◌, refl, ◌∙◌, Bool, true, false, Option, none, some, ◌∷◌, arith, Text,
}
use openclaw_bot_chat.Types.{
  BotChatMessage, Checkpoint, ChannelContext, OpenClawRequest, OpenClawResponse,
  BotChatOutgoingMessage,
}
use openclaw_bot_chat.Channels.{set_checkpoint}
use openclaw_bot_chat.Stores.{Result, done, thrown, flush, set_session_id, update}
use openclaw_bot_chat.Runtime.State.{
  Host, Setup, Runtime, M, continue_with, on_checkpoints, lift_result,
}
use openclaw_bot_chat.Runtime.Approval.{truthy}
use openclaw_bot_chat.Runtime.Reply.{
  publish_connected, dispatch_reply, dispatch_if_any, reply, notify,
}
use openclaw_bot_chat.Runtime.Saving.{
  checkpoint_of, remember_session, save_checkpoint, open_session,
}
use openclaw_bot_chat.Runtime.Task.{ask_agent}

-- The processed messages stay, and the clock does not go back.
pub record Quiet (s t : Runtime) : Type 0 where
  pub processed : t.processed ≡ s.processed
  pub later : s.tick ≤ t.tick

pub Quiet-refl : (s : Runtime) → Quiet s s
Quiet-refl s = record { processed = refl; later = omega arith }

pub Quiet-trans : {s t u : Runtime} → Quiet s t → Quiet t u → Quiet s u
Quiet-trans p q = record { processed = q.processed ∙ p.processed; later = omega arith }

module _ {A B : Type 0} where
  Quiet-continue :
      (s : Runtime) (p : Runtime × Result A) (f : A → M B)
      → Quiet s p.0
      → ((a : A) (t : Runtime) → Quiet s t → Quiet s (f a t).0)
      → Quiet s (continue_with p f).0
  Quiet-continue s (t, done a) f h k = k a t h
  Quiet-continue s (t, thrown) f h k = h

module _ (setup : Setup) (host : Host) where
  pub publish_connected-Quiet :
      (connected fails : Bool) (outgoing : BotChatOutgoingMessage) (source : BotChatMessage)
      (s : Runtime)
      → Quiet s
          (publish_connected setup host connected fails outgoing source
            (record s { tick = suc s.tick })).0
  unfolding publish_connected
  publish_connected-Quiet false fails outgoing source s = ground arith
  publish_connected-Quiet true true outgoing source s = ground arith
  publish_connected-Quiet true false outgoing source s = ground arith

  pub dispatch_reply-Quiet :
      (outgoing : BotChatOutgoingMessage) (source : BotChatMessage) (s : Runtime)
      → Quiet s (dispatch_reply setup host outgoing source s).0
  unfolding dispatch_reply publish_connected
  dispatch_reply-Quiet outgoing source s =
      publish_connected-Quiet s.connected (host.publish_fails s.tick) outgoing source s

  dispatch_if_any-Quiet :
      (outgoing : Option BotChatOutgoingMessage) (source : BotChatMessage) (s : Runtime)
      → Quiet s (dispatch_if_any setup host outgoing source s).0
  unfolding dispatch_if_any
  dispatch_if_any-Quiet none source s = Quiet-refl s
  dispatch_if_any-Quiet (some outgoing) source s = dispatch_reply-Quiet outgoing source s

  pub reply-Quiet :
      (response : OpenClawResponse) (source : BotChatMessage) (bot_id : Text) (s : Runtime)
      → Quiet s (reply setup host response source bot_id s).0
  unfolding reply
  reply-Quiet response source bot_id s =
      Quiet-trans {t = record s { tick = suc (suc s.tick) }} (ground arith)
        (dispatch_if_any-Quiet _ source (record s { tick = suc (suc s.tick) }))

  pub remember_session-Quiet :
      (channel : ChannelContext) (dialog_id : Text) (session : Option Text) (s : Runtime)
      → Quiet s (remember_session setup host channel dialog_id session s).0
  unfolding remember_session set_session_id flush
  remember_session-Quiet channel dialog_id none s = Quiet-refl s
  remember_session-Quiet channel dialog_id (some session_id) s = ground arith

  -- The state in which the checkpoint is written.
  abbrev pub saving : BotChatMessage → Option Text → ChannelContext → Runtime → Runtime
  saving message session channel s = record s {
    channels = set_checkpoint channel (checkpoint_of message session (host.now s.tick)) s.channels;
    tick = suc (suc s.tick);
  }

  pub save_checkpoint-Quiet :
      (message : BotChatMessage) (session : Option Text) (channel : ChannelContext) (s : Runtime)
      → Quiet s (save_checkpoint setup host message session channel s).0
  unfolding save_checkpoint update flush
  save_checkpoint-Quiet message session channel s =
      Quiet-continue s
        (on_checkpoints
          (update (host.write_fails (suc s.tick)) (checkpoint_of message session (host.now s.tick)))
          (saving message session channel s))
        _ (ground arith)
        (λ a t q.
          Quiet-trans q (remember_session-Quiet channel message.dialog_id (truthy session) t))

  pub open_session-Quiet :
      (scoped : Option Text) (dialog_id : Text) (checkpoint : Option Checkpoint) (s : Runtime)
      → Quiet s (open_session setup host scoped dialog_id checkpoint s).0
  unfolding open_session
  open_session-Quiet none dialog_id checkpoint s = ground arith
  open_session-Quiet (some session_id) dialog_id checkpoint s = Quiet-refl s

  lift_result-Quiet :
      {A : Type 0} (r : Result A) (s t : Runtime) → Quiet s t → Quiet s (lift_result r t).0
  lift_result-Quiet (done a) s t q = q
  lift_result-Quiet thrown s t q = q

  pub ask_agent-Quiet :
      (request : OpenClawRequest) (s : Runtime) → Quiet s (ask_agent setup host request s).0
  unfolding ask_agent
  ask_agent-Quiet request s =
      lift_result-Quiet (host.respond s.tick request) s
        (record s { asked = request ∷ s.asked; tick = suc s.tick }) (ground arith)

  pub notify-Quiet :
      (content : Option Text) (source : BotChatMessage) (bot_id : Text) (s : Runtime)
      → Quiet s (notify setup host content source bot_id s).0
  unfolding notify
  notify-Quiet none source bot_id s = Quiet-refl s
  notify-Quiet (some content) source bot_id s = reply-Quiet _ source bot_id s
