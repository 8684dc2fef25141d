-- ===== src/Runtime/Task.antt =====
-- `handleIncomingMessage` of runtime/bot.ts: which messages are let into the queue, and the task
-- that is queued for one. Tasks of one queue run one after another; a task runs here as a whole.
-- Logging is left out.
pub mod Steps
pub mod Settling
pub mod Outcome
pub mod Denied
pub mod Asked
use openclaw_bot_chat.Base.{
  ℕ, suc, ℤ, Bool, true, false, not, ◌&&◌, ◌||◌, Option, none, some, get_or, List, [], ◌∷◌, ◌++◌,
  Text, txt, is_truthy, trunc_div, if◌then◌else◌,
}
use openclaw_bot_chat.Values.{Fields, ◌<|>◌}
use openclaw_bot_chat.Permissions.{PermissionCheck}
use openclaw_bot_chat.Types.{
  BotChatMessage, Checkpoint, ChannelContext, OpenClawRequest, OpenClawResponse,
  BotChatOutgoingMessage,
}
use openclaw_bot_chat.Channels.{
  DialogInfo, channel_scope_key, track_dialog, set_session, get_session, set_checkpoint,
  get_checkpoint,
}
use openclaw_bot_chat.Stores.{
  Result, done, thrown, get_session_id, get_or_create, set_session_id, get_stored, update,
}
use openclaw_bot_chat.Router.Inbound.{text_of}
use openclaw_bot_chat.Router.Mentions.{should_process_message}
use openclaw_bot_chat.Router.Context.{IncomingMessageRoute, route_incoming_message}
use openclaw_bot_chat.Router.Attachments.{to_open_claw_request}
use openclaw_bot_chat.Router.Outbound.{to_outgoing_message, to_publish_payload}
use openclaw_bot_chat.Runtime.State.{
  ApprovalRequest, ApprovalDecision, Host, Setup, Runtime, M, ◌>>=◌, ◌>>◌, return, throw, read,
  modify, ask_host, lift_result, on_sessions, on_checkpoints, on_channels, change_channels,
}
use openclaw_bot_chat.Runtime.Approval.{
  truthy, refusal, decide, ask_approver, resolve_permission_approval, ApprovalResult,
}
use openclaw_bot_chat.Runtime.Reply.{
  publish_connected, dispatch_reply, dispatch_if_any, reply, notify,
}
use openclaw_bot_chat.Runtime.Saving.{
  build_dialog_info, session_or, checkpoint_of, remember_session, save_checkpoint, mark,
  known_checkpoint, open_session, conclude,
}
use openclaw_bot_chat.Runtime.Processed.{mark_processed, is_processed}

module _ (setup : Setup) (host : Host) where
  unfoldable pub ask_agent : OpenClawRequest → M OpenClawResponse
  ask_agent request = do
    modify (λ s. record s { asked = request ∷ s.asked })
    answer ← ask_host (λ tick. host.respond tick request)
    lift_result answer

  unfoldable pub send_answer :
      IncomingMessageRoute → BotChatMessage → Text → Text → OpenClawResponse → M (Unit {0})
  unfolding reply conclude
  send_answer routed message bot_id session_id response = do
    reply setup host response message bot_id
    conclude setup host message (some session_id) routed.channel

  unfoldable pub answer_in : IncomingMessageRoute → BotChatMessage → Text → Text → M (Unit {0})
  unfolding ask_agent send_answer
  answer_in routed message bot_id session_id = do
    change_channels (set_session routed.channel message.dialog_id session_id)
    response ← ask_agent (to_open_claw_request message session_id (some routed.channel))
    send_answer routed message bot_id session_id response

  unfoldable pub answer_message :
      IncomingMessageRoute → BotChatMessage → Text → Option Checkpoint → M (Unit {0})
  unfolding open_session answer_in
  answer_message routed message bot_id checkpoint = do
    scoped ← on_channels (get_session routed.channel message.dialog_id)
    session_id ← open_session setup host scoped message.dialog_id checkpoint
    answer_in routed message bot_id session_id

  unfoldable pub finish_denied :
      IncomingMessageRoute → BotChatMessage → Option Checkpoint → M (Unit {0})
  unfolding conclude
  finish_denied routed message checkpoint = do
    scoped ← on_channels (get_session routed.channel message.dialog_id)
    stored ← read (λ s. get_session_id message.dialog_id s.sessions)
    conclude setup host message (session_or (scoped <|> stored) checkpoint) routed.channel

  unfoldable pub finish_approval :
      Bool
      → ApprovalResult
      → IncomingMessageRoute
      → BotChatMessage
      → Text
      → Option Checkpoint
      → M (Unit {0})
  unfolding answer_message notify finish_denied
  finish_approval true approval routed message bot_id checkpoint =
      answer_message routed message bot_id checkpoint
  finish_approval false approval routed message bot_id checkpoint = do
    notify setup host approval.notify_message message bot_id
    finish_denied routed message checkpoint

  unfoldable pub run_permitted :
      Bool → IncomingMessageRoute → BotChatMessage → Text → Option Checkpoint → M (Unit {0})
  unfolding finish_approval resolve_permission_approval ask_approver
  run_permitted true routed message bot_id checkpoint =
      answer_message routed message bot_id checkpoint
  run_permitted false routed message bot_id checkpoint = do
    approval ← resolve_permission_approval setup host bot_id routed message
    finish_approval approval.allowed approval routed message bot_id checkpoint

  unfoldable pub run_for : Text → IncomingMessageRoute → BotChatMessage → M (Unit {0})
  unfolding run_permitted known_checkpoint
  run_for bot_id routed message = do
    change_channels (track_dialog routed.channel (build_dialog_info message))
    checkpoint ← known_checkpoint setup host routed.channel message.dialog_id
    run_permitted routed.permission.allowed routed message bot_id checkpoint

  abbrev pub run_unless_processed :
      Bool → Option Text → IncomingMessageRoute → BotChatMessage → M (Unit {0})
  run_unless_processed true bot_id routed message = return tt
  run_unless_processed false none routed message = return tt
  run_unless_processed false (some bot_id) routed message = run_for bot_id routed message

  -- The task of a message: it does nothing if the message was processed while it waited.
  unfoldable pub run_task : IncomingMessageRoute → BotChatMessage → M (Unit {0})
  unfolding run_for
  run_task routed message s =
      run_unless_processed (is_processed message.message_id s.processed) (truthy s.bot_id) routed
        message s

  abbrev pub admit_for : Option Text → BotChatMessage → Runtime → Option IncomingMessageRoute
  admit_for none message s = none
  admit_for (some bot_id) message s =
      if not (should_process_message message bot_id) || is_processed message.message_id s.processed
      then none
      else some (route_incoming_message host.lower message bot_id setup.bot_config)

  -- The part before the queue, for a bot identifier that is not empty: the route of a message that gets a task.
  unfoldable pub admit : BotChatMessage → Runtime → Option IncomingMessageRoute
  admit message s = admit_for (truthy s.bot_id) message s

  abbrev pub queue_key : IncomingMessageRoute → BotChatMessage → Text
  queue_key routed message = channel_scope_key routed.channel ++ (txt "::" ++ message.dialog_id)

  abbrev pub run_if_admitted : Option IncomingMessageRoute → BotChatMessage → M (Unit {0})
  run_if_admitted none message = return tt
  run_if_admitted (some routed) message = run_task routed message

  -- A message that arrives while its queue is empty.
  unfoldable pub handle_incoming_message : BotChatMessage → M (Unit {0})
  unfolding run_task admit
  handle_incoming_message message s = run_if_admitted (admit message s) message s
