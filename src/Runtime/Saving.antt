-- ===== src/Runtime/Saving.antt =====
-- `saveCheckpoint` of runtime/bot.ts, what a task looks up of a dialog before it, and the mark after it.
use openclaw_bot_chat.Base.{ℤ, Option, none, some, Text, txt}
use openclaw_bot_chat.Values.{◌<|>◌}
use openclaw_bot_chat.Types.{BotChatMessage, Checkpoint, ChannelContext}
use openclaw_bot_chat.Channels.{DialogInfo, set_session, set_checkpoint, get_checkpoint}
use openclaw_bot_chat.Stores.{get_or_create, set_session_id, get_stored, update}
use openclaw_bot_chat.Router.Inbound.{text_of}
use openclaw_bot_chat.Runtime.State.{
  Host, Setup, M, ◌>>=◌, ◌>>◌, return, read, modify, ask_host, on_sessions, on_checkpoints,
  on_channels, change_channels,
}
use openclaw_bot_chat.Runtime.Approval.{truthy}
use openclaw_bot_chat.Runtime.Processed.{mark_processed}

unfoldable pub build_dialog_info : BotChatMessage → DialogInfo
build_dialog_info message = record {
  dialog_id = message.dialog_id;
  topic = text_of (txt "topic") message.meta;
  title = none;
  last_seq = message.seq;
  last_message_id = some message.message_id;
  updated_at = some message.timestamp;
}

abbrev pub session_or : Option Text → Option Checkpoint → Option Text
session_or session none = session
session_or session (some c) = session <|> c.session_id

unfoldable pub checkpoint_of : BotChatMessage → Option Text → ℤ → Checkpoint
checkpoint_of message session_id now = record {
  dialog_id = message.dialog_id;
  last_seq = message.seq;
  last_message_id = some message.message_id;
  session_id = truthy session_id;
  updated_at = some now;
}

module _ (setup : Setup) (host : Host) where
  unfoldable pub remember_session : ChannelContext → Text → Option Text → M (Unit {0})
  remember_session channel dialog_id none = return tt
  remember_session channel dialog_id (some session_id) = do
    change_channels (set_session channel dialog_id session_id)
    fails ← ask_host host.write_fails
    on_sessions (set_session_id fails dialog_id session_id)

  unfoldable pub save_checkpoint : BotChatMessage → Option Text → ChannelContext → M (Unit {0})
  unfolding remember_session
  save_checkpoint message session_id channel = do
    now ← ask_host host.now
    let next = checkpoint_of message session_id now
    change_channels (set_checkpoint channel next)
    fails ← ask_host host.write_fails
    on_checkpoints (update fails next)
    remember_session channel message.dialog_id (truthy session_id)

  unfoldable pub mark : BotChatMessage → M (Unit {0})
  mark message = do
    now ← ask_host host.now
    modify λ s. record s { processed = mark_processed message.message_id now s.processed }

  unfoldable pub known_checkpoint : ChannelContext → Text → M (Option Checkpoint)
  known_checkpoint channel dialog_id = do
    scoped ← on_channels (get_checkpoint channel dialog_id)
    stored ← read (λ s. get_stored dialog_id s.checkpoints)
    return (scoped <|> stored)

  unfoldable pub open_session : Option Text → Text → Option Checkpoint → M Text
  open_session (some session_id) dialog_id checkpoint = return session_id
  open_session none dialog_id checkpoint = do
    fresh ← ask_host host.uuid
    fails ← ask_host host.write_fails
    on_sessions (get_or_create fails fresh dialog_id (session_or none checkpoint))

  -- The end of every task that runs through.
  unfoldable pub conclude : BotChatMessage → Option Text → ChannelContext → M (Unit {0})
  unfolding save_checkpoint mark
  conclude message session_id channel = do save_checkpoint message session_id channel; mark message
