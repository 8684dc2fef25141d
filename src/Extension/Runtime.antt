-- ===== src/Extension/Runtime.antt =====
-- `DefaultBotChatRuntime` of extensions/openclaw-bot-chat/src/runtime.ts: its state, and what it does
-- with a message that comes in or goes out.
pub mod Admitted
pub mod Denied
pub mod Recovered
use openclaw_bot_chat.Base.{
  ℕ, ℤ, pos, ltb_ℤ, eqb_ℤ, Bool, true, false, not, ◌&&◌, ◌||◌, Option, none, some, get_or, List, [],
  ◌∷◌, ◌++◌, Text, txt, text_eq, is_truthy, contains, if◌then◌else◌,
}
use openclaw_bot_chat.Base.Dict.{set}
use openclaw_bot_chat.Values.{
  Value, undefined, str, obj, Fields, end, field, item, item_of, set_item, single, read_string,
  ◌<|>◌,
}
use openclaw_bot_chat.Extension.Settings.{
  Language, ChannelMessage, Access, granted, sender_denied, blocked, read_number,
  evaluate_bot_chat_access,
}
use openclaw_bot_chat.Extension.Messages.{
  or_empty, text_at, to_inbound_message, build_bot_chat_outbound_payload,
}
use openclaw_bot_chat.Extension.Effects.{
  Checkpoint, Approver, by_handler, by_url, ChannelRuntime, Effect, emitted, approval_asked,
  published, written, bootstrap_asked, connected_to, subscribe_asked, disconnected, Run, finished,
  thrown, effects_of, state_of, after, ◌then_do◌, call, World,
}
use openclaw_bot_chat.Extension.Targets.{is_bot_chat_conversation_topic}

-- The answer of an approver, if there is one.
pub data Verdict : Type 0 where
  approved not_approved failed : Verdict

abbrev pub denial_reason : Access → Text
denial_reason granted = []
denial_reason sender_denied = txt "sender not approved in allowFrom"
denial_reason (blocked b) = txt "message blocked by metadata"

module _ (w : World) where
  abbrev pub flush_to : ChannelRuntime → Option Text → Run
  flush_to s none = finished s []
  flush_to s (some path) = call (w.write path s.checkpoints) s (written path s.checkpoints)

  unfoldable pub flush_state : ChannelRuntime → Run
  flush_state s = flush_to s s.state_path

  abbrev pub on_inbound_message : ChannelMessage → ChannelRuntime → Run
  on_inbound_message message s = call (w.emit message) s (emitted message)

  unfoldable pub resolve_publish_topic : ChannelMessage → ChannelRuntime → Option Text
  resolve_publish_topic message s =
      text_at (txt "topic") message.metadata
      <|> (text_at (txt "publishTopic") message.metadata
          <|> (if is_bot_chat_conversation_topic message.channel_id
                || contains message.channel_id s.publish_topics
              then some message.channel_id
              else s.publish_topic))

  -- The payload that a message is sent as to a topic.
  unfoldable pub outbound_payload : ChannelMessage → Text → Fields
  outbound_payload message topic =
      let message_id =
        get_or
          (text_at (txt "messageId") message.metadata
            <|> text_at (txt "message_id") message.metadata)
          w.uuid in
      build_bot_chat_outbound_payload w.uuid w.seconds (record message {
        channel_id = topic;
        metadata = some (
            set_item (txt "topic") (str topic)
              (set_item (txt "message_id") (str message_id) (or_empty message.metadata)));
      })

  abbrev pub send_to : ChannelMessage → ChannelRuntime → Option Text → Run
  send_to message s none = thrown s []
  send_to message s (some topic) =
      let payload = outbound_payload message topic in
      call (w.publish topic payload) s (published topic payload)

  unfoldable pub send_to_channel : ChannelMessage → ChannelRuntime → Run
  unfolding resolve_publish_topic outbound_payload
  send_to_channel message s =
      if s.connected then send_to message s (resolve_publish_topic message s) else thrown s []

  module _ (l : Language) where
    abbrev pub checkpoint_of : ChannelMessage → Checkpoint
    checkpoint_of message = record {
      channel_id = message.channel_id;
      last_message_id = text_at (txt "message_id") message.metadata;
      last_seq = read_number l (item_of (txt "seq") message.metadata);
      updated_at = w.millis;
    }

    abbrev pub advanced : ChannelMessage → ChannelRuntime → ChannelRuntime
    advanced message s = record s {
      checkpoints = set message.channel_id (checkpoint_of message) s.checkpoints;
    }

    unfoldable pub accept_inbound_message : ChannelMessage → ChannelRuntime → Run
    unfolding flush_state
    accept_inbound_message message s =
        on_inbound_message message s then_do λ s. flush_state (advanced message s)

    abbrev pub denied_message : Text → ChannelMessage → Access → Text → ChannelMessage
    denied_message topic message access reply = record {
      channel_id = message.channel_id;
      user_id = message.user_id;
      text = reply;
      metadata =
          some
            (field (txt "topic") (str topic) (single (txt "reason") (str (denial_reason access))));
    }

    abbrev pub reply_denied : Text → ChannelMessage → Access → ChannelRuntime → Option Text → Run
    reply_denied topic message access s none = finished s []
    reply_denied topic message access s (some reply) =
        send_to_channel (denied_message topic message access reply) s

    unfoldable pub deny_inbound_message : Text → ChannelMessage → Access → ChannelRuntime → Run
    deny_inbound_message topic message access s =
        reply_denied topic message access s s.permission_denied_reply

    abbrev pub verdict_of : Option Bool → Verdict
    verdict_of none = failed
    verdict_of (some true) = approved
    verdict_of (some false) = not_approved

    abbrev pub settle : Text → ChannelMessage → Access → ChannelRuntime → Verdict → Run
    settle topic message access s approved = accept_inbound_message message s
    settle topic message access s not_approved = deny_inbound_message topic message access s
    settle topic message access s failed = thrown s []

    abbrev pub ask_approver :
        Text → ChannelMessage → Access → ChannelRuntime → Option Approver → Run
    ask_approver topic message access s none = settle topic message access s not_approved
    ask_approver topic message access s (some approver) =
        after (approval_asked topic message ∷ [])
          (settle topic message access s (verdict_of (w.approve approver topic message)))

    abbrev pub decide : Text → ChannelMessage → ChannelRuntime → Access → Run
    decide topic message s granted = accept_inbound_message message s
    decide topic message s sender_denied = deny_inbound_message topic message sender_denied s
    decide topic message s (blocked false) = deny_inbound_message topic message (blocked false) s
    decide topic message s (blocked true) = ask_approver topic message (blocked true) s s.approver

    abbrev pub handle_message :
        Fields → (Text → Option Text) → Text → ChannelRuntime → Option ChannelMessage → Run
    handle_message config env topic s none = finished s []
    handle_message config env topic s (some message) =
        decide topic message s (evaluate_bot_chat_access l config env message)

    -- `parsed` is what the text of the payload parses to, or the text.
    unfoldable pub handle_inbound :
        Fields → (Text → Option Text) → Text → Value → ChannelRuntime → Run
    unfolding accept_inbound_message deny_inbound_message
    handle_inbound config env topic parsed s =
        if s.has_logger
        then handle_message config env topic s (to_inbound_message l parsed topic)
        else finished s []

    abbrev pub emit_one : Option ChannelMessage → ChannelRuntime → Run
    emit_one none s = finished s []
    emit_one (some message) s = on_inbound_message message s

    abbrev pub emit_all : Text → List Value → ChannelRuntime → Run
    emit_all channel_id [] s = finished s []
    emit_all channel_id (v ∷ vs) s =
        emit_one (to_inbound_message l v channel_id) s then_do emit_all channel_id vs

    abbrev pub emit_fetched : Text → Option (List Value) → ChannelRuntime → Run
    emit_fetched channel_id none s = thrown s []
    emit_fetched channel_id (some vs) s = emit_all channel_id vs s

    abbrev pub recover_channels : ℤ → List (Text × Checkpoint) → ChannelRuntime → Run
    recover_channels limit [] s = finished s []
    recover_channels limit ((key, c) ∷ cs) s =
        emit_fetched c.channel_id (w.history c.channel_id c.last_seq limit) s
        then_do recover_channels limit cs

    abbrev pub recover_with : ℤ → ChannelRuntime → Option Text → Option Text → Run
    recover_with limit s (some url) (some key) = recover_channels limit s.checkpoints s
    recover_with limit s (some url) none = finished s []
    recover_with limit s none key = finished s []

    -- The backend and the key are there once a start has got so far.
    unfoldable pub recover_history : Fields → ChannelRuntime → Run
    recover_history config s =
        recover_with (get_or (read_number l (item (txt "historyCatchupLimit") config)) (pos 100)) s
          s.backend_url s.bot_key
