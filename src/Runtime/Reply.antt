-- ===== src/Runtime/Reply.antt =====
-- `dispatchReply` and `publishPermissionDeniedNotice` of runtime/bot.ts: what goes to the broker.
use openclaw_bot_chat.Base.{Bool, true, false, Option, none, some, ◌∷◌, Text, trunc_div}
use openclaw_bot_chat.Types.{BotChatMessage, OpenClawResponse, BotChatOutgoingMessage}
use openclaw_bot_chat.Router.Outbound.{to_outgoing_message, to_publish_payload}
use openclaw_bot_chat.Runtime.State.{Host, Setup, M, ◌>>=◌, return, throw, read, modify, ask_host}

module _ (setup : Setup) (host : Host) where
  unfoldable pub publish_connected :
      Bool → Bool → BotChatOutgoingMessage → BotChatMessage → M (Unit {0})
  publish_connected false fails outgoing source = throw
  publish_connected true true outgoing source = throw
  publish_connected true false outgoing source =
      modify λ s. record s { published = to_publish_payload outgoing source ∷ s.published }

  unfoldable pub dispatch_reply : BotChatOutgoingMessage → BotChatMessage → M (Unit {0})
  unfolding publish_connected
  dispatch_reply outgoing source = do
    connected ← read (λ s. s.connected)
    fails ← ask_host host.publish_fails
    publish_connected connected fails outgoing source

  unfoldable pub dispatch_if_any : Option BotChatOutgoingMessage → BotChatMessage → M (Unit {0})
  unfolding dispatch_reply
  dispatch_if_any none source = return tt
  dispatch_if_any (some outgoing) source = dispatch_reply outgoing source

  -- The outgoing message is built at the host's time and with a fresh identifier.
  unfoldable pub reply : OpenClawResponse → BotChatMessage → Text → M (Unit {0})
  unfolding dispatch_if_any
  reply response source bot_id = do
    fresh ← ask_host host.uuid
    ms ← ask_host host.now
    dispatch_if_any (to_outgoing_message (trunc_div ms 1000) fresh response source bot_id) source

  unfoldable pub notify : Option Text → BotChatMessage → Text → M (Unit {0})
  unfolding reply
  notify none source bot_id = return tt
  notify (some content) source bot_id =
      reply (record { content = content; metadata = none }) source bot_id
