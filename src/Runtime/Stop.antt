-- ===== src/Runtime/Stop.antt =====
-- `stop` of runtime/bot.ts: the two stores are written and the connection is closed, once.
pub mod Saved
use openclaw_bot_chat.Base.{Bool, true, false}
use openclaw_bot_chat.Stores.{flush}
use openclaw_bot_chat.Runtime.State.{
  Host, M, ◌>>=◌, ◌>>◌, return, throw, read, modify, ask_host, on_sessions, on_checkpoints,
}

-- `this.mqttClient?.close()`
abbrev close_failed : Bool → M (Unit {0})
close_failed true = throw
close_failed false = return tt

module _ (host : Host) where
  unfoldable pub close : Bool → M (Unit {0})
  close false = return tt
  close true = do fails ← ask_host host.close_fails; close_failed fails

  unfoldable pub stop_running : M (Unit {0})
  unfolding close
  stop_running = do
    modify (λ s. record s { stopped = true })
    fails ← ask_host host.write_fails
    on_checkpoints (flush fails)
    refused ← ask_host host.write_fails
    on_sessions (flush refused)
    connected ← read (λ s. s.connected)
    close connected

  abbrev pub stop_unless : Bool → M (Unit {0})
  stop_unless true = return tt
  stop_unless false = stop_running

  unfoldable pub stop : M (Unit {0})
  unfolding stop_running
  stop s = stop_unless s.stopped s
