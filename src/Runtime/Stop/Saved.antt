-- ===== src/Runtime/Stop/Saved.antt =====
-- What `stop` of runtime/bot.ts leaves behind: the files of the two stores.
use openclaw_bot_chat.Base.{◌≡◌, true, false, some, arith}
use openclaw_bot_chat.Stores.{done, flush}
use openclaw_bot_chat.Runtime.State.{Host, Runtime}
use openclaw_bot_chat.Runtime.Stop.{close, stop_running, stop}

module _ (host : Host) where
  -- A runtime that was running and whose `stop` returns has written the entries of both stores to
  -- their files, has kept the entries, and is marked as stopped.
  pub stop_saves :
      (s : Runtime) {t : Runtime}
      → s.stopped ≡ false
      → stop host s ≡ (t, done tt)
      → (t.stopped ≡ true)
        × (t.checkpoints
            ≡ record { entries = s.checkpoints.entries; file = some s.checkpoints.entries })
        × (t.sessions ≡ record { entries = s.sessions.entries; file = some s.sessions.entries })
  unfolding stop stop_running close flush
  stop_saves s running returned = ground arith

  -- A second `stop` does nothing and returns, whether the first one returned or threw.
  pub stop_twice : (s : Runtime) → let t = (stop host s).0 in stop host t ≡ (t, done tt)
  unfolding stop stop_running close flush
  stop_twice s = ground arith
