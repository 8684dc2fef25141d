-- ===== src/Runtime/Start/Sound.antt =====
-- A start keeps the cache of processed messages sound, from loading the files to the recovery.
use openclaw_bot_chat.Base.{
  suc, ◌≤◌, ◌≡◌, refl, map, Bool, true, false, Option, none, some, [], ◌∷◌, arith, Text, get_or,
}
use openclaw_bot_chat.Types.{BootstrapResponse}
use openclaw_bot_chat.Stores.{Result, done, thrown, merge}
use openclaw_bot_chat.Runtime.State.{Host, Setup, Runtime, ◌>>=◌, ◌>>◌, lift_result, on_checkpoints}
use openclaw_bot_chat.Runtime.Approval.{truthy}
use openclaw_bot_chat.Runtime.Task.Outcome.{IsMonotone, IsSound, Quiet-IsSound}
use openclaw_bot_chat.Runtime.Recovery.{recover_pending_messages}
use openclaw_bot_chat.Runtime.Recovery.Sound.{
  continue_with-IsSound, recover_pending_messages-IsSound,
}
use openclaw_bot_chat.Runtime.Start.{
  Topics, to_checkpoint, resolve_client_id, resolve_broker_url, require, unless_fails, load_state,
  subscribe_each, connect, start_as, start_with, start, hydrate_channel_state,
  resolve_subscriptions,
}

module _ (setup : Setup) (host : Host) (mono : IsMonotone setup host) where
  unless_fails-IsSound :
      (fails : Bool) (s : Runtime)
      → IsSound setup host s
      → IsSound setup host (unless_fails fails s).0
  unless_fails-IsSound true s v = v
  unless_fails-IsSound false s v = v

  lift_result-IsSound :
      {A : Type 0} (r : Result A) (s : Runtime)
      → IsSound setup host s
      → IsSound setup host (lift_result r s).0
  lift_result-IsSound (done a) s v = v
  lift_result-IsSound thrown s v = v

  require-IsSound :
      (o : Option Text) (s : Runtime) → IsSound setup host s → IsSound setup host (require o s).0
  require-IsSound none s v = v
  require-IsSound (some t) s v = v

  -- The cache and the host's clock decide soundness.
  later-IsSound :
      (s t : Runtime)
      → t.processed ≡ s.processed
      → s.tick ≤ t.tick
      → IsSound setup host s
      → IsSound setup host t
  later-IsSound s t e le v =
      Quiet-IsSound setup host mono s t (record { processed = e; later = le }) v

  module _ (ws_url tcp_url : Option Text) where
    subscribe_each-IsSound :
        (topics : Topics) (s : Runtime)
        → IsSound setup host s
        → IsSound setup host (subscribe_each setup host ws_url tcp_url topics s).0
    unfolding subscribe_each
    subscribe_each-IsSound [] s v = v
    subscribe_each-IsSound (t ∷ ts) s v =
        let next = record s { tick = suc s.tick } in
        continue_with-IsSound setup host mono (unless_fails (host.connect_fails s.tick) next)
          (λ _. subscribe_each setup host ws_url tcp_url ts)
          (unless_fails-IsSound (host.connect_fails s.tick) next
            (later-IsSound s next refl (omega arith) v))
          (λ _ u h. subscribe_each-IsSound ts u h)

    connect-IsSound :
        (b : BootstrapResponse) (s : Runtime)
        → IsSound setup host s
        → IsSound setup host (connect setup host ws_url tcp_url b s).0
    unfolding connect
    connect-IsSound b s v =
        let next = record s { connected = true; tick = suc s.tick } in
        let topics = resolve_subscriptions b in
        continue_with-IsSound setup host mono (unless_fails (host.connect_fails s.tick) next)
          (λ _.
            subscribe_each setup host ws_url tcp_url topics >> recover_pending_messages setup host)
          (unless_fails-IsSound (host.connect_fails s.tick) next
            (later-IsSound s next refl (omega arith) v))
          (λ _ t h.
            continue_with-IsSound setup host mono
              (subscribe_each setup host ws_url tcp_url topics t)
              (λ _. recover_pending_messages setup host) (subscribe_each-IsSound topics t h)
              (λ _ u k. recover_pending_messages-IsSound setup host mono u k))

    -- The identifier and the address, which may be missing, and then the connection.
    addressed-IsSound :
        (client_id url : Result Text) (b : BootstrapResponse) (s : Runtime)
        → IsSound setup host s
        → IsSound setup host
            ((lift_result client_id >>= λ _.
                lift_result url >>= λ _. connect setup host ws_url tcp_url b)
              s).0
    addressed-IsSound thrown url b s v = v
    addressed-IsSound (done client_id) thrown b s v = v
    addressed-IsSound (done client_id) (done url) b s v = connect-IsSound b s v

    start_as-IsSound :
        (b : BootstrapResponse) (bot_id : Text) (s : Runtime)
        → IsSound setup host s
        → IsSound setup host (start_as setup host ws_url tcp_url b bot_id s).0
    unfolding start_as hydrate_channel_state
    start_as-IsSound b bot_id s v =
        let next = record s { tick = suc s.tick } in
        let cs = map to_checkpoint b.conversations in
        continue_with-IsSound setup host mono
          (on_checkpoints (merge (host.write_fails s.tick) cs) next) _
          (later-IsSound s _ refl (omega arith) v)
          (λ _ t h.
            addressed-IsSound (resolve_client_id (some bot_id) b.client_id)
              (resolve_broker_url ws_url tcp_url b) b (hydrate_channel_state bot_id b t)
              (later-IsSound t (hydrate_channel_state bot_id b t) refl (omega arith) h))

    start_with-IsSound :
        (b : BootstrapResponse) (s : Runtime)
        → IsSound setup host s
        → IsSound setup host (start_with setup host ws_url tcp_url b s).0
    unfolding start_with
    start_with-IsSound b s v =
        let id = get_or setup.bot_config.id b.bot_id in
        let next = record s { bootstrap = some b; bot_id = some id } in
        continue_with-IsSound setup host mono (require (truthy (some id)) next)
          (start_as setup host ws_url tcp_url b)
          (require-IsSound (truthy (some id)) next (later-IsSound s next refl (omega arith) v))
          (λ bot_id t h. start_as-IsSound b bot_id t h)

    -- A start keeps the cache of processed messages within its limit and without an entry in the
    -- future, whatever the service, the broker, the agent and the files answer and wherever it
    -- throws, if the host's clock does not go back.
    pub start-IsSound :
        (s : Runtime)
        → IsSound setup host s
        → IsSound setup host (start setup host ws_url tcp_url s).0
    unfolding start load_state
    start-IsSound s v =
        let next = record (load_state setup host ws_url tcp_url s) { tick = suc s.tick } in
        continue_with-IsSound setup host mono (lift_result (host.bootstrap s.tick) next)
          (start_with setup host ws_url tcp_url)
          (lift_result-IsSound (host.bootstrap s.tick) next
            (later-IsSound s next refl (omega arith) v))
          (λ b t h. start_with-IsSound b t h)
