-- ===== src/Extension/Starting/Failed.antt =====
-- A start that fails, and the next one: `start` of the extension's runtime.ts.
use openclaw_bot_chat.Base.{
  ℤ, ◌≡◌, refl, ap, sym, ◌∙◌, Bool, true, false, Option, none, some, List, [], ◌∷◌, Text,
  if◌then◌else◌,
}
use openclaw_bot_chat.Values.{Value, Fields}
use openclaw_bot_chat.Extension.Settings.{Language, ChannelMessage}
use openclaw_bot_chat.Extension.Messages.{to_inbound_message}
use openclaw_bot_chat.Extension.Effects.{
  Checkpoint, ChannelRuntime, Effect, connected_to, Run, finished, thrown, after, state_of,
  ◌then_do◌, World, call,
}
use openclaw_bot_chat.Extension.Runtime.{
  emit_one, emit_all, emit_fetched, recover_channels, recover_with, recover_history,
}
use openclaw_bot_chat.Extension.Starting.{
  BootstrapResponse, Answer, answered, refused, Created, created, import_failed, StartWorld,
  loaded_from, load_at, load_state, connect_broker, with_answer, start_with, with_approver,
  broker_url, asked, create_approver, bootstrap_bot_with_retry, start,
}

state-after : (es : List Effect) (r : Run) → state_of (after es r) ≡ state_of r
state-after es (finished s fs) = refl
state-after es (thrown s fs) = refl

state-call : (b : Bool) (s : ChannelRuntime) (e : Effect) → state_of (call b s e) ≡ s
state-call true s e = refl
state-call false s e = refl

-- A run that leaves the state, and then another one that does.
state-then_do :
    (r : Run) (f : ChannelRuntime → Run) (s : ChannelRuntime)
    → state_of r ≡ s
    → state_of (f s) ≡ s
    → state_of (r then_do f) ≡ s
state-then_do (finished t es) f s e h = state-after es (f t) ∙ (ap (λ u. state_of (f u)) e ∙ h)
state-then_do (thrown t es) f s e h = e

module _ (w : World) (l : Language) (s : ChannelRuntime) where
  state-emit_one : (o : Option ChannelMessage) → state_of (emit_one w l o s) ≡ s
  state-emit_one none = refl
  state-emit_one (some m) = state-call (w.emit m) s _

  state-emit_all : (c : Text) (vs : List Value) → state_of (emit_all w l c vs s) ≡ s
  state-emit_all c [] = refl
  state-emit_all c (v ∷ vs) =
      state-then_do (emit_one w l (to_inbound_message l v c) s) (emit_all w l c vs) s
        (state-emit_one (to_inbound_message l v c)) (state-emit_all c vs)

  state-emit_fetched : (c : Text) (o : Option (List Value)) → state_of (emit_fetched w l c o s) ≡ s
  state-emit_fetched c none = refl
  state-emit_fetched c (some vs) = state-emit_all c vs

  state-recover_channels :
      (limit : ℤ) (cs : List (Text × Checkpoint)) → state_of (recover_channels w l limit cs s) ≡ s
  state-recover_channels limit [] = refl
  state-recover_channels limit ((key, c) ∷ cs) =
      state-then_do (emit_fetched w l c.channel_id (w.history c.channel_id c.last_seq limit) s)
        (recover_channels w l limit cs) s
        (state-emit_fetched c.channel_id (w.history c.channel_id c.last_seq limit))
        (state-recover_channels limit cs)

  state-recover_with :
      (limit : ℤ) (url key : Option Text) → state_of (recover_with w l limit s url key) ≡ s
  state-recover_with limit (some u) (some k) = state-recover_channels limit s.checkpoints
  state-recover_with limit (some u) none = refl
  state-recover_with limit none key = refl

  pub state-recover_history : (config : Fields) → state_of (recover_history w l config s) ≡ s
  unfolding recover_history
  state-recover_history config = state-recover_with _ s.backend_url s.bot_key

-- The runtime counts as started, whatever happened.
abbrev Started : Run → Type 0
Started r = (state_of r).started ≡ true

load_at-started :
    (read : Text → Option (List Checkpoint)) (s : ChannelRuntime) (o : Option Text)
    → (load_at read s o).started ≡ s.started
load_at-started read s none = refl
load_at-started read s (some path) = go (read path)
  where
    go : (o : Option (List Checkpoint)) → (loaded_from s o).started ≡ s.started
    go none = refl
    go (some cs) = refl

module _ (w : StartWorld) (l : Language) (config : Fields) where
  connect_broker-Started :
      (r : BootstrapResponse) (s : ChannelRuntime) (o : Option Text)
      → s.started ≡ true
      → Started (connect_broker w l config r s o)
  unfolding load_state
  connect_broker-Started r s none h = h
  connect_broker-Started r s (some url) h =
      ap (λ s. s.started)
        (state-after (connected_to url ∷ []) (recover_history w.world l config _)
          ∙ state-recover_history w.world l _ config)
      ∙ (load_at-started w.read _ _ ∙ h)

  with_answer-Started :
      (url key : Text) (s : ChannelRuntime) (a : Answer)
      → s.started ≡ true
      → Started (with_answer w l config url key s a)
  with_answer-Started url key s (refused e) h = h
  with_answer-Started url key s (answered r) h =
      connect_broker-Started r _ (broker_url w l config r) h

  start_with-Started :
      (s : ChannelRuntime) (url key : Option Text)
      → s.started ≡ true
      → Started (start_with w l config s url key)
  start_with-Started s (some url) (some key) h =
      ap (λ s. s.started)
        (state-after (asked (bootstrap_bot_with_retry w.bootstrap).1)
          (with_answer w l config url key s (bootstrap_bot_with_retry w.bootstrap).0))
      ∙ with_answer-Started url key s (bootstrap_bot_with_retry w.bootstrap).0 h
  start_with-Started s (some url) none h = h
  start_with-Started s none key h = h

  with_approver-Started :
      (s : ChannelRuntime) (c : Created) → s.started ≡ true → Started (with_approver w l config s c)
  with_approver-Started s import_failed h = h
  with_approver-Started s (created approver) h = start_with-Started _ _ _ h

  start-Started : (s : ChannelRuntime) → Started (start w l config s)
  unfolding start
  start-Started s = go s.started refl
    where
      go :
          (b : Bool)
          → s.started ≡ b
          → Started (
              if b
              then finished s []
              else with_approver w l config
                  (record s { started = true; has_logger = true })
                  (create_approver w.imports config))
      go true e = e
      go false e = with_approver-Started _ (create_approver w.imports config) refl

module _ (w v : StartWorld) (l : Language) (config new_config : Fields) (s : ChannelRuntime) where
  -- After a start that failed, the next start does nothing and reports no failure, whatever its
  -- settings and the answers of the others.
  pub start-failed_stays :
      {t : ChannelRuntime} {es : List Effect}
      → start w l config s ≡ thrown t es
      → start v l new_config t ≡ finished t []
  unfolding start
  start-failed_stays {t} {es} e =
      simp (ap (λ r. (state_of r).started) (sym e) ∙ start-Started w l config s) refl
