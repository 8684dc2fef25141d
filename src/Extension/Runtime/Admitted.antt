-- ===== src/Extension/Runtime/Admitted.antt =====
-- Which messages reach the host: `handleInbound` of the extension's runtime.ts.
use openclaw_bot_chat.Base.{
  ◌≡◌, ◌↔◌, refl, Bool, true, false, Option, none, some, ◌⊎◌, List, [], ◌∷◌, ◌++◌, arith, Text,
  Exists, if◌then◌else◌,
}
use openclaw_bot_chat.Values.{Value, Fields}
use openclaw_bot_chat.Extension.Settings.{
  Language, ChannelMessage, Access, granted, sender_denied, blocked, evaluate_bot_chat_access,
}
use openclaw_bot_chat.Extension.Messages.{to_inbound_message}
use openclaw_bot_chat.Extension.Effects.{
  Approver, ChannelRuntime, Effect, emitted, approval_asked, published, written, Run, finished,
  thrown, effects_of, after, ◌then_do◌, call, World,
}
use openclaw_bot_chat.Extension.Runtime.{
  flush_to, flush_state, resolve_publish_topic, outbound_payload, send_to, send_to_channel,
  advanced, accept_inbound_message, denied_message, reply_denied, deny_inbound_message, verdict_of,
  settle, ask_approver, decide, handle_message, handle_inbound,
}

-- The message is handed to the host.
abbrev pub Emits : ChannelMessage → List Effect → Type 0
Emits m es = Exists (λ e. e ≡ emitted m) es

abbrev pub approval : World → Option Approver → Text → ChannelMessage → Option Bool
approval w none topic m = none
approval w (some approver) topic m = w.approve approver topic m

-- The access check lets the message in, or the approver does where it is asked.
abbrev pub IsLetIn : World → ChannelRuntime → Text → ChannelMessage → Access → Type 0
IsLetIn w s topic m access =
    (access ≡ granted) ⊎ (access ≡ blocked true) × (approval w s.approver topic m ≡ some true)

pub effects-call : (b : Bool) (s : ChannelRuntime) (e : Effect) → effects_of (call b s e) ≡ e ∷ []
effects-call true s e = refl
effects-call false s e = refl

effects-after : (es : List Effect) (r : Run) → effects_of (after es r) ≡ es ++ effects_of r
effects-after es (finished s fs) = refl
effects-after es (thrown s fs) = refl

module _ (w : World) (m : ChannelMessage) where
  flush_quiet : (s : ChannelRuntime) (o : Option Text) → ¬ Emits m (effects_of (flush_to w s o))
  flush_quiet s none h = h
  flush_quiet s (some path) h =
      ground
        (arith, rw (effects-call (w.write path s.checkpoints) s (written path s.checkpoints)) at h)

  send_to_quiet :
      (message : ChannelMessage) (s : ChannelRuntime) (o : Option Text)
      → ¬ Emits m (effects_of (send_to w message s o))
  send_to_quiet message s none h = h
  send_to_quiet message s (some topic) h = ground (
    arith,
    rw
        (effects-call (w.publish topic (outbound_payload w message topic)) s
          (published topic (outbound_payload w message topic)))
        at h,
  )

  send_quiet :
      (message : ChannelMessage) (s : ChannelRuntime)
      → ¬ Emits m (effects_of (send_to_channel w message s))
  unfolding send_to_channel
  send_quiet message s = go s.connected
    where
      go :
          (b : Bool)
          → ¬ Emits m (
              effects_of (
                if b then send_to w message s (resolve_publish_topic w message s) else thrown s []))
      go true h = send_to_quiet message s (resolve_publish_topic w message s) h
      go false h = h

  deny_quiet :
      (l : Language) (topic : Text) (message : ChannelMessage) (access : Access)
      (s : ChannelRuntime) (o : Option Text)
      → ¬ Emits m (effects_of (reply_denied w l topic message access s o))
  deny_quiet l topic message access s none h = h
  deny_quiet l topic message access s (some reply) h =
      send_quiet (denied_message w l topic message access reply) s h

  emit_then :
      (message : ChannelMessage) (b : Bool) (s : ChannelRuntime) (f : ChannelRuntime → Run)
      → ((s : ChannelRuntime) → ¬ Emits m (effects_of (f s)))
      → Emits m (effects_of (call b s (emitted message) then_do f)) ↔ (message ≡ m)
  emit_then message false s f quiet = ground arith
  emit_then message true s f quiet =
      rw (effects-after (emitted message ∷ []) (f s)) (ground (arith, quiet s))

  accept-Emits :
      (l : Language) (message : ChannelMessage) (s : ChannelRuntime)
      → Emits m (effects_of (accept_inbound_message w l message s)) ↔ (message ≡ m)
  unfolding accept_inbound_message flush_state
  accept-Emits l message s =
      emit_then message (w.emit message) s _
        (λ s. flush_quiet (advanced w l message s) s.state_path)

  settle-Emits :
      (l : Language) (topic : Text) (message : ChannelMessage) (access : Access)
      (s : ChannelRuntime) (o : Option Bool)
      → Emits m (effects_of (settle w l topic message access s (verdict_of w l o)))
        ↔ (message ≡ m) × (o ≡ some true)
  unfolding deny_inbound_message
  settle-Emits l topic message access s none = ground arith
  settle-Emits l topic message access s (some true) = ground (arith, accept-Emits l message s)
  settle-Emits l topic message access s (some false) =
      ground (arith, deny_quiet l topic message access s s.permission_denied_reply)

  asked-Emits :
      (l : Language) (topic : Text) (message : ChannelMessage) (access : Access)
      (s : ChannelRuntime) (o : Option Approver)
      → Emits m (effects_of (ask_approver w l topic message access s o))
        ↔ (message ≡ m) × (approval w o topic message ≡ some true)
  unfolding deny_inbound_message
  asked-Emits l topic message access s none =
      ground (arith, deny_quiet l topic message access s s.permission_denied_reply)
  asked-Emits l topic message access s (some approver) =
      rw
        (effects-after (approval_asked topic message ∷ [])
          (settle w l topic message access s (verdict_of w l (w.approve approver topic message))))
        (ground (arith, settle-Emits l topic message access s (w.approve approver topic message)))

  decide-Emits :
      (l : Language) (topic : Text) (message : ChannelMessage) (s : ChannelRuntime)
      (access : Access)
      → Emits m (effects_of (decide w l topic message s access))
        ↔ (message ≡ m) × IsLetIn w s topic message access
  unfolding deny_inbound_message
  decide-Emits l topic message s granted = ground (arith, accept-Emits l message s)
  decide-Emits l topic message s sender_denied =
      ground (arith, deny_quiet l topic message sender_denied s s.permission_denied_reply)
  decide-Emits l topic message s (blocked false) =
      ground (arith, deny_quiet l topic message (blocked false) s s.permission_denied_reply)
  decide-Emits l topic message s (blocked true) =
      ground (arith, asked-Emits l topic message (blocked true) s s.approver)

  handle_message-Emits :
      (l : Language) (config : Fields) (env : Text → Option Text) (topic : Text)
      (s : ChannelRuntime) (o : Option ChannelMessage)
      → Emits m (effects_of (handle_message w l config env topic s o))
        ↔ (o ≡ some m) × IsLetIn w s topic m (evaluate_bot_chat_access l config env m)
  handle_message-Emits l config env topic s none = ground arith
  handle_message-Emits l config env topic s (some message) =
      ground (arith, decide-Emits l topic message s (evaluate_bot_chat_access l config env message))

module _ (w : World) (l : Language) (config : Fields) (env : Text → Option Text) (topic : Text)
    (parsed : Value) (s : ChannelRuntime) (m : ChannelMessage) where
  -- A payload makes the runtime hand a message to the host exactly when it reads as that message and
  -- the access check, or the approver of a message that is marked as blocked, lets it in. The
  -- runtime has its logger, as after every start.
  pub handle_inbound-Emits_iff :
      s.has_logger ≡ true
      → Emits m (effects_of (handle_inbound w l config env topic parsed s)) ↔ (
          (to_inbound_message l parsed topic ≡ some m)
          × IsLetIn w s topic m (evaluate_bot_chat_access l config env m))
  unfolding handle_inbound
  handle_inbound-Emits_iff h =
      simp (h) (handle_message-Emits w m l config env topic s (to_inbound_message l parsed topic))
