-- ===== src/Channels/Scopes.antt =====
-- What one scope holds after an operation on another, or on itself.
use openclaw_bot_chat.Base.{
  ◌≡◌, refl, sym, Bool-cases, ◌&&◌, Option, none, some, inl, inr, arith, Text, text_eq, text_eq_iff,
  if◌then◌else◌,
}
use openclaw_bot_chat.Base.Dict.{get, set, get-set}
use openclaw_bot_chat.Types.{ChannelContext, Checkpoint}
use openclaw_bot_chat.Channels.{
  ChannelScopedState, States, empty_scope, channel_scope_key, get_state, set_session, get_session,
  set_checkpoint, get_checkpoint,
}

-- The state of a scope, empty if nothing was stored there.
abbrev scope_or_empty : Option ChannelScopedState → ChannelScopedState
scope_or_empty none = empty_scope
scope_or_empty (some s) = s

pub scope_at : Text → States → ChannelScopedState
scope_at key states = scope_or_empty (get key states)

get_state-scope_at :
    (c : ChannelContext) (states : States)
    → (get_state c states).0 ≡ scope_at (channel_scope_key c) states
unfolding get_state scope_at
get_state-scope_at c states = ground arith

-- Creating a scope by reading it stores nothing.
scope_at-get_state :
    (key : Text) (c : ChannelContext) (states : States)
    → scope_at key (get_state c states).1 ≡ scope_at key states
unfolding get_state scope_at
scope_at-get_state key c states = ground (
  arith,
  get-set (channel_scope_key c) key empty_scope states,
  text_eq_iff (channel_scope_key c) key,
)

scope_at-set :
    (key j : Text) (scope : ChannelScopedState) (states : States)
    → scope_at j (set key scope states) ≡ (if text_eq key j then scope else scope_at j states)
unfolding scope_at
scope_at-set key j scope states = ground (arith, get-set key j scope states)

get_session-scope_at :
    (d : ChannelContext) (other : Text) (states : States)
    → (get_session d other states).0 ≡ get other (scope_at (channel_scope_key d) states).sessions
unfolding get_session
get_session-scope_at d other states = rw (get_state-scope_at d states) refl

get_checkpoint-scope_at :
    (d : ChannelContext) (other : Text) (states : States)
    → (get_checkpoint d other states).0
      ≡ get other (scope_at (channel_scope_key d) states).checkpoints
unfolding get_checkpoint
get_checkpoint-scope_at d other states = rw (get_state-scope_at d states) refl

scope_at-set_session :
    (j : Text) (c : ChannelContext) (dialog_id session_id : Text) (states : States)
    → scope_at j (set_session c dialog_id session_id states) ≡ (
        if text_eq (channel_scope_key c) j
        then record (scope_at (channel_scope_key c) states) {
          sessions = set dialog_id session_id (scope_at (channel_scope_key c) states).sessions;
        }
        else scope_at j states)
unfolding set_session
scope_at-set_session j c dialog_id session_id states =
    rw
      (
        get_state-scope_at c states,
        scope_at-set (channel_scope_key c) j _ (get_state c states).1,
        scope_at-get_state j c states,
      )
      refl

scope_at-set_checkpoint :
    (j : Text) (c : ChannelContext) (checkpoint : Checkpoint) (states : States)
    → scope_at j (set_checkpoint c checkpoint states) ≡ (
        if text_eq (channel_scope_key c) j
        then record (scope_at (channel_scope_key c) states) {
          checkpoints =
              set checkpoint.dialog_id checkpoint
                (scope_at (channel_scope_key c) states).checkpoints;
        }
        else scope_at j states)
unfolding set_checkpoint
scope_at-set_checkpoint j c checkpoint states =
    rw
      (
        get_state-scope_at c states,
        scope_at-set (channel_scope_key c) j _ (get_state c states).1,
        scope_at-get_state j c states,
      )
      refl

-- A session that is set in one scope is found there under its dialog; every other scope and every
-- other dialog keep what they had. Scopes are told apart by their keys.
pub get_session-set_session :
    (c d : ChannelContext) (dialog_id other session_id : Text) (states : States)
    → (get_session d other (set_session c dialog_id session_id states)).0 ≡ (
        if text_eq (channel_scope_key c) (channel_scope_key d) && text_eq dialog_id other
        then some session_id
        else (get_session d other states).0)
get_session-set_session c d dialog_id other session_id states =
    let here = scope_at (channel_scope_key c) states in
    rw
      (
        get_session-scope_at d other states,
        get_session-scope_at d other (set_session c dialog_id session_id states),
        scope_at-set_session (channel_scope_key d) c dialog_id session_id states,
      )
      (elim (Bool-cases (text_eq (channel_scope_key c) (channel_scope_key d))) [
        | inl e ↦
            rw
              (
                e,
                get-set dialog_id other session_id here.sessions,
                sym ((text_eq_iff (channel_scope_key c) (channel_scope_key d)).0 e),
              )
              refl
        | inr e ↦ rw e refl
      ])

-- A checkpoint that is set in one scope is found there under its dialog; every other scope and
-- every other dialog keep what they had.
pub get_checkpoint-set_checkpoint :
    (c d : ChannelContext) (checkpoint : Checkpoint) (other : Text) (states : States)
    → (get_checkpoint d other (set_checkpoint c checkpoint states)).0 ≡ (
        if text_eq (channel_scope_key c) (channel_scope_key d) && text_eq checkpoint.dialog_id other
        then some checkpoint
        else (get_checkpoint d other states).0)
get_checkpoint-set_checkpoint c d checkpoint other states =
    let here = scope_at (channel_scope_key c) states in
    rw
      (
        get_checkpoint-scope_at d other states,
        get_checkpoint-scope_at d other (set_checkpoint c checkpoint states),
        scope_at-set_checkpoint (channel_scope_key d) c checkpoint states,
      )
      (elim (Bool-cases (text_eq (channel_scope_key c) (channel_scope_key d))) [
        | inl e ↦
            rw
              (
                e,
                get-set checkpoint.dialog_id other checkpoint here.checkpoints,
                sym ((text_eq_iff (channel_scope_key c) (channel_scope_key d)).0 e),
              )
              refl
        | inr e ↦ rw e refl
      ])
