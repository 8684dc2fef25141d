-- ===== src/Channels.antt =====
-- `ChannelState` of plugins/openclaw-bot-chat/src/types/channel.ts: dialogs, sessions and
-- checkpoints apart for each scope. The source's nested maps are updated in place, and reading a
-- scope that is not there creates it, so each operation gives the new state back.
pub mod Scopes
use openclaw_bot_chat.Base.{ℤ, Option, none, some, get_or, List, [], ◌∷◌, ◌++◌, Text, txt}
use openclaw_bot_chat.Base.Dict.{get, set}
use openclaw_bot_chat.Permissions.{ChannelType}
use openclaw_bot_chat.Types.{ChannelContext, Checkpoint}

pub record DialogInfo : Type 0 where
  pub dialog_id : Text
  pub topic : Option Text
  pub title : Option Text
  pub last_seq : Option ℤ
  pub last_message_id : Option Text
  pub updated_at : Option ℤ

pub record ChannelScopedState : Type 0 where
  pub dialogs : List (Text × DialogInfo)
  pub sessions : List (Text × Text)
  pub checkpoints : List (Text × Checkpoint)

abbrev pub States : Type 0
States = List (Text × ChannelScopedState)

abbrev pub empty_scope : ChannelScopedState
empty_scope = record { dialogs = []; sessions = []; checkpoints = [] }

abbrev kind_text : ChannelType → Text
kind_text ChannelType.dm = txt ":dm:"
kind_text ChannelType.group = txt ":group:"
kind_text ChannelType.channel = txt ":channel:"

abbrev scope_rest : ChannelType → ChannelContext → Text
scope_rest ChannelType.dm c = get_or c.user_id c.id
scope_rest ChannelType.group c = get_or c.group_id c.id
scope_rest ChannelType.channel c = get_or c.guild_id (txt "global") ++ (txt ":" ++ c.id)

unfoldable pub channel_scope_key : ChannelContext → Text
channel_scope_key c = txt "bot:" ++ (c.bot_id ++ (kind_text c.kind ++ scope_rest c.kind c))

-- `getState`: the scope's state, and the states with that scope in them.
unfoldable pub get_state : ChannelContext → States → ChannelScopedState × States
get_state c states = elim (get (channel_scope_key c) states) [
  | some scope ↦ (scope, states)
  | none ↦ (empty_scope, set (channel_scope_key c) empty_scope states)
]

unfoldable pub track_dialog : ChannelContext → DialogInfo → States → States
track_dialog c dialog states =
    let (scope, states') = get_state c states in
    set (channel_scope_key c) (record scope { dialogs = set dialog.dialog_id dialog scope.dialogs })
      states'

unfoldable pub get_dialog : ChannelContext → Text → States → Option DialogInfo × States
get_dialog c dialog_id states =
    let (scope, states') = get_state c states in (get dialog_id scope.dialogs, states')

unfoldable pub set_session : ChannelContext → Text → Text → States → States
set_session c dialog_id session_id states =
    let (scope, states') = get_state c states in
    set (channel_scope_key c) (record scope { sessions = set dialog_id session_id scope.sessions })
      states'

unfoldable pub get_session : ChannelContext → Text → States → Option Text × States
get_session c dialog_id states =
    let (scope, states') = get_state c states in (get dialog_id scope.sessions, states')

unfoldable pub set_checkpoint : ChannelContext → Checkpoint → States → States
set_checkpoint c checkpoint states =
    let (scope, states') = get_state c states in
    set (channel_scope_key c)
      (record scope { checkpoints = set checkpoint.dialog_id checkpoint scope.checkpoints }) states'

unfoldable pub get_checkpoint : ChannelContext → Text → States → Option Checkpoint × States
get_checkpoint c dialog_id states =
    let (scope, states') = get_state c states in (get dialog_id scope.checkpoints, states')
