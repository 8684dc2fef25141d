-- ===== src/Extension/Effects.antt =====
-- The state of `DefaultBotChatRuntime` of extensions/openclaw-bot-chat/src/runtime.ts, what others see
-- of it, and how they answer.
use openclaw_bot_chat.Base.{ℕ, ℤ, Bool, true, false, Option, List, [], ◌∷◌, ◌++◌, Text}
use openclaw_bot_chat.Values.{Value, Fields}
use openclaw_bot_chat.Extension.Settings.{ChannelMessage}

pub record Checkpoint : Type 0 where
  pub channel_id : Text
  pub last_message_id : Option Text
  pub last_seq : Option ℤ
  pub updated_at : ℤ

-- The approver is a function of a module, or an address that is asked.
pub data Approver : Type 0 where
  by_handler by_url : Text → Approver

-- `connected` tells whether there is a client of the broker.
pub record ChannelRuntime : Type 0 where
  pub started : Bool
  pub connected : Bool
  pub has_logger : Bool
  pub publish_topic : Option Text
  pub publish_topics : List Text
  pub permission_denied_reply : Option Text
  pub approver : Option Approver
  pub state_path : Option Text
  pub checkpoints : List (Text × Checkpoint)
  pub qos : ℤ
  pub backend_url : Option Text
  pub bot_key : Option Text

-- What others see of the runtime, in order.
pub data Effect : Type 0 where
  emitted : ChannelMessage → Effect
  approval_asked : Text → ChannelMessage → Effect
  published : Text → Fields → Effect
  written : Text → List (Text × Checkpoint) → Effect
  bootstrap_asked : ℕ → Effect
  connected_to subscribe_asked : Text → Effect
  disconnected : Effect

pub data Run : Type 0 where
  finished thrown : ChannelRuntime → List Effect → Run

abbrev pub effects_of : Run → List Effect
effects_of (finished s es) = es
effects_of (thrown s es) = es

abbrev pub state_of : Run → ChannelRuntime
state_of (finished s es) = s
state_of (thrown s es) = s

abbrev pub after : List Effect → Run → Run
after before (finished s es) = finished s (before ++ es)
after before (thrown s es) = thrown s (before ++ es)

infixl 5 ◌then_do◌
abbrev pub ◌then_do◌ : Run → (ChannelRuntime → Run) → Run
finished s es then_do f = after es (f s)
thrown s es then_do f = thrown s es

-- A call that others answer: it throws if they fail.
abbrev pub call : Bool → ChannelRuntime → Effect → Run
call true s e = finished s (e ∷ [])
call false s e = thrown s (e ∷ [])

-- How the others answer, during one operation of the runtime: the host's hook, the approver (`none`
-- if it throws), the broker, the file of the state, the server's history (`none` if it throws), a
-- fresh identifier and the clock.
pub record World : Type 0 where
  pub emit : ChannelMessage → Bool
  pub approve : Approver → Text → ChannelMessage → Option Bool
  pub publish : Text → Fields → Bool
  pub write : Text → List (Text × Checkpoint) → Bool
  pub history : Text → Option ℤ → ℤ → Option (List Value)
  pub uuid : Text
  pub seconds : ℤ
  pub millis : ℤ
