-- ===== src/Runtime/State.antt =====
-- The state of one bot's runtime, the host that it runs on, and calls that may throw.
-- Each call of the host is numbered by `tick`, so that the host may answer each call differently.
-- A call that throws keeps the changes made before. `asked` and `published` record, newest first,
-- what was sent to the agent and to the broker.
use openclaw_bot_chat.Base.{ℕ, suc, ℤ, Bool, Option, List, Text}
use openclaw_bot_chat.Values.{Value}
use openclaw_bot_chat.Permissions.{Action, PermissionCheck}
use openclaw_bot_chat.Types.{
  BotChatMessage, BotConfig, BootstrapResponse, ChannelContext, OpenClawRequest, OpenClawResponse,
}
use openclaw_bot_chat.Channels.{States}
use openclaw_bot_chat.Stores.{Result, done, thrown, Sessions, Checkpoints}
use openclaw_bot_chat.Router.Outbound.{PublishFrame}

pub record ApprovalRequest : Type 0 where
  pub bot_id : Text
  pub action : Action
  pub permission : PermissionCheck
  pub channel : ChannelContext
  pub message : BotChatMessage

pub record ApprovalDecision : Type 0 where
  pub approved : Bool
  pub reason : Option Text
  pub notify_user : Bool
  pub notify_message : Option Text

-- The history of a dialog; a refused request has a status, any other failure has none.
pub data FetchResult : Type 0 where
  fetched : List Value → FetchResult
  http_error : ℕ → FetchResult
  failed : FetchResult

pub record Host : Type 0 where
  pub bootstrap : ℕ → Result BootstrapResponse
  pub connect_fails : ℕ → Bool
  pub close_fails : ℕ → Bool
  pub now : ℕ → ℤ
  pub uuid : ℕ → Text
  pub write_fails : ℕ → Bool
  pub publish_fails : ℕ → Bool
  pub respond : ℕ → OpenClawRequest → Result OpenClawResponse
  pub approver : Option (ℕ → ApprovalRequest → Result ApprovalDecision)
  pub fetch : ℕ → Text → Option ℤ → ℤ → FetchResult
  pub date_parse : Text → Option ℤ
  pub lower : Text → Text

-- What does not change while the runtime lives.
pub record Setup : Type 0 where
  pub bot_config : BotConfig
  pub permission_denied_reply : Option Text

pub record Runtime : Type 0 where
  pub bot_id : Option Text
  pub bootstrap : Option BootstrapResponse
  pub connected : Bool
  pub stopped : Bool
  pub channels : States
  pub sessions : Sessions
  pub checkpoints : Checkpoints
  pub processed : List (Text × ℤ)
  pub tick : ℕ
  pub asked : List OpenClawRequest
  pub published : List PublishFrame

abbrev pub M {ℓ} : Type ℓ → Type ℓ
M A = Runtime → Runtime × Result A

abbrev pub continue_with {ℓ κ} :
    {A : Type ℓ} {B : Type κ} → Runtime × Result A → (A → M B) → Runtime × Result B
continue_with (s, done a) f = f a s
continue_with (s, thrown) f = (s, thrown)

infixl 5 ◌>>=◌ ◌>>◌
abbrev pub ◌>>=◌ {ℓ κ} : {A : Type ℓ} {B : Type κ} → M A → (A → M B) → M B
◌>>=◌ m f s = continue_with (m s) f

abbrev pub ◌>>◌ {ℓ} : {B : Type ℓ} → M (Unit {0}) → M B → M B
m >> k = m >>= λ _. k

abbrev pub return {ℓ} : {A : Type ℓ} → A → M A
return a s = (s, done a)

abbrev pub throw {ℓ} : {A : Type ℓ} → M A
throw s = (s, thrown)

abbrev pub read {ℓ} : {A : Type ℓ} → (Runtime → A) → M A
read f s = (s, done (f s))

abbrev pub modify : (Runtime → Runtime) → M (Unit {0})
modify f s = (f s, done tt)

-- An answer of the host at the current tick.
abbrev pub ask_host {ℓ} : {A : Type ℓ} → (ℕ → A) → M A
ask_host f s = (record s { tick = suc s.tick }, done (f s.tick))

-- The result of a call of the host that may throw.
abbrev pub lift_result {ℓ} : {A : Type ℓ} → Result A → M A
lift_result (done a) s = (s, done a)
lift_result thrown s = (s, thrown)

abbrev put_sessions {ℓ} : {A : Type ℓ} → Runtime → Sessions × Result A → Runtime × Result A
put_sessions s (sessions, r) = (record s { sessions = sessions }, r)

abbrev put_checkpoints {ℓ} : {A : Type ℓ} → Runtime → Checkpoints × Result A → Runtime × Result A
put_checkpoints s (checkpoints, r) = (record s { checkpoints = checkpoints }, r)

-- Operations of the two stores and of the channel state, as calls of the runtime.
abbrev pub on_sessions {ℓ} : {A : Type ℓ} → (Sessions → Sessions × Result A) → M A
on_sessions f s = put_sessions s (f s.sessions)

abbrev pub on_checkpoints {ℓ} : {A : Type ℓ} → (Checkpoints → Checkpoints × Result A) → M A
on_checkpoints f s = put_checkpoints s (f s.checkpoints)

abbrev pub on_channels {ℓ} : {A : Type ℓ} → (States → A × States) → M A
on_channels f s = let (a, channels) = f s.channels in (record s { channels = channels }, done a)

abbrev pub change_channels : (States → States) → M (Unit {0})
change_channels f s = (record s { channels = f s.channels }, done tt)
