-- ===== src/Runtime/Approval.antt =====
-- `resolvePermissionApproval` of runtime/bot.ts: whether a message that the permissions deny may be
-- handled after all.
use openclaw_bot_chat.Base.{
  ℕ, Bool, true, false, Option, none, some, Text, is_truthy, if◌then◌else◌,
}
use openclaw_bot_chat.Values.{◌<|>◌}
use openclaw_bot_chat.Types.{BotChatMessage}
use openclaw_bot_chat.Stores.{Result, done, thrown}
use openclaw_bot_chat.Router.Context.{IncomingMessageRoute}
use openclaw_bot_chat.Runtime.State.{
  ApprovalRequest, ApprovalDecision, Host, Setup, M, return, ask_host,
}

pub record ApprovalResult : Type 0 where
  pub allowed : Bool
  pub reason : Option Text
  pub notify_message : Option Text

abbrev pub truthy : Option Text → Option Text
truthy none = none
truthy (some t) = if is_truthy t then some t else none

abbrev pub refusal : Option Text → ApprovalResult
refusal reply = record { allowed = false; reason = none; notify_message = truthy reply }

module _ (setup : Setup) (host : Host) where
  unfoldable pub decide : ApprovalDecision → ApprovalResult
  decide d =
      if d.approved
      then record { allowed = true; reason = truthy d.reason; notify_message = none }
      else record {
        allowed = false;
        reason = truthy d.reason;
        notify_message =
            truthy (
              d.notify_message <|> (if d.notify_user then setup.permission_denied_reply else none));
      }

  abbrev decided : Result ApprovalDecision → ApprovalResult
  decided (done d) = decide d
  decided thrown = refusal setup.permission_denied_reply

  unfoldable pub ask_approver :
      Option (ℕ → ApprovalRequest → Result ApprovalDecision) → ApprovalRequest → M ApprovalResult
  ask_approver none request = return (refusal setup.permission_denied_reply)
  ask_approver (some approve) request = ask_host (λ tick. decided (approve tick request))

  unfoldable pub resolve_permission_approval :
      Text → IncomingMessageRoute → BotChatMessage → M ApprovalResult
  resolve_permission_approval bot_id routed message = ask_approver host.approver (record {
    bot_id = bot_id;
    action = routed.action;
    permission = routed.permission;
    channel = routed.channel;
    message = message;
  })
