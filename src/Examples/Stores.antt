-- ===== src/Examples/Stores.antt =====
-- Stores, scopes, recovery and subscriptions with a few entries.
use openclaw_bot_chat.Base.{
  ℕ, inl, inr, ◌<ℤ◌, pos, eqb_ℤ, ltb_ℤ, ◌≡◌, ◌↔◌, refl, true, false, none, some, [], ◌∷◌, arith,
  Text, txt, text_eq, is_truthy, map,
}
use openclaw_bot_chat.Base.Dict.{get, set}
use openclaw_bot_chat.Values.{Value, obj, str, num, field, single}
use openclaw_bot_chat.Permissions.{ChannelType}
use openclaw_bot_chat.Types.{Checkpoint, ChannelContext, ConversationInfo}
use openclaw_bot_chat.Stores.{
  Sessions, Checkpoints, load_sessions, set_session_id, merge, flush, supersedes, get_stored,
}
use openclaw_bot_chat.Stores.Sessions.{IsProper, set_session_id-persists}
use openclaw_bot_chat.Stores.Checkpoints.{Reaches, merge_keeps}
use openclaw_bot_chat.Runtime.Recovery.{normalize_fetched, select_messages}
use openclaw_bot_chat.Runtime.Recovery.Filter.{
  IsIn, IsOrdered, select_messages_iff, select_messages-IsOrdered,
}
use openclaw_bot_chat.Runtime.Start.{to_checkpoint}
use openclaw_bot_chat.Runtime.Start.Skipped.{bootstrap_skips}
use openclaw_bot_chat.Examples.{dialog, user_id, bot_id, hello, host, setup}

abbrev checkpoint : ℕ → Checkpoint
checkpoint seq = record {
  dialog_id = dialog;
  last_seq = some (pos seq);
  last_message_id = none;
  session_id = none;
  updated_at = none;
}

abbrev kept : Checkpoints
kept = record { entries = (dialog, checkpoint 5) ∷ []; file = some ((dialog, checkpoint 5) ∷ []) }

merge_keeps_example :
    Reaches (checkpoint 5) (get dialog (merge true (checkpoint 3 ∷ []) kept).0.entries)
unfolding get text_eq
merge_keeps_example = merge_keeps true (checkpoint 3 ∷ []) kept dialog refl

abbrev saved : Checkpoints
saved = record { entries = (dialog, checkpoint 9) ∷ []; file = some ((dialog, checkpoint 9) ∷ []) }

abbrev no_sessions : Sessions
no_sessions = record { entries = []; file = none }

abbrev one_session : Sessions
one_session = record { entries = (dialog, txt "s1") ∷ []; file = some ((dialog, txt "s1") ∷ []) }

set_session_id-persists_example :
    (load_sessions one_session ≡ one_session)
    × (get dialog one_session.entries ≡ some (txt "s1"))
    × IsProper one_session.entries
unfolding set_session_id flush set is_truthy
set_session_id-persists_example =
    set_session_id-persists false dialog (txt "s1") no_sessions refl refl tt refl

abbrev direct : Text → ChannelContext
direct user = record {
  id = user;
  kind = ChannelType.dm;
  bot_id = bot_id;
  user_id = some user;
  guild_id = none;
  group_id = none;
}

-- A message of a history.
abbrev fetched : ℕ → Value
fetched seq = obj (
    field (txt "id") (str (txt "m")) (
      field (txt "conversation_id") (str dialog) (
        field (txt "from_id") (str user_id)
          (field (txt "body") (str (txt "hi")) (single (txt "seq") (num (pos seq)))))))

select_messages-IsOrdered_example :
    IsOrdered
      (select_messages setup host dialog 1 [] (fetched 9 ∷ fetched 7 ∷ []) (some (checkpoint 5)))
select_messages-IsOrdered_example =
    select_messages-IsOrdered setup host dialog 1 [] (fetched 9 ∷ fetched 7 ∷ [])
      (some (checkpoint 5))

select_messages_iff_example :
    IsIn hello
      (select_messages setup host dialog 1 [] (fetched 9 ∷ fetched 3 ∷ []) (some (checkpoint 5)))
    ↔ (IsIn hello (normalize_fetched setup host 1 (fetched 9 ∷ fetched 3 ∷ []))
        × (dialog ≡ dialog)
        × (pos 5 <ℤ pos 7))
select_messages_iff_example =
    select_messages_iff setup host dialog 1 [] (fetched 9 ∷ fetched 3 ∷ []) (checkpoint 5) hello
      refl

-- A conversation that went on while the process was down.
abbrev ahead : ConversationInfo
ahead = record {
  conversation_id = dialog;
  topic = none;
  title = none;
  last_seq = some (pos 9);
  last_message_id = none;
  updated_at = none;
}

abbrev other : ConversationInfo
other = record ahead { conversation_id = txt "chat/group/g1" }

bootstrap_skips_example : ¬ IsIn hello (
    select_messages setup host dialog 1 []
      (fetched 7 ∷ [])
      (get_stored dialog (merge false (map to_checkpoint (other ∷ ahead ∷ [])) kept).0))
unfolding is_truthy to_checkpoint supersedes get text_eq eqb_ℤ ltb_ℤ
bootstrap_skips_example =
    bootstrap_skips setup host false (other ∷ ahead ∷ []) ahead kept 1 [] (fetched 7 ∷ []) hello
      (inr (inl refl)) refl refl (omega arith) refl (omega arith)
