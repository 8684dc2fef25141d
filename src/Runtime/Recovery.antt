-- ===== src/Runtime/Recovery.antt =====
-- `recoverPendingMessages` of runtime/bot.ts: the messages that a dialog's history holds beyond its
-- checkpoint are handled in the order of their sequence numbers.
pub mod Filter
pub mod Sound
use openclaw_bot_chat.Base.{
  ℕ, suc, ◌+◌, ℤ, pos, ltb_ℤ, eqb_ℤ, trunc_div, Bool, true, false, not, ◌||◌, Option, none, some,
  get_or, List, [], ◌∷◌, map, Text, text_eq, is_truthy, length, keep, sort_by, add, if◌then◌else◌,
  ◌==◌,
}
use openclaw_bot_chat.Values.{Value, Fields}
use openclaw_bot_chat.Types.{BotChatMessage, Checkpoint, BootstrapResponse, ConversationInfo}
use openclaw_bot_chat.Stores.{get_stored}
use openclaw_bot_chat.Router.Inbound.{normalize_message}
use openclaw_bot_chat.Runtime.State.{
  FetchResult, fetched, http_error, failed, Host, Setup, Runtime, M, ◌>>=◌, ◌>>◌, return, throw,
  read, modify, ask_host,
}
use openclaw_bot_chat.Runtime.Processed.{is_processed}
use openclaw_bot_chat.Runtime.Task.{handle_incoming_message}

abbrev pub message_seq : BotChatMessage → ℤ
message_seq m = get_or m.seq (pos 0)

-- The comparison of the sort: by sequence number, then by time.
unfoldable pub comes_before : BotChatMessage → BotChatMessage → Bool
comes_before left right =
    if eqb_ℤ (message_seq left) (message_seq right)
    then ltb_ℤ left.timestamp right.timestamp
    else ltb_ℤ (message_seq left) (message_seq right)

abbrev pub is_new : List (Text × ℤ) → BotChatMessage → Bool
is_new processed m = not (is_processed m.message_id processed)

abbrev pub after_seq : List (Text × ℤ) → ℤ → Option ℤ → BotChatMessage → Bool
after_seq processed last_seq none m = is_new processed m
after_seq processed last_seq (some seq) m = ltb_ℤ last_seq seq

unfoldable pub is_after_checkpoint : List (Text × ℤ) → ℤ → BotChatMessage → Bool
is_after_checkpoint processed last_seq m = after_seq processed last_seq m.seq m

-- `findIndex` and `slice(index + 1)`: what follows the first message with the identifier.
unfoldable pub after_message : Text → List BotChatMessage → Option (List BotChatMessage)
after_message id [] = none
after_message id (m ∷ ms) =
    let rest = after_message id ms in if text_eq m.message_id id then some ms else rest

unfoldable pub filter_by_id :
    List (Text × ℤ) → Option Text → List BotChatMessage → List BotChatMessage
filter_by_id processed none messages = keep (is_new processed) messages
filter_by_id processed (some id) messages =
    if is_truthy id
    then get_or (after_message id messages) (keep (is_new processed) messages)
    else keep (is_new processed) messages

unfoldable pub filter_from :
    List (Text × ℤ) → Option ℤ → Option Text → List BotChatMessage → List BotChatMessage
filter_from processed none last_id messages = filter_by_id processed last_id messages
filter_from processed (some last_seq) last_id messages =
    keep (is_after_checkpoint processed last_seq) messages

unfoldable pub filter_recovered_messages :
    List (Text × ℤ) → List BotChatMessage → Option Checkpoint → List BotChatMessage
unfolding filter_from filter_by_id is_after_checkpoint
filter_recovered_messages processed messages none = filter_by_id processed none messages
filter_recovered_messages processed messages (some c) =
    filter_from processed c.last_seq c.last_message_id messages

abbrev cons_some {ℓ} : {A : Type ℓ} → Option A → List A → List A
cons_some none rest = rest
cons_some (some a) rest = a ∷ rest

abbrev history_limit : Option BootstrapResponse → ℤ
history_limit none = pos 200
history_limit (some b) = get_or b.max_catchup_batch (pos 200)

abbrev pub seq_of_checkpoint : Option Checkpoint → Option ℤ
seq_of_checkpoint none = none
seq_of_checkpoint (some c) = c.last_seq

abbrev conversation_ids : Option BootstrapResponse → List Text
conversation_ids none = []
conversation_ids (some b) = map (λ c. c.conversation_id) b.conversations

unfoldable pub add_each : List Text → List Text → List Text
add_each ids [] = ids
add_each ids (t ∷ ts) = add_each (add t ids) ts

-- The dialogs of the bootstrap, then those of the checkpoints, each once.
unfoldable pub pending_dialogs : Runtime → List Text
unfolding add_each
pending_dialogs s =
    add_each (add_each [] (conversation_ids s.bootstrap))
      (map (λ e. e.1.dialog_id) s.checkpoints.entries)

module _ (setup : Setup) (host : Host) where
  -- Each fetched value is normalised at a tick of its own, with no topic of its own.
  unfoldable pub normalize_fetched : ℕ → List Value → List BotChatMessage
  normalize_fetched tick [] = []
  normalize_fetched tick (v ∷ vs) =
      cons_some
        (normalize_message host.date_parse (trunc_div (host.now tick) 1000) (host.uuid tick) v none)
        (normalize_fetched (suc tick) vs)

  unfoldable pub select_messages :
      Text → ℕ → List (Text × ℤ) → List Value → Option Checkpoint → List BotChatMessage
  select_messages dialog_id tick processed values checkpoint =
      filter_recovered_messages processed
        (sort_by comes_before
          (keep (λ m. text_eq m.dialog_id dialog_id) (normalize_fetched tick values)))
        checkpoint

  unfoldable pub handle_all : List BotChatMessage → M (Unit {0})
  handle_all [] = return tt
  handle_all (m ∷ ms) = do handle_incoming_message setup host m; handle_all ms

  unfoldable pub replay : Text → Option Checkpoint → FetchResult → M (Unit {0})
  unfolding handle_all
  replay dialog_id checkpoint (fetched values) s =
      handle_all (select_messages dialog_id s.tick s.processed values checkpoint)
        (record s { tick = s.tick + length values })
  replay dialog_id checkpoint (http_error status) s =
      (if status == 404 || status == 400 then return tt else throw) s
  replay dialog_id checkpoint failed s = throw s

  unfoldable pub recover_dialog : Text → M (Unit {0})
  unfolding replay
  recover_dialog dialog_id = do
    checkpoint ← read (λ s. get_stored dialog_id s.checkpoints)
    limit ← read (λ s. history_limit s.bootstrap)
    answer ← ask_host (λ tick. host.fetch tick dialog_id (seq_of_checkpoint checkpoint) limit)
    replay dialog_id checkpoint answer

  unfoldable pub recover_each : List Text → M (Unit {0})
  recover_each [] = return tt
  recover_each (dialog_id ∷ ids) = do recover_dialog dialog_id; recover_each ids

  unfoldable pub recover_pending_messages : M (Unit {0})
  unfolding recover_each
  recover_pending_messages s = recover_each (pending_dialogs s) s
