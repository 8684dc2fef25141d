-- ===== src/Examples/Restarted.antt =====
-- A runtime of the extension that receives, recovers and starts again.
use openclaw_bot_chat.Base.{
  ◌≡◌, ◌↔◌, ◌⊎◌, refl, ◌+◌, ◌<◌, ℕ, pos, true, false, none, some, [], ◌∷◌, ◌++◌, ◌==◌, Text, txt,
  text_eq, inl, is_truthy, trim, trim_start, trim_end, is_space, if◌then◌else◌,
}
use openclaw_bot_chat.Values.{
  obj, str, Fields, end, single, item, set_item, has_item, merge_into, read_string, read_record,
}
use openclaw_bot_chat.Extension.Settings.{
  read_number, sender_denied, evaluate_bot_chat_access, to_boolean, default_account_id,
}
use openclaw_bot_chat.Extension.Messages.{
  to_inbound_message, read_message, inbound_metadata, remove_item,
}
use openclaw_bot_chat.Extension.Effects.{
  Checkpoint, ChannelRuntime, published, finished, effects_of, ◌then_do◌, World,
}
use openclaw_bot_chat.Extension.Runtime.{
  handle_inbound, recover_history, outbound_payload, resolve_publish_topic, send_to_channel,
}
use openclaw_bot_chat.Extension.Runtime.Admitted.{Emits, IsLetIn, handle_inbound-Emits_iff}
use openclaw_bot_chat.Extension.Runtime.Denied.{reply_payload, handle_inbound-replies_again}
use openclaw_bot_chat.Extension.Runtime.Recovered.{recovered, recover_history-recovered_again}
use openclaw_bot_chat.Extension.Reply.{
  Dispatcher, emit_message, dispatch_bot_chat_reply, merge_bot_chat_reply_chunks, merge_chunks,
  join_with, send_text, reply_message, build_bot_chat_reply_metadata, reply_rest,
}
use openclaw_bot_chat.Extension.Reply.Sent.{IsFromTo, plugin_topic, send_text-direct}
use openclaw_bot_chat.Extension.Targets.{
  is_line_end, build_bot_chat_direct_topic, build_canonical_bot_chat_direct_topic,
}
use openclaw_bot_chat.Extension.Reply.Ignored.{IsIgnored, emit_message-IsIgnored}
use openclaw_bot_chat.Extension.Reply.Redirected.{reply_message-redirected}
use openclaw_bot_chat.Extension.Starting.{
  BootstrapResponse, Answer, answered, refused, attempts, StartWorld, create_approver,
  bootstrap_bot_with_retry, start,
}
use openclaw_bot_chat.Extension.Starting.Attempts.{
  IsAfter, IsAnswered, bootstrap_bot_with_retry-attempts,
}
use openclaw_bot_chat.Extension.Starting.Failed.{start-failed_stays}
use openclaw_bot_chat.Examples.{user_id, bot_id, dialog}
use openclaw_bot_chat.Examples.Extended.{
  language, env, settings, raw, received, raw_read, user_is_denied, account_is_denied,
}

-- All calls succeed, and the server's history has one message.
abbrev world : World
world = record {
  emit = λ m. true;
  approve = λ a topic m. some false;
  publish = λ topic p. true;
  write = λ path cs. true;
  history = λ c seq limit. some (obj raw ∷ []);
  uuid = txt "id";
  seconds = pos 5;
  millis = pos 5000;
}

abbrev fresh : ChannelRuntime
fresh = record {
  started = false;
  connected = false;
  has_logger = false;
  publish_topic = none;
  publish_topics = [];
  permission_denied_reply = none;
  approver = none;
  state_path = none;
  checkpoints = [];
  qos = pos 1;
  backend_url = none;
  bot_key = none;
}

abbrev known : Checkpoint
known = record {
  channel_id = dialog;
  last_message_id = none;
  last_seq = some (pos 1);
  updated_at = pos 0;
}

abbrev running : ChannelRuntime
running = record fresh {
  started = true;
  connected = true;
  has_logger = true;
  permission_denied_reply = some (txt "no");
  checkpoints = (dialog, known) ∷ [];
  backend_url = some (txt "http://h");
  bot_key = some (txt "k");
}

handle_inbound-Emits_iff_example :
    Emits received
      (effects_of (handle_inbound world language settings env dialog (obj raw) running))
    ↔ ((to_inbound_message language (obj raw) dialog ≡ some received)
        × IsLetIn world running dialog received
            (evaluate_bot_chat_access language settings env received))
handle_inbound-Emits_iff_example =
    handle_inbound-Emits_iff world language settings env dialog (obj raw) running received refl

handle_inbound-replies_again_example :
    (handle_inbound world language settings env dialog (obj raw) running
      ≡ finished running (
          published dialog (reply_payload world language dialog (txt "no") user_id sender_denied)
          ∷ []))
    × (handle_inbound world language settings env dialog
          (obj (reply_payload world language dialog (txt "no") user_id sender_denied))
          running
        ≡ finished running (
            published dialog
              (reply_payload world language dialog (txt "no") default_account_id sender_denied)
            ∷ []))
unfolding is_truthy trim trim_start trim_end is_space
handle_inbound-replies_again_example =
    handle_inbound-replies_again world language settings env dialog (txt "no") running refl refl
      refl (refl, refl) (λ p. refl) (obj raw) received user_id raw_read user_is_denied (refl, refl)
      account_is_denied

recover_history-recovered_again_example :
    (recover_history world language end running then_do recover_history world language end)
    ≡ finished running (
        recovered language (λ c seq. obj raw ∷ []) running.checkpoints
        ++ recovered language (λ c seq. obj raw ∷ []) running.checkpoints)
recover_history-recovered_again_example =
    recover_history-recovered_again language world (λ m. refl) running end (λ c seq. obj raw ∷ [])
      (txt "http://h") (txt "k") refl refl (λ c seq. refl)

abbrev bootstrap_response : BootstrapResponse
bootstrap_response = record { broker = end; publish_topics = []; subscriptions = [] }

-- The second attempt is answered.
abbrev answers : ℕ → Answer
answers n = if n == 2 then answered bootstrap_response else refused (txt "busy")

abbrev start_world : StartWorld
start_world = record {
  world = world;
  bootstrap = answers;
  imports = λ path. none;
  read = λ path. none;
  join = λ dir name. dir ++ name;
}

bootstrap_bot_with_retry-attempts_example :
    (n : ℕ) × (n < attempts)
    × IsAfter answers (bootstrap_bot_with_retry answers) n
    × ((n + 1 ≡ attempts) ⊎ IsAnswered (answers (n + 1)))
bootstrap_bot_with_retry-attempts_example = bootstrap_bot_with_retry-attempts answers

-- The first start has no settings, the second has some.
start-failed_stays_example :
    start start_world language settings (record fresh { started = true; has_logger = true })
    ≡ finished (record fresh { started = true; has_logger = true }) []
unfolding start create_approver item to_boolean read_string
start-failed_stays_example =
    start-failed_stays start_world start_world language end settings fresh refl

-- The host's agent answers every message.
abbrev dispatcher : Dispatcher
dispatcher context = some (str (txt "yes ") ∷ str (txt "yes") ∷ [])

abbrev sent_reply : Fields
sent_reply = outbound_payload world (reply_message bot_id received (txt "yes")) (txt "x")

emit_message-IsIgnored_example :
    IsIgnored world language bot_id (some dispatcher) sent_reply dialog running
unfolding emit_message dispatch_bot_chat_reply merge_bot_chat_reply_chunks merge_chunks join_with
    reply_message build_bot_chat_reply_metadata reply_rest remove_item send_to_channel
    resolve_publish_topic text_eq item set_item read_string read_record is_truthy trim trim_start
    trim_end is_space inbound_metadata read_message merge_into read_number
emit_message-IsIgnored_example =
    emit_message-IsIgnored world language bot_id (some dispatcher) (txt "x") dialog sent_reply
      running (refl, refl) received running (inl refl)

reply_message-redirected_example :
    resolve_publish_topic world (reply_message bot_id received (txt "yes")) running ≡ some (txt "x")
unfolding item text_eq read_record has_item is_truthy trim trim_start trim_end is_space
reply_message-redirected_example =
    reply_message-redirected world language bot_id (txt "yes") running raw
      (single (txt "topic") (str (txt "x"))) dialog (txt "x") raw_read refl (refl, tt) refl refl
      (refl, refl)

abbrev note : Fields
note = single (txt "note") (str (txt "n"))

abbrev user_topic : Text
user_topic = plugin_topic world bot_id user_id (txt "hi") running

send_text-direct_example :
    (p : Fields) × (send_text world bot_id (txt "dm:" ++ user_id) (txt "hi") (some note) running
      ≡ finished running (published user_topic p ∷ []))
    × IsFromTo world bot_id user_id (txt "hi") running (some note) user_topic p
unfolding is_truthy trim trim_start trim_end is_space is_line_end build_bot_chat_direct_topic
    build_canonical_bot_chat_direct_topic item text_eq read_string
send_text-direct_example =
    send_text-direct world bot_id user_id (txt "hi") running (some note) refl (λ t p. refl) refl
      (refl, refl) (refl, refl) refl (refl, refl)
