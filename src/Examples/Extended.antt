-- ===== src/Examples/Extended.antt =====
-- A channel of the extension: its targets, its list of senders, and messages of one user.
use openclaw_bot_chat.Base.{
  ◌≡◌, ◌↔◌, refl, false, none, some, Option, [], Text, txt, text_eq, is_truthy, starts_with, ◌++◌,
  trim, trim_start, trim_end, is_space, contains,
}
use openclaw_bot_chat.Values.{
  Value, str, obj, arr, cons, nil, Fields, field, item, item_of, single, read_string, read_record,
}
use openclaw_bot_chat.Extension.Targets.{
  parse_bot_chat_target, target_id_required, normalize_bot_chat_target, direct_match, matched,
  after_word, lower_unit, is_line_end,
}
use openclaw_bot_chat.Extension.Targets.Normal.{normalize_bot_chat_target-kinds}
use openclaw_bot_chat.Extension.Targets.Required.{parse_bot_chat_target-ne_id_required}
use openclaw_bot_chat.Extension.Settings.{
  Language, ChannelMessage, granted, normalize_bot_chat_config, normalize_allow_from_entries,
  normalize_allow_from_entry, without_word, is_bot_chat_sender_allowed, sender_allowed,
  evaluate_bot_chat_access, to_boolean, default_account_id,
}
use openclaw_bot_chat.Extension.Settings.Senders.{Admits, evaluate_bot_chat_access-granted_iff}
use openclaw_bot_chat.Extension.Messages.{read_message, inbound_metadata, to_inbound_message}
use openclaw_bot_chat.Examples.{user_id, lower, dialog}

abbrev text_of : Value → Text
text_of (str t) = t
text_of _ = []

abbrev pub language : Language
language = record { number = λ t. none; lower = lower; text_of = text_of }

abbrev pub env : Text → Option Text
env name = none

normalize_bot_chat_target-kinds_example :
    (normalize_bot_chat_target (txt "direct:" ++ txt "g1") ≡ some (txt "dm:" ++ txt "g1"))
    × (normalize_bot_chat_target (txt "user:" ++ txt "g1") ≡ some (txt "dm:" ++ txt "g1"))
    × (normalize_bot_chat_target (txt "conversation:" ++ txt "g1")
        ≡ some (txt "channel:" ++ txt "g1"))
    × (normalize_bot_chat_target (txt "group:" ++ txt "g1")
        ≡ some (txt "channel:chat/group/" ++ txt "g1"))
    × (normalize_bot_chat_target (txt "dm:u1") ≡ some (txt "dm:u1"))
unfolding normalize_bot_chat_target parse_bot_chat_target direct_match matched after_word lower_unit
    is_truthy trim trim_start trim_end is_space is_line_end starts_with
normalize_bot_chat_target-kinds_example =
    normalize_bot_chat_target-kinds (txt "g1") (refl, refl) refl (txt " User: u1 ") refl refl refl
      refl

parse_bot_chat_target-ne_id_required_example :
    ¬ (parse_bot_chat_target (txt "dm: ") ≡ target_id_required)
parse_bot_chat_target-ne_id_required_example = parse_bot_chat_target-ne_id_required (txt "dm: ")

-- Only the user u2 may write.
abbrev pub settings : Fields
settings =
    field (txt "allowFrom") (arr (cons (str (txt "User: u2")) nil))
      (single (txt "permissionDeniedReply") (str (txt "no")))

abbrev pub raw : Fields
raw = field (txt "from") (obj (single (txt "id") (str user_id))) (
    single (txt "content") (
      obj (
        field (txt "body") (str (txt "hi"))
          (single (txt "meta") (obj (single (txt "topic") (str (txt "x"))))))))

abbrev pub received : ChannelMessage
received = record {
  channel_id = dialog;
  user_id = user_id;
  text = txt "hi";
  metadata = some (inbound_metadata (read_message language raw dialog) dialog);
}

pub raw_read : to_inbound_message language (obj raw) dialog ≡ some received
unfolding to_inbound_message read_message item text_eq read_string read_record is_truthy trim
    trim_start trim_end is_space
raw_read = refl

evaluate_bot_chat_access-granted_iff_example :
    (evaluate_bot_chat_access language settings env received ≡ granted) ↔ (
      Admits (normalize_bot_chat_config language settings env).allow_from user_id
      × (to_boolean (item_of (txt "blocked") received.metadata) ≡ false))
evaluate_bot_chat_access-granted_iff_example =
    evaluate_bot_chat_access-granted_iff language settings env received

pub user_is_denied :
    sender_allowed (normalize_bot_chat_config language settings env).allow_from user_id ≡ false
unfolding normalize_bot_chat_config normalize_allow_from_entries item text_eq
    normalize_allow_from_entry without_word after_word lower_unit is_bot_chat_sender_allowed
    contains is_truthy trim trim_start trim_end is_space
user_is_denied = refl

pub account_is_denied :
    sender_allowed (normalize_bot_chat_config language settings env).allow_from default_account_id
    ≡ false
unfolding normalize_bot_chat_config normalize_allow_from_entries item text_eq
    normalize_allow_from_entry without_word after_word lower_unit is_bot_chat_sender_allowed
    contains is_truthy trim trim_start trim_end is_space
account_is_denied = refl
