-- ===== src/Examples/Router.antt =====
-- A reply that comes back, and messages with their metadata.
use openclaw_bot_chat.Base.{
  pos, ◌≡◌, ◌↔◌, refl, true, false, none, some, [], ◌∷◌, txt, text_eq, is_truthy, trim, trim_start,
  trim_end, is_space, ltb_ℤ, split, push_front,
}
use openclaw_bot_chat.Values.{
  str, obj, Fields, field, single, item, merge_meta, to_seconds, read_string, read_record,
  read_number, read_timestamp, non_blank,
}
use openclaw_bot_chat.Topics.{build_reply_topic, parse_route, route_of_parts, direct_route, present}
use openclaw_bot_chat.Types.{
  SenderType, RouteTargetType, ContentType, BotChatMessage, BotChatOutgoingMessage,
  normalize_sender_type, normalize_recipient_type, normalize_content_type,
}
use openclaw_bot_chat.Router.Inbound.{
  property, dialog_id_of, from_type_of, from_id_of, recipient_of, complete_recipient, body_of,
  content_kind_of, meta_of, timestamp_of, normalize_record, normalize_message,
}
use openclaw_bot_chat.Router.Mentions.{should_process_message}
use openclaw_bot_chat.Router.Mentioned.{IsFor, should_process_message_iff}
use openclaw_bot_chat.Router.Outbound.{
  outgoing_meta, outgoing_topic, normalize_outgoing_body, to_outgoing_message, to_publish_payload,
}
use openclaw_bot_chat.Router.Echo.{IsReadable, normalize-publish, published_is_ignored}
use openclaw_bot_chat.Examples.{dialog, user_id, bot_id, date_parse, hello, answer}

abbrev sent : BotChatOutgoingMessage
sent = record {
  message_id = txt "r1";
  topic = dialog;
  conversation_id = dialog;
  from_type = SenderType.bot;
  from_id = bot_id;
  to_type = some RouteTargetType.user;
  to_id = some user_id;
  content_type = ContentType.text;
  body = txt "yes";
  meta = none;
  timestamp = pos 8;
}

sent-IsReadable : IsReadable sent hello
unfolding trim trim_start trim_end is_space is_truthy
sent-IsReadable = record {
  message_id = (refl, refl);
  conversation_id = (refl, refl);
  from_id = (refl, refl);
  to_id = (refl, refl);
  body = (refl, refl);
}

abbrev read_back : BotChatMessage
read_back = record {
  message_id = txt "r1";
  dialog_id = dialog;
  from_type = SenderType.bot;
  from_id = bot_id;
  to_type = some RouteTargetType.user;
  to_id = some user_id;
  content_type = ContentType.text;
  body = txt "yes";
  meta = merge_meta (
      none
      ∷ property (txt "topic") (some dialog)
      ∷ property (txt "reply_topic") (build_reply_topic dialog)
      ∷ []);
  timestamp = pos 8;
  seq = none;
}

normalize-publish_example :
    normalize_message date_parse
      (pos 0)
      (txt "f")
      (obj (to_publish_payload sent hello).payload)
      (some dialog)
    ≡ some read_back
unfolding to_seconds ltb_ℤ
normalize-publish_example =
    normalize-publish sent hello date_parse (pos 0) (txt "f") (some dialog) sent-IsReadable

-- The reply to a user's message.
abbrev message_of_reply : BotChatOutgoingMessage
message_of_reply = record sent {
  topic = outgoing_topic answer hello;
  meta = outgoing_meta answer hello ContentType.text;
}

abbrev reply_back : BotChatMessage
reply_back = record read_back {
  meta = merge_meta (
      outgoing_meta answer hello ContentType.text
      ∷ property (txt "topic") (some dialog)
      ∷ property (txt "reply_topic") (build_reply_topic dialog)
      ∷ []);
}

reply_sent : to_outgoing_message (pos 8) (txt "r1") answer hello bot_id ≡ some message_of_reply
unfolding to_outgoing_message normalize_outgoing_body normalize_content_type read_string trim
    trim_start trim_end is_space is_truthy
reply_sent = refl

reply_received :
    normalize_message date_parse
      (pos 0)
      (txt "f")
      (obj (to_publish_payload message_of_reply hello).payload)
      (some dialog)
    ≡ some reply_back
unfolding to_seconds ltb_ℤ
reply_received =
    normalize-publish message_of_reply hello date_parse (pos 0) (txt "f") (some dialog) (record {
      message_id = sent-IsReadable.message_id;
      conversation_id = sent-IsReadable.conversation_id;
      from_id = sent-IsReadable.from_id;
      to_id = sent-IsReadable.to_id;
      body = sent-IsReadable.body;
    })

published_is_ignored_example : should_process_message reply_back (txt "b2") ≡ false
published_is_ignored_example =
    published_is_ignored date_parse (pos 0) (txt "f") (pos 8) (txt "r1") answer hello bot_id
      (txt "b2") (some dialog) reply_back reply_sent reply_received

-- A payload that claims topics of its own.
abbrev claiming : Fields
claiming = field (txt "id") (str (txt "m2")) (
    field (txt "conversation_id") (str dialog) (
      field (txt "from_id") (str user_id) (
        field (txt "body") (str (txt "hi")) (
          single (txt "meta") (
            obj (
              field (txt "topic") (str (txt "t")) (single (txt "reply_topic") (str (txt "r")))))))))

abbrev claimed : BotChatMessage
claimed = record {
  message_id = txt "m2";
  dialog_id = dialog;
  from_type = SenderType.user;
  from_id = user_id;
  to_type = some RouteTargetType.bot;
  to_id = some bot_id;
  content_type = ContentType.text;
  body = txt "hi";
  meta = meta_of claiming (some dialog) dialog;
  timestamp = pos 4;
  seq = none;
}

claimed_received :
    normalize_message date_parse (pos 4) (txt "f") (obj claiming) (some dialog) ≡ some claimed
unfolding normalize_message normalize_record read_record dialog_id_of from_type_of from_id_of
    recipient_of complete_recipient body_of content_kind_of timestamp_of read_number read_timestamp
    read_string non_blank trim trim_start trim_end is_space is_truthy item text_eq parse_route
    route_of_parts direct_route present split push_front normalize_sender_type
    normalize_recipient_type normalize_content_type
claimed_received = refl

abbrev claimed_reply : BotChatOutgoingMessage
claimed_reply = record sent {
  topic = outgoing_topic answer claimed;
  meta = outgoing_meta answer claimed ContentType.text;
}

claimed_sent : to_outgoing_message (pos 8) (txt "r1") answer claimed bot_id ≡ some claimed_reply
unfolding to_outgoing_message normalize_outgoing_body normalize_content_type read_string trim
    trim_start trim_end is_space is_truthy
claimed_sent = refl

-- A group message that mentions the bot.
abbrev mentioning : BotChatMessage
mentioning = record hello {
  dialog_id = txt "chat/group/g1";
  to_type = some RouteTargetType.group;
  to_id = some (txt "g1");
  meta = some (single (txt "normalized_body") (str (txt "hey <@bot:b1>!")));
}

should_process_message_iff_example :
    (should_process_message mentioning bot_id ≡ true) ↔ IsFor bot_id mentioning
should_process_message_iff_example = should_process_message_iff mentioning bot_id
