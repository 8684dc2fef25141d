-- ===== src/Examples/Handling.antt =====
-- The run of a message from its arrival to its mark.
use openclaw_bot_chat.Base.{◌≡◌, refl, false, some}
use openclaw_bot_chat.Base.{
  text_eq, is_truthy, is_space, trim_start, trim_end, trim, push_front, split, starts_with,
}
use openclaw_bot_chat.Base.{trunc_div, ltb_ℤ}
use openclaw_bot_chat.Base.Dict.{get, set, has, contains, add}
use openclaw_bot_chat.Values.{
  item, set_item, read_record, non_blank, read_string, read_number, merge_into, merge_all,
  merge_meta,
}
use openclaw_bot_chat.Topics.{
  present, direct_route, route_of_parts, parse_route, direct_peer_rank, canonicalize_direct_peers,
  canonical_direct_dialog_id, build_reply_topic,
}
use openclaw_bot_chat.Permissions.{
  resolve_action_permissions, normalize_allow_list, allow_list_value, deny, is_refused,
  check_channel, check_permission,
}
use openclaw_bot_chat.Types.{normalize_content_type}
use openclaw_bot_chat.Router.Mentions.{
  is_group_message, should_process_message, is_message_mentioned_for_bot, mentioned_bot_ids,
  add_mentions,
}
use openclaw_bot_chat.Router.Context.{
  IncomingMessageRoute, direct_context, channel_context, group_context,
  resolve_channel_context_from_dialog, resolve_channel_context, route_incoming_message,
}
use openclaw_bot_chat.Router.Outbound.{
  normalize_outgoing_body, normalize_outgoing_asset_meta, outgoing_meta, outgoing_topic,
  to_outgoing_message, to_publish_payload,
}
use openclaw_bot_chat.Channels.{
  channel_scope_key, get_state, track_dialog, set_session, get_session, set_checkpoint,
  get_checkpoint,
}
use openclaw_bot_chat.Stores.{
  done, flush, get_or_create, set_session_id, get_stored, update, get_session_id,
}
use openclaw_bot_chat.Runtime.Processed.{
  recent_message_cache_size, mark_within, mark_processed, is_processed,
}
use openclaw_bot_chat.Runtime.Approval.{decide, ask_approver, resolve_permission_approval}
use openclaw_bot_chat.Runtime.Reply.{
  publish_connected, dispatch_reply, dispatch_if_any, reply, notify,
}
use openclaw_bot_chat.Runtime.Saving.{
  build_dialog_info, checkpoint_of, remember_session, save_checkpoint, mark, known_checkpoint,
  open_session, conclude,
}
use openclaw_bot_chat.Runtime.Task.{
  ask_agent, send_answer, answer_in, answer_message, finish_denied, finish_approval, run_permitted,
  run_for, run_task, admit, handle_incoming_message,
}
use openclaw_bot_chat.Runtime.State.{Runtime}
use openclaw_bot_chat.Examples.{bot_id, config, lower, hello, host, setup, closed_setup, idle}

abbrev pub handled : Runtime
handled = (handle_incoming_message setup host hello idle).0

pub handled_runs : (handle_incoming_message setup host hello idle).1 ≡ done tt
unfolding text_eq is_truthy is_space trim_start trim_end trim push_front split starts_with trunc_div
    ltb_ℤ get set has contains add item set_item read_record non_blank read_string read_number
    merge_into merge_all merge_meta present direct_route route_of_parts parse_route direct_peer_rank
    canonicalize_direct_peers canonical_direct_dialog_id build_reply_topic
    resolve_action_permissions normalize_allow_list allow_list_value deny is_refused check_channel
    check_permission normalize_content_type is_group_message should_process_message
    is_message_mentioned_for_bot mentioned_bot_ids add_mentions direct_context channel_context
    group_context resolve_channel_context_from_dialog resolve_channel_context route_incoming_message
    normalize_outgoing_body normalize_outgoing_asset_meta outgoing_meta outgoing_topic
    to_outgoing_message to_publish_payload channel_scope_key get_state track_dialog set_session
    get_session set_checkpoint get_checkpoint flush get_or_create set_session_id get_stored update
    get_session_id recent_message_cache_size mark_within mark_processed is_processed
    build_dialog_info checkpoint_of decide ask_approver resolve_permission_approval
    publish_connected dispatch_reply dispatch_if_any reply notify remember_session save_checkpoint
    mark known_checkpoint open_session ask_agent conclude send_answer answer_in answer_message
    finish_denied finish_approval run_permitted run_for run_task admit handle_incoming_message
handled_runs = refl

abbrev pub hello_route : IncomingMessageRoute
hello_route = route_incoming_message lower hello bot_id config

abbrev pub denied_route : IncomingMessageRoute
denied_route = route_incoming_message lower hello bot_id (record config { enabled = false })

pub denied_admitted : admit closed_setup host hello idle ≡ some denied_route
unfolding admit should_process_message is_group_message is_processed has is_truthy text_eq item
    read_string parse_route route_of_parts direct_route split push_front present
denied_admitted = refl

pub denied_refused : denied_route.permission.allowed ≡ false
unfolding route_incoming_message check_permission deny
denied_refused = refl
