-- ===== src/Examples/Permitted.antt =====
-- A configuration with an allowlist of users.
use openclaw_bot_chat.Base.{◌≡◌, ◌↔◌, true, none, some, txt}
use openclaw_bot_chat.Values.{Value, undefined, str, arr, cons, nil}
use openclaw_bot_chat.Permissions.{
  PermissionContext, PermissionScopedBotConfig, check_permission, user_not_allowed, send_message,
}
use openclaw_bot_chat.Permissions.Check.{
  Permitted, Refuses, check_permission-allowed_iff, check_permission-code_iff,
}
use openclaw_bot_chat.Examples.{user_id, bot_id, lower}

abbrev users : Value
users = arr (cons (str (txt " u2 ")) (cons (str (txt "u3")) (cons (str (txt "u2")) nil)))

abbrev config : PermissionScopedBotConfig
config = record {
  id = some bot_id;
  enabled = true;
  channels = undefined;
  users = users;
  group_policy = none;
  actions = none;
}

abbrev context : PermissionContext
context = record {
  user_id = user_id;
  channel_id = user_id;
  bot_id = bot_id;
  user_name = none;
  channel_name = none;
  channel_type = none;
}

check_permission-allowed_iff_example :
    ((check_permission lower send_message context config).allowed ≡ true)
    ↔ Permitted lower send_message context config
check_permission-allowed_iff_example =
    check_permission-allowed_iff lower send_message context config

check_permission-code_iff_example :
    ((check_permission lower send_message context config).code ≡ some user_not_allowed)
    ↔ Refuses lower send_message context config user_not_allowed
check_permission-code_iff_example =
    check_permission-code_iff lower send_message context config user_not_allowed
