-- ===== src/Extension/Settings/Senders.antt =====
-- Who may write to a channel: the access check of the extension's runtime.ts.
use openclaw_bot_chat.Base.{
  ◌≡◌, ◌≢◌, ◌↔◌, true, false, ◌||◌, Option, ◌⊎◌, List, [], ◌∷◌, arith, Text, txt, text_eq_iff,
  is_truthy, contains, map, Exists,
}
use openclaw_bot_chat.Values.{Fields, item_of}
use openclaw_bot_chat.Extension.Settings.{
  Language, ChannelMessage, normalize_allow_from_entry, is_bot_chat_sender_allowed, to_boolean,
  normalize_bot_chat_config, granted, sender_allowed, evaluate_bot_chat_access,
}

-- The entry stands for the sender: it is the wildcard, or both have the same normal form.
abbrev pub Names : Text → Text → Type 0
Names user_id entry =
    (normalize_allow_from_entry entry ≡ txt "*")
    ⊎ (normalize_allow_from_entry entry ≡ normalize_allow_from_entry user_id)

-- The list is empty, or it names the sender, whose identifier is not blank.
abbrev pub Admits : List Text → Text → Type 0
Admits entries user_id =
    (entries ≡ []) ⊎ (normalize_allow_from_entry user_id ≢ []) × Exists (Names user_id) entries

named_iff :
    (user_id : Text) (entries : List Text)
    → ((contains (txt "*") (map normalize_allow_from_entry entries)
          || contains (normalize_allow_from_entry user_id) (map normalize_allow_from_entry entries))
        ≡ true)
      ↔ Exists (Names user_id) entries
unfolding contains
named_iff user_id [] = (λ h. cc, λ h. absurd h)
named_iff user_id (e ∷ es) = ground (
  arith,
  named_iff user_id es,
  text_eq_iff (normalize_allow_from_entry e) (txt "*"),
  text_eq_iff (normalize_allow_from_entry e) (normalize_allow_from_entry user_id),
)

truthy_iff : (t : Text) → (is_truthy t ≡ true) ↔ (t ≢ [])
unfolding is_truthy
truthy_iff [] = ground arith
truthy_iff (c ∷ cs) = ground arith

sender_allowed_iff :
    (entries : List Text) (user_id : Text)
    → (sender_allowed entries user_id ≡ true) ↔ Admits entries user_id
unfolding is_bot_chat_sender_allowed
sender_allowed_iff [] user_id = ground arith
sender_allowed_iff (e ∷ es) user_id =
    ground (arith, named_iff user_id (e ∷ es), truthy_iff (normalize_allow_from_entry user_id))

module _ (l : Language) (config : Fields) (env : Text → Option Text)
    (message : ChannelMessage) where
  -- A message is let in exactly when the list of senders is empty or names its sender, and it is not
  -- marked as blocked.
  pub evaluate_bot_chat_access-granted_iff :
      (evaluate_bot_chat_access l config env message ≡ granted) ↔ (
        Admits (normalize_bot_chat_config l config env).allow_from message.user_id
        × (to_boolean (item_of (txt "blocked") message.metadata) ≡ false))
  unfolding evaluate_bot_chat_access
  evaluate_bot_chat_access-granted_iff = ground (
    arith,
    sender_allowed_iff (normalize_bot_chat_config l config env).allow_from message.user_id,
  )
