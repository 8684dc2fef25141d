-- ===== src/Router/Mentioned.antt =====
-- Which messages a bot answers: `shouldProcessMessage` against a description of its cases, and the
-- mention in a text.
use openclaw_bot_chat.Base.{
  ◌≡◌, refl, sym, subst, ◌↔◌, ◌≢◌, true, false, ◌&&◌, inr, Option, none, some, ◌∷◌, ◌++◌, arith,
  Text, txt, text_eq_iff, is_truthy, Avoids,
}
use openclaw_bot_chat.Types.{SenderType, RouteTargetType, BotChatMessage}
use openclaw_bot_chat.Router.Inbound.{text_of}
use openclaw_bot_chat.Router.Mentions.{
  is_target_bot, is_group_message, mention_mark, is_message_mentioned_for_bot, is_other,
  should_process_message,
}
use openclaw_bot_chat.Router.Scanned.{here, mention_then, mentions_from-plain, mentions_from_iff}
use openclaw_bot_chat.Router.Grouped.{IsInGroup, is_group_message_iff}
use openclaw_bot_chat.Router.Listed.{IsFoundIn, IsMentioned, is_message_mentioned_for_bot_iff}

-- The messages that a bot answers.
pub record IsFor (bot_id : Text) (message : BotChatMessage) : Type 0 where
  pub from_user : message.from_type ≡ SenderType.user
  pub not_own : message.from_id ≢ bot_id
  pub not_to_other :
      (other : Text)
      → message.to_type ≡ some RouteTargetType.bot
      → message.to_id ≡ some other
      → is_truthy other ≡ true
      → other ≡ bot_id
  pub mentioned_in_group : IsInGroup message → IsMentioned bot_id message

-- Nothing is directed to another bot.
not_directed :
    (kind : Option RouteTargetType) (id : Option Text) (bot_id : Text)
    → ((other : Text)
        → kind ≡ some RouteTargetType.bot
        → id ≡ some other
        → is_truthy other ≡ true
        → other ≡ bot_id)
    → (is_target_bot kind && is_other id bot_id) ≡ false
not_directed none id bot_id h = refl
not_directed (some RouteTargetType.bot) none bot_id h = refl
not_directed (some RouteTargetType.bot) (some other) bot_id h =
    ground (arith, h other refl refl, text_eq_iff other bot_id)
not_directed (some RouteTargetType.user) id bot_id h = refl
not_directed (some RouteTargetType.system) id bot_id h = refl
not_directed (some RouteTargetType.group) id bot_id h = refl
not_directed (some RouteTargetType.channel) id bot_id h = refl

IsFor-of_processed :
    (message : BotChatMessage) (bot_id : Text)
    → should_process_message message bot_id ≡ true
    → IsFor bot_id message
unfolding should_process_message
IsFor-of_processed message bot_id h = record {
  from_user = ground arith;
  not_own = ground (arith, text_eq_iff message.from_id bot_id);
  not_to_other = λ other k l t. ground (arith, text_eq_iff other bot_id);
  mentioned_in_group = λ g.
      (is_message_mentioned_for_bot_iff message bot_id).0
        (ground (arith, (is_group_message_iff message).1 g));
}

processed_of_IsFor :
    (message : BotChatMessage) (bot_id : Text)
    → IsFor bot_id message
    → should_process_message message bot_id ≡ true
unfolding should_process_message
processed_of_IsFor message bot_id v =
    let mentioned : is_group_message message ≡ true
        → is_message_mentioned_for_bot message bot_id ≡ true =
      λ g.
        (is_message_mentioned_for_bot_iff message bot_id).1
          (v.mentioned_in_group ((is_group_message_iff message).0 g)) in
    ground (
      arith,
      v.from_user,
      v.not_own,
      not_directed message.to_type message.to_id bot_id v.not_to_other,
      mentioned,
      text_eq_iff message.from_id bot_id,
    )

-- A message passes the filter `shouldProcessMessage` exactly when it is of a user other than the
-- bot, is not directed to another bot, and, in a group, mentions the bot. It is in a group if it is
-- sent to one, its metadata name one, or the topic in its metadata, or else its dialog identifier,
-- is `chat/group/` and a text without a slash, not empty. It mentions the bot if its metadata list
-- the bot's identifier, which is not empty, or if a scan of the normalised body from left to right
-- meets `<@bot:` with the identifier and `>`.
pub should_process_message_iff :
    (message : BotChatMessage) (bot_id : Text)
    → (should_process_message message bot_id ≡ true) ↔ IsFor bot_id message
should_process_message_iff message bot_id =
    (λ h. IsFor-of_processed message bot_id h, λ v. processed_of_IsFor message bot_id v)

mentioned_in :
    (message : BotChatMessage) (pre id post : Text)
    → text_of (txt "normalized_body") message.meta
      ≡ some (pre ++ (mention_mark ++ (id ++ b'>' ∷ post)))
    → Avoids b'<' pre
    → is_truthy id ≡ true
    → Avoids b'>' id
    → is_message_mentioned_for_bot message id ≡ true
mentioned_in message pre id post body plain t h = (is_message_mentioned_for_bot_iff message id).1 (
    inr (
      subst (IsFoundIn id) (sym body) (
        (mentions_from_iff id (pre ++ mention_then id post)).0 (
          rw (mentions_from-plain pre (mention_then id post) plain)
            ((mentions_from_iff id (mention_then id post)).1 (here post (t, h)))))))

-- A mention of a bot in the normalised body is found, and a user's message with it is answered: if
-- the first `<` of the text starts `<@bot:id>`, where `id` is not empty and holds no `>`, then the
-- bot `id` is mentioned, and answers the message if it comes from another, a user, and is not
-- directed to a bot.
pub mention_is_answered :
    (message : BotChatMessage) (pre id post : Text)
    → text_of (txt "normalized_body") message.meta
      ≡ some (pre ++ (mention_mark ++ (id ++ b'>' ∷ post)))
    → Avoids b'<' pre
    → is_truthy id ≡ true
    → Avoids b'>' id
    → message.from_type ≡ SenderType.user
    → message.from_id ≢ id
    → message.to_type ≢ some RouteTargetType.bot
    → (is_message_mentioned_for_bot message id ≡ true) × (should_process_message message id ≡ true)
mention_is_answered message pre id post body plain t h user other direct =
    let mentioned = mentioned_in message pre id post body plain t h in
    (
      mentioned,
      processed_of_IsFor message id (record {
        from_user = user;
        not_own = other;
        not_to_other = λ to k. absurd (direct k);
        mentioned_in_group = λ g. (is_message_mentioned_for_bot_iff message id).0 mentioned;
      }),
    )
