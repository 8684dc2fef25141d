-- ===== src/Web/Agreed.antt =====
-- The web client and the plugin name a conversation alike: frontend/src/lib/chat.ts and
-- router/message.ts.
use openclaw_bot_chat.Base.{
  ◌≡◌, ◌≢◌, ◌++◌, take, text_eq_iff, refl, ap, sym, ◌∙◌, false, none, some, List, [], ◌∷◌, Text,
  txt, text_eq, text_eq_refl, is_truthy, split_plain, Avoids, arith,
}
use openclaw_bot_chat.Topics.{
  Peer, slash, direct_peer_rank, canonicalize_direct_peers, direct_topic,
  canonical_direct_dialog_id, group_topic, build_reply_topic,
}
use openclaw_bot_chat.Topics.Reply.{
  build_reply_topic-group_topic, build_reply_topic-direct_topic, IsPart, IsPeer, split-peers,
  split-group_topic,
}
use openclaw_bot_chat.Web.{
  conversation_with, bot_type, find_entry, direct, group, chat_route_of_parts, parse_chat_topic,
  get_direct_peer_rank, canonicalize_web_peers, build_direct_topic, conversation_id_of,
  conversation_id_from_topic, Entry, Conversation, build_conversation_from_route,
  build_conversation_from_topic,
}

-- The two kinds of peers that a direct conversation has.
pub data PeerType : Type 0 where
  user bot : PeerType

abbrev pub peer : PeerType → Text → Peer
peer user id = record { kind = txt "user"; id = id }
peer bot id = record { kind = txt "bot"; id = id }

peer-IsPeer : (a : PeerType) (x : Text) → IsPart x → IsPeer (peer a x)
unfolding is_truthy
peer-IsPeer user x h = ((refl, ground arith), h)
peer-IsPeer bot x h = ((refl, ground arith), h)

parse-direct :
    (left right : Peer)
    → IsPeer left
    → IsPeer right
    → parse_chat_topic (direct_topic (left, right)) ≡ direct left right
unfolding parse_chat_topic chat_route_of_parts text_eq
parse-direct left right p q = rw (split-peers left right p q) refl

parse-group : (x : Text) → Avoids slash x → parse_chat_topic (group_topic x) ≡ group x
unfolding parse_chat_topic chat_route_of_parts text_eq
parse-group x h = rw (split-group_topic x, split_plain slash x h) refl

topics_agree :
    (a b : PeerType) (x y : Text)
    → build_direct_topic (peer a x) (peer b y) ≡ canonical_direct_dialog_id (peer a x) (peer b y)
unfolding build_direct_topic canonicalize_web_peers get_direct_peer_rank canonical_direct_dialog_id
    canonicalize_direct_peers direct_peer_rank text_eq
topics_agree user user x y = refl
topics_agree user bot x y = refl
topics_agree bot user x y = refl
topics_agree bot bot x y = refl

-- The web client and the plugin name the conversation of a topic alike, and so that its topics agree:
-- of a direct topic between users and bots, in either order, and of a group's topic, if the
-- identifiers are parts of a topic.
pub conversation_id_from_topic-agrees :
    (a b : PeerType) (x y : Text)
    → IsPart x
    → IsPart y
    → (conversation_id_from_topic (direct_topic (peer a x, peer b y))
        ≡ build_reply_topic (direct_topic (peer a x, peer b y)))
      × (conversation_id_from_topic (group_topic x) ≡ build_reply_topic (group_topic x))
unfolding conversation_id_from_topic
conversation_id_from_topic-agrees a b x y p q =
    let l = peer-IsPeer a x p in
    let r = peer-IsPeer b y q in
    (
      ap conversation_id_of (parse-direct (peer a x) (peer b y) l r)
          ∙ ap some (topics_agree a b x y)
          ∙ sym (build_reply_topic-direct_topic (peer a x) (peer b y) l r),
      ap conversation_id_of (parse-group x p.1) ∙ sym (build_reply_topic-group_topic x p),
    )

-- A user and a bot have one conversation in the web client, whichever of the two their topic names
-- first: it is sent to under the identifier that the plugin has for it, and its target is the bot. The
-- client finds none for another user. The identifiers are parts of a topic.
pub build_conversation_from_topic-of_user :
    (user_id bot_id other_id : Text) (bots groups : List Entry)
    → IsPart user_id
    → IsPart bot_id
    → user_id ≢ other_id
    → let there = direct_topic (peer user user_id, peer bot bot_id) in
      let back = direct_topic (peer bot bot_id, peer user user_id) in
      ((c : Conversation) × (build_conversation_from_topic user_id bots groups there ≡ some c)
        × (build_conversation_from_topic user_id bots groups back ≡ some c)
        × (c.id ≡ there)
        × (c.send_topic ≡ canonical_direct_dialog_id (peer bot bot_id) (peer user user_id))
        × (c.target_id ≡ bot_id))
      × (build_conversation_from_topic other_id bots groups there ≡ none)
unfolding build_conversation_from_topic build_conversation_from_route build_direct_topic
    canonicalize_web_peers get_direct_peer_rank canonical_direct_dialog_id canonicalize_direct_peers
    direct_peer_rank text_eq
build_conversation_from_topic-of_user user_id bot_id other_id bots groups p q h =
    let l = peer-IsPeer user user_id p in
    let r = peer-IsPeer bot bot_id q in
    let there =
      ap (build_conversation_from_route user_id bots groups)
        (parse-direct (peer user user_id) (peer bot bot_id) l r) in
    let back =
      ap (build_conversation_from_route user_id bots groups)
        (parse-direct (peer bot bot_id) (peer user user_id) r l) in
    let found = text_eq_refl user_id in
    let other : (text_eq user_id other_id ≡ false) = ground (arith, text_eq_iff user_id other_id) in
    (
      (
        conversation_with bot_type (build_direct_topic (peer user user_id) (peer bot bot_id)) bot_id
            (user_id ∷ bot_id ∷ []) (txt "Bot " ++ take 8 bot_id) (find_entry bot_id bots),
        there ∙ rw found refl,
        back ∙ rw found refl,
        refl,
        refl,
        refl,
      ),
      ap (build_conversation_from_route other_id bots groups)
            (parse-direct (peer user user_id) (peer bot bot_id) l r)
          ∙ rw other refl,
    )
