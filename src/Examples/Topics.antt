-- ===== src/Examples/Topics.antt =====
-- Two peers and their topics.
use openclaw_bot_chat.Base.{refl, inl, arith, text_eq, is_truthy}
use openclaw_bot_chat.Topics.{Peer, direct_peer_rank}
use openclaw_bot_chat.Topics.Canonical.{AreTold}
use openclaw_bot_chat.Topics.Reply.{IsPeer}
use openclaw_bot_chat.Router.Direct.{user_peer_of, bot_peer_of}
use openclaw_bot_chat.Examples.{user_id, bot_id}

abbrev user_peer : Peer
user_peer = user_peer_of user_id

abbrev bot_peer : Peer
bot_peer = bot_peer_of bot_id

are_told : AreTold user_peer bot_peer
unfolding direct_peer_rank text_eq
are_told = inl (omega arith)

user-IsPeer : IsPeer user_peer
unfolding is_truthy
user-IsPeer = ((refl, ground arith), (refl, ground arith))

bot-IsPeer : IsPeer bot_peer
unfolding is_truthy
bot-IsPeer = ((refl, ground arith), (refl, ground arith))
