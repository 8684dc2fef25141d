-- ===== src/Topics/Canonical.antt =====
-- The canonical identifier of a direct dialog does not depend on who writes first.
use openclaw_bot_chat.Base.{
  ◌≡◌, ap, ◌≢◌, ◌<◌, ◌⊎◌, arith, Text, txt, text_eq_iff, text_leb_total, text_leb_antisymm,
}
use openclaw_bot_chat.Topics.{
  Peer, direct_peer_rank, canonicalize_direct_peers, direct_topic, canonical_direct_dialog_id,
}

told_by_rank :
    (a b : Text) → direct_peer_rank a < 4 → direct_peer_rank a ≡ direct_peer_rank b → a ≡ b
unfolding direct_peer_rank
told_by_rank a b h e = ground (
  arith,
  text_eq_iff a (txt "user"),
  text_eq_iff a (txt "bot"),
  text_eq_iff a (txt "channel"),
  text_eq_iff a (txt "system"),
  text_eq_iff b (txt "user"),
  text_eq_iff b (txt "bot"),
  text_eq_iff b (txt "channel"),
  text_eq_iff b (txt "system"),
)

-- One peer is of a known kind, or the identifiers differ.
abbrev pub AreTold : Peer → Peer → Type 0
AreTold left right = (direct_peer_rank left.kind < 4) ⊎ (left.id ≢ right.id)

canonicalize_direct_peers_comm :
    (left right : Peer)
    → AreTold left right
    → canonicalize_direct_peers left right ≡ canonicalize_direct_peers right left
unfolding canonicalize_direct_peers
canonicalize_direct_peers_comm left right told = ground (
  arith,
  told_by_rank left.kind right.kind,
  text_leb_total left.id right.id,
  text_leb_total right.id left.id,
  text_leb_antisymm left.id right.id,
)

-- Both peers of a direct dialog compute the same identifier, whoever is taken first, if one of them
-- is a user, bot, channel or system, or their identifiers differ.
pub canonical_direct_dialog_id_comm :
    (left right : Peer)
    → AreTold left right
    → canonical_direct_dialog_id left right ≡ canonical_direct_dialog_id right left
unfolding canonical_direct_dialog_id
canonical_direct_dialog_id_comm left right told =
    ap direct_topic (canonicalize_direct_peers_comm left right told)
