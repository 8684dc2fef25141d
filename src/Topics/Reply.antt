-- ===== src/Topics/Reply.antt =====
-- Reply topics: the route of a canonical identifier, and that building a topic twice changes nothing.
use openclaw_bot_chat.Base.{
  ◌≡◌, refl, sym, ap, subst, ◌∙◌, true, Option, none, some, List, [], ◌∷◌, ◌++◌, arith, Text, txt,
  text_eq, text_leb_total, is_truthy, split, push_front, split_plain, split-append, split-Avoids,
  Avoids, All,
}
use mathlib.Core.Option.{some-injective}
use openclaw_bot_chat.Topics.Canonical.{AreTold, canonical_direct_dialog_id_comm}
use openclaw_bot_chat.Topics.{
  RouteInfo, no_route, present, slash, direct_route, route_of_parts, parse_route, Peer,
  canonicalize_direct_peers, direct_topic, canonical_direct_dialog_id, group_topic,
  direct_dialog_id, reply_topic_of, build_reply_topic,
}

pub split-group_topic :
    (t : Text) → split slash (group_topic t) ≡ txt "chat" ∷ txt "group" ∷ split slash t
unfolding split push_front
split-group_topic t = refl

split-direct_topic :
    (t : Text) → split slash (txt "chat/dm/" ++ t) ≡ txt "chat" ∷ txt "dm" ∷ split slash t
unfolding split push_front
split-direct_topic t = refl

-- A part of a topic: not empty and with no slash.
abbrev pub IsPart : Text → Type 0
IsPart t = (is_truthy t ≡ true) × Avoids slash t

abbrev pub IsPeer : Peer → Type 0
IsPeer p = IsPart p.kind × IsPart p.id

pub parse_route-group_topic :
    (t : Text)
    → Avoids slash t
    → parse_route (group_topic t) ≡ record no_route { group_id = present t }
unfolding parse_route route_of_parts is_truthy text_eq
parse_route-group_topic t h = rw (split-group_topic t, split_plain slash t h)

pub split-peers :
    (left right : Peer)
    → IsPeer left
    → IsPeer right
    → split slash (direct_topic (left, right))
      ≡ txt "chat" ∷ txt "dm" ∷ left.kind ∷ left.id ∷ right.kind ∷ right.id ∷ []
split-peers left right (lk, li) (rk, ri) = rw (
  split-direct_topic (left.kind ++ slash ∷ (left.id ++ slash ∷ (right.kind ++ slash ∷ right.id))),
  split-append slash left.kind (left.id ++ slash ∷ (right.kind ++ slash ∷ right.id)) lk.1,
  split-append slash left.id (right.kind ++ slash ∷ right.id) li.1,
  split-append slash right.kind right.id rk.1,
  split_plain slash right.id ri.1,
)

-- Reading a direct topic gives its two peers, in their order.
pub parse_route-direct_topic :
    (left right : Peer)
    → IsPeer left
    → IsPeer right
    → parse_route (direct_topic (left, right)) ≡ direct_route left.kind left.id right.kind right.id
unfolding parse_route route_of_parts is_truthy text_eq
parse_route-direct_topic left right p q = rw (split-peers left right p q) refl

abbrev ArePart : Option Text → Type 0
ArePart none = Unit
ArePart (some t) = IsPart t

present-ArePart : (t : Text) → Avoids slash t → ArePart (present t)
unfolding present
present-ArePart t h = ground arith

-- The parts that a route is made of.
record IsRoute (route : RouteInfo) : Type 0 where
  from_type : ArePart route.from_type
  from_id : ArePart route.from_id
  to_type : ArePart route.to_type
  to_id : ArePart route.to_id
  group_id : ArePart route.group_id

abbrev no_route-IsRoute : IsRoute no_route
no_route-IsRoute = record { from_type = tt; from_id = tt; to_type = tt; to_id = tt; group_id = tt }

route_of_parts-IsRoute : (ps : List Text) → All (Avoids slash) ps → IsRoute (route_of_parts ps)
unfolding route_of_parts direct_route
route_of_parts-IsRoute (a ∷ b ∷ c ∷ []) h = ground (arith, present-ArePart c)
route_of_parts-IsRoute (a ∷ b ∷ c ∷ d ∷ e ∷ []) h = ground arith
route_of_parts-IsRoute (a ∷ b ∷ c ∷ d ∷ e ∷ f ∷ []) h =
    ground (arith, present-ArePart c, present-ArePart d, present-ArePart e, present-ArePart f)
route_of_parts-IsRoute _ h = no_route-IsRoute

parse_route-IsRoute : (t : Text) → IsRoute (parse_route t)
unfolding parse_route
parse_route-IsRoute t =
    ground (arith, route_of_parts-IsRoute (split slash t) (split-Avoids slash t), no_route-IsRoute)

canonicalize_direct_peers_idem :
    (left right : Peer)
    → let (first, second) = canonicalize_direct_peers left right in
      canonicalize_direct_peers first second ≡ (first, second)
unfolding canonicalize_direct_peers
canonicalize_direct_peers_idem left right = ground (arith, text_leb_total left.id right.id)

present_of_IsPart : (t : Text) → IsPart t → present t ≡ some t
unfolding present
present_of_IsPart t h = ground arith

pub build_reply_topic-group_topic :
    (t : Text) → IsPart t → build_reply_topic (group_topic t) ≡ some (group_topic t)
unfolding build_reply_topic
build_reply_topic-group_topic t h = rw (parse_route-group_topic t h.1, present_of_IsPart t h)

pub build_reply_topic-direct_topic :
    (left right : Peer)
    → IsPeer left
    → IsPeer right
    → build_reply_topic (direct_topic (left, right)) ≡ some (canonical_direct_dialog_id left right)
unfolding build_reply_topic direct_route
build_reply_topic-direct_topic left right l r = rw (
  parse_route-direct_topic left right l r,
  present_of_IsPart left.kind l.0,
  present_of_IsPart left.id l.1,
  present_of_IsPart right.kind r.0,
  present_of_IsPart right.id r.1,
)

canonicalize_direct_peers-IsPeer :
    (left right : Peer)
    → IsPeer left
    → IsPeer right
    → IsPeer (canonicalize_direct_peers left right).0
      × IsPeer (canonicalize_direct_peers left right).1
unfolding canonicalize_direct_peers
canonicalize_direct_peers-IsPeer left right l r = ground arith

canonical-fixed :
    (left right : Peer)
    → IsPeer left
    → IsPeer right
    → build_reply_topic (canonical_direct_dialog_id left right)
      ≡ some (canonical_direct_dialog_id left right)
unfolding canonical_direct_dialog_id
canonical-fixed left right l r =
    let (first, second) = canonicalize_direct_peers-IsPeer left right l r in
    build_reply_topic-direct_topic (canonicalize_direct_peers left right).0
      (canonicalize_direct_peers left right).1 first second
    ∙ ap (λ p. some (direct_topic p)) (canonicalize_direct_peers_idem left right)

direct_dialog_id-fixed :
    (a b c d : Option Text) (t : Text)
    → ArePart a
    → ArePart b
    → ArePart c
    → ArePart d
    → direct_dialog_id a b c d ≡ some t
    → build_reply_topic t ≡ some t
direct_dialog_id-fixed (some a) (some b) (some c) (some d) t pa pb pc pd e =
    subst (λ u. build_reply_topic u ≡ some u) (some-injective _ _ e)
      (canonical-fixed (record { kind = a; id = b }) (record { kind = c; id = d }) (pa, pb)
        (pc, pd))
direct_dialog_id-fixed (some a) (some b) (some c) none t pa pb pc pd e = cc
direct_dialog_id-fixed _ _ _ _ t pa pb pc pd e = cc

reply_topic_of-fixed :
    (route : RouteInfo) (group : Option Text) (t : Text)
    → IsRoute route
    → ArePart group
    → reply_topic_of route group ≡ some t
    → build_reply_topic t ≡ some t
reply_topic_of-fixed route none t h g e =
    direct_dialog_id-fixed route.from_type route.from_id route.to_type route.to_id t h.from_type
      h.from_id h.to_type h.to_id e
reply_topic_of-fixed route (some id) t h g e =
    subst (λ u. build_reply_topic u ≡ some u) (some-injective _ _ e)
      (build_reply_topic-group_topic id g)

-- A reply topic is its own reply topic: the reply to a reply goes where the reply went.
pub build_reply_topic_idem :
    (dialog_id t : Text) → build_reply_topic dialog_id ≡ some t → build_reply_topic t ≡ some t
unfolding build_reply_topic
build_reply_topic_idem dialog_id t e =
    let h = parse_route-IsRoute dialog_id in
    reply_topic_of-fixed (parse_route dialog_id) (parse_route dialog_id).group_id t h h.group_id e

-- A direct topic and the one with its peers exchanged have one reply topic, the canonical identifier
-- of the two, so both peers meet in the same place: for peers whose kinds and identifiers are not
-- empty and hold no slash, one of whom is a user, bot, channel or system, or whose identifiers
-- differ.
pub build_reply_topic_comm :
    (left right : Peer)
    → IsPeer left
    → IsPeer right
    → AreTold left right
    → (build_reply_topic (direct_topic (left, right))
        ≡ some (canonical_direct_dialog_id left right))
      × (build_reply_topic (direct_topic (right, left))
          ≡ some (canonical_direct_dialog_id left right))
build_reply_topic_comm left right l r told = (
  build_reply_topic-direct_topic left right l r,
  build_reply_topic-direct_topic right left r l
      ∙ ap some (sym (canonical_direct_dialog_id_comm left right told)),
)
