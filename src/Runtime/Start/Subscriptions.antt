-- ===== src/Runtime/Start/Subscriptions.antt =====
-- The subscriptions of a start: every listed and every expected topic, a listed one with the quality
-- of service that it asks for.
use openclaw_bot_chat.Base.{
  ℤ, pos, ◌≡◌, refl, true, ◌||◌, Bool-cases, Option, none, some, inl, inr, List, [], ◌∷◌, ◌++◌,
  arith, Text, txt, text_eq_iff, text_eq_refl, is_truthy, if◌then◌else◌, get_or, All, All-map,
  contains, contains-add,
}
use openclaw_bot_chat.Base.Dict.{get, set, has, get-set, has-set, get_absent}
use openclaw_bot_chat.Types.{BootstrapResponse, ConversationInfo, GroupInfo, Subscription}
use openclaw_bot_chat.Runtime.Approval.{truthy}
use openclaw_bot_chat.Runtime.Start.{
  Topics, add_subscriptions, add_truthy, add_topic_or, expect_groups, expect_conversations,
  autofill, resolve_subscriptions,
}

add_subscriptions-keeps :
    (qos : ℤ) (ss : List Subscription) (topics : Topics) (t : Text)
    → has t topics ≡ true
    → has t (add_subscriptions qos ss topics) ≡ true
unfolding add_subscriptions
add_subscriptions-keeps qos [] topics t h = h
add_subscriptions-keeps qos (s ∷ ss) topics t h = ground (
  arith,
  has-set s.topic t (get_or s.qos qos) topics,
  add_subscriptions-keeps qos ss topics t,
  add_subscriptions-keeps qos ss (set s.topic (get_or s.qos qos) topics) t,
)

add_subscriptions-covers :
    (qos : ℤ) (ss : List Subscription) (topics : Topics)
    → All (λ s. is_truthy s.topic ≡ true → has s.topic (add_subscriptions qos ss topics) ≡ true) ss
unfolding add_subscriptions
add_subscriptions-covers qos [] topics = tt
add_subscriptions-covers qos (s ∷ ss) topics = (
  λ h. rw h (
      add_subscriptions-keeps qos ss (set s.topic (get_or s.qos qos) topics) s.topic
        (rw (has-set s.topic s.topic (get_or s.qos qos) topics, text_eq_refl s.topic) refl)),
  add_subscriptions-covers qos ss _,
)

add_truthy-contains :
    (t j : Text) (expected : List Text)
    → contains j expected ≡ true
    → contains j (add_truthy t expected) ≡ true
add_truthy-contains t j expected h = ground (arith, contains-add t j expected)

add_topic_or-contains :
    (topic : Option Text) (id j : Text) (expected : List Text)
    → contains j expected ≡ true
    → contains j (add_topic_or topic id expected) ≡ true
add_topic_or-contains none id j expected h =
    ground (arith, contains-add (txt "chat/group/" ++ id) j expected)
add_topic_or-contains (some topic) id j expected h = ground (arith, contains-add topic j expected)

-- The topic that a group is expected on: its own, or one of its identifier.
abbrev expected_topic : Option Text → Text → Option Text
expected_topic (some topic) id = some topic
expected_topic none id = if is_truthy id then some (txt "chat/group/" ++ id) else none

-- The topic, if there is one, is in the list.
abbrev IsExpected : Option Text → List Text → Type 0
IsExpected none expected = Unit
IsExpected (some t) expected = contains t expected ≡ true

add_topic_or-IsExpected :
    (topic : Option Text) (id : Text) (expected : List Text)
    → IsExpected (expected_topic topic id) (add_topic_or topic id expected)
add_topic_or-IsExpected none id expected = elim (Bool-cases (is_truthy id)) [
  | inl e ↦
      rw
        (
          e,
          contains-add (txt "chat/group/" ++ id) (txt "chat/group/" ++ id) expected,
          text_eq_refl (txt "chat/group/" ++ id),
        )
        refl
  | inr e ↦ rw e tt
]
add_topic_or-IsExpected (some topic) id expected =
    rw (contains-add topic topic expected, text_eq_refl topic) refl

expect_groups-contains :
    (gs : List GroupInfo) (j : Text) (expected : List Text)
    → contains j expected ≡ true
    → contains j (expect_groups gs expected) ≡ true
unfolding expect_groups
expect_groups-contains [] j expected h = h
expect_groups-contains (g ∷ gs) j expected h =
    expect_groups-contains gs j _ (add_topic_or-contains (truthy g.topic) g.id j expected h)

IsExpected-mono :
    (o : Option Text) (xs ys : List Text)
    → ((j : Text) → contains j xs ≡ true → contains j ys ≡ true)
    → IsExpected o xs
    → IsExpected o ys
IsExpected-mono none xs ys f h = tt
IsExpected-mono (some t) xs ys f h = f t h

expect_groups-covers :
    (gs : List GroupInfo) (expected : List Text)
    → All (λ g. IsExpected (expected_topic (truthy g.topic) g.id) (expect_groups gs expected)) gs
unfolding expect_groups
expect_groups-covers [] expected = tt
expect_groups-covers (g ∷ gs) expected =
    let next = add_topic_or (truthy g.topic) g.id expected in
    (
      IsExpected-mono (expected_topic (truthy g.topic) g.id) next (expect_groups gs next)
          (λ j h. expect_groups-contains gs j next h)
          (add_topic_or-IsExpected (truthy g.topic) g.id expected),
      expect_groups-covers gs next,
    )

expect_conversations-contains :
    (cs : List ConversationInfo) (j : Text) (expected : List Text)
    → contains j expected ≡ true
    → contains j (expect_conversations cs expected) ≡ true
unfolding expect_conversations
expect_conversations-contains [] j expected h = h
expect_conversations-contains (c ∷ cs) j expected h =
    expect_conversations-contains cs j _
      (add_truthy-contains (get_or c.topic c.conversation_id) j expected h)

-- The topic of a conversation, or else its identifier.
abbrev topic_or_id : ConversationInfo → Text
topic_or_id c = get_or c.topic c.conversation_id

expect_conversations-covers :
    (cs : List ConversationInfo) (expected : List Text)
    → All
        (λ c.
          is_truthy (topic_or_id c) ≡ true
          → contains (topic_or_id c) (expect_conversations cs expected) ≡ true)
        cs
unfolding expect_conversations
expect_conversations-covers [] expected = tt
expect_conversations-covers (c ∷ cs) expected =
    let next = add_truthy (topic_or_id c) expected in
    (
      λ h. expect_conversations-contains cs (topic_or_id c) next (
          rw
            (h, contains-add (topic_or_id c) (topic_or_id c) expected, text_eq_refl (topic_or_id c))
            refl),
      expect_conversations-covers cs next,
    )

get-autofill :
    (qos : ℤ) (expected : List Text) (topics : Topics) (t : Text)
    → get t (autofill qos expected topics)
      ≡ (if has t topics then get t topics else if contains t expected then some qos else none)
unfolding autofill contains
get-autofill qos [] topics t = ground (arith, get_absent t topics)
get-autofill qos (j ∷ expected) topics t = ground (
  arith,
  get-autofill qos expected topics t,
  get-autofill qos expected (set j qos topics) t,
  has-set j t qos topics,
  get-set j t qos topics,
  text_eq_iff j t,
)

-- The topics that a bootstrap answer leads to expect, those of its groups and its conversations.
abbrev pub expected_topics : BootstrapResponse → List Text
expected_topics b = expect_conversations b.conversations (expect_groups b.groups [])

abbrev pub default_qos : BootstrapResponse → ℤ
default_qos b = get_or b.broker.qos (pos 1)

-- Which topics a start subscribes to, and with which quality of service: a topic that the bootstrap
-- answer lists, with the one listed for it; one that is only expected, with the broker's default
-- (1 if it has none); no other.
pub get-resolve_subscriptions :
    (b : BootstrapResponse) (t : Text)
    → get t (resolve_subscriptions b) ≡ (
        let listed = add_subscriptions (default_qos b) b.subscriptions [] in
        if has t listed
        then get t listed
        else if contains t (expected_topics b)
        then some (default_qos b)
        else none)
unfolding resolve_subscriptions
get-resolve_subscriptions b t =
    get-autofill (default_qos b) (expected_topics b)
      (add_subscriptions (default_qos b) b.subscriptions []) t

has-autofill :
    (qos : ℤ) (expected : List Text) (topics : Topics) (t : Text)
    → has t (autofill qos expected topics) ≡ (has t topics || contains t expected)
unfolding autofill contains
has-autofill qos [] topics t = ground arith
has-autofill qos (j ∷ expected) topics t = ground (
  arith,
  has-autofill qos expected topics t,
  has-autofill qos expected (set j qos topics) t,
  has-set j t qos topics,
  text_eq_iff j t,
)

-- Subscribed to the topic, if there is one.
abbrev pub IsSubscribed : Topics → Option Text → Type 0
IsSubscribed topics none = Unit
IsSubscribed topics (some t) = has t topics ≡ true

has-resolve_subscriptions :
    (b : BootstrapResponse) (t : Text)
    → contains t (expected_topics b) ≡ true
    → has t (resolve_subscriptions b) ≡ true
unfolding resolve_subscriptions
has-resolve_subscriptions b t h = ground (
  arith,
  has-autofill (default_qos b) (expected_topics b)
      (add_subscriptions (default_qos b) b.subscriptions []) t,
)

IsExpected-IsSubscribed :
    (b : BootstrapResponse) (o : Option Text)
    → IsExpected o (expected_topics b)
    → IsSubscribed (resolve_subscriptions b) o
IsExpected-IsSubscribed b none h = tt
IsExpected-IsSubscribed b (some t) h = has-resolve_subscriptions b t h

-- A start subscribes to each group's topic (to the topic of its identifier if it has none), and to
-- each conversation's topic (or its identifier), if it is not empty.
pub resolve_subscriptions-covers :
    (b : BootstrapResponse)
    → All
        (λ g. IsSubscribed (resolve_subscriptions b) (expected_topic (truthy g.topic) g.id))
        b.groups
      × All
          (λ c.
            is_truthy (topic_or_id c) ≡ true → has (topic_or_id c) (resolve_subscriptions b) ≡ true)
          b.conversations
resolve_subscriptions-covers b = (
  All-map
      (λ g h. IsExpected-IsSubscribed b (expected_topic (truthy g.topic) g.id) (
        IsExpected-mono (expected_topic (truthy g.topic) g.id) _ (expected_topics b)
          (λ j k. expect_conversations-contains b.conversations j _ k) h))
      b.groups (expect_groups-covers b.groups []),
  All-map (λ c h given. has-resolve_subscriptions b (topic_or_id c) (h given)) b.conversations
      (expect_conversations-covers b.conversations (expect_groups b.groups [])),
)
