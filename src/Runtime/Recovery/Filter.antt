-- ===== src/Runtime/Recovery/Filter.antt =====
-- Which fetched messages of a dialog are handled, and in which order.
use openclaw_bot_chat.Base.{
  ℕ, ℤ, pos, ◌≤ℤ◌, ◌<ℤ◌, ltb_ℤ_iff, eqb_ℤ_iff, ◌≡◌, ◌≢◌, subst, ◌⊎◌, ◌↔◌, Bool, true, false,
  Bool-cases, Option, none, some, inl, inr, List, [], ◌∷◌, arith, Text, text_eq, text_eq_iff,
  is_truthy, get_or, All, All-map, All-keep, keep, insert_by, sort_by, Exists,
}
use openclaw_bot_chat.Base.Dict.{has}
use openclaw_bot_chat.Runtime.Processed.{is_processed}
use mathlib.Core.Option.{some-injective}
use openclaw_bot_chat.Values.{Value}
use openclaw_bot_chat.Types.{BotChatMessage, Checkpoint}
use openclaw_bot_chat.Runtime.State.{Setup, Host}
use openclaw_bot_chat.Runtime.Recovery.{
  message_seq, comes_before, is_new, after_seq, is_after_checkpoint, after_message, filter_by_id,
  filter_from, filter_recovered_messages, normalize_fetched, select_messages,
}

abbrev pub number_of : BotChatMessage → ℤ
number_of m = get_or m.seq (pos 0)

-- The first message has the smaller sequence number, or the same and a time that is not later.
abbrev pub Precedes : BotChatMessage → BotChatMessage → Type 0
Precedes m n =
    (number_of m <ℤ number_of n) ⊎ (number_of m ≡ number_of n) × (m.timestamp ≤ℤ n.timestamp)

abbrev pub IsOrdered : List BotChatMessage → Type 0
IsOrdered [] = Unit
IsOrdered (m ∷ ms) = All (Precedes m) ms × IsOrdered ms

-- Each message comes, by the code's comparison, after none of those behind it.
abbrev IsSorted : List BotChatMessage → Type 0
IsSorted [] = Unit
IsSorted (m ∷ ms) = All (λ n. comes_before n m ≡ false) ms × IsSorted ms

comes_before_trans :
    (a b c : BotChatMessage)
    → comes_before b a ≡ false
    → comes_before c b ≡ false
    → comes_before c a ≡ false
unfolding comes_before
comes_before_trans a b c h k = ground (
  arith,
  eqb_ℤ_iff (message_seq b) (message_seq a),
  eqb_ℤ_iff (message_seq c) (message_seq b),
  eqb_ℤ_iff (message_seq c) (message_seq a),
  ltb_ℤ_iff (message_seq b) (message_seq a),
  ltb_ℤ_iff (message_seq c) (message_seq b),
  ltb_ℤ_iff (message_seq c) (message_seq a),
  ltb_ℤ_iff b.timestamp a.timestamp,
  ltb_ℤ_iff c.timestamp b.timestamp,
  ltb_ℤ_iff c.timestamp a.timestamp,
)

comes_before-asymm : (a b : BotChatMessage) → comes_before a b ≡ true → comes_before b a ≡ false
unfolding comes_before
comes_before-asymm a b h = ground (
  arith,
  eqb_ℤ_iff (message_seq a) (message_seq b),
  eqb_ℤ_iff (message_seq b) (message_seq a),
  ltb_ℤ_iff (message_seq a) (message_seq b),
  ltb_ℤ_iff (message_seq b) (message_seq a),
  ltb_ℤ_iff a.timestamp b.timestamp,
  ltb_ℤ_iff b.timestamp a.timestamp,
)

module _ {ℓ κ} {A : Type ℓ} (P : A → Type κ) (before : A → A → Bool) where
  All-insert_by : (x : A) (xs : List A) → P x → All P xs → All P (insert_by before x xs)
  unfolding insert_by
  All-insert_by x [] p h = (p, tt)
  All-insert_by x (y ∷ ys) p (q, h) = ground (arith, All-insert_by x ys p h)

IsSorted-insert_by :
    (m : BotChatMessage) (ms : List BotChatMessage)
    → IsSorted ms
    → IsSorted (insert_by comes_before m ms)
unfolding insert_by
IsSorted-insert_by m [] h = (tt, tt)
IsSorted-insert_by m (n ∷ ns) (below, h) = elim (Bool-cases (comes_before n m)) [
  | inl e ↦ rw e (
    All-insert_by (λ k. comes_before k n ≡ false) comes_before m ns (comes_before-asymm n m e)
        below,
    IsSorted-insert_by m ns h,
  )
  | inr e ↦ rw e ((e, All-map (λ k before. comes_before_trans m n k e before) ns below), (below, h))
]

IsSorted-sort_by : (ms : List BotChatMessage) → IsSorted (sort_by comes_before ms)
unfolding sort_by
IsSorted-sort_by [] = tt
IsSorted-sort_by (m ∷ ms) = IsSorted-insert_by m (sort_by comes_before ms) (IsSorted-sort_by ms)

IsSorted-keep :
    (test : BotChatMessage → Bool) (ms : List BotChatMessage)
    → IsSorted ms
    → IsSorted (keep test ms)
IsSorted-keep test [] h = tt
IsSorted-keep test (m ∷ ms) (below, h) = elim (Bool-cases (test m)) [
  | inl e ↦ rw e (All-keep (λ n. comes_before n m ≡ false) test ms below, IsSorted-keep test ms h)
  | inr e ↦ rw e (IsSorted-keep test ms h)
]

-- What follows a message, if it is there, and otherwise a list of the same kind.
IsSorted-after_message :
    (id : Text) (ms others : List BotChatMessage)
    → IsSorted ms
    → IsSorted others
    → IsSorted (get_or (after_message id ms) others)
unfolding after_message
IsSorted-after_message id [] others h k = k
IsSorted-after_message id (m ∷ ms) others (below, h) k =
    elim (Bool-cases (text_eq m.message_id id)) [
      | inl e ↦ rw e h
      | inr e ↦ rw e (IsSorted-after_message id ms others h k)
    ]

IsSorted-filter_by_id :
    (processed : List (Text × ℤ)) (id : Option Text) (ms : List BotChatMessage)
    → IsSorted ms
    → IsSorted (filter_by_id processed id ms)
unfolding filter_by_id
IsSorted-filter_by_id processed none ms h = IsSorted-keep (is_new processed) ms h
IsSorted-filter_by_id processed (some id) ms h = elim (Bool-cases (is_truthy id)) [
  | inl e ↦ rw e (
      IsSorted-after_message id ms (keep (is_new processed) ms) h
        (IsSorted-keep (is_new processed) ms h))
  | inr e ↦ rw e (IsSorted-keep (is_new processed) ms h)
]

IsSorted-filter_from :
    (processed : List (Text × ℤ)) (seq : Option ℤ) (id : Option Text) (ms : List BotChatMessage)
    → IsSorted ms
    → IsSorted (filter_from processed seq id ms)
unfolding filter_from
IsSorted-filter_from processed none id ms h = IsSorted-filter_by_id processed id ms h
IsSorted-filter_from processed (some seq) id ms h =
    IsSorted-keep (is_after_checkpoint processed seq) ms h

IsSorted-filter :
    (processed : List (Text × ℤ)) (ms : List BotChatMessage) (checkpoint : Option Checkpoint)
    → IsSorted ms
    → IsSorted (filter_recovered_messages processed ms checkpoint)
unfolding filter_recovered_messages
IsSorted-filter processed ms none h = IsSorted-filter_by_id processed none ms h
IsSorted-filter processed ms (some c) h =
    IsSorted-filter_from processed c.last_seq c.last_message_id ms h

Precedes-of_sorted : (m n : BotChatMessage) → comes_before n m ≡ false → Precedes m n
unfolding comes_before
Precedes-of_sorted m n h = ground (
  arith,
  eqb_ℤ_iff (message_seq n) (message_seq m),
  ltb_ℤ_iff (message_seq n) (message_seq m),
  ltb_ℤ_iff n.timestamp m.timestamp,
)

IsOrdered-of_sorted : (ms : List BotChatMessage) → IsSorted ms → IsOrdered ms
IsOrdered-of_sorted [] h = tt
IsOrdered-of_sorted (m ∷ ms) (below, h) =
    (All-map (Precedes-of_sorted m) ms below, IsOrdered-of_sorted ms h)

-- The messages that a recovery handles come in the order of their sequence numbers, a missing one
-- counting as 0, and of their times where these are equal, whatever the order of the history and
-- whatever the checkpoint.
pub select_messages-IsOrdered :
    (setup : Setup) (host : Host) (dialog_id : Text) (tick : ℕ) (processed : List (Text × ℤ))
    (values : List Value) (checkpoint : Option Checkpoint)
    → IsOrdered (select_messages setup host dialog_id tick processed values checkpoint)
unfolding select_messages
select_messages-IsOrdered setup host dialog_id tick processed values checkpoint =
    let own =
      keep (λ m. text_eq m.dialog_id dialog_id) (normalize_fetched setup host tick values) in
    IsOrdered-of_sorted _
      (IsSorted-filter processed (sort_by comes_before own) checkpoint (IsSorted-sort_by own))

abbrev pub IsIn : BotChatMessage → List BotChatMessage → Type 0
IsIn m = Exists (λ n. n ≡ m)

IsIn-keep :
    (test : BotChatMessage → Bool) (m : BotChatMessage) (ms : List BotChatMessage)
    → IsIn m (keep test ms) ↔ (IsIn m ms × (test m ≡ true))
IsIn-keep test m [] = ground arith
IsIn-keep test m (n ∷ ns) = ground (arith, IsIn-keep test m ns)

IsIn-insert_by :
    (before : BotChatMessage → BotChatMessage → Bool) (m n : BotChatMessage)
    (ns : List BotChatMessage)
    → IsIn m (insert_by before n ns) ↔ ((n ≡ m) ⊎ IsIn m ns)
unfolding insert_by
IsIn-insert_by before m n [] = ground arith
IsIn-insert_by before m n (k ∷ ks) = ground (arith, IsIn-insert_by before m n ks)

IsIn-sort_by :
    (before : BotChatMessage → BotChatMessage → Bool) (m : BotChatMessage)
    (ms : List BotChatMessage)
    → IsIn m (sort_by before ms) ↔ IsIn m ms
unfolding sort_by
IsIn-sort_by before m [] = ground arith
IsIn-sort_by before m (n ∷ ns) =
    ground (arith, IsIn-insert_by before m n (sort_by before ns), IsIn-sort_by before m ns)

IsIn-filter_from :
    (processed : List (Text × ℤ)) (seq : Option ℤ) (id : Option Text) (m : BotChatMessage)
    (ms : List BotChatMessage) {last_seq : ℤ}
    → seq ≡ some last_seq
    → IsIn m (filter_from processed seq id ms)
      ↔ (IsIn m ms × (is_after_checkpoint processed last_seq m ≡ true))
unfolding filter_from
IsIn-filter_from processed none id m ms e = cc
IsIn-filter_from processed (some seq) id m ms e =
    subst
      (λ n.
        IsIn m (keep (is_after_checkpoint processed seq) ms)
        ↔ (IsIn m ms × (is_after_checkpoint processed n m ≡ true)))
      (some-injective _ _ e) (IsIn-keep (is_after_checkpoint processed seq) m ms)

-- The message has a number beyond the checkpoint's, or none and an identifier that was not marked as
-- processed.
abbrev pub IsBeyond : List (Text × ℤ) → ℤ → Option ℤ → Text → Type 0
IsBeyond processed last_seq none id = All (λ e. e.0 ≢ id) processed
IsBeyond processed last_seq (some seq) id = last_seq <ℤ seq

unprocessed_iff :
    (id : Text) (processed : List (Text × ℤ))
    → (has id processed ≡ false) ↔ All (λ e. e.0 ≢ id) processed
unfolding has
unprocessed_iff id [] = ground arith
unprocessed_iff id ((j, time) ∷ es) = ground (arith, text_eq_iff j id, unprocessed_iff id es)

is_after_checkpoint_iff :
    (processed : List (Text × ℤ)) (last_seq : ℤ) (seq : Option ℤ) (m : BotChatMessage)
    → (after_seq processed last_seq seq m ≡ true) ↔ IsBeyond processed last_seq seq m.message_id
unfolding is_processed
is_after_checkpoint_iff processed last_seq none m =
    ground (arith, unprocessed_iff m.message_id processed)
is_after_checkpoint_iff processed last_seq (some seq) m = ltb_ℤ_iff last_seq seq

-- After a checkpoint with a sequence number, a recovery handles exactly those fetched messages of
-- the dialog that have a greater number, or none and an identifier that is not among the processed.
pub select_messages_iff :
    (setup : Setup) (host : Host) (dialog_id : Text) (tick : ℕ) (processed : List (Text × ℤ))
    (values : List Value) (checkpoint : Checkpoint) (m : BotChatMessage) {last_seq : ℤ}
    → checkpoint.last_seq ≡ some last_seq
    → IsIn m (select_messages setup host dialog_id tick processed values (some checkpoint)) ↔ (
        IsIn m (normalize_fetched setup host tick values)
        × (m.dialog_id ≡ dialog_id)
        × IsBeyond processed last_seq m.seq m.message_id)
unfolding select_messages filter_recovered_messages is_after_checkpoint
select_messages_iff setup host dialog_id tick processed values checkpoint m {last_seq} e =
    let fetched = normalize_fetched setup host tick values in
    let own = keep (λ n. text_eq n.dialog_id dialog_id) fetched in
    ground (
      arith,
      IsIn-filter_from processed checkpoint.last_seq checkpoint.last_message_id m
          (sort_by comes_before own) e,
      IsIn-sort_by comes_before m own,
      IsIn-keep (λ n. text_eq n.dialog_id dialog_id) m fetched,
      text_eq_iff m.dialog_id dialog_id,
      is_after_checkpoint_iff processed last_seq m.seq m,
    )
