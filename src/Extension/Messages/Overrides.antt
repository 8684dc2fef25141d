-- ===== src/Extension/Messages/Overrides.antt =====
-- What the sender of a message decides of its metadata: `toInboundMessage` of the extension's
-- runtime.ts.
use openclaw_bot_chat.Base.{
  ◌≡◌, ◌≢◌, refl, ap, ◌∙◌, true, false, Option, none, some, arith, Text, txt, text_eq, text_eq_iff,
  if◌then◌else◌,
}
use openclaw_bot_chat.Values.{
  Value, str, obj, Fields, end, field, item, item_of, set_item, has_item, merge_into, read_record,
}
use openclaw_bot_chat.Values.Laws.{item-set_item}
use openclaw_bot_chat.Extension.Settings.{Language, ChannelMessage}
use openclaw_bot_chat.Extension.Messages.{
  put_if, Read, read_message, inbound_metadata, to_inbound_message, inbound_of,
}

-- No property is listed twice.
abbrev pub AreDistinct : Fields → Type 0
AreDistinct end = Unit
AreDistinct (field k v fs) = (has_item k fs ≡ false) × AreDistinct fs

pub item-merge_into_distinct :
    (k : Text) (merged fs : Fields)
    → AreDistinct fs
    → item k (merge_into merged fs) ≡ (if has_item k fs then item k fs else item k merged)
unfolding merge_into has_item item
item-merge_into_distinct k merged end h = refl
item-merge_into_distinct k merged (field j v fs) (new, h) = ground (
  arith,
  item-merge_into_distinct k (set_item j v merged) fs h,
  item-set_item j k v merged,
  text_eq_iff j k,
)

-- A property of another key is not changed.
pub item-put_if {ℓ} :
    {A : Type ℓ} (k key : Text) (wrap : A → Value) (o : Option A) (fs : Fields)
    → text_eq key k ≡ false
    → item k (put_if key wrap o fs) ≡ item k fs
item-put_if k key wrap none fs h = refl
item-put_if k key wrap (some a) fs h = rw (item-set_item key k (wrap a) fs, h)

inbound_metadata-item :
    (r : Read) (topic k : Text) (meta : Fields)
    → r.content_meta ≡ some meta
    → AreDistinct meta
    → has_item k meta ≡ true
    → text_eq (txt "threadId") k ≡ false
    → text_eq (txt "replyToId") k ≡ false
    → item k (inbound_metadata r topic) ≡ item k meta
unfolding inbound_metadata
inbound_metadata-item r topic k meta e d h t u =
    rw
      (
        item-put_if k (txt "replyToId") str r.reply_to_id _ u,
        item-put_if k (txt "threadId") str r.thread_id _ t,
        e,
        item-merge_into_distinct k _ meta d,
        h,
      )
      refl

inbound_of-metadata :
    (r : Read) (topic : Text) (user_id text : Option Text) {m : ChannelMessage}
    → inbound_of r topic user_id text ≡ some m
    → m.metadata ≡ some (inbound_metadata r topic)
inbound_of-metadata r topic (some u) (some t) e = cc
inbound_of-metadata r topic (some u) none e = cc
inbound_of-metadata r topic none t e = cc

other_key : (k key : Text) → k ≢ key → text_eq key k ≡ false
other_key k key h = ground (arith, text_eq_iff key k)

module _ (l : Language) (raw meta : Fields) (topic k : Text) where
  -- The metadata in a message's content take the place of what the extension sets: its topic, its
  -- sender's type, its identifier, its sequence number, or a mark of the sender's own. Two keys are
  -- excepted.
  pub to_inbound_message-meta_wins :
      {m : ChannelMessage}
      → to_inbound_message l (obj raw) topic ≡ some m
      → read_record (item_of (txt "meta") (read_record (item (txt "content") raw))) ≡ some meta
      → AreDistinct meta
      → has_item k meta ≡ true
      → k ≢ txt "threadId"
      → k ≢ txt "replyToId"
      → item_of k m.metadata ≡ item k meta
  unfolding to_inbound_message read_message
  to_inbound_message-meta_wins {m} e c d h t u =
      let r = read_message l raw topic in
      ap (item_of k) (inbound_of-metadata r topic r.user_id r.text e)
      ∙ inbound_metadata-item r topic k meta c d h (other_key k (txt "threadId") t)
          (other_key k (txt "replyToId") u)
