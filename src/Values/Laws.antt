-- ===== src/Values/Laws.antt =====
-- What the readers and the merge of metadata guarantee.
use openclaw_bot_chat.Base.{
  ◌≡◌, refl, Bool, true, false, Option, none, some, List, [], ◌∷◌, ◌++◌, arith, Text, text_eq,
  text_eq_iff, text_eq_refl, is_truthy, trim, trim-trim, if◌then◌else◌, All,
}
use openclaw_bot_chat.Values.{
  Value, undefined, null, not_finite, bool, num, str, arr, obj, Fields, end, field, item, item_of,
  set_item, has_item, read_string, merge_into, merge_all, merge_meta, single,
}

-- A text that a reader returns is trimmed and not empty.
abbrev pub IsClean : Text → Type 0
IsClean t = (trim t ≡ t) × (is_truthy t ≡ true)

pub read_string-IsClean : (v : Value) {t : Text} → read_string v ≡ some t → IsClean t
unfolding read_string
read_string-IsClean (str s) {t} h = ground (arith, trim-trim s)
read_string-IsClean undefined h = cc
read_string-IsClean null h = cc
read_string-IsClean not_finite h = cc
read_string-IsClean (bool b) h = cc
read_string-IsClean (num n) h = cc
read_string-IsClean (arr vs) h = cc
read_string-IsClean (obj fs) h = cc

-- Reading a clean text gives it back.
pub read_string_of_IsClean : (t : Text) → IsClean t → read_string (str t) ≡ some t
unfolding read_string
read_string_of_IsClean t h = ground arith

pub item-set_item :
    (k j : Text) (v : Value) (fs : Fields)
    → item j (set_item k v fs) ≡ (if text_eq k j then v else item j fs)
unfolding item set_item
item-set_item k j v end = refl
item-set_item k j v (field i w fs) =
    ground (arith, text_eq_iff k j, text_eq_iff i k, text_eq_iff i j, item-set_item k j v fs)

-- Merging leaves the properties that the record does not list.
pub item-merge_into :
    (k : Text) (merged fs : Fields)
    → has_item k fs ≡ false
    → item k (merge_into merged fs) ≡ item k merged
unfolding has_item merge_into
item-merge_into k merged end h = refl
item-merge_into k merged (field j v fs) h =
    ground (arith, item-merge_into k (set_item j v merged) fs, item-set_item j k v merged)

abbrev pub lacks : Text → Option Fields → Bool
lacks k none = true
lacks k (some fs) = if has_item k fs then false else true

pub item-merge_all :
    (k : Text) (merged : Fields) (values : List (Option Fields))
    → All (λ o. lacks k o ≡ true) values
    → item k (merge_all merged values) ≡ item k merged
unfolding merge_all
item-merge_all k merged [] h = refl
item-merge_all k merged (none ∷ values) (p, h) = item-merge_all k merged values h
item-merge_all k merged (some fs ∷ values) (p, h) =
    ground (arith, item-merge_all k (merge_into merged fs) values h, item-merge_into k merged fs)

pub merge_all-append :
    (merged : Fields) (xs ys : List (Option Fields))
    → merge_all merged (xs ++ ys) ≡ merge_all (merge_all merged xs) ys
unfolding merge_all
merge_all-append merged [] ys = refl
merge_all-append merged (none ∷ xs) ys = merge_all-append merged xs ys
merge_all-append merged (some fs ∷ xs) ys = merge_all-append (merge_into merged fs) xs ys

pub item-merge_meta :
    (k : Text) (values : List (Option Fields))
    → item_of k (merge_meta values) ≡ item k (merge_all end values)
unfolding merge_meta item
item-merge_meta k values = ground arith

merge_all-single :
    (k : Text) (v : Value) (merged : Fields) (values : List (Option Fields))
    → merge_all merged (some (single k v) ∷ values) ≡ merge_all (set_item k v merged) values
unfolding merge_all merge_into
merge_all-single k v merged values = refl

-- The last record that lists a property decides it.
pub item-merge_meta_last :
    (k : Text) (v : Value) (before after : List (Option Fields))
    → All (λ o. lacks k o ≡ true) after
    → item_of k (merge_meta (before ++ some (single k v) ∷ after)) ≡ v
item-merge_meta_last k v before after h = rw (
  item-merge_meta k (before ++ some (single k v) ∷ after),
  merge_all-append end before (some (single k v) ∷ after),
  merge_all-single k v (merge_all end before) after,
  item-merge_all k (set_item k v (merge_all end before)) after h,
  item-set_item k k v (merge_all end before),
  text_eq_refl k,
)
