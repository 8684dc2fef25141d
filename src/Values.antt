-- ===== src/Values.antt =====
-- Values of the dynamic language, as `JSON.parse` and message metadata hold them, and the readers
-- of plugins/openclaw-bot-chat/src/router/message.ts that take them apart.
-- A finite number is an integer; the fractions that `number` allows are left out. A record lists
-- its properties in order, and reading a property that is not there gives `undefined`.
pub mod Laws
use openclaw_bot_chat.Base.{
  ℕ, ◌+◌, ◌-◌, ◌*◌, ℤ, pos, negsuc, ltb_ℤ, trunc_div, Bool, true, false, ◌&&◌, Option, none, some,
  List, [], ◌∷◌, Text, text_eq, is_truthy, trim, trim_start, leb, ◌==◌, if◌then◌else◌,
}

mutual
  pub data Value : Type 0 where
    undefined null not_finite : Value
    bool : Bool → Value
    num : ℤ → Value
    str : Text → Value
    arr : Items → Value
    obj : Fields → Value

  pub data Items : Type 0 where
    nil : Items
    cons : Value → Items → Items

  pub data Fields : Type 0 where
    end : Fields
    field : Text → Value → Fields → Fields

-- `a ?? b`
infixr 25 ◌<|>◌
abbrev pub ◌<|>◌ {ℓ} : {A : Type ℓ} → Option A → Option A → Option A
none <|> b = b
some a <|> b = some a

-- `record[key]`
unfoldable pub item : Text → Fields → Value
item k end = undefined
item k (field j v fs) = if text_eq j k then v else item k fs

-- `record?.[key]`
abbrev pub item_of : Text → Option Fields → Value
item_of k none = undefined
item_of k (some fs) = item k fs

-- `record[key] = value`
unfoldable pub set_item : Text → Value → Fields → Fields
set_item k v end = field k v end
set_item k v (field j w fs) = if text_eq j k then field j v fs else field j w (set_item k v fs)

-- `key in record`
unfoldable pub has_item : Text → Fields → Bool
has_item k end = false
has_item k (field j v fs) = if text_eq j k then true else has_item k fs

abbrev pub elems : Items → List Value
elems nil = []
elems (cons v vs) = v ∷ elems vs

-- `{ [key]: value }`
abbrev pub single : Text → Value → Fields
single k v = field k v end

-- `...(value !== undefined ? { [key]: wrap(value) } : {})`, before the properties `rest`.
abbrev pub spread {ℓ} : {A : Type ℓ} → Text → (A → Value) → Option A → Fields → Fields
spread k wrap none rest = rest
spread k wrap (some a) rest = field k (wrap a) rest

unfoldable pub read_record : Value → Option Fields
read_record (obj fs) = some fs
read_record _ = none

-- `value.trim() ? value.trim() : undefined`
unfoldable pub non_blank : Text → Option Text
non_blank t = if is_truthy (trim t) then some (trim t) else none

unfoldable pub read_string : Value → Option Text
unfolding non_blank
read_string (str t) = non_blank t
read_string _ = none

unfoldable pub read_number : Value → Option ℤ
read_number (num n) = some n
read_number _ = none

is_digit : ℕ → Bool
is_digit c = leb b'0' c && leb c b'9'

digits_from : ℕ → Text → ℕ
digits_from acc [] = acc
digits_from acc (c ∷ cs) =
    let rest = digits_from (acc * 10 + (c - b'0')) cs in if is_digit c then rest else acc

-- A number needs one digit at least.
unsigned : Text → Option ℕ
unfolding digits_from is_digit
unsigned [] = none
unsigned (c ∷ cs) = if is_digit c then some (digits_from 0 (c ∷ cs)) else none

abbrev positive : Option ℕ → Option ℤ
positive none = none
positive (some n) = some (pos n)

abbrev negated : Option ℕ → Option ℤ
negated none = none
negated (some n) = some (if n == 0 then pos 0 else negsuc (n - 1))

signed : Text → Option ℤ
unfolding unsigned
signed [] = none
signed (c ∷ cs) =
    if c == b'-'
    then negated (unsigned cs)
    else if c == b'+'
    then positive (unsigned cs)
    else positive (unsigned (c ∷ cs))

-- `Number.parseInt(text, 10)`, with `none` for `NaN`; exact, also above 2^53.
unfoldable pub parse_int : Text → Option ℤ
unfolding signed
parse_int t = signed (trim_start t)

-- Milliseconds are taken for seconds from 10^12 on.
unfoldable pub to_seconds : ℤ → ℤ
to_seconds n = if ltb_ℤ n (pos 1000000000000) then n else trunc_div n 1000

module _ (date_parse : Text → Option ℤ) where
  -- `Date.parse` is the host's: it is a parameter.
  unfoldable pub read_date : Text → Option ℤ
  read_date t = elim (date_parse t) [ none ↦ none | some ms ↦ some (trunc_div ms 1000) ]

  unfoldable pub read_time_text : Text → Option ℤ
  unfolding read_date
  read_time_text t = elim (parse_int t) [ none ↦ read_date t | some n ↦ some (to_seconds n) ]

  unfoldable pub read_timestamp : Value → Option ℤ
  unfolding read_time_text
  read_timestamp (num n) = some (to_seconds n)
  read_timestamp (str t) = if is_truthy (trim t) then read_time_text t else none
  read_timestamp _ = none

-- The inner loop of `mergeMeta`.
unfoldable pub merge_into : Fields → Fields → Fields
merge_into merged end = merged
merge_into merged (field k v fs) = merge_into (set_item k v merged) fs

unfoldable pub merge_all : Fields → List (Option Fields) → Fields
unfolding merge_into
merge_all merged [] = merged
merge_all merged (none ∷ values) = merge_all merged values
merge_all merged (some fs ∷ values) = merge_all (merge_into merged fs) values

abbrev when_not_empty : Fields → Option Fields
when_not_empty end = none
when_not_empty (field k v fs) = some (field k v fs)

unfoldable pub merge_meta : List (Option Fields) → Option Fields
unfolding merge_all
merge_meta values = when_not_empty (merge_all end values)
