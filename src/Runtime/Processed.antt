-- ===== src/Runtime/Processed.antt =====
-- The cache of processed messages: `isMessageProcessed` and `markMessageProcessed`.
pub mod Bounds
use openclaw_bot_chat.Base.{
  ℕ, ◌-◌, ℤ, ltb_ℤ, Bool, true, false, List, [], ◌∷◌, map, Text, length, take, leb, sort_by,
  if◌then◌else◌,
}
use openclaw_bot_chat.Base.Dict.{set, has, delete}

unfoldable pub recent_message_cache_size : ℕ
recent_message_cache_size = 2000

abbrev pub earlier : Text × ℤ → Text × ℤ → Bool
earlier left right = ltb_ℤ left.1 right.1

unfoldable pub delete_all : List (Text × ℤ) → List (Text × ℤ) → List (Text × ℤ)
delete_all [] processed = processed
delete_all ((id, time) ∷ entries) processed = delete_all entries (delete id processed)

-- The oldest entries beyond the limit go.
unfoldable pub evict : ℕ → List (Text × ℤ) → List (Text × ℤ)
evict limit processed =
    delete_all (take (length processed - limit) (sort_by earlier processed)) processed

unfoldable pub mark_within : ℕ → Text → ℤ → List (Text × ℤ) → List (Text × ℤ)
unfolding evict
mark_within limit id now processed =
    let marked = set id now processed in
    if leb (length marked) limit then marked else evict limit marked

unfoldable pub mark_processed : Text → ℤ → List (Text × ℤ) → List (Text × ℤ)
mark_processed = mark_within recent_message_cache_size

unfoldable pub is_processed : Text → List (Text × ℤ) → Bool
is_processed = has
