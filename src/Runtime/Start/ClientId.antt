-- ===== src/Runtime/Start/ClientId.antt =====
-- What a client identifier becomes: the placeholders of `resolveClientId`.
use openclaw_bot_chat.Base.{
  ◌≡◌, refl, ap, true, false, some, [], ◌∷◌, append-nil, arith, Text, txt, is_truthy, starts_with,
  trim, trim_start, trim_end, is_space, Avoids,
}
use openclaw_bot_chat.Stores.{done}
use openclaw_bot_chat.Runtime.Start.{replace_from, resolve_client_id}

-- A text without braces holds no placeholder.
no_placeholder : (t : Text) → Avoids b'{' t → starts_with t (txt "${bot_id}") ≡ false
unfolding starts_with
no_placeholder [] h = refl
no_placeholder (a ∷ []) h = ground arith
no_placeholder (a ∷ b ∷ t) h = ground arith

replace_from_plain :
    (t replacement : Text) → Avoids b'{' t → replace_from 0 (txt "${bot_id}") replacement t ≡ t
unfolding replace_from
replace_from_plain [] replacement h = refl
replace_from_plain (c ∷ cs) replacement (p, h) =
    rw (no_placeholder (c ∷ cs) (p, h), replace_from_plain cs replacement h) refl

-- The first replacement of each template.
braces : (id : Text) → replace_from 0 (txt "{bot_id}") id (trim (txt "{bot_id}")) ≡ id
unfolding replace_from starts_with trim trim_start trim_end is_space
braces id = append-nil id

dollar_braces :
    (id : Text) → replace_from 0 (txt "{bot_id}") id (trim (txt "${bot_id}")) ≡ b'$' ∷ id
unfolding replace_from starts_with trim trim_start trim_end is_space
dollar_braces id = ap (λ t. b'$' ∷ t) (append-nil id)

-- The template `{bot_id}` becomes the bot's identifier, but the template `${bot_id}` becomes the
-- identifier after a `$`: the first replacement takes the braces and leaves nothing for the second.
-- The identifier is not empty and holds no `{` and no `$`.
pub resolve_client_id_placeholders :
    (id : Text)
    → is_truthy id ≡ true
    → Avoids b'{' id
    → Avoids b'$' id
    → (resolve_client_id (some id) (txt "{bot_id}") ≡ done id)
      × (resolve_client_id (some id) (txt "${bot_id}") ≡ done (b'$' ∷ id))
unfolding resolve_client_id is_truthy trim trim_end trim_start is_space
resolve_client_id_placeholders id t h h' = (
  rw (t, braces id, replace_from_plain id id h) refl,
  rw (t, dollar_braces id, replace_from_plain (b'$' ∷ id) id (omega arith, h)) refl,
)
