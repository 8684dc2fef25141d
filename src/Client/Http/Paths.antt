-- ===== src/Client/Http/Paths.antt =====
-- The path of a conversation's history in client/http.ts names the conversation.
use openclaw_bot_chat.Base.{
  ℕ, ◌≡◌, ◌≢◌, refl, ap, ◌∙◌, List, [], ◌∷◌, arith, Text, split, split_plain, split-append,
  push_front, Avoids, All, map,
}
use openclaw_bot_chat.Topics.{slash}
use openclaw_bot_chat.Client.Http.{join, encode_conversation_path}

join-push_front : (c x : ℕ) (ts : List Text) → join c (push_front x ts) ≡ x ∷ join c ts
unfolding join push_front
join-push_front c x [] = refl
join-push_front c x (t ∷ []) = refl
join-push_front c x (t ∷ u ∷ ts) = refl

split-ne-nil : (c : ℕ) (t : Text) → split c t ≢ []
unfolding split push_front
split-ne-nil c [] e = cc
split-ne-nil c (x ∷ xs) e = ground (arith, split-ne-nil c xs)

join-cons_nil : (c : ℕ) (ts : List Text) → ts ≢ [] → join c ([] ∷ ts) ≡ c ∷ join c ts
unfolding join
join-cons_nil c [] h = absurd (h refl)
join-cons_nil c (t ∷ ts) h = refl

-- A text is its parts, joined.
pub join-split : (c : ℕ) (t : Text) → join c (split c t) ≡ t
unfolding join split
join-split c [] = refl
join-split c (x ∷ xs) = ground (
  arith,
  join-cons_nil c (split c xs) (split-ne-nil c xs),
  join-push_front c x (split c xs),
  join-split c xs,
)

-- Parts that do not hold the separator are found again.
split-join :
    (c : ℕ) (t : Text) (ts : List Text)
    → All (Avoids c) (t ∷ ts)
    → split c (join c (t ∷ ts)) ≡ t ∷ ts
unfolding join
split-join c t [] h = split_plain c t h.0
split-join c t (u ∷ ts) h =
    split-append c t (join c (u ∷ ts)) h.0 ∙ ap (λ r. t ∷ r) (split-join c u ts h.1)

-- Encoding each part and joining them loses nothing, for an encoding that can be undone and that
-- gives no separator.
module _ (encode decode : Text → Text) (plain : (t : Text) → Avoids slash (encode t))
    (undone : (t : Text) → decode (encode t) ≡ t) where
  All-map_encode : (ts : List Text) → All (Avoids slash) (map encode ts)
  All-map_encode [] = tt
  All-map_encode (t ∷ ts) = (plain t, All-map_encode ts)

  decode_encoded : (ts : List Text) → map decode (map encode ts) ≡ ts
  decode_encoded [] = refl
  decode_encoded (t ∷ ts) = ground (arith, undone t, decode_encoded ts)

  split-join_encoded :
      (ts : List Text) → ts ≢ [] → split slash (join slash (map encode ts)) ≡ map encode ts
  split-join_encoded [] h = absurd (h refl)
  split-join_encoded (t ∷ ts) h =
      split-join slash (encode t) (map encode ts) (All-map_encode (t ∷ ts))

  -- Whoever splits the path of a conversation and decodes its parts has the conversation's
  -- identifier back, slashes and empty parts included, if `decodeURIComponent` undoes
  -- `encodeURIComponent`, which gives no slash.
  pub encode_conversation_path-decodes :
      (conversation_id : Text)
      → join slash (map decode (split slash (encode_conversation_path encode conversation_id)))
        ≡ conversation_id
  unfolding encode_conversation_path
  encode_conversation_path-decodes conversation_id =
      let parts = split slash conversation_id in
      ap (λ ts. join slash (map decode ts))
        (split-join_encoded parts (split-ne-nil slash conversation_id))
      ∙ ap (join slash) (decode_encoded parts)
      ∙ join-split slash conversation_id
