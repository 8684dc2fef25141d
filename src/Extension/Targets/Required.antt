-- ===== src/Extension/Targets/Required.antt =====
-- Which targets `parseBotChatTarget` of the extension's runtime.ts refuses.
use openclaw_bot_chat.Base.{
  ℕ, ◌≡◌, ◌≢◌, refl, ap, sym, ◌∙◌, true, false, Option, none, some, [], ◌∷◌, arith, Text, txt,
  is_truthy, trim, trim_start, trim_end, trim-trim, any, Bool-cases, inl, inr,
}
use openclaw_bot_chat.Values.{◌<|>◌}
use openclaw_bot_chat.Extension.Targets.{
  target_id_required, after_word, on_one_line, is_line_end, matched, direct_match, channel_match,
  matched_target, parse_bot_chat_target,
}
use openclaw_bot_chat.Extension.Targets.Normal.{trim_end_of_clean}

-- Only white space.
trim_start_blank : (t : Text) → trim_start t ≡ [] → trim_end t ≡ []
unfolding trim_start trim_end
trim_start_blank [] h = refl
trim_start_blank (c ∷ cs) h = ground (arith, trim_start_blank cs)

trim_end_blank : (t : Text) → trim_end (trim_start t) ≡ [] → trim_start t ≡ []
unfolding trim_start trim_end
trim_end_blank [] h = refl
trim_end_blank (c ∷ cs) h = ground (arith, trim_end_blank cs)

trim_blank : (t : Text) → is_truthy (trim t) ≡ false → trim_end t ≡ []
unfolding trim is_truthy
trim_blank t h = trim_start_blank t (trim_end_blank t (ground arith))

trim_end-tail : (c : ℕ) (t : Text) → trim_end (c ∷ t) ≡ c ∷ t → trim_end t ≡ t
unfolding trim_end
trim_end-tail c t h = ground arith

after_word-trim_end :
    (word t : Text) {rest : Text}
    → trim_end t ≡ t
    → after_word word t ≡ some rest
    → trim_end rest ≡ rest
unfolding after_word
after_word-trim_end [] [] e h = cc
after_word-trim_end [] (c ∷ cs) {rest} e h = ground (arith, trim_end-tail c cs)
after_word-trim_end (w ∷ ws) [] e h = cc
after_word-trim_end (w ∷ ws) (c ∷ cs) {rest} e h =
    ground (arith, trim_end-tail c cs, after_word-trim_end ws cs {rest = rest})

-- What a pattern found is not blank.
abbrev IsFound : Option Text → Type 0
IsFound none = Unit
IsFound (some rest) = is_truthy (trim rest) ≡ true

found_truthy : (t : Text) → is_truthy t ≡ true → trim_end t ≡ t → is_truthy (trim t) ≡ true
unfolding is_truthy
found_truthy t h e = elim (Bool-cases (is_truthy (trim t))) [
  | inl k ↦ k
  | inr k ↦ cc (ap is_truthy (sym e ∙ trim_blank t k))
]

on_one_line-IsFound :
    (o : Option Text)
    → ((rest : Text) → o ≡ some rest → trim_end rest ≡ rest)
    → IsFound (on_one_line o)
unfolding is_truthy
on_one_line-IsFound none h = tt
on_one_line-IsFound (some []) h = tt
on_one_line-IsFound (some (c ∷ cs)) h = elim (Bool-cases (any is_line_end (c ∷ cs))) [
  | inl e ↦ rw e tt
  | inr e ↦ rw e (found_truthy (c ∷ cs) refl (h (c ∷ cs) refl))
]

matched-IsFound : (word t : Text) → trim t ≡ t → IsFound (matched word t)
unfolding matched
matched-IsFound word t e =
    on_one_line-IsFound (after_word word t)
      (λ rest. after_word-trim_end word t (trim_end_of_clean t e))

<|>-IsFound : (a b : Option Text) → IsFound a → IsFound b → IsFound (a <|> b)
<|>-IsFound none b h k = k
<|>-IsFound (some a) b h k = h

matched_target-ne_id_required :
    (raw : Text) (d c g : Option Text)
    → IsFound d
    → IsFound c
    → IsFound g
    → matched_target raw d c g ≢ target_id_required
matched_target-ne_id_required raw (some id) c g h k l e = cc (rw h at e)
matched_target-ne_id_required raw none (some id) g h k l e = cc (rw k at e)
matched_target-ne_id_required raw none none (some id) h k l e = cc (rw l at e)
matched_target-ne_id_required raw none none none h k l e = cc

-- No target is refused for having no identifier, also none that is a kind with nothing after its
-- colon.
pub parse_bot_chat_target-ne_id_required :
    (raw : Text) → parse_bot_chat_target raw ≢ target_id_required
unfolding parse_bot_chat_target direct_match channel_match
parse_bot_chat_target-ne_id_required raw e = elim (Bool-cases (is_truthy (trim raw))) [
  | inl t ↦
      matched_target-ne_id_required (trim raw) _ _ _
        (<|>-IsFound _ _ (found (txt "dm"))
          (<|>-IsFound _ _ (found (txt "direct")) (found (txt "user"))))
        (<|>-IsFound _ _ (found (txt "channel")) (found (txt "conversation"))) (found (txt "group"))
        (rw t at e)
  | inr f ↦ cc (rw f at e)
]
  where
    found : (word : Text) → IsFound (matched word (trim raw))
    found word = matched-IsFound word (trim raw) (trim-trim raw)
