-- ===== src/Permissions/Lists.antt =====
-- Configured allowlists: what normalising them gives, and that doing it again changes nothing.
use openclaw_bot_chat.Base.{
  ◌≡◌, refl, sym, ◌≢◌, ◌∙◌, inl, inr, false, none, some, Option-cases, List, [], ◌∷◌, ◌++◌,
  append_assoc, append-nil, arith, Text, txt, text_eq, trim, trim-trim, All, All-append, contains,
  add, contains-append,
}
use openclaw_bot_chat.Values.{
  Value, undefined, null, not_finite, bool, num, str, arr, obj, elems, item,
}
use openclaw_bot_chat.Values.Laws.{IsClean}
use openclaw_bot_chat.Permissions.{
  AllowList, MatchMode, add_item, normalize_items_from, normalize_items, normalize_allow_list,
  when_any_item, allow_list_value, strings, read_match_mode, mode_name, normalize_listed,
}

-- No text of the list stands before it or in `seen`.
abbrev pub Fresh : List Text → List Text → Type 0
Fresh seen [] = Unit
Fresh seen (x ∷ xs) = (contains x seen ≡ false) × Fresh (seen ++ x ∷ []) xs

Fresh-append :
    (seen xs : List Text) (y : Text)
    → Fresh seen xs
    → contains y (seen ++ xs) ≡ false
    → Fresh seen (xs ++ y ∷ [])
Fresh-append seen [] y h k = (ground (arith, contains-append y seen []), tt)
Fresh-append seen (x ∷ xs) y (p, h) k =
    (p, Fresh-append (seen ++ x ∷ []) xs y h (rw (append_assoc seen (x ∷ []) xs) k))

-- The entries of a normalised list: trimmed, not empty and distinct.
abbrev pub AreNormal : List Text → Type 0
AreNormal items = All IsClean items × Fresh [] items

add-AreNormal :
    (items : List Text) (t : Text) → AreNormal items → IsClean t → AreNormal (add t items)
unfolding add
add-AreNormal items t (clean, fresh) p =
    ground (arith, All-append IsClean items (t ∷ []) clean (p, tt), Fresh-append [] items t fresh)

add_item-AreNormal :
    (items : List Text) (v : Value) → AreNormal items → AreNormal (add_item items v)
unfolding add_item
add_item-AreNormal items (str t) h = ground (arith, add-AreNormal items (trim t) h, trim-trim t)
add_item-AreNormal items _ h = h

normalize_items_from-AreNormal :
    (items : List Text) (vs : List Value)
    → AreNormal items
    → AreNormal (normalize_items_from items vs)
unfolding normalize_items_from
normalize_items_from-AreNormal items [] h = h
normalize_items_from-AreNormal items (v ∷ vs) h =
    normalize_items_from-AreNormal (add_item items v) vs (add_item-AreNormal items v h)

add_item_of_fresh :
    (items : List Text) (t : Text)
    → IsClean t
    → contains t items ≡ false
    → add_item items (str t) ≡ items ++ t ∷ []
unfolding add_item add
add_item_of_fresh items t p h = ground arith

normalize_items_from-strings :
    (seen xs : List Text)
    → All IsClean xs
    → Fresh seen xs
    → normalize_items_from seen (elems (strings xs)) ≡ seen ++ xs
unfolding normalize_items_from
normalize_items_from-strings seen [] clean fresh = sym (append-nil seen)
normalize_items_from-strings seen (x ∷ xs) (p, clean) (q, fresh) =
    rw (add_item_of_fresh seen x p q, normalize_items_from)
      (normalize_items_from-strings (seen ++ x ∷ []) xs clean fresh ∙ append_assoc seen (x ∷ []) xs)

abbrev IsNormal : AllowList → Type 0
IsNormal list = AreNormal list.items × (list.items ≢ [])

when_any_item-IsNormal :
    (items : List Text) (mode : MatchMode) {list : AllowList}
    → AreNormal items
    → when_any_item items mode ≡ some list
    → IsNormal list
when_any_item-IsNormal [] mode h e = cc
when_any_item-IsNormal (t ∷ ts) mode h e = ground arith

listed-IsNormal :
    (v : Value) (mode : MatchMode) {list : AllowList}
    → normalize_listed v mode ≡ some list
    → IsNormal list
unfolding normalize_listed normalize_items
listed-IsNormal (arr vs) mode e =
    when_any_item-IsNormal (normalize_items (elems vs)) mode
      (normalize_items_from-AreNormal [] (elems vs) (tt, tt)) e
listed-IsNormal undefined mode e = cc
listed-IsNormal null mode e = cc
listed-IsNormal not_finite mode e = cc
listed-IsNormal (bool b) mode e = cc
listed-IsNormal (num n) mode e = cc
listed-IsNormal (str t) mode e = cc
listed-IsNormal (obj fs) mode e = cc

normalize_allow_list_of_none : normalize_allow_list (allow_list_value none) ≡ none
unfolding normalize_allow_list allow_list_value
normalize_allow_list_of_none = refl

normalize_allow_list-IsNormal :
    (v : Value) {list : AllowList} → normalize_allow_list v ≡ some list → IsNormal list
unfolding normalize_allow_list normalize_items
normalize_allow_list-IsNormal (arr vs) e =
    when_any_item-IsNormal (normalize_items (elems vs)) MatchMode.any
      (normalize_items_from-AreNormal [] (elems vs) (tt, tt)) e
normalize_allow_list-IsNormal (obj fs) e = listed-IsNormal (item (txt "items") fs) _ e
normalize_allow_list-IsNormal undefined e = cc
normalize_allow_list-IsNormal null e = cc
normalize_allow_list-IsNormal not_finite e = cc
normalize_allow_list-IsNormal (bool b) e = cc
normalize_allow_list-IsNormal (num n) e = cc
normalize_allow_list-IsNormal (str t) e = cc

read_match_mode-mode_name : (mode : MatchMode) → read_match_mode (str (mode_name mode)) ≡ some mode
unfolding read_match_mode text_eq
read_match_mode-mode_name MatchMode.id = refl
read_match_mode-mode_name MatchMode.name = refl
read_match_mode-mode_name MatchMode.any = refl

when_any_item_of_nonempty :
    (items : List Text) (mode : MatchMode)
    → items ≢ []
    → when_any_item items mode ≡ some (record { items = items; match_mode = mode })
when_any_item_of_nonempty [] mode h = absurd (h refl)
when_any_item_of_nonempty (t ∷ ts) mode h = refl

normalize_allow_list_of_normal :
    (list : AllowList)
    → IsNormal list
    → normalize_allow_list (allow_list_value (some list)) ≡ some list
unfolding normalize_allow_list allow_list_value normalize_items item text_eq
normalize_allow_list_of_normal list ((clean, fresh), h) =
    rw
      (
        normalize_items_from-strings [] list.items clean fresh,
        read_match_mode-mode_name list.match_mode,
      )
      (when_any_item_of_nonempty list.items list.match_mode h)

-- Configuration loading stores a normalised list and the permission check normalises what is
-- stored: whatever value was configured, the second pass gives the list of the first.
pub normalize_allow_list_idem :
    (v : Value)
    → normalize_allow_list (allow_list_value (normalize_allow_list v)) ≡ normalize_allow_list v
normalize_allow_list_idem v = elim (Option-cases (normalize_allow_list v)) [
  | inl e ↦ rw e normalize_allow_list_of_none
  | inr (list, e) ↦ rw e (normalize_allow_list_of_normal list (normalize_allow_list-IsNormal v e))
]
