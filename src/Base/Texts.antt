-- ===== src/Base/Texts.antt =====
-- JavaScript strings as lists of UTF-16 code units, with the operations of the language that the
-- program calls: `===`, `<=`, `trim`, `split`, `startsWith` and templates (`++`).
use Prim.Native.Nat.{ℕ}
use Prim.Native.Char.{code}
use Prim.Native.String.{String}
use mathlib.Core.Path.{◌≡◌, refl}
use mathlib.Core.Logic.{◌↔◌, ◌≢◌, inl, inr}
use mathlib.Core.Bool.{Bool, true, false, ◌&&◌, ◌||◌}
use mathlib.Core.List.{List, [], ◌∷◌, ◌++◌}
use native.Mathlib.Omega.{arith}
use openclaw_bot_chat.Base.Tests.{ltb, leb, ◌==◌, if◌then◌else◌, Bool-cases}
use openclaw_bot_chat.Base.Lists.{All}

abbrev pub Text : Type 0
Text = List ℕ

-- An ASCII literal.
abbrev pub txt : String → Text
txt String.[] = []
txt (String.◌∷◌ c s) = code c ∷ txt s

-- `a === b`
unfoldable pub text_eq : Text → Text → Bool
text_eq [] [] = true
text_eq (x ∷ xs) (y ∷ ys) = x == y && text_eq xs ys
text_eq _ _ = false

pub text_eq_iff : (a b : Text) → (text_eq a b ≡ true) ↔ (a ≡ b)
unfolding text_eq
text_eq_iff [] [] = ground arith
text_eq_iff [] (y ∷ ys) = ground arith
text_eq_iff (x ∷ xs) [] = ground arith
text_eq_iff (x ∷ xs) (y ∷ ys) = ground (arith, text_eq_iff xs ys)

pub text_eq_refl : (a : Text) → text_eq a a ≡ true
text_eq_refl a = (text_eq_iff a a).1 refl

-- `a <= b`: the order of the code units.
unfoldable pub text_leb : Text → Text → Bool
text_leb [] b = true
text_leb (x ∷ xs) [] = false
text_leb (x ∷ xs) (y ∷ ys) =
    let rest = text_leb xs ys in if ltb x y then true else if ltb y x then false else rest

pub text_leb_total : (a b : Text) → text_leb a b ≡ false → text_leb b a ≡ true
unfolding text_leb
text_leb_total [] b h = cc
text_leb_total (x ∷ xs) [] h = refl
text_leb_total (x ∷ xs) (y ∷ ys) h = ground (arith, text_leb_total xs ys)

pub text_leb_antisymm : (a b : Text) → text_leb a b ≡ true → text_leb b a ≡ true → a ≡ b
unfolding text_leb
text_leb_antisymm [] [] h k = refl
text_leb_antisymm [] (y ∷ ys) h k = cc
text_leb_antisymm (x ∷ xs) [] h k = cc
text_leb_antisymm (x ∷ xs) (y ∷ ys) h k = ground (arith, text_leb_antisymm xs ys)

-- `Boolean(text)`
unfoldable pub is_truthy : Text → Bool
is_truthy [] = false
is_truthy (x ∷ xs) = true

-- `text.startsWith(prefix)`
unfoldable pub starts_with : Text → Text → Bool
starts_with xs [] = true
starts_with [] (y ∷ ys) = false
starts_with (x ∷ xs) (y ∷ ys) = x == y && starts_with xs ys

-- The white space and line terminators that `trim` removes.
unfoldable pub is_space : ℕ → Bool
is_space c =
    leb 0x09 c && leb c 0x0d
    || c == 0x20
    || c == 0xa0
    || c == 0x1680
    || leb 0x2000 c && leb c 0x200a
    || c == 0x2028
    || c == 0x2029
    || c == 0x202f
    || c == 0x205f
    || c == 0x3000
    || c == 0xfeff

unfoldable pub trim_start : Text → Text
trim_start [] = []
trim_start (x ∷ xs) = let rest = trim_start xs in if is_space x then rest else x ∷ xs

is_blank : Text → Bool
is_blank [] = true
is_blank (x ∷ xs) = false

unfoldable pub trim_end : Text → Text
unfolding is_blank
trim_end [] = []
trim_end (x ∷ xs) = let rest = trim_end xs in if is_blank rest && is_space x then [] else x ∷ rest

-- `text.trim()`
unfoldable pub trim : Text → Text
trim t = trim_end (trim_start t)

pub trim_end-trim_end : (t : Text) → trim_end (trim_end t) ≡ trim_end t
unfolding trim_end
trim_end-trim_end [] = refl
trim_end-trim_end (x ∷ xs) = elim (Bool-cases (is_blank (trim_end xs) && is_space x)) [
  | inl e ↦ rw e
  | inr e ↦ rw (e, trim_end-trim_end xs, e)
]

-- Nothing to remove at the front.
abbrev StartsClean : Text → Type 0
StartsClean [] = Unit
StartsClean (x ∷ xs) = is_space x ≡ false

trim_start-StartsClean : (t : Text) → StartsClean (trim_start t)
unfolding trim_start
trim_start-StartsClean [] = tt
trim_start-StartsClean (x ∷ xs) = ground (arith, trim_start-StartsClean xs)

trim_start_of_clean : (t : Text) → StartsClean t → trim_start t ≡ t
unfolding trim_start
trim_start_of_clean [] h = refl
trim_start_of_clean (x ∷ xs) h = rw h

trim_end-StartsClean : (t : Text) → StartsClean t → StartsClean (trim_end t)
unfolding trim_end
trim_end-StartsClean [] h = tt
trim_end-StartsClean (x ∷ xs) h = ground arith

-- Trimming twice is trimming once.
pub trim-trim : (t : Text) → trim (trim t) ≡ trim t
unfolding trim
trim-trim t =
    let clean = trim_end-StartsClean (trim_start t) (trim_start-StartsClean t) in
    rw (trim_start_of_clean (trim_end (trim_start t)) clean) (trim_end-trim_end (trim_start t))

unfoldable pub push_front : ℕ → List Text → List Text
push_front x [] = (x ∷ []) ∷ []
push_front x (p ∷ ps) = (x ∷ p) ∷ ps

-- `text.split(separator)` at a separator of one unit.
unfoldable pub split : ℕ → Text → List Text
split c [] = [] ∷ []
split c (x ∷ xs) = let rest = split c xs in if x == c then [] ∷ rest else push_front x rest

-- The text does not hold the unit.
abbrev pub Avoids : ℕ → Text → Type 0
Avoids c = All (λ x. x ≢ c)

pub split_plain : (c : ℕ) (t : Text) → Avoids c t → split c t ≡ t ∷ []
unfolding split push_front
split_plain c [] h = refl
split_plain c (x ∷ xs) (p, h) = ground (arith, split_plain c xs h)

-- Splitting takes off the text before the first separator.
pub split-append : (c : ℕ) (t rest : Text) → Avoids c t → split c (t ++ c ∷ rest) ≡ t ∷ split c rest
unfolding split push_front
split-append c [] rest h = ground arith
split-append c (x ∷ xs) rest (p, h) = ground (arith, split-append c xs rest h)

push_front-Avoids :
    (c x : ℕ) (ps : List Text) → x ≢ c → All (Avoids c) ps → All (Avoids c) (push_front x ps)
unfolding push_front
push_front-Avoids c x [] p h = ((p, tt), tt)
push_front-Avoids c x (t ∷ ts) p (q, h) = ((p, q), h)

-- No part holds the separator.
pub split-Avoids : (c : ℕ) (t : Text) → All (Avoids c) (split c t)
unfolding split
split-Avoids c [] = (tt, tt)
split-Avoids c (x ∷ xs) = ground (arith, split-Avoids c xs, push_front-Avoids c x (split c xs))
