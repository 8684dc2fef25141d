-- ===== src/Base/Dict.antt =====
-- `Map` and `Set` of the language over text keys: entries in the order of their first insertion.
use Prim.Native.Nat.{◌+◌, ◌≤◌}
use mathlib.Core.Path.{◌≡◌, refl, sym, subst}
use mathlib.Core.Logic.{◌≢◌, inl, inr}
use mathlib.Core.Bool.{Bool, true, false, ◌||◌}
use mathlib.Core.Option.{Option, none, some}
use mathlib.Core.List.{List, [], ◌∷◌, ◌++◌}
use native.Mathlib.Omega.{arith}
use openclaw_bot_chat.Base.Tests.{if◌then◌else◌, Bool-cases}
use openclaw_bot_chat.Base.Lists.{length, All}
use openclaw_bot_chat.Base.Texts.{Text, text_eq, text_eq_iff, text_eq_refl}

module _ {ℓ} {V : Type ℓ} where
  -- `map.get(key)`
  unfoldable pub get : Text → List (Text × V) → Option V
  get k [] = none
  get k ((j, v) ∷ m) = if text_eq j k then some v else get k m

  -- `map.set(key, value)`: a key that is there keeps its place.
  unfoldable pub set : Text → V → List (Text × V) → List (Text × V)
  set k v [] = (k, v) ∷ []
  set k v ((j, w) ∷ m) = if text_eq j k then (j, v) ∷ m else (j, w) ∷ set k v m

  -- `map.has(key)`
  unfoldable pub has : Text → List (Text × V) → Bool
  has k [] = false
  has k ((j, v) ∷ m) = text_eq j k || has k m

  -- `map.delete(key)`
  unfoldable pub delete : Text → List (Text × V) → List (Text × V)
  delete k [] = []
  delete k ((j, v) ∷ m) = let rest = delete k m in if text_eq j k then m else (j, v) ∷ rest

  pub get-set :
      (k j : Text) (v : V) (m : List (Text × V))
      → get j (set k v m) ≡ (if text_eq k j then some v else get j m)
  unfolding get set
  get-set k j v [] = refl
  get-set k j v ((i, w) ∷ m) =
      ground (arith, text_eq_iff k j, text_eq_iff i k, text_eq_iff i j, get-set k j v m)

  pub get-set_self : (k : Text) (v : V) (m : List (Text × V)) → get k (set k v m) ≡ some v
  get-set_self k v m = rw (get-set k k v m, text_eq_refl k)

  pub get-set_other :
      (k j : Text) (v : V) (m : List (Text × V)) → k ≢ j → get j (set k v m) ≡ get j m
  get-set_other k j v m h = ground (arith, get-set k j v m, text_eq_iff k j)

  pub has-set :
      (k j : Text) (v : V) (m : List (Text × V)) → has j (set k v m) ≡ (text_eq k j || has j m)
  unfolding has set
  has-set k j v [] = refl
  has-set k j v ((i, w) ∷ m) =
      ground (arith, text_eq_iff k j, text_eq_iff i k, text_eq_iff i j, has-set k j v m)

  pub length-set_fresh :
      (k : Text) (v : V) (m : List (Text × V)) → has k m ≡ false → length (set k v m) ≡ length m + 1
  unfolding has set
  length-set_fresh k v [] h = omega arith
  length-set_fresh k v ((i, w) ∷ m) h = ground (arith, length-set_fresh k v m)

  pub length-set_le : (k : Text) (v : V) (m : List (Text × V)) → length (set k v m) ≤ length m + 1
  unfolding set
  length-set_le k v [] = omega arith
  length-set_le k v ((i, w) ∷ m) = ground (arith, length-set_le k v m)

  pub get_absent : (k : Text) (m : List (Text × V)) → has k m ≡ false → get k m ≡ none
  unfolding get has
  get_absent k [] h = refl
  get_absent k ((j, v) ∷ m) h = ground (arith, get_absent k m)

  pub has_absent : (k : Text) (m : List (Text × V)) → get k m ≡ none → has k m ≡ false
  unfolding get has
  has_absent k [] h = refl
  has_absent k ((j, v) ∷ m) h = ground (arith, has_absent k m)

module _ {ℓ} {V : Type ℓ} where
  -- Every entry's key is there.
  pub All-has : (m : List (Text × V)) → All (λ e. has e.0 m ≡ true) m
  unfolding has
  All-has [] = tt
  All-has ((j, v) ∷ m) = (ground (arith, text_eq_refl j), All-has_cons j v m m (All-has m))
    where
      All-has_cons :
          (j : Text) (v : V) (m n : List (Text × V))
          → All (λ e. has e.0 m ≡ true) n
          → All (λ e. has e.0 ((j, v) ∷ m) ≡ true) n
      All-has_cons j v m [] h = tt
      All-has_cons j v m (e ∷ n) (p, h) = (ground arith, All-has_cons j v m n h)

  pub length-delete :
      (k : Text) (m : List (Text × V)) → has k m ≡ true → length (delete k m) + 1 ≡ length m
  unfolding has delete
  length-delete k [] h = cc
  length-delete k ((j, v) ∷ m) h = ground (arith, length-delete k m)

  pub has-delete_other :
      (k j : Text) (m : List (Text × V)) → k ≢ j → has j m ≡ true → has j (delete k m) ≡ true
  unfolding has delete
  has-delete_other k j [] ne h = cc
  has-delete_other k j ((i, v) ∷ m) ne h =
      ground (arith, has-delete_other k j m ne, text_eq_iff i k, text_eq_iff i j)

  -- A new key goes to the end.
  pub set_fresh :
      (k : Text) (v : V) (m : List (Text × V)) → has k m ≡ false → set k v m ≡ m ++ (k, v) ∷ []
  unfolding has set
  set_fresh k v [] h = refl
  set_fresh k v ((j, w) ∷ m) h = ground (arith, set_fresh k v m)

  pub length-set_known :
      (k : Text) (v : V) (m : List (Text × V)) → has k m ≡ true → length (set k v m) ≡ length m
  unfolding has set
  length-set_known k v [] h = cc
  length-set_known k v ((j, w) ∷ m) h = ground (arith, length-set_known k v m)

  pub All-set {κ} :
      (P : Text × V → Type κ) (k : Text) (v : V) (m : List (Text × V))
      → P (k, v)
      → All P m
      → All P (set k v m)
  unfolding set
  All-set P k v [] p h = (p, tt)
  All-set P k v ((j, w) ∷ m) p (q, h) = elim (Bool-cases (text_eq j k)) [
    | inl e ↦ rw e (subst (λ i. P (i, v)) (sym ((text_eq_iff j k).0 e)) p, h)
    | inr e ↦ rw e (q, All-set P k v m p h)
  ]

  pub All-delete {κ} :
      (P : Text × V → Type κ) (k : Text) (m : List (Text × V)) → All P m → All P (delete k m)
  unfolding delete
  All-delete P k [] h = tt
  All-delete P k ((j, w) ∷ m) (q, h) = elim (Bool-cases (text_eq j k)) [
    | inl e ↦ rw e h
    | inr e ↦ rw e (q, All-delete P k m h)
  ]

module _ {ℓ} {V : Type ℓ} where
  -- No key is listed twice.
  abbrev pub AreDistinct : List (Text × V) → Type 0
  AreDistinct [] = Unit
  AreDistinct ((k, v) ∷ m) = (has k m ≡ false) × AreDistinct m

  pub AreDistinct-set :
      (k : Text) (v : V) (m : List (Text × V)) → AreDistinct m → AreDistinct (set k v m)
  unfolding set has
  AreDistinct-set k v [] h = (refl, tt)
  AreDistinct-set k v ((j, w) ∷ m) (new, h) =
      ground (arith, AreDistinct-set k v m h, has-set k j v m, text_eq_iff k j, text_eq_iff j k)

-- A `Set` keeps the first of equal members.
unfoldable pub contains : Text → List Text → Bool
contains k [] = false
contains k (j ∷ s) = text_eq j k || contains k s

-- `set.add(member)`
unfoldable pub add : Text → List Text → List Text
add k s = if contains k s then s else s ++ k ∷ []

pub contains-append :
    (k : Text) (s t : List Text) → contains k (s ++ t) ≡ (contains k s || contains k t)
unfolding contains
contains-append k [] t = refl
contains-append k (j ∷ s) t = ground (arith, contains-append k s t)

pub contains-add :
    (k j : Text) (s : List Text) → contains j (add k s) ≡ (text_eq k j || contains j s)
unfolding add contains
contains-add k j s = ground (arith, contains-append j s (k ∷ []), text_eq_iff k j)
