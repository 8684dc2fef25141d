-- ===== src/Runtime/Processed/Bounds.antt =====
-- The cache of processed messages stays within its limit and keeps the message just marked.
use openclaw_bot_chat.Base.{
  ℕ, ◌+◌, ◌-◌, ◌≤◌, ◌<◌, ℤ, ◌≤ℤ◌, ltb_ℤ-false_iff, ◌≡◌, refl, ap, ◌≢◌, true, false, Bool-cases, inl,
  inr, List, [], ◌∷◌, ◌++◌, arith, Text, text_eq_refl, length, take, leb, sort_by, insert_by,
  length-sort_by, length-append, All, All-sort_by,
}
use openclaw_bot_chat.Base.Dict.{
  set, has, delete, All-has, length-delete, has-delete_other, set_fresh, length-set_known,
  length-set_le, has-set, All-set, All-delete,
}
use openclaw_bot_chat.Runtime.Processed.{earlier, delete_all, evict, mark_within}

abbrev Cache : Type 0
Cache = List (Text × ℤ)

-- The first entry has the property.
abbrev Heads : (Text × ℤ → Type 0) → Cache → Type 0
Heads P [] = ⊥
Heads P (e ∷ m) = P e

-- With one entry too many, eviction deletes the first of the sorted entries.
evict_one :
    (limit : ℕ) (m : Cache) (P : Text × ℤ → Type 0)
    → length m ≡ limit + 1
    → Heads P (sort_by earlier m)
    → (k : Text) × (t : ℤ) × P (k, t) × (evict limit m ≡ delete k m)
unfolding evict delete_all
evict_one limit m P e h = go (sort_by earlier m) h
  where
    one : length m - limit ≡ 1
    one = omega arith

    go :
        (sorted : Cache)
        → Heads P sorted
        → (k : Text) × (t : ℤ) × P (k, t)
          × (delete_all (take (length m - limit) sorted) m ≡ delete k m)
    go ((k, t) ∷ rest) p = (k, t, p, rw one refl)
    go [] p = absurd p

All-Heads : (P : Text × ℤ → Type 0) (m : Cache) → 0 < length m → All P m → Heads P m
All-Heads P [] h a = absurd (omega arith)
All-Heads P (e ∷ m) h a = a.0

sorted-Heads-has : (m : Cache) → 0 < length m → Heads (λ e. has e.0 m ≡ true) (sort_by earlier m)
sorted-Heads-has m h =
    All-Heads (λ e. has e.0 m ≡ true) (sort_by earlier m) (omega (arith, length-sort_by earlier m))
      (All-sort_by earlier (λ e. has e.0 m ≡ true) m (All-has m))

-- Marking a message keeps the cache within its limit, if it was within it.
pub length-mark_within_le :
    (limit : ℕ) (id : Text) (now : ℤ) (m : Cache)
    → length m ≤ limit
    → length (mark_within limit id now m) ≤ limit
unfolding mark_within
length-mark_within_le limit id now m h = elim (Bool-cases (leb (length (set id now m)) limit)) [
  | inl e ↦ rw e (ground arith)
  | inr e ↦
      let size : length (set id now m) ≡ limit + 1 = ground (arith, length-set_le id now m) in
      let (k, t, p, q) =
        evict_one limit (set id now m) (λ e. has e.0 (set id now m) ≡ true) size
          (sorted-Heads-has (set id now m) (omega arith)) in
      rw (e, q) (omega (arith, length-delete k (set id now m) p))
]

-- No entry is later than the time.
abbrev pub IsTimely : ℤ → Cache → Type 0
IsTimely now = All (λ e. e.1 ≤ℤ now)

Heads-insert_by :
    (P : Text × ℤ → Type 0) (e : Text × ℤ) (m : Cache)
    → P e
    → Heads P m
    → Heads P (insert_by earlier e m)
unfolding insert_by
Heads-insert_by P e [] p h = absurd h
Heads-insert_by P e (f ∷ m) p h = ground arith

-- The sort is stable: an entry that comes last and is not earlier does not come first.
Heads-sort_by_last :
    (P : Text × ℤ → Type 0) (e : Text × ℤ) (m : Cache)
    → 0 < length m
    → All P m
    → IsTimely e.1 m
    → Heads P (sort_by earlier (m ++ e ∷ []))
unfolding sort_by insert_by
Heads-sort_by_last P e [] h a t = absurd (omega arith)
Heads-sort_by_last P e (f ∷ []) h a t = ground (arith, ltb_ℤ-false_iff e.1 f.1)
Heads-sort_by_last P e (f ∷ g ∷ m) h a t =
    Heads-insert_by P f (sort_by earlier (g ∷ m ++ e ∷ [])) a.0
      (Heads-sort_by_last P e (g ∷ m) (omega arith) a.1 t.1)

has-ne : (j k : Text) (m : Cache) → has j m ≡ true → has k m ≡ false → j ≢ k
has-ne j k m h h' e = cc (ap (λ i. has i m) e)

-- Marking a message leaves it marked, though an entry may have to go: if the limit is not 0, the
-- cache was within it, and no entry is later than the time of the mark.
pub has-mark_within :
    (limit : ℕ) (id : Text) (now : ℤ) (m : Cache)
    → 0 < limit
    → length m ≤ limit
    → IsTimely now m
    → has id (mark_within limit id now m) ≡ true
unfolding mark_within
has-mark_within limit id now m pos_limit h t =
    elim (Bool-cases (leb (length (set id now m)) limit)) [
      | inl e ↦ rw e marked
      | inr e ↦ elim (Bool-cases (has id m)) [
        | inl old ↦ absurd (ground (arith, length-set_known id now m old))
        | inr new ↦
            let size : length (set id now m) ≡ limit + 1 = ground (arith, length-set_le id now m) in
            let grown : length m ≡ limit =
              ground
                (arith, ap length (set_fresh id now m new), length-append m ((id, now) ∷ [])) in
            let (k, u, p, q) =
              evict_one limit (set id now m) (λ e. has e.0 m ≡ true) size
                (rw (set_fresh id now m new) (
                  Heads-sort_by_last (λ e. has e.0 m ≡ true) (id, now) m (omega arith) (All-has m)
                    t)) in
            rw (e, q) (has-delete_other k id (set id now m) (has-ne k id m p new) marked)
      ]
    ]
  where
    marked : has id (set id now m) ≡ true
    marked = rw (has-set id id now m, text_eq_refl id)

IsTimely-delete_all : (es m : Cache) (now : ℤ) → IsTimely now m → IsTimely now (delete_all es m)
unfolding delete_all
IsTimely-delete_all [] m now h = h
IsTimely-delete_all ((id, t) ∷ es) m now h =
    IsTimely-delete_all es (delete id m) now (All-delete (λ e. e.1 ≤ℤ now) id m h)

pub IsTimely-mark_within :
    (limit : ℕ) (id : Text) (now : ℤ) (m : Cache)
    → IsTimely now m
    → IsTimely now (mark_within limit id now m)
unfolding mark_within evict
IsTimely-mark_within limit id now m h =
    let set_timely = All-set (λ e. e.1 ≤ℤ now) id now m (omega arith) h in
    elim (Bool-cases (leb (length (set id now m)) limit)) [
      | inl e ↦ rw e set_timely
      | inr e ↦ rw e (IsTimely-delete_all _ (set id now m) now set_timely)
    ]
