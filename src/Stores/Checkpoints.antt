-- ===== src/Stores/Checkpoints.antt =====
-- Merging checkpoints never takes a dialog back, and leaves none behind.
use openclaw_bot_chat.Base.{
  ltb_ℤ_iff, eqb_ℤ_iff, ◌≤ℤ◌, ◌<ℤ◌, ◌≡◌, refl, sym, ◌∙◌, subst, ◌⊎◌, Bool, true, false, ◌&&◌,
  Bool-cases, Option, none, some, inl, inr, List, [], ◌∷◌, arith, Text, text_eq, text_eq_iff,
  is_truthy, All,
}
use openclaw_bot_chat.Base.Dict.{get, get-set, get-set_self}
use openclaw_bot_chat.Types.{Checkpoint}
use openclaw_bot_chat.Stores.{
  done, Checkpoints, flush, seq_or_zero, time_or_zero, is_not_older, supersedes, merge_one,
  merge_loop, merge,
}

-- The order of checkpoints: by sequence number, then by time.
abbrev pub IsUpTo : Checkpoint → Checkpoint → Type 0
IsUpTo c later =
    (seq_or_zero c <ℤ seq_or_zero later)
    ⊎ (seq_or_zero c ≡ seq_or_zero later) × (time_or_zero c ≤ℤ time_or_zero later)

IsUpTo-of : (c later : Checkpoint) → is_not_older later c ≡ true → IsUpTo c later
unfolding is_not_older
IsUpTo-of c later h = ground (
  arith,
  eqb_ℤ_iff (seq_or_zero later) (seq_or_zero c),
  ltb_ℤ_iff (seq_or_zero later) (seq_or_zero c),
  ltb_ℤ_iff (time_or_zero later) (time_or_zero c),
)

IsUpTo-trans : (a b c : Checkpoint) → IsUpTo a b → IsUpTo b c → IsUpTo a c
IsUpTo-trans a b c h k = ground arith

-- The dialog has a checkpoint that is not before the given one.
abbrev pub Reaches : Checkpoint → Option Checkpoint → Type 0
Reaches c none = ⊥
Reaches c (some later) = IsUpTo c later

Reaches-trans : (a b : Checkpoint) (o : Option Checkpoint) → IsUpTo a b → Reaches b o → Reaches a o
Reaches-trans a b none h k = k
Reaches-trans a b (some c) h k = IsUpTo-trans a b c h k

Reaches-self : (c : Checkpoint) → Reaches c (some c)
Reaches-self c = inr (refl, omega arith)

-- A round that does not store its checkpoint found one that is not before it.
not_superseded-Reaches :
    (c : Checkpoint) (current : Option Checkpoint)
    → supersedes c current ≡ false
    → Reaches c current
unfolding supersedes is_not_older
not_superseded-Reaches c none h = cc
not_superseded-Reaches c (some current) h = ground (
  arith,
  eqb_ℤ_iff (seq_or_zero c) (seq_or_zero current),
  ltb_ℤ_iff (seq_or_zero c) (seq_or_zero current),
  ltb_ℤ_iff (time_or_zero c) (time_or_zero current),
)

superseded-Reaches :
    (c d : Checkpoint) (current : Option Checkpoint)
    → supersedes c current ≡ true
    → Reaches d current
    → Reaches d (some c)
unfolding supersedes
superseded-Reaches c d none h k = absurd k
superseded-Reaches c d (some current) h k = IsUpTo-trans d current c k (IsUpTo-of current c h)

abbrev Round : Type 0
Round = List (Text × Checkpoint) × Bool

merge_one-keeps :
    (c d : Checkpoint) (key : Text) (state : Round)
    → Reaches d (get key state.0)
    → Reaches d (get key (merge_one c state).0)
unfolding merge_one
merge_one-keeps c d key (entries, dirty) h =
    elim (Bool-cases (is_truthy c.dialog_id && supersedes c (get c.dialog_id entries))) [
      | inr e ↦ rw e h
      | inl e ↦ elim (Bool-cases (text_eq c.dialog_id key)) [
        | inl same ↦
            rw (e, get-set c.dialog_id key c entries, same)
              (superseded-Reaches c d (get c.dialog_id entries) (ground arith) (
                subst (λ k. Reaches d (get k entries)) (sym ((text_eq_iff c.dialog_id key).0 same))
                  h))
        | inr other ↦ rw (e, get-set c.dialog_id key c entries, other) h
      ]
    ]

merge_one-covers :
    (c : Checkpoint) (state : Round)
    → is_truthy c.dialog_id ≡ true
    → Reaches c (get c.dialog_id (merge_one c state).0)
unfolding merge_one
merge_one-covers c (entries, dirty) h = elim (Bool-cases (supersedes c (get c.dialog_id entries))) [
  | inl e ↦ rw (h, e, get-set_self c.dialog_id c entries) (Reaches-self c)
  | inr e ↦ rw (h, e) (not_superseded-Reaches c (get c.dialog_id entries) e)
]

merge_loop-keeps :
    (cs : List Checkpoint) (d : Checkpoint) (key : Text) (state : Round)
    → Reaches d (get key state.0)
    → Reaches d (get key (merge_loop cs state).0)
unfolding merge_loop
merge_loop-keeps [] d key state h = h
merge_loop-keeps (c ∷ cs) d key state h =
    merge_loop-keeps cs d key (merge_one c state) (merge_one-keeps c d key state h)

-- Every checkpoint of the list that names a dialog is reached in the entries.
abbrev pub AreReached : List Checkpoint → List (Text × Checkpoint) → Type 0
AreReached cs entries =
    All (λ c. is_truthy c.dialog_id ≡ true → Reaches c (get c.dialog_id entries)) cs

merge_loop-covers : (cs : List Checkpoint) (state : Round) → AreReached cs (merge_loop cs state).0
unfolding merge_loop
merge_loop-covers [] state = tt
merge_loop-covers (c ∷ cs) state = (
  λ h. merge_loop-keeps cs c c.dialog_id (merge_one c state) (merge_one-covers c state h),
  merge_loop-covers cs (merge_one c state),
)

-- The entries after a merge are those of its loop, whether the file is written or not.
pub merge-entries :
    (fails : Bool) (cs : List Checkpoint) (s : Checkpoints)
    → (merge fails cs s).0.entries ≡ (merge_loop cs (s.entries, false)).0
unfolding merge flush
merge-entries true cs s = ground arith
merge-entries false cs s = ground arith

-- A merge never takes a dialog back: a dialog that had a checkpoint still has one, with a later
-- sequence number, or with the same and a time that is not earlier (a missing number or time
-- counts as 0), even when the file cannot be written.
pub merge_keeps :
    (fails : Bool) (cs : List Checkpoint) (s : Checkpoints) (dialog_id : Text) {c : Checkpoint}
    → get dialog_id s.entries ≡ some c
    → Reaches c (get dialog_id (merge fails cs s).0.entries)
merge_keeps fails cs s dialog_id {c} h =
    rw (merge-entries fails cs s)
      (merge_loop-keeps cs c dialog_id (s.entries, false) (rw h (Reaches-self c)))

-- After a merge, each merged checkpoint that names a dialog is reached: its dialog has a
-- checkpoint that is not before it.
pub merge_covers :
    (fails : Bool) (cs : List Checkpoint) (s : Checkpoints)
    → AreReached cs (merge fails cs s).0.entries
merge_covers fails cs s = rw (merge-entries fails cs s) (merge_loop-covers cs (s.entries, false))

merge_one-clean :
    (c : Checkpoint) (state : Round) → (merge_one c state).1 ≡ false → merge_one c state ≡ state
unfolding merge_one
merge_one-clean c (entries, dirty) h = ground arith

merge_one-dirty : (c : Checkpoint) (state : Round) → state.1 ≡ true → (merge_one c state).1 ≡ true
unfolding merge_one
merge_one-dirty c (entries, dirty) h = ground arith

merge_loop-dirty :
    (cs : List Checkpoint) (state : Round) → state.1 ≡ true → (merge_loop cs state).1 ≡ true
unfolding merge_loop
merge_loop-dirty [] state h = h
merge_loop-dirty (c ∷ cs) state h =
    merge_loop-dirty cs (merge_one c state) (merge_one-dirty c state h)

-- A merge loop that does not set its flag has changed nothing.
merge_loop-clean :
    (cs : List Checkpoint) (state : Round)
    → (merge_loop cs state).1 ≡ false
    → merge_loop cs state ≡ state
unfolding merge_loop
merge_loop-clean [] state h = refl
merge_loop-clean (c ∷ cs) state h = elim (Bool-cases (merge_one c state).1) [
  | inl e ↦ cc (merge_loop-dirty cs (merge_one c state) e)
  | inr e ↦ merge_loop-clean cs (merge_one c state) h ∙ merge_one-clean c state e
]

-- The file keeps up with a merge: if it held the entries before, a merge that does not throw
-- leaves it holding the entries after, though it is written only when one has changed.
pub merge_saves :
    (fails : Bool) (cs : List Checkpoint) (s : Checkpoints) {t : Checkpoints}
    → s.file ≡ some s.entries
    → merge fails cs s ≡ (t, done tt)
    → t.file ≡ some t.entries
unfolding merge flush
merge_saves true cs s h e = ground (arith, merge_loop-clean cs (s.entries, false))
merge_saves false cs s h e = ground (arith, merge_loop-clean cs (s.entries, false))
