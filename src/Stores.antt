-- ===== src/Stores.antt =====
-- `SessionManager` and `CheckpointStore` of plugins/openclaw-bot-chat/src/runtime/session.ts and
-- checkpoint.ts: maps in memory that are written to a file after each change. A file is what
-- `readState` makes of it: the entries, or none if it is missing or damaged. A write goes to
-- a temporary file that is renamed, so one that fails leaves the file; the host decides (`fails`).
pub mod Sessions
pub mod Checkpoints
use openclaw_bot_chat.Base.{
  ℤ, pos, ltb_ℤ, eqb_ℤ, Bool, true, false, not, ◌||◌, ◌&&◌, Option, none, some, get_or, List, [],
  ◌∷◌, map, Text, text_eq, is_truthy, if◌then◌else◌,
}
use openclaw_bot_chat.Base.Dict.{get, set}
use openclaw_bot_chat.Types.{Checkpoint}

pub record Store (V : Type 0) : Type 0 where
  pub entries : List (Text × V)
  pub file : Option (List (Text × V))

-- The result of a call that may throw.
pub data Result {ℓ} (A : Type ℓ) : Type ℓ where
  done : A → Result A
  thrown : Result A

abbrev pub Sessions : Type 0
Sessions = Store Text

abbrev pub Checkpoints : Type 0
Checkpoints = Store Checkpoint

-- `flush` and `writeJsonFile`.
unfoldable pub flush : {V : Type 0} → Bool → Store V → Store V × Result (Unit {0})
flush true store = (store, thrown)
flush false store = (record store { file = some store.entries }, done tt)

abbrev pub file_entries : {V : Type 0} → Option (List (Text × V)) → List (Text × V)
file_entries none = []
file_entries (some entries) = entries

unfoldable pub load_sessions_from : List (Text × Text) → List (Text × Text) → List (Text × Text)
load_sessions_from sessions [] = sessions
load_sessions_from sessions ((dialog_id, session_id) ∷ rest) =
    load_sessions_from
      (if is_truthy dialog_id && is_truthy session_id
        then set dialog_id session_id sessions
        else sessions)
      rest

unfoldable pub load_sessions : Sessions → Sessions
load_sessions s = record s { entries = load_sessions_from [] (file_entries s.file) }

unfoldable pub get_session_id : Text → Sessions → Option Text
get_session_id dialog_id s = get dialog_id s.entries

abbrev after_flush {ℓ} :
    {A : Type ℓ} {V : Type 0} → A → Store V × Result (Unit {0}) → Store V × Result A
after_flush a (s, done u) = (s, done a)
after_flush a (s, thrown) = (s, thrown)

abbrev truthy_text : Option Text → Option Text
truthy_text none = none
truthy_text (some t) = if is_truthy t then some t else none

unfoldable pub get_or_create : Bool → Text → Text → Option Text → Sessions → Sessions × Result Text
unfolding flush
get_or_create fails fresh dialog_id preferred s = elim (truthy_text (get dialog_id s.entries)) [
  | some existing ↦ (s, done existing)
  | none ↦
      let session_id = get_or preferred fresh in
      after_flush session_id
        (flush fails (record s { entries = set dialog_id session_id s.entries }))
]

unfoldable pub set_session_id : Bool → Text → Text → Sessions → Sessions × Result (Unit {0})
unfolding flush
set_session_id fails dialog_id session_id s =
    flush fails (record s { entries = set dialog_id session_id s.entries })

unfoldable pub load_checkpoints_from :
    List (Text × Checkpoint) → List (Text × Checkpoint) → List (Text × Checkpoint)
load_checkpoints_from checkpoints [] = checkpoints
load_checkpoints_from checkpoints ((dialog_id, c) ∷ rest) =
    load_checkpoints_from (if is_truthy dialog_id then set dialog_id c checkpoints else checkpoints)
      rest

unfoldable pub load_checkpoints : Checkpoints → Checkpoints
load_checkpoints s = record s { entries = load_checkpoints_from [] (file_entries s.file) }

unfoldable pub get_stored : Text → Checkpoints → Option Checkpoint
get_stored dialog_id s = get dialog_id s.entries

abbrev pub seq_or_zero : Checkpoint → ℤ
seq_or_zero c = get_or c.last_seq (pos 0)

abbrev pub time_or_zero : Checkpoint → ℤ
time_or_zero c = get_or c.updated_at (pos 0)

-- `compareCheckpoint(left, right) >= 0`
unfoldable pub is_not_older : Checkpoint → Checkpoint → Bool
is_not_older left right =
    if eqb_ℤ (seq_or_zero left) (seq_or_zero right)
    then not (ltb_ℤ (time_or_zero left) (time_or_zero right))
    else not (ltb_ℤ (seq_or_zero left) (seq_or_zero right))

-- `!current || compareCheckpoint(checkpoint, current) >= 0`
unfoldable pub supersedes : Checkpoint → Option Checkpoint → Bool
unfolding is_not_older
supersedes c none = true
supersedes c (some current) = is_not_older c current

-- One round of the loop of `merge`, with the `dirty` flag.
unfoldable pub merge_one :
    Checkpoint → List (Text × Checkpoint) × Bool → List (Text × Checkpoint) × Bool
merge_one c (entries, dirty) =
    if is_truthy c.dialog_id && supersedes c (get c.dialog_id entries)
    then (set c.dialog_id c entries, true)
    else (entries, dirty)

unfoldable pub merge_loop :
    List Checkpoint → List (Text × Checkpoint) × Bool → List (Text × Checkpoint) × Bool
merge_loop [] state = state
merge_loop (c ∷ cs) state = merge_loop cs (merge_one c state)

abbrev flush_if_dirty : {V : Type 0} → Bool → Store V → Bool → Store V × Result (Unit {0})
flush_if_dirty fails s true = flush fails s
flush_if_dirty fails s false = (s, done tt)

unfoldable pub merge : Bool → List Checkpoint → Checkpoints → Checkpoints × Result (Unit {0})
merge fails cs s =
    let (entries, dirty) = merge_loop cs (s.entries, false) in
    flush_if_dirty fails (record s { entries = entries }) dirty

unfoldable pub update : Bool → Checkpoint → Checkpoints → Checkpoints × Result (Unit {0})
update fails c s = flush fails (record s { entries = set c.dialog_id c s.entries })

abbrev pub is_same : Option Text → Text → Bool
is_same none t = false
is_same (some u) t = text_eq u t

abbrev restore_session : Text → Option Text → List (Text × Text) × Bool → List (Text × Text) × Bool
restore_session dialog_id none state = state
restore_session dialog_id (some session_id) (sessions, dirty) =
    if not (is_truthy dialog_id) || is_same (get dialog_id sessions) session_id
    then (sessions, dirty)
    else (set dialog_id session_id sessions, true)

-- `restoreFromCheckpoints`: the loop with its `dirty` flag.
unfoldable pub restore_loop :
    List Checkpoint → List (Text × Text) × Bool → List (Text × Text) × Bool
restore_loop [] state = state
restore_loop (c ∷ cs) state =
    restore_loop cs (restore_session c.dialog_id (truthy_text c.session_id) state)

unfoldable pub restore_from_checkpoints :
    Bool → List Checkpoint → Sessions → Sessions × Result (Unit {0})
restore_from_checkpoints fails cs s =
    let (sessions, dirty) = restore_loop cs (s.entries, false) in
    flush_if_dirty fails (record s { entries = sessions }) dirty
