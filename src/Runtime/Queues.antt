-- ===== src/Runtime/Queues.antt =====
-- `enqueueByDialog` of runtime/bot.ts: the tasks of one key run one after another. A promise that it
-- makes is a ticket: it waits for the ticket that its key had in the map, whether that succeeds or
-- fails, then its task runs, and when that has ended the map forgets it, unless a newer one of the key
-- took its place. Tickets are listed newest first; the number of one is how many are behind it.
pub mod Tickets
pub mod Serial
pub mod Forgotten
pub mod Progress
use openclaw_bot_chat.Base.{
  ℕ, suc, Bool, true, false, ◌&&◌, Option, none, some, List, [], ◌∷◌, Text, length, ◌==◌, ◌≡◌,
  if◌then◌else◌,
}
use openclaw_bot_chat.Base.Dict.{get, set, delete}

pub data Phase : Type 0 where
  waiting running settled : Phase

pub record Ticket : Type 0 where
  pub key : Text
  pub previous : Option ℕ
  pub phase : Phase

-- `dialogQueues`, with the number of the ticket for the promise, and all tickets so far.
pub record Queues : Type 0 where
  pub last : List (Text × ℕ)
  pub tickets : List Ticket

abbrev pub is_waiting : Phase → Bool
is_waiting waiting = true
is_waiting running = false
is_waiting settled = false

abbrev pub is_running : Phase → Bool
is_running waiting = false
is_running running = true
is_running settled = false

abbrev pub is_over : Phase → Bool
is_over waiting = false
is_over running = false
is_over settled = true

unfoldable pub is_settled : ℕ → List Ticket → Bool
is_settled n [] = false
is_settled n (t ∷ ts) = if n == length ts then is_over t.phase else is_settled n ts

abbrev pub follows : Option ℕ → List Ticket → Bool
follows none ts = true
follows (some p) ts = is_settled p ts

-- The ticket waits, and what it waits for is settled.
unfoldable pub may_begin : ℕ → List Ticket → Bool
may_begin n [] = false
may_begin n (t ∷ ts) =
    let rest = may_begin n ts in
    if n == length ts then is_waiting t.phase && follows t.previous ts else rest

unfoldable pub runs : ℕ → List Ticket → Bool
runs n [] = false
runs n (t ∷ ts) = if n == length ts then is_running t.phase else runs n ts

unfoldable pub set_phase : ℕ → Phase → List Ticket → List Ticket
set_phase n phase [] = []
set_phase n phase (t ∷ ts) =
    let rest = set_phase n phase ts in
    if n == length ts then record t { phase = phase } ∷ ts else t ∷ rest

unfoldable pub key_of : ℕ → List Ticket → Option Text
key_of n [] = none
key_of n (t ∷ ts) = if n == length ts then some t.key else key_of n ts

unfoldable pub enqueue : Text → Queues → Queues
enqueue key q = record {
  last = set key (length q.tickets) q.last;
  tickets = record { key = key; previous = get key q.last; phase = waiting } ∷ q.tickets;
}

unfoldable pub begin : ℕ → Queues → Queues
begin n q = record q { tickets = set_phase n running q.tickets }

abbrev pub is_number : Option ℕ → ℕ → Bool
is_number none n = false
is_number (some m) n = m == n

-- `if (this.dialogQueues.get(queueKey) === next) this.dialogQueues.delete(queueKey)`
unfoldable pub forget : Text → ℕ → List (Text × ℕ) → List (Text × ℕ)
forget key n last = if is_number (get key last) n then delete key last else last

abbrev pub forget_of : Option Text → ℕ → List (Text × ℕ) → List (Text × ℕ)
forget_of none n last = last
forget_of (some key) n last = forget key n last

unfoldable pub settle : ℕ → Queues → Queues
settle n q = record {
  last = forget_of (key_of n q.tickets) n q.last;
  tickets = set_phase n settled q.tickets;
}

-- What can happen next.
pub data Step : Queues → Queues → Type 0 where
  enqueued : (key : Text) (q : Queues) → Step q (enqueue key q)
  began : (n : ℕ) (q : Queues) → may_begin n q.tickets ≡ true → Step q (begin n q)
  ended : (n : ℕ) (q : Queues) → runs n q.tickets ≡ true → Step q (settle n q)

abbrev pub no_queues : Queues
no_queues = record { last = []; tickets = [] }

pub data Reachable : Queues → Type 0 where
  at_start : Reachable no_queues
  after : {q r : Queues} → Reachable q → Step q r → Reachable r
