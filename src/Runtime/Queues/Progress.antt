-- ===== src/Runtime/Queues/Progress.antt =====
-- The queues do not block.
use openclaw_bot_chat.Base.{
  ℕ, ◌<◌, ◌≡◌, refl, ◌⊎◌, inl, inr, true, Option, none, some, List, [], ◌∷◌, arith, Text, length,
  All,
}
use openclaw_bot_chat.Runtime.Queues.{
  Phase, waiting, running, settled, Ticket, Queues, is_over, follows, may_begin, runs, Reachable,
}
use openclaw_bot_chat.Runtime.Queues.Tickets.{IsBehind, AreBehind}
use openclaw_bot_chat.Runtime.Queues.Serial.{Reachable-IsSerial}
use openclaw_bot_chat.Runtime.Queues.Forgotten.{settled_of_over}

-- Some ticket of the list can go on: it can begin, or it runs and can end.
abbrev pub GoesOn : List Ticket → Type 0
GoesOn ts = (n : ℕ) × (n < length ts) × ((may_begin n ts ≡ true) ⊎ (runs n ts ≡ true))

GoesOn-cons : (t : Ticket) (ts : List Ticket) → GoesOn ts → GoesOn (t ∷ ts)
unfolding may_begin runs
GoesOn-cons t ts (n, below, inl may) = (n, omega arith, inl (ground arith))
GoesOn-cons t ts (n, below, inr run) = (n, omega arith, inr (ground arith))

follows_of_over :
    (key : Text) (previous : Option ℕ) (ts : List Ticket)
    → All (λ t. is_over t.phase ≡ true) ts
    → IsBehind key previous ts
    → follows previous ts ≡ true
follows_of_over key none ts h b = refl
follows_of_over key (some p) ts h b = settled_of_over key ts h b

-- A ticket behind which all are settled.
first_open :
    (phase : Phase) (t : Ticket) (ts : List Ticket)
    → t.phase ≡ phase
    → IsBehind t.key t.previous ts
    → All (λ u. is_over u.phase ≡ true) ts
    → All (λ u. is_over u.phase ≡ true) (t ∷ ts) ⊎ GoesOn (t ∷ ts)
unfolding may_begin runs
first_open waiting t ts e b h =
    inr (length ts, omega arith, inl (ground (arith, follows_of_over t.key t.previous ts h b)))
first_open running t ts e b h = inr (length ts, omega arith, inr (ground arith))
first_open settled t ts e b h = inl (ground arith, h)

go_on : (ts : List Ticket) → AreBehind ts → All (λ t. is_over t.phase ≡ true) ts ⊎ GoesOn ts
go_on [] b = inl tt
go_on (t ∷ ts) (b, bs) = elim (go_on ts bs) [
  | inl h ↦ first_open t.phase t ts refl b h
  | inr more ↦ inr (GoesOn-cons t ts more)
]

-- The queues do not block: in every state that they can reach, all tasks are settled, or one can
-- begin or is running.
pub Reachable-GoesOn :
    {q : Queues} → Reachable q → All (λ t. is_over t.phase ≡ true) q.tickets ⊎ GoesOn q.tickets
Reachable-GoesOn {q} r = go_on q.tickets (Reachable-IsSerial r).behind
