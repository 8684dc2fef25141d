-- ===== src/Runtime/Queues/Forgotten.antt =====
-- The map of queues forgets what is over.
use openclaw_bot_chat.Base.{
  ℕ, ◌≡◌, ◌≢◌, refl, ap, subst, true, false, Bool-cases, Option, none, some, inl, inr, List, [],
  ◌∷◌, arith, Text, text_eq, text_eq_iff, text_eq_refl, length, All,
}
use openclaw_bot_chat.Base.Dict.{AreDistinct, get, get-set}
use openclaw_bot_chat.Runtime.Queues.{
  running, settled, Ticket, Queues, is_over, is_settled, set_phase, key_of, enqueue, begin,
  is_number, forget, forget_of, settle, Step, enqueued, began, ended, Reachable, at_start, after,
}
use openclaw_bot_chat.Runtime.Queues.Tickets.{IsBehind, newest, newest-lt, length-set_phase}
use openclaw_bot_chat.Runtime.Queues.Serial.{get-delete, IsSerial, Reachable-IsSerial}

-- The ticket, if there is one, is not settled.
abbrev IsOpen : Option ℕ → List Ticket → Type 0
IsOpen none ts = Unit
IsOpen (some p) ts = is_settled p ts ≡ false

is_settled-begin :
    (p n : ℕ) (ts : List Ticket)
    → is_settled p ts ≡ false
    → is_settled p (set_phase n running ts) ≡ false
unfolding is_settled set_phase
is_settled-begin p n [] h = refl
is_settled-begin p n (t ∷ ts) h =
    ground (arith, is_settled-begin p n ts, length-set_phase n running ts)

is_settled-settle_other :
    (p n : ℕ) (ts : List Ticket)
    → p ≢ n
    → is_settled p ts ≡ false
    → is_settled p (set_phase n settled ts) ≡ false
unfolding is_settled set_phase
is_settled-settle_other p n [] ne h = refl
is_settled-settle_other p n (t ∷ ts) ne h =
    ground (arith, is_settled-settle_other p n ts, length-set_phase n settled ts)

key_of-newest :
    (key : Text) (ts : List Ticket) {n : ℕ} → newest key ts ≡ some n → key_of n ts ≡ some key
unfolding newest key_of
key_of-newest key [] e = cc
key_of-newest key (t ∷ ts) {n} e =
    ground (arith, key_of-newest key ts {n = n}, newest-lt key ts {p = n}, text_eq_iff t.key key)

IsOpen-enqueue :
    (key j : Text) (number : Option ℕ) (t : Ticket) (ts : List Ticket)
    → IsBehind j number ts
    → IsOpen number ts
    → IsOpen number (t ∷ ts)
unfolding is_settled
IsOpen-enqueue key j none t ts b h = tt
IsOpen-enqueue key j (some p) t ts b h = ground (arith, newest-lt j ts b)

IsOpen-begin :
    (number : Option ℕ) (n : ℕ) (ts : List Ticket)
    → IsOpen number ts
    → IsOpen number (set_phase n running ts)
IsOpen-begin none n ts h = tt
IsOpen-begin (some p) n ts h = is_settled-begin p n ts h

IsOpen-other :
    (number : Option ℕ) (n : ℕ) (ts : List Ticket)
    → number ≢ some n
    → IsOpen number ts
    → IsOpen number (set_phase n settled ts)
IsOpen-other none n ts ne h = tt
IsOpen-other (some p) n ts ne h = is_settled-settle_other p n ts (λ e. ne (ap some e)) h

abbrev AreOpen : Queues → Type 0
AreOpen q = (key : Text) → IsOpen (get key q.last) q.tickets

AreOpen-enqueue : (key : Text) (q : Queues) → IsSerial q → AreOpen q → AreOpen (enqueue key q)
unfolding enqueue is_settled
AreOpen-enqueue key q v h j = elim (Bool-cases (text_eq key j)) [
  | inl e ↦ rw (get-set key j (length q.tickets) q.last, e) (ground arith)
  | inr e ↦
      rw (get-set key j (length q.tickets) q.last, e)
        (IsOpen-enqueue key j (get j q.last) _ q.tickets (v.points j) (h j))
]

AreOpen-begin : (n : ℕ) (q : Queues) → AreOpen q → AreOpen (begin n q)
unfolding begin
AreOpen-begin n q h j = IsOpen-begin (get j q.last) n q.tickets (h j)

number_own : (n : ℕ) (number : Option ℕ) → number ≡ some n → is_number number n ≡ true
number_own n none e = cc
number_own n (some m) e = ground arith

number_some : (n : ℕ) (number : Option ℕ) → is_number number n ≡ true → number ≡ some n
number_some n none e = cc
number_some n (some m) e = ground arith

number_not : (n : ℕ) (number : Option ℕ) → is_number number n ≡ false → number ≡ some n → ⊥
number_not n none h e = cc
number_not n (some m) h e = cc (number_own n (some m) e)

-- A key whose number is not the one that ends keeps it.
forgotten_other :
    (ended_key : Option Text) (n : ℕ) (j : Text) (last : List (Text × ℕ)) (ts : List Ticket)
    → AreDistinct last
    → get j last ≢ some n
    → IsOpen (get j last) ts
    → IsOpen (get j (forget_of ended_key n last)) (set_phase n settled ts)
unfolding forget
forgotten_other none n j last ts d ne h = IsOpen-other (get j last) n ts ne h
forgotten_other (some key) n j last ts d ne h = elim (Bool-cases (is_number (get key last) n)) [
  | inr e ↦ rw e (IsOpen-other (get j last) n ts ne h)
  | inl e ↦ elim (Bool-cases (text_eq key j)) [
    | inl same ↦ rw (e, get-delete key j last d, same) tt
    | inr other ↦ rw (e, get-delete key j last d, other) (IsOpen-other (get j last) n ts ne h)
  ]
]

-- The key whose number ends is forgotten.
forgotten_own :
    (n : ℕ) (j : Text) (last : List (Text × ℕ)) (ts : List Ticket)
    → AreDistinct last
    → get j last ≡ some n
    → IsOpen (get j (forget j n last)) (set_phase n settled ts)
unfolding forget
forgotten_own n j last ts d e =
    rw (number_own n (get j last) e, get-delete j j last d, text_eq_refl j) tt

AreOpen-settle : (n : ℕ) (q : Queues) → IsSerial q → AreOpen q → AreOpen (settle n q)
unfolding settle
AreOpen-settle n q v h j = elim (Bool-cases (is_number (get j q.last) n)) [
  | inl e ↦
      let own : get j q.last ≡ some n = number_some n (get j q.last) e in
      let named : key_of n q.tickets ≡ some j =
        key_of-newest j q.tickets (subst (λ o. IsBehind j o q.tickets) own (v.points j)) in
      rw named (forgotten_own n j q.last q.tickets v.distinct own)
  | inr e ↦
      forgotten_other (key_of n q.tickets) n j q.last q.tickets v.distinct
        (λ own. number_not n (get j q.last) e own) (h j)
]

Step-AreOpen : {q r : Queues} → Step q r → IsSerial q → AreOpen q → AreOpen r
Step-AreOpen (enqueued key q) v h = AreOpen-enqueue key q v h
Step-AreOpen (began n q may) v h = AreOpen-begin n q h
Step-AreOpen (ended n q r) v h = AreOpen-settle n q v h

Reachable-AreOpen : {q : Queues} → Reachable q → AreOpen q
unfolding get
Reachable-AreOpen at_start key = tt
Reachable-AreOpen (after r step) key =
    Step-AreOpen step (Reachable-IsSerial r) (Reachable-AreOpen r) key

pub settled_of_over :
    (key : Text) (ts : List Ticket) {p : ℕ}
    → All (λ t. is_over t.phase ≡ true) ts
    → newest key ts ≡ some p
    → is_settled p ts ≡ true
unfolding newest is_settled
settled_of_over key [] h e = cc
settled_of_over key (t ∷ ts) {p} (o, h) e =
    ground (arith, settled_of_over key ts {p = p} h, newest-lt key ts {p = p})

none_of_over :
    (key : Text) (number : Option ℕ) (ts : List Ticket)
    → All (λ t. is_over t.phase ≡ true) ts
    → IsBehind key number ts
    → IsOpen number ts
    → number ≡ none
none_of_over key none ts h b o = refl
none_of_over key (some p) ts h b o = cc (settled_of_over key ts h b)

-- The map of queues does not leak: once all queued tasks are settled, it has no entry under any key.
pub Reachable-is_forgotten :
    {q : Queues} (key : Text)
    → Reachable q
    → All (λ t. is_over t.phase ≡ true) q.tickets
    → get key q.last ≡ none
Reachable-is_forgotten {q} key r h =
    none_of_over key (get key q.last) q.tickets h ((Reachable-IsSerial r).points key)
      (Reachable-AreOpen r key)
