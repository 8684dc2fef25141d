-- ===== src/Runtime/Queues/Serial.antt =====
-- Tasks of one key do not overlap and run in the order in which they were queued.
use openclaw_bot_chat.Base.{
  ℕ, ◌≡◌, refl, subst, ◌∙◌, true, false, Bool-cases, Option, none, some, inl, inr, List, [], ◌∷◌,
  arith, Text, text_eq, text_eq_iff, length, if◌then◌else◌,
}
use openclaw_bot_chat.Base.Dict.{
  get, has, delete, get-set, get_absent, AreDistinct, AreDistinct-set,
}
use openclaw_bot_chat.Runtime.Queues.{
  waiting, running, settled, Ticket, Queues, is_settled, may_begin, runs, set_phase, key_of,
  enqueue, begin, is_number, forget, forget_of, settle, Step, enqueued, began, ended, Reachable,
  at_start, after,
}
use openclaw_bot_chat.Runtime.Queues.Tickets.{
  AreSettled, AreSerial, newest, IsBehind, AreBehind, length-set_phase, newest-set_phase,
  AreSettled-of_newest, AreSettled-settle, AreSettled-begin, IsBehind-set_phase, AreBehind-settle,
  AreBehind-begin, AreSerial-settle, AreSerial-begin,
}

has-delete_lem : (k j : Text) (m : List (Text × ℕ)) → has j m ≡ false → has j (delete k m) ≡ false
unfolding has delete
has-delete_lem k j [] h = refl
has-delete_lem k j ((i, n) ∷ m) h = ground (arith, has-delete_lem k j m)

AreDistinct-delete : (k : Text) (m : List (Text × ℕ)) → AreDistinct m → AreDistinct (delete k m)
unfolding delete
AreDistinct-delete k [] h = tt
AreDistinct-delete k ((j, i) ∷ m) (new, h) =
    ground (arith, AreDistinct-delete k m h, has-delete_lem k j m new)

pub get-delete :
    (k j : Text) (m : List (Text × ℕ))
    → AreDistinct m
    → get j (delete k m) ≡ (if text_eq k j then none else get j m)
unfolding get delete
get-delete k j [] h = ground arith
get-delete k j ((i, n) ∷ m) (new, h) = ground (
  arith,
  get-delete k j m h,
  get_absent i m new,
  text_eq_iff k j,
  text_eq_iff i k,
  text_eq_iff i j,
)

-- The state of the queues is sound: tasks are serial, and each ticket and the map point to the newest
-- ticket of a key, or all of it are settled.
pub record IsSerial (q : Queues) : Type 0 where
  pub serial : AreSerial q.tickets
  pub behind : AreBehind q.tickets
  pub distinct : AreDistinct q.last
  pub points : (key : Text) → IsBehind key (get key q.last) q.tickets

-- A new ticket of another key changes nothing for a key.
IsBehind-other :
    (key : Text) (previous : Option ℕ) (t : Ticket) (ts : List Ticket)
    → text_eq t.key key ≡ false
    → IsBehind key previous ts
    → IsBehind key previous (t ∷ ts)
unfolding newest
IsBehind-other key none t ts e h = (λ k. cc ((text_eq_iff t.key key).1 k), h)
IsBehind-other key (some p) t ts e h = rw e h

newest_own :
    (key : Text) (t : Ticket) (ts : List Ticket)
    → text_eq t.key key ≡ true
    → newest key (t ∷ ts) ≡ some (length ts)
unfolding newest
newest_own key t ts e = rw e refl

IsSerial-enqueue : (key : Text) (q : Queues) → IsSerial q → IsSerial (enqueue key q)
unfolding enqueue newest
IsSerial-enqueue key q v = record {
  serial = (λ w. cc w, v.serial);
  behind = (v.points key, v.behind);
  distinct = AreDistinct-set key (length q.tickets) q.last v.distinct;
  points = λ j. elim (Bool-cases (text_eq key j)) [
    | inl e ↦
        rw (get-set key j (length q.tickets) q.last, e)
          (newest_own j (record { key = key; previous = get key q.last; phase = waiting }) q.tickets
            e)
    | inr e ↦
        rw (get-set key j (length q.tickets) q.last, e)
          (IsBehind-other j (get j q.last) _ q.tickets e (v.points j))
  ];
}

IsSerial-begin :
    (n : ℕ) (q : Queues) → may_begin n q.tickets ≡ true → IsSerial q → IsSerial (begin n q)
unfolding begin
IsSerial-begin n q may v = record {
  serial = AreSerial-begin n q.tickets may v.behind v.serial;
  behind = AreBehind-begin n q.tickets may v.behind;
  distinct = v.distinct;
  points = λ j.
      IsBehind-set_phase j (get j q.last) n running q.tickets
        (λ a. AreSettled-begin j n q.tickets may a) (v.points j);
}

is_settled-settle :
    (n : ℕ) (ts : List Ticket) → runs n ts ≡ true → is_settled n (set_phase n settled ts) ≡ true
unfolding is_settled set_phase runs
is_settled-settle n [] r = cc
is_settled-settle n (t ∷ ts) r =
    ground (arith, is_settled-settle n ts, length-set_phase n settled ts)

-- When the newest ticket of a key ends, all of the key are settled.
AreSettled-end :
    (key : Text) (n : ℕ) (ts : List Ticket)
    → AreSerial ts
    → runs n ts ≡ true
    → newest key ts ≡ some n
    → AreSettled key (set_phase n settled ts)
AreSettled-end key n ts s r e =
    AreSettled-of_newest key (set_phase n settled ts) (AreSerial-settle n ts r s)
      (newest-set_phase key n settled ts ∙ e) (is_settled-settle n ts r)

newest_of_number :
    (key : Text) (n : ℕ) (number : Option ℕ) (ts : List Ticket)
    → is_number number n ≡ true
    → IsBehind key number ts
    → newest key ts ≡ some n
newest_of_number key n none ts e b = cc
newest_of_number key n (some m) ts e b = ground arith

-- The map after a ticket of a key has ended.
points-forget :
    (key j : Text) (n : ℕ) (last : List (Text × ℕ)) (ts : List Ticket)
    → AreSerial ts
    → AreDistinct last
    → runs n ts ≡ true
    → ((k : Text) → IsBehind k (get k last) ts)
    → IsBehind j (get j (forget key n last)) (set_phase n settled ts)
unfolding forget
points-forget key j n last ts s d r points =
    let kept =
      IsBehind-set_phase j (get j last) n settled ts (λ a. AreSettled-settle j n ts a) (points j) in
    elim (Bool-cases (is_number (get key last) n)) [
      | inr e ↦ rw e kept
      | inl e ↦ elim (Bool-cases (text_eq key j)) [
        | inr other ↦ rw (e, get-delete key j last d, other) kept
        | inl same ↦
            rw (e, get-delete key j last d, same)
              (AreSettled-end j n ts s r (
                newest_of_number j n (get j last) ts
                  (subst (λ k. is_number (get k last) n ≡ true) ((text_eq_iff key j).0 same) e)
                  (points j)))
      ]
    ]

AreDistinct-forget :
    (key : Text) (n : ℕ) (last : List (Text × ℕ))
    → AreDistinct last
    → AreDistinct (forget key n last)
unfolding forget
AreDistinct-forget key n last d = elim (Bool-cases (is_number (get key last) n)) [
  | inl e ↦ rw e (AreDistinct-delete key last d)
  | inr e ↦ rw e d
]

IsSerial-forget :
    (key : Option Text) (n : ℕ) (q : Queues)
    → runs n q.tickets ≡ true
    → IsSerial q
    → IsSerial (record { last = forget_of key n q.last; tickets = set_phase n settled q.tickets })
IsSerial-forget none n q r v = record {
  serial = AreSerial-settle n q.tickets r v.serial;
  behind = AreBehind-settle n q.tickets v.behind;
  distinct = v.distinct;
  points = λ j.
      IsBehind-set_phase j (get j q.last) n settled q.tickets
        (λ a. AreSettled-settle j n q.tickets a) (v.points j);
}
IsSerial-forget (some key) n q r v = record {
  serial = AreSerial-settle n q.tickets r v.serial;
  behind = AreBehind-settle n q.tickets v.behind;
  distinct = AreDistinct-forget key n q.last v.distinct;
  points = λ j. points-forget key j n q.last q.tickets v.serial v.distinct r v.points;
}

Step-IsSerial : {q r : Queues} → Step q r → IsSerial q → IsSerial r
unfolding settle
Step-IsSerial (enqueued key q) v = IsSerial-enqueue key q v
Step-IsSerial (began n q may) v = IsSerial-begin n q may v
Step-IsSerial (ended n q r) v = IsSerial-forget (key_of n q.tickets) n q r v

pub Reachable-IsSerial : {q : Queues} → Reachable q → IsSerial q
unfolding get
Reachable-IsSerial at_start = record { serial = tt; behind = tt; distinct = tt; points = λ key. tt }
Reachable-IsSerial (after r step) = Step-IsSerial step (Reachable-IsSerial r)

-- Tasks of one dialog and scope never overlap and keep their order: in every state that queueing,
-- beginning and ending tasks can reach, a task that has begun had all tasks that were queued under
-- its key before it settled, whether these succeeded or failed.
pub Reachable-AreSerial : {q : Queues} → Reachable q → AreSerial q.tickets
Reachable-AreSerial r = (Reachable-IsSerial r).serial
