-- ===== src/Runtime/Queues/Tickets.antt =====
-- What beginning and ending a task does to the tickets of a key.
use openclaw_bot_chat.Base.{
  ℕ, ◌<◌, ◌≡◌, refl, sym, subst, ◌∙◌, true, false, Bool-cases, Option, none, some, inl, inr, List,
  [], ◌∷◌, arith, Text, text_eq, text_eq_iff, length, ◌==◌, if◌then◌else◌,
}
use openclaw_bot_chat.Runtime.Queues.{
  Phase, waiting, running, settled, Ticket, is_waiting, is_running, is_over, is_settled, follows,
  may_begin, runs, set_phase,
}

-- Every ticket of the key is settled.
abbrev pub AreSettled : Text → List Ticket → Type 0
AreSettled key [] = Unit
AreSettled key (t ∷ ts) = (t.key ≡ key → is_over t.phase ≡ true) × AreSettled key ts

-- A task begins only when all that were queued under its key before it are settled.
abbrev pub AreSerial : List Ticket → Type 0
AreSerial [] = Unit
AreSerial (t ∷ ts) = (is_waiting t.phase ≡ false → AreSettled t.key ts) × AreSerial ts

-- The number of the newest ticket of a key.
unfoldable pub newest : Text → List Ticket → Option ℕ
newest key [] = none
newest key (t ∷ ts) = if text_eq t.key key then some (length ts) else newest key ts

-- A ticket waits for the newest of its key, or all of its key are settled.
abbrev pub IsBehind : Text → Option ℕ → List Ticket → Type 0
IsBehind key none ts = AreSettled key ts
IsBehind key (some p) ts = newest key ts ≡ some p

abbrev pub AreBehind : List Ticket → Type 0
AreBehind [] = Unit
AreBehind (t ∷ ts) = IsBehind t.key t.previous ts × AreBehind ts

pub length-set_phase :
    (n : ℕ) (phase : Phase) (ts : List Ticket) → length (set_phase n phase ts) ≡ length ts
unfolding set_phase
length-set_phase n phase [] = refl
length-set_phase n phase (t ∷ ts) = ground (arith, length-set_phase n phase ts)

pub newest-set_phase :
    (key : Text) (n : ℕ) (phase : Phase) (ts : List Ticket)
    → newest key (set_phase n phase ts) ≡ newest key ts
unfolding newest set_phase
newest-set_phase key n phase [] = refl
newest-set_phase key n phase (t ∷ ts) =
    ground (arith, newest-set_phase key n phase ts, length-set_phase n phase ts)

pub newest-lt : (key : Text) (ts : List Ticket) {p : ℕ} → newest key ts ≡ some p → p < length ts
unfolding newest
newest-lt key [] e = cc
newest-lt key (t ∷ ts) {p} e = ground (arith, newest-lt key ts {p = p})

pub over-not_waiting : (phase : Phase) → is_over phase ≡ true → is_waiting phase ≡ false
over-not_waiting waiting h = cc
over-not_waiting running h = refl
over-not_waiting settled h = refl

pub waiting-not_over : (phase : Phase) → is_waiting phase ≡ true → is_over phase ≡ false
waiting-not_over waiting h = refl
waiting-not_over running h = cc
waiting-not_over settled h = cc

pub running-not_waiting : (phase : Phase) → is_running phase ≡ true → is_waiting phase ≡ false
running-not_waiting waiting h = cc
running-not_waiting running h = refl
running-not_waiting settled h = cc

-- If the newest ticket of a key is settled, all of the key are.
pub AreSettled-of_newest :
    (key : Text) (ts : List Ticket) {p : ℕ}
    → AreSerial ts
    → newest key ts ≡ some p
    → is_settled p ts ≡ true
    → AreSettled key ts
unfolding newest is_settled
AreSettled-of_newest key [] s e h = tt
AreSettled-of_newest key (t ∷ ts) {p} (b, s) e h = elim (Bool-cases (text_eq t.key key)) [
  | inl same ↦
      let over : is_over t.phase ≡ true = ground arith in
      (
        λ _. over,
        subst (λ k. AreSettled k ts) ((text_eq_iff t.key key).0 same)
            (b (over-not_waiting t.phase over)),
      )
  | inr other ↦
      let behind : newest key ts ≡ some p = ground arith in
      (
        λ k. cc ((text_eq_iff t.key key).1 k),
        AreSettled-of_newest key ts s behind (ground (arith, newest-lt key ts behind)),
      )
]

-- Settling a ticket unsettles none.
pub AreSettled-settle :
    (key : Text) (n : ℕ) (ts : List Ticket)
    → AreSettled key ts
    → AreSettled key (set_phase n settled ts)
unfolding set_phase
AreSettled-settle key n [] h = tt
AreSettled-settle key n (t ∷ ts) (p, h) = elim (Bool-cases (n == length ts)) [
  | inl e ↦ rw e (λ _. refl, h)
  | inr e ↦ rw e (p, AreSettled-settle key n ts h)
]

-- A ticket that begins was not settled, so its key's tickets were not.
pub AreSettled-begin :
    (key : Text) (n : ℕ) (ts : List Ticket)
    → may_begin n ts ≡ true
    → AreSettled key ts
    → AreSettled key (set_phase n running ts)
unfolding set_phase may_begin
AreSettled-begin key n [] may h = tt
AreSettled-begin key n (t ∷ ts) may (p, h) = elim (Bool-cases (n == length ts)) [
  | inl e ↦ rw e (λ k. sym (waiting-not_over t.phase (ground arith)) ∙ p k, h)
  | inr e ↦ rw e (p, AreSettled-begin key n ts (ground arith) h)
]

pub IsBehind-set_phase :
    (key : Text) (previous : Option ℕ) (n : ℕ) (phase : Phase) (ts : List Ticket)
    → (AreSettled key ts → AreSettled key (set_phase n phase ts))
    → IsBehind key previous ts
    → IsBehind key previous (set_phase n phase ts)
IsBehind-set_phase key none n phase ts f h = f h
IsBehind-set_phase key (some p) n phase ts f h = newest-set_phase key n phase ts ∙ h

pub AreBehind-settle :
    (n : ℕ) (ts : List Ticket) → AreBehind ts → AreBehind (set_phase n settled ts)
unfolding set_phase
AreBehind-settle n [] h = tt
AreBehind-settle n (t ∷ ts) (p, h) = elim (Bool-cases (n == length ts)) [
  | inl e ↦ rw e (p, h)
  | inr e ↦ rw e (
    IsBehind-set_phase t.key t.previous n settled ts (λ a. AreSettled-settle t.key n ts a) p,
    AreBehind-settle n ts h,
  )
]

pub AreBehind-begin :
    (n : ℕ) (ts : List Ticket)
    → may_begin n ts ≡ true
    → AreBehind ts
    → AreBehind (set_phase n running ts)
unfolding set_phase may_begin
AreBehind-begin n [] may h = tt
AreBehind-begin n (t ∷ ts) may (p, h) = elim (Bool-cases (n == length ts)) [
  | inl e ↦ rw e (p, h)
  | inr e ↦
      let below : may_begin n ts ≡ true = ground arith in
      rw e (
        IsBehind-set_phase t.key t.previous n running ts (λ a. AreSettled-begin t.key n ts below a)
            p,
        AreBehind-begin n ts below h,
      )
]

pub AreSerial-settle :
    (n : ℕ) (ts : List Ticket)
    → runs n ts ≡ true
    → AreSerial ts
    → AreSerial (set_phase n settled ts)
unfolding set_phase runs
AreSerial-settle n [] r h = tt
AreSerial-settle n (t ∷ ts) r (p, h) = elim (Bool-cases (n == length ts)) [
  | inl e ↦ rw e (λ _. p (running-not_waiting t.phase (ground arith)), h)
  | inr e ↦ rw e (λ w. AreSettled-settle t.key n ts (p w), AreSerial-settle n ts (ground arith) h)
]

-- What a ticket follows is settled, so all of its key before it are.
pub AreSettled-of_follows :
    (key : Text) (previous : Option ℕ) (ts : List Ticket)
    → AreSerial ts
    → IsBehind key previous ts
    → follows previous ts ≡ true
    → AreSettled key ts
AreSettled-of_follows key none ts s b h = b
AreSettled-of_follows key (some p) ts s b h = AreSettled-of_newest key ts s b h

pub AreSerial-begin :
    (n : ℕ) (ts : List Ticket)
    → may_begin n ts ≡ true
    → AreBehind ts
    → AreSerial ts
    → AreSerial (set_phase n running ts)
unfolding set_phase may_begin
AreSerial-begin n [] may b h = tt
AreSerial-begin n (t ∷ ts) may (pb, b) (p, h) = elim (Bool-cases (n == length ts)) [
  | inl e ↦ rw e (λ _. AreSettled-of_follows t.key t.previous ts h pb (ground arith), h)
  | inr e ↦
      let below : may_begin n ts ≡ true = ground arith in
      rw e (λ w. AreSettled-begin t.key n ts below (p w), AreSerial-begin n ts below b h)
]
