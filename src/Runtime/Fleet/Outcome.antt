-- ===== src/Runtime/Fleet/Outcome.antt =====
-- What a start of all bots comes to.
use openclaw_bot_chat.Base.{
  ◌≡◌, refl, ap, sym, ◌∙◌, subst, List, [], ◌∷◌, ◌++◌, append_assoc, append-nil, map, ◌⊎◌, inl, inr,
  All,
}
use openclaw_bot_chat.Stores.{Result, done, thrown}
use openclaw_bot_chat.Runtime.Fleet.{
  Managed, started, after_start, stop_one, continue_start, start_loop, start_all,
}

-- The first runtime whose start throws is left as its start left it; those before it have started
-- and are stopped, and those after it are untouched.
pub data IsAborted : List Managed → List Managed → Type 0 where
  here :
      {m : Managed} {ms : List Managed}
      → (started m).1 ≡ thrown
      → IsAborted (m ∷ ms) (after_start m ∷ ms)
  later :
      {m : Managed} {ms after : List Managed}
      → (started m).1 ≡ done tt
      → IsAborted ms after
      → IsAborted (m ∷ ms) (stop_one (after_start m) ∷ after)

abbrev pub Outcome : List Managed → List Managed × Result (Unit {0}) → Type 0
Outcome ms (after, r) =
    All (λ m. (started m).1 ≡ done tt) ms × (after ≡ map after_start ms) × (r ≡ done tt)
    ⊎ IsAborted ms after × (r ≡ thrown)

map-append_one :
    (running : List Managed) (m : Managed) (after : List Managed)
    → map stop_one (running ++ m ∷ []) ++ after ≡ map stop_one running ++ stop_one m ∷ after
map-append_one [] m after = refl
map-append_one (n ∷ ns) m after = ap (λ l. stop_one n ∷ l) (map-append_one ns m after)

abbrev LoopOutcome : List Managed → List Managed → List Managed × Result (Unit {0}) → Type 0
LoopOutcome running ms p =
    All (λ m. (started m).1 ≡ done tt) ms × (p ≡ (running ++ map after_start ms, done tt))
    ⊎ (after : List Managed) × IsAborted ms after × (p ≡ (map stop_one running ++ after, thrown))

LoopOutcome-cons :
    (running : List Managed) (m : Managed) (ms : List Managed)
    (p : List Managed × Result (Unit {0}))
    → (started m).1 ≡ done tt
    → LoopOutcome (running ++ after_start m ∷ []) ms p
    → LoopOutcome running (m ∷ ms) p
LoopOutcome-cons running m ms p e (inl (all, q)) = inl (
  (e, all),
  q ∙ ap (λ l. (l, done tt)) (append_assoc running (after_start m ∷ []) (map after_start ms)),
)
LoopOutcome-cons running m ms p e (inr (after, aborted, q)) = inr (
  stop_one (after_start m) ∷ after,
  later e aborted,
  q ∙ ap (λ l. (l, thrown)) (map-append_one running (after_start m) after),
)

continue_start-Outcome :
    (running : List Managed) (m : Managed) (ms : List Managed) (r : Result (Unit {0}))
    (rest : List Managed × Result (Unit {0}))
    → (started m).1 ≡ r
    → LoopOutcome (running ++ after_start m ∷ []) ms rest
    → LoopOutcome running
        (m ∷ ms)
        (continue_start r rest (map stop_one running ++ after_start m ∷ ms))
continue_start-Outcome running m ms (done u) rest e h = LoopOutcome-cons running m ms rest e h
continue_start-Outcome running m ms thrown rest e h = inr (after_start m ∷ ms, here e, refl)

start_loop-Outcome : (running ms : List Managed) → LoopOutcome running ms (start_loop running ms)
unfolding start_loop
start_loop-Outcome running [] = inl (tt, ap (λ l. (l, done tt)) (sym (append-nil running)))
start_loop-Outcome running (m ∷ ms) =
    continue_start-Outcome running m ms (started m).1 _ refl
      (start_loop-Outcome (running ++ after_start m ∷ []) ms)

Outcome-of :
    (ms : List Managed) (p : List Managed × Result (Unit {0})) → LoopOutcome [] ms p → Outcome ms p
Outcome-of ms p (inl (all, q)) = inl (all, ap (λ p. p.0) q, ap (λ p. p.1) q)
Outcome-of ms p (inr (after, aborted, q)) =
    inr (subst (IsAborted ms) (sym (ap (λ p. p.0) q)) aborted, ap (λ p. p.1) q)

-- A start of all bots returns, with every runtime started, or it throws: then the first runtime
-- whose start throws is as that start left it, those before it were started and then stopped, and
-- those after it were not started.
pub start_all-Outcome : (ms : List Managed) → Outcome ms (start_all ms)
unfolding start_all
start_all-Outcome ms = Outcome-of ms (start_loop [] ms) (start_loop-Outcome [] ms)
