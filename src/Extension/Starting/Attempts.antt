-- ===== src/Extension/Starting/Attempts.antt =====
-- How often the server is asked: `bootstrapBotWithRetry` of the extension's runtime.ts.
use openclaw_bot_chat.Base.{
  ℕ, ◌+◌, ◌<◌, ◌≡◌, refl, zero, suc, All, List, [], ◌∷◌, ◌⊎◌, inl, inr, arith,
}
use openclaw_bot_chat.Extension.Starting.{
  Answer, answered, refused, attempts, retried, attempt_from, bootstrap_bot_with_retry,
}

abbrev pub IsRefused : Answer → Type 0
IsRefused (answered r) = ⊥
IsRefused (refused e) = Unit

abbrev pub IsAnswered : Answer → Type 0
IsAnswered (answered r) = Unit
IsAnswered (refused e) = ⊥

-- `n` numbers, from `k` on.
abbrev pub numbers_from : ℕ → ℕ → List ℕ
numbers_from zero k = []
numbers_from (suc n) k = k ∷ numbers_from n (k + 1)

-- The result is the answer to the attempt after `n` refusals, and only so many were made.
abbrev pub IsAfter : (ℕ → Answer) → Answer × List ℕ → ℕ → Type 0
IsAfter ask result n =
    (result ≡ (ask (n + 1), numbers_from (n + 1) 1))
    × All (λ k. IsRefused (ask k)) (numbers_from n 1)

module _ (ask : ℕ → Answer) where
  answers-IsAfter :
      (a b c : Answer)
      → ask 1 ≡ a
      → ask 2 ≡ b
      → ask 3 ≡ c
      → (n : ℕ) × (n < attempts)
        × IsAfter ask (retried 1 a (retried 2 b (retried 3 c (refused [], [])))) n
        × ((n + 1 ≡ attempts) ⊎ IsAnswered (ask (n + 1)))
  answers-IsAfter (answered r) b c p q h = (0, omega arith, (cc, tt), inr (rw p tt))
  answers-IsAfter (refused e) (answered r) c p q h =
      (1, omega arith, (cc, (rw p tt, tt)), inr (rw q tt))
  answers-IsAfter (refused e) (refused f) (answered r) p q h =
      (2, omega arith, (cc, (rw p tt, (rw q tt, tt))), inl refl)
  answers-IsAfter (refused e) (refused f) (refused g) p q h =
      (2, omega arith, (cc, (rw p tt, (rw q tt, tt))), inl refl)

  -- `bootstrapBotWithRetry` asks the server one to three times: each attempt but the last one was
  -- refused, and the last one was answered or is the third, whose refusal is then the result.
  pub bootstrap_bot_with_retry-attempts :
      (n : ℕ) × (n < attempts)
      × IsAfter ask (bootstrap_bot_with_retry ask) n
      × ((n + 1 ≡ attempts) ⊎ IsAnswered (ask (n + 1)))
  unfolding bootstrap_bot_with_retry attempt_from
  bootstrap_bot_with_retry-attempts = answers-IsAfter (ask 1) (ask 2) (ask 3) refl refl refl
