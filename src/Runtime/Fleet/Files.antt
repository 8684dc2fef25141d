-- ===== src/Runtime/Fleet/Files.antt =====
-- Which files the runtime of a bot reads: `sanitizeStateKey` of runtime/bot.ts.
use openclaw_bot_chat.Base.{
  ◌≡◌, ◌≢◌, refl, ap, sym, ◌∙◌, Bool, true, false, [], ◌∷◌, arith, All, Text, txt,
}
use openclaw_bot_chat.Types.{BotConfig}
use openclaw_bot_chat.Config.Loading.{PluginConfig}
use openclaw_bot_chat.Runtime.Fleet.{
  World, is_state_unit, sanitize_from, sanitize_state_key, managed_bot,
}

abbrev pub IsPlain : Text → Type 0
IsPlain = All (λ c. is_state_unit c ≡ true)

abbrev pub IsForeign : Text → Type 0
IsForeign = All (λ c. is_state_unit c ≡ false)

sanitize_from_plain : (within : Bool) (key : Text) → IsPlain key → sanitize_from within key ≡ key
unfolding sanitize_from
sanitize_from_plain within [] h = refl
sanitize_from_plain within (c ∷ cs) h = ground (arith, sanitize_from_plain false cs h.1)

sanitize_from_foreign : (key : Text) → IsForeign key → sanitize_from true key ≡ []
unfolding sanitize_from
sanitize_from_foreign [] h = refl
sanitize_from_foreign (c ∷ cs) h = ground (arith, sanitize_from_foreign cs h.1)

sanitize_state_key_plain : (key : Text) → IsPlain key → sanitize_state_key key ≡ key
unfolding sanitize_state_key
sanitize_state_key_plain key h = sanitize_from_plain false key h

sanitize_state_key_foreign :
    (key : Text) → key ≢ [] → IsForeign key → sanitize_state_key key ≡ txt "_"
unfolding sanitize_state_key sanitize_from
sanitize_state_key_foreign [] ne h = absurd (ne refl)
sanitize_state_key_foreign (c ∷ cs) ne h = ground (arith, sanitize_from_foreign cs h.1)

module _ (world : World) (config : PluginConfig) (x y : BotConfig) where
  -- A bot whose key has only the units that file names keep has the sessions file and the
  -- checkpoints file of its key. Two bots whose keys, which are not empty, have none of these, such
  -- as two names in Chinese, have the same files, whatever the keys.
  pub managed_bot_files :
      (a b c : Text)
      → IsPlain a
      → b ≢ []
      → c ≢ []
      → IsForeign b
      → IsForeign c
      → ((managed_bot world config (a, x)).runtime.sessions.file ≡ world.sessions_file a)
        × ((managed_bot world config (a, x)).runtime.checkpoints.file ≡ world.checkpoints_file a)
        × ((managed_bot world config (b, x)).runtime.sessions
            ≡ (managed_bot world config (c, y)).runtime.sessions)
        × ((managed_bot world config (b, x)).runtime.checkpoints
            ≡ (managed_bot world config (c, y)).runtime.checkpoints)
  unfolding managed_bot
  managed_bot_files a b c p nb nc fb fc =
      let same = sanitize_state_key_foreign b nb fb ∙ sym (sanitize_state_key_foreign c nc fc) in
      (
        ap world.sessions_file (sanitize_state_key_plain a p),
        ap world.checkpoints_file (sanitize_state_key_plain a p),
        ap (λ k. record { entries = []; file = world.sessions_file k }) same,
        ap (λ k. record { entries = []; file = world.checkpoints_file k }) same,
      )
