-- ===== src/Config/Overrides.antt =====
-- What the legacy settings change: `applyLegacyOverrides` of
-- plugins/openclaw-bot-chat/src/config.ts.
use openclaw_bot_chat.Base.{
  ◌≡◌, ◌≢◌, refl, sym, ◌∙◌, false, subst, ap, Option, none, some, arith, Text, is_truthy, true,
  Bool-cases, inl, inr,
}
use mathlib.Core.Option.{some-injective}
use openclaw_bot_chat.Base.Dict.{get, set, get-set_self, get-set_other}
use openclaw_bot_chat.Types.{BotConfig}
use openclaw_bot_chat.Config.{ok}
use openclaw_bot_chat.Config.Bots.{
  Bots, or_first, first_key, overridden, override_current, override_selected,
  apply_legacy_overrides,
}

-- The value is the one that is given, or else as it was.
abbrev pub IsGivenOr {ℓ} : {A : Type ℓ} → Option Text → (Text → A) → A → A → Type ℓ
IsGivenOr none wrap old new = new ≡ old
IsGivenOr (some t) wrap old new = new ≡ wrap t

-- The bot has the key and the identifier that are given, and all else of the bot before.
abbrev pub IsChanged : Option Text → Option Text → BotConfig → BotConfig → Type 0
IsChanged access_key bot_id bot next =
    IsGivenOr access_key (λ t. t) bot.access_key next.access_key
    × IsGivenOr bot_id some bot.id next.id
    × (record next { access_key = bot.access_key; id = bot.id } ≡ bot)

-- The bots after the legacy settings were put into the bot of a key.
abbrev pub IsOverridden : Bots → Option Text → Option Text → Option Text → Bots → Type 0
IsOverridden bots selected access_key bot_id next =
    ((key : Text) → selected ≢ some key → get key next ≡ get key bots)
    × ((key : Text) (bot : BotConfig)
        → selected ≡ some key
        → is_truthy key ≡ true
        → get key bots ≡ some bot
        → (changed : BotConfig) × (get key next ≡ some changed)
          × IsChanged access_key bot_id bot changed)

overridden-IsChanged :
    (bot : BotConfig) (access_key bot_id : Option Text)
    → IsChanged access_key bot_id bot (overridden bot access_key bot_id)
overridden-IsChanged bot none none = (refl, refl, refl)
overridden-IsChanged bot none (some t) = (refl, refl, refl)
overridden-IsChanged bot (some k) none = (refl, refl, refl)
overridden-IsChanged bot (some k) (some t) = (refl, refl, refl)

-- Nothing is changed where nothing is given.
unchanged : (bot : BotConfig) → IsChanged none none bot bot
unchanged bot = (refl, refl, refl)

module _ (access_key bot_id : Option Text) where
  set-IsOverridden :
      (bots : Bots) (selected : Text) (current : BotConfig)
      → get selected bots ≡ some current
      → IsOverridden bots
          (some selected)
          access_key
          bot_id
          (set selected (overridden current access_key bot_id) bots)
  set-IsOverridden bots selected current e = (
    λ key ne.
        get-set_other selected key (overridden current access_key bot_id) bots
          (λ q. ne (ap some q)),
    λ key bot s t g.
        let same : (selected ≡ key) = some-injective _ _ s in
        let found : (bot ≡ current) =
          some-injective _ _ (sym g ∙ ap (λ k. get k bots) (sym same) ∙ e) in
        (
          overridden current access_key bot_id,
          ap (λ k. get k (set selected (overridden current access_key bot_id) bots)) (sym same)
              ∙ get-set_self selected (overridden current access_key bot_id) bots,
          subst (λ b. IsChanged access_key bot_id b (overridden current access_key bot_id))
              (sym found) (overridden-IsChanged current access_key bot_id),
        ),
  )

  override_current-IsOverridden :
      (bots : Bots) (selected : Text) (current : Option BotConfig) {next : Bots}
      → get selected bots ≡ current
      → override_current bots selected current access_key bot_id ≡ ok next
      → IsOverridden bots (some selected) access_key bot_id next
  override_current-IsOverridden bots selected none e h = cc
  override_current-IsOverridden bots selected (some current) {next} e h =
      subst (IsOverridden bots (some selected) access_key bot_id) (cc)
        (set-IsOverridden bots selected current e)

  blank :
      {selected : Text} (key : Text)
      → some selected ≡ some key
      → is_truthy key ≡ true
      → ¬ (is_truthy selected ≡ false)
  blank key s t f = cc (ap is_truthy (some-injective _ _ s))

  override_selected-IsOverridden :
      (bots : Bots) (selected : Option Text) {next : Bots}
      → override_selected bots selected access_key bot_id ≡ ok next
      → IsOverridden bots selected access_key bot_id next
  override_selected-IsOverridden bots none h = (λ key ne. ground arith, λ key bot s t g. cc)
  override_selected-IsOverridden bots (some selected) h = elim (Bool-cases (is_truthy selected)) [
    | inl t ↦ override_current-IsOverridden bots selected (get selected bots) refl (rw t at h)
    | inr f ↦ (λ key ne. ground arith, λ key bot s t g. absurd (blank key s t f))
  ]

-- The legacy settings change one bot, the default one or the first if there is no default, and of
-- it the key and the identifier, where they are given, and nothing else; all other bots stay as they
-- are.
pub apply_legacy_overrides-IsOverridden :
    (bots : Bots) (default_bot access_key bot_id : Option Text) {next : Bots}
    → apply_legacy_overrides bots default_bot access_key bot_id ≡ ok next
    → IsOverridden bots (or_first default_bot (first_key bots)) access_key bot_id next
unfolding apply_legacy_overrides
apply_legacy_overrides-IsOverridden bots default_bot none none h =
    (λ key ne. ground arith, λ key bot s t g. (bot, ground arith, unchanged bot))
apply_legacy_overrides-IsOverridden bots default_bot none (some bot_id) h =
    override_selected-IsOverridden none (some bot_id) bots _ h
apply_legacy_overrides-IsOverridden bots default_bot (some access_key) bot_id h =
    override_selected-IsOverridden (some access_key) bot_id bots _ h
