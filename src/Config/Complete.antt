-- ===== src/Config/Complete.antt =====
-- The bots that the settings give are complete: `readBots`, `buildLegacyBots` and
-- `applyLegacyOverrides` of plugins/openclaw-bot-chat/src/config.ts.
use openclaw_bot_chat.Base.{
  subst, ◌≡◌, refl, Option, none, some, get_or, [], ◌∷◌, Text, txt, ◌++◌, text_eq, is_truthy, All,
  Bool-cases, inl, inr,
}
use openclaw_bot_chat.Base.Dict.{get, All-set}
use openclaw_bot_chat.Values.{Value, Fields, obj, end, field}
use openclaw_bot_chat.Values.Laws.{IsClean}
use openclaw_bot_chat.Permissions.{GroupPolicy, ActionPermissions}
use openclaw_bot_chat.Types.{BotConfig}
use openclaw_bot_chat.Config.{ConfigError, ChannelPolicy, read_strings}
use openclaw_bot_chat.Config.Bots.{
  Bots, or_first, overridden, require_key, bot_of, add_bot, override_current, override_selected,
  read_bot_config, read_bots_from, read_bots, build_legacy_bots, apply_legacy_overrides,
}
use openclaw_bot_chat.Config.Readers.{Ensures, Ensures->>=, IsCleanIf, read_strings-IsCleanIf}

-- A bot as the settings give it: nothing is left to a default, and no text is blank.
pub record IsComplete (bot : BotConfig) : Type 0 where
  pub key : IsClean bot.access_key
  pub named : IsCleanIf bot.id
  pub policy : (g : GroupPolicy) × (bot.group_policy ≡ some g)
  pub switches : (a : ActionPermissions) × (bot.actions ≡ some a)

abbrev pub AreComplete : Bots → Type 0
AreComplete = All (λ e. IsComplete e.1)

IsCleanIf-or_first : (a b : Option Text) → IsCleanIf a → IsCleanIf b → IsCleanIf (or_first a b)
IsCleanIf-or_first none b h k = k
IsCleanIf-or_first (some t) b h k = h

IsClean-get_or : (a : Option Text) (t : Text) → IsCleanIf a → IsClean t → IsClean (get_or a t)
IsClean-get_or none t h k = k
IsClean-get_or (some s) t h k = h

overridden-IsComplete :
    (bot : BotConfig) (access_key bot_id : Option Text)
    → IsCleanIf access_key
    → IsCleanIf bot_id
    → IsComplete bot
    → IsComplete (overridden bot access_key bot_id)
overridden-IsComplete bot access_key bot_id k i c = record {
  key = IsClean-get_or access_key bot.access_key k c.key;
  named = IsCleanIf-or_first bot_id bot.id i c.named;
  policy = c.policy;
  switches = c.switches;
}

require_key-IsClean :
    (o : Option Text) (e : ConfigError) → IsCleanIf o → Ensures IsClean (require_key o e)
require_key-IsClean none e h = tt
require_key-IsClean (some key) e h = h

bot_of-IsComplete :
    (lower : Text → Text) (fs : Fields) (default : ChannelPolicy) (access_key : Text)
    (bot_id : Option Text)
    → IsClean access_key
    → IsCleanIf bot_id
    → IsComplete (bot_of lower fs default access_key bot_id)
unfolding bot_of
bot_of-IsComplete lower fs default access_key bot_id k i = record {
  key = k;
  named = i;
  policy = (_, refl);
  switches = (_, refl);
}

module _ (lower : Text → Text) (default : ChannelPolicy) where
  abbrev AreCompleteIf : Option BotConfig → Type 0
  AreCompleteIf none = Unit
  AreCompleteIf (some bot) = IsComplete bot

  read_bot_config-IsComplete :
      (v : Value) (path : Text) → Ensures AreCompleteIf (read_bot_config lower default v path)
  unfolding read_bot_config
  read_bot_config-IsComplete (obj fs) path =
      Ensures->>= IsClean AreCompleteIf (require_key (read_strings _) _) _
        (require_key-IsClean (read_strings _) _ (read_strings-IsCleanIf _))
        (λ access_key h.
          bot_of-IsComplete lower fs default access_key (read_strings _) h
            (read_strings-IsCleanIf _))
  read_bot_config-IsComplete v path = tt

  add_bot-AreComplete :
      (key : Text) (o : Option BotConfig) (bots : Bots)
      → AreCompleteIf o
      → AreComplete bots
      → AreComplete (add_bot lower default key o bots)
  add_bot-AreComplete key none bots h c = c
  add_bot-AreComplete key (some bot) bots h c = All-set (λ e. IsComplete e.1) key bot bots h c

  read_bots_from-AreComplete :
      (fs : Fields) (bots : Bots)
      → AreComplete bots
      → Ensures AreComplete (read_bots_from lower default fs bots)
  unfolding read_bots_from
  read_bots_from-AreComplete end bots c = c
  read_bots_from-AreComplete (field key v fs) bots c =
      Ensures->>= AreCompleteIf AreComplete (read_bot_config lower default v (txt "bots." ++ key)) _
        (read_bot_config-IsComplete v (txt "bots." ++ key))
        (λ o h.
          read_bots_from-AreComplete fs (add_bot lower default key o bots)
            (add_bot-AreComplete key o bots h c))

  pub read_bots-AreComplete : (v : Value) → Ensures AreComplete (read_bots lower default v)
  unfolding read_bots
  read_bots-AreComplete (obj fs) = read_bots_from-AreComplete fs [] tt
  read_bots-AreComplete v = tt

  pub build_legacy_bots-AreComplete :
      (fs : Fields) (access_key bot_id default_bot : Option Text)
      → IsCleanIf access_key
      → IsCleanIf bot_id
      → Ensures AreComplete (build_legacy_bots lower default fs access_key bot_id default_bot)
  unfolding build_legacy_bots
  build_legacy_bots-AreComplete fs none bot_id default_bot k i = tt
  build_legacy_bots-AreComplete fs (some access_key) bot_id default_bot k i =
      (bot_of-IsComplete lower fs default access_key bot_id k i, tt)

-- What all entries have, the one of a key has.
pub get-All :
    (P : BotConfig → Type 0) (key : Text) (bots : Bots) (bot : BotConfig)
    → All (λ e. P e.1) bots
    → get key bots ≡ some bot
    → P bot
unfolding get
get-All P key [] bot h e = cc
get-All P key ((j, b) ∷ bots) bot h e = elim (Bool-cases (text_eq j key)) [
  | inl t ↦ subst P (cc (rw t at e)) h.0
  | inr t ↦ get-All P key bots bot h.1 (rw t at e)
]

module _ (access_key bot_id : Option Text) (k : IsCleanIf access_key) (i : IsCleanIf bot_id) where
  override_current-AreComplete :
      (bots : Bots) (selected : Text) (current : Option BotConfig)
      → ((bot : BotConfig) → current ≡ some bot → IsComplete bot)
      → AreComplete bots
      → Ensures AreComplete (override_current bots selected current access_key bot_id)
  override_current-AreComplete bots selected none c h = tt
  override_current-AreComplete bots selected (some bot) c h =
      All-set (λ e. IsComplete e.1) selected (overridden bot access_key bot_id) bots
        (overridden-IsComplete bot access_key bot_id k i (c bot refl)) h

  override_selected-AreComplete :
      (bots : Bots) (selected : Option Text)
      → AreComplete bots
      → Ensures AreComplete (override_selected bots selected access_key bot_id)
  override_selected-AreComplete bots none c = c
  override_selected-AreComplete bots (some selected) c = elim (Bool-cases (is_truthy selected)) [
    | inl t ↦ rw t (
        override_current-AreComplete bots selected (get selected bots)
          (λ bot e. get-All IsComplete selected bots bot c e) c)
    | inr t ↦ rw t c
  ]

pub apply_legacy_overrides-AreComplete :
    (bots : Bots) (default_bot access_key bot_id : Option Text)
    → IsCleanIf access_key
    → IsCleanIf bot_id
    → AreComplete bots
    → Ensures AreComplete (apply_legacy_overrides bots default_bot access_key bot_id)
unfolding apply_legacy_overrides
apply_legacy_overrides-AreComplete bots default_bot none none k i c = c
apply_legacy_overrides-AreComplete bots default_bot none (some bot_id) k i c =
    override_selected-AreComplete none (some bot_id) k i bots _ c
apply_legacy_overrides-AreComplete bots default_bot (some access_key) bot_id k i c =
    override_selected-AreComplete (some access_key) bot_id k i bots _ c
