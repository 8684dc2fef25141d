-- ===== src/Permissions/Check.antt =====
-- When the check lets a message pass, stated without the order of its tests.
use openclaw_bot_chat.Base.{
  ◌≡◌, refl, ◌↔◌, ◌⊎◌, inl, inr, Bool, true, false, ◌&&◌, ◌||◌, Option, none, some, get_or, List,
  [], ◌∷◌, arith, Text, text_eq_iff, is_truthy, trim, trim_start, trim_end, if◌then◌else◌,
  any as any_of, contains, Exists,
}
use openclaw_bot_chat.Permissions.{
  AllowList, MatchMode, AllowListTarget, Action, PermissionContext, PermissionScopedBotConfig,
  GroupPolicy, disabled, allowlist, open_to_all, deny, PermissionCode, action_disabled,
  bot_disabled, channel_not_allowed, group_disabled, group_not_allowed, user_not_allowed, is_scoped,
  is_disabled, is_allowlist, allows, resolve_action_permissions, normalize_allow_list, targets,
  same_name, matches_allow_list, is_refused, check_channel, check_permission,
}

contains_iff :
    (t : Text) (items : List Text) → (contains t items ≡ true) ↔ Exists (λ i. i ≡ t) items
unfolding contains
contains_iff t [] = ground arith
contains_iff t (i ∷ items) = ground (arith, text_eq_iff i t, contains_iff t items)

trim-is_truthy : (t : Text) → is_truthy (trim t) ≡ true → is_truthy t ≡ true
unfolding is_truthy trim trim_start trim_end
trim-is_truthy [] h = h
trim-is_truthy (x ∷ xs) h = refl

abbrev is_none {ℓ} : {A : Type ℓ} → Option A → Bool
is_none none = true
is_none (some a) = false

module _ (lower : Text → Text) where
  -- Some item is the text but for the case of its letters.
  abbrev pub Names : Text → List Text → Type 0
  Names t = Exists (λ i. lower i ≡ lower t)

  same_name_iff :
      (t : Text) (items : List Text) → (any_of (same_name lower t) items ≡ true) ↔ Names t items
  same_name_iff t [] = ground arith
  same_name_iff t (i ∷ items) =
      ground (arith, text_eq_iff (lower i) (lower t), same_name_iff t items)

  Names-of_equal : (t : Text) (items : List Text) → Exists (λ i. i ≡ t) items → Names t items
  Names-of_equal t [] h = h
  Names-of_equal t (i ∷ items) (inl e) = inl (rw e refl)
  Names-of_equal t (i ∷ items) (inr h) = inr (Names-of_equal t items h)

  -- A list admits a sender or a channel by its identifier, by its display name, or by either.
  abbrev pub AdmitsId : List Text → Text → Type 0
  AdmitsId items key = (is_truthy (trim key) ≡ true) × Exists (λ i. i ≡ trim key) items

  abbrev pub AdmitsName : List Text → Text → Type 0
  AdmitsName items t = (is_truthy (trim t) ≡ true) × Names (trim t) items

  abbrev pub AdmitsLabel : List Text → Option Text → Type 0
  AdmitsLabel items none = ⊥
  AdmitsLabel items (some t) = AdmitsName items t

  abbrev pub Admits : MatchMode → List Text → Text → Option Text → Type 0
  Admits MatchMode.id items key label = AdmitsId items key
  Admits MatchMode.name items key label = AdmitsLabel items label
  Admits MatchMode.any items key label = AdmitsName items key ⊎ AdmitsLabel items label

  is_listed_any_eq :
      (t : Text) (items : List Text)
      → (contains (trim t) items || any_of (same_name lower (trim t)) items ≡ true)
        ↔ Names (trim t) items
  is_listed_any_eq t items = ground (
    arith,
    contains_iff (trim t) items,
    same_name_iff (trim t) items,
    Names-of_equal (trim t) items,
  )

  matches_iff :
      (items : List Text) (mode : MatchMode) (key : Text) (label : Option Text)
      → (matches_allow_list lower (record { items = items; match_mode = mode }) (targets key label)
          ≡ true)
        ↔ Admits mode items key label
  unfolding matches_allow_list
  matches_iff items MatchMode.id key none = ground (arith, contains_iff (trim key) items)
  matches_iff items MatchMode.id key (some t) =
      ground (arith, contains_iff (trim key) items, trim-is_truthy t)
  matches_iff items MatchMode.name key none = ground arith
  matches_iff items MatchMode.name key (some t) =
      ground (arith, same_name_iff (trim t) items, trim-is_truthy t)
  matches_iff items MatchMode.any key none = ground (arith, is_listed_any_eq key items)
  matches_iff items MatchMode.any key (some t) =
      ground (arith, is_listed_any_eq key items, is_listed_any_eq t items, trim-is_truthy t)

  -- Without a list everybody is admitted.
  abbrev pub AdmitsAny : Option AllowList → Text → Option Text → Type 0
  AdmitsAny none key label = Unit {0}
  AdmitsAny (some list) key label = Admits list.match_mode list.items key label

  is_refused_iff :
      (list : Option AllowList) (key : Text) (label : Option Text)
      → (is_refused lower list (targets key label) ≡ false) ↔ AdmitsAny list key label
  unfolding is_refused
  is_refused_iff none key label = ground arith
  is_refused_iff (some list) key label =
      ground (arith, matches_iff list.items list.match_mode key label)

  -- A direct conversation is let in; one of a group or a channel unless the policy is `disabled`,
  -- or `allowlist` with no list configured.
  abbrev pub LetsIn : Bool → GroupPolicy → Option AllowList → Type 0
  LetsIn false policy list = Unit
  LetsIn true open_to_all list = Unit
  LetsIn true disabled list = ⊥
  LetsIn true allowlist none = ⊥
  LetsIn true allowlist (some l) = Unit

  -- All that a message needs to be let through.
  pub record Permitted (action : Action) (context : PermissionContext)
      (config : PermissionScopedBotConfig) : Type 0 where
    pub enabled : config.enabled ≡ true
    pub switched_on : allows (resolve_action_permissions config.actions) action ≡ true
    pub user : AdmitsAny (normalize_allow_list config.users) context.user_id context.user_name
    pub scope :
        LetsIn
          (is_scoped context.channel_type)
          (get_or config.group_policy open_to_all)
          (normalize_allow_list config.channels)
    pub channel :
        AdmitsAny (normalize_allow_list config.channels) context.channel_id context.channel_name

  check_channel_iff :
      (list : Option AllowList) (scoped : Bool) (policy : GroupPolicy) (key : Text)
      (label : Option Text)
      → ((scoped && is_disabled policy ≡ false)
          × ((check_channel lower list scoped policy (targets key label)).allowed ≡ true))
        ↔ (LetsIn scoped policy list × AdmitsAny list key label)
  unfolding check_channel deny
  check_channel_iff none false policy key label = ground arith
  check_channel_iff none true open_to_all key label = ground arith
  check_channel_iff none true disabled key label = ground arith
  check_channel_iff none true allowlist key label = ground arith
  check_channel_iff (some list) false policy key label =
      ground (arith, matches_iff list.items list.match_mode key label)
  check_channel_iff (some list) true open_to_all key label =
      ground (arith, matches_iff list.items list.match_mode key label)
  check_channel_iff (some list) true disabled key label = ground arith
  check_channel_iff (some list) true allowlist key label =
      ground (arith, matches_iff list.items list.match_mode key label)

  -- The check lets a message pass exactly when the bot and the action are enabled, the sender is
  -- admitted, and the conversation is let in and admitted.
  pub check_permission-allowed_iff :
      (action : Action) (context : PermissionContext) (config : PermissionScopedBotConfig)
      → ((check_permission lower action context config).allowed ≡ true)
        ↔ Permitted action context config
  unfolding check_permission deny
  check_permission-allowed_iff action context config = ground (
    arith,
    is_refused_iff (normalize_allow_list config.users) context.user_id context.user_name,
    check_channel_iff (normalize_allow_list config.channels) (is_scoped context.channel_type)
        (get_or config.group_policy open_to_all) context.channel_id context.channel_name,
  )

  module _ (action : Action) (context : PermissionContext)
      (config : PermissionScopedBotConfig) where
    abbrev RunsAction : Type 0
    RunsAction =
        (config.enabled ≡ true) × (allows (resolve_action_permissions config.actions) action ≡ true)

    abbrev pub AdmitsUser : Type 0
    AdmitsUser = AdmitsAny (normalize_allow_list config.users) context.user_id context.user_name

    abbrev pub RefusesScope : GroupPolicy → Type 0
    RefusesScope policy =
        (is_scoped context.channel_type ≡ true) × (get_or config.group_policy open_to_all ≡ policy)

    -- Why a message is refused: the first of the tests that fails.
    abbrev pub Refuses : PermissionCode → Type 0
    Refuses bot_disabled = config.enabled ≡ false
    Refuses action_disabled =
        (config.enabled ≡ true)
        × (allows (resolve_action_permissions config.actions) action ≡ false)
    Refuses user_not_allowed = RunsAction × (¬ AdmitsUser)
    Refuses group_disabled = RunsAction × AdmitsUser × RefusesScope disabled
    Refuses group_not_allowed =
        RunsAction
        × AdmitsUser
        × RefusesScope allowlist
        × (normalize_allow_list config.channels ≡ none)
    Refuses channel_not_allowed =
        RunsAction
        × AdmitsUser
        × (¬ RefusesScope disabled)
        × (¬ AdmitsAny (normalize_allow_list config.channels) context.channel_id
            context.channel_name)

    check_channel_codes :
        (list : Option AllowList) (scoped : Bool) (policy : GroupPolicy) (ts : List AllowListTarget)
        → (check_channel lower list scoped policy ts).code ≡ (
            if is_refused lower list ts
            then some channel_not_allowed
            else if is_none list && scoped && is_allowlist policy
            then some group_not_allowed
            else none)
    unfolding check_channel deny is_refused
    check_channel_codes none scoped policy ts = ground arith
    check_channel_codes (some list) scoped policy ts = ground arith

    -- The check gives a code exactly when that code's test is the first that fails, in the order bot,
    -- action, user, group policy, channel list.
    pub check_permission-code_iff :
        (code : PermissionCode)
        → ((check_permission lower action context config).code ≡ some code) ↔ Refuses code
    unfolding check_permission deny
    check_permission-code_iff bot_disabled = ground (
      arith,
      check_channel_codes (normalize_allow_list config.channels) (is_scoped context.channel_type)
          (get_or config.group_policy open_to_all)
          (targets context.channel_id context.channel_name),
    )
    check_permission-code_iff _ = ground (
      arith,
      is_refused_iff (normalize_allow_list config.users) context.user_id context.user_name,
      is_refused_iff (normalize_allow_list config.channels) context.channel_id context.channel_name,
      check_channel_codes (normalize_allow_list config.channels) (is_scoped context.channel_type)
          (get_or config.group_policy open_to_all)
          (targets context.channel_id context.channel_name),
    )
