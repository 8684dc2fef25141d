-- ===== src/Examples/Fleet.antt =====
-- A plugin with one bot that starts, keys of bots, and the path of a conversation.
use openclaw_bot_chat.Base.{
  ◌≡◌, refl, ◌+◌, ◌-◌, none, [], ◌∷◌, map, split, arith, Text, txt, Avoids,
}
use openclaw_bot_chat.Topics.{slash}
use openclaw_bot_chat.Client.Http.{join, encode_conversation_path}
use openclaw_bot_chat.Client.Http.Paths.{encode_conversation_path-decodes}
use openclaw_bot_chat.Runtime.Fleet.{World, Managed, start_all, managed_bot, is_state_unit}
use openclaw_bot_chat.Runtime.Fleet.Outcome.{Outcome, start_all-Outcome}
use openclaw_bot_chat.Runtime.Fleet.Files.{managed_bot_files}
use openclaw_bot_chat.Examples.{host, setup, idle, config, dialog}
use openclaw_bot_chat.Examples.Configured.{settings}

abbrev managed : Managed
managed = record { setup = setup; host = host; ws_url = none; tcp_url = none; runtime = idle }

start_all-Outcome_example : Outcome (managed ∷ managed ∷ []) (start_all (managed ∷ managed ∷ []))
start_all-Outcome_example = start_all-Outcome (managed ∷ managed ∷ [])

abbrev world : World
world = record { host = λ key. host; sessions_file = λ key. none; checkpoints_file = λ key. none }

-- The units of two Chinese characters.
abbrev one_name : Text
one_name = 0x7532 ∷ []

abbrev other_name : Text
other_name = 0x4e59 ∷ []

managed_bot_files_example :
    ((managed_bot world settings (txt "main", config)).runtime.sessions.file ≡ none)
    × ((managed_bot world settings (txt "main", config)).runtime.checkpoints.file ≡ none)
    × ((managed_bot world settings (one_name, config)).runtime.sessions
        ≡ (managed_bot world settings (other_name, config)).runtime.sessions)
    × ((managed_bot world settings (one_name, config)).runtime.checkpoints
        ≡ (managed_bot world settings (other_name, config)).runtime.checkpoints)
unfolding is_state_unit
managed_bot_files_example =
    managed_bot_files world settings config config (txt "main") one_name other_name
      (refl, (refl, (refl, (refl, tt)))) (ground arith) (ground arith) (refl, tt) (refl, tt)

-- An encoding that gives no slash: every unit is moved past it.
abbrev encode : Text → Text
encode = map (λ c. c + 48)

abbrev decode : Text → Text
decode = map (λ c. c - 48)

encode-plain : (t : Text) → Avoids slash (encode t)
encode-plain [] = tt
encode-plain (c ∷ cs) = (λ e. omega arith, encode-plain cs)

decode-encode : (t : Text) → decode (encode t) ≡ t
decode-encode [] = refl
decode-encode (c ∷ cs) = ground (arith, decode-encode cs)

encode_conversation_path-decodes_example :
    join slash (map decode (split slash (encode_conversation_path encode dialog))) ≡ dialog
encode_conversation_path-decodes_example =
    encode_conversation_path-decodes encode decode encode-plain decode-encode dialog
