-- ===== src/Extension/Runtime/Recovered.antt =====
-- What a recovery hands to the host: `recoverHistory` of the extension's runtime.ts.
use openclaw_bot_chat.Base.{
  ℤ, pos, ◌≡◌, refl, ap, true, Option, none, some, get_or, List, [], ◌∷◌, ◌++◌, Text, txt,
}
use openclaw_bot_chat.Values.{Value, Fields, item}
use openclaw_bot_chat.Extension.Settings.{Language, ChannelMessage, read_number}
use openclaw_bot_chat.Extension.Messages.{to_inbound_message}
use openclaw_bot_chat.Extension.Effects.{
  Checkpoint, ChannelRuntime, Effect, emitted, Run, finished, after, ◌then_do◌, World,
}
use openclaw_bot_chat.Extension.Runtime.{emit_one, emit_all, recover_channels, recover_history}

module _ (l : Language) where
  -- The messages among the values, in order.
  abbrev pub readable : Text → List Value → List Effect
  readable channel_id [] = []
  readable channel_id (v ∷ vs) = elim (to_inbound_message l v channel_id) [
    | some m ↦ emitted m ∷ readable channel_id vs
    | none ↦ readable channel_id vs
  ]

  -- The messages of every channel that has a checkpoint, as `fetched` gives them.
  abbrev pub recovered : (Text → Option ℤ → List Value) → List (Text × Checkpoint) → List Effect
  recovered fetched [] = []
  recovered fetched ((key, c) ∷ cs) =
      readable c.channel_id (fetched c.channel_id c.last_seq) ++ recovered fetched cs

  abbrev pub limit_of : Fields → ℤ
  limit_of config = get_or (read_number l (item (txt "historyCatchupLimit") config)) (pos 100)

  module _ (w : World) (emits : (m : ChannelMessage) → w.emit m ≡ true) (s : ChannelRuntime) where
    emit_one_of :
        (o : Option ChannelMessage) (f : ChannelRuntime → Run) (es : List Effect)
        → f s ≡ finished s es
        → emit_one w l o s then_do f ≡ finished s (elim o [ some m ↦ emitted m ∷ es | none ↦ es ])
    emit_one_of none f es h = ap (after []) h
    emit_one_of (some m) f es h = simp (emits m) (ap (after (emitted m ∷ [])) h)

    emit_all-readable :
        (channel_id : Text) (vs : List Value)
        → emit_all w l channel_id vs s ≡ finished s (readable channel_id vs)
    emit_all-readable channel_id [] = refl
    emit_all-readable channel_id (v ∷ vs) =
        emit_one_of (to_inbound_message l v channel_id) (emit_all w l channel_id vs)
          (readable channel_id vs) (emit_all-readable channel_id vs)

    module _ (fetched : Text → Option ℤ → List Value) (limit : ℤ)
        (answers : (c : Text) (seq : Option ℤ) → w.history c seq limit ≡ some (fetched c seq)) where
      recover_channels-recovered :
          (cs : List (Text × Checkpoint))
          → recover_channels w l limit cs s ≡ finished s (recovered fetched cs)
      recover_channels-recovered [] = refl
      recover_channels-recovered ((key, c) ∷ cs) =
          rw
            (
              answers c.channel_id c.last_seq,
              emit_all-readable c.channel_id (fetched c.channel_id c.last_seq),
              recover_channels-recovered cs,
            )
            refl

    -- A recovery asks the server for each channel that has a checkpoint, for what follows the
    -- checkpoint up to the limit, and hands every readable message of the answers to the host, whoever
    -- sent it. It leaves the checkpoints: the next recovery, with the same answers, hands over the same
    -- messages again. The backend and the key are set, the server answers each request, and the host
    -- takes each message.
    pub recover_history-recovered_again :
        (config : Fields) (fetched : Text → Option ℤ → List Value) (url key : Text)
        → s.backend_url ≡ some url
        → s.bot_key ≡ some key
        → ((c : Text) (seq : Option ℤ) → w.history c seq (limit_of config) ≡ some (fetched c seq))
        → (recover_history w l config s then_do recover_history w l config)
          ≡ finished s (recovered fetched s.checkpoints ++ recovered fetched s.checkpoints)
    unfolding recover_history
    recover_history-recovered_again config fetched url key b k answers =
        simp (b, k, recover_channels-recovered fetched (limit_of config) answers s.checkpoints) refl
