-- ===== src/Runtime/Recovery/Sound.antt =====
-- Recovery keeps the cache of processed messages sound.
use openclaw_bot_chat.Base.{
  suc, ◌+◌, ◌==◌, refl, Bool-cases, ◌||◌, Option, inl, inr, List, [], ◌∷◌, arith, Text, length,
}
use openclaw_bot_chat.Types.{BotChatMessage, Checkpoint}
use openclaw_bot_chat.Stores.{Result, done, thrown, get_stored}
use openclaw_bot_chat.Runtime.State.{
  FetchResult, fetched, http_error, failed, Host, Setup, Runtime, M, continue_with,
}
use openclaw_bot_chat.Runtime.Task.{handle_incoming_message}
use openclaw_bot_chat.Runtime.Task.Outcome.{
  IsMonotone, IsSound, Quiet-IsSound, handle_incoming_message-IsSound,
}
use openclaw_bot_chat.Runtime.Recovery.{
  history_limit, seq_of_checkpoint, select_messages, handle_all, replay, recover_dialog,
  recover_each, pending_dialogs, recover_pending_messages,
}

module _ (setup : Setup) (host : Host) (mono : IsMonotone setup host) where
  -- The second of two calls runs only if the first does not throw.
  pub continue_with-IsSound :
      {A B : Type 0} (p : Runtime × Result A) (f : A → M B)
      → IsSound setup host p.0
      → ((a : A) (t : Runtime) → IsSound setup host t → IsSound setup host (f a t).0)
      → IsSound setup host (continue_with p f).0
  continue_with-IsSound (t, done a) f h k = k a t h
  continue_with-IsSound (t, thrown) f h k = h

  handle_all-IsSound :
      (ms : List BotChatMessage) (s : Runtime)
      → IsSound setup host s
      → IsSound setup host (handle_all setup host ms s).0
  unfolding handle_all
  handle_all-IsSound [] s v = v
  handle_all-IsSound (m ∷ ms) s v =
      continue_with-IsSound (handle_incoming_message setup host m s) (λ _. handle_all setup host ms)
        (handle_incoming_message-IsSound setup host mono m s v) (λ _ t h. handle_all-IsSound ms t h)

  replay-IsSound :
      (dialog_id : Text) (checkpoint : Option Checkpoint) (answer : FetchResult) (s : Runtime)
      → IsSound setup host s
      → IsSound setup host (replay setup host dialog_id checkpoint answer s).0
  unfolding replay
  replay-IsSound dialog_id checkpoint (fetched values) s v =
      handle_all-IsSound (select_messages setup host dialog_id s.tick s.processed values checkpoint)
        (record s { tick = s.tick + length values })
        (Quiet-IsSound setup host mono s (record s { tick = s.tick + length values })
          (record { processed = refl; later = omega arith }) v)
  replay-IsSound dialog_id checkpoint (http_error status) s v =
      elim (Bool-cases (status == 404 || status == 400)) [ inl e ↦ rw e v | inr e ↦ rw e v ]
  replay-IsSound dialog_id checkpoint failed s v = v

  recover_dialog-IsSound :
      (dialog_id : Text) (s : Runtime)
      → IsSound setup host s
      → IsSound setup host (recover_dialog setup host dialog_id s).0
  unfolding recover_dialog
  recover_dialog-IsSound dialog_id s v =
      replay-IsSound dialog_id (get_stored dialog_id s.checkpoints)
        (host.fetch s.tick dialog_id (seq_of_checkpoint (get_stored dialog_id s.checkpoints))
          (history_limit s.bootstrap))
        (record s { tick = suc s.tick })
        (Quiet-IsSound setup host mono s (record s { tick = suc s.tick })
          (record { processed = refl; later = omega arith }) v)

  recover_each-IsSound :
      (ids : List Text) (s : Runtime)
      → IsSound setup host s
      → IsSound setup host (recover_each setup host ids s).0
  unfolding recover_each
  recover_each-IsSound [] s v = v
  recover_each-IsSound (id ∷ ids) s v =
      continue_with-IsSound (recover_dialog setup host id s) (λ _. recover_each setup host ids)
        (recover_dialog-IsSound id s v) (λ _ t h. recover_each-IsSound ids t h)

  pub recover_pending_messages-IsSound :
      (s : Runtime)
      → IsSound setup host s
      → IsSound setup host (recover_pending_messages setup host s).0
  unfolding recover_pending_messages
  recover_pending_messages-IsSound s v = recover_each-IsSound (pending_dialogs s) s v
