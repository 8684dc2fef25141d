-- ===== src/Runtime/Start/Skipped.antt =====
-- What the merge of the bootstrap answer into the checkpoints does to the recovery after it.
use openclaw_bot_chat.Base.{
  ℕ, ℤ, pos, ◌<ℤ◌, get_or, refl, inl, inr, All, Exists, ◌≤ℤ◌, ◌≡◌, subst, map, Bool, true, Option,
  none, some, List, [], ◌∷◌, arith, Text, is_truthy,
}
use openclaw_bot_chat.Base.Dict.{get}
use openclaw_bot_chat.Values.{Value}
use openclaw_bot_chat.Types.{Checkpoint, BotChatMessage, ConversationInfo}
use openclaw_bot_chat.Stores.{Checkpoints, merge, get_stored}
use openclaw_bot_chat.Stores.Checkpoints.{IsUpTo, Reaches, merge_covers}
use openclaw_bot_chat.Runtime.State.{Setup, Host}
use openclaw_bot_chat.Runtime.Recovery.{select_messages}
use openclaw_bot_chat.Runtime.Recovery.Filter.{IsIn, IsBeyond, select_messages_iff}
use openclaw_bot_chat.Runtime.Start.{to_checkpoint}

All-of_IsIn :
    (P : Checkpoint → Type 0) (cs : List ConversationInfo) (c : ConversationInfo)
    → All P (map to_checkpoint cs)
    → Exists (λ d. d ≡ c) cs
    → P (to_checkpoint c)
All-of_IsIn P [] c h e = absurd e
All-of_IsIn P (d ∷ cs) c (p, h) (inl e) = subst (λ d. P (to_checkpoint d)) e p
All-of_IsIn P (d ∷ cs) c (p, h) (inr e) = All-of_IsIn P cs c h e

-- The dialog's checkpoint after the merge is not before the conversation.
stored-Reaches :
    (fails : Bool) (cs : List ConversationInfo) (c : ConversationInfo) (s : Checkpoints)
    → Exists (λ d. d ≡ c) cs
    → is_truthy c.conversation_id ≡ true
    → Reaches
        (to_checkpoint c)
        (get_stored c.conversation_id (merge fails (map to_checkpoint cs) s).0)
unfolding get_stored to_checkpoint
stored-Reaches fails cs c s e t =
    All-of_IsIn
      (λ d.
        is_truthy d.dialog_id ≡ true
        → Reaches d (get d.dialog_id (merge fails (map to_checkpoint cs) s).0.entries))
      cs c (merge_covers fails (map to_checkpoint cs) s) e t

number_le :
    (a b : Option ℤ) {n : ℤ}
    → get_or a (pos 0) ≤ℤ get_or b (pos 0)
    → a ≡ some n
    → n ≤ℤ get_or b (pos 0)
number_le a b h e = subst (λ o. get_or o (pos 0) ≤ℤ get_or b (pos 0)) e h

IsUpTo-le :
    (c later : Checkpoint)
    → IsUpTo c later
    → get_or c.last_seq (pos 0) ≤ℤ get_or later.last_seq (pos 0)
IsUpTo-le c later h = ground arith

-- A checkpoint that is not before one with a positive number has a number, which is not smaller.
Reaches-number :
    (c : Checkpoint) (o : Option Checkpoint) {n : ℤ}
    → Reaches c o
    → c.last_seq ≡ some n
    → pos 0 <ℤ n
    → (later : Checkpoint) × (last : ℤ) × (o ≡ some later)
      × (later.last_seq ≡ some last)
      × (n ≤ℤ last)
Reaches-number c none h e p = absurd h
Reaches-number c (some later) {n} h e p = go later.last_seq refl
  where
    le : n ≤ℤ get_or later.last_seq (pos 0)
    le = number_le c.last_seq later.last_seq (IsUpTo-le c later h) e

    go :
        (seq : Option ℤ)
        → later.last_seq ≡ seq
        → (d : Checkpoint) × (last : ℤ) × (some later ≡ some d)
          × (d.last_seq ≡ some last)
          × (n ≤ℤ last)
    go none q = absurd (omega (arith, subst (λ o. n ≤ℤ get_or o (pos 0)) q le))
    go (some last) q = (later, last, refl, q, subst (λ o. n ≤ℤ get_or o (pos 0)) q le)

-- After the conversations of a bootstrap answer were merged into the checkpoints, the recovery of one
-- of these dialogs handles no message up to the conversation's last sequence number, if this is
-- positive, whatever was handled before and whatever checkpoint was stored: messages that arrived
-- while the process was down are skipped.
pub bootstrap_skips :
    (setup : Setup) (host : Host) (fails : Bool) (cs : List ConversationInfo) (c : ConversationInfo)
    (s : Checkpoints) (tick : ℕ) (processed : List (Text × ℤ)) (values : List Value)
    (m : BotChatMessage) {n k : ℤ}
    → Exists (λ d. d ≡ c) cs
    → is_truthy c.conversation_id ≡ true
    → c.last_seq ≡ some n
    → pos 0 <ℤ n
    → m.seq ≡ some k
    → k ≤ℤ n
    → ¬ IsIn m (
        select_messages setup host c.conversation_id tick processed values
          (get_stored c.conversation_id (merge fails (map to_checkpoint cs) s).0))
unfolding to_checkpoint
bootstrap_skips setup host fails cs c s tick processed values m {n} {k} i t h p e le within =
    let (later, last, stored, number, reached) =
      Reaches-number (to_checkpoint c) _ (stored-Reaches fails cs c s i t) h p in
    let (fetched, own, beyond) =
      (select_messages_iff setup host c.conversation_id tick processed values later m number).0 (
        subst (λ o. IsIn m (select_messages setup host c.conversation_id tick processed values o))
          stored within) in
    let after : (last <ℤ k) = subst (λ seq. IsBeyond processed last seq m.message_id) e beyond in
    omega arith
