-- ===== src/Protocol/Pending.antt =====
-- The code's search for the calls without a result, against the protocol machine.
use ah.Base.{
  ◌≡◌, refl, sym, ap, ◌∙◌, subst, List, [], ◌∷◌, map, Option, none, some, Text, text_eq, arith, any,
  Bool-cases, inl, inr, Option-cases,
}
use ah.Protocol.{
  LlmToolCall, ConversationMessage, system, user, assistant, tool, last_assistant, interrupted,
  missing, close_pending,
}
use ah.Protocol.Replay.{
  Awaited, nothing, call_ids, is_id, settle, when_settled, read, replay, replay-append, Knows,
  Knows-refl, Sound, replay-Sound, awaited, awaited_from, unanswered_nil, missing-call_ids,
  unanswered-settle, replay-none,
}

-- What waits at the end, once the messages are read from a state where `w` waits.
abbrev Ends : List Text → List ConversationMessage → Option Awaited → Type 0
Ends w messages none = Unit
Ends w messages (some t) = t.waiting ≡ awaited w messages

Ends-transfer :
    (w v : List Text) (xs ys : List ConversationMessage) (t : Option Awaited)
    → awaited w xs ≡ awaited v ys
    → Ends v ys t
    → Ends w xs t
Ends-transfer w v xs ys none e h = tt
Ends-transfer w v xs ys (some t) e h = h ∙ sym e

-- Behind a message that waited for the results, nothing older is missing.
settled-Ends :
    (m : ConversationMessage) (w : List Text) (next : Awaited) (messages : List ConversationMessage)
    → awaited [] (m ∷ messages) ≡ awaited next.waiting messages
    → Ends next.waiting messages (replay (some next) messages)
    → Ends w (m ∷ messages) (replay (when_settled w next) messages)
settled-Ends m [] next messages e h =
    Ends-transfer [] next.waiting (m ∷ messages) messages (replay (some next) messages) e h
settled-Ends m (i ∷ w) next messages e h = rw (replay-none messages) tt

awaited-assistant :
    (content : Option Text) (calls : List LlmToolCall) (reasoning : Option Text)
    (messages : List ConversationMessage)
    → awaited [] (assistant content calls reasoning ∷ messages) ≡ awaited (call_ids calls) messages
unfolding last_assistant
awaited-assistant content calls reasoning messages = elim (Option-cases (last_assistant messages)) [
  | inl e ↦ rw (awaited, last_assistant, e) (missing-call_ids calls messages)
  | inr (found, e) ↦ rw (awaited, last_assistant, e) refl
]

awaited-tool :
    (id content : Text) (w : List Text) (messages : List ConversationMessage)
    → awaited w (tool id content ∷ messages) ≡ awaited (settle id w) messages
unfolding last_assistant
awaited-tool id content w messages = elim (Option-cases (last_assistant messages)) [
  | inl e ↦ rw (awaited, last_assistant, e) (sym (unanswered-settle id content messages w))
  | inr (found, e) ↦ rw (awaited, last_assistant, e) refl
]

awaited_nil :
    (m : ConversationMessage) (messages : List ConversationMessage)
    (found : Option (List LlmToolCall × List ConversationMessage))
    → awaited_from [] (m ∷ messages) found ≡ awaited_from [] messages found
awaited_nil m messages none = refl
awaited_nil m messages (some found) = refl

awaited-other :
    (m : ConversationMessage) (messages : List ConversationMessage)
    → last_assistant (m ∷ messages) ≡ last_assistant messages
    → awaited [] (m ∷ messages) ≡ awaited [] messages
awaited-other m messages e = rw (awaited, e) (awaited_nil m messages (last_assistant messages))

replay-Ends :
    (s : Awaited) (messages : List ConversationMessage)
    → Ends s.waiting messages (replay (some s) messages)
unfolding read replay last_assistant
replay-Ends s [] = sym (unanswered_nil s.waiting)
replay-Ends s (system content ∷ messages) =
    settled-Ends (system content) s.waiting nothing messages
      (awaited-other (system content) messages refl) (replay-Ends nothing messages)
replay-Ends s (user content ∷ messages) =
    settled-Ends (user content) s.waiting nothing messages
      (awaited-other (user content) messages refl) (replay-Ends nothing messages)
replay-Ends s (assistant content calls reasoning ∷ messages) =
    let next : Awaited = record { known = call_ids calls; waiting = call_ids calls } in
    settled-Ends (assistant content calls reasoning) s.waiting next messages
      (awaited-assistant content calls reasoning messages) (replay-Ends next messages)
replay-Ends s (tool id content ∷ messages) = elim (Bool-cases (any (is_id id) s.known)) [
  | inl e ↦
      let next : Awaited = record { known = s.known; waiting = settle id s.waiting } in
      rw e (
        Ends-transfer s.waiting next.waiting (tool id content ∷ messages) messages
          (replay (some next) messages) (awaited-tool id content s.waiting messages)
          (replay-Ends next messages))
  | inr e ↦ rw (e, replay-none messages) tt
]

-- The calls that the code finds missing are those that the machine waits for.
pub replay-waiting :
    (messages : List ConversationMessage) (t : Awaited)
    → replay (some nothing) messages ≡ some t
    → t.waiting ≡ awaited [] messages
replay-waiting messages t h = subst (Ends [] messages) h (replay-Ends nothing messages)

pub replay-known :
    (messages : List ConversationMessage) (t : Awaited)
    → replay (some nothing) messages ≡ some t
    → Knows t.known t.waiting
replay-known messages t h = subst Sound h (replay-Sound (some nothing) messages tt)

-- Results for every call in a list settle what waits of them.
settle-tail : (i : Text) (todo w : List Text) → Knows (i ∷ todo) w → Knows todo (settle i w)
settle-tail i todo [] k = tt
settle-tail i todo (j ∷ w) k = elim (Bool-cases (text_eq i j)) [
  | inl e ↦ rw e (settle-tail i todo w k.1)
  | inr e ↦ rw e (ground (arith, k.0, e), settle-tail i todo w k.1)
]

Knows-none : (w : List Text) → Knows [] w → w ≡ []
Knows-none [] k = refl
Knows-none (i ∷ w) k = ground (arith, k.0)

replay-interrupted :
    (known todo w : List Text)
    → Knows known todo
    → Knows todo w
    → replay (some (record { known = known; waiting = w })) (map interrupted todo)
      ≡ some (record { known = known; waiting = [] })
unfolding replay read interrupted
replay-interrupted known [] w k h =
    ap (λ v. some (record { known = known; waiting = v })) (Knows-none w h)
replay-interrupted known (i ∷ todo) w k h =
    rw (replay, read, k.0) (replay-interrupted known todo (settle i w) k.1 (settle-tail i todo w h))

-- With the missing results added, the machine waits for nothing.
pub replay-close_pending :
    (messages : List ConversationMessage) (t : Awaited)
    → replay (some nothing) messages ≡ some t
    → replay (some nothing) (close_pending messages)
      ≡ some (record { known = t.known; waiting = [] })
unfolding close_pending
replay-close_pending messages t h = elim (Option-cases (last_assistant messages)) [
  | inl e ↦
      let none_wait : t.waiting ≡ [] = replay-waiting messages t h ∙ rw (awaited, e) refl in
      rw (close_pending, e) (h ∙ ap (λ v. some (record { known = t.known; waiting = v })) none_wait)
  | inr ((calls, after), e) ↦
      let waits : t.waiting ≡ missing calls after =
        replay-waiting messages t h ∙ rw (awaited, e) refl in
      rw
        (
          close_pending,
          e,
          replay-append (some nothing) messages (map interrupted (missing calls after)),
          h,
          sym waits,
        )
        (replay-interrupted t.known t.waiting t.waiting (replay-known messages t h)
          (Knows-refl t.waiting))
]
