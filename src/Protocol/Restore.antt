-- ===== src/Protocol/Restore.antt =====
-- Whatever happens to a conversation, what is sent back to the model follows the tool protocol.
use ah.Base.{
  ℕ, ◌≡◌, refl, sym, ◌∙◌, subst, true, false, ◌&&◌, List, [], ◌∷◌, ◌++◌, Option, none, some, Text,
  text_eq, text_eq→eq, arith, any, All, Bool-cases, Option-cases, inl, inr, ◌⊎◌,
}
use ah.Protocol.{
  LlmToolCall, ConversationMessage, user, tool, last_assistant, is_result, missing, close_pending,
  RuntimeConversation, fresh, AgentExecutionResult, asked_from, reply, AgentExecutionOutput,
  remember, remember_response, record_tool_result, push_user, invalidate, is_some, Event, remembers,
  records, asks, compresses, step, run, restore,
}
use ah.Errors.{ExecutionError}
use ah.Protocol.Replay.{
  Awaited, nothing, is_id, settle, read, replay, replay-append, Knows-any, awaited,
}
use ah.Protocol.Pending.{replay-waiting, replay-known, replay-close_pending}

-- The conversation follows the protocol, results may be missing.
abbrev pub IsOpen : List ConversationMessage → Type 0
IsOpen messages = (t : Awaited) × (replay (some nothing) messages ≡ some t)

-- It follows the protocol and no result is missing.
abbrev pub IsClosed : List ConversationMessage → Type 0
IsClosed messages =
    (known : List Text) × (replay (some nothing) messages
      ≡ some (record { known = known; waiting = [] }))

close_pending-IsClosed :
    (messages : List ConversationMessage) → IsOpen messages → IsClosed (close_pending messages)
close_pending-IsClosed messages (t, h) = (t.known, replay-close_pending messages t h)

-- A message behind a conversation.
IsOpen-snoc :
    (messages : List ConversationMessage) (s t : Awaited) (m : ConversationMessage)
    → replay (some nothing) messages ≡ some s
    → read s m ≡ some t
    → IsOpen (messages ++ m ∷ [])
unfolding replay
IsOpen-snoc messages s t m h e = (t, rw (replay-append (some nothing) messages (m ∷ []), h, e) refl)

abbrev Held : Option (List ConversationMessage) → Type 0
Held none = Unit
Held (some messages) = IsOpen messages

abbrev pub Supplied : Option (List ConversationMessage) → Type 0
Supplied none = Unit
Supplied (some messages) = IsClosed messages

-- The history that came with a response was complete when it was sent.
abbrev pub FromClosed : Event → Type 0
FromClosed (remembers r) = Supplied r.conversation
FromClosed (records id content) = Unit
FromClosed (asks content) = Unit
FromClosed compresses = Unit

remember-Held :
    (messages : List ConversationMessage) (o : AgentExecutionOutput)
    → IsClosed messages
    → IsOpen (messages ++ reply o ∷ [])
unfolding read reply
remember-Held messages o (known, h) =
    IsOpen-snoc messages (record { known = known; waiting = [] }) _ (reply o) h refl

missing-any :
    (calls : List LlmToolCall) (after : List ConversationMessage) (id : Text)
    → any (λ call. text_eq call.id id) calls ≡ true
    → any (is_result id) after ≡ false
    → any (is_id id) (missing calls after) ≡ true
unfolding missing
missing-any [] after id p q = p
missing-any (call ∷ calls) after id p q = elim (Bool-cases (text_eq call.id id)) [
  | inl e ↦
      let open_call : any (is_result call.id) after ≡ false =
        subst (λ i. any (is_result i) after ≡ false) (sym (text_eq→eq call.id id e)) q in
      rw (open_call, e) refl
  | inr e ↦
      let rest : any (is_id id) (missing calls after) ≡ true =
        missing-any calls after id (ground (arith, p, e)) q in
      elim (Bool-cases (any (is_result call.id) after)) [
        | inl r ↦ rw r rest
        | inr r ↦ rw (r, e) rest
      ]
]

asked_from-IsClosed :
    (prompt : Text) (conversation : Option (List ConversationMessage))
    → Supplied conversation
    → IsClosed (asked_from prompt conversation)
unfolding read replay asked_from
asked_from-IsClosed prompt none h = ([], refl)
asked_from-IsClosed prompt (some messages) h = h

-- A result that the code records is for a call that waits.
expected-known :
    (messages : List ConversationMessage) (t : Awaited) (calls : List LlmToolCall)
    (after : List ConversationMessage) (id : Text)
    → replay (some nothing) messages ≡ some t
    → last_assistant messages ≡ some (calls, after)
    → any (λ call. text_eq call.id id) calls ≡ true
    → any (is_result id) after ≡ false
    → any (is_id id) t.known ≡ true
expected-known messages t calls after id h e p q =
    let waits : t.waiting ≡ missing calls after =
      replay-waiting messages t h ∙ rw (awaited, e) refl in
    Knows-any t.known id t.waiting (replay-known messages t h)
      (rw waits (missing-any calls after id p q))

module _ (estimate_tokens : Text → ℕ) where
  remember_response-Held :
      (c : RuntimeConversation) (r : AgentExecutionResult)
      → Supplied r.conversation
      → Held c.messages
      → Held (remember_response estimate_tokens c r).messages
  unfolding remember_response remember
  remember_response-Held c r k h = remembered r.result
    where
      remembered :
          (result : AgentExecutionOutput ⊎ ExecutionError)
          → Held (remember_response estimate_tokens c (record r { result = result })).messages
      remembered (inr error) = h
      remembered (inl output) = elim (Bool-cases (is_some r.conversation && c.invalidated)) [
        | inl e ↦ rw e h
        | inr e ↦ rw e (
            remember-Held (asked_from r.prompt r.conversation) output
              (asked_from-IsClosed r.prompt r.conversation k))
      ]

  record_tool_result-Held :
      (c : RuntimeConversation) (id content : Text)
      → Held c.messages
      → Held (record_tool_result estimate_tokens c id content).messages
  unfolding record_tool_result read
  record_tool_result-Held c id content = recorded c.messages
    where
      recorded :
          (messages : Option (List ConversationMessage))
          → Held messages
          → Held
              (record_tool_result estimate_tokens
                (record c { messages = messages })
                id
                content).messages
      recorded none h = tt
      recorded (some messages) (t, h) = elim (Option-cases (last_assistant messages)) [
        | inl e ↦ rw (record_tool_result, e) (t, h)
        | inr ((calls, after), e) ↦ elim (Bool-cases (any (λ call. text_eq call.id id) calls)) [
          | inr p ↦ rw (record_tool_result, e, p) (t, h)
          | inl p ↦ elim (Bool-cases (any (is_result id) after)) [
            | inl q ↦ rw (record_tool_result, e, p, q) (t, h)
            | inr q ↦
                rw (record_tool_result, e, p, q)
                  (IsOpen-snoc messages t
                    (record { known = t.known; waiting = settle id t.waiting }) (tool id content) h
                    (rw (expected-known messages t calls after id h e p q) refl))
          ]
        ]
      ]

  push_user-Held :
      (c : RuntimeConversation) (content : Text)
      → Held c.messages
      → Held (push_user estimate_tokens c content).messages
  unfolding push_user read
  push_user-Held c content = pushed c.messages
    where
      pushed :
          (messages : Option (List ConversationMessage))
          → Held messages
          → Held (push_user estimate_tokens (record c { messages = messages }) content).messages
      pushed none h = tt
      pushed (some messages) h =
          let (known, e) = close_pending-IsClosed messages h in
          IsOpen-snoc (close_pending messages) (record { known = known; waiting = [] }) nothing
            (user content) e refl

  step-Held :
      (c : RuntimeConversation) (e : Event)
      → FromClosed e
      → Held c.messages
      → Held (step estimate_tokens c e).messages
  unfolding step invalidate
  step-Held c (remembers r) k h = remember_response-Held c r k h
  step-Held c (records id content) k h = record_tool_result-Held c id content h
  step-Held c (asks content) k h = push_user-Held c content h
  step-Held c compresses k h = tt

  run-Held :
      (c : RuntimeConversation) (events : List Event)
      → All FromClosed events
      → Held c.messages
      → Held (run estimate_tokens c events).messages
  unfolding run
  run-Held c [] k h = h
  run-Held c (e ∷ events) k h = run-Held (step estimate_tokens c e) events k.1 (step-Held c e k.0 h)

  restored :
      (messages : Option (List ConversationMessage))
      → Held messages
      → Supplied (elim messages [ none ↦ none | some m ↦ some (close_pending m) ])
  restored none h = tt
  restored (some messages) h = close_pending-IsClosed messages h

  -- A conversation that starts fresh, whatever responses, results, user messages and compressions
  -- follow, is restored, if at all, as one that follows the tool protocol with a result for every
  -- call, if each response that brings a history brings one that is complete in this sense.
  pub restore-run-IsClosed :
      (events : List Event)
      → All FromClosed events
      → Supplied (restore (run estimate_tokens fresh events))
  unfolding restore fresh
  restore-run-IsClosed events k =
      restored (run estimate_tokens fresh events).messages (run-Held fresh events k tt)
