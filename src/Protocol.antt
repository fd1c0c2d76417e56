-- ===== src/Protocol.antt =====
-- `RuntimeConversation` of src/domain/memory.rs: the tool protocol that a session sends back to the
-- model, over the messages of src/domain/execution.rs. The tokenizer of the crate `tiktoken_rs` is the
-- argument `estimate_tokens`; of an execution result the model keeps the fields that are read.
mod Pending
mod Restore
mod Response
mod Replay
mod Tokens
mod Tests
use ah.Base.{
  ℕ, ◌+◌, ◌-◌, ◌^◌, min, Bool, true, false, ◌&&◌, not, List, [], ◌∷◌, ◌++◌, map, Option, none, some,
  ◌⊎◌, inl, inr, Text, bytes, text_eq, if◌then◌else◌, any, filter, length, drop,
}
use ah.Errors.{ExecutionError}

pub record LlmToolCall : Type 0 where
  pub id : Text
  pub name : Text
  pub arguments : Text

pub data ConversationMessage : Type 0 where
  system : Text → ConversationMessage
  user : Text → ConversationMessage
  assistant : Option Text → List LlmToolCall → Option Text → ConversationMessage
  tool : Text → Text → ConversationMessage

pub data OutputContent : Type 0 where
  text : Text → OutputContent
  tool_calls : List LlmToolCall → OutputContent
  tool_calls_with_text : Text → List LlmToolCall → OutputContent

-- `OutputContent::text`.
unfoldable pub content_text : OutputContent → Option Text
content_text (text t) = some t
content_text (tool_calls calls) = none
content_text (tool_calls_with_text t calls) = some t

unfoldable pub content_calls : OutputContent → List LlmToolCall
content_calls (text t) = []
content_calls (tool_calls calls) = calls
content_calls (tool_calls_with_text t calls) = calls

pub record AgentExecutionOutput : Type 0 where
  pub content : OutputContent
  pub reasoning_content : Option Text

pub record AgentExecutionResult : Type 0 where
  pub result : AgentExecutionOutput ⊎ ExecutionError
  pub prompt : Text
  pub conversation : Option (List ConversationMessage)

pub record RuntimeConversation : Type 0 where
  pub messages : Option (List ConversationMessage)
  pub invalidated : Bool
  pub estimated_tokens : ℕ

-- The derived default.
unfoldable pub fresh : RuntimeConversation
fresh = record { messages = none; invalidated = false; estimated_tokens = 0 }

-- `u32::saturating_add`.
unfoldable pub saturating_add : ℕ → ℕ → ℕ
saturating_add a b = min (a + b) (2 ^ 32 - 1)

-- The calls of the last assistant message and the messages behind it: `rposition` with the slice
-- from `anchor + 1` on.
unfoldable pub last_assistant :
    List ConversationMessage → Option (List LlmToolCall × List ConversationMessage)
last_assistant [] = none
last_assistant (assistant content calls reasoning ∷ messages) = elim (last_assistant messages) [
  | none ↦ some (calls, messages)
  | some found ↦ some found
]
last_assistant (system content ∷ messages) = last_assistant messages
last_assistant (user content ∷ messages) = last_assistant messages
last_assistant (tool id content ∷ messages) = last_assistant messages

unfoldable pub is_result : Text → ConversationMessage → Bool
is_result id (tool tool_call_id content) = text_eq tool_call_id id
is_result id (system content) = false
is_result id (user content) = false
is_result id (assistant content calls reasoning) = false

unfoldable pub interrupted : Text → ConversationMessage
unfolding bytes
interrupted id = tool id (
    bytes
      "[interrupted] Tool result unavailable; execution outcome is unknown. Check actual state before repeating.")

unfoldable pub missing : List LlmToolCall → List ConversationMessage → List Text
missing calls after =
    map (λ call. call.id) (filter (λ call. not (any (is_result call.id) after)) calls)

unfoldable pub close_pending : List ConversationMessage → List ConversationMessage
close_pending messages = elim (last_assistant messages) [
  | none ↦ messages
  | some (calls, after) ↦ messages ++ map interrupted (missing calls after)
]

unfoldable pub restore : RuntimeConversation → Option (List ConversationMessage)
restore c = elim c.messages [ none ↦ none | some messages ↦ some (close_pending messages) ]

unfoldable pub invalidate : RuntimeConversation → RuntimeConversation
invalidate c = record { messages = none; invalidated = true; estimated_tokens = 0 }

unfoldable pub is_some {ℓ} : {A : Type ℓ} → Option A → Bool
is_some none = false
is_some (some x) = true

-- The messages that a response continues.
unfoldable pub asked_from : Text → Option (List ConversationMessage) → List ConversationMessage
asked_from prompt none = user prompt ∷ []
asked_from prompt (some messages) = messages

-- The message that `remember_response` adds.
unfoldable pub reply : AgentExecutionOutput → ConversationMessage
reply o = assistant (content_text o.content) (content_calls o.content) o.reasoning_content

-- What happens to the conversation of a session.
pub data Event : Type 0 where
  remembers : AgentExecutionResult → Event
  records : Text → Text → Event
  asks : Text → Event
  compresses : Event

module _ (estimate_tokens : Text → ℕ) where
  unfoldable pub optional_tokens : Option Text → ℕ
  optional_tokens none = 0
  optional_tokens (some t) = estimate_tokens t

  unfoldable pub add_calls : ℕ → List LlmToolCall → ℕ
  add_calls tokens [] = tokens
  add_calls tokens (call ∷ calls) =
      add_calls (saturating_add tokens (estimate_tokens call.arguments)) calls

  -- `ConversationMessage::estimated_tokens`.
  unfoldable pub message_tokens : ConversationMessage → ℕ
  message_tokens (system content) = estimate_tokens content
  message_tokens (user content) = estimate_tokens content
  message_tokens (tool id content) = estimate_tokens content
  message_tokens (assistant content calls reasoning) =
      add_calls (saturating_add (optional_tokens content) (optional_tokens reasoning)) calls

  unfoldable pub add_tokens : ℕ → List ConversationMessage → ℕ
  add_tokens total [] = total
  add_tokens total (m ∷ messages) = add_tokens (saturating_add total (message_tokens m)) messages

  -- The part of `remember_response` behind its early returns.
  unfoldable pub remember : List ConversationMessage → RuntimeConversation
  remember messages = record {
    messages = some messages;
    invalidated = false;
    estimated_tokens = add_tokens 0 messages;
  }

  unfoldable pub remember_response :
      RuntimeConversation → AgentExecutionResult → RuntimeConversation
  remember_response c r = elim r.result [
    | inr error ↦ c
    | inl output ↦
        if is_some r.conversation && c.invalidated
        then c
        else remember (asked_from r.prompt r.conversation ++ reply output ∷ [])
  ]

  unfoldable pub record_tool_result : RuntimeConversation → Text → Text → RuntimeConversation
  record_tool_result c id content = elim c.messages [
    | none ↦ c
    | some messages ↦ elim (last_assistant messages) [
      | none ↦ c
      | some (calls, after) ↦
          if any (λ call. text_eq call.id id) calls && not (any (is_result id) after)
          then record c {
            estimated_tokens = saturating_add c.estimated_tokens (estimate_tokens content);
            messages = some (messages ++ tool id content ∷ []);
          }
          else c
    ]
  ]

  -- `messages` is the history before the call; the tokens of what is added follow it.
  unfoldable pub push_user : RuntimeConversation → Text → RuntimeConversation
  push_user c content = elim c.messages [
    | none ↦ c
    | some messages ↦
        let pushed = close_pending messages ++ user content ∷ [] in
        record c {
          messages = some pushed;
          estimated_tokens = add_tokens c.estimated_tokens (drop (length messages) pushed);
        }
  ]

  unfoldable pub step : RuntimeConversation → Event → RuntimeConversation
  step c (remembers r) = remember_response c r
  step c (records id content) = record_tool_result c id content
  step c (asks content) = push_user c content
  step c compresses = invalidate c

  unfoldable pub run : RuntimeConversation → List Event → RuntimeConversation
  run c [] = c
  run c (e ∷ events) = run (step c e) events
