-- ===== src/Protocol/Response.antt =====
-- What is sent back to the model right after its response.
use ah.Base.{ℕ, ◌≡◌, refl, ◌∙◌, false, ◌&&◌, List, [], ◌∷◌, ◌++◌, map, Option, some, Text, inl}
use ah.Protocol.{
  LlmToolCall, ConversationMessage, system, user, assistant, tool, last_assistant, interrupted,
  missing, close_pending, RuntimeConversation, AgentExecutionResult, asked_from, reply,
  AgentExecutionOutput, remember, remember_response, is_some, content_calls, restore,
}
use ah.Protocol.Replay.{call_ids, missing-call_ids, unanswered_nil}

last_assistant-snoc :
    (messages : List ConversationMessage) (content : Option Text) (calls : List LlmToolCall)
    (reasoning : Option Text)
    → last_assistant (messages ++ assistant content calls reasoning ∷ []) ≡ some (calls, [])
unfolding last_assistant
last_assistant-snoc [] content calls reasoning = refl
last_assistant-snoc (system c ∷ messages) content calls reasoning =
    last_assistant-snoc messages content calls reasoning
last_assistant-snoc (user c ∷ messages) content calls reasoning =
    last_assistant-snoc messages content calls reasoning
last_assistant-snoc (tool id c ∷ messages) content calls reasoning =
    last_assistant-snoc messages content calls reasoning
last_assistant-snoc (assistant c cs r ∷ messages) content calls reasoning =
    rw (last_assistant, last_assistant-snoc messages content calls reasoning) refl

-- A successful response is restored with the history it came with, or with its prompt, and with an
-- interruption in place of every result, unless it is the late response to a history that a
-- compression has dropped.
pub restore-remember_response :
    (estimate_tokens : Text → ℕ) (c : RuntimeConversation) (r : AgentExecutionResult)
    (output : AgentExecutionOutput)
    → r.result ≡ inl output
    → is_some r.conversation && c.invalidated ≡ false
    → restore (remember_response estimate_tokens c r)
      ≡ some (
          (asked_from r.prompt r.conversation ++ reply output ∷ [])
          ++ map interrupted (call_ids (content_calls output.content)))
unfolding restore remember_response remember reply close_pending
restore-remember_response estimate_tokens c r output e late =
    let calls = content_calls output.content in
    let asked = asked_from r.prompt r.conversation in
    let last : last_assistant (asked ++ reply output ∷ []) ≡ some (calls, []) =
      last_assistant-snoc asked _ calls output.reasoning_content in
    let all : missing calls [] ≡ call_ids calls =
      missing-call_ids calls [] ∙ unanswered_nil (call_ids calls) in
    rw (remember_response, e, late, restore, close_pending, last, all) refl
