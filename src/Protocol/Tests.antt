-- ===== src/Protocol/Tests.antt =====
-- Runs of a conversation, and its theorems at concrete events.
use ah.Base.{
  ℕ, ◌/◌, ◌≡◌, refl, true, false, ◌&&◌, List, [], ◌∷◌, none, some, Text, bytes, length, inl,
}
use ah.Protocol.{
  LlmToolCall, user, assistant, tool, tool_calls, content_text, content_calls, AgentExecutionOutput,
  AgentExecutionResult, fresh, last_assistant, is_result, interrupted, missing, close_pending,
  restore, invalidate, is_some, asked_from, reply, Event, remembers, records, asks, remember,
  remember_response, record_tool_result, push_user, step, run,
}
use ah.Protocol.Restore.{Supplied, restore-run-IsClosed}
use ah.Protocol.Tokens.{restore-invalidate}

-- The tokenizer's fallback, four bytes to a token.
abbrev quarter : Text → ℕ
quarter t = length t / 4

abbrev list_call : LlmToolCall
unfolding bytes
list_call = record {
  id = bytes "call_1";
  name = bytes "list_files";
  arguments = bytes "{\"dir\":1}";
}

abbrev read_call : LlmToolCall
unfolding bytes
read_call = record { id = bytes "call_2"; name = bytes "read_file"; arguments = bytes "{}" }

abbrev calls_output : AgentExecutionOutput
calls_output = record {
  content = tool_calls (list_call ∷ read_call ∷ []);
  reasoning_content = none;
}

abbrev first_response : AgentExecutionResult
unfolding bytes
first_response = record {
  result = inl calls_output;
  prompt = bytes "what is here?";
  conversation = none;
}

-- A response, the result of its first call twice, and a user message before the second result.
abbrev events : List Event
unfolding bytes
events =
    remembers first_response
    ∷ records (bytes "call_1") (bytes "Cargo.toml")
    ∷ records (bytes "call_1") (bytes "README.md")
    ∷ asks (bytes "never mind")
    ∷ []

second_result_kept_out :
    restore (run quarter fresh events)
    ≡ some (
        user (bytes "what is here?")
        ∷ assistant none (list_call ∷ read_call ∷ []) none
        ∷ tool (bytes "call_1") (bytes "Cargo.toml")
        ∷ interrupted (bytes "call_2")
        ∷ user (bytes "never mind")
        ∷ [])
unfolding run step fresh remember_response remember record_tool_result push_user restore
    close_pending last_assistant is_result missing reply content_text content_calls asked_from
    interrupted is_some bytes
second_result_kept_out = refl

restore-run-IsClosed_example : Supplied (restore (run quarter fresh events))
unfolding events first_response
restore-run-IsClosed_example = restore-run-IsClosed quarter events (tt, (tt, (tt, (tt, tt))))

-- The response to a request sent before the compression comes after it.
abbrev late_response : AgentExecutionResult
unfolding bytes
late_response = record {
  result = inl calls_output;
  prompt = bytes "what is here?";
  conversation = some (user (bytes "what is here?") ∷ []);
}

late_has_history : is_some late_response.conversation ≡ true
unfolding is_some late_response
late_has_history = refl

restore-invalidate_example :
    restore (run quarter (invalidate (run quarter fresh events)) (remembers late_response ∷ []))
    ≡ none
restore-invalidate_example =
    restore-invalidate quarter (run quarter fresh events) (remembers late_response ∷ [])
      (late_has_history, tt)

fresh_is_valid : is_some first_response.conversation && fresh.invalidated ≡ false
unfolding is_some fresh first_response
fresh_is_valid = refl
