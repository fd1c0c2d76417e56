-- ===== src/Watchdog/Tests.antt =====
-- The watchdog's readings and decisions at concrete conversations and replies.
use ah.Base.{◌≡◌, refl, List, [], ◌∷◌, Option, none, some, Text, bytes}
use ah.Protocol.{LlmToolCall, ConversationMessage, user}
use ah.Watchdog.{
  reverse, round_of, round_eq, rounds, same_prefix, streak, repeated_call_streak, is_error,
  error_rounds, consecutive_error_rounds, WatchdogSubjectKind, tool_call, sub_task, WatchdogAction,
  adjust, retry, cancel, WatchdogDecision, is_allowed, blank_step, blank_from, is_blank,
  filter_guidance, find_subject, needs_guidance, is_none, keep_decision, filter_decisions,
}
use ah.Watchdog.Rounds.{with_round, next_errors, consecutive_error_rounds-round}
use ah.Watchdog.Decisions.{IsSifted, filter_decisions-IsSifted}

abbrev build : LlmToolCall
unfolding bytes
build = record { id = bytes "call_1"; name = bytes "shell"; arguments = bytes "{\"cmd\":\"make\"}" }

abbrev failure : Text × Text
unfolding bytes
failure = (bytes "call_1", bytes "error: no rule to make target")

abbrev begun : List ConversationMessage
begun = with_round (user [] ∷ []) none build [] none (failure ∷ [])

twice :
    (repeated_call_streak (with_round begun none build [] none (failure ∷ [])) ≡ 2)
    × (consecutive_error_rounds (with_round begun none build [] none (failure ∷ [])) ≡ 2)
unfolding repeated_call_streak consecutive_error_rounds error_rounds is_error rounds round_of
    round_eq reverse same_prefix streak begun build failure bytes
twice = (refl, refl)

consecutive_error_rounds-round_example :
    consecutive_error_rounds (with_round begun none build [] none (failure ∷ []))
    ≡ next_errors (failure ∷ []) (consecutive_error_rounds begun)
consecutive_error_rounds-round_example =
    consecutive_error_rounds-round begun none build [] none (failure ∷ [])

-- A background call and a sub-task under review.
abbrev subjects : List (Text × WatchdogSubjectKind)
unfolding bytes
subjects = (bytes "S1", tool_call (bytes "shell")) ∷ (bytes "S2", sub_task (bytes "survey")) ∷ []

abbrev decision : Text → WatchdogAction → Option Text → WatchdogDecision
unfolding bytes
decision id action guidance = record {
  subject_id = id;
  progress = bytes "stalled";
  action = action;
  guidance = guidance;
  reason = bytes "no output";
}

-- A retry of the call, advice to the sub-task that is blank, and a retry of the sub-task.
abbrev replied : List WatchdogDecision
unfolding bytes
replied =
    decision (bytes "S1") retry none
    ∷ decision (bytes "S2") adjust (some (32 ∷ 0xE3 ∷ 0x80 ∷ 0x80 ∷ 10 ∷ []))
    ∷ decision (bytes "S2") retry none
    ∷ []

one_kept : filter_decisions subjects replied ≡ decision (bytes "S1") retry none ∷ []
unfolding filter_decisions keep_decision find_subject is_allowed needs_guidance is_none
    filter_guidance is_blank blank_from ah.Watchdog.is_between blank_step subjects replied decision
    bytes
one_kept = refl

filter_decisions-IsSifted_example : IsSifted subjects replied (filter_decisions subjects replied)
filter_decisions-IsSifted_example = filter_decisions-IsSifted subjects replied
