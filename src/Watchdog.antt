-- ===== src/Watchdog.antt =====
-- The watchdog's pure part, src/domain/watchdog.rs: what it reads off a conversation, and which of
-- the decisions in its reply are acted on. The reply arrives as decoded decisions; of a subject the
-- model keeps its kind.
mod Rounds
mod Actions
mod Blanks
mod Decisions
mod Tests
use ah.Base.{
  ℕ, zero, suc, ◌+◌, ◌%◌, ◌^◌, Bool, true, false, ◌&&◌, ◌||◌, not, List, [], ◌∷◌, ◌++◌, map, Option,
  none, some, Text, bytes, text_eq, starts_with, leb, ◌==◌, if◌then◌else◌, any,
}
use ah.Protocol.{LlmToolCall, ConversationMessage, system, user, assistant, tool}

-- `Iterator::rev`.
unfoldable pub reverse {ℓ} : {A : Type ℓ} → List A → List A
reverse [] = []
reverse (x ∷ xs) = reverse xs ++ x ∷ []

abbrev pub Round : Type 0
Round = List (Text × Text)

unfoldable pub round_of : List LlmToolCall → Round
round_of = map (λ call. (call.name, call.arguments))

-- Equality of two rounds.
unfoldable pub round_eq : Round → Round → Bool
round_eq [] [] = true
round_eq [] (y ∷ ys) = false
round_eq (x ∷ xs) [] = false
round_eq (x ∷ xs) (y ∷ ys) = (text_eq x.0 y.0 && text_eq x.1 y.1) && round_eq xs ys

-- The rounds of tool calls, in the order of the messages.
unfoldable pub rounds : List ConversationMessage → List Round
rounds [] = []
rounds (assistant content [] reasoning ∷ messages) = rounds messages
rounds (assistant content (call ∷ calls) reasoning ∷ messages) =
    round_of (call ∷ calls) ∷ rounds messages
rounds (system content ∷ messages) = rounds messages
rounds (user content ∷ messages) = rounds messages
rounds (tool id content ∷ messages) = rounds messages

-- `take_while(|round| *round == last).count()`.
unfoldable pub same_prefix : Round → List Round → ℕ
same_prefix last [] = 0
same_prefix last (round ∷ more) =
    let rest = same_prefix last more in if round_eq round last then suc rest else 0

-- A `usize` cast to u32, and the sum in u32.
unfoldable pub streak : List Round → ℕ
streak [] = 0
streak (last ∷ more) = (1 + same_prefix last more % 2 ^ 32) % 2 ^ 32

unfoldable pub repeated_call_streak : List ConversationMessage → ℕ
repeated_call_streak conversation = streak (rounds (reverse conversation))

unfoldable pub is_error : Text → Bool
unfolding bytes
is_error content = starts_with content (bytes "error:")

-- The loop of `consecutive_error_rounds`, with its three variables.
unfoldable pub error_rounds : ℕ → Bool → Bool → List ConversationMessage → ℕ
error_rounds n has_result all_errors [] = n
error_rounds n has_result all_errors (tool id content ∷ messages) =
    error_rounds n true (all_errors && is_error content) messages
error_rounds n has_result all_errors (assistant content [] reasoning ∷ messages) = n
error_rounds n has_result all_errors (assistant content (call ∷ calls) reasoning ∷ messages) =
    let skipped = error_rounds n has_result true messages in
    let counted = error_rounds ((n + 1) % 2 ^ 32) false true messages in
    if not has_result then skipped else if not all_errors then n else counted
error_rounds n has_result all_errors (user content ∷ messages) =
    error_rounds n has_result all_errors messages
error_rounds n has_result all_errors (system content ∷ messages) = n

unfoldable pub consecutive_error_rounds : List ConversationMessage → ℕ
consecutive_error_rounds conversation = error_rounds 0 false true (reverse conversation)

pub data WatchdogSubjectKind : Type 0 where
  tool_call sub_task : Text → WatchdogSubjectKind

pub data WatchdogAction : Type 0 where
  continue adjust finalize cancel retry notify_owner : WatchdogAction

-- Whether `allowed_actions` has the action.
unfoldable pub is_allowed : WatchdogSubjectKind → WatchdogAction → Bool
is_allowed (tool_call tool_name) continue = true
is_allowed (tool_call tool_name) cancel = true
is_allowed (tool_call tool_name) retry = true
is_allowed (tool_call tool_name) notify_owner = true
is_allowed (tool_call tool_name) adjust = false
is_allowed (tool_call tool_name) finalize = false
is_allowed (sub_task name) continue = true
is_allowed (sub_task name) adjust = true
is_allowed (sub_task name) finalize = true
is_allowed (sub_task name) notify_owner = true
is_allowed (sub_task name) cancel = true
is_allowed (sub_task name) retry = false

-- `RawDecision` and `WatchdogDecision` have the same fields, of which `guidance` is filtered.
pub record WatchdogDecision : Type 0 where
  pub subject_id : Text
  pub progress : Text
  pub action : WatchdogAction
  pub guidance : Option Text
  pub reason : Text

-- What a white space character still needs, byte by byte.
pub data Blank : Type 0 where
  between c2 e1 e1_9a e2 e2_80 e2_81 e3 e3_80 : Blank

unfoldable pub blank_step : Blank → ℕ → Option Blank
blank_step between b =
    if (leb 9 b && leb b 13) || (b == 32)
    then some between
    else if b == 0xC2
    then some c2
    else if b == 0xE1
    then some e1
    else if b == 0xE2
    then some e2
    else if b == 0xE3
    then some e3
    else none
blank_step c2 b = if (b == 0x85) || (b == 0xA0) then some between else none
blank_step e1 b = if b == 0x9A then some e1_9a else none
blank_step e1_9a b = if b == 0x80 then some between else none
blank_step e2 b = if b == 0x80 then some e2_80 else if b == 0x81 then some e2_81 else none
blank_step e2_80 b =
    if (leb 0x80 b && leb b 0x8A) || ((b == 0xA8) || ((b == 0xA9) || (b == 0xAF)))
    then some between
    else none
blank_step e2_81 b = if b == 0x9F then some between else none
blank_step e3 b = if b == 0x80 then some e3_80 else none
blank_step e3_80 b = if b == 0x80 then some between else none

unfoldable pub is_between : Blank → Bool
is_between between = true
is_between _ = false

unfoldable pub blank_from : Option Blank → Text → Bool
blank_from none text = false
blank_from (some s) [] = is_between s
blank_from (some s) (b ∷ bs) = blank_from (blank_step s b) bs

-- `trim().is_empty()`: a text of white space only.
unfoldable pub is_blank : Text → Bool
is_blank = blank_from (some between)

unfoldable pub filter_guidance : Option Text → Option Text
filter_guidance none = none
filter_guidance (some g) = if is_blank g then none else some g

-- `Iterator::find` among the subjects.
unfoldable pub find_subject : Text → List (Text × WatchdogSubjectKind) → Option WatchdogSubjectKind
find_subject id [] = none
find_subject id (subject ∷ subjects) =
    let rest = find_subject id subjects in if text_eq subject.0 id then some subject.1 else rest

unfoldable pub needs_guidance : WatchdogAction → Bool
needs_guidance adjust = true
needs_guidance notify_owner = true
needs_guidance continue = false
needs_guidance finalize = false
needs_guidance cancel = false
needs_guidance retry = false

unfoldable pub is_none {ℓ} : {A : Type ℓ} → Option A → Bool
is_none none = true
is_none (some x) = false

-- The closure of the `filter_map`.
unfoldable pub keep_decision :
    List (Text × WatchdogSubjectKind) → WatchdogDecision → Option WatchdogDecision
keep_decision subjects d = elim (find_subject d.subject_id subjects) [
  | none ↦ none
  | some kind ↦
      if not (is_allowed kind d.action)
      then none
      else if needs_guidance d.action && is_none (filter_guidance d.guidance)
      then none
      else some (record d { guidance = filter_guidance d.guidance })
]

unfoldable pub filter_decisions :
    List (Text × WatchdogSubjectKind) → List WatchdogDecision → List WatchdogDecision
filter_decisions subjects [] = []
filter_decisions subjects (d ∷ decisions) =
    let rest = filter_decisions subjects decisions in
    elim (keep_decision subjects d) [ none ↦ rest | some kept ↦ kept ∷ rest ]
