-- ===== src/Protocol/Replay.antt =====
-- The tool protocol as a machine that reads a conversation, independently of the code's search for
-- the last reply, and what its state is worth to that search.
use ah.Base.{
  ◌≡◌, refl, sym, ap, subst, Bool, true, not, List, [], ◌∷◌, ◌++◌, map, Option, none, some, Text,
  text_eq, text_eq_refl, text_eq→eq, arith, if◌then◌else◌, any, filter, All, Bool-cases, inl, inr,
}
use ah.Protocol.{
  LlmToolCall, ConversationMessage, system, user, assistant, tool, last_assistant, is_result,
  missing,
}

-- The calls of the last reply, if only results follow it, and those of them without a result.
pub record Awaited : Type 0 where
  pub known : List Text
  pub waiting : List Text

abbrev pub nothing : Awaited
nothing = record { known = []; waiting = [] }

abbrev pub call_ids : List LlmToolCall → List Text
call_ids = map (λ call. call.id)

abbrev pub is_id : Text → Text → Bool
is_id id k = text_eq k id

-- The waiting calls once a result for `id` has come.
abbrev pub settle : Text → List Text → List Text
settle id = filter (λ i. not (text_eq id i))

-- A message that may follow only when no result is missing.
abbrev pub when_settled : List Text → Awaited → Option Awaited
when_settled [] next = some next
when_settled (i ∷ waiting) next = none

-- A result must be for a known call; every other message waits until all calls have a result.
unfoldable pub read : Awaited → ConversationMessage → Option Awaited
read s (system content) = when_settled s.waiting nothing
read s (user content) = when_settled s.waiting nothing
read s (assistant content calls reasoning) =
    when_settled s.waiting (record { known = call_ids calls; waiting = call_ids calls })
read s (tool id content) =
    if any (is_id id) s.known
    then some (record { known = s.known; waiting = settle id s.waiting })
    else none

unfoldable pub replay : Option Awaited → List ConversationMessage → Option Awaited
replay s [] = s
replay none (m ∷ messages) = none
replay (some s) (m ∷ messages) = replay (read s m) messages

pub replay-none : (messages : List ConversationMessage) → replay none messages ≡ none
unfolding replay
replay-none [] = refl
replay-none (m ∷ messages) = refl

pub replay-append :
    (s : Option Awaited) (xs ys : List ConversationMessage)
    → replay s (xs ++ ys) ≡ replay (replay s xs) ys
unfolding replay
replay-append s [] ys = refl
replay-append none (m ∷ xs) ys = sym (replay-none ys)
replay-append (some s) (m ∷ xs) ys = replay-append (read s m) xs ys

-- Every waiting call is a known one.
abbrev pub Knows : List Text → List Text → Type 0
Knows known = All (λ i. any (is_id i) known ≡ true)

Knows-settle :
    (known : List Text) (id : Text) (w : List Text) → Knows known w → Knows known (settle id w)
Knows-settle known id [] k = k
Knows-settle known id (i ∷ w) k = elim (Bool-cases (text_eq id i)) [
  | inl e ↦ rw e (Knows-settle known id w k.1)
  | inr e ↦ rw e (k.0, Knows-settle known id w k.1)
]

pub Knows-weaken : (x : Text) (known w : List Text) → Knows known w → Knows (x ∷ known) w
Knows-weaken x known [] k = k
Knows-weaken x known (i ∷ w) k = (ground (arith, k.0), Knows-weaken x known w k.1)

pub Knows-refl : (w : List Text) → Knows w w
Knows-refl [] = tt
Knows-refl (i ∷ w) = (rw (text_eq_refl i) refl, Knows-weaken i w w (Knows-refl w))

-- A call that waits is known.
pub Knows-any :
    (known : List Text) (id : Text) (w : List Text)
    → Knows known w
    → any (is_id id) w ≡ true
    → any (is_id id) known ≡ true
Knows-any known id [] k h = ground arith
Knows-any known id (i ∷ w) k h = elim (Bool-cases (text_eq i id)) [
  | inl e ↦ subst (λ x. any (is_id x) known ≡ true) (text_eq→eq i id e) k.0
  | inr e ↦ Knows-any known id w k.1 (ground (arith, h, e))
]

abbrev pub Sound : Option Awaited → Type 0
Sound none = Unit
Sound (some s) = Knows s.known s.waiting

when_settled-Sound :
    (w : List Text) (next : Awaited) → Knows next.known next.waiting → Sound (when_settled w next)
when_settled-Sound [] next k = k
when_settled-Sound (i ∷ w) next k = tt

read-Sound : (s : Awaited) (m : ConversationMessage) → Knows s.known s.waiting → Sound (read s m)
unfolding read
read-Sound s (system content) k = when_settled-Sound s.waiting nothing tt
read-Sound s (user content) k = when_settled-Sound s.waiting nothing tt
read-Sound s (assistant content calls reasoning) k =
    when_settled-Sound s.waiting _ (Knows-refl (call_ids calls))
read-Sound s (tool id content) k = elim (Bool-cases (any (is_id id) s.known)) [
  | inl e ↦ rw e (Knows-settle s.known id s.waiting k)
  | inr e ↦ rw e tt
]

pub replay-Sound :
    (s : Option Awaited) (messages : List ConversationMessage) → Sound s → Sound (replay s messages)
unfolding replay
replay-Sound s [] k = k
replay-Sound none (m ∷ messages) k = tt
replay-Sound (some s) (m ∷ messages) k = replay-Sound (read s m) messages (read-Sound s m k)

-- What the code takes for missing when the calls `w` were waiting before the messages.
abbrev pub unanswered : List ConversationMessage → List Text → List Text
unanswered messages = filter (λ i. not (any (is_result i) messages))

abbrev pub awaited_from :
    List Text
    → List ConversationMessage
    → Option (List LlmToolCall × List ConversationMessage)
    → List Text
awaited_from w messages none = unanswered messages w
awaited_from w messages (some (calls, after)) = missing calls after

abbrev pub awaited : List Text → List ConversationMessage → List Text
awaited w messages = awaited_from w messages (last_assistant messages)

pub unanswered_nil : (w : List Text) → unanswered [] w ≡ w
unanswered_nil [] = refl
unanswered_nil (i ∷ w) = ap (◌∷◌ i) (unanswered_nil w)

pub missing-call_ids :
    (calls : List LlmToolCall) (after : List ConversationMessage)
    → missing calls after ≡ unanswered after (call_ids calls)
unfolding missing
missing-call_ids [] after = refl
missing-call_ids (call ∷ calls) after = elim (Bool-cases (any (is_result call.id) after)) [
  | inl e ↦ rw e (missing-call_ids calls after)
  | inr e ↦ rw e (ap (◌∷◌ call.id) (missing-call_ids calls after))
]

pub unanswered-settle :
    (id content : Text) (messages : List ConversationMessage) (w : List Text)
    → unanswered messages (settle id w) ≡ unanswered (tool id content ∷ messages) w
unfolding is_result
unanswered-settle id content messages [] = refl
unanswered-settle id content messages (i ∷ w) =
    ground (arith, unanswered-settle id content messages w)
