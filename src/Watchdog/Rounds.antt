-- ===== src/Watchdog/Rounds.antt =====
-- What the watchdog reads off a conversation, one round after another.
use ah.Base.{
  ℕ, ◌+◌, ◌%◌, ◌^◌, ◌<◌, ◌≡◌, refl, sym, ap, ◌∙◌, Bool, true, false, ◌&&◌, not, List, [], ◌∷◌, ◌++◌,
  append-nil, append_assoc, Text, text_eq→eq, Option, if◌then◌else◌, arith, Bool-cases, inl, inr,
}
use ah.Protocol.{LlmToolCall, ConversationMessage, system, user, assistant, tool}
use ah.Watchdog.{
  reverse, Round, round_of, round_eq, rounds, same_prefix, streak, repeated_call_streak, is_error,
  error_rounds, consecutive_error_rounds,
}

reverse-append {ℓ} : {A : Type ℓ} (xs ys : List A) → reverse (xs ++ ys) ≡ reverse ys ++ reverse xs
unfolding reverse
reverse-append [] ys = sym (append-nil (reverse ys))
reverse-append (x ∷ xs) ys =
    rw (reverse-append xs ys) (append_assoc (reverse ys) (reverse xs) (x ∷ []))

-- The results of a round: their contents, all errors or not.
abbrev pub results : List (Text × Text) → List ConversationMessage
results [] = []
results (r ∷ rs) = tool r.0 r.1 ∷ results rs

abbrev pub all_failed : List (Text × Text) → Bool
all_failed [] = true
all_failed (r ∷ rs) = is_error r.1 && all_failed rs

&&_swap : (a f e : Bool) → (a && f) && e ≡ a && (e && f)
&&_swap true true true = refl
&&_swap true true false = refl
&&_swap true false true = refl
&&_swap true false false = refl
&&_swap false f e = refl

&&_true : (a : Bool) → a ≡ a && true
&&_true true = refl
&&_true false = refl

abbrev some_results : Bool → List (Text × Text) → Bool
some_results has [] = has
some_results has (r ∷ rs) = true

-- The loop on the results of a round, last first.
error_rounds-results :
    (n : ℕ) (has all : Bool) (rs : List (Text × Text)) (before : List ConversationMessage)
    → error_rounds n has all (reverse (results rs) ++ before)
      ≡ error_rounds n (some_results has rs) (all && all_failed rs) before
unfolding error_rounds reverse
error_rounds-results n has all [] before = ap (λ x. error_rounds n has x before) (&&_true all)
error_rounds-results n has all (r ∷ rs) before =
    rw
      (
        append_assoc (reverse (results rs)) (tool r.0 r.1 ∷ []) before,
        error_rounds-results n has all rs (tool r.0 r.1 ∷ before),
      )
      (ap (λ x. error_rounds n true x before) (&&_swap all (all_failed rs) (is_error r.1)))

-- Counting from one more.
error_rounds_suc :
    (n : ℕ) (has all : Bool) (messages : List ConversationMessage)
    → n < 2 ^ 32
    → error_rounds ((n + 1) % 2 ^ 32) has all messages
      ≡ (error_rounds n has all messages + 1) % 2 ^ 32
unfolding error_rounds
error_rounds_suc n has all [] h = refl
error_rounds_suc n has all (tool id content ∷ messages) h =
    error_rounds_suc n true (all && is_error content) messages h
error_rounds_suc n has all (user content ∷ messages) h = error_rounds_suc n has all messages h
error_rounds_suc n has all (system content ∷ messages) h = refl
error_rounds_suc n has all (assistant content [] reasoning ∷ messages) h = refl
error_rounds_suc n false all (assistant content (call ∷ calls) reasoning ∷ messages) h =
    error_rounds_suc n false true messages h
error_rounds_suc n true false (assistant content (call ∷ calls) reasoning ∷ messages) h = refl
error_rounds_suc n true true (assistant content (call ∷ calls) reasoning ∷ messages) h =
    error_rounds_suc ((n + 1) % 2 ^ 32) false true messages (omega arith)

-- A conversation with one more round of calls and its results.
abbrev pub with_round :
    List ConversationMessage
    → Option Text
    → LlmToolCall
    → List LlmToolCall
    → Option Text
    → List (Text × Text)
    → List ConversationMessage
with_round conversation content call calls reasoning rs =
    conversation ++ assistant content (call ∷ calls) reasoning ∷ results rs

reverse-with_round :
    (conversation : List ConversationMessage) (content : Option Text) (call : LlmToolCall)
    (calls : List LlmToolCall) (reasoning : Option Text) (rs : List (Text × Text))
    → reverse (with_round conversation content call calls reasoning rs)
      ≡ reverse (results rs) ++ (assistant content (call ∷ calls) reasoning ∷ reverse conversation)
unfolding reverse
reverse-with_round conversation content call calls reasoning rs =
    reverse-append conversation (assistant content (call ∷ calls) reasoning ∷ results rs)
    ∙ append_assoc (reverse (results rs)) (assistant content (call ∷ calls) reasoning ∷ [])
        (reverse conversation)

-- The count after a round with these results, from the count before it.
abbrev pub next_errors : List (Text × Text) → ℕ → ℕ
next_errors [] n = n
next_errors (r ∷ rs) n = if all_failed (r ∷ rs) then (n + 1) % 2 ^ 32 else 0

-- A further round of tool calls adds one to the rounds of errors at the end if all its results are
-- errors, ends them if one is not, and leaves them as they are while it has no result.
pub consecutive_error_rounds-round :
    (conversation : List ConversationMessage) (content : Option Text) (call : LlmToolCall)
    (calls : List LlmToolCall) (reasoning : Option Text) (rs : List (Text × Text))
    → consecutive_error_rounds (with_round conversation content call calls reasoning rs)
      ≡ next_errors rs (consecutive_error_rounds conversation)
unfolding consecutive_error_rounds error_rounds reverse
consecutive_error_rounds-round conversation content call calls reasoning [] =
    rw (consecutive_error_rounds, reverse-with_round conversation content call calls reasoning [])
      refl
consecutive_error_rounds-round conversation content call calls reasoning (r ∷ rs) =
    let a = assistant content (call ∷ calls) reasoning in
    rw
      (
        consecutive_error_rounds,
        reverse-with_round conversation content call calls reasoning (r ∷ rs),
        error_rounds-results 0 false true (r ∷ rs) (a ∷ reverse conversation),
      )
      (counted (all_failed (r ∷ rs)))
  where
    counted :
        (all : Bool)
        → (if not all then 0 else error_rounds ((0 + 1) % 2 ^ 32) false true (reverse conversation))
          ≡ (if all then (error_rounds 0 false true (reverse conversation) + 1) % 2 ^ 32 else 0)
    counted true = error_rounds_suc 0 false true (reverse conversation) (omega arith)
    counted false = refl

rounds-results :
    (rs : List (Text × Text)) (before : List ConversationMessage)
    → rounds (reverse (results rs) ++ before) ≡ rounds before
unfolding rounds reverse
rounds-results [] before = refl
rounds-results (r ∷ rs) before =
    rw
      (
        append_assoc (reverse (results rs)) (tool r.0 r.1 ∷ []) before,
        rounds-results rs (tool r.0 r.1 ∷ before),
      )
      refl

round_eq→eq : (x y : Round) → round_eq x y ≡ true → x ≡ y
unfolding round_eq
round_eq→eq [] [] h = refl
round_eq→eq [] (b ∷ bs) h = ground arith
round_eq→eq (a ∷ as') [] h = ground arith
round_eq→eq (a ∷ as') (b ∷ bs) h =
    let name : a.0 ≡ b.0 = text_eq→eq a.0 b.0 (ground (arith, h)) in
    let arguments : a.1 ≡ b.1 = text_eq→eq a.1 b.1 (ground (arith, h)) in
    let rest : as' ≡ bs = round_eq→eq as' bs (ground (arith, h)) in
    λ i. (name i, arguments i) ∷ rest i

-- The streak once a further round is there, from the rounds before it, last first.
abbrev pub next_streak : Round → List Round → ℕ
next_streak round [] = 1
next_streak round (last ∷ more) =
    if round_eq last round then (streak (last ∷ more) + 1) % 2 ^ 32 else 1

streak_cons :
    (round : Round) (before : List Round) → streak (round ∷ before) ≡ next_streak round before
unfolding streak same_prefix
streak_cons round [] = omega arith
streak_cons round (last ∷ more) = elim (Bool-cases (round_eq last round)) [
  | inl e ↦
      let same : same_prefix last more ≡ same_prefix round more =
        ap (λ r. same_prefix r more) (round_eq→eq last round e) in
      rw e (omega (arith, same))
  | inr e ↦ rw e (omega arith)
]

-- A further round of tool calls, whatever its results, makes the streak of equal rounds one longer
-- if it makes the same calls as the last round, and otherwise starts a streak of one.
pub repeated_call_streak-round :
    (conversation : List ConversationMessage) (content : Option Text) (call : LlmToolCall)
    (calls : List LlmToolCall) (reasoning : Option Text) (rs : List (Text × Text))
    → repeated_call_streak (with_round conversation content call calls reasoning rs)
      ≡ next_streak (round_of (call ∷ calls)) (rounds (reverse conversation))
unfolding repeated_call_streak rounds
repeated_call_streak-round conversation content call calls reasoning rs =
    rw
      (
        repeated_call_streak,
        reverse-with_round conversation content call calls reasoning rs,
        rounds-results rs (assistant content (call ∷ calls) reasoning ∷ reverse conversation),
      )
      (streak_cons (round_of (call ∷ calls)) (rounds (reverse conversation)))
