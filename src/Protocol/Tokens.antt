-- ===== src/Protocol/Tokens.antt =====
-- The token estimate that is kept along, and what a compression leaves out.
use ah.Base.{
  ℕ, ◌+◌, ◌-◌, ◌^◌, ◌<◌, min, ◌≡◌, refl, sym, ◌∙◌, true, ◌&&◌, not, List, [], ◌∷◌, ◌++◌, map,
  append-nil, append_assoc, none, some, Text, text_eq, arith, any, length, drop, All, Bool-cases,
  Option-cases, inl, inr, ◌⊎◌,
}
use ah.Protocol.{
  ConversationMessage, user, tool, last_assistant, is_result, interrupted, missing, close_pending,
  RuntimeConversation, fresh, AgentExecutionResult, asked_from, reply, AgentExecutionOutput,
  remember, remember_response, record_tool_result, push_user, invalidate, add_tokens,
  message_tokens, is_some, Event, remembers, records, asks, compresses, step, run, restore,
  saturating_add,
}
use ah.Errors.{ExecutionError}

-- The exact sum.
abbrev pub sum_tokens : (Text → ℕ) → List ConversationMessage → ℕ
sum_tokens estimate [] = 0
sum_tokens estimate (m ∷ messages) = message_tokens estimate m + sum_tokens estimate messages

abbrev pub held : RuntimeConversation → List ConversationMessage
held c = elim c.messages [ none ↦ [] | some messages ↦ messages ]

module _ (estimate_tokens : Text → ℕ) where
  abbrev Exact : RuntimeConversation → Type 0
  Exact c = c.estimated_tokens ≡ min (sum_tokens estimate_tokens (held c)) (2 ^ 32 - 1)

  add_tokens-sum :
      (n : ℕ) (messages : List ConversationMessage)
      → n < 2 ^ 32
      → add_tokens estimate_tokens n messages
        ≡ min (n + sum_tokens estimate_tokens messages) (2 ^ 32 - 1)
  unfolding add_tokens saturating_add
  add_tokens-sum n [] h = omega arith
  add_tokens-sum n (m ∷ messages) h =
      rw
        (add_tokens-sum (saturating_add n (message_tokens estimate_tokens m)) messages
          (omega arith))
        (omega arith)

  sum_tokens-append :
      (xs ys : List ConversationMessage)
      → sum_tokens estimate_tokens (xs ++ ys)
        ≡ sum_tokens estimate_tokens xs + sum_tokens estimate_tokens ys
  sum_tokens-append [] ys = omega arith
  sum_tokens-append (m ∷ xs) ys = omega (arith, sum_tokens-append xs ys)

  drop-append {ℓ} : {A : Type ℓ} (xs ys : List A) → drop (length xs) (xs ++ ys) ≡ ys
  drop-append [] ys = refl
  drop-append (x ∷ xs) ys = drop-append xs ys

  close_pending-extends :
      (messages : List ConversationMessage)
      → (extra : List ConversationMessage) × (close_pending messages ≡ messages ++ extra)
  unfolding close_pending
  close_pending-extends messages = elim (Option-cases (last_assistant messages)) [
    | inl e ↦ ([], rw (close_pending, e) (sym (append-nil messages)))
    | inr ((calls, after), e) ↦ (map interrupted (missing calls after), rw (close_pending, e) refl)
  ]

  remember-Exact : (messages : List ConversationMessage) → Exact (remember estimate_tokens messages)
  unfolding remember
  remember-Exact messages = rw (add_tokens-sum 0 messages (omega arith)) (omega arith)

  remember_response-Exact :
      (c : RuntimeConversation) (r : AgentExecutionResult)
      → Exact c
      → Exact (remember_response estimate_tokens c r)
  unfolding remember_response
  remember_response-Exact c r h = remembered r.result
    where
      remembered :
          (result : AgentExecutionOutput ⊎ ExecutionError)
          → Exact (remember_response estimate_tokens c (record r { result = result }))
      remembered (inr error) = h
      remembered (inl output) = elim (Bool-cases (is_some r.conversation && c.invalidated)) [
        | inl e ↦ rw e h
        | inr e ↦ rw e (remember-Exact (asked_from r.prompt r.conversation ++ reply output ∷ []))
      ]

  added-Exact :
      (c : RuntimeConversation) (messages more : List ConversationMessage)
      → c.messages ≡ some messages
      → Exact c
      → add_tokens estimate_tokens c.estimated_tokens more
        ≡ min (sum_tokens estimate_tokens (messages ++ more)) (2 ^ 32 - 1)
  added-Exact c messages more e h =
      let exact : c.estimated_tokens ≡ min (sum_tokens estimate_tokens messages) (2 ^ 32 - 1) =
        h ∙ rw (held, e) refl in
      rw
        (
          add_tokens-sum c.estimated_tokens more (omega (arith, exact)),
          sum_tokens-append messages more,
        )
        (omega (arith, exact))

  record_tool_result-Exact :
      (c : RuntimeConversation) (id content : Text)
      → Exact c
      → Exact (record_tool_result estimate_tokens c id content)
  unfolding record_tool_result add_tokens message_tokens
  record_tool_result-Exact c id content h = elim (Option-cases c.messages) [
    | inl n ↦ rw (record_tool_result, n) h
    | inr (messages, n) ↦ elim (Option-cases (last_assistant messages)) [
      | inl e ↦ rw (record_tool_result, n, e) h
      | inr ((calls, after), e) ↦
          elim (Bool-cases
            (any (λ call. text_eq call.id id) calls && not (any (is_result id) after))) [
              | inr p ↦ rw (record_tool_result, n, e, p) h
              | inl p ↦
                  rw (record_tool_result, n, e, p)
                    (added-Exact c messages (tool id content ∷ []) n h)
            ]
    ]
  ]

  push_user-Exact :
      (c : RuntimeConversation) (content : Text)
      → Exact c
      → Exact (push_user estimate_tokens c content)
  unfolding push_user
  push_user-Exact c content h = elim (Option-cases c.messages) [
    | inl n ↦ rw (push_user, n) h
    | inr (messages, n) ↦
        let (extra, x) = close_pending-extends messages in
        let all : close_pending messages ++ user content ∷ []
            ≡ messages ++ (extra ++ user content ∷ []) =
          rw x (append_assoc messages extra (user content ∷ [])) in
        rw (push_user, n, all, drop-append messages (extra ++ user content ∷ []))
          (added-Exact c messages (extra ++ user content ∷ []) n h)
  ]

  step-Exact : (c : RuntimeConversation) (e : Event) → Exact c → Exact (step estimate_tokens c e)
  unfolding step invalidate
  step-Exact c (remembers r) h = remember_response-Exact c r h
  step-Exact c (records id content) h = record_tool_result-Exact c id content h
  step-Exact c (asks content) h = push_user-Exact c content h
  step-Exact c compresses h = omega arith

  run-Exact :
      (c : RuntimeConversation) (events : List Event)
      → Exact c
      → Exact (run estimate_tokens c events)
  unfolding run
  run-Exact c [] h = h
  run-Exact c (e ∷ events) h = run-Exact (step estimate_tokens c e) events (step-Exact c e h)

  -- Whatever happens to a fresh conversation, its token estimate is the sum of the estimates of the
  -- messages that it holds, cut at the largest u32.
  pub estimated_tokens-run :
      (events : List Event)
      → (run estimate_tokens fresh events).estimated_tokens
        ≡ min (sum_tokens estimate_tokens (held (run estimate_tokens fresh events))) (2 ^ 32 - 1)
  unfolding fresh
  estimated_tokens-run events = run-Exact fresh events (omega arith)

  -- Everything but a response to a prompt without history.
  abbrev pub InFlight : Event → Type 0
  InFlight (remembers r) = is_some r.conversation ≡ true
  InFlight (records id content) = Unit
  InFlight (asks content) = Unit
  InFlight compresses = Unit

  abbrev Gone : RuntimeConversation → Type 0
  Gone c = (c.messages ≡ none) × (c.invalidated ≡ true)

  step-Gone :
      (c : RuntimeConversation) (e : Event) → InFlight e → Gone c → Gone (step estimate_tokens c e)
  unfolding step remember_response record_tool_result push_user invalidate
  step-Gone c (remembers r) k (g, i) = remembered r.result
    where
      remembered :
          (result : AgentExecutionOutput ⊎ ExecutionError)
          → Gone (remember_response estimate_tokens c (record r { result = result }))
      remembered (inr error) = (g, i)
      remembered (inl output) =
          let both : is_some r.conversation && c.invalidated ≡ true = rw (k, i) refl in
          rw (remember_response, both) (g, i)
  step-Gone c (records id content) k (g, i) = rw (record_tool_result, g) (g, i)
  step-Gone c (asks content) k (g, i) = rw (push_user, g) (g, i)
  step-Gone c compresses k g = (refl, refl)

  run-Gone :
      (c : RuntimeConversation) (events : List Event)
      → All InFlight events
      → Gone c
      → Gone (run estimate_tokens c events)
  unfolding run
  run-Gone c [] k g = g
  run-Gone c (e ∷ events) k g = run-Gone (step estimate_tokens c e) events k.1 (step-Gone c e k.0 g)

  -- Once a compression has dropped the history, it is not restored, whatever results, user messages
  -- and compressions follow and whatever responses that still carry an old history.
  pub restore-invalidate :
      (c : RuntimeConversation) (events : List Event)
      → All InFlight events
      → restore (run estimate_tokens (invalidate c) events) ≡ none
  unfolding restore invalidate
  restore-invalidate c events k =
      rw (restore, (run-Gone (invalidate c) events k (refl, refl)).0) refl
