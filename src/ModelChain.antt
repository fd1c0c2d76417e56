-- ===== src/ModelChain.antt =====
-- The chain of models of an agent, src/domain/model_chain.rs: the model in use, the fallback to the
-- next one and the return to the first after a cooldown. `none` is a panic: of an index out of
-- range, or of the sum of an Instant and a Duration. The clock that `step_fallback` reads is an
-- argument, and so is `latest`, the last instant that an Instant can hold.
mod Fallback
mod Tests
use ah.Base.{
  ℕ, ◌+◌, ◌*◌, Bool, true, false, List, [], ◌∷◌, Option, none, some, Text, leb, if◌then◌else◌,
  length, get_elem?,
}

pub record ModelChainEntry : Type 0 where
  pub provider : Text
  pub model : Text
  pub fallback_cooldown_secs : Option ℕ
  pub vision : Bool

pub record ModelChainState : Type 0 where
  pub chain : List ModelChainEntry
  pub active_index : ℕ
  pub cooldown_until : Option ℕ
  pub default_cooldown_secs : ℕ

-- `ModelChainState::new`.
unfoldable pub new_state : List ModelChainEntry → ℕ → ModelChainState
new_state chain default_cooldown_secs = record {
  chain = chain;
  active_index = 0;
  cooldown_until = none;
  default_cooldown_secs = default_cooldown_secs;
}

unfoldable pub current_entry : ModelChainState → Option ModelChainEntry
current_entry s = get_elem? s.chain s.active_index

unfoldable pub current_provider : ModelChainState → Option Text
current_provider s = elim (current_entry s) [ none ↦ none | some e ↦ some e.provider ]

unfoldable pub current_model : ModelChainState → Option Text
current_model s = elim (current_entry s) [ none ↦ none | some e ↦ some e.model ]

-- The sum of an Instant and a Duration of whole seconds, in nanoseconds.
unfoldable pub add_seconds : ℕ → ℕ → ℕ → Option ℕ
add_seconds latest now secs =
    let sum = now + secs * 1000000000 in if leb sum latest then some sum else none

unfoldable pub step_fallback : ℕ → ModelChainState → ℕ → ℕ → Option (ModelChainState × Bool)
step_fallback latest s cooldown_secs now =
    if leb (length s.chain) (s.active_index + 1)
    then some (s, false)
    else elim (add_seconds latest now cooldown_secs) [
      | none ↦ none
      | some until ↦
          some (record s { active_index = s.active_index + 1; cooldown_until = some until }, true)
    ]

unfoldable pub reset_if_cooldown_expired : ModelChainState → ℕ → ModelChainState × Bool
reset_if_cooldown_expired s now = elim s.cooldown_until [
  | none ↦ (s, false)
  | some until ↦
      if leb until now
      then (record s { active_index = 0; cooldown_until = none }, true)
      else (s, false)
]

-- A failure that falls back, with its cooldown and instant, or a look at the cooldown.
pub data Event : Type 0 where
  falls_back : ℕ → ℕ → Event
  looks : ℕ → Event

unfoldable pub step : ℕ → ModelChainState → Event → Option ModelChainState
step latest s (falls_back cooldown_secs now) = elim (step_fallback latest s cooldown_secs now) [
  | none ↦ none
  | some r ↦ some r.0
]
step latest s (looks now) = some (reset_if_cooldown_expired s now).0

unfoldable pub run : ℕ → ModelChainState → List Event → Option ModelChainState
run latest s [] = some s
run latest s (e ∷ events) = elim (step latest s e) [ none ↦ none | some s' ↦ run latest s' events ]
