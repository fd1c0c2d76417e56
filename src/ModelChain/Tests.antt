-- ===== src/ModelChain/Tests.antt =====
-- A chain of two models under fallbacks and a reset.
use ah.Base.{
  ℕ, ◌<◌, ◌≡◌, refl, List, [], ◌∷◌, All, Option, Text, none, some, bytes, false, length, arith,
}
use ah.ModelChain.{
  ModelChainEntry, ModelChainState, new_state, current_entry, current_model, current_provider,
  step_fallback, reset_if_cooldown_expired, Event, falls_back, looks, step, run,
}
use ah.ModelChain.Fallback.{Ends, IsCooling, current_entry-run}

abbrev chain : List ModelChainEntry
unfolding bytes
chain =
    record {
      provider = bytes "openai";
      model = bytes "gpt-4.1-mini";
      fallback_cooldown_secs = none;
      vision = false;
    }
    ∷ record {
      provider = bytes "deepseek";
      model = bytes "deepseek-chat";
      fallback_cooldown_secs = some 120;
      vision = false;
    }
    ∷ []

-- A fallback, one that finds no further model, and a look too early.
abbrev busy : List Event
busy = falls_back 60 1000 ∷ falls_back 60 2000 ∷ looks 3000 ∷ []

-- The last instant of a clock that counts nanoseconds in 63 bits.
abbrev latest : ℕ
latest = 9223372036854775807

unfoldable provider_of : Option ModelChainState → Option Text
provider_of none = none
provider_of (some s) = current_provider s

unfoldable model_of : Option ModelChainState → Option Text
model_of none = none
model_of (some s) = current_model s

on_second :
    (model_of (run latest (new_state chain 60) busy) ≡ some (bytes "deepseek-chat"))
    × (provider_of (run latest (new_state chain 60) (falls_back 0 5 ∷ looks 5 ∷ []))
        ≡ some (bytes "openai"))
unfolding provider_of model_of current_model current_provider current_entry run step step_fallback
    reset_if_cooldown_expired new_state chain bytes ah.ModelChain.add_seconds
on_second = (refl, refl)

-- A cooldown of u64::MAX seconds panics.
too_long : run latest (new_state chain 60) (falls_back 18446744073709551615 1000 ∷ []) ≡ none
unfolding run step step_fallback new_state chain ah.ModelChain.add_seconds
too_long = refl

chain_filled : 0 < length chain
unfolding chain
chain_filled = omega arith

busy-Ends : All (Ends latest) busy
unfolding Ends
busy-Ends = (omega arith, (omega arith, (tt, tt)))

current_entry-run_example :
    (s : ModelChainState) × (run latest (new_state chain 60) busy ≡ some s)
    × ((entry : ModelChainEntry) × (current_entry s ≡ some entry))
    × IsCooling s
current_entry-run_example = current_entry-run latest chain 60 busy chain_filled busy-Ends
